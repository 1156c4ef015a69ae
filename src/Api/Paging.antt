-- ===== src/Api/Paging.antt =====
-- The pages of a listing against the list that the query selects (apps/api/routes/jobs.py).
use mathlib.Core.List.{Perm, Permᴰ}
use mathlib.Core.List.Perm
use mathlib.Core.Logic.{∥∥₁_elim}
use native.Mathlib.Nat.{ℕ_set}
use jobbot.Prelude.{
  ℕ, zero, suc, ◌+◌, ◌-◌, ◌*◌, ◌≤◌, ◌≡◌, refl, ap, ◌∙◌, sym, Bool, List, [], ◌∷◌, ◌++◌, map, arith,
  length, take, drop, select,
}
use jobbot.Model.{Job}
use jobbot.Api.Listing.{
  Rows, JobListItem, JobListResponse, job_to_list_item, JobQuery, matches, respond, list_jobs,
}

Permᴰ-length : {A : Type 0} {xs ys : List A} → Permᴰ xs ys → length xs ≡ length ys
Permᴰ-length Permᴰ.nil = refl
Permᴰ-length (Permᴰ.cons e p) = ap suc (Permᴰ-length p)
Permᴰ-length (Permᴰ.swap e f) = refl
Permᴰ-length (Permᴰ.trans p q) = Permᴰ-length p ∙ Permᴰ-length q

length-perm : {A : Type 0} {xs ys : List A} → Perm xs ys → length xs ≡ length ys
length-perm p = ∥∥₁_elim p (ℕ_set _ _) Permᴰ-length

take_all : {A : Type 0} (n : ℕ) (xs : List A) → length xs ≤ n → take n xs ≡ xs
take_all zero [] h = refl
take_all zero (x ∷ xs) h = absurd (omega (arith, h))
take_all (suc n) [] h = refl
take_all (suc n) (x ∷ xs) h = ap (λ (r : List _). x ∷ r) (take_all n xs (omega (arith, h)))

take-nil : {A : Type 0} (n : ℕ) → take {A = A} n [] ≡ []
take-nil zero = refl
take-nil (suc n) = refl

take-drop :
    {A : Type 0} (n k m : ℕ) (xs : List A) → m ≡ n + k → take n xs ++ take k (drop n xs) ≡ take m xs
take-drop zero k m xs e = let same : k ≡ m = omega (arith, e) in ap (λ (i : ℕ). take i xs) same
take-drop (suc n) k m [] e = rw (take-nil k, take-nil m) refl
take-drop (suc n) k zero (x ∷ xs) e = absurd (omega (arith, e))
take-drop (suc n) k (suc m) (x ∷ xs) e =
    ap (λ (r : List _). x ∷ r) (take-drop n k m xs (omega (arith, e)))

map-append : {A B : Type 0} (f : A → B) (xs ys : List A) → map f (xs ++ ys) ≡ map f xs ++ map f ys
map-append f [] ys = refl
map-append f (x ∷ xs) ys = ap (λ (r : List _). f x ∷ r) (map-append f xs ys)

-- The items of the pages 1 to `n` of a request.
abbrev pub pages : (ℕ → JobListResponse) → ℕ → List JobListItem
pages request zero = []
pages request (suc n) = pages request n ++ (request (suc n)).items

module _ (order_by : List Job → List Job) (condition : Job → Bool) (per_page : ℕ)
    (rows : Rows) where
  abbrev request : ℕ → JobListResponse
  request page = respond order_by page per_page condition rows

  pages-take :
      (n : ℕ)
      → pages request n
        ≡ map (job_to_list_item rows) (take (n * per_page) (order_by (select condition rows.jobs)))
  unfolding respond
  pages-take zero = let none_yet : 0 * per_page ≡ 0 = omega arith in rw none_yet refl
  pages-take (suc n) =
      let found = order_by (select condition rows.jobs) in
      let offset : (suc n - 1) * per_page ≡ n * per_page =
        ap (λ (i : ℕ). i * per_page) (omega arith) in
      rw (offset, pages-take n)
        (sym (map-append (job_to_list_item rows) (take (n * per_page) found) _)
          ∙ ap (map (job_to_list_item rows))
              (take-drop (n * per_page) per_page (suc n * per_page) found (omega arith)))

  -- Pages that are enough for all rows show a permutation of them.
  pub pages-perm :
      ((js : List Job) → Perm (order_by js) js)
      → (n : ℕ) → length (select condition rows.jobs) ≤ n * per_page
      → Perm (pages request n) (map (job_to_list_item rows) (select condition rows.jobs))
  pages-perm reorders n enough =
      let found = select condition rows.jobs in
      let all : take (n * per_page) (order_by found) ≡ order_by found =
        take_all (n * per_page) (order_by found)
          (omega (arith, length-perm (reorders found), enough)) in
      rw (pages-take n, all) (Perm.map (job_to_list_item rows) (reorders found))

-- If the database orders the rows the same way for every page, then pages 1 to n of a listing, when
-- n pages are enough for the reported total, show together exactly the rows that the query selects,
-- each as often as it is selected.
pub list_jobs-pages :
    (order_by : List Job → List Job) (query : JobQuery) (per_page n : ℕ) (rows : Rows)
    → ((js : List Job) → Perm (order_by js) js)
    → (list_jobs order_by query 1 per_page rows).total ≤ n * per_page
    → Perm
        (pages (λ page. list_jobs order_by query page per_page rows) n)
        (map (job_to_list_item rows) (select (matches query rows) rows.jobs))
unfolding list_jobs respond
list_jobs-pages order_by query per_page n rows reorders enough =
    pages-perm order_by (matches query rows) per_page rows reorders n enough
