-- ===== src/System/Rows.antt =====
-- Rows before and after a commit.
use jobbot.Prelude.{
  ℕ, ◌≡◌, refl, sym, subst, inl, inr, true, false, List, [], ◌∷◌, ◌++◌, none, some, Bool-cases,
  ◌==◌,
}
use jobbot.Text.{Text, text_eq}
use jobbot.Model.{Job}
use jobbot.Model.Tables.{find_job, put_job}
use jobbot.Ingest.{find_hash}
use jobbot.Ingest.Unique.{HashesUnique}
use jobbot.Pipeline.Sweep.{All₂}

pub All₂-refl :
    (R : Job → Job → Type 0) → ((a : Job) → R a a) → (rows : List Job) → All₂ R rows rows
All₂-refl R same [] = tt
All₂-refl R same (a ∷ rest) = (same a, All₂-refl R same rest)

pub All₂-trans :
    (R : Job → Job → Type 0)
    → ((a b c : Job) → R a b → R b c → R a c)
    → (js ks ls : List Job) → All₂ R js ks
    → All₂ R ks ls
    → All₂ R js ls
All₂-trans R then_ [] [] [] p q = tt
All₂-trans R then_ [] [] (c ∷ ls) p q = absurd q
All₂-trans R then_ [] (b ∷ ks) ls p q = absurd p
All₂-trans R then_ (a ∷ js) [] ls p q = absurd p
All₂-trans R then_ (a ∷ js) (b ∷ ks) [] p q = absurd q
All₂-trans R then_ (a ∷ js) (b ∷ ks) (c ∷ ls) p q =
    (then_ a b c p.0 q.0, All₂-trans R then_ js ks ls p.1 q.1)

pub All₂-map :
    (R S : Job → Job → Type 0)
    → ((a b : Job) → R a b → S a b)
    → (js ks : List Job) → All₂ R js ks
    → All₂ S js ks
All₂-map R S f [] [] p = tt
All₂-map R S f [] (b ∷ ks) p = absurd p
All₂-map R S f (a ∷ js) [] p = absurd p
All₂-map R S f (a ∷ js) (b ∷ ks) p = (f a b p.0, All₂-map R S f js ks p.1)

-- Writing a changed row back leaves the other rows.
pub put_job-All₂ :
    (R : Job → Job → Type 0)
    → ((a : Job) → R a a)
    → (id : ℕ) (old new : Job) (rows : List Job) → find_job id rows ≡ some old
    → new.id ≡ id
    → R old new
    → All₂ R rows (put_job new rows)
unfolding find_job put_job
put_job-All₂ R same id old new [] found e r = tt
put_job-All₂ R same id old new (k ∷ rows) found e r = elim (Bool-cases (k.id == id)) [
  | inl c ↦
      let row : some k ≡ some old = rw c at found in
      let first : k ≡ old = cc row in
      let here : (k.id == new.id) ≡ true = subst (λ n. (k.id == n) ≡ true) (sym e) c in
      rw here (subst (λ (x : Job). R x new) (sym first) r, All₂-refl R same rows)
  | inr c ↦
      let other : (k.id == new.id) ≡ false = subst (λ n. (k.id == n) ≡ false) (sym e) c in
      rw other (same k, put_job-All₂ R same id old new rows (rw c at found) e r)
]

abbrev pub SameHash : Job → Job → Type 0
SameHash a b = b.dedup_hash ≡ a.dedup_hash

find_hash-none :
    (hash : Text) (js ks : List Job)
    → All₂ SameHash js ks
    → find_hash hash js ≡ none
    → find_hash hash ks ≡ none
unfolding find_hash
find_hash-none hash [] [] p h = refl
find_hash-none hash [] (b ∷ ks) p h = absurd p
find_hash-none hash (a ∷ js) [] p h = absurd p
find_hash-none hash (a ∷ js) (b ∷ ks) p h = elim (Bool-cases (text_eq a.dedup_hash hash)) [
  | inl c ↦ cc (rw c at h)
  | inr c ↦ rw (p.0, c) (find_hash-none hash js ks p.1 (rw c at h))
]

pub HashesUnique-All₂ : (js ks : List Job) → All₂ SameHash js ks → HashesUnique js → HashesUnique ks
HashesUnique-All₂ [] [] p u = tt
HashesUnique-All₂ [] (b ∷ ks) p u = absurd p
HashesUnique-All₂ (a ∷ js) [] p u = absurd p
HashesUnique-All₂ (a ∷ js) (b ∷ ks) p u =
    (rw p.0 (find_hash-none a.dedup_hash js ks p.1 u.0), HashesUnique-All₂ js ks p.1 u.1)

-- Each row stays at its place, related to what it was, and new rows come behind.
abbrev pub Grows : (Job → Job → Type 0) → List Job → List Job → Type 0
Grows R [] ks = Unit
Grows R (a ∷ js) [] = ⊥
Grows R (a ∷ js) (b ∷ ks) = R a b × Grows R js ks

pub Grows-All₂ : (R : Job → Job → Type 0) (js ks : List Job) → All₂ R js ks → Grows R js ks
Grows-All₂ R [] ks p = tt
Grows-All₂ R (a ∷ js) [] p = absurd p
Grows-All₂ R (a ∷ js) (b ∷ ks) p = (p.0, Grows-All₂ R js ks p.1)

pub Grows-refl :
    (R : Job → Job → Type 0) → ((a : Job) → R a a) → (rows : List Job) → Grows R rows rows
Grows-refl R same rows = Grows-All₂ R rows rows (All₂-refl R same rows)

pub Grows-snoc :
    (R : Job → Job → Type 0) (js ks : List Job) (n : Job)
    → Grows R js ks
    → Grows R js (ks ++ n ∷ [])
Grows-snoc R [] ks n g = tt
Grows-snoc R (a ∷ js) [] n g = absurd g
Grows-snoc R (a ∷ js) (b ∷ ks) n g = (g.0, Grows-snoc R js ks n g.1)

pub Grows-trans :
    (R : Job → Job → Type 0)
    → ((a b c : Job) → R a b → R b c → R a c)
    → (js ks ls : List Job) → Grows R js ks
    → Grows R ks ls
    → Grows R js ls
Grows-trans R then_ [] ks ls p q = tt
Grows-trans R then_ (a ∷ js) [] ls p q = absurd p
Grows-trans R then_ (a ∷ js) (b ∷ ks) [] p q = absurd q
Grows-trans R then_ (a ∷ js) (b ∷ ks) (c ∷ ls) p q =
    (then_ a b c p.0 q.0, Grows-trans R then_ js ks ls p.1 q.1)

pub Grows-map :
    (R S : Job → Job → Type 0)
    → ((a b : Job) → R a b → S a b)
    → (js ks : List Job) → Grows R js ks
    → Grows S js ks
Grows-map R S f [] ks p = tt
Grows-map R S f (j ∷ js) [] p = absurd p
Grows-map R S f (j ∷ js) (k ∷ ks) p = (f j k p.0, Grows-map R S f js ks p.1)
