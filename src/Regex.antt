-- ===== src/Regex.antt =====
-- The part of Python's `re` that the program uses: character tests, sequences, alternatives, greedy
-- repetition of a character test, groups, `\b` and `$`. The matcher backtracks as `re` does: the
-- continuation `k` is what must still match.
pub mod Meaning
use Prim.Native.Nat.{pred}
use jobbot.Prelude.{
  ℕ, zero, suc, ◌-◌, Bool, true, false, not, ◌&&◌, ◌||◌, List, [], ◌∷◌, ◌++◌, Option, none, some,
  ◌==◌, if◌then◌else◌, length, take, is_nil,
}
use jobbot.Text.{Text, is_space, is_digit, is_word, lower_code}

pub data Re : Type 0 where
  eps bound finish : Re
  chr star : (ℕ → Bool) → Re
  seq alt : Re → Re → Re
  group : Re → Re

-- A place in the text: the character before it, the text after it, and the groups closed so far.
pub record Place : Type 0 where
  pub prev : Option ℕ
  pub rest : Text
  pub groups : List Text

abbrev pub step : Place → ℕ → Text → Place
step p c s = record p { prev = some c; rest = s }

unfoldable pub word_at : Option ℕ → Bool
unfolding is_word
word_at none = false
word_at (some c) = is_word c

abbrev pub head : Text → Option ℕ
head [] = none
head (c ∷ s) = some c

abbrev pub differ : Bool → Bool → Bool
differ true b = not b
differ false b = b

-- `\b`: of the two neighbours exactly one is a word character.
abbrev pub at_bound : Option ℕ → Text → Bool
at_bound prev s = differ (word_at prev) (word_at (head s))

-- `$` without MULTILINE: the end, or a last newline.
abbrev pub at_finish : Text → Bool
at_finish [] = true
at_finish (c ∷ s) = c == 10 && is_nil s

abbrev pub consumed : Place → Place → Text
consumed p q = take (length p.rest - length q.rest) p.rest

abbrev pub first {ℓ} : {A : Type ℓ} → Option A → Option A → Option A
first none o = o
first (some a) o = some a

unfoldable pub run_star :
    (ℕ → Bool) → List Text → Option ℕ → Text → (Place → Option Place) → Option Place
run_star f gs prev [] k = k (record { prev = prev; rest = []; groups = gs })
run_star f gs prev (c ∷ s) k =
    let longer = run_star f gs (some c) s k in
    let here = k (record { prev = prev; rest = c ∷ s; groups = gs }) in
    if f c then first longer here else here

abbrev pub run_chr : (ℕ → Bool) → Place → Text → (Place → Option Place) → Option Place
run_chr f p [] k = none
run_chr f p (c ∷ s) k = if f c then k (step p c s) else none

unfoldable pub run : Re → Place → (Place → Option Place) → Option Place
unfolding run_star word_at
run eps p k = k p
run bound p k = if at_bound p.prev p.rest then k p else none
run finish p k = if at_finish p.rest then k p else none
run (chr f) p k = run_chr f p p.rest k
run (star f) p k = run_star f p.groups p.prev p.rest k
run (seq r s) p k = run r p (λ m. run s m k)
run (alt r s) p k = first (run r p k) (run s p k)
run (group r) p k = run r p (λ m. k (record m { groups = m.groups ++ consumed p m ∷ [] }))

abbrev pub start : Option ℕ → Text → Place
start prev s = record { prev = prev; rest = s; groups = [] }

-- pattern.match(s)
unfoldable pub match_at : Re → Option ℕ → Text → Option Place
unfolding run
match_at r prev s = run r (start prev s) some

-- pattern.search(s)
unfoldable pub search_from : Re → Option ℕ → Text → Option Place
unfolding match_at
search_from r prev [] = match_at r prev []
search_from r prev (c ∷ s) = first (match_at r prev (c ∷ s)) (search_from r (some c) s)

-- re.findall(pattern, s) of a pattern with one group: the groups of the matches from left to right,
-- none of which overlaps another. `skip` counts the characters left of the last match.
unfoldable pub find_all : Re → ℕ → Option ℕ → Text → List Text
unfolding match_at
find_all r skip prev [] = []
find_all r (suc skip) prev (c ∷ s) = find_all r skip (some c) s
find_all r zero prev (c ∷ s) = elim (match_at r prev (c ∷ s)) [
  | none ↦ find_all r zero (some c) s
  | some q ↦ q.groups ++ find_all r (pred (length (c ∷ s) - length q.rest)) (some c) s
]

-- `r?`, `f+`
abbrev pub opt : Re → Re
opt r = alt r eps

abbrev pub plus : (ℕ → Bool) → Re
plus f = seq (chr f) (star f)

-- A character under IGNORECASE.
abbrev pub same_letter : ℕ → ℕ → Bool
same_letter a c = lower_code a == lower_code c

-- A literal text under IGNORECASE.
unfoldable pub letters : Text → Re
unfolding lower_code
letters [] = eps
letters (c ∷ s) = seq (chr (same_letter c)) (letters s)

-- The first of some literal texts that fits.
unfoldable pub one_of : List Text → Re
unfolding letters
one_of [] = chr (λ c. false)
one_of (t ∷ []) = letters t
one_of (t ∷ u ∷ ts) = alt (letters t) (one_of (u ∷ ts))

abbrev pub spaces : Re
spaces = star is_space

-- `\d{1,2}`
abbrev pub two_digits : Re
two_digits = seq (chr is_digit) (opt (chr is_digit))
