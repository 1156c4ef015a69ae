-- ===== src/ResumeMatching/Phrases.antt =====
-- What the three patterns of `extract_years_required` read (core/resume_matching.py).
use jobbot.Prelude.{
  ℕ, zero, suc, ◌<◌, ◌≡◌, refl, ◌⊎◌, inl, inr, Bool, true, false, ◌&&◌, ◌++◌, Option, none, some,
  ◌==◌, max, arith,
}
use jobbot.Text.{Text, lit}
use jobbot.Text.Decimal.{str}
use jobbot.ResumeMatching.{extract_years_required}

-- A phrase for each of the patterns, which the other two do not match.
pub data Phrase : Type 0 where
  experience minimum years_in : Phrase

abbrev pub say : Phrase → ℕ → Text
say experience n = str n ++ lit "+ years of experience"
say minimum n = lit "at least " ++ (str n ++ lit " years")
say years_in n = str n ++ lit " yrs in QA"

abbrev pub say_both : (first second : Phrase) → (n m : ℕ) → Text
say_both first second n m = say first n ++ (lit ", " ++ say second m)

abbrev is_exactly : ℕ → Option ℕ → Bool
is_exactly n none = false
is_exactly n (some m) = m == n

is_exactly_sound : (n : ℕ) (o : Option ℕ) → is_exactly n o ≡ true → o ≡ some n
is_exactly_sound n none h = cc h
is_exactly_sound n (some m) h = let e : m ≡ n = ground (arith, h) in rw e refl

-- A test that holds of every number below a bound.
abbrev all_below : (ℕ → Bool) → ℕ → Bool
all_below p zero = true
all_below p (suc b) = p b && all_below p b

both_true : (a b : Bool) → (a && b) ≡ true → (a ≡ true) × (b ≡ true)
both_true a b h = ground (arith, h)

below_suc : (n b : ℕ) → n < suc b → (n ≡ b) ⊎ (n < b)
below_suc n b h = omega (arith, h)

all_below_sound : (p : ℕ → Bool) (b n : ℕ) → all_below p b ≡ true → n < b → p n ≡ true
all_below_sound p zero n h l = absurd (omega (arith, l))
all_below_sound p (suc b) n h l =
    let (here, rest) = both_true (p b) (all_below p b) h in
    elim (below_suc n b l) [ inl e ↦ rw e here | inr k ↦ all_below_sound p b n rest k ]

abbrev reads_max : (first second : Phrase) → ℕ → ℕ → Bool
reads_max first second n m =
    is_exactly (max n m) (extract_years_required (say_both first second n m))

abbrev reads_all : (first second : Phrase) → Bool
reads_all first second = all_below (λ n. all_below (reads_max first second n) 12) 12

all_read : (first second : Phrase) → reads_all first second ≡ true
unfolding extract_years_required str
all_read experience experience = refl
all_read experience minimum = refl
all_read experience years_in = refl
all_read minimum experience = refl
all_read minimum minimum = refl
all_read minimum years_in = refl
all_read years_in experience = refl
all_read years_in minimum = refl
all_read years_in years_in = refl

-- A text of two phrases with numbers below 12, each "n+ years of experience", "at least n years" or
-- "n yrs in QA", which are one for each of the three patterns, requires the larger of the two
-- numbers.
pub two_phrases_required :
    (first second : Phrase) (n m : ℕ)
    → n < 12
    → m < 12
    → extract_years_required (say_both first second n m) ≡ some (max n m)
two_phrases_required first second n m below_n below_m =
    is_exactly_sound (max n m) (extract_years_required (say_both first second n m)) (
      all_below_sound (reads_max first second n) 12 m
        (all_below_sound (λ k. all_below (reads_max first second k) 12) 12 n (all_read first second)
          below_n)
        below_m)
