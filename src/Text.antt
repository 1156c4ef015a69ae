-- ===== src/Text.antt =====
-- Python's `str` as the list of its code points, and the methods of it that the program calls.
-- Case and word characters are those of ASCII; white space is that of `str.isspace` below 128.
pub mod Laws
pub mod Order
pub mod Upper
pub mod Decimal
use Prim.Native.Char.{code}
use mathlib.Core.List.{reverse}
use jobbot.Prelude.{
  ℕ, ◌+◌, ◌-◌, String, Bool, true, false, ◌&&◌, ◌||◌, List, [], ◌∷◌, ◌++◌, map, ltb, leb, ◌==◌,
  if◌then◌else◌,
}

abbrev pub Text : Type 0
Text = List ℕ

-- A literal of the source.
abbrev pub lit : String → Text
lit String.[] = []
lit (String.◌∷◌ c s) = code c ∷ lit s

unfoldable pub is_space : ℕ → Bool
is_space c = (leb 9 c && leb c 13) || (leb 28 c && leb c 32)

unfoldable pub is_digit : ℕ → Bool
is_digit c = leb b'0' c && leb c b'9'

unfoldable pub is_upper : ℕ → Bool
is_upper c = leb b'A' c && leb c b'Z'

unfoldable pub is_word : ℕ → Bool
unfolding is_digit is_upper
is_word c = is_digit c || is_upper c || (leb b'a' c && leb c b'z') || c == b'_'

unfoldable pub lower_code : ℕ → ℕ
unfolding is_upper
lower_code c = if is_upper c then c + 32 else c

-- s.lower()
unfoldable pub lower : Text → Text
unfolding lower_code
lower s = map lower_code s

unfoldable pub text_eq : Text → Text → Bool
text_eq [] [] = true
text_eq (a ∷ s) (b ∷ t) = a == b && text_eq s t
text_eq _ _ = false

-- A set or list of texts, tested by equality.
unfoldable pub text_mem : Text → List Text → Bool
unfolding text_eq
text_mem t [] = false
text_mem t (u ∷ us) = text_eq u t || text_mem t us

-- s.lstrip(), s.rstrip(), s.strip()
unfoldable pub lstrip : Text → Text
unfolding is_space
lstrip [] = []
lstrip (c ∷ s) = if is_space c then lstrip s else c ∷ s

unfoldable pub rstrip : Text → Text
unfolding lstrip
rstrip s = reverse (lstrip (reverse s))

unfoldable pub strip : Text → Text
unfolding rstrip lstrip
strip s = rstrip (lstrip s)

-- s.rstrip("/")
unfoldable pub drop_slashes : Text → Text
drop_slashes [] = []
drop_slashes (c ∷ s) = if c == b'/' then drop_slashes s else c ∷ s

unfoldable pub rstrip_slash : Text → Text
unfolding drop_slashes
rstrip_slash s = reverse (drop_slashes (reverse s))

-- re.sub(r"\s+", " ", s): a run of white space becomes one space. The flag tells whether the
-- previous character was white space, so that the rest of its run is dropped.
unfoldable pub squeeze : Bool → Text → Text
unfolding is_space
squeeze after [] = []
squeeze after (c ∷ s) =
    let again = squeeze true s in
    let plain = squeeze false s in
    if is_space c then (if after then again else 32 ∷ again) else c ∷ plain

-- prefix in text
unfoldable pub starts_with : Text → Text → Bool
starts_with [] s = true
starts_with (a ∷ p) [] = false
starts_with (a ∷ p) (c ∷ s) = a == c && starts_with p s

-- p in s
unfoldable pub contains : Text → Text → Bool
unfolding starts_with
contains p [] = starts_with p []
contains p (c ∷ s) = starts_with p (c ∷ s) || contains p s
