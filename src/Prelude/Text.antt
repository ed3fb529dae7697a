-- ===== src/Prelude/Text.antt =====
-- Text that the program looks into: its bytes. Text that it only compares is a `String`.
-- `to_lower` and `trim_space` are strings.ToLower and strings.TrimSpace on ASCII text.
use Prim.Native.Char.{code}
use subport.Prelude.{
  ltb, ℕ, ◌+◌, ◌≡◌, Bool, true, false, ◌&&◌, ◌||◌, String, List, [], ◌∷◌, map, arith, leb, ◌==◌,
  if◌then◌else◌,
}

abbrev pub Text : Type 0
Text = List ℕ

-- The bytes of an ASCII literal.
abbrev pub codes : String → Text
codes String.[] = []
codes (String.◌∷◌ c s) = code c ∷ codes s

unfoldable pub text_eq : Text → Text → Bool
text_eq [] [] = true
text_eq (x ∷ xs) (y ∷ ys) = x == y && text_eq xs ys
text_eq _ _ = false

pub text_eq_refl : (s : Text) → text_eq s s ≡ true
unfolding text_eq
text_eq_refl [] = ground arith
text_eq_refl (x ∷ xs) = ground (arith, text_eq_refl xs)

pub eq_of_text_eq : (s t : Text) → text_eq s t ≡ true → s ≡ t
unfolding text_eq
eq_of_text_eq [] [] h = ground arith
eq_of_text_eq [] (y ∷ ys) h = cc
eq_of_text_eq (x ∷ xs) [] h = cc
eq_of_text_eq (x ∷ xs) (y ∷ ys) h = ground (arith, eq_of_text_eq xs ys)

unfoldable pub lower_byte : ℕ → ℕ
lower_byte c = if leb b'A' c && leb c b'Z' then c + 32 else c

unfoldable pub to_lower : Text → Text
unfolding lower_byte
to_lower = map lower_byte

-- ' ', \t, \n, \v, \f, \r
unfoldable pub is_space : ℕ → Bool
is_space c = c == 32 || (leb 9 c && leb c 13)

unfoldable pub trim_left : Text → Text
unfolding is_space
trim_left [] = []
trim_left (c ∷ s) = let rest = trim_left s in if is_space c then rest else c ∷ s

unfoldable pub trim_right : Text → Text
unfolding is_space
trim_right [] = []
trim_right (c ∷ s) = elim (trim_right s) [
  | [] ↦ if is_space c then [] else c ∷ []
  | d ∷ r ↦ c ∷ d ∷ r
]

unfoldable pub trim_space : Text → Text
unfolding trim_left trim_right
trim_space s = trim_right (trim_left s)

unfoldable pub has_prefix : Text → Text → Bool
has_prefix s [] = true
has_prefix [] (y ∷ t) = false
has_prefix (x ∷ s) (y ∷ t) = x == y && has_prefix s t

-- The order of texts, byte by byte.
unfoldable pub text_leb : Text → Text → Bool
text_leb [] t = true
text_leb (x ∷ s) [] = false
text_leb (x ∷ s) (y ∷ t) = ltb x y || (x == y && text_leb s t)

-- strings.Contains
unfoldable pub contains : Text → Text → Bool
unfolding has_prefix
contains [] t = has_prefix [] t
contains (x ∷ s) t = has_prefix (x ∷ s) t || contains s t

unfoldable pub is_empty : Text → Bool
is_empty [] = true
is_empty (_ ∷ _) = false
