-- ===== src/Common/Texts.antt =====
-- Go's strings as lists of characters, for the code of server/ that walks them.
use Prim.Native.Char.{Char, code as code_point}
use Prim.Native.Nat.{ℕ}
use remote_mouse.Common.Tests.{◌==◌, leb, if◌then◌else◌}
use Prim.Native.String.{String}
use mathlib.Core.Path.{◌≡◌, refl, ap}
use mathlib.Core.Bool.{Bool, true, false, ◌&&◌, ◌||◌}
use mathlib.Core.List.{List, [], ◌∷◌}

abbrev pub chars : String → List Char
chars String.[] = []
chars (String.◌∷◌ c s) = c ∷ chars s

abbrev pub text : List Char → String
text [] = String.[]
text (c ∷ s) = String.◌∷◌ c (text s)

pub text-chars : (s : String) → text (chars s) ≡ s
text-chars String.[] = refl
text-chars (String.◌∷◌ c s) = ap (String.◌∷◌ c) (text-chars s)

pub chars-text : (s : List Char) → chars (text s) ≡ s
chars-text [] = refl
chars-text (c ∷ s) = ap (◌∷◌ c) (chars-text s)

-- Is `c` the character with the code point n?
abbrev pub is_char : ℕ → Char → Bool
is_char n c = code_point c == n

abbrev pub is_nil {ℓ} : {A : Type ℓ} → List A → Bool
is_nil [] = true
is_nil (x ∷ xs) = false

-- unicode.IsSpace.
unfoldable pub is_space : Char → Bool
is_space c =
    let n = code_point c in
    n == 32
    || (leb 9 n && leb n 13)
    || n == 0x85
    || n == 0xa0
    || n == 0x1680
    || (leb 0x2000 n && leb n 0x200a)
    || n == 0x2028
    || n == 0x2029
    || n == 0x202f
    || n == 0x205f
    || n == 0x3000

unfoldable pub trim_left : List Char → List Char
trim_left [] = []
trim_left (c ∷ s) = let rest = trim_left s in if is_space c then rest else c ∷ s

unfoldable pub trim_right : List Char → List Char
trim_right [] = []
trim_right (c ∷ s) = let rest = trim_right s in if is_space c && is_nil rest then [] else c ∷ rest

-- strings.TrimSpace.
unfoldable pub trim_space : List Char → List Char
unfolding is_space trim_left trim_right
trim_space s = trim_right (trim_left s)
