-- ===== src/Shared/Text.antt =====
-- Texts as lists of code points: what the services measure, trim and cut.
use Prim.Native.Char.{code}
use Prim.Native.String.{String}
use Prim.Native.Nat.{ℕ, zero, suc, ◌+◌, ◌-◌, ◌/◌, ◌%◌}
use mathlib.Core.Path.{◌≡◌, refl}
use mathlib.Core.Logic.{◌↔◌}
use mathlib.Core.Bool.{Bool, true, false, ◌&&◌, ◌||◌}
use mathlib.Core.Option.{Option, none, some}
use mathlib.Core.List.{List, [], ◌∷◌, ◌++◌, map, reverse}
use native.Mathlib.Omega.{arith}
use forge_x.Shared.Tests.{leb, ltb, ◌==◌, if◌then◌else◌}
use forge_x.Shared.Lists.{length, take}

abbrev pub Text : Type 0
Text = List ℕ

-- The code points of a literal.
unfoldable pub codes : String → Text
codes String.[] = []
codes (String.◌∷◌ c s) = code c ∷ codes s

-- `str.isspace` of one character
unfoldable pub is_space : ℕ → Bool
is_space c =
    (leb 9 c && leb c 13)
    || (leb 28 c && leb c 32)
    || c == 133
    || c == 160
    || c == 5760
    || (leb 8192 c && leb c 8202)
    || c == 8232
    || c == 8233
    || c == 8239
    || c == 8287
    || c == 12288

unfoldable pub lstrip : Text → Text
lstrip [] = []
lstrip (c ∷ t) = if is_space c then lstrip t else c ∷ t

-- `str.strip()`
unfoldable pub strip : Text → Text
unfolding lstrip is_space
strip t = reverse (lstrip (reverse (lstrip t)))

-- `str.upper()` and `str.lower()`, on ASCII
unfoldable pub upper : Text → Text
upper = map λ c. if leb b'a' c && leb c b'z' then c - 32 else c

unfoldable pub lower : Text → Text
lower = map λ c. if leb b'A' c && leb c b'Z' then c + 32 else c

unfoldable pub text_eq : Text → Text → Bool
text_eq [] [] = true
text_eq [] (d ∷ u) = false
text_eq (c ∷ t) [] = false
text_eq (c ∷ t) (d ∷ u) = c == d && text_eq t u

pub text_eq_iff : (t u : Text) → (text_eq t u ≡ true) ↔ (t ≡ u)
unfolding text_eq
text_eq_iff [] [] = ground arith
text_eq_iff [] (d ∷ u) = ground arith
text_eq_iff (c ∷ t) [] = ground arith
text_eq_iff (c ∷ t) (d ∷ u) = ground (arith, text_eq_iff t u)

-- `a == b` where either may be None
unfoldable pub opt_text_eq : Option Text → Option Text → Bool
unfolding text_eq
opt_text_eq none none = true
opt_text_eq none (some u) = false
opt_text_eq (some t) none = false
opt_text_eq (some t) (some u) = text_eq t u

-- `value or ""`
abbrev pub or_empty : Option Text → Text
or_empty none = []
or_empty (some t) = t

-- `value or None`, of a text
abbrev pub or_null : Text → Option Text
or_null [] = none
or_null (c ∷ t) = some (c ∷ t)

-- `value or None`, of a text that may be None
abbrev pub or_null? : Option Text → Option Text
or_null? none = none
or_null? (some t) = or_null t

-- The decimal digits of a number, most significant first; `fuel` bounds their count.
unfoldable pub decimal_digits : ℕ → ℕ → Text → Text
decimal_digits zero n rest = rest
decimal_digits (suc fuel) n rest =
    let next = decimal_digits fuel (n / 10) ((48 + n % 10) ∷ rest) in
    if ltb n 10 then (48 + n) ∷ rest else next

-- `str(n)`
unfoldable pub decimal : ℕ → Text
unfolding decimal_digits
decimal n = decimal_digits (suc n) n []

unfoldable pub zeros : ℕ → Text
zeros zero = []
zeros (suc n) = 48 ∷ zeros n

-- `LPAD(n, w, '0')`, which cuts a longer number to its first w digits
unfoldable pub padded : ℕ → ℕ → Text
unfolding decimal zeros
padded w n = zeros (w - length (decimal n)) ++ take w (decimal n)

-- f-strings and CONCAT: literals, numbers and values joined in order.
pub data Piece : Type 0 where
  lit : String → Piece
  num : ℕ → Piece
  val : Text → Piece

unfoldable pub render : List Piece → Text
unfolding codes decimal
render [] = []
render (lit s ∷ ps) = codes s ++ render ps
render (num n ∷ ps) = decimal n ++ render ps
render (val t ∷ ps) = t ++ render ps

render_example : render (lit "AR-" ∷ num 1042 ∷ []) ≡ codes "AR-1042"
unfolding render codes decimal
render_example = refl

strip_example : strip (codes "  a b ") ≡ codes "a b"
unfolding strip codes
strip_example = refl
