-- ===== src/Prelude/Text.antt =====
-- Texts: equality, and the tests on them that the components use.
pub use text.Mathlib.Text.{◌==◌ as str_eq}
pub use text.Mathlib.TextEquality.{eq_iff}
pub use text.Mathlib.TextPositions.{eq_refl}
pub use Prim.Native.String.{◌++◌ as concat}
use Prim.Native.String.{String}
use Prim.Native.Char.{code}
use Prim.Native.Nat.{ℕ, zero, suc, ◌/◌, ◌%◌}
use llrdc_casting.Prelude.Tests.{◌==◌, ltb, if◌then◌else◌}
use mathlib.Core.List.{List, [], ◌∷◌}

-- `format!` of pieces that are texts already.
abbrev pub texts : List String → String
texts [] = ""
texts (s ∷ ss) = concat s (texts ss)

-- The code points of a text: its bytes, if it is ASCII.
abbrev pub codes : String → List ℕ
codes String.[] = []
codes (String.◌∷◌ c s) = code c ∷ codes s

-- `chars().take(n).collect()`.
abbrev pub text_take : ℕ → String → String
text_take zero s = String.[]
text_take (suc n) String.[] = String.[]
text_take (suc n) (String.◌∷◌ c s) = String.◌∷◌ c (text_take n s)

abbrev digit_text : ℕ → String
digit_text d =
    if d == 0
    then "0"
    else if d == 1
    then "1"
    else if d == 2
    then "2"
    else if d == 3
    then "3"
    else if d == 4
    then "4"
    else if d == 5
    then "5"
    else if d == 6
    then "6"
    else if d == 7
    then "7"
    else if d == 8
    then "8"
    else "9"

abbrev digits_from : ℕ → ℕ → String
digits_from zero n = ""
digits_from (suc fuel) n =
    let rest = digits_from fuel (n / 10) in
    if ltb n 10 then digit_text n else concat rest (digit_text (n % 10))

-- `to_string` of an unsigned number, which has at most twenty digits.
abbrev pub decimal : ℕ → String
decimal n = digits_from 20 n
