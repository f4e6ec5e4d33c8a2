-- ===== src/Prelude/Float.antt =====
-- IEEE 754 values given by their bit patterns: the classifications and comparisons of `f64` and
-- `f32` that the packet parser makes. An `f64` has 11 exponent bits over 52, an `f32` 8 over 23.
use Prim.Native.Nat.{ℕ, ◌+◌, ◌*◌, ◌/◌, ◌%◌, ◌^◌, ◌-◌}
use Prim.Native.String.{String}
use mathlib.Core.Bool.{Bool, true, false, not, ◌&&◌, ◌||◌}
use mathlib.Core.Option.{Option, none, some}
use llrdc_casting.Prelude.Tests.{◌==◌, ltb, leb, if◌then◌else◌}

abbrev pub f64_is_finite : ℕ → Bool
f64_is_finite bits = ltb (bits / 2 ^ 52 % 2 ^ 11) 2047

-- `is_finite() && value > 0.0`: the sign bit is clear and some other bit is set.
abbrev pub f64_is_positive : ℕ → Bool
f64_is_positive bits = f64_is_finite bits && (ltb 0 bits && ltb bits (2 ^ 63))

abbrev pub f64_is_nan : ℕ → Bool
f64_is_nan bits = not (f64_is_finite bits) && ltb 0 (bits % 2 ^ 52)

abbrev pub f64_is_zero : ℕ → Bool
f64_is_zero bits = bits % 2 ^ 63 == 0

-- `==` of floats: a NaN differs from all, and the two zeros agree.
abbrev pub f64_eq : ℕ → ℕ → Bool
f64_eq a b =
    not (f64_is_nan a) && not (f64_is_nan b) && (a == b || (f64_is_zero a && f64_is_zero b))

abbrev pub f32_is_finite : ℕ → Bool
f32_is_finite bits = ltb (bits / 2 ^ 23 % 2 ^ 8) 255

abbrev pub f32_is_nan : ℕ → Bool
f32_is_nan bits = not (f32_is_finite bits) && ltb 0 (bits % 2 ^ 23)

abbrev pub f32_is_zero : ℕ → Bool
f32_is_zero bits = bits % 2 ^ 31 == 0

abbrev pub f32_eq : ℕ → ℕ → Bool
f32_eq a b =
    not (f32_is_nan a) && not (f32_is_nan b) && (a == b || (f32_is_zero a && f32_is_zero b))

-- `PartialEq` of an optional float.
abbrev pub option_eq : (ℕ → ℕ → Bool) → Option ℕ → Option ℕ → Bool
option_eq eq none none = true
option_eq eq (some a) (some b) = eq a b
option_eq eq _ _ = false

abbrev pub f64_is_negative : ℕ → Bool
f64_is_negative bits = not (ltb bits (2 ^ 63))

-- `<` and `<=` of `f64`: false when either is a NaN.
abbrev pub f64_lt : ℕ → ℕ → Bool
f64_lt a b =
    not (f64_is_nan a)
    && not (f64_is_nan b)
    && not (f64_is_zero a && f64_is_zero b)
    && (if f64_is_negative a
        then (if f64_is_negative b then ltb (b % 2 ^ 63) (a % 2 ^ 63) else true)
        else not (f64_is_negative b) && ltb a b)

abbrev pub f64_le : ℕ → ℕ → Bool
f64_le a b = f64_lt a b || f64_eq a b

abbrev pub f64_max : ℕ → ℕ → ℕ
f64_max a b = if f64_is_nan a then b else if f64_lt a b then b else a

abbrev pub f64_abs : ℕ → ℕ
f64_abs a = a % 2 ^ 63

abbrev pub f64_neg : ℕ → ℕ
f64_neg a = (a + 2 ^ 63) % 2 ^ 64

-- `total_cmp` is not greater: the order in which `sort_by(f64::total_cmp)` leaves the values.
abbrev pub f64_total_le : ℕ → ℕ → Bool
f64_total_le a b =
    if f64_is_negative a
    then (if f64_is_negative b then leb b a else true)
    else not (f64_is_negative b) && leb a b

-- The rounding arithmetic of the hardware and the printing of floats, as a parameter.
pub record FloatOps : Type 0 where
  pub add : ℕ → ℕ → ℕ
  pub sub : ℕ → ℕ → ℕ
  pub mul : ℕ → ℕ → ℕ
  pub div : ℕ → ℕ → ℕ
  pub of_int : ℕ → ℕ
  pub of_f32 : ℕ → ℕ
  -- `round() as usize`.
  pub to_index : ℕ → ℕ
  -- `Duration::as_secs_f64` of nanoseconds.
  pub secs : ℕ → ℕ
  -- `{:.1}`.
  pub one_decimal : ℕ → String

-- Whole numbers in place of floats.
abbrev pub whole : FloatOps
whole = record {
  add = λ a b. a + b;
  sub = λ a b. a - b;
  mul = λ a b. a * b;
  div = λ a b. a / b;
  of_int = λ n. n;
  of_f32 = λ n. n;
  to_index = λ n. n;
  secs = λ n. n / 1000000000;
  one_decimal = λ n. "";
}
