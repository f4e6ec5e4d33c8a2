-- ===== src/Drawing/Rooms.antt =====
-- Arithmetic of boxes and of rows of pixels, and the width of a text that is cut.
use native.Mathlib.Decide.{dec_lt}
use native.Mathlib.Nat.{div-le_of_le-mul, mul-le-mul_right, div-mul-le_self, le_trans}
use llrdc_casting.Drawing.{fit_text, max, take, codes}
use llrdc_casting.Prelude.{
  ℕ, suc, zero, ◌+◌, ◌*◌, ◌/◌, ◌≤◌, ◌<◌, ltb, List, [], ◌∷◌, ◌&&◌, length, set, get_elem?, ◌≡◌,
  refl, ◌⊎◌, inl, inr, arith, if_cases, ltb→lt, ◌≢◌, ap, length-take, ◌-◌, and-right, length-append,
}

-- Room for one more in a product.
pub mul_room : (a b s : ℕ) → a < b → a * s + s ≤ b * s
mul_room a b s h = grind arith

pub index_row : (w x y p q : ℕ) → x < w → p < w → y * w + x ≡ q * w + p → y ≡ q
index_row w x y p q hx hp e = elim (dec_lt y q) [
  | yes below ↦ absurd (omega (arith, mul_room y q w below))
  | no not_below ↦ elim (dec_lt q y) [
    | yes above ↦ absurd (omega (arith, mul_room q y w above))
    | no not_above ↦ omega arith
  ]
]

pub div_room : (n k m : ℕ) → k ≤ m → 0 < m → n * k / m ≤ n
div_room n k m h pos = div-le_of_le-mul m (omega (arith, mul-le-mul_right n h))

pub get_elem?-set_ne : (xs : List ℕ) (i j v : ℕ) → i ≢ j → get_elem? (set xs i v) j ≡ get_elem? xs j
get_elem?-set_ne [] i j v h = refl
get_elem?-set_ne (x ∷ xs) zero zero v h = absurd (h refl)
get_elem?-set_ne (x ∷ xs) zero (suc j) v h = refl
get_elem?-set_ne (x ∷ xs) (suc i) zero v h = refl
get_elem?-set_ne (x ∷ xs) (suc i) (suc j) v h = get_elem?-set_ne xs i j v (λ e. h (ap suc e))

-- A pixel that is not in a box.
abbrev pub Outside : ℕ → ℕ → ℕ → ℕ → ℕ → ℕ → Type 0
Outside qx qy x y w h = (qx < x) ⊎ (x + w ≤ qx) ⊎ (qy < y) ⊎ (y + h ≤ qy)

-- A smaller box leaves out what a larger one does.
pub Outside-within :
    (qx qy x y w h cx cy cw ch : ℕ)
    → x ≤ cx
    → cx + cw ≤ x + w
    → y ≤ cy
    → cy + ch ≤ y + h
    → Outside qx qy x y w h
    → Outside qx qy cx cy cw ch
Outside-within qx qy x y w h cx cy cw ch a b c d o = elim o [
  | inl left ↦ inl (omega arith)
  | inr (inl right) ↦ inr (inl (omega arith))
  | inr (inr (inl above)) ↦ inr (inr (inl (omega arith)))
  | inr (inr (inr below)) ↦ inr (inr (inr (omega arith)))
]

pub fit_text-length : (text : List ℕ) (max_chars : ℕ) → length (fit_text text max_chars) ≤ max_chars
unfolding fit_text
fit_text-length text max_chars =
    let short = length-take max_chars text in
    let cut = length-take (max_chars - 3) (take max_chars text) in
    if_cases (λ (l : List ℕ). length l ≤ max_chars) (ltb max_chars (length text) && ltb 3 max_chars)
      (λ long.
        let more : 3 < max_chars =
          ltb→lt 3 max_chars (and-right (ltb max_chars (length text)) (ltb 3 max_chars) long) in
        omega (
          arith,
          length-append (take (max_chars - 3) (take max_chars text)) (codes "..."),
          cut,
          more,
        ))
      (λ fits. omega (arith, short))

pub fitted_room :
    (text : List ℕ) (scale max_width : ℕ)
    → 0 < scale
    → length (fit_text text (max_width / max (8 * scale) 1)) * (8 * scale) ≤ max_width
fitted_room text scale max_width pos =
    let side : max (8 * scale) 1 ≡ 8 * scale = omega arith in
    let chars = fit_text-length text (max_width / max (8 * scale) 1) in
    let rows = mul-le-mul_right (8 * scale) chars in
    le_trans rows (rw side (div-mul-le_self max_width (8 * scale)))
