-- ===== src/Drawing/Loops.antt =====
-- A loop over a range, and what it keeps.
use llrdc_casting.Prelude.{ℕ, zero, suc, ◌+◌, ◌<◌, arith}

-- `for i in start..start + n`.
unfoldable pub repeat_from {ℓ} : {S : Type ℓ} → ℕ → ℕ → (ℕ → S → S) → S → S
repeat_from start zero body s = s
repeat_from start (suc n) body s = repeat_from (suc start) n body (body start s)

unfoldable pub repeat {ℓ} : {S : Type ℓ} → ℕ → (ℕ → S → S) → S → S
unfolding repeat_from
repeat n body s = repeat_from 0 n body s

module _ {ℓ κ} {S : Type ℓ} (P : S → Type κ) where
  repeat_from_keeps :
      (start n : ℕ) (body : ℕ → S → S) (s : S)
      → ((i : ℕ) (t : S) → i < start + n → P t → P (body i t))
      → P s
      → P (repeat_from start n body s)
  unfolding repeat_from
  repeat_from_keeps start zero body s keep h = h
  repeat_from_keeps start (suc n) body s keep h =
      repeat_from_keeps (suc start) n body (body start s) (λ i t lt. keep i t (omega arith))
        (keep start s (omega arith) h)

  -- What every round keeps, the loop keeps.
  pub repeat_keeps :
      (n : ℕ) (body : ℕ → S → S) (s : S)
      → ((i : ℕ) (t : S) → i < n → P t → P (body i t))
      → P s
      → P (repeat n body s)
  unfolding repeat
  repeat_keeps n body s keep h = repeat_from_keeps 0 n body s (λ i t lt. keep i t (omega arith)) h
