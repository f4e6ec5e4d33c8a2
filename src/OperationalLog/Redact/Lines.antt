-- ===== src/OperationalLog/Redact/Lines.antt =====
-- A redacted message stays on one line of the journal.
use llrdc_casting.OperationalLog.Redact.{
  redact, one_line, replace_from, replace_secret, replace_all, mask_from, mask_all, redacted,
  after_prefix, Mode, markers, in_value, ends_value, plain, value, marker, ◌∷◌, suc, zero, is_some,
  length, not, to_ascii_lower,
}
use llrdc_casting.Prelude.Ascii.{IsInLine}
use llrdc_casting.Prelude.{ℕ, List, All, arith, elim_holds, All-append, [], ◌&&◌, ◌-◌}

one_line-All : (cs : List ℕ) → All IsInLine (one_line cs)
unfolding one_line
one_line-All [] = tt
one_line-All (c ∷ cs) = (ground arith, one_line-All cs)

redacted-All : All IsInLine redacted
redacted-All = omega arith

replace_from-All :
    (secret : List ℕ) (skip : ℕ) (cs : List ℕ)
    → All IsInLine cs
    → All IsInLine (replace_from secret skip cs)
unfolding replace_from
replace_from-All secret skip [] h = tt
replace_from-All secret (suc skip) (c ∷ cs) h = replace_from-All secret skip cs h.1
replace_from-All secret zero (c ∷ cs) h =
    elim_holds (All IsInLine) (is_some (after_prefix (λ x. x) secret (c ∷ cs)))
      (All-append IsInLine redacted _ redacted-All
        (replace_from-All secret (length secret - 1) cs h.1))
      (h.0, replace_from-All secret zero cs h.1)

mask_from-All :
    (mark : List ℕ) (m : Mode) (cs : List ℕ) → All IsInLine cs → All IsInLine (mask_from mark m cs)
unfolding mask_from
mask_from-All mark m [] h = tt
mask_from-All mark (marker (suc zero)) (c ∷ cs) h =
    (h.0, All-append IsInLine redacted _ redacted-All (mask_from-All mark value cs h.1))
mask_from-All mark (marker (suc (suc n))) (c ∷ cs) h =
    (h.0, mask_from-All mark (marker (suc n)) cs h.1)
mask_from-All mark m (c ∷ cs) h =
    elim_holds (All IsInLine) (in_value m && not (ends_value c)) (mask_from-All mark value cs h.1) (
      elim_holds (All IsInLine) (is_some (after_prefix to_ascii_lower mark (c ∷ cs)))
        (h.0, mask_from-All mark (marker (length mark - 1)) cs h.1)
        (h.0, mask_from-All mark plain cs h.1))

replace_all-All :
    (secrets : List (List ℕ)) (cs : List ℕ)
    → All IsInLine cs
    → All IsInLine (replace_all secrets cs)
unfolding replace_all replace_secret
replace_all-All [] cs h = h
replace_all-All ([] ∷ ss) cs h = replace_all-All ss cs h
replace_all-All ((s ∷ rest) ∷ ss) cs h =
    replace_all-All ss _ (replace_from-All (s ∷ rest) zero cs h)

mask_all-All :
    (marks : List (List ℕ)) (cs : List ℕ) → All IsInLine cs → All IsInLine (mask_all marks cs)
unfolding mask_all
mask_all-All [] cs h = h
mask_all-All (mark ∷ marks) cs h = mask_all-All marks _ (mask_from-All mark plain cs h)

-- Whatever a message holds, its redaction has no line break, so that a message cannot forge a line
-- of the journal.
pub redact-All : (secrets : List (List ℕ)) (input : List ℕ) → All IsInLine (redact secrets input)
unfolding redact
redact-All secrets input = mask_all-All markers _ (replace_all-All secrets _ (one_line-All input))
