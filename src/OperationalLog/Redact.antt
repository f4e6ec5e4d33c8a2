-- ===== src/OperationalLog/Redact.antt =====
-- The redaction of messages (src/operational_log.rs): line breaks, the secrets of the environment,
-- and what follows the markers of credentials. Texts are lists of code points.
pub mod Lines
use llrdc_casting.Prelude.Ascii.{to_ascii_lower}
use llrdc_casting.Prelude.Text.{codes}
use llrdc_casting.Prelude.{
  ℕ, List, Option, Bool, ◌∷◌, some, suc, ◌==◌, if◌then◌else◌, none, length, zero, ◌||◌, ◌++◌, ◌-◌,
  [], is_some, true, ◌&&◌, false, not,
}

abbrev redacted : List ℕ
redacted = codes "[REDACTED]"

-- Carriage returns and line feeds become spaces.
one_line : List ℕ → List ℕ
one_line [] = []
one_line (c ∷ cs) = (if c == 13 || c == 10 then 32 else c) ∷ one_line cs

-- The text after a prefix, which stands in any case if `fold` is the lower case.
after_prefix : (ℕ → ℕ) → List ℕ → List ℕ → Option (List ℕ)
after_prefix fold [] text = some text
after_prefix fold (p ∷ ps) [] = none
after_prefix fold (p ∷ ps) (c ∷ cs) =
    let rest = after_prefix fold ps cs in if p == fold c then rest else none

-- `replace`: `skip` characters belong to an occurrence that is replaced already.
replace_from : List ℕ → ℕ → List ℕ → List ℕ
unfolding after_prefix
replace_from secret skip [] = []
replace_from secret (suc skip) (c ∷ cs) = replace_from secret skip cs
replace_from secret zero (c ∷ cs) = elim (is_some (after_prefix (λ x. x) secret (c ∷ cs))) [
  | true ↦ redacted ++ replace_from secret (length secret - 1) cs
  | false ↦ c ∷ replace_from secret zero cs
]

-- An empty secret is passed over.
replace_secret : List ℕ → List ℕ → List ℕ
unfolding replace_from
replace_secret [] text = text
replace_secret (s ∷ ss) text = replace_from (s ∷ ss) zero text

replace_all : List (List ℕ) → List ℕ → List ℕ
unfolding replace_secret
replace_all [] text = text
replace_all (s ∷ ss) text = replace_all ss (replace_secret s text)

ends_value : ℕ → Bool
ends_value c = c == b'&' || c == b' ' || c == 34

-- A place in the text, in a value that is dropped, or in a marker with some characters to come.
pub data Mode : Type 0 where
  plain value : Mode
  marker : ℕ → Mode

in_value : Mode → Bool
in_value value = true
in_value m = false

-- The text with the value after each occurrence of the marker replaced. What ends a value may begin
-- the next marker.
mask_from : List ℕ → Mode → List ℕ → List ℕ
unfolding after_prefix ends_value in_value
mask_from mark m [] = []
mask_from mark (marker (suc zero)) (c ∷ cs) = c ∷ (redacted ++ mask_from mark value cs)
mask_from mark (marker (suc (suc n))) (c ∷ cs) = c ∷ mask_from mark (marker (suc n)) cs
mask_from mark m (c ∷ cs) = elim (in_value m && not (ends_value c)) [
  | true ↦ mask_from mark value cs
  | false ↦ elim (is_some (after_prefix to_ascii_lower mark (c ∷ cs))) [
    | true ↦ c ∷ mask_from mark (marker (length mark - 1)) cs
    | false ↦ c ∷ mask_from mark plain cs
  ]
]

mask_all : List (List ℕ) → List ℕ → List ℕ
unfolding mask_from
mask_all [] text = text
mask_all (mark ∷ marks) text = mask_all marks (mask_from mark plain text)

abbrev markers : List (List ℕ)
markers =
    codes "?code=" ∷ codes "&code=" ∷ codes "?token=" ∷ codes "&token=" ∷ codes "signature=" ∷ []

-- `secrets` are the values of the secret variables of the environment, in their order.
unfoldable pub redact : List (List ℕ) → List ℕ → List ℕ
unfolding one_line replace_all mask_all
redact secrets input = mask_all markers (replace_all secrets (one_line input))
