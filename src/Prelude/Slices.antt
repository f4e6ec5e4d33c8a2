-- ===== src/Prelude/Slices.antt =====
-- Searches in texts that are lists of code points, as the methods of `str` make them.
use llrdc_casting.Prelude.{
  ℕ, List, [], ◌∷◌, Option, none, some, Bool, true, false, if◌then◌else◌, ◌&&◌, ◌||◌, ◌==◌, drop,
  length, ◌≡◌, ◌++◌, ==_iff, and-left, ap, and-right, refl, ==_refl,
}

abbrev pub starts_with : List ℕ → List ℕ → Bool
starts_with [] text = true
starts_with (p ∷ ps) [] = false
starts_with (p ∷ ps) (c ∷ cs) = p == c && starts_with ps cs

-- `contains`.
abbrev pub contains : List ℕ → List ℕ → Bool
contains needle [] = starts_with needle []
contains needle (c ∷ cs) = starts_with needle (c ∷ cs) || contains needle cs

-- The text before the first occurrence of a needle that is not empty, or all of it.
abbrev pub before_first : List ℕ → List ℕ → List ℕ
before_first needle [] = []
before_first needle (c ∷ cs) =
    if starts_with needle (c ∷ cs) then [] else c ∷ before_first needle cs

-- The text after it.
abbrev pub after_first : List ℕ → List ℕ → Option (List ℕ)
after_first needle [] = none
after_first needle (c ∷ cs) =
    if starts_with needle (c ∷ cs)
    then some (drop (length needle) (c ∷ cs))
    else after_first needle cs

-- A text that starts with a prefix is the prefix and the rest.
pub starts_with-split : (p s : List ℕ) → starts_with p s ≡ true → s ≡ (p ++ drop (length p) s)
starts_with-split [] s h = refl
starts_with-split (a ∷ p) [] h = cc
starts_with-split (a ∷ p) (c ∷ s) h =
    let same : a ≡ c = (==_iff a c).0 (and-left _ _ h) in
    rw same (ap (c ∷◌) (starts_with-split p s (and-right _ _ h)))

starts_with-append : (p after : List ℕ) → starts_with p (p ++ after) ≡ true
starts_with-append [] after = refl
starts_with-append (a ∷ p) after = rw (==_refl a) (starts_with-append p after)
