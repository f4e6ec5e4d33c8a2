-- ===== src/Net/Wired.antt =====
-- Which interfaces have a cable, by the beginnings of their names, and where they stand in an offer.
use llrdc_casting.Net.{Address, interface_priority, cmp_addresses, cmp_option}
use llrdc_casting.Net.Sorted.{In, Less, Sorted}
use llrdc_casting.Prelude.Slices.{starts_with}
use llrdc_casting.Prelude.Text.{codes}
use llrdc_casting.Prelude.{
  ℕ, List, [], ◌∷◌, Option, none, some, Bool, true, false, any, All, ◌≡◌, ◌⊎◌, ◌||◌, refl, inl, inr,
  arith, Bool-cases, if◌then◌else◌, String, sym, ◌∙◌,
}

-- The beginnings of the names of Ethernet interfaces.
abbrev wired_families : List String
wired_families = "eth" ∷ "end" ∷ "enp" ∷ "eno" ∷ "ens" ∷ "enx" ∷ []

unfoldable pub is_wired : List ℕ → Bool
is_wired name = any (λ family. starts_with (codes family) name) wired_families

-- No address of a wired interface comes after one of an interface that is not.
abbrev pub WiredFirst : List Address → Type 0
WiredFirst [] = Unit
WiredFirst (x ∷ xs) =
    ((is_wired x.0 ≡ true) ⊎ All (λ (y : Address). is_wired y.0 ≡ false) xs) × WiredFirst xs

priority_wired : (name : List ℕ) → is_wired name ≡ true → interface_priority name ≡ some 0
unfolding is_wired interface_priority
priority_wired name =
    go (starts_with (codes "eth") name) (starts_with (codes "end") name)
      (starts_with (codes "enp") name) (starts_with (codes "eno") name)
      (starts_with (codes "ens") name) (starts_with (codes "enx") name)
      (if starts_with (codes "wlan") name
          || starts_with (codes "wlp") name
          || starts_with (codes "wl") name
        then some 1
        else none)
  where
    go :
        (a b c d e f : Bool) (o : Option ℕ)
        → (if a
            then true
            else if b
            then true
            else if c
            then true
            else if d
            then true
            else if e
            then true
            else if f
            then true
            else false)
          ≡ true
        → (if a || b || c || d || e || f then some 0 else o) ≡ some 0
    go a b c d e f o h = ground arith

wired_priority : (name : List ℕ) → interface_priority name ≡ some 0 → is_wired name ≡ true
unfolding is_wired interface_priority
wired_priority name =
    go (starts_with (codes "eth") name) (starts_with (codes "end") name)
      (starts_with (codes "enp") name) (starts_with (codes "eno") name)
      (starts_with (codes "ens") name) (starts_with (codes "enx") name)
      (starts_with (codes "wlan") name
        || starts_with (codes "wlp") name
        || starts_with (codes "wl") name)
  where
    go :
        (a b c d e f g : Bool)
        → Path
            (Option ℕ)
            (if a || b || c || d || e || f then some 0 else if g then some 1 else none)
            (some 0)
        → (if a
            then true
            else if b
            then true
            else if c
            then true
            else if d
            then true
            else if e
            then true
            else if f
            then true
            else false)
          ≡ true
    go a b c d e f g h = ground arith

abbrev pub HasPriority : Address → Type 0
HasPriority x = (p : ℕ) × (interface_priority x.0 ≡ some p)

-- What is not after a wired interface, and has a priority, is wired.
pub before_wired :
    (x a : Address)
    → (p : ℕ) × (interface_priority x.0 ≡ some p)
    → is_wired a.0 ≡ true
    → Less x a
    → is_wired x.0 ≡ true
before_wired x a (p, has) wired h = wired_priority x.0 (first p has (priority_wired a.0 wired))
  where
    first :
        (p : ℕ)
        → interface_priority x.0 ≡ some p
        → interface_priority a.0 ≡ some 0
        → interface_priority x.0 ≡ some 0
    first p has wired = unfold cmp_addresses cmp_option in ground arith

none_if : (b : Bool) → (b ≡ true → ⊥) → b ≡ false
none_if true h = absurd (h refl)
none_if false h = refl

pub Sorted-WiredFirst :
    (l : List Address)
    → Sorted l
    → ((a : Address) → In a l → (p : ℕ) × (interface_priority a.0 ≡ some p))
    → WiredFirst l
Sorted-WiredFirst [] s has = tt
Sorted-WiredFirst (x ∷ xs) s has = (
  elim (Bool-cases (is_wired x.0)) [
    | inl wired ↦ inl wired
    | inr not_wired ↦ inr (none_wired not_wired xs s.0)
  ],
  Sorted-WiredFirst xs s.1 (λ a m. has a (inr m)),
)
  where
    none_wired :
        is_wired x.0 ≡ false
        → (ys : List Address) → All (Less x) ys
        → All (λ (y : Address). is_wired y.0 ≡ false) ys
    none_wired not_wired [] h = tt
    none_wired not_wired (y ∷ ys) h = (
      none_if _ (λ wired. cc (sym not_wired ∙ before_wired x y (has x (inl refl)) wired h.0)),
      none_wired not_wired ys h.1,
    )
