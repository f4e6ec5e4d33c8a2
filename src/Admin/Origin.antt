-- ===== src/Admin/Origin.antt =====
-- What the test of a request's origin lets through (src/admin.rs, `request_is_same_origin`).
use llrdc_casting.Admin.{
  Headers, get_header, request_is_same_origin, same_host, from_host_or_absent, is_from_host,
}
use llrdc_casting.Prelude.Ascii.{bytes_eq-eq}
use llrdc_casting.Prelude.Bytes.{bytes_eq}
use llrdc_casting.Prelude.Slices.{starts_with, starts_with-split}
use llrdc_casting.Prelude.Text.{codes}
use llrdc_casting.Prelude.{
  ℕ, List, ◌++◌, Option, none, some, Bool, true, false, ◌≡◌, refl, ◌⊎◌, inl, inr, IfSome, and-left,
  and-right, drop, ◌||◌, length,
}

-- The value is an address of the host: the host itself, or a page below it.
pub FromHost : List ℕ → List ℕ → Type 0
FromHost host value =
    (value ≡ (codes "https://" ++ host))
    ⊎ (value ≡ (codes "http://" ++ host))
    ⊎ ((page : List ℕ) × (value ≡ ((codes "https://" ++ (host ++ codes "/")) ++ page)))
    ⊎ ((page : List ℕ) × (value ≡ ((codes "http://" ++ (host ++ codes "/")) ++ page)))

-- The request names its host, and no page elsewhere as its origin or referrer.
pub OwnPage : Headers → Type 0
OwnPage headers =
    (host : List ℕ) × (get_header (codes "host") headers ≡ some host)
    × IfSome (FromHost host) (get_header (codes "origin") headers)
    × IfSome (FromHost host) (get_header (codes "referer") headers)

-- One of four tests holds.
four_cases :
    (a b c d : Bool) → (a || b || c || d) ≡ true → (a ≡ true) ⊎ (b ≡ true) ⊎ (c ≡ true) ⊎ (d ≡ true)
four_cases true b c d h = inl refl
four_cases false true c d h = inr (inl refl)
four_cases false false true d h = inr (inr (inl refl))
four_cases false false false d h = inr (inr (inr h))

module _ (host value : List ℕ) where
  abbrev secure_page : List ℕ
  secure_page = codes "https://" ++ (host ++ codes "/")

  abbrev plain_page : List ℕ
  plain_page = codes "http://" ++ (host ++ codes "/")

  is_from_host-FromHost : is_from_host host value ≡ true → FromHost host value
  unfolding is_from_host FromHost
  is_from_host-FromHost h =
      let cases =
        four_cases (bytes_eq value (codes "https://" ++ host))
          (bytes_eq value (codes "http://" ++ host)) (starts_with secure_page value)
          (starts_with plain_page value) h in
      elim cases [
        | inl secure ↦ inl (bytes_eq-eq _ _ secure)
        | inr (inl plain) ↦ inr (inl (bytes_eq-eq _ _ plain))
        | inr (inr (inl secure)) ↦ inr (
            inr (inl (drop (length secure_page) value, starts_with-split secure_page value secure)))
        | inr (inr (inr plain)) ↦
            inr
              (inr (inr (drop (length plain_page) value, starts_with-split plain_page value plain)))
      ]

from_host_or_absent-IfSome :
    (host : List ℕ) (o : Option (List ℕ))
    → from_host_or_absent host o ≡ true
    → IfSome (FromHost host) o
unfolding from_host_or_absent
from_host_or_absent-IfSome host none h = tt
from_host_or_absent-IfSome host (some value) h = is_from_host-FromHost host value h

same_host-OwnPage :
    (headers : Headers) (o : Option (List ℕ))
    → get_header (codes "host") headers ≡ o
    → same_host o headers ≡ true
    → OwnPage headers
unfolding same_host OwnPage
same_host-OwnPage headers none e h = cc
same_host-OwnPage headers (some host) e h = (
  host,
  e,
  from_host_or_absent-IfSome host (get_header (codes "origin") headers) (and-left _ _ h),
  from_host_or_absent-IfSome host (get_header (codes "referer") headers) (and-right _ _ h),
)

pub request_is_same_origin-OwnPage :
    (headers : Headers) → request_is_same_origin headers ≡ true → OwnPage headers
unfolding request_is_same_origin
request_is_same_origin-OwnPage headers h =
    same_host-OwnPage headers (get_header (codes "host") headers) refl (and-right _ _ h)
