-- ===== src/Net/Preferred.antt =====
-- The address that the cloud is told of: a wired one if there is any.
use llrdc_casting.Net.{
  InterfaceAddress, Address, get_active_ipv4_addresses, first_ip, get_preferred_private_ipv4, true,
}
use llrdc_casting.Net.Offered.{Listed, Listed-HasPriority, get_active_ipv4_addresses-exact}
use llrdc_casting.Net.Wired.{HasPriority, is_wired, before_wired}
use llrdc_casting.Net.Sorted.{In, In-All, Less, Sorted}
use llrdc_casting.Prelude.{ℕ, List, [], ◌∷◌, some, ◌≡◌, refl, subst, inl, inr}

head_wired :
    (x a : Address) (xs : List Address)
    → HasPriority x
    → is_wired a.0 ≡ true
    → Sorted (x ∷ xs)
    → In a (x ∷ xs)
    → is_wired x.0 ≡ true
head_wired x a xs has wired s (inl e) = subst (λ (y : Address). is_wired y.0 ≡ true) e wired
head_wired x a xs has wired s (inr m) = before_wired x a has wired (In-All (Less x) a xs s.0 m)

-- If the system names a wired interface with a usable private address, the preferred address is one
-- that a wired interface offers.
pub get_preferred_private_ipv4-is_wired :
    (entries : List InterfaceAddress) (iface ip : List ℕ)
    → Listed entries (iface, ip)
    → is_wired iface ≡ true
    → (name text : List ℕ) × (get_preferred_private_ipv4 entries ≡ some text)
      × (is_wired name ≡ true)
      × Listed entries (name, text)
unfolding get_preferred_private_ipv4
get_preferred_private_ipv4-is_wired entries iface ip listed wired =
    let exact = get_active_ipv4_addresses-exact entries in
    go (get_active_ipv4_addresses entries) exact.0 (λ a m. (exact.1 a).0 m)
      ((exact.1 (iface, ip)).1 listed)
  where
    go :
        (l : List Address)
        → Sorted l
        → ((a : Address) → In a l → Listed entries a)
        → In (iface, ip) l
        → (name text : List ℕ) × (first_ip l ≡ some text)
          × (is_wired name ≡ true)
          × Listed entries (name, text)
    go [] s all m = absurd m
    go ((name, text) ∷ rest) s all m =
        let found = all (name, text) (inl refl) in
        (
          name,
          text,
          unfold first_ip in refl,
          head_wired (name, text) (iface, ip) rest (Listed-HasPriority entries (name, text) found)
              wired s m,
          found,
        )
