-- ===== src/Net/Offered.antt =====
-- What a receiver offers: exactly the usable private addresses of physical interfaces, in order and
-- once each, whatever the order in which the system names the interfaces.
use llrdc_casting.Net.{
  InterfaceAddress, Address, Ipv4Addr, offered, collect, interface_priority, is_usable_private_ipv4,
  ip_text, get_active_ipv4_addresses, offered_at, sort_addresses,
}
use llrdc_casting.Net.Wired.{WiredFirst, HasPriority, Sorted-WiredFirst}
use llrdc_casting.Net.Sorted.{
  Sorted-Distinct, In, Sorted, Distinct, sort_addresses-In, sort_addresses-Sorted, Sorted-ext,
}
use llrdc_casting.Prelude.{
  ℕ, List, [], ◌∷◌, Option, none, some, true, ◌≡◌, refl, sym, ap, subst, inl, inr, ◌↔◌, Bool-cases,
}
use llrdc_casting.Net.Collected.{OffersOne, collect-Distinct, collect-In}

-- An interface of a LAN family with a usable private address offers its name and that address.
unfoldable pub Offers : InterfaceAddress → Address → Type 0
Offers entry address =
    (priority : ℕ) × (interface_priority entry.interface_name ≡ some priority)
    × ((ip : Ipv4Addr) × (entry.address ≡ some ip)
        × (is_usable_private_ipv4 ip ≡ true)
        × (address ≡ (entry.interface_name, ip_text ip)))

unfoldable pub Listed : List InterfaceAddress → Address → Type 0
Listed entries address = (entry : InterfaceAddress) × In entry entries × Offers entry address

-- The same of a priority and an address that are known.
OffersAt : Option ℕ → Option Ipv4Addr → List ℕ → Address → Type 0
OffersAt p i name address =
    (priority : ℕ) × (p ≡ some priority)
    × ((ip : Ipv4Addr) × (i ≡ some ip)
        × (is_usable_private_ipv4 ip ≡ true)
        × (address ≡ (name, ip_text ip)))

offered_at-OffersAt :
    (p : Option ℕ) (i : Option Ipv4Addr) (name : List ℕ) (address : Address)
    → (offered_at p i name ≡ some address)
    → OffersAt p i name address
unfolding offered_at OffersAt
offered_at-OffersAt none i name address e = cc
offered_at-OffersAt (some p) none name address e = cc
offered_at-OffersAt (some p) (some ip) name address e =
    elim (Bool-cases (is_usable_private_ipv4 ip)) [
      | inl usable ↦ (p, refl, (ip, refl, usable, cc (rw usable at e)))
      | inr not_usable ↦ cc (rw not_usable at e)
    ]

OffersAt-offered_at :
    (p : Option ℕ) (i : Option Ipv4Addr) (name : List ℕ) (address : Address)
    → OffersAt p i name address
    → offered_at p i name ≡ some address
unfolding offered_at OffersAt
OffersAt-offered_at p i name address (priority, ep, (ip, ei, usable, ea)) =
    rw (ep, ei) (rw usable (ap some (sym ea)))

offered-Offers :
    (entry : InterfaceAddress) (address : Address)
    → (offered entry ≡ some address) ↔ Offers entry address
unfolding offered Offers OffersAt
offered-Offers entry address =
    (offered_at-OffersAt _ _ _ address, OffersAt-offered_at _ _ _ address)

OffersOne-Listed :
    (entries : List InterfaceAddress) (a : Address) → OffersOne entries a ↔ Listed entries a
unfolding OffersOne Listed
OffersOne-Listed [] a = (λ m. absurd m, λ m. absurd m.1)
OffersOne-Listed (entry ∷ entries) a =
    let rest = OffersOne-Listed entries a in
    (
      λ m. elim m [
        | inl e ↦ (entry, inl refl, (offered-Offers entry a).0 e)
        | inr o ↦ let (e, k, h) = rest.0 o in (e, inr k, h)
      ],
      λ m. elim m.1 [
        | inl e ↦ inl ((offered-Offers entry a).1 (subst (λ x. Offers x a) e m.2))
        | inr k ↦ inr (rest.1 (m.0, k, m.2))
      ],
    )

pub Listed-HasPriority :
    (entries : List InterfaceAddress) (address : Address)
    → Listed entries address
    → HasPriority address
unfolding Listed Offers
Listed-HasPriority entries address (entry, m, (p, e, (ip, ei, usable, ea))) =
    (p, rw (ap (λ (a : Address). a.0) ea) e)

-- An address is offered exactly if some interface that the system named has a LAN name and that
-- address, which is private and of no loopback or link. Each is offered once, in the order of the
-- comparison, and no address of a wired interface, which has a name of one of the six Ethernet
-- families, comes after one of an interface that is not wired.
pub get_active_ipv4_addresses-exact :
    (entries : List InterfaceAddress)
    → Sorted (get_active_ipv4_addresses entries)
      × ((a : Address) → In a (get_active_ipv4_addresses entries) ↔ Listed entries a)
      × Distinct (get_active_ipv4_addresses entries)
      × WiredFirst (get_active_ipv4_addresses entries)
unfolding get_active_ipv4_addresses
get_active_ipv4_addresses-exact entries =
    let sorted = sort_addresses-Sorted (collect entries []) (collect-Distinct entries [] tt) in
    (
      sorted,
      offered_listed,
      Sorted-Distinct _ sorted,
      Sorted-WiredFirst _ sorted (λ a m. Listed-HasPriority entries a ((offered_listed a).0 m)),
    )
  where
    offered_listed : (a : Address) → In a (sort_addresses (collect entries [])) ↔ Listed entries a
    offered_listed a =
        let sorted = sort_addresses-In a (collect entries []) in
        let collected = collect-In a entries [] in
        let listed = OffersOne-Listed entries a in
        (
          λ m. elim (collected.0 (sorted.0 m)) [ inl h ↦ absurd h | inr o ↦ listed.0 o ],
          λ l. sorted.1 (collected.1 (inr (listed.1 l))),
        )

-- Two enumerations that name the same interfaces and addresses, in whatever order and however
-- often, have the same offer.
pub get_active_ipv4_addresses-stable :
    (xs ys : List InterfaceAddress)
    → ((entry : InterfaceAddress) → In entry xs ↔ In entry ys)
    → get_active_ipv4_addresses xs ≡ get_active_ipv4_addresses ys
unfolding Listed
get_active_ipv4_addresses-stable xs ys same =
    let x = get_active_ipv4_addresses-exact xs in
    let y = get_active_ipv4_addresses-exact ys in
    Sorted-ext _ _ x.0 y.0 (λ a. (
      λ m. let (e, k, h) = (x.1 a).0 m in (y.1 a).1 (e, (same e).0 k, h),
      λ m. let (e, k, h) = (y.1 a).0 m in (x.1 a).1 (e, (same e).1 k, h),
    ))
