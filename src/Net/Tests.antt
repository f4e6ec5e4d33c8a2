-- ===== src/Net/Tests.antt =====
-- Runs of the enumeration at a device with a cable, a radio and a bridge.
use llrdc_casting.Net.Preferred.{get_preferred_private_ipv4-is_wired}
use llrdc_casting.Net.Wired.{is_wired, WiredFirst}
use llrdc_casting.Net.{
  InterfaceAddress, Address, get_active_ipv4_addresses, get_preferred_private_ipv4, ℕ,
  is_usable_private_ipv4, true, ip_text, interface_priority,
}
use llrdc_casting.Net.Offered.{
  Listed, get_active_ipv4_addresses-exact, get_active_ipv4_addresses-stable, Offers,
}
use llrdc_casting.Net.Sorted.{In, Sorted, Distinct}
use llrdc_casting.Prelude.Text.{codes}
use llrdc_casting.Prelude.{List, [], ◌∷◌, some, ◌≡◌, refl, ◌↔◌, inl, inr}

abbrev radio : InterfaceAddress
radio = record {
  interface_name = codes "wlan0";
  address = some (record { a = 192; b = 168; c = 1; d = 20 });
}

abbrev cable : InterfaceAddress
cable = record {
  interface_name = codes "end0";
  address = some (record { a = 192; b = 168; c = 1; d = 72 });
}

abbrev bridge : InterfaceAddress
bridge = record {
  interface_name = codes "docker0";
  address = some (record { a = 172; b = 17; c = 0; d = 1 });
}

abbrev device : List InterfaceAddress
device = radio ∷ bridge ∷ cable ∷ []

offers_cable_first :
    get_active_ipv4_addresses device
    ≡ (codes "end0", codes "192.168.1.72") ∷ (codes "wlan0", codes "192.168.1.20") ∷ []
unfolding get_active_ipv4_addresses
offers_cable_first = refl

get_active_ipv4_addresses-exact_example :
    Sorted (get_active_ipv4_addresses device)
    × ((a : Address) → In a (get_active_ipv4_addresses device) ↔ Listed device a)
    × Distinct (get_active_ipv4_addresses device)
    × WiredFirst (get_active_ipv4_addresses device)
get_active_ipv4_addresses-exact_example = get_active_ipv4_addresses-exact device

swapped : (entry : InterfaceAddress) → In entry (radio ∷ cable ∷ []) ↔ In entry (cable ∷ radio ∷ [])
swapped entry = (
  λ m. elim m [ inl e ↦ inr (inl e) | inr (inl e) ↦ inl e | inr (inr h) ↦ absurd h ],
  λ m. elim m [ inl e ↦ inr (inl e) | inr (inl e) ↦ inl e | inr (inr h) ↦ absurd h ],
)

get_active_ipv4_addresses-stable_example :
    get_active_ipv4_addresses (radio ∷ cable ∷ []) ≡ get_active_ipv4_addresses (cable ∷ radio ∷ [])
get_active_ipv4_addresses-stable_example =
    get_active_ipv4_addresses-stable (radio ∷ cable ∷ []) (cable ∷ radio ∷ []) swapped

prefers_cable : get_preferred_private_ipv4 device ≡ some (codes "192.168.1.72")
unfolding get_preferred_private_ipv4
prefers_cable = refl

lists_cable : Listed device (codes "end0", codes "192.168.1.72")
unfolding Listed Offers interface_priority is_usable_private_ipv4 ip_text
lists_cable = (
  cable,
  inr (inr (inl refl)),
  (0, refl, (record { a = 192; b = 168; c = 1; d = 72 }, refl, refl, refl)),
)

end0_is_wired : is_wired (codes "end0") ≡ true
unfolding is_wired
end0_is_wired = refl

get_preferred_private_ipv4-is_wired_example :
    (name text : List ℕ) × (get_preferred_private_ipv4 device ≡ some text)
    × (is_wired name ≡ true)
    × Listed device (name, text)
get_preferred_private_ipv4-is_wired_example =
    get_preferred_private_ipv4-is_wired device (codes "end0") (codes "192.168.1.72") lists_cable
      end0_is_wired
