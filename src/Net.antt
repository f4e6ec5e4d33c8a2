-- ===== src/Net.antt =====
-- The addresses that a receiver offers (src/net.rs): those of the enumerated interfaces that are
-- private and stand on a physical interface, each once, wired ones first. Names and addresses are
-- the bytes of their texts. The enumeration of the interfaces is the system's.
pub mod Order
pub mod Sorted
pub mod Collected
pub mod Wired
pub mod Offered
pub mod Preferred
mod Tests
use Prim.Native.Nat.{compare, Ordering}
use Prim.Native.Nat.Ordering.{lt, eq, gt}
use llrdc_casting.Prelude.Bytes.{bytes_eq}
use llrdc_casting.Prelude.Slices.{starts_with}
use llrdc_casting.Prelude.Text.{codes, decimal}
use llrdc_casting.Prelude.{
  ℕ, List, [], ◌∷◌, ◌++◌, Option, none, some, Bool, true, false, not, any, ◌&&◌, ◌||◌, ◌==◌, leb,
  if◌then◌else◌, sort, is_some,
}

pub record Ipv4Addr : Type 0 where
  pub a : ℕ
  pub b : ℕ
  pub c : ℕ
  pub d : ℕ

-- An interface with its address, if that is one of IPv4.
pub record InterfaceAddress : Type 0 where
  pub interface_name : List ℕ
  pub address : Option Ipv4Addr

unfoldable pub interface_priority : List ℕ → Option ℕ
interface_priority name =
    if starts_with (codes "eth") name
      || starts_with (codes "end") name
      || starts_with (codes "enp") name
      || starts_with (codes "eno") name
      || starts_with (codes "ens") name
      || starts_with (codes "enx") name
    then some 0
    else if starts_with (codes "wlan") name
        || starts_with (codes "wlp") name
        || starts_with (codes "wl") name
    then some 1
    else none

is_loopback : Ipv4Addr → Bool
is_loopback ip = ip.a == 127

is_link_local : Ipv4Addr → Bool
is_link_local ip = ip.a == 169 && ip.b == 254

is_private : Ipv4Addr → Bool
is_private ip =
    ip.a == 10 || (ip.a == 172 && leb 16 ip.b && leb ip.b 31) || (ip.a == 192 && ip.b == 168)

unfoldable pub is_usable_private_ipv4 : Ipv4Addr → Bool
unfolding is_loopback is_link_local is_private
is_usable_private_ipv4 ip = not (is_loopback ip) && not (is_link_local ip) && is_private ip

-- `to_string` of an address.
unfoldable pub ip_text : Ipv4Addr → List ℕ
ip_text ip =
    codes (decimal ip.a)
    ++ (codes "."
        ++ (codes (decimal ip.b)
            ++ (codes "." ++ (codes (decimal ip.c) ++ (codes "." ++ codes (decimal ip.d))))))

abbrev pub Address : Type 0
Address = List ℕ × List ℕ

same_entry : Address → Address → Bool
same_entry (iface, ip) (name, text) = bytes_eq iface name && bytes_eq ip text

-- What one interface offers, with its priority and its address.
offered_at : Option ℕ → Option Ipv4Addr → List ℕ → Option Address
unfolding is_usable_private_ipv4 ip_text
offered_at none address name = none
offered_at (some priority) none name = none
offered_at (some priority) (some ip) name =
    if is_usable_private_ipv4 ip then some (name, ip_text ip) else none

pub offered : InterfaceAddress → Option Address
unfolding interface_priority offered_at
offered entry =
    offered_at (interface_priority entry.interface_name) entry.address entry.interface_name

push_new : Option Address → List Address → List Address
unfolding same_entry
push_new none results = results
push_new (some address) results =
    if any (λ (item : Address). same_entry item address) results
    then results
    else results ++ (address ∷ [])

pub collect : List InterfaceAddress → List Address → List Address
unfolding offered push_new
collect [] results = results
collect (entry ∷ entries) results = collect entries (push_new (offered entry) results)

abbrev pub then_with : Ordering → Ordering → Ordering
then_with eq second = second
then_with first _ = first

-- The order of `Option<u8>`, and that of texts by their bytes.
cmp_option : Option ℕ → Option ℕ → Ordering
cmp_option none none = eq
cmp_option none (some b) = lt
cmp_option (some a) none = gt
cmp_option (some a) (some b) = compare a b

cmp_bytes : List ℕ → List ℕ → Ordering
cmp_bytes [] [] = eq
cmp_bytes [] (b ∷ bs) = lt
cmp_bytes (a ∷ as') [] = gt
cmp_bytes (a ∷ as') (b ∷ bs) = then_with (compare a b) (cmp_bytes as' bs)

-- The closure of `sort_by`.
unfoldable pub cmp_addresses : Address → Address → Ordering
unfolding cmp_option cmp_bytes interface_priority
cmp_addresses (left_iface, left_ip) (right_iface, right_ip) =
    then_with (cmp_option (interface_priority left_iface) (interface_priority right_iface))
      (then_with (cmp_bytes left_iface right_iface) (cmp_bytes left_ip right_ip))

not_greater : Ordering → Bool
not_greater gt = false
not_greater _ = true

-- The sort is stable, so that any sort of this kind gives the same list.
unfoldable pub sort_addresses : List Address → List Address
unfolding cmp_addresses not_greater
sort_addresses addresses = sort (λ x y. not_greater (cmp_addresses x y)) addresses

-- `entries` is the enumeration, which is empty where it fails.
unfoldable pub get_active_ipv4_addresses : List InterfaceAddress → List Address
unfolding collect sort_addresses
get_active_ipv4_addresses entries = sort_addresses (collect entries [])

first_ip : List Address → Option (List ℕ)
first_ip [] = none
first_ip ((iface, ip) ∷ rest) = some ip

unfoldable pub get_preferred_private_ipv4 : List InterfaceAddress → Option (List ℕ)
unfolding get_active_ipv4_addresses first_ip
get_preferred_private_ipv4 entries = first_ip (get_active_ipv4_addresses entries)
