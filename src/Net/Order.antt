-- ===== src/Net/Order.antt =====
-- The comparison of addresses is a strict total order.
use Prim.Native.Nat.{Ordering}
use Prim.Native.Nat.Ordering.{lt, eq, gt}
use llrdc_casting.Net.{Address, cmp_option, cmp_bytes, cmp_addresses, then_with, interface_priority}
use llrdc_casting.Prelude.{ℕ, List, [], ◌∷◌, Option, ◌≡◌, refl, arith, ap}

abbrev pub opposite : Ordering → Ordering
opposite lt = gt
opposite eq = eq
opposite gt = lt

-- A comparison that tells all values apart, turns around with its arguments, and goes on in chains.
pub record IsTotal {ℓ} {T : Type ℓ} (order : T → T → Ordering) : Type ℓ where
  pub apart : (x y : T) → order x y ≡ eq → x ≡ y
  pub turns : (x y : T) → order y x ≡ opposite (order x y)
  pub chains : (x y z : T) → order x y ≡ lt → order y z ≡ lt → order x z ≡ lt

own_opposite : (o : Ordering) → o ≡ opposite o → o ≡ eq
own_opposite lt e = cc
own_opposite eq e = refl
own_opposite gt e = cc

-- A value is neither before nor after itself.
pub equal_to_itself {ℓ} :
    {T : Type ℓ} (order : T → T → Ordering) → IsTotal order → (x : T) → order x x ≡ eq
equal_to_itself order total x = own_opposite (order x x) (total.turns x x)

cmp_option-IsTotal : IsTotal cmp_option
unfolding cmp_option
cmp_option-IsTotal = ground arith

bytes_apart : (xs ys : List ℕ) → cmp_bytes xs ys ≡ eq → xs ≡ ys
unfolding cmp_bytes
bytes_apart [] [] e = refl
bytes_apart [] (y ∷ ys) e = cc
bytes_apart (x ∷ xs) [] e = cc
bytes_apart (x ∷ xs) (y ∷ ys) e = ground (arith, bytes_apart xs ys)

bytes_turns : (xs ys : List ℕ) → cmp_bytes ys xs ≡ opposite (cmp_bytes xs ys)
unfolding cmp_bytes
bytes_turns [] [] = refl
bytes_turns [] (y ∷ ys) = refl
bytes_turns (x ∷ xs) [] = refl
bytes_turns (x ∷ xs) (y ∷ ys) = ground (arith, bytes_turns xs ys)

bytes_chains :
    (xs ys zs : List ℕ) → cmp_bytes xs ys ≡ lt → cmp_bytes ys zs ≡ lt → cmp_bytes xs zs ≡ lt
unfolding cmp_bytes
bytes_chains [] [] zs e f = f
bytes_chains [] (y ∷ ys) [] e f = cc
bytes_chains [] (y ∷ ys) (z ∷ zs) e f = refl
bytes_chains (x ∷ xs) [] zs e f = cc
bytes_chains (x ∷ xs) (y ∷ ys) [] e f = cc
bytes_chains (x ∷ xs) (y ∷ ys) (z ∷ zs) e f = ground (arith, bytes_chains xs ys zs)

cmp_bytes-IsTotal : IsTotal cmp_bytes
cmp_bytes-IsTotal = record { apart = bytes_apart; turns = bytes_turns; chains = bytes_chains }

-- Two comparisons, the second of which decides where the first finds no difference.
module _ {ℓ κ} {A : Type ℓ} {B : Type κ} (f : A → A → Ordering) (g : B → B → Ordering) where
  abbrev both : A × B → A × B → Ordering
  both p q = then_with (f p.0 q.0) (g p.1 q.1)

  both-IsTotal : IsTotal f → IsTotal g → IsTotal both
  both-IsTotal first second = record {
    apart = λ p q. ground (arith, first.apart p.0 q.0, second.apart p.1 q.1);
    turns = λ p q. ground (arith, first.turns p.0 q.0, second.turns p.1 q.1);
    chains = λ p q r. ground (
      arith,
      first.apart p.0 q.0,
      first.apart q.0 r.0,
      first.chains p.0 q.0 r.0,
      second.chains p.1 q.1 r.1,
    );
  }

-- Values compared by a key that tells them apart.
module _ {ℓ κ} {A : Type ℓ} {K : Type κ} (key : A → K) (f : K → K → Ordering) where
  by_key-IsTotal :
      ((x y : A) → key x ≡ key y → x ≡ y) → IsTotal f → IsTotal (λ x y. f (key x) (key y))
  by_key-IsTotal tells total = record {
    apart = λ x y e. tells x y (total.apart (key x) (key y) e);
    turns = λ x y. total.turns (key x) (key y);
    chains = λ x y z. total.chains (key x) (key y) (key z);
  }

abbrev sort_key : Address → Option ℕ × (List ℕ × List ℕ)
sort_key (iface, ip) = (interface_priority iface, (iface, ip))

pub cmp_addresses-IsTotal : IsTotal cmp_addresses
unfolding cmp_addresses
cmp_addresses-IsTotal =
    by_key-IsTotal sort_key (both cmp_option (both cmp_bytes cmp_bytes)) (λ x y e. ap (λ k. k.1) e)
      (both-IsTotal _ _ cmp_option-IsTotal (both-IsTotal _ _ cmp_bytes-IsTotal cmp_bytes-IsTotal))
