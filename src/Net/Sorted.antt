-- ===== src/Net/Sorted.antt =====
-- Lists in the strict order of the addresses: a list of them is made out by its members, and the
-- insertion of another address keeps the order.
use Prim.Native.Nat.{Ordering}
use Prim.Native.Nat.Ordering.{lt, eq, gt}
use llrdc_casting.Net.{Address, cmp_addresses, sort_addresses, not_greater}
use llrdc_casting.Net.Order.{cmp_addresses-IsTotal, equal_to_itself, opposite}
use llrdc_casting.Prelude.{
  List, [], ◌∷◌, ◌≡◌, refl, sym, ap₂, subst, ◌⊎◌, inl, inr, ◌↔◌, All, All-map, sort, insert_sorted,
  if◌then◌else◌, Bool, if_holds, ◌∙◌, ap,
}
open cmp_addresses-IsTotal use {apart, turns, chains}

abbrev pub In : {A : Type 0} → A → List A → Type 0
In a [] = ⊥
In a (x ∷ xs) = (a ≡ x) ⊎ In a xs

abbrev pub Less : Address → Address → Type 0
Less x y = cmp_addresses x y ≡ lt

-- Each address stands before all that follow it.
abbrev pub Sorted : List Address → Type 0
Sorted [] = Unit
Sorted (x ∷ xs) = All (Less x) xs × Sorted xs

abbrev pub Distinct : List Address → Type 0
Distinct [] = Unit
Distinct (x ∷ xs) = (¬ In x xs) × Distinct xs

pub In-All : (P : Address → Type 0) (a : Address) (xs : List Address) → All P xs → In a xs → P a
In-All P a [] h m = absurd m
In-All P a (x ∷ xs) h (inl e) = subst P (sym e) h.0
In-All P a (x ∷ xs) h (inr m) = In-All P a xs h.1 m

not-Less_self : (x : Address) → ¬ Less x x
not-Less_self x h = cc (equal_to_itself cmp_addresses cmp_addresses-IsTotal x)

not-Less_back : (x y : Address) → Less x y → ¬ Less y x
not-Less_back x y h k = not-Less_self x (chains x y x h k)

abbrev le : Address → Address → Bool
le x y = not_greater (cmp_addresses x y)

insert-All :
    (P : Address → Type 0) (x : Address) (xs : List Address)
    → P x
    → All P xs
    → All P (insert_sorted le x xs)
insert-All P x [] h k = (h, tt)
insert-All P x (y ∷ ys) h k = if_holds (All P) (le x y) (h, k) (k.0, insert-All P x ys h k.1)

past :
    (a x y : Address) (xs ys : List Address)
    → In a xs ↔ ((a ≡ x) ⊎ In a ys)
    → In a (y ∷ xs) ↔ ((a ≡ x) ⊎ In a (y ∷ ys))
past a x y xs ys rest = (later, earlier)
  where
    later : In a (y ∷ xs) → (a ≡ x) ⊎ In a (y ∷ ys)
    later (inl e) = inr (inl e)
    later (inr m) = elim (rest.0 m) [ inl e ↦ inl e | inr k ↦ inr (inr k) ]

    earlier : (a ≡ x) ⊎ In a (y ∷ ys) → In a (y ∷ xs)
    earlier (inl e) = inr (rest.1 (inl e))
    earlier (inr (inl e)) = inl e
    earlier (inr (inr m)) = inr (rest.1 (inr m))

insert-In : (a x : Address) (xs : List Address) → In a (insert_sorted le x xs) ↔ ((a ≡ x) ⊎ In a xs)
insert-In a x [] = (λ m. m, λ m. m)
insert-In a x (y ∷ ys) =
    if_holds (λ (l : List Address). In a l ↔ ((a ≡ x) ⊎ In a (y ∷ ys))) (le x y) (λ m. m, λ m. m)
      (past a x y (insert_sorted le x ys) ys (insert-In a x ys))

insert-Sorted :
    (x : Address) (xs : List Address) → ¬ In x xs → Sorted xs → Sorted (insert_sorted le x xs)
insert-Sorted x [] new h = (tt, tt)
insert-Sorted x (y ∷ ys) new h =
    go (cmp_addresses x y) refl (insert-Sorted x ys (λ m. new (inr m)) h.1)
  where
    go :
        (o : Ordering)
        → cmp_addresses x y ≡ o
        → Sorted (insert_sorted le x ys)
        → Sorted (if not_greater o then x ∷ y ∷ ys else y ∷ insert_sorted le x ys)
    go lt e rest =
        unfold not_greater in ((e, All-map (Less y) (Less x) ys (λ z k. chains x y z e k) h.0), h)
    go eq e rest = absurd (new (inl (apart x y e)))
    go gt e rest =
        unfold not_greater in (insert-All (Less y) x ys (turns x y ∙ ap opposite e) h.0, rest)

sort-In : (a : Address) (xs : List Address) → In a (sort le xs) ↔ In a xs
sort-In a [] = (λ m. m, λ m. m)
sort-In a (x ∷ xs) =
    let placed = insert-In a x (sort le xs) in
    let rest = sort-In a xs in
    (
      λ m. elim (placed.0 m) [ inl e ↦ inl e | inr k ↦ inr (rest.0 k) ],
      λ m. placed.1 (elim m [ inl e ↦ inl e | inr k ↦ inr (rest.1 k) ]),
    )

sort-Sorted : (xs : List Address) → Distinct xs → Sorted (sort le xs)
sort-Sorted [] h = tt
sort-Sorted (x ∷ xs) h =
    insert-Sorted x (sort le xs) (λ m. h.0 ((sort-In x xs).0 m)) (sort-Sorted xs h.1)

pub sort_addresses-In : (a : Address) (xs : List Address) → In a (sort_addresses xs) ↔ In a xs
unfolding sort_addresses
sort_addresses-In = sort-In

pub sort_addresses-Sorted : (xs : List Address) → Distinct xs → Sorted (sort_addresses xs)
unfolding sort_addresses
sort_addresses-Sorted = sort-Sorted

-- The first of two sorted lists with the same members.
same_head :
    (x y : Address) (xs ys : List Address)
    → Sorted (x ∷ xs)
    → Sorted (y ∷ ys)
    → In x (y ∷ ys)
    → In y (x ∷ xs)
    → x ≡ y
same_head x y xs ys h k (inl e) m = e
same_head x y xs ys h k (inr l) (inl e) = sym e
same_head x y xs ys h k (inr l) (inr m) =
    absurd (not-Less_back x y (In-All (Less x) y xs h.0 m) (In-All (Less y) x ys k.0 l))

same_tail :
    (x y a : Address) (xs ys : List Address)
    → x ≡ y
    → Sorted (x ∷ xs)
    → (In a (x ∷ xs) → In a (y ∷ ys))
    → In a xs
    → In a ys
same_tail x y a xs ys e h move m = elim (move (inr m)) [
  | inl f ↦ absurd (not-Less_self x (subst (Less x) (f ∙ sym e) (In-All (Less x) a xs h.0 m)))
  | inr k ↦ k
]

-- A sorted list has each member once.
pub Sorted-Distinct : (xs : List Address) → Sorted xs → Distinct xs
Sorted-Distinct [] h = tt
Sorted-Distinct (x ∷ xs) h =
    (λ m. not-Less_self x (In-All (Less x) x xs h.0 m), Sorted-Distinct xs h.1)

-- Sorted lists with the same members are the same.
pub Sorted-ext :
    (xs ys : List Address) → Sorted xs → Sorted ys → ((a : Address) → In a xs ↔ In a ys) → xs ≡ ys
Sorted-ext [] [] h k same = refl
Sorted-ext [] (y ∷ ys) h k same = absurd ((same y).1 (inl refl))
Sorted-ext (x ∷ xs) [] h k same = absurd ((same x).0 (inl refl))
Sorted-ext (x ∷ xs) (y ∷ ys) h k same =
    let e = same_head x y xs ys h k ((same x).0 (inl refl)) ((same y).1 (inl refl)) in
    ap₂ ◌∷◌ e (
      Sorted-ext xs ys h.1 k.1
        (λ a. (same_tail x y a xs ys e h (same a).0, same_tail y x a ys xs (sym e) k (same a).1)))
