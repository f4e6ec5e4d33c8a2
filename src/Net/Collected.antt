-- ===== src/Net/Collected.antt =====
-- What collecting keeps: every address that some entry offers, once.
use llrdc_casting.Net.{InterfaceAddress, Address, offered, push_new, collect, same_entry}
use llrdc_casting.Net.Sorted.{In, Distinct}
use llrdc_casting.Prelude.Ascii.{bytes_eq-eq, bytes_eq_refl}
use llrdc_casting.Prelude.{
  List, [], ◌∷◌, ◌++◌, Option, none, some, true, any, ◌≡◌, refl, sym, ap, ap₂, subst, ◌⊎◌, inl, inr,
  ◌↔◌, ◌∙◌, if_cases, Bool-cases, and-left, and-right, if_holds,
}

-- The addresses that the entries offer, one after the other.
unfoldable pub OffersOne : List InterfaceAddress → Address → Type 0
OffersOne [] address = ⊥
OffersOne (entry ∷ entries) address = (offered entry ≡ some address) ⊎ OffersOne entries address

any-In :
    (a : Address) (xs : List Address)
    → any (λ (item : Address). same_entry item a) xs ≡ true
    → In a xs
unfolding same_entry
any-In a [] h = cc
any-In a (x ∷ xs) h = elim (Bool-cases (same_entry x a)) [
  | inl hit ↦ inl (
      ap₂ (λ i p. (i, p)) (sym (bytes_eq-eq _ _ (and-left _ _ hit)))
        (sym (bytes_eq-eq _ _ (and-right _ _ hit))))
  | inr miss ↦ inr (any-In a xs (rw miss at h))
]

In-any :
    (a : Address) (xs : List Address)
    → In a xs
    → any (λ (item : Address). same_entry item a) xs ≡ true
unfolding same_entry
In-any a [] m = absurd m
In-any a (x ∷ xs) (inl e) = rw (← e) (rw (bytes_eq_refl a.0, bytes_eq_refl a.1) refl)
In-any a (x ∷ xs) (inr m) = rw (In-any a xs m) (if_holds (λ b. b ≡ true) (same_entry x a) refl refl)

In-append : (a : Address) (xs ys : List Address) → In a (xs ++ ys) ↔ (In a xs ⊎ In a ys)
In-append a [] ys = (λ m. inr m, λ m. elim m [ inl h ↦ absurd h | inr k ↦ k ])
In-append a (x ∷ xs) ys =
    let rest = In-append a xs ys in
    (
      λ m. elim m [
        | inl e ↦ inl (inl e)
        | inr k ↦ elim (rest.0 k) [ inl l ↦ inl (inr l) | inr r ↦ inr r ]
      ],
      λ m. elim m [
        | inl (inl e) ↦ inl e
        | inl (inr l) ↦ inr (rest.1 (inl l))
        | inr r ↦ inr (rest.1 (inr r))
      ],
    )

Distinct-append :
    (xs : List Address) (a : Address) → Distinct xs → ¬ In a xs → Distinct (xs ++ (a ∷ []))
Distinct-append [] a h new = (λ m. m, tt)
Distinct-append (x ∷ xs) a h new = (
  λ m. elim ((In-append x xs (a ∷ [])).0 m) [
    | inl k ↦ h.0 k
    | inr (inl e) ↦ new (inl (sym e))
    | inr (inr k) ↦ k
  ],
  Distinct-append xs a h.1 (λ m. new (inr m)),
)

push_new-In :
    (o : Option Address) (a : Address) (results : List Address)
    → In a (push_new o results) ↔ (In a results ⊎ (o ≡ some a))
unfolding push_new
push_new-In none a results = (λ m. inl m, λ m. elim m [ inl k ↦ k | inr e ↦ cc e ])
push_new-In (some address) a results =
    if_cases (λ (l : List Address). In a l ↔ (In a results ⊎ (some address ≡ some a)))
      (any (λ (item : Address). same_entry item address) results)
      (λ old. (
        λ m. inl m,
        λ m. elim m [
          | inl k ↦ k
          | inr e ↦
              let same : address ≡ a = cc e in
              subst (λ x. In x results) same (any-In address results old)
        ],
      ))
      (λ new. (
        λ m. elim ((In-append a results (address ∷ [])).0 m) [
          | inl k ↦ inl k
          | inr (inl e) ↦ inr (ap some (sym e))
          | inr (inr k) ↦ absurd k
        ],
        λ m.
            (In-append a results (address ∷ [])).1
              (elim m [ inl k ↦ inl k | inr e ↦ let same : a ≡ address = cc e in inr (inl same) ]),
      ))

push_new-Distinct :
    (o : Option Address) (results : List Address) → Distinct results → Distinct (push_new o results)
unfolding push_new
push_new-Distinct none results h = h
push_new-Distinct (some address) results h =
    if_cases Distinct (any (λ (item : Address). same_entry item address) results) (λ old. h)
      (λ new. Distinct-append results address h (λ m. cc (sym (In-any address results m) ∙ new)))

pub collect-Distinct :
    (entries : List InterfaceAddress) (results : List Address)
    → Distinct results
    → Distinct (collect entries results)
unfolding collect
collect-Distinct [] results h = h
collect-Distinct (entry ∷ entries) results h =
    collect-Distinct entries _ (push_new-Distinct (offered entry) results h)

pub collect-In :
    (a : Address) (entries : List InterfaceAddress) (results : List Address)
    → In a (collect entries results) ↔ (In a results ⊎ OffersOne entries a)
unfolding collect OffersOne
collect-In a [] results = (λ m. inl m, λ m. elim m [ inl k ↦ k | inr h ↦ absurd h ])
collect-In a (entry ∷ entries) results =
    let pushed = push_new-In (offered entry) a results in
    let rest = collect-In a entries (push_new (offered entry) results) in
    (
      λ m. elim (rest.0 m) [
        | inl k ↦ elim (pushed.0 k) [ inl l ↦ inl l | inr e ↦ inr (inl e) ]
        | inr o ↦ inr (inr o)
      ],
      λ m. rest.1 (elim m [
        | inl l ↦ inl (pushed.1 (inl l))
        | inr (inl e) ↦ inl (pushed.1 (inr e))
        | inr (inr o) ↦ inr o
      ]),
    )
