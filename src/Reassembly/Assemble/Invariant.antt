-- ===== src/Reassembly/Assemble/Invariant.antt =====
-- The decoder's invariant, and each step of `assemble` that keeps it.
use llrdc_casting.Reassembly.Assemble.Entries.{
  IsGood, IsSound, get_elem?-some, fill_slot-IsSound, new_entry-IsSound,
}
use llrdc_casting.Reassembly.Assemble.{
  drop_expired, store_slot, is_retained, Header, max_in_flight, has_seq, stored, Stored, evict,
  new_entry, fill_slot, mismatch, panic,
}
use llrdc_casting.Reassembly.Types.{Assembly, Decoder}
use llrdc_casting.Prelude.{
  ℕ, List, Bool, ◌<◌, ◌∷◌, length, retain, remove_first, ◌≡◌, All, find, ◌≢◌, ◌≤◌, Bool-cases,
  update_first, none, arith, Option, inl, false, length-retain-le, ◌++◌, All-retain, inr, [], some,
  All-remove_first, All-update_first, All-append, get_elem?, sym, ◌∙◌, All-map, All-update_found,
  All-find, ==_iff, drop, length-append, ◌==◌, refl, find-holds, length-drop, All-drop,
}

abbrev pub IsPending : Assembly → Type 0
IsPending e = e.received < e.total_chunks

-- No two entries have one sequence number.
abbrev pub Distinct : List Assembly → Type 0
Distinct [] = Unit
Distinct (e ∷ entries) = All (λ x. x.seq ≢ e.seq) entries × Distinct entries

pub record WellFormed (d : Decoder) : Type 0 where
  pub bounded : length d.assemblies ≤ max_in_flight
  pub sound : All IsSound d.assemblies
  pub pending : All IsPending d.assemblies
  pub distinct : Distinct d.assemblies

-- After a chunk is stored, only its own entry may be complete.
pub record IsStored (seq : ℕ) (d : Decoder) : Type 0 where
  pub bounded : length d.assemblies ≤ max_in_flight
  pub sound : All IsSound d.assemblies
  pub pending : All (λ e. e.seq ≢ seq → IsPending e) d.assemblies
  pub distinct : Distinct d.assemblies

pub Distinct-retain :
    (p : Assembly → Bool) (es : List Assembly) → Distinct es → Distinct (retain p es)
Distinct-retain p [] h = tt
Distinct-retain p (e ∷ es) h = elim (Bool-cases (p e)) [
  | inl hit ↦ rw hit (
    All-retain (λ x. x.seq ≢ e.seq) (λ x. x.seq ≢ e.seq) p es (λ x _ n. n) h.0,
    Distinct-retain p es h.1,
  )
  | inr miss ↦ rw miss (Distinct-retain p es h.1)
]

pub Distinct-remove_first :
    (p : Assembly → Bool) (es : List Assembly) → Distinct es → Distinct (remove_first p es)
Distinct-remove_first p [] h = tt
Distinct-remove_first p (e ∷ es) h = elim (Bool-cases (p e)) [
  | inl hit ↦ rw hit h.1
  | inr miss ↦
      rw miss (All-remove_first (λ x. x.seq ≢ e.seq) p es h.0, Distinct-remove_first p es h.1)
]

Distinct-update_first :
    (seq : ℕ) (f : Assembly → Assembly) (es : List Assembly)
    → ((e : Assembly) → (f e).seq ≡ e.seq)
    → Distinct es
    → Distinct (update_first (has_seq seq) f es)
Distinct-update_first seq f [] keeps h = tt
Distinct-update_first seq f (e ∷ es) keeps h = elim (Bool-cases (has_seq seq e)) [
  | inl hit ↦ rw (hit, keeps e) h
  | inr miss ↦ rw miss (
    All-update_first (λ x. x.seq ≢ e.seq) (has_seq seq) f es (λ x _ n q. n (sym (keeps x) ∙ q)) h.0,
    Distinct-update_first seq f es keeps h.1,
  )
]

Distinct-snoc :
    (es : List Assembly) (n : Assembly)
    → All (λ x. x.seq ≢ n.seq) es
    → Distinct es
    → Distinct (es ++ n ∷ [])
Distinct-snoc [] n fresh h = (tt, tt)
Distinct-snoc (e ∷ es) n fresh h = (
  All-append (λ x. x.seq ≢ e.seq) es (n ∷ []) h.0 (λ q. fresh.0 (sym q), tt),
  Distinct-snoc es n fresh.1 h.1,
)

pub All-find-none :
    (p : Assembly → Bool) (es : List Assembly) → find p es ≡ none → All (λ e. p e ≡ false) es
All-find-none p [] h = tt
All-find-none p (e ∷ es) h = elim (Bool-cases (p e)) [
  | inl hit ↦ cc (rw hit at h)
  | inr miss ↦ (miss, All-find-none p es (rw miss at h))
]

length-update_first {ℓ} :
    {A : Type ℓ} (p : A → Bool) (f : A → A) (xs : List A) → length (update_first p f xs) ≡ length xs
length-update_first p f [] = refl
length-update_first p f (x ∷ xs) = ground (arith, length-update_first p f xs)

pub drop_expired-WellFormed :
    (now last_seq : ℕ) (d : Decoder) → WellFormed d → WellFormed (drop_expired now last_seq d)
unfolding drop_expired
drop_expired-WellFormed now last_seq d w =
    let p = is_retained now last_seq in
    record {
      bounded = omega (arith, w.bounded, length-retain-le p d.assemblies);
      sound = All-retain IsSound IsSound p d.assemblies (λ e _ s. s) w.sound;
      pending = All-retain IsPending IsPending p d.assemblies (λ e _ s. s) w.pending;
      distinct = Distinct-retain p d.assemblies w.distinct;
    }

-- Storing a chunk does not panic, and what it stores is well formed but for the chunk's own entry.
abbrev pub Keeps : ℕ → Stored → Type 0
Keeps seq mismatch = Unit
Keeps seq panic = ⊥
Keeps seq (stored d) = IsStored seq d

WellFormed-IsStored : (seq : ℕ) (d : Decoder) → WellFormed d → IsStored seq d
WellFormed-IsStored seq d w = record {
  bounded = w.bounded;
  sound = w.sound;
  pending = All-map IsPending (λ e. e.seq ≢ seq → IsPending e) d.assemblies (λ e p _. p) w.pending;
  distinct = w.distinct;
}

pub store_slot-Keeps :
    (h : Header) (e : Assembly) (d : Decoder) (slot : Option (Option (List ℕ)))
    → WellFormed d
    → IsGood h
    → find (has_seq h.seq) d.assemblies ≡ some e
    → h.chunk_index < length e.chunks
    → get_elem? e.chunks h.chunk_index ≡ slot
    → Keeps h.seq (store_slot h slot d)
unfolding store_slot fill_slot
store_slot-Keeps h e d none w g found inside at =
    let (slot, q) = get_elem?-some e.chunks h.chunk_index inside in cc (sym at ∙ q)
store_slot-Keeps h e d (some none) w g found inside at = record {
  bounded =
      omega (arith, length-update_first {0} (has_seq h.seq) (fill_slot h) d.assemblies, w.bounded);
  sound =
      All-update_found IsSound (has_seq h.seq) (fill_slot h) d.assemblies found
        (fill_slot-IsSound h e g at (All-find IsSound (has_seq h.seq) d.assemblies found w.sound))
        w.sound;
  pending =
      All-update_found _ (has_seq h.seq) (fill_slot h) d.assemblies found
        (λ n. absurd (n ((==_iff e.seq h.seq).0 (find-holds (has_seq h.seq) d.assemblies found))))
        (WellFormed-IsStored h.seq d w).pending;
  distinct = Distinct-update_first h.seq (fill_slot h) d.assemblies (λ x. refl) w.distinct;
}
store_slot-Keeps h e d (some (some b)) w g found inside at = record {
  bounded = w.bounded;
  sound = w.sound;
  pending = (WellFormed-IsStored h.seq d w).pending;
  distinct = w.distinct;
}

Distinct-tail : (es : List Assembly) → Distinct es → Distinct (drop 1 es)
Distinct-tail [] h = tt
Distinct-tail (e ∷ es) h = h.1

pub evict-WellFormed :
    (d : Decoder)
    → WellFormed d
    → WellFormed (evict d) × (length (evict d).assemblies < max_in_flight)
unfolding evict
evict-WellFormed d w = elim (Bool-cases (length d.assemblies == max_in_flight)) [
  | inl full ↦ rw full (
    record {
      bounded = omega (arith, w.bounded, length-drop 1 d.assemblies);
      sound = All-drop IsSound 1 d.assemblies w.sound;
      pending = All-drop IsPending 1 d.assemblies w.pending;
      distinct = Distinct-tail d.assemblies w.distinct;
    },
    omega (arith, (==_iff (length d.assemblies) max_in_flight).0 full, length-drop 1 d.assemblies),
  )
  | inr room ↦ rw room (w, ground arith)
]

pub append_entry-IsStored :
    (now : ℕ) (h : Header) (d : Decoder)
    → WellFormed d
    → length d.assemblies < max_in_flight
    → IsGood h
    → All (λ x. x.seq ≢ h.seq) d.assemblies
    → IsStored h.seq (record d { assemblies = d.assemblies ++ new_entry now h ∷ [] })
append_entry-IsStored now h d w room g fresh =
    let entry = new_entry now h in
    let own : entry.seq ≡ h.seq = unfold new_entry in refl in
    record {
      bounded = omega (arith, length-append d.assemblies (entry ∷ []));
      sound = All-append IsSound d.assemblies (entry ∷ []) w.sound (new_entry-IsSound now h g, tt);
      pending =
          All-append (λ e. e.seq ≢ h.seq → IsPending e) d.assemblies (entry ∷ [])
            (WellFormed-IsStored h.seq d w).pending (λ n. absurd (n own), tt);
      distinct = Distinct-snoc d.assemblies entry (rw own fresh) w.distinct;
    }
