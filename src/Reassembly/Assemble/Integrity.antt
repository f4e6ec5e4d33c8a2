-- ===== src/Reassembly/Assemble/Integrity.antt =====
-- Frames hold the bytes that were sent: chunks of one access unit are never mixed with others.
-- The parts of an access unit against the slots of an entry: each filled slot holds its part.
use llrdc_casting.Reassembly.Assemble.Invariant.{Keeps}
use llrdc_casting.Reassembly.Assemble.Safety.{Holds}
use llrdc_casting.Reassembly.Assemble.{
  fill_slot, new_entry, emit, complete, join_chunks, VideoFrame, Decoder, purge, ignored,
  is_complete, chunk_lengths, max_access_unit_bytes, Stored, store_slot, evict, store_chunk, finish,
  stored, has_seq, max_in_flight, matches_entry, mismatch, panic,
}
use llrdc_casting.Reassembly.Types.{Assembly, Header}
use llrdc_casting.Prelude.{
  List, ℕ, Option, ◌∷◌, replicate, length, get_elem?, ◌≡◌, none, ◌++◌, some, All, ◌∙◌, [], set, ◌≢◌,
  find, suc, All-retain, zero, ltb, remove_first, All-remove_first, Bool-cases, ◌==◌, ◌||◌, inl,
  inr, All-find, refl, sym, All-update_found, All-drop, ==_iff, All-append, find-holds, ap₂,
}

abbrev pub Agrees : List (Option (List ℕ)) → List (List ℕ) → Type 0
Agrees [] [] = Unit
Agrees (none ∷ chunks) (p ∷ parts) = Agrees chunks parts
Agrees (some bytes ∷ chunks) (p ∷ parts) = (bytes ≡ p) × Agrees chunks parts
Agrees _ _ = ⊥

abbrev pub flatten : List (List ℕ) → List ℕ
flatten [] = []
flatten (p ∷ parts) = p ++ flatten parts

Agrees-replicate : (parts : List (List ℕ)) → Agrees (replicate (length parts) none) parts
Agrees-replicate [] = tt
Agrees-replicate (p ∷ parts) = Agrees-replicate parts

Agrees-set :
    (chunks : List (Option (List ℕ))) (parts : List (List ℕ)) (i : ℕ) (bytes : List ℕ)
    → get_elem? parts i ≡ some bytes
    → Agrees chunks parts
    → Agrees (set chunks i (some bytes)) parts
Agrees-set [] [] i bytes at a = tt
Agrees-set [] (p ∷ parts) i bytes at a = absurd a
Agrees-set (none ∷ chunks) [] i bytes at a = absurd a
Agrees-set (some b ∷ chunks) [] i bytes at a = absurd a
Agrees-set (none ∷ chunks) (p ∷ parts) zero bytes at a = (cc, a)
Agrees-set (some b ∷ chunks) (p ∷ parts) zero bytes at a = (cc, a.1)
Agrees-set (none ∷ chunks) (p ∷ parts) (suc i) bytes at a = Agrees-set chunks parts i bytes at a
Agrees-set (some b ∷ chunks) (p ∷ parts) (suc i) bytes at a =
    (a.0, Agrees-set chunks parts i bytes at a.1)

pub join_chunks-Agrees :
    (chunks : List (Option (List ℕ))) (parts : List (List ℕ)) (bytes : List ℕ)
    → Agrees chunks parts
    → join_chunks chunks ≡ some bytes
    → bytes ≡ flatten parts
join_chunks-Agrees [] [] bytes a j = cc
join_chunks-Agrees [] (p ∷ parts) bytes a j = absurd a
join_chunks-Agrees (none ∷ chunks) parts bytes a j = cc
join_chunks-Agrees (some b ∷ chunks) [] bytes a j = absurd a
join_chunks-Agrees (some b ∷ chunks) (p ∷ parts) bytes a j =
    go (join_chunks chunks) refl (λ rest. join_chunks-Agrees chunks parts rest a.1)
  where
    go :
        (o : Option (List ℕ))
        → join_chunks chunks ≡ o
        → ((rest : List ℕ) → join_chunks chunks ≡ some rest → rest ≡ flatten parts)
        → bytes ≡ p ++ flatten parts
    go none q ih = cc (rw q at j)
    go (some rest) q ih =
        let tail : rest ≡ flatten parts = ih rest q in
        let whole : b ++ rest ≡ bytes = cc (rw q at j) in sym whole ∙ ap₂ (◌++◌) a.0 tail

module _ (seq : ℕ) (parts : List (List ℕ)) where
  -- An entry of the sequence number holds only parts of this access unit.
  abbrev pub IsAuthentic : Assembly → Type 0
  IsAuthentic e = e.seq ≡ seq → Agrees e.chunks parts

  -- A packet of the sequence number carries a part of this access unit.
  abbrev pub IsGenuine : Header → Type 0
  IsGenuine h =
      h.seq ≡ seq
      → (h.total_chunks ≡ length parts) × (get_elem? parts h.chunk_index ≡ some h.payload)

  -- A frame of the sequence number, other than the stop frame, is this access unit.
  abbrev pub IsWhole : Option VideoFrame → Type 0
  IsWhole none = Unit
  IsWhole (some f) = f.codec ≢ none → f.seq ≡ seq → f.access_unit ≡ flatten parts

  abbrev pub Faithful : Option VideoFrame → Decoder → Type 0
  Faithful frame d = All IsAuthentic d.assemblies × IsWhole frame

  fill_slot-IsAuthentic :
      (h : Header) (e : Assembly)
      → h.seq ≡ e.seq
      → IsGenuine h
      → IsAuthentic e
      → IsAuthentic (fill_slot h e)
  unfolding fill_slot
  fill_slot-IsAuthentic h e own g a q =
      Agrees-set e.chunks parts h.chunk_index h.payload (g (own ∙ q)).1 (a q)

  new_entry-IsAuthentic : (now : ℕ) (h : Header) → IsGenuine h → IsAuthentic (new_entry now h)
  unfolding new_entry
  new_entry-IsAuthentic now h g q =
      Agrees-set (replicate h.total_chunks none) parts h.chunk_index h.payload (g q).1
        (rw (g q).0 (Agrees-replicate parts))

  emit-Faithful :
      (clock : ℕ) (e : Assembly) (d : Decoder) (o : Option (List ℕ))
      → IsAuthentic e
      → join_chunks e.chunks ≡ o
      → All IsAuthentic d.assemblies
      → Holds Faithful (emit clock e o d)
  unfolding emit
  emit-Faithful clock e d none a j w = (w, tt)
  emit-Faithful clock e d (some bytes) a j w =
      (w, λ _ q. join_chunks-Agrees e.chunks parts bytes (a q) j)

  complete-Faithful :
      (clock s : ℕ) (d : Decoder) (o : Option Assembly)
      → find (is_complete s) d.assemblies ≡ o
      → All IsAuthentic d.assemblies
      → Holds Faithful (complete clock s o d)
  unfolding complete purge ignored
  complete-Faithful clock s d none found w = (w, tt)
  complete-Faithful clock s d (some e) found w =
      let kept =
        All-retain IsAuthentic IsAuthentic (λ x. ltb e.seq x.seq)
          (remove_first (is_complete s) d.assemblies) (λ x _ k. k)
          (All-remove_first IsAuthentic (is_complete s) d.assemblies w) in
      elim (Bool-cases
        (chunk_lengths e.chunks == 0 || ltb max_access_unit_bytes (chunk_lengths e.chunks))) [
          | inl out ↦ rw out (kept, tt)
          | inr fits ↦ rw fits (
              emit-Faithful clock e (purge s e d) (join_chunks e.chunks)
                (All-find IsAuthentic (is_complete s) d.assemblies found w) refl kept)
        ]

  -- What is stored is authentic too.
  abbrev KeepsAuthentic : Stored → Type 0
  KeepsAuthentic (stored d) = All IsAuthentic d.assemblies
  KeepsAuthentic _ = Unit

  store_slot-IsAuthentic :
      (h : Header) (e : Assembly) (d : Decoder) (slot : Option (Option (List ℕ)))
      → IsGenuine h
      → find (has_seq h.seq) d.assemblies ≡ some e
      → All IsAuthentic d.assemblies
      → KeepsAuthentic (store_slot h slot d)
  unfolding store_slot
  store_slot-IsAuthentic h e d none g found w = tt
  store_slot-IsAuthentic h e d (some none) g found w =
      All-update_found IsAuthentic (has_seq h.seq) (fill_slot h) d.assemblies found
        (fill_slot-IsAuthentic h e
          (sym ((==_iff e.seq h.seq).0 (find-holds (has_seq h.seq) d.assemblies found))) g
          (All-find IsAuthentic (has_seq h.seq) d.assemblies found w))
        w
  store_slot-IsAuthentic h e d (some (some b)) g found w = w

  evict-IsAuthentic :
      (d : Decoder) → All IsAuthentic d.assemblies → All IsAuthentic (evict d).assemblies
  unfolding evict
  evict-IsAuthentic d w = elim (Bool-cases (length d.assemblies == max_in_flight)) [
    | inl full ↦ rw full (All-drop IsAuthentic 1 d.assemblies w)
    | inr room ↦ rw room w
  ]

  pub store_chunk-IsAuthentic :
      (now : ℕ) (h : Header) (d : Decoder) (o : Option Assembly)
      → IsGenuine h
      → find (has_seq h.seq) d.assemblies ≡ o
      → All IsAuthentic d.assemblies
      → KeepsAuthentic (store_chunk now h o d)
  unfolding store_chunk
  store_chunk-IsAuthentic now h d (some e) g found w = elim (Bool-cases (matches_entry h e)) [
    | inl same ↦ rw same (store_slot-IsAuthentic h e d (get_elem? e.chunks h.chunk_index) g found w)
    | inr other ↦ rw other tt
  ]
  store_chunk-IsAuthentic now h d none g found w =
      All-append IsAuthentic (evict d).assemblies (new_entry now h ∷ []) (evict-IsAuthentic d w)
        (new_entry-IsAuthentic now h g, tt)

  pub finish-Faithful :
      (clock : ℕ) (h : Header) (d : Decoder) (r : Stored)
      → All IsAuthentic d.assemblies
      → Keeps h.seq r
      → KeepsAuthentic r
      → Holds Faithful (finish clock h d r)
  unfolding finish ignored
  finish-Faithful clock h d mismatch w ok k = (w, tt)
  finish-Faithful clock h d panic w ok k = ok
  finish-Faithful clock h d (stored d') w ok k = complete-Faithful clock h.seq d' _ refl k
