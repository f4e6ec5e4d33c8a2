-- ===== src/Reassembly/Assemble/Entries.antt =====
-- One assembly: its slots, the count of the filled ones, and what a stored chunk does to them.
use llrdc_casting.Reassembly.Assemble.{fill_slot, new_entry, join_chunks, chunk_lengths}
use llrdc_casting.Reassembly.Types.{Assembly, Header, max_chunks, max_width, max_height}
use llrdc_casting.Prelude.{
  ℕ, zero, suc, ◌≤◌, ◌<◌, ◌≡◌, refl, Option, none, some, List, [], ◌∷◌, arith, length, get_elem?,
  replicate, All, set, ap, length-set, ◌∙◌, ◌++◌, length-replicate, length-append,
}

abbrev pub filled : List (Option (List ℕ)) → ℕ
filled [] = 0
filled (none ∷ chunks) = filled chunks
filled (some bytes ∷ chunks) = suc (filled chunks)

abbrev pub IsSized : Option (List ℕ) → Type 0
IsSized none = Unit
IsSized (some bytes) = 0 < length bytes

pub record IsSound (e : Assembly) : Type 0 where
  pub indexed : length e.chunks ≡ e.total_chunks
  pub counted : e.received ≡ filled e.chunks
  pub total : e.total_chunks ≤ max_chunks
  pub fits_width : e.width ≤ max_width e.codec
  pub fits_height : e.height ≤ max_height e.codec
  pub sized : All IsSized e.chunks

-- What the header checks have made sure of.
pub record IsGood (h : Header) : Type 0 where
  pub index : h.chunk_index < h.total_chunks
  pub total : h.total_chunks ≤ max_chunks
  pub fits_width : h.width ≤ max_width h.codec
  pub fits_height : h.height ≤ max_height h.codec
  pub sized : 0 < length h.payload

pub filled-set :
    (chunks : List (Option (List ℕ))) (i : ℕ) (bytes : List ℕ)
    → get_elem? chunks i ≡ some none
    → filled (set chunks i (some bytes)) ≡ suc (filled chunks)
filled-set [] i bytes h = cc
filled-set (none ∷ chunks) zero bytes h = refl
filled-set (some b ∷ chunks) zero bytes h = cc
filled-set (none ∷ chunks) (suc i) bytes h = filled-set chunks i bytes h
filled-set (some b ∷ chunks) (suc i) bytes h = ap suc (filled-set chunks i bytes h)

pub filled-replicate : (n : ℕ) → filled (replicate n none) ≡ 0
filled-replicate zero = refl
filled-replicate (suc n) = filled-replicate n

pub get_elem?-replicate :
    (n i : ℕ) → i < n → get_elem? (replicate {A = Option (List ℕ)} n none) i ≡ some none
get_elem?-replicate zero i h = elim h [ ]
get_elem?-replicate (suc n) zero h = refl
get_elem?-replicate (suc n) (suc i) h = get_elem?-replicate n i (omega arith)

pub IsSized-set :
    (chunks : List (Option (List ℕ))) (i : ℕ) (bytes : List ℕ)
    → 0 < length bytes
    → All IsSized chunks
    → All IsSized (set chunks i (some bytes))
IsSized-set [] i bytes p h = h
IsSized-set (c ∷ chunks) zero bytes p h = (p, h.1)
IsSized-set (c ∷ chunks) (suc i) bytes p h = (h.0, IsSized-set chunks i bytes p h.1)

pub IsSized-replicate : (n : ℕ) → All IsSized (replicate n none)
IsSized-replicate zero = tt
IsSized-replicate (suc n) = (tt, IsSized-replicate n)

pub filled-le-length : (chunks : List (Option (List ℕ))) → filled chunks ≤ length chunks
filled-le-length [] = omega arith
filled-le-length (none ∷ chunks) = omega (arith, filled-le-length chunks)
filled-le-length (some b ∷ chunks) = omega (arith, filled-le-length chunks)

pub get_elem?-some {ℓ} :
    {A : Type ℓ} (xs : List A) (i : ℕ) → i < length xs → (a : A) × (get_elem? xs i ≡ some a)
get_elem?-some [] i h = elim h [ ]
get_elem?-some (x ∷ xs) zero h = (x, refl)
get_elem?-some (x ∷ xs) (suc i) h = get_elem?-some xs i (omega arith)

pub fill_slot-IsSound :
    (h : Header) (e : Assembly)
    → IsGood h
    → get_elem? e.chunks h.chunk_index ≡ some none
    → IsSound e
    → IsSound (fill_slot h e)
unfolding fill_slot
fill_slot-IsSound h e g free s = record {
  indexed = length-set e.chunks h.chunk_index (some h.payload) ∙ s.indexed;
  counted = omega (arith, s.counted, filled-set e.chunks h.chunk_index h.payload free);
  total = s.total;
  fits_width = s.fits_width;
  fits_height = s.fits_height;
  sized = IsSized-set e.chunks h.chunk_index h.payload g.sized s.sized;
}

pub new_entry-IsSound : (now : ℕ) (h : Header) → IsGood h → IsSound (new_entry now h)
unfolding new_entry
new_entry-IsSound now h g =
    let blank : List (Option (List ℕ)) = replicate h.total_chunks none in
    record {
      indexed =
          length-set blank h.chunk_index (some h.payload) ∙ length-replicate h.total_chunks none;
      counted = omega (
        arith,
        filled-set blank h.chunk_index h.payload
            (get_elem?-replicate h.total_chunks h.chunk_index g.index),
        filled-replicate h.total_chunks,
      );
      total = g.total;
      fits_width = g.fits_width;
      fits_height = g.fits_height;
      sized = IsSized-set blank h.chunk_index h.payload g.sized (IsSized-replicate h.total_chunks);
    }

-- The slots of a complete entry are all filled, so joining them finds each.
pub join_chunks-filled :
    (chunks : List (Option (List ℕ)))
    → filled chunks ≡ length chunks
    → (bytes : List ℕ) × (join_chunks chunks ≡ some bytes) × (length bytes ≡ chunk_lengths chunks)
join_chunks-filled [] h = ([], refl, refl)
join_chunks-filled (none ∷ chunks) h = absurd (omega (arith, filled-le-length chunks))
join_chunks-filled (some b ∷ chunks) h =
    let (rest, joined, size) = join_chunks-filled chunks (omega arith) in
    (b ++ rest, rw joined, omega (arith, length-append b rest))
