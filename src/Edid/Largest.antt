-- ===== src/Edid/Largest.antt =====
-- The largest mode of an EDID, against the modes that it lists.
use llrdc_casting.Edid.{
  Resolution, check_mode, Bool, ltb, leb, Option, check_base, check_vics, check_blocks,
  check_extension, first_base, check_timing, List, ℕ, some, ◌∷◌, suc, vic_mode, byte_at, length,
  parse_detailed_timing, window, or_else, data_end, base_offsets, check_all,
  parse_edid_max_resolution, is_edid, has_extension,
}
use llrdc_casting.Prelude.{
  ◌≡◌, true, arith, ◌||◌, ◌==◌, ◌&&◌, if◌then◌else◌, false, All, ◌+◌, none, ◌%◌, ◌/◌, [], zero,
  subst, and-left, Bool-cases, inl, inr,
}

-- The order of resolutions: by width, then height, then rate.
abbrev pub covers : Resolution → Resolution → Bool
covers (w, h, fps) (max_w, max_h, max_fps) =
    ltb w max_w || (w == max_w && ltb h max_h) || (w == max_w && h == max_h && leb fps max_fps)

covers_trans : (a b c : Resolution) → covers a b ≡ true → covers b c ≡ true → covers a c ≡ true
covers_trans (a0, a1, a2) (b0, b1, b2) (c0, c1, c2) h k = ground arith

covers_refl : (a : Resolution) → covers a a ≡ true
covers_refl (a0, a1, a2) = ground arith

check_mode-covers :
    (mode best : Resolution)
    → (covers mode (check_mode mode best) ≡ true) × (covers best (check_mode mode best) ≡ true)
unfolding check_mode
check_mode-covers (w, h, fps) (max_w, max_h, max_fps) = ground arith

check_timing-covers :
    (o : Option Resolution) (x best : Resolution)
    → covers x best ≡ true
    → covers x (check_timing o best) ≡ true
check_timing-covers none x best h = h
check_timing-covers (some mode) x best h =
    covers_trans x best (check_mode mode best) h (check_mode-covers mode best).1

if-covers :
    (b : Bool) (x p q : Resolution)
    → covers x p ≡ true
    → covers x q ≡ true
    → covers x (if b then p else q) ≡ true
if-covers true x p q h k = h
if-covers false x p q h k = k

check_base-covers :
    (bytes offsets : List ℕ) (x best : Resolution)
    → covers x best ≡ true
    → covers x (check_base bytes offsets best) ≡ true
unfolding check_base
check_base-covers bytes [] x best h = h
check_base-covers bytes (offset ∷ offsets) x best h = check_base-covers bytes offsets x _ (
    if-covers (leb (offset + 18) (length bytes)) x _ best
      (check_timing-covers (parse_detailed_timing (window bytes offset 18)) x best h) h)

check_vics-covers :
    (vics : List ℕ) (x best : Resolution)
    → covers x best ≡ true
    → covers x (check_vics vics best) ≡ true
unfolding check_vics
check_vics-covers [] x best h = h
check_vics-covers (raw ∷ vics) x best h =
    check_vics-covers vics x _ (check_timing-covers (vic_mode (raw % 128)) x best h)

check_blocks-covers :
    (fuel : ℕ) (ext : List ℕ) (idx : ℕ) (x best : Resolution)
    → covers x best ≡ true
    → covers x (check_blocks fuel ext idx best) ≡ true
unfolding check_blocks
check_blocks-covers zero ext idx x best h = h
check_blocks-covers (suc fuel) ext idx x best h =
    let checked =
      if-covers (byte_at ext idx / 32 == 2) x
        (check_vics (window ext (idx + 1) (byte_at ext idx % 32)) best) best
        (check_vics-covers (window ext (idx + 1) (byte_at ext idx % 32)) x best h) h in
    if-covers (ltb idx (data_end ext)) x _ best
      (if-covers (ltb (data_end ext) (idx + 1 + byte_at ext idx % 32)) x best _ h
        (check_blocks-covers fuel ext (idx + 1 + byte_at ext idx % 32) x _ checked))
      h

check_extension-covers :
    (fuel : ℕ) (ext : List ℕ) (idx : ℕ) (x best : Resolution)
    → covers x best ≡ true
    → covers x (check_extension fuel ext idx best) ≡ true
unfolding check_extension
check_extension-covers zero ext idx x best h = h
check_extension-covers (suc fuel) ext idx x best h =
    if-covers (leb (idx + 18) 127) x _ best
      (check_extension-covers fuel ext (idx + 18) x _
        (check_timing-covers (parse_detailed_timing (window ext idx 18)) x best h))
      h

-- The first timing of the base block is covered by what the base block gives.
first_base-covered :
    (bytes offsets : List ℕ) (x best : Resolution)
    → All (λ o. leb (o + 18) (length bytes) ≡ true) offsets
    → first_base bytes offsets ≡ some x
    → covers x (check_base bytes offsets best) ≡ true
unfolding first_base check_base
first_base-covered bytes [] x best fits found = cc found
first_base-covered bytes (offset ∷ offsets) x best fits found =
    go (parse_detailed_timing (window bytes offset 18)) found
      (λ h. first_base-covered bytes offsets x best fits.1 h)
  where
    go :
        (o : Option Resolution)
        → or_else o (first_base bytes offsets) ≡ some x
        → (first_base bytes offsets ≡ some x → covers x (check_base bytes offsets best) ≡ true)
        → covers x (
            check_base bytes offsets
              (if leb (offset + 18) (length bytes) then check_timing o best else best))
          ≡ true
    go none h later = rw fits.0 (later h)
    go (some mode) h later =
        let same : mode ≡ x = cc h in
        rw fits.0 (
          check_base-covers bytes offsets x (check_mode mode best) (
            subst (λ (r : Resolution). covers r (check_mode mode best) ≡ true) same
              (check_mode-covers mode best).0))

offsets_fit : (n : ℕ) → leb 128 n ≡ true → All (λ o. leb (o + 18) n ≡ true) base_offsets
offsets_fit n long = (ground arith, (ground arith, (ground arith, (ground arith, tt))))

check_all-covers :
    (bytes : List ℕ) (x : Resolution)
    → is_edid bytes ≡ true
    → first_base bytes base_offsets ≡ some x
    → covers x (check_all bytes) ≡ true
unfolding check_all is_edid
check_all-covers bytes x valid found =
    let base =
      first_base-covered bytes base_offsets x (0, 0, 0)
        (offsets_fit (length bytes) (and-left (leb 128 (length bytes)) _ valid)) found in
    if-covers (has_extension bytes) x _ _
      (check_extension-covers 128 (window bytes 128 128) (byte_at (window bytes 128 128) 2) x _
        (check_blocks-covers 128 (window bytes 128 128) 4 x _ base))
      base

-- The largest resolution of an EDID is no smaller, in width, then height, then rate, than the first
-- timing of its base block, which is the panel's own, whatever its extension holds.
pub parse_edid_max_resolution-first_base :
    (bytes : List ℕ) (x best : Resolution)
    → parse_edid_max_resolution bytes ≡ some best
    → first_base bytes base_offsets ≡ some x
    → covers x best ≡ true
unfolding parse_edid_max_resolution
parse_edid_max_resolution-first_base bytes x best largest found =
    elim (Bool-cases (is_edid bytes)) [
      | inl valid ↦ elim (Bool-cases (ltb 0 (check_all bytes).0 && ltb 0 (check_all bytes).1)) [
        | inl some_mode ↦
            let same : check_all bytes ≡ best = cc (rw (valid, some_mode) at largest) in
            subst (λ (r : Resolution). covers x r ≡ true) same
              (check_all-covers bytes x valid found)
        | inr no_mode ↦ cc (rw (valid, no_mode) at largest)
      ]
      | inr invalid ↦ cc (rw invalid at largest)
    ]
