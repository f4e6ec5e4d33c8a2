-- ===== src/Edid/Tests.antt =====
-- A base block with one timing, 1920 by 1080 at 60 Hz.
use llrdc_casting.Edid.Largest.{covers, parse_edid_max_resolution-first_base}
use llrdc_casting.Edid.{
  parse_edid_max_resolution, first_base, edid_magic, is_edid, parse_detailed_timing, [], check_all,
  pixel_clock, check_base, h_active, has_extension, h_total, check_mode, v_active, v_total, rounded,
  some, base_offsets,
}
use llrdc_casting.Prelude.{ℕ, List, ◌≡◌, ◌∷◌, ◌++◌, true, replicate, refl}

abbrev timing : List ℕ
timing = 2 ∷ 58 ∷ 128 ∷ 24 ∷ 113 ∷ 56 ∷ 45 ∷ 64 ∷ 0 ∷ 0 ∷ 0 ∷ 0 ∷ 0 ∷ 0 ∷ 0 ∷ 0 ∷ 0 ∷ 0 ∷ []

abbrev base_block : List ℕ
base_block = edid_magic ++ replicate 46 0 ++ timing ++ replicate 56 0

largest_full_hd : parse_edid_max_resolution base_block ≡ some (1920, 1080, 60)
unfolding parse_edid_max_resolution is_edid check_all check_base has_extension parse_detailed_timing
    check_mode pixel_clock h_active h_total v_active v_total rounded
largest_full_hd = refl

first_full_hd : first_base base_block base_offsets ≡ some (1920, 1080, 60)
unfolding first_base parse_detailed_timing pixel_clock h_active h_total v_active v_total rounded
first_full_hd = refl

parse_edid_max_resolution-first_base_example : covers (1920, 1080, 60) (1920, 1080, 60) ≡ true
parse_edid_max_resolution-first_base_example =
    parse_edid_max_resolution-first_base base_block (1920, 1080, 60) (1920, 1080, 60)
      largest_full_hd first_full_hd
