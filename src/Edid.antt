-- ===== src/Edid.antt =====
-- Displays (src/drm_kms.rs): the score of a mode, and the resolutions read from an EDID, a list of
-- bytes. The masks and shifts of disjoint bits are quotients and remainders.
use llrdc_casting.Prelude.Bytes.{bytes_eq}
pub mod Largest
mod Tests
use llrdc_casting.Prelude.{
  ℕ, Bool, ◌*◌, List, if◌then◌else◌, Option, ◌+◌, unwrap_or, take, ◌∷◌, leb, ◌==◌, ltb, some, suc,
  not, none, get_elem?, drop, [], length, ◌/◌, ◌%◌, ◌||◌, ◌&&◌, or_else, zero,
}

-- `size` and `vrefresh` of the mode, and whether it is marked PREFERRED.
pub record Mode : Type 0 where
  pub width : ℕ
  pub height : ℕ
  pub vrefresh : ℕ
  pub is_preferred : Bool

score_mode : Mode → ℕ
score_mode mode =
    mode.width * mode.height
    + (if leb 50 mode.vrefresh then 100000 else if leb 30 mode.vrefresh then 50000 else 0)
    + (if mode.is_preferred then 100000 else 0)

-- Width, height and frames per second.
abbrev pub Resolution : Type 0
Resolution = ℕ × ℕ × ℕ

abbrev byte_at : List ℕ → ℕ → ℕ
byte_at bytes i = unwrap_or (get_elem? bytes i) 0

abbrev window : List ℕ → ℕ → ℕ → List ℕ
window bytes offset n = take n (drop offset bytes)

abbrev edid_magic : List ℕ
edid_magic = 0 ∷ 255 ∷ 255 ∷ 255 ∷ 255 ∷ 255 ∷ 255 ∷ 0 ∷ []

is_edid : List ℕ → Bool
is_edid bytes = leb 128 (length bytes) && bytes_eq (take 8 bytes) edid_magic

pixel_clock : List ℕ → ℕ
pixel_clock block = (byte_at block 0 + 256 * byte_at block 1) * 10000

h_active : List ℕ → ℕ
h_active block = byte_at block 2 + byte_at block 4 / 16 % 16 * 256

h_total : List ℕ → ℕ
unfolding h_active
h_total block = h_active block + (byte_at block 3 + byte_at block 4 % 16 * 256)

v_active : List ℕ → ℕ
v_active block = byte_at block 5 + byte_at block 7 / 16 % 16 * 256

v_total : List ℕ → ℕ
unfolding v_active
v_total block = v_active block + (byte_at block 6 + byte_at block 7 % 16 * 256)

-- The quotient rounded to the nearest: the operands are below 2^53, so the rounding of the float
-- quotient does not show.
rounded : ℕ → ℕ → ℕ
rounded clock total = if total == 0 then 0 else (2 * clock + total) / (2 * total)

-- A detailed timing, which describes no mode without a pixel clock or an active area.
unfoldable pub parse_detailed_timing : List ℕ → Option Resolution
unfolding pixel_clock h_active h_total v_active v_total rounded
parse_detailed_timing block =
    if ltb (length block) 18
    then none
    else if pixel_clock block == 0
    then none
    else if h_active block == 0 || v_active block == 0 || h_total block == 0 || v_total block == 0
    then none
    else some (
      h_active block,
      v_active block,
      rounded (pixel_clock block) (h_total block * v_total block),
    )

-- `check_mode`: the larger width wins, then the larger height, then the higher rate.
unfoldable pub check_mode : Resolution → Resolution → Resolution
check_mode (w, h, fps) (max_w, max_h, max_fps) =
    if ltb max_w w || (w == max_w && ltb max_h h) || (w == max_w && h == max_h && ltb max_fps fps)
    then (w, h, fps)
    else (max_w, max_h, max_fps)

abbrev check_timing : Option Resolution → Resolution → Resolution
check_timing none best = best
check_timing (some mode) best = check_mode mode best

-- The descriptors at the offsets, those that fit.
check_base : List ℕ → List ℕ → Resolution → Resolution
unfolding parse_detailed_timing check_mode
check_base bytes [] best = best
check_base bytes (offset ∷ offsets) best =
    let next =
      if leb (offset + 18) (length bytes)
      then check_timing (parse_detailed_timing (window bytes offset 18)) best
      else best in
    check_base bytes offsets next

abbrev base_offsets : List ℕ
base_offsets = 54 ∷ 72 ∷ 90 ∷ 108 ∷ []

in_range : ℕ → ℕ → ℕ → Bool
in_range low high v = leb low v && leb v high

-- The UHD video identification codes of CTA-861.
vic_mode : ℕ → Option Resolution
unfolding in_range
vic_mode vic =
    if vic == 93 || vic == 103
    then some (3840, 2160, 24)
    else if vic == 94 || vic == 104
    then some (3840, 2160, 25)
    else if vic == 95 || vic == 105
    then some (3840, 2160, 30)
    else if vic == 96 || vic == 106
    then some (3840, 2160, 50)
    else if vic == 97 || vic == 107
    then some (3840, 2160, 60)
    else if vic == 98
    then some (4096, 2160, 24)
    else if vic == 99
    then some (4096, 2160, 25)
    else if vic == 100
    then some (4096, 2160, 30)
    else if vic == 101
    then some (4096, 2160, 50)
    else if vic == 102
    then some (4096, 2160, 60)
    else if in_range 108 110 vic
    then some (3840, 2160, 60)
    else if in_range 111 113 vic
    then some (4096, 2160, 60)
    else if in_range 117 118 vic
    then some (3840, 2160, 120)
    else if in_range 119 120 vic
    then some (4096, 2160, 120)
    else none

check_vics : List ℕ → Resolution → Resolution
unfolding vic_mode check_mode
check_vics [] best = best
check_vics (raw ∷ vics) best = check_vics vics (check_timing (vic_mode (raw % 128)) best)

data_end : List ℕ → ℕ
data_end ext = let offset = byte_at ext 2 in if ltb 4 offset && leb offset 127 then offset else 127

-- The data blocks from `idx` to `dtd_end`. The index grows at each, so fuel of the length suffices.
check_blocks : ℕ → List ℕ → ℕ → Resolution → Resolution
unfolding data_end check_vics
check_blocks zero ext idx best = best
check_blocks (suc fuel) ext idx best =
    let len = byte_at ext idx % 32 in
    let checked =
      if byte_at ext idx / 32 == 2 then check_vics (window ext (idx + 1) len) best else best in
    let rest = check_blocks fuel ext (idx + 1 + len) checked in
    if ltb idx (data_end ext)
    then (if ltb (data_end ext) (idx + 1 + len) then best else rest)
    else best

-- The timings of the extension from `idx`, while a whole one lies below 127.
check_extension : ℕ → List ℕ → ℕ → Resolution → Resolution
unfolding parse_detailed_timing check_mode
check_extension zero ext idx best = best
check_extension (suc fuel) ext idx best =
    let rest =
      check_extension fuel ext (idx + 18)
        (check_timing (parse_detailed_timing (window ext idx 18)) best) in
    if leb (idx + 18) 127 then rest else best

has_extension : List ℕ → Bool
has_extension bytes = leb 256 (length bytes) && byte_at bytes 128 == 2

check_all : List ℕ → Resolution
unfolding check_base check_blocks check_extension has_extension
check_all bytes =
    let base = check_base bytes base_offsets (0, 0, 0) in
    let ext = window bytes 128 128 in
    if has_extension bytes
    then check_extension 128 ext (byte_at ext 2) (check_blocks 128 ext 4 base)
    else base

unfoldable pub parse_edid_max_resolution : List ℕ → Option Resolution
unfolding is_edid check_all
parse_edid_max_resolution bytes =
    let best = check_all bytes in
    if not (is_edid bytes) then none else if ltb 0 best.0 && ltb 0 best.1 then some best else none

pub first_base : List ℕ → List ℕ → Option Resolution
unfolding parse_detailed_timing
first_base bytes [] = none
first_base bytes (offset ∷ offsets) =
    or_else (parse_detailed_timing (window bytes offset 18)) (first_base bytes offsets)

first_extension : ℕ → List ℕ → ℕ → Option Resolution
unfolding parse_detailed_timing
first_extension zero ext offset = none
first_extension (suc fuel) ext offset =
    let rest = first_extension fuel ext (offset + 18) in
    if leb (offset + 18) (length ext)
    then or_else (parse_detailed_timing (window ext offset 18)) rest
    else none

-- The panel's own timing: the first that describes a mode.
unfoldable pub parse_edid_panel_resolution : List ℕ → Option Resolution
unfolding is_edid first_base has_extension first_extension data_end
parse_edid_panel_resolution bytes =
    let ext = window bytes 128 128 in
    if not (is_edid bytes)
    then none
    else or_else (first_base bytes base_offsets)
        (if has_extension bytes then first_extension 128 ext (data_end ext) else none)
