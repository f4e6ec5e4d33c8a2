-- ===== src/Reassembly/Tag.antt =====
-- The four-byte tags of src/config.rs.
use llrdc_casting.Prelude.{ℕ, List, [], ◌∷◌}

abbrev pub h264 : List ℕ
h264 = b'H' ∷ b'2' ∷ b'6' ∷ b'4' ∷ []

abbrev pub h265 : List ℕ
h265 = b'H' ∷ b'2' ∷ b'6' ∷ b'5' ∷ []

abbrev pub timed_h264 : List ℕ
timed_h264 = b'H' ∷ b'2' ∷ b'4' ∷ b'T' ∷ []

abbrev pub timed_h265 : List ℕ
timed_h265 = b'H' ∷ b'2' ∷ b'6' ∷ b'T' ∷ []

abbrev pub sync_timed_h264 : List ℕ
sync_timed_h264 = b'H' ∷ b'2' ∷ b'4' ∷ b'S' ∷ []

abbrev pub sync_timed_h265 : List ℕ
sync_timed_h265 = b'H' ∷ b'2' ∷ b'6' ∷ b'S' ∷ []

abbrev pub legacy_h264 : List ℕ
legacy_h264 = b'V' ∷ b'I' ∷ b'D' ∷ b'C' ∷ []

abbrev pub legacy_h265 : List ℕ
legacy_h265 = b'H' ∷ b'E' ∷ b'V' ∷ b'C' ∷ []

abbrev pub stop : List ℕ
stop = b'S' ∷ b'T' ∷ b'O' ∷ b'P' ∷ []
