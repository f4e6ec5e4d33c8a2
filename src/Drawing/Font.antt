-- ===== src/Drawing/Font.antt =====
-- The glyphs of the idle page (src/text.rs, `font`): eight rows of eight pixels, the leftmost the
-- highest bit. Characters are code points.
use llrdc_casting.Prelude.{ℕ, List, [], ◌∷◌, leb, ◌&&◌, if◌then◌else◌, suc, ◌-◌, zero}

-- The characters from the space to the grave accent.
abbrev first_glyphs : List (List ℕ)
first_glyphs =
    (0x00 ∷ 0x00 ∷ 0x00 ∷ 0x00 ∷ 0x00 ∷ 0x00 ∷ 0x00 ∷ 0x00 ∷ [])
    ∷ (0x18 ∷ 0x3C ∷ 0x3C ∷ 0x18 ∷ 0x18 ∷ 0x00 ∷ 0x18 ∷ 0x00 ∷ [])
    ∷ (0x66 ∷ 0x66 ∷ 0x24 ∷ 0x00 ∷ 0x00 ∷ 0x00 ∷ 0x00 ∷ 0x00 ∷ [])
    ∷ (0x6C ∷ 0x6C ∷ 0xFE ∷ 0x6C ∷ 0xFE ∷ 0x6C ∷ 0x6C ∷ 0x00 ∷ [])
    ∷ (0x18 ∷ 0x3E ∷ 0x60 ∷ 0x3C ∷ 0x06 ∷ 0x7C ∷ 0x18 ∷ 0x00 ∷ [])
    ∷ (0x00 ∷ 0x66 ∷ 0x6C ∷ 0x18 ∷ 0x30 ∷ 0x66 ∷ 0x46 ∷ 0x00 ∷ [])
    ∷ (0x3C ∷ 0x66 ∷ 0x3C ∷ 0x38 ∷ 0x6E ∷ 0x66 ∷ 0x3B ∷ 0x00 ∷ [])
    ∷ (0x18 ∷ 0x18 ∷ 0x30 ∷ 0x00 ∷ 0x00 ∷ 0x00 ∷ 0x00 ∷ 0x00 ∷ [])
    ∷ (0x0C ∷ 0x18 ∷ 0x30 ∷ 0x30 ∷ 0x30 ∷ 0x18 ∷ 0x0C ∷ 0x00 ∷ [])
    ∷ (0x30 ∷ 0x18 ∷ 0x0C ∷ 0x0C ∷ 0x0C ∷ 0x18 ∷ 0x30 ∷ 0x00 ∷ [])
    ∷ (0x00 ∷ 0x66 ∷ 0x3C ∷ 0xFF ∷ 0x3C ∷ 0x66 ∷ 0x00 ∷ 0x00 ∷ [])
    ∷ (0x00 ∷ 0x18 ∷ 0x18 ∷ 0x7E ∷ 0x18 ∷ 0x18 ∷ 0x00 ∷ 0x00 ∷ [])
    ∷ (0x00 ∷ 0x00 ∷ 0x00 ∷ 0x00 ∷ 0x00 ∷ 0x18 ∷ 0x18 ∷ 0x30 ∷ [])
    ∷ (0x00 ∷ 0x00 ∷ 0x00 ∷ 0xFE ∷ 0x00 ∷ 0x00 ∷ 0x00 ∷ 0x00 ∷ [])
    ∷ (0x00 ∷ 0x00 ∷ 0x00 ∷ 0x00 ∷ 0x00 ∷ 0x18 ∷ 0x18 ∷ 0x00 ∷ [])
    ∷ (0x00 ∷ 0x06 ∷ 0x0C ∷ 0x18 ∷ 0x30 ∷ 0x60 ∷ 0x00 ∷ 0x00 ∷ [])
    ∷ (0x3C ∷ 0x66 ∷ 0x66 ∷ 0x66 ∷ 0x66 ∷ 0x66 ∷ 0x3C ∷ 0x00 ∷ [])
    ∷ (0x18 ∷ 0x38 ∷ 0x18 ∷ 0x18 ∷ 0x18 ∷ 0x18 ∷ 0x7E ∷ 0x00 ∷ [])
    ∷ (0x3C ∷ 0x66 ∷ 0x06 ∷ 0x1C ∷ 0x30 ∷ 0x60 ∷ 0x7E ∷ 0x00 ∷ [])
    ∷ (0x3C ∷ 0x66 ∷ 0x06 ∷ 0x1C ∷ 0x06 ∷ 0x66 ∷ 0x3C ∷ 0x00 ∷ [])
    ∷ (0x0E ∷ 0x1E ∷ 0x36 ∷ 0x66 ∷ 0x7F ∷ 0x06 ∷ 0x0F ∷ 0x00 ∷ [])
    ∷ (0x7E ∷ 0x60 ∷ 0x7C ∷ 0x06 ∷ 0x06 ∷ 0x66 ∷ 0x3C ∷ 0x00 ∷ [])
    ∷ (0x1C ∷ 0x30 ∷ 0x60 ∷ 0x7C ∷ 0x66 ∷ 0x66 ∷ 0x3C ∷ 0x00 ∷ [])
    ∷ (0x7E ∷ 0x66 ∷ 0x0C ∷ 0x18 ∷ 0x18 ∷ 0x18 ∷ 0x18 ∷ 0x00 ∷ [])
    ∷ (0x3C ∷ 0x66 ∷ 0x66 ∷ 0x3C ∷ 0x66 ∷ 0x66 ∷ 0x3C ∷ 0x00 ∷ [])
    ∷ (0x3C ∷ 0x66 ∷ 0x66 ∷ 0x3E ∷ 0x06 ∷ 0x0C ∷ 0x38 ∷ 0x00 ∷ [])
    ∷ (0x00 ∷ 0x18 ∷ 0x18 ∷ 0x00 ∷ 0x18 ∷ 0x18 ∷ 0x00 ∷ 0x00 ∷ [])
    ∷ (0x00 ∷ 0x18 ∷ 0x18 ∷ 0x00 ∷ 0x18 ∷ 0x18 ∷ 0x30 ∷ 0x00 ∷ [])
    ∷ (0x06 ∷ 0x0C ∷ 0x18 ∷ 0x30 ∷ 0x18 ∷ 0x0C ∷ 0x06 ∷ 0x00 ∷ [])
    ∷ (0x00 ∷ 0x00 ∷ 0x7E ∷ 0x00 ∷ 0x7E ∷ 0x00 ∷ 0x00 ∷ 0x00 ∷ [])
    ∷ (0x60 ∷ 0x30 ∷ 0x18 ∷ 0x0C ∷ 0x18 ∷ 0x30 ∷ 0x60 ∷ 0x00 ∷ [])
    ∷ (0x3C ∷ 0x66 ∷ 0x06 ∷ 0x0C ∷ 0x18 ∷ 0x00 ∷ 0x18 ∷ 0x00 ∷ [])
    ∷ (0x3C ∷ 0x66 ∷ 0x6E ∷ 0x6E ∷ 0x60 ∷ 0x62 ∷ 0x3C ∷ 0x00 ∷ [])
    ∷ (0x18 ∷ 0x3C ∷ 0x66 ∷ 0x66 ∷ 0x7E ∷ 0x66 ∷ 0x66 ∷ 0x00 ∷ [])
    ∷ (0x7C ∷ 0x66 ∷ 0x66 ∷ 0x7C ∷ 0x66 ∷ 0x66 ∷ 0x7C ∷ 0x00 ∷ [])
    ∷ (0x3C ∷ 0x66 ∷ 0x60 ∷ 0x60 ∷ 0x60 ∷ 0x66 ∷ 0x3C ∷ 0x00 ∷ [])
    ∷ (0x78 ∷ 0x6C ∷ 0x66 ∷ 0x66 ∷ 0x66 ∷ 0x6C ∷ 0x78 ∷ 0x00 ∷ [])
    ∷ (0x7E ∷ 0x60 ∷ 0x60 ∷ 0x7C ∷ 0x60 ∷ 0x60 ∷ 0x7E ∷ 0x00 ∷ [])
    ∷ (0x7E ∷ 0x60 ∷ 0x60 ∷ 0x7C ∷ 0x60 ∷ 0x60 ∷ 0x60 ∷ 0x00 ∷ [])
    ∷ (0x3C ∷ 0x66 ∷ 0x60 ∷ 0x6E ∷ 0x66 ∷ 0x66 ∷ 0x3C ∷ 0x00 ∷ [])
    ∷ (0x66 ∷ 0x66 ∷ 0x66 ∷ 0x7E ∷ 0x66 ∷ 0x66 ∷ 0x66 ∷ 0x00 ∷ [])
    ∷ (0x3E ∷ 0x18 ∷ 0x18 ∷ 0x18 ∷ 0x18 ∷ 0x18 ∷ 0x3E ∷ 0x00 ∷ [])
    ∷ (0x1E ∷ 0x0C ∷ 0x0C ∷ 0x0C ∷ 0x0C ∷ 0x6C ∷ 0x38 ∷ 0x00 ∷ [])
    ∷ (0x66 ∷ 0x6C ∷ 0x78 ∷ 0x70 ∷ 0x78 ∷ 0x6C ∷ 0x66 ∷ 0x00 ∷ [])
    ∷ (0x60 ∷ 0x60 ∷ 0x60 ∷ 0x60 ∷ 0x60 ∷ 0x60 ∷ 0x7E ∷ 0x00 ∷ [])
    ∷ (0x63 ∷ 0x77 ∷ 0x7F ∷ 0x6B ∷ 0x63 ∷ 0x63 ∷ 0x63 ∷ 0x00 ∷ [])
    ∷ (0x66 ∷ 0x76 ∷ 0x7E ∷ 0x7E ∷ 0x6E ∷ 0x66 ∷ 0x66 ∷ 0x00 ∷ [])
    ∷ (0x3C ∷ 0x66 ∷ 0x66 ∷ 0x66 ∷ 0x66 ∷ 0x66 ∷ 0x3C ∷ 0x00 ∷ [])
    ∷ (0x7C ∷ 0x66 ∷ 0x66 ∷ 0x7C ∷ 0x60 ∷ 0x60 ∷ 0x60 ∷ 0x00 ∷ [])
    ∷ (0x3C ∷ 0x66 ∷ 0x66 ∷ 0x66 ∷ 0x6A ∷ 0x6C ∷ 0x36 ∷ 0x00 ∷ [])
    ∷ (0x7C ∷ 0x66 ∷ 0x66 ∷ 0x7C ∷ 0x6C ∷ 0x66 ∷ 0x66 ∷ 0x00 ∷ [])
    ∷ (0x3C ∷ 0x66 ∷ 0x60 ∷ 0x3C ∷ 0x06 ∷ 0x66 ∷ 0x3C ∷ 0x00 ∷ [])
    ∷ (0x7E ∷ 0x18 ∷ 0x18 ∷ 0x18 ∷ 0x18 ∷ 0x18 ∷ 0x18 ∷ 0x00 ∷ [])
    ∷ (0x66 ∷ 0x66 ∷ 0x66 ∷ 0x66 ∷ 0x66 ∷ 0x66 ∷ 0x3C ∷ 0x00 ∷ [])
    ∷ (0x66 ∷ 0x66 ∷ 0x66 ∷ 0x66 ∷ 0x66 ∷ 0x3C ∷ 0x18 ∷ 0x00 ∷ [])
    ∷ (0x63 ∷ 0x63 ∷ 0x63 ∷ 0x6B ∷ 0x7F ∷ 0x77 ∷ 0x63 ∷ 0x00 ∷ [])
    ∷ (0x66 ∷ 0x66 ∷ 0x3C ∷ 0x18 ∷ 0x3C ∷ 0x66 ∷ 0x66 ∷ 0x00 ∷ [])
    ∷ (0x66 ∷ 0x66 ∷ 0x66 ∷ 0x3C ∷ 0x18 ∷ 0x18 ∷ 0x18 ∷ 0x00 ∷ [])
    ∷ (0x7E ∷ 0x06 ∷ 0x0C ∷ 0x18 ∷ 0x30 ∷ 0x60 ∷ 0x7E ∷ 0x00 ∷ [])
    ∷ (0x3C ∷ 0x30 ∷ 0x30 ∷ 0x30 ∷ 0x30 ∷ 0x30 ∷ 0x3C ∷ 0x00 ∷ [])
    ∷ (0x00 ∷ 0x60 ∷ 0x30 ∷ 0x18 ∷ 0x0C ∷ 0x06 ∷ 0x00 ∷ 0x00 ∷ [])
    ∷ (0x3C ∷ 0x0C ∷ 0x0C ∷ 0x0C ∷ 0x0C ∷ 0x0C ∷ 0x3C ∷ 0x00 ∷ [])
    ∷ (0x18 ∷ 0x3C ∷ 0x66 ∷ 0x00 ∷ 0x00 ∷ 0x00 ∷ 0x00 ∷ 0x00 ∷ [])
    ∷ (0x00 ∷ 0x00 ∷ 0x00 ∷ 0x00 ∷ 0x00 ∷ 0x00 ∷ 0xFF ∷ 0x00 ∷ [])
    ∷ (0x30 ∷ 0x18 ∷ 0x0C ∷ 0x00 ∷ 0x00 ∷ 0x00 ∷ 0x00 ∷ 0x00 ∷ [])
    ∷ []

-- The characters from the left brace to the tilde.
abbrev last_glyphs : List (List ℕ)
last_glyphs =
    (0x0E ∷ 0x18 ∷ 0x18 ∷ 0x70 ∷ 0x18 ∷ 0x18 ∷ 0x0E ∷ 0x00 ∷ [])
    ∷ (0x18 ∷ 0x18 ∷ 0x18 ∷ 0x00 ∷ 0x18 ∷ 0x18 ∷ 0x18 ∷ 0x00 ∷ [])
    ∷ (0x70 ∷ 0x18 ∷ 0x18 ∷ 0x0E ∷ 0x18 ∷ 0x18 ∷ 0x70 ∷ 0x00 ∷ [])
    ∷ (0x31 ∷ 0x6B ∷ 0x46 ∷ 0x00 ∷ 0x00 ∷ 0x00 ∷ 0x00 ∷ 0x00 ∷ [])
    ∷ []

abbrev default_box : List ℕ
default_box = 0x00 ∷ 0x7E ∷ 0x42 ∷ 0x42 ∷ 0x42 ∷ 0x42 ∷ 0x7E ∷ 0x00 ∷ []

glyph_or : List (List ℕ) → ℕ → List ℕ
glyph_or [] i = default_box
glyph_or (g ∷ gs) zero = g
glyph_or (g ∷ gs) (suc i) = glyph_or gs i

-- Lower case is drawn as upper case.
unfoldable pub get_glyph : ℕ → List ℕ
unfolding glyph_or
get_glyph code =
    if leb 32 code && leb code 96
    then glyph_or first_glyphs (code - 32)
    else if leb 97 code && leb code 122
    then glyph_or first_glyphs (code - 32 - 32)
    else if leb 123 code && leb code 126
    then glyph_or last_glyphs (code - 123)
    else default_box
