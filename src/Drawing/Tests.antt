-- ===== src/Drawing/Tests.antt =====
-- Runs of the drawing on a small screen.
use llrdc_casting.Drawing.Loops.{repeat_from}
use llrdc_casting.Drawing.{fit_text, draw_fitted_string_argb, draw_char_argb, repeat}
use llrdc_casting.Drawing.Boxes.{Same, draw_fitted_string_argb-Same}
use llrdc_casting.Drawing.Font.{get_glyph}
use llrdc_casting.Drawing.Loops.{repeat, repeat_from}
use llrdc_casting.Prelude.Text.{codes}
use llrdc_casting.Prelude.{ℕ, List, ◌≡◌, refl, inl, arith, replicate, get_elem?, some}

abbrev screen : List ℕ
screen = replicate 600 7

-- The left neighbour of the box, on a screen that the box leaves on the right.
draw_fitted_string_argb-Same_example :
    Same 30 20 9 4
      (omega arith)
      screen
      (draw_fitted_string_argb 30 20 10 2 (codes "A0") 5 2 64 screen)
draw_fitted_string_argb-Same_example =
    draw_fitted_string_argb-Same 30 20 9 4 (omega arith) 10 2 (codes "A0") 5 2 64 screen
      (omega arith) (inl (omega arith))

cuts_a_long_text : fit_text (codes "LLrdc Casting") 8 ≡ codes "LLrdc..."
unfolding fit_text
cuts_a_long_text = refl

draws_lower_as_upper : get_glyph b'q' ≡ get_glyph b'Q'
unfolding get_glyph
draws_lower_as_upper = refl

-- The bit at the top of an A.
draws_the_top_of_an_a : get_elem? (draw_char_argb 8 8 0 0 b'A' 5 1 (replicate 64 7)) 3 ≡ some 5
unfolding draw_char_argb repeat repeat_from
draws_the_top_of_an_a = refl
