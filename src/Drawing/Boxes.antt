-- ===== src/Drawing/Boxes.antt =====
-- What drawing leaves alone: the size of the buffer, and every pixel of a row beyond the box that is
-- drawn in. A write beyond the right edge does not come back on the left of the next row.
use llrdc_casting.Drawing.{
  put_pixel, fill_square, is_set, row_of, draw_glyph, fit_text, draw_slash, draw_char_argb,
  draw_string_argb, draw_fitted_string_argb, max, get_glyph,
}
use llrdc_casting.Drawing.Loops.{repeat_keeps}
use llrdc_casting.Prelude.{
  ℕ, suc, ◌+◌, ◌*◌, ◌/◌, ◌≤◌, ◌<◌, ltb, List, [], ◌∷◌, ◌&&◌, length, get_elem?, ◌≡◌, refl, arith,
  if_holds, if_cases, ltb→lt, and-left, length-set, ◌∙◌, ap, ◌-◌, ◌==◌,
}
use llrdc_casting.Drawing.Rooms.{
  mul_room, index_row, div_room, get_elem?-set_ne, Outside, Outside-within, fitted_room,
}

module _ (width height qx qy : ℕ) (inside : qx < width) where
  -- The buffer has the size, and at the pixel the colour, of another.
  pub record Same (before after : List ℕ) : Type 0 where
    pub size : length after ≡ length before
    pub pixel : get_elem? after (qy * width + qx) ≡ get_elem? before (qy * width + qx)

  Same-refl : (buf : List ℕ) → Same buf buf
  Same-refl buf = record { size = refl; pixel = refl }

  module _ (first : List ℕ) where
    put_pixel-Same :
        (x y color : ℕ) (buf : List ℕ)
        → ¬ ((x ≡ qx) × (y ≡ qy))
        → Same first buf
        → Same first (put_pixel width height x y color buf)
    unfolding put_pixel
    put_pixel-Same x y color buf apart h =
        if_cases (Same first) (ltb x width && ltb y height)
          (λ on_screen.
            if_holds (Same first) (ltb (y * width + x) (length buf))
              (record {
                size = length-set buf (y * width + x) color ∙ h.size;
                pixel =
                    get_elem?-set_ne buf (y * width + x) (qy * width + qx) color (λ e.
                      let row =
                        index_row width x y qx qy (ltb→lt _ _ (and-left _ _ on_screen)) inside e in
                      apart (column x y row e, row))
                    ∙ h.pixel;
              })
              h)
          (λ off. h)
      where
        column : (x y : ℕ) → y ≡ qy → y * width + x ≡ qy * width + qx → x ≡ qx
        column x y row e = omega (arith, ap (λ (t : ℕ). t * width) row)

    fill_square-Same :
        (px py color side : ℕ) (buf : List ℕ)
        → Outside qx qy px py side side
        → Same first buf
        → Same first (fill_square width height px py color side buf)
    unfolding fill_square
    fill_square-Same px py color side buf o h =
        repeat_keeps (Same first) side _ buf
          (λ sy t row k.
            repeat_keeps (Same first) side _ t
              (λ sx u col l.
                put_pixel-Same (px + sx) (py + sy) color u (λ e. missed sx sy col row e) l)
              k)
          h
      where
        missed : (sx sy : ℕ) → sx < side → sy < side → (px + sx ≡ qx) × (py + sy ≡ qy) → ⊥
        missed sx sy col row e = ground arith

    draw_glyph-Same :
        (start_x start_y : ℕ) (glyph : List ℕ) (color scale : ℕ) (buf : List ℕ)
        → Outside qx qy start_x start_y (8 * scale) (8 * scale)
        → Same first buf
        → Same first (draw_glyph width height start_x start_y glyph color scale buf)
    unfolding draw_glyph
    draw_glyph-Same start_x start_y glyph color scale buf o h =
        repeat_keeps (Same first) 8 _ buf
          (λ row t r k.
            repeat_keeps (Same first) 8 _ t
              (λ col u c l.
                if_holds (Same first) (is_set (row_of glyph row) col)
                  (fill_square-Same (start_x + col * scale) (start_y + row * scale) color scale u
                    (cell row col r c) l)
                  l)
              k)
          h
      where
        cell :
            (row col : ℕ)
            → row < 8
            → col < 8
            → Outside qx qy (start_x + col * scale) (start_y + row * scale) scale scale
        cell row col r c =
            Outside-within qx qy start_x start_y (8 * scale) (8 * scale) (start_x + col * scale)
              (start_y + row * scale) scale scale (omega arith)
              (omega (arith, mul_room col 8 scale c)) (omega arith)
              (omega (arith, mul_room row 8 scale r)) o

    draw_slash-Same :
        (start_x start_y color scale : ℕ) (buf : List ℕ)
        → 0 < scale
        → Outside qx qy start_x start_y (8 * scale) (8 * scale)
        → Same first buf
        → Same first (draw_slash width height start_x start_y color scale buf)
    unfolding draw_slash
    draw_slash-Same start_x start_y color scale buf pos o h =
        repeat_keeps (Same first) (steps + 1) _ buf
          (λ step t s k. fill_square-Same _ _ color (max scale 1) t (place step s) k) h
      where
        run : ℕ
        run = start_x + 6 * scale - (start_x + 2 * scale)

        rise : ℕ
        rise = start_y + 5 * scale - (start_y + scale)

        steps : ℕ
        steps = max run rise

        place :
            (step : ℕ)
            → step < steps + 1
            → Outside qx qy
                (start_x + 2 * scale + run * step / max steps 1 - max scale 1 / 2)
                (start_y + 5 * scale - rise * step / max steps 1 - max scale 1 / 2)
                (max scale 1)
                (max scale 1)
        place step s =
            let across : run * step / max steps 1 ≤ run =
              div_room run step (max steps 1) (omega arith) (omega arith) in
            let up : rise * step / max steps 1 ≤ rise =
              div_room rise step (max steps 1) (omega arith) (omega arith) in
            Outside-within qx qy start_x start_y (8 * scale) (8 * scale) _ _ _ _ (omega arith)
              (omega arith) (omega arith) (omega arith) o

    draw_char_argb-Same :
        (start_x start_y ch color scale : ℕ) (buf : List ℕ)
        → 0 < scale
        → Outside qx qy start_x start_y (8 * scale) (8 * scale)
        → Same first buf
        → Same first (draw_char_argb width height start_x start_y ch color scale buf)
    unfolding draw_char_argb
    draw_char_argb-Same start_x start_y ch color scale buf pos o h =
        let drawn = draw_glyph-Same start_x start_y (get_glyph ch) color scale buf o h in
        if_holds (Same first) (ch == b'0')
          (draw_slash-Same start_x start_y color scale _ pos o drawn) drawn

    draw_string_argb-Same :
        (x y : ℕ) (text : List ℕ) (color scale : ℕ) (buf : List ℕ)
        → 0 < scale
        → Outside qx qy x y (length text * (8 * scale)) (8 * scale)
        → Same first buf
        → Same first (draw_string_argb width height x y text color scale buf)
    unfolding draw_string_argb
    draw_string_argb-Same x y [] color scale buf pos o h = h
    draw_string_argb-Same x y (ch ∷ text) color scale buf pos o h =
        let room = mul_room 0 (suc (length text)) (8 * scale) (omega arith) in
        let step : suc (length text) * (8 * scale) ≡ length text * (8 * scale) + 8 * scale =
          grind arith in
        draw_string_argb-Same (x + 8 * scale) y text color scale _ pos
          (Outside-within qx qy x y (suc (length text) * (8 * scale)) (8 * scale) (x + 8 * scale) y
            (length text * (8 * scale)) (8 * scale) (omega arith) (omega (arith, step))
            (omega arith) (omega arith) o)
          (draw_char_argb-Same x y ch color scale buf pos
            (Outside-within qx qy x y (suc (length text) * (8 * scale)) (8 * scale) x y (8 * scale)
              (8 * scale) (omega arith) (omega (arith, step)) (omega arith) (omega arith) o)
            h)

  -- A text that is cut to a width and drawn at a scale above zero leaves alone every pixel, of a column
  -- of the screen, outside its box, which is as wide as the width and as high as a character; also
  -- where the box reaches beyond the screen. The buffer keeps its size.
  pub draw_fitted_string_argb-Same :
      (x y : ℕ) (text : List ℕ) (color scale max_width : ℕ) (buf : List ℕ)
      → 0 < scale
      → Outside qx qy x y max_width (8 * scale)
      → Same buf (draw_fitted_string_argb width height x y text color scale max_width buf)
  unfolding draw_fitted_string_argb
  draw_fitted_string_argb-Same x y text color scale max_width buf pos o =
      let fits : length (fit_text text (max_width / max (8 * scale) 1)) * (8 * scale) ≤ max_width =
        fitted_room text scale max_width pos in
      draw_string_argb-Same buf x y (fit_text text (max_width / max (8 * scale) 1)) color scale buf
        pos
        (Outside-within qx qy x y max_width (8 * scale) x y _ (8 * scale) (omega arith)
          (omega (arith, fits)) (omega arith) (omega arith) o)
        (Same-refl buf)
