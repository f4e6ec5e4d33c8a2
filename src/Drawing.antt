-- ===== src/Drawing.antt =====
-- Drawing on a frame buffer (src/text.rs): characters, texts, texts cut to a width, and the icon of
-- the cloud. A buffer is a list of pixels, row by row. Sizes stay below the range of `usize`.
pub mod Font
pub mod Loops
pub mod Rooms
pub mod Boxes
mod Tests
use llrdc_casting.Drawing.Font.{get_glyph}
use llrdc_casting.Drawing.Loops.{repeat}
use llrdc_casting.Prelude.Text.{codes, str_eq}
use llrdc_casting.Prelude.{
  ℕ, suc, zero, ◌+◌, ◌*◌, ◌-◌, ◌/◌, ◌%◌, ◌^◌, ◌==◌, ltb, max, List, [], ◌∷◌, ◌++◌, Bool, ◌&&◌,
  if◌then◌else◌, length, set, take, drop, String,
}

is_set : ℕ → ℕ → Bool
is_set line col = line / 2 ^ (7 - col) % 2 == 1

row_of : List ℕ → ℕ → ℕ
row_of [] row = 0
row_of (line ∷ lines) zero = line
row_of (line ∷ lines) (suc row) = row_of lines row

module _ (width height : ℕ) where
  put_pixel : ℕ → ℕ → ℕ → List ℕ → List ℕ
  put_pixel x y color buf =
      if ltb x width && ltb y height
      then (if ltb (y * width + x) (length buf) then set buf (y * width + x) color else buf)
      else buf

  -- A square of pixels, row by row.
  fill_square : ℕ → ℕ → ℕ → ℕ → List ℕ → List ℕ
  unfolding put_pixel
  fill_square px py color side =
      repeat side (λ sy. repeat side (λ sx. put_pixel (px + sx) (py + sy) color))

  draw_glyph : ℕ → ℕ → List ℕ → ℕ → ℕ → List ℕ → List ℕ
  unfolding fill_square is_set row_of
  draw_glyph start_x start_y glyph color scale = repeat 8 (λ row. repeat 8 (λ col buf.
      if is_set (row_of glyph row) col
      then fill_square (start_x + col * scale) (start_y + row * scale) color scale buf
      else buf))

  -- The diagonal of a zero. Its coordinates are never negative, and the division of the falling one
  -- rounds towards zero.
  draw_slash : ℕ → ℕ → ℕ → ℕ → List ℕ → List ℕ
  unfolding fill_square
  draw_slash start_x start_y color scale =
      let stroke = max scale 1 in
      let x0 = start_x + 2 * scale in
      let y0 = start_y + 5 * scale in
      let x1 = start_x + 6 * scale in
      let y1 = start_y + scale in
      let steps = max (x1 - x0) (y0 - y1) in
      repeat (steps + 1) (λ step.
        let center_x = x0 + (x1 - x0) * step / max steps 1 in
        let center_y = y0 - (y0 - y1) * step / max steps 1 in
        fill_square (center_x - stroke / 2) (center_y - stroke / 2) color stroke)

  draw_char_argb : ℕ → ℕ → ℕ → ℕ → ℕ → List ℕ → List ℕ
  unfolding draw_glyph draw_slash get_glyph
  draw_char_argb start_x start_y ch color scale buf =
      let drawn = draw_glyph start_x start_y (get_glyph ch) color scale buf in
      if ch == b'0' then draw_slash start_x start_y color scale drawn else drawn

  draw_string_argb : ℕ → ℕ → List ℕ → ℕ → ℕ → List ℕ → List ℕ
  unfolding draw_char_argb
  draw_string_argb curr_x y [] color scale buf = buf
  draw_string_argb curr_x y (ch ∷ text) color scale buf =
      draw_string_argb (curr_x + 8 * scale) y text color scale
        (draw_char_argb curr_x y ch color scale buf)

unfoldable pub fit_text : List ℕ → ℕ → List ℕ
fit_text text max_chars =
    let value = take max_chars text in
    if ltb max_chars (length text) && ltb 3 max_chars
    then take (max_chars - 3) value ++ codes "..."
    else value

unfoldable pub draw_fitted_string_argb : ℕ → ℕ → ℕ → ℕ → List ℕ → ℕ → ℕ → ℕ → List ℕ → List ℕ
unfolding draw_string_argb fit_text
draw_fitted_string_argb width height x y text color scale max_width =
    let max_chars = max_width / max (8 * scale) 1 in
    draw_string_argb width height x y (fit_text text max_chars) color scale

status_color : String → ℕ
status_color status =
    if str_eq status "READY"
    then 0xFF00FF88
    else if str_eq status "DISABLED"
    then 0xFF94A3B8
    else if str_eq status "WAITING"
    then 0xFFFFCC00
    else 0xFFF87171

abbrev cloud : List (List ℕ)
cloud =
    codes "00000011000000000000"
    ∷ codes "00001111100001100000"
    ∷ codes "00011100110011110000"
    ∷ codes "00110000011100111000"
    ∷ codes "01100000000000111000"
    ∷ codes "11000000000000001100"
    ∷ codes "11000000000000001110"
    ∷ codes "01000000000000001100"
    ∷ codes "00111111111111111000"
    ∷ codes "00011111111111110000"
    ∷ []

draw_cloud_row : ℕ → ℕ → ℕ → ℕ → ℕ → ℕ → List ℕ → List ℕ → List ℕ
unfolding fill_square
draw_cloud_row width height px py color scale [] buf = buf
draw_cloud_row width height px py color scale (cell ∷ cells) buf =
    draw_cloud_row width height (px + scale) py color scale cells
      (if cell == b'1' then fill_square width height px py color scale buf else buf)

draw_cloud_rows : ℕ → ℕ → ℕ → ℕ → ℕ → ℕ → List (List ℕ) → List ℕ → List ℕ
unfolding draw_cloud_row
draw_cloud_rows width height x py color scale [] buf = buf
draw_cloud_rows width height x py color scale (row ∷ rows) buf =
    draw_cloud_rows width height x (py + scale) color scale rows
      (draw_cloud_row width height x py color scale row buf)

draw_cloud_icon_argb : ℕ → ℕ → ℕ → ℕ → ℕ → ℕ → List ℕ → List ℕ
unfolding draw_cloud_rows
draw_cloud_icon_argb width height x y color scale =
    draw_cloud_rows width height x y color scale cloud
