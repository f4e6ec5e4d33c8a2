-- ===== src/Admin/Socket/Codes.antt =====
-- The pairing code that the manager gives is the one that its command line prints.
use llrdc_casting.Admin.Socket.{
  run_client, length, serve_line, asked, starts_with, text_of, read_response, read_answer, all,
  codes, ok, not, err,
}
use llrdc_casting.Http.{trim, trim_start, is_whitespace}
use llrdc_casting.Prelude.Ascii.{is_ascii_alphanumeric}
use llrdc_casting.Prelude.{
  ℕ, [], ◌∷◌, true, false, ◌≡◌, refl, arith, List, ◌<◌, some, if_false, and-right, ◌∙◌, ap,
  and-left, ◌==◌, ◌||◌,
}

abbrev Letter : ℕ → Type 0
Letter c = is_ascii_alphanumeric c ≡ true

not_blank : (c : ℕ) → Letter c → is_whitespace c ≡ false
unfolding is_whitespace
not_blank c h = ground arith

-- The end of the line is trimmed off a code.
trim-line :
    (a b c d : ℕ) → Letter a → Letter d → trim (a ∷ b ∷ c ∷ d ∷ 10 ∷ []) ≡ (a ∷ b ∷ c ∷ d ∷ [])
unfolding trim trim_start
trim-line a b c d ha hd = rw (not_blank a ha) (unfold is_whitespace in rw (not_blank d hd) refl)

starts_with-short : (p s : List ℕ) → length s < length p → starts_with p s ≡ false
starts_with-short [] s h = absurd (omega arith)
starts_with-short (a ∷ p) [] h = refl
starts_with-short (a ∷ p) (c ∷ s) h = ground (arith, starts_with-short p s)

read_answer-code :
    (code : List ℕ)
    → length code ≡ 4
    → all is_ascii_alphanumeric code ≡ true
    → read_answer code ≡ ok code
unfolding read_answer
read_answer-code code size letters =
    if_false _ _ (starts_with-short (codes "ERROR ") code (omega (arith, size)))
    ∙ if_false {b = not (length code == 4) || not (all is_ascii_alphanumeric code)}
        (err (codes "manager returned invalid pairing code")) (ok code) (rw (size, letters) refl)

-- A code of four letters or digits that the manager has is printed by its command line, as it is.
pub run_client-serve_line :
    (a b c d : ℕ)
    → all is_ascii_alphanumeric (a ∷ b ∷ c ∷ d ∷ []) ≡ true
    → run_client
        (some (codes "pairing-code"))
        false
        (λ line. serve_line line (ok (a ∷ b ∷ c ∷ d ∷ [])))
      ≡ ok (a ∷ b ∷ c ∷ d ∷ [])
unfolding run_client serve_line asked text_of read_response read_answer
run_client-serve_line a b c d letters =
    let after_a = and-right (is_ascii_alphanumeric a) _ letters in
    let after_b = and-right (is_ascii_alphanumeric b) _ after_a in
    let after_c = and-right (is_ascii_alphanumeric c) _ after_b in
    ap read_answer
      (trim-line a b c d (and-left _ _ letters) (and-left (is_ascii_alphanumeric d) _ after_c))
    ∙ read_answer-code (a ∷ b ∷ c ∷ d ∷ []) refl letters
