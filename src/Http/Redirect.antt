-- ===== src/Http/Redirect.antt =====
-- The place of a redirection is one line, so that a request cannot add headers to its answer.
use llrdc_casting.Http.{
  https_redirect_location, words_from, is_whitespace, path_of, host_of, is_usable_host, is_control,
  authority_of, starts_with_byte, has_port, port_digits, first_line, find_host, lines_from, all,
  Option, [], false, length, ◌∷◌, not, some, ltb, true,
}
use llrdc_casting.Prelude.Ascii.{IsInLine}
use llrdc_casting.Prelude.Text.{codes}
use llrdc_casting.Prelude.{
  ℕ, List, All, ◌≡◌, if_holds, arith, suc, All-append, Bool-cases, ◌/◌, ◌==◌, inl, and-right, ◌%◌,
  inr, ◌++◌, none, subst, elim_cases, ◌+◌, zero, and-left,
}

-- Every word, a list of code points, is in one line.
abbrev Words : List (List ℕ) → Type 0
Words ws = All (λ w. All IsInLine w) ws

IsInLine-word : (c : ℕ) → is_whitespace c ≡ false → IsInLine c
unfolding is_whitespace
IsInLine-word c h = (
  λ e.
      let at_return : is_whitespace 13 ≡ false = subst (λ x. is_whitespace x ≡ false) e h in
      cc at_return,
  λ e.
      let at_feed : is_whitespace 10 ≡ false = subst (λ x. is_whitespace x ≡ false) e h in
      cc at_feed,
)

words_from-All : (word cs : List ℕ) → All IsInLine word → Words (words_from word cs)
unfolding words_from
words_from-All word [] h = if_holds Words (length word == 0) tt (h, tt)
words_from-All word (c ∷ cs) h =
    elim_cases Words (is_whitespace c)
      (λ space.
        if_holds Words (length word == 0) (words_from-All [] cs tt) (h, words_from-All [] cs tt))
      (λ letter.
        words_from-All (word ++ (c ∷ [])) cs
          (All-append IsInLine word (c ∷ []) h (IsInLine-word c letter, tt)))

path_of-All : (ws : List (List ℕ)) → Words ws → All IsInLine (path_of ws)
unfolding path_of
path_of-All [] h = (omega arith, tt)
path_of-All (m ∷ []) h = (omega arith, tt)
path_of-All (m ∷ p ∷ rest) h =
    if_holds (All IsInLine) (starts_with_byte b'/' p) {y = codes "/"} h.1.0 (omega arith, tt)

IsInLine-shown : (c : ℕ) → not (is_control c) ≡ true → IsInLine c
unfolding is_control
IsInLine-shown c h = (
  λ e.
      let at_return : not (is_control 13) ≡ true = subst (λ x. not (is_control x) ≡ true) e h in
      cc at_return,
  λ e.
      let at_feed : not (is_control 10) ≡ true = subst (λ x. not (is_control x) ≡ true) e h in
      cc at_feed,
)

usable-All : (host : List ℕ) → all (λ c. not (is_control c)) host ≡ true → All IsInLine host
usable-All [] h = tt
usable-All (c ∷ cs) h = (
  IsInLine-shown c (and-left (not (is_control c)) _ h),
  usable-All cs (and-right (not (is_control c)) _ h),
)

host_of-All : (o : Option (List ℕ)) → All IsInLine (host_of o)
unfolding host_of is_usable_host
host_of-All none = omega arith
host_of-All (some host) = elim (Bool-cases (is_usable_host host)) [
  | inl usable ↦ rw usable (usable-All host (and-right _ _ usable))
  | inr other ↦ rw other (omega arith)
]

port_digits-All : (fuel n : ℕ) → All IsInLine (port_digits fuel n)
unfolding port_digits
port_digits-All zero n = tt
port_digits-All (suc fuel) n =
    if_holds (All IsInLine) (ltb n 10) (digit n, tt)
      (All-append IsInLine (port_digits fuel (n / 10)) _ (port_digits-All fuel (n / 10))
        (digit (n % 10), tt))
  where
    digit : (d : ℕ) → IsInLine (48 + d)
    digit d = omega arith

authority_of-All :
    (port : ℕ) (host : List ℕ) → All IsInLine host → All IsInLine (authority_of port host)
unfolding authority_of
authority_of-All port host h = if_holds (All IsInLine) (has_port host) h (
    All-append IsInLine host (codes ":" ++ port_digits 5 port) h
      (omega arith, port_digits-All 5 port))

-- Whatever a plain request holds, the place that it is redirected to has no line break.
pub https_redirect_location-All :
    (request : List ℕ) (port : ℕ) → All IsInLine (https_redirect_location request port)
unfolding https_redirect_location
https_redirect_location-All request port =
    let path = path_of-All _ (words_from-All [] (first_line (lines_from [] request)) tt) in
    let host = host_of-All (find_host (lines_from [] request)) in
    let named = host_of (find_host (lines_from [] request)) in
    All-append IsInLine (codes "https://") _ (omega arith)
      (All-append IsInLine (authority_of port named) _ (authority_of-All port named host) path)
