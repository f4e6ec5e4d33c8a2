-- ===== src/Prelude/Ascii.antt =====
-- ASCII classes and case of bytes, as in `u8` and `str` of the standard library.
use llrdc_casting.Prelude.Bytes.{bytes_eq}
use llrdc_casting.Prelude.{
  ℕ, List, Bool, if◌then◌else◌, ◌∷◌, ◌≡◌, length, all, leb, ◌||◌, ◌-◌, arith, ap₂, ap, true, [],
  ◌&&◌, suc, and-left, ==_refl, ==_iff, refl, and-right, ◌==◌, ◌+◌, ◌≢◌,
}

abbrev pub is_ascii_digit : ℕ → Bool
is_ascii_digit c = leb b'0' c && leb c b'9'

abbrev pub is_ascii_uppercase : ℕ → Bool
is_ascii_uppercase c = leb b'A' c && leb c b'Z'

abbrev pub is_ascii_lowercase : ℕ → Bool
is_ascii_lowercase c = leb b'a' c && leb c b'z'

abbrev pub is_ascii_alphanumeric : ℕ → Bool
is_ascii_alphanumeric c = is_ascii_digit c || is_ascii_uppercase c || is_ascii_lowercase c

abbrev pub to_ascii_upper : ℕ → ℕ
to_ascii_upper c = if is_ascii_lowercase c then c - 32 else c

abbrev pub to_ascii_uppercase : List ℕ → List ℕ
to_ascii_uppercase [] = []
to_ascii_uppercase (c ∷ cs) = to_ascii_upper c ∷ to_ascii_uppercase cs

abbrev pub to_ascii_lower : ℕ → ℕ
to_ascii_lower c = if is_ascii_uppercase c then c + 32 else c

abbrev pub to_ascii_lowercase : List ℕ → List ℕ
to_ascii_lowercase [] = []
to_ascii_lowercase (c ∷ cs) = to_ascii_lower c ∷ to_ascii_lowercase cs

-- `eq_ignore_ascii_case`: equal when both are written in upper case (as in lower case).
abbrev pub eq_ignore_ascii_case : List ℕ → List ℕ → Bool
eq_ignore_ascii_case a b = bytes_eq (to_ascii_uppercase a) (to_ascii_uppercase b)

pub to_ascii_upper_idem : (c : ℕ) → to_ascii_upper (to_ascii_upper c) ≡ to_ascii_upper c
to_ascii_upper_idem c = ground arith

pub to_ascii_uppercase_idem :
    (cs : List ℕ) → to_ascii_uppercase (to_ascii_uppercase cs) ≡ to_ascii_uppercase cs
to_ascii_uppercase_idem [] = refl
to_ascii_uppercase_idem (c ∷ cs) = ap₂ ◌∷◌ (to_ascii_upper_idem c) (to_ascii_uppercase_idem cs)

pub length-to_ascii_uppercase : (cs : List ℕ) → length (to_ascii_uppercase cs) ≡ length cs
length-to_ascii_uppercase [] = refl
length-to_ascii_uppercase (c ∷ cs) = ap suc (length-to_ascii_uppercase cs)

pub upper-alphanumeric :
    (c : ℕ) → is_ascii_alphanumeric c ≡ true → is_ascii_alphanumeric (to_ascii_upper c) ≡ true
upper-alphanumeric c h = ground arith

pub all-upper-alphanumeric :
    (cs : List ℕ)
    → all is_ascii_alphanumeric cs ≡ true
    → all is_ascii_alphanumeric (to_ascii_uppercase cs) ≡ true
all-upper-alphanumeric [] h = refl
all-upper-alphanumeric (c ∷ cs) h = rw (
  upper-alphanumeric c (and-left _ (all is_ascii_alphanumeric cs) h),
  all-upper-alphanumeric cs (and-right (is_ascii_alphanumeric c) _ h),
)

pub bytes_eq_refl : (cs : List ℕ) → bytes_eq cs cs ≡ true
bytes_eq_refl [] = refl
bytes_eq_refl (c ∷ cs) = rw (==_refl c, bytes_eq_refl cs)

pub bytes_eq-eq : (a b : List ℕ) → bytes_eq a b ≡ true → a ≡ b
bytes_eq-eq [] [] h = refl
bytes_eq-eq [] (y ∷ b) h = cc
bytes_eq-eq (x ∷ a) [] h = cc
bytes_eq-eq (x ∷ a) (y ∷ b) h =
    ap₂ ◌∷◌ ((==_iff x y).0 (and-left (x == y) (bytes_eq a b) h))
      (bytes_eq-eq a b (and-right (x == y) (bytes_eq a b) h))

pub alphanumeric-upper :
    (c : ℕ) → is_ascii_alphanumeric (to_ascii_upper c) ≡ true → is_ascii_alphanumeric c ≡ true
alphanumeric-upper c h = ground arith

pub all-alphanumeric-upper :
    (cs : List ℕ)
    → all is_ascii_alphanumeric (to_ascii_uppercase cs) ≡ true
    → all is_ascii_alphanumeric cs ≡ true
all-alphanumeric-upper [] h = refl
all-alphanumeric-upper (c ∷ cs) h =
    let rest = all is_ascii_alphanumeric (to_ascii_uppercase cs) in
    rw (alphanumeric-upper c (and-left _ rest h), all-alphanumeric-upper cs (and-right _ rest h))

-- No carriage return and no line feed.
abbrev pub IsInLine : ℕ → Type 0
IsInLine c = (c ≢ 13) × (c ≢ 10)
