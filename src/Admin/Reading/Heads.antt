-- ===== src/Admin/Reading/Heads.antt =====
-- What the two loops of the portal's reading have read is a piece of the stream.
use llrdc_casting.Admin.{max_request_bytes}
use llrdc_casting.Admin.Reading.{
  Head, found, too_large, closed, separator, header_end, read_head, read_content, suc,
}
use mathlib.Core.Option
use mathlib.Core.List.{append-nil}
use llrdc_casting.Prelude.Slices.{starts_with, starts_with-split}
use llrdc_casting.Prelude.{
  ℕ, ◌≡◌, refl, sym, ◌∙◌, ap, List, [], ◌∷◌, ◌++◌, drop, length, Option, none, some, if◌then◌else◌,
  ltb, leb, Bool-cases, inl, inr, append_assoc, ◌==◌, if_holds, subst,
}

abbrev pub concat_all : List (List ℕ) → List ℕ
concat_all [] = []
concat_all (chunk ∷ chunks) = chunk ++ concat_all chunks

-- A text with an empty line is what stands before it, the line, and the rest.
header_end-split :
    (text : List ℕ) {i : ℕ}
    → header_end text ≡ some i
    → (before after : List ℕ) × (text ≡ (before ++ (separator ++ after))) × (length before ≡ i)
unfolding header_end
header_end-split [] e = cc
header_end-split (c ∷ cs) {i} e = elim (Bool-cases (starts_with separator (c ∷ cs))) [
  | inl here ↦
      let first : 0 ≡ i = cc (rw here at e) in
      ([], drop 4 (c ∷ cs), starts_with-split separator (c ∷ cs) here, first)
  | inr later ↦ go (header_end cs) (λ j f. header_end-split cs {i = j} f) (rw later at e)
]
  where
    go :
        (o : Option ℕ)
        → ((j : ℕ)
            → o ≡ some j
            → (before after : List ℕ) × (cs ≡ (before ++ (separator ++ after)))
              × (length before ≡ j))
        → Option.map suc o ≡ some i
        → (before after : List ℕ) × ((c ∷ cs) ≡ (before ++ (separator ++ after)))
          × (length before ≡ i)
    go none f h = cc
    go (some j) f h =
        let (before, after, split, size) = f j refl in
        (c ∷ before, after, ap (c ∷◌) split, ap suc size ∙ cc h)

-- A head that was found is one of what was read, and nothing of the stream is lost.
unfoldable pub HeadOf : List ℕ → Head → Type 0
HeadOf stream too_large = Unit
HeadOf stream closed = Unit
HeadOf stream (found i request rest) =
    (before after : List ℕ) × (request ≡ (before ++ (separator ++ after)))
    × (length before ≡ i)
    × ((request ++ concat_all rest) ≡ stream)

found-HeadOf :
    (request : List ℕ) (rest : List (List ℕ)) (i : ℕ)
    → header_end request ≡ some i
    → HeadOf (request ++ concat_all rest) (found i request rest)
unfolding HeadOf
found-HeadOf request rest i e =
    let (before, after, split, size) = header_end-split request e in
    (before, after, split, size, refl)

pub read_head-HeadOf :
    (request : List ℕ) (chunks : List (List ℕ))
    → HeadOf (request ++ concat_all chunks) (read_head request chunks)
unfolding read_head
read_head-HeadOf request [] = go (header_end request) refl
  where
    go :
        (o : Option ℕ)
        → header_end request ≡ o
        → HeadOf (request ++ []) (elim o [
          | some i ↦ found i request []
          | none ↦ if leb max_request_bytes (length request) then too_large else closed
        ])
    go (some i) e = found-HeadOf request [] i e
    go none e =
        if_holds (HeadOf (request ++ [])) (leb max_request_bytes (length request))
          (unfold HeadOf in tt) (unfold HeadOf in tt)
read_head-HeadOf request (chunk ∷ chunks) = go (header_end request) refl (
    subst (λ s. HeadOf s (read_head (request ++ chunk) chunks))
      (append_assoc request chunk (concat_all chunks)) (read_head-HeadOf (request ++ chunk) chunks))
  where
    go :
        (o : Option ℕ)
        → header_end request ≡ o
        → HeadOf (request ++ (chunk ++ concat_all chunks)) (read_head (request ++ chunk) chunks)
        → HeadOf (request ++ (chunk ++ concat_all chunks)) (elim o [
          | some i ↦ found i request (chunk ∷ chunks)
          | none ↦
              if leb max_request_bytes (length request)
              then too_large
              else if length chunk == 0
              then closed
              else read_head (request ++ chunk) chunks
        ])
    go (some i) e h = found-HeadOf request (chunk ∷ chunks) i e
    go none e h =
        if_holds (HeadOf (request ++ (chunk ++ concat_all chunks)))
          (leb max_request_bytes (length request)) (unfold HeadOf in tt)
          (if_holds (HeadOf (request ++ (chunk ++ concat_all chunks))) (length chunk == 0)
            (unfold HeadOf in tt) h)

-- What the second loop has read goes on from the first, and is a piece of the stream.
unfoldable pub Extends : List ℕ → List ℕ → List ℕ → Type 0
Extends request stream full =
    (more rest : List ℕ) × (full ≡ (request ++ more)) × ((full ++ rest) ≡ stream)

Extends-self : (request rest : List ℕ) → Extends request (request ++ rest) request
unfolding Extends
Extends-self request rest = ([], rest, sym (append-nil request), refl)

pub read_content-Extends :
    (total : ℕ) (request : List ℕ) (chunks : List (List ℕ))
    → Extends request (request ++ concat_all chunks) (read_content total request chunks)
unfolding read_content
read_content-Extends total request [] = Extends-self request []
read_content-Extends total request (chunk ∷ chunks) =
    let P = Extends request (request ++ (chunk ++ concat_all chunks)) in
    if_holds P (ltb (length request) total)
      (if_holds P (length chunk == 0) (Extends-self request _) (
        longer (read_content total (request ++ chunk) chunks)
          (read_content-Extends total (request ++ chunk) chunks)))
      (Extends-self request _)
  where
    longer :
        (full : List ℕ)
        → Extends (request ++ chunk) ((request ++ chunk) ++ concat_all chunks) full
        → Extends request (request ++ (chunk ++ concat_all chunks)) full
    longer full h =
        unfold Extends in
        (
          chunk ++ h.0,
          h.1,
          h.2 ∙ append_assoc request chunk h.0,
          h.3 ∙ append_assoc request chunk (concat_all chunks),
        )
