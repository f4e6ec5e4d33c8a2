-- ===== src/Supervisor/Ring.antt =====
-- The ring of the receiver's output.
use llrdc_casting.Supervisor.{push_bytes, output_line, Inner, ring_bytes}
use llrdc_casting.Prelude.{ℕ, List, length, ◌≤◌, ◌∷◌, ◌++◌, keep_last, [], length-keep_last, arith}

push_bytes-le :
    (bytes ring : List ℕ) → length ring ≤ ring_bytes → length (push_bytes bytes ring) ≤ ring_bytes
unfolding push_bytes
push_bytes-le [] ring h = h
push_bytes-le (b ∷ bytes) ring h =
    push_bytes-le bytes (keep_last ring_bytes (ring ++ (b ∷ [])))
      (rw (length-keep_last ring_bytes (ring ++ (b ∷ []))) (omega arith))

pub length-output_line :
    (line : List ℕ) (inner : Inner)
    → length inner.ring ≤ ring_bytes
    → length (output_line line inner).ring ≤ ring_bytes
unfolding output_line
length-output_line line inner h = push_bytes-le (line ++ (10 ∷ [])) inner.ring h
