-- ===== src/Management/Reports.antt =====
-- Reports of latency by a sender: who may make them, and about which frames.
use llrdc_casting.Management.Sessions.{push_back, sender_id}
use llrdc_casting.Management.Types.{
  LatencyMetricSample, EstimatedLatencySnapshot, Inner, ActiveStream,
}
use llrdc_casting.Prelude.Text.{eq_refl, str_eq, eq_iff}
use llrdc_casting.Management.Metrics.{
  metric_of, report_to, record_estimated_latency, is_accepted, keep_estimate, is_plausible,
  newer_than, same_as,
}
use llrdc_casting.Prelude.Float.{FloatOps}
use llrdc_casting.Prelude.{
  ℕ, Option, List, String, is_some_and, ◌<◌, leb, ◌≡◌, some, true, Bool, false, arith, ap, ◌≤◌, ◌⊎◌,
  Bool-cases, leb→le, inl, ltb, inr, none, ltb→lt, refl, ◌&&◌, ◌||◌, ◌-◌, if◌then◌else◌, le→leb,
}

sender_id-owned :
    (o : Option String) (id : String) → is_some_and o (λ s. str_eq s id) ≡ true → o ≡ some id
sender_id-owned none id h = cc h
sender_id-owned (some s) id h = ap some ((eq_iff s id).0 h)

submitted-le :
    (o : Option ℕ) (seq : ℕ)
    → is_some_and o (λ l. leb seq l) ≡ true
    → (l : ℕ) × (o ≡ some l) × (seq ≤ l)
submitted-le none seq h = cc h
submitted-le (some l) seq h = (l, refl, leb→le seq l h)

module _ (ops : FloatOps) (now : ℕ) where
  -- The entry that a report leaves among the samples of latency of a stream.
  abbrev pub measured : ActiveStream → EstimatedLatencySnapshot → LatencyMetricSample
  measured stream sample = record {
    elapsed_sec = ops.secs (now - stream.started_at);
    total_ms = sample.total_ms;
    encode_ms = sample.encode_ms;
    sender_queue_ms = sample.sender_queue_ms;
    delivery_ms = sample.delivery_ms;
    receiver_queue_ms = sample.receiver_queue_ms;
    decode_display_ms = sample.decode_display_ms;
  }

  -- The samples of latency of a stream before and after a report that it accepts: the report is
  -- of a newer frame than the estimate on record and is the last of at most 300 samples, or it is
  -- about the same frame and the samples stay.
  abbrev pub Kept :
      ActiveStream
      → EstimatedLatencySnapshot
      → Option (ℕ × EstimatedLatencySnapshot)
      → List LatencyMetricSample
      → List LatencyMetricSample
      → Type 0
  Kept stream sample none old new = new ≡ push_back 300 (measured stream sample) old
  Kept stream sample (some (t, previous)) old new =
      ((previous.seq < sample.seq) × (new ≡ push_back 300 (measured stream sample) old))
      ⊎ ((previous.seq ≡ sample.seq) × (new ≡ old))

  -- An accepted report: the active stream is the connection's own, the frame is one that has been
  -- received, the sample is the estimate of the stream from now on, and the samples are kept as
  -- above. Every other field of the stream and of the state is as it was.
  pub record Accepted (id : String) (sample : EstimatedLatencySnapshot) (inner : Inner)
      (result : Bool × Inner) : Type 0 where
    stream : ActiveStream
    active : inner.stream ≡ some stream
    owned : sender_id stream.sender ≡ some id
    received : (l : ℕ) × (stream.last_seq ≡ some l) × (sample.seq ≤ l)
    samples : List LatencyMetricSample
    kept : Kept stream sample stream.estimated_latency stream.estimated_latency_samples samples
    stored : result ≡ (
      true,
      record inner {
        stream = some (record stream {
          estimated_latency = some (now, sample);
          estimated_latency_samples = samples;
        });
      },
    )

  -- What makes a report acceptable: it is plausible, the active stream is the connection's own, and
  -- the frame has been received and is not older than the one that the estimate on record is about.
  abbrev pub NotOlder : ℕ → Option (ℕ × EstimatedLatencySnapshot) → Type 0
  NotOlder seq none = Unit
  NotOlder seq (some (t, previous)) = previous.seq ≤ seq

  pub record Acceptable (id : String) (sample : EstimatedLatencySnapshot) (inner : Inner)
      : Type 0 where
    plausible : is_plausible ops now sample ≡ true
    stream : ActiveStream
    active : inner.stream ≡ some stream
    owned : sender_id stream.sender ≡ some id
    received : (l : ℕ) × (stream.last_seq ≡ some l) × (sample.seq ≤ l)
    not_older : NotOlder sample.seq stream.estimated_latency

  newer_or_same_true :
      (seq : ℕ) (o : Option (ℕ × EstimatedLatencySnapshot))
      → NotOlder seq o
      → (newer_than seq o || same_as seq o) ≡ true
  newer_or_same_true seq none h = refl
  newer_or_same_true seq (some (t, previous)) h = ground (arith, h)

  is_accepted-true :
      (id : String) (seq l : ℕ) (stream : ActiveStream)
      → sender_id stream.sender ≡ some id
      → stream.last_seq ≡ some l
      → seq ≤ l
      → NotOlder seq stream.estimated_latency
      → is_accepted ops now id seq stream ≡ true
  unfolding is_accepted
  is_accepted-true id seq l stream owned has submitted not_older =
      rw (owned, has)
        (rw
          (
            eq_refl id,
            newer_or_same_true seq stream.estimated_latency not_older,
            le→leb seq l submitted,
          )
          refl)

  not-Acceptable :
      (id : String) (sample : EstimatedLatencySnapshot) (inner : Inner) (stream : ActiveStream)
      → inner.stream ≡ some stream
      → is_accepted ops now id sample.seq stream ≡ false
      → ¬ Acceptable id sample inner
  not-Acceptable id sample inner stream e refused a =
      let (l, has, submitted) = a.received in
      let same : a.stream ≡ stream = cc (a.active, e) in
      let taken = is_accepted-true id sample.seq l a.stream a.owned has submitted a.not_older in
      cc (same, refused, taken)

  samples-Kept :
      (stream : ActiveStream) (sample : EstimatedLatencySnapshot)
      (o : Option (ℕ × EstimatedLatencySnapshot)) (old : List LatencyMetricSample)
      → (newer_than sample.seq o || same_as sample.seq o) ≡ true
      → Kept stream sample o old
          (if newer_than sample.seq o then push_back 300 (measured stream sample) old else old)
  samples-Kept stream sample none old h = refl
  samples-Kept stream sample (some (t, previous)) old h =
      elim (Bool-cases (ltb previous.seq sample.seq)) [
        | inl newer ↦ rw newer (inl (ltb→lt _ _ newer, refl))
        | inr not_newer ↦
            let same : previous.seq ≡ sample.seq = ground (arith, h, not_newer) in
            rw not_newer (inr (same, refl))
      ]

  report_to-branches :
      (id : String) (sample : EstimatedLatencySnapshot) (o : Option ActiveStream) (inner : Inner)
      → inner.stream ≡ o
      → ((report_to ops now id sample o inner ≡ (false, inner)) × ¬ Acceptable id sample inner)
        ⊎ Accepted id sample inner (report_to ops now id sample o inner)
  unfolding report_to is_accepted keep_estimate metric_of
  report_to-branches id sample none inner e = inl (refl, λ a. cc (a.active, e))
  report_to-branches id sample (some stream) inner e =
      elim (Bool-cases (is_accepted ops now id sample.seq stream)) [
        | inl taken ↦
            let tests =
              parts (is_some_and (sender_id stream.sender) (λ s. str_eq s id))
                (newer_than sample.seq stream.estimated_latency
                  || same_as sample.seq stream.estimated_latency)
                (is_some_and stream.last_seq (λ l. leb sample.seq l)) taken in
            inr (record {
              stream = stream;
              active = e;
              owned = sender_id-owned (sender_id stream.sender) id tests.0;
              received = submitted-le stream.last_seq sample.seq tests.2;
              samples = (keep_estimate ops now sample stream).estimated_latency_samples;
              kept =
                  samples-Kept stream sample stream.estimated_latency
                    stream.estimated_latency_samples tests.1;
              stored = rw taken refl;
            })
        | inr refused ↦ inl (rw refused refl, not-Acceptable id sample inner stream e refused)
      ]
    where
      parts : (a b c : Bool) → (a && b && c) ≡ true → (a ≡ true) × (b ≡ true) × (c ≡ true)
      parts a b c h = ground arith

  -- A report of latency is refused, and changes nothing, exactly when it is not acceptable. It is
  -- acceptable if it is plausible, comes from the connection that owns the active stream, and is
  -- about a frame that has been received and is not older than the one that the estimate on record
  -- is about. Then it is the stream's estimate, with its time; if its frame is newer than that of
  -- the old estimate, or there was none, it is also the last of the stream's samples, of which the
  -- last three hundred are kept; and nothing else of the state changes.
  pub record_estimated_latency-branches :
      (id : String) (sample : EstimatedLatencySnapshot) (inner : Inner)
      → ((record_estimated_latency ops now id sample inner ≡ (false, inner))
          × ¬ Acceptable id sample inner)
        ⊎ ((is_plausible ops now sample ≡ true)
            × Accepted id sample inner (record_estimated_latency ops now id sample inner))
  unfolding record_estimated_latency
  record_estimated_latency-branches id sample inner =
      elim (Bool-cases (is_plausible ops now sample)) [
        | inl good ↦ elim (report_to-branches id sample inner.stream inner refl) [
          | inl same ↦ inl (rw good same.0, same.1)
          | inr kept ↦ inr (good, rw good kept)
        ]
        | inr bad ↦ inl (rw bad refl, λ a. cc (a.plausible, bad))
      ]
