-- ===== src/OperationalLog/Tests.antt =====
-- Runs of the journal at concrete events.
use llrdc_casting.OperationalLog.{
  Log, Disk, OperationalEvent, record_event, recent_events, is_aggregated, [], true, false,
  keep_last, flush, flush_pending, write_pending,
}
use llrdc_casting.OperationalLog.Recent.{record_event-Shows, Shows, added}
use llrdc_casting.OperationalLog.Floods.{repeated_once, repeated}
use llrdc_casting.OperationalLog.Redact.{redact}
use llrdc_casting.OperationalLog.Redact.Lines.{redact-All}
use llrdc_casting.Prelude.Ascii.{IsInLine}
use llrdc_casting.Prelude.Text.{codes}
use llrdc_casting.Prelude.{ℕ, List, All, ◌≡◌, ◌++◌, ◌∷◌, arith, refl}

abbrev encode : OperationalEvent → List ℕ
encode e = e.message ++ (10 ∷ [])

abbrev rejected : OperationalEvent
rejected = record {
  timestamp_unix_ms = 1000;
  severity = "warn";
  category = "pairing_rejected";
  message = codes "peer=10.0.0.9";
  receiver_generation = 3;
}

abbrev fresh : Log
fresh = record {
  recent = [];
  healthy = true;
  pending_since_sync = false;
  aggregates = [];
  pending = [];
  journal = [];
}

abbrev working : Disk
working = record { opens = true; accepts = 100; flushes = true }

-- A disk that takes one line.
abbrev full : Disk
full = record { opens = true; accepts = 1; flushes = true }

abbrev waiting : Log
waiting = record fresh { pending = (1 ∷ []) ∷ (2 ∷ []) ∷ (3 ∷ []) ∷ [] }

rejected-IsAggregated : is_aggregated encode rejected.severity rejected.category ≡ true
unfolding is_aggregated
rejected-IsAggregated = refl

record_event-Shows_example :
    Shows
      ([] ++ added encode working true rejected fresh)
      (record_event encode working true false rejected fresh)
    × (recent_events 10 (record_event encode working true false rejected fresh)
        ≡ keep_last 10 ([] ++ added encode working true rejected fresh))
record_event-Shows_example =
    record_event-Shows encode working true false rejected [] fresh 10 refl (omega arith)

repeated_once_example : repeated encode (1000 ∷ 1500 ∷ 60999 ∷ []) rejected [] ≡ rejected ∷ []
repeated_once_example =
    repeated_once encode rejected 1000 (1500 ∷ 60999 ∷ []) [] rejected-IsAggregated refl
      (omega arith, (omega arith, tt))

-- The lines that a full disk did not take are gone, and the next event that is no urgent one makes
-- the log healthy again.
flush_drops :
    flush full waiting
    ≡ record waiting { pending = []; journal = waiting.journal ++ ((1 ∷ []) ∷ []); healthy = false }
unfolding flush flush_pending write_pending
flush_drops = refl

redact-All_example : All IsInLine (redact (codes "secret" ∷ []) (codes "a secret at ?code=AB09&x"))
redact-All_example = redact-All (codes "secret" ∷ []) (codes "a secret at ?code=AB09&x")

masked :
    redact (codes "secret" ∷ []) (codes "a secret at ?code=AB09&x")
    ≡ codes "a [REDACTED] at ?code=[REDACTED]&x"
unfolding redact
masked = refl
