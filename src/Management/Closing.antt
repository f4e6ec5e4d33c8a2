-- ===== src/Management/Closing.antt =====
-- The end of a connection, and what is left of its session.
use llrdc_casting.Prelude.Text.{eq_refl}
use llrdc_casting.Prelude.Dict.{lookup, delete, modify, lookup-delete}
use llrdc_casting.Management.Sessions.{
  finish_stream, connection_closed, finish_locked, owns, sender_of, close_record, event,
  close_message,
}
use llrdc_casting.Prelude.Float.{FloatOps}
use llrdc_casting.Prelude.{
  ℕ, Option, String, ◌≡◌, none, false, some, Bool-cases, refl, inl, inr, ◌∙◌,
}
use llrdc_casting.Management.Types.{Inner, ActiveStream}

module _ (ops : FloatOps) (now : ℕ) where
  pub finished :
      (o : Option ActiveStream) (reason : String) (inner : Inner)
      → inner.stream ≡ o
      → (finish_stream ops now o reason inner).stream ≡ none
  unfolding finish_stream
  finished none reason inner e = e
  finished (some stream) reason inner e = refl

  finish_stream-clock_syncs :
      (o : Option ActiveStream) (reason : String) (inner : Inner)
      → (finish_stream ops now o reason inner).clock_syncs ≡ inner.clock_syncs
  unfolding finish_stream
  finish_stream-clock_syncs none reason inner = refl
  finish_stream-clock_syncs (some stream) reason inner = refl

  owns-none : (id : String) (inner : Inner) → inner.stream ≡ none → owns ops now id inner ≡ false
  unfolding owns sender_of
  owns-none id inner e = rw e refl

  owns-same :
      (id : String) (a b : Inner) → a.stream ≡ b.stream → owns ops now id a ≡ owns ops now id b
  unfolding owns
  owns-same id a b e = rw e refl

  -- The state in which the connection is marked as gone and its clock is forgotten.
  cleared : String → Inner → Inner
  cleared id inner = record inner {
    clock_syncs = delete id inner.clock_syncs;
    connections = modify id (close_record ops now inner) inner.connections;
  }

  -- The end of a connection, entered in the events.
  announced : String → Inner → Inner → Inner
  announced id inner after =
      event ops now "info" "connection_disconnected"
        (close_message ops now id inner (lookup id inner.connections)) after

  -- A connection that closes owns no active stream afterwards, the answer tells whether it did, and
  -- its clock is forgotten.
  pub connection_closed-ends :
      (id : String) (inner : Inner)
      → (owns ops now id (connection_closed ops now id inner).1 ≡ false)
        × ((connection_closed ops now id inner).0 ≡ owns ops now id inner)
        × (lookup id (connection_closed ops now id inner).1.clock_syncs ≡ none)
  unfolding connection_closed cleared finish_locked announced
  connection_closed-ends id inner = elim (Bool-cases (owns ops now id inner)) [
    | inl mine ↦ (
      rw mine (
          owns-none id
            (announced id inner
              (finish_stream ops now inner.stream "disconnect" (cleared id inner)))
            (finished inner.stream "disconnect" (cleared id inner) refl)),
      refl,
      rw mine
          (rw (finish_stream-clock_syncs inner.stream "disconnect" (cleared id inner)) forgotten),
    )
    | inr other ↦ (
      rw other (owns-same id (announced id inner (cleared id inner)) inner refl ∙ other),
      refl,
      rw other forgotten,
    )
  ]
    where
      forgotten : lookup id (delete id inner.clock_syncs) ≡ none
      forgotten = rw (lookup-delete id id inner.clock_syncs, eq_refl id) refl
