-- ===== src/ControlLoop/Turns.antt =====
-- When the branches of the loop are ready (the `select!` of src/main.rs, its health interval and its
-- idle timeout). The task wakes as soon as a branch is ready; of several, any may be taken. Each
-- turn makes its timeout anew, while the interval keeps its deadline over the turns.
use llrdc_casting.Prelude.{ℕ, List, max, ◌≤◌, ◌∷◌, ◌<◌, ◌+◌, [], ◌≡◌, All, arith}

-- Two seconds, in nanoseconds.
abbrev pub health_period : ℕ
health_period = 2000000000

pub data Branch : Type 0 where
  tick_ready message_ready timed_out : Branch

-- The Instant at which a turn begins to wait, and the deadline of the interval's next tick.
pub record Waiting : Type 0 where
  pub began : ℕ
  pub tick_at : ℕ

-- A tick that is overdue is ready at once.
abbrev pub tick_time : Waiting → ℕ
tick_time w = max w.began w.tick_at

module _ (idle_timeout : ℕ) where
  -- From one turn's wait to the next: the branch that is taken, at a time when no other has been
  -- ready before, and the handler that runs until the next turn. The interval skips the ticks that
  -- it has missed, so that the next one is a period after this one at most.
  unfoldable pub Turn : Waiting → Branch → Waiting → Type 0
  Turn w tick_ready w' =
      (tick_time w ≤ w.began + idle_timeout)
      × (tick_time w ≤ w'.began)
      × (w'.tick_at ≤ tick_time w + health_period)
  Turn w message_ready w' =
      (at : ℕ) × (w.began ≤ at)
      × (at ≤ tick_time w)
      × (at ≤ w.began + idle_timeout)
      × (at ≤ w'.began)
      × (w'.tick_at ≡ w.tick_at)
  Turn w timed_out w' =
      (w.began + idle_timeout ≤ tick_time w)
      × (w.began + idle_timeout ≤ w'.began)
      × (w'.tick_at ≡ w.tick_at)

  -- The branches of a run of turns.
  unfoldable pub Turns : Waiting → List Branch → Type 0
  Turns w [] = Unit
  Turns w (b ∷ bs) = (w' : Waiting) × Turn w b w' × Turns w' bs

  abbrev pub IsTimedOut : Branch → Type 0
  IsTimedOut timed_out = Unit
  IsTimedOut _ = ⊥

  -- However the messages come and however long the handlers take, if the idle timeout is longer
  -- than the period of the health tick, then no turn of a run is ended by the idle timeout,
  -- provided that the first tick is due within a period of the start.
  pub IsTimedOut-never :
      (w : Waiting) (bs : List Branch)
      → health_period < idle_timeout
      → w.tick_at ≤ w.began + health_period
      → Turns w bs
      → All (λ b. ¬ IsTimedOut b) bs
  unfolding Turn Turns
  IsTimedOut-never w [] long due run = tt
  IsTimedOut-never w (tick_ready ∷ bs) long due (w', (first, after, next), run) =
      (λ never. never, IsTimedOut-never w' bs long (omega (arith, after, next)) run)
  IsTimedOut-never w (message_ready ∷ bs) long due (w', (at, a, b, c, after, same), run) =
      (λ never. never, IsTimedOut-never w' bs long (omega (arith, a, after, same)) run)
  IsTimedOut-never w (timed_out ∷ bs) long due (w', (first, after, same), run) =
      absurd (omega (arith, first, due, long))
