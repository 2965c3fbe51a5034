-- ===== src/Publisher/Wakeups.antt =====
-- internal/mqtt/publisher.go: no state is left behind with the worker asleep.
use echonet_go.Base.{◌≤◌, ◌≡◌, refl, true, [], arith}
use echonet_go.Base.Maps.{text_key}
use echonet_go.Publisher.Queue.{
  Pipeline, exited, IsDraining, by_wake, by_stop, Step, enqueue, signal, receive_wake, take_entry,
  drained, stop, receive_stop, exit, Reach, start, later, store, publish_entry,
}

-- The worker will look at what is pending: a signal is on its way or there, or it is draining. A
-- worker that has exited is past that.
pub data WillDrain {F : Type 0} : Pipeline F → Type 0 where
  nothing_pending : {q : Pipeline F} → q.pending ≡ [] → WillDrain q
  signal_due : {q : Pipeline F} → 1 ≤ q.signals_due → WillDrain q
  signalled : {q : Pipeline F} → q.wake ≡ true → WillDrain q
  at_work : {q : Pipeline F} → IsDraining q.worker → WillDrain q
  gone : {q : Pipeline F} → q.worker ≡ exited → WillDrain q

module _ {F : Type 0} where
  stop-WillDrain : (q : Pipeline F) → WillDrain q → WillDrain {F = F} (record q { stopped = true })
  stop-WillDrain q (nothing_pending e) = nothing_pending e
  stop-WillDrain q (signal_due n) = signal_due n
  stop-WillDrain q (signalled e) = signalled e
  stop-WillDrain q (at_work d) = at_work d
  stop-WillDrain q (gone e) = gone e

  Step-WillDrain : {q q' : Pipeline F} → Step q q' → WillDrain q → WillDrain q'
  unfolding store publish_entry
  Step-WillDrain (enqueue q st) w = signal_due (omega arith)
  Step-WillDrain (signal q n e) w = signalled refl
  Step-WillDrain (receive_wake q at e) w = at_work by_wake
  Step-WillDrain (take_entry q name st d e) w = at_work d
  Step-WillDrain (drained q at e) w = nothing_pending e
  Step-WillDrain (stop q) w = stop-WillDrain q w
  Step-WillDrain (receive_stop q at e) w = at_work by_stop
  Step-WillDrain (exit q at e) w = gone refl

  -- However the enqueuing goroutines, the worker and `Disconnect` interleave, a state that is pending
  -- is never forgotten: a signal for the worker is due or in the channel, or the worker is draining, or
  -- it has exited.
  pub Reach-WillDrain : (q : Pipeline F) → Reach q → WillDrain q
  Reach-WillDrain q start = nothing_pending refl
  Reach-WillDrain q (later r s) = Step-WillDrain s (Reach-WillDrain _ r)
