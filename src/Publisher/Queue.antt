-- ===== src/Publisher/Queue.antt =====
-- internal/mqtt/publisher.go: the states that wait for the broker. `EnqueueDeviceState` runs in the
-- goroutines that update the cache, `publishWorker` in its own; a step is a critical section of
-- `pubMu`, or a send or a receive on a channel, and steps interleave in any order. The lists of states
-- keep what was given and what was published, the latest first.
use echonet_go.Base.{ℕ, zero, suc, ◌≡◌, Bool, true, false, some, List, [], ◌∷◌}
use echonet_go.Base.Maps.{lookup, insert, delete, text_key}
use echonet_go.Base.Texts.{Text}
use echonet_go.Cache.{DeviceState}

abbrev pub Pending : Type 0 → Type 0
Pending F = List (Text × DeviceState F)

abbrev pub name_of : {F : Type 0} → DeviceState F → Text
name_of st = st.device.name

-- Where `publishWorker` is: in its `select`, in a `drainPending` after `wake` or after `stop`, or at the
-- end.
pub data Worker : Type 0 where
  waiting : Worker
  draining : Worker
  flushing : Worker
  exited : Worker

pub record Pipeline (F : Type 0) : Type 0 where
  pub pending : Pending F
  -- The signal in the channel `wake`, which holds one.
  pub wake : Bool
  -- The channel `stop` is closed.
  pub stopped : Bool
  pub worker : Worker
  -- How many calls of `EnqueueDeviceState` have stored their state and not sent their signal.
  pub signals_due : ℕ
  pub given : List (DeviceState F)
  pub published : List (DeviceState F)

-- The first critical section of `EnqueueDeviceState`: the latest state wins.
unfoldable pub store : {F : Type 0} → DeviceState F → Pipeline F → Pipeline F
store st q = record q {
  pending = insert (name_of st) st q.pending;
  signals_due = suc q.signals_due;
  given = st ∷ q.given;
}

-- One round of `drainPending`: an entry is taken out and published. A panic of the publishing function
-- is recovered, so that the round ends in any case.
unfoldable pub publish_entry : {F : Type 0} → Text → DeviceState F → Pipeline F → Pipeline F
publish_entry name st q = record q { pending = delete name q.pending; published = st ∷ q.published }

-- The worker is in `drainPending`.
pub data IsDraining : Worker → Type 0 where
  by_wake : IsDraining draining
  by_stop : IsDraining flushing

pub data Step {F : Type 0} : Pipeline F → Pipeline F → Type 0 where
  enqueue : (q : Pipeline F) (st : DeviceState F) → Step q (store st q)
  -- The signal is sent, or there is one already.
  signal :
      (q : Pipeline F) (n : ℕ)
      → q.signals_due ≡ suc n
      → Step q (record q { wake = true; signals_due = n })
  receive_wake :
      (q : Pipeline F)
      → q.worker ≡ waiting
      → q.wake ≡ true
      → Step q (record q { wake = false; worker = draining })
  -- `range` gives the entries in any order.
  take_entry :
      (q : Pipeline F) (name : Text) (st : DeviceState F)
      → IsDraining q.worker
      → lookup name q.pending ≡ some st
      → Step q (publish_entry name st q)
  drained :
      (q : Pipeline F)
      → q.worker ≡ draining
      → q.pending ≡ []
      → Step q (record q { worker = waiting })
  -- `close(p.stop)` in `Disconnect`
  stop : (q : Pipeline F) → Step q (record q { stopped = true })
  receive_stop :
      (q : Pipeline F)
      → q.worker ≡ waiting
      → q.stopped ≡ true
      → Step q (record q { worker = flushing })
  exit :
      (q : Pipeline F)
      → q.worker ≡ flushing
      → q.pending ≡ []
      → Step q (record q { worker = exited })

-- `NewPublisher`
abbrev pub new_pipeline : (F : Type 0) → Pipeline F
new_pipeline F = record {
  pending = [];
  wake = false;
  stopped = false;
  worker = waiting;
  signals_due = 0;
  given = [];
  published = [];
}

pub data Reach {F : Type 0} : Pipeline F → Type 0 where
  start : Reach (new_pipeline F)
  later : {q q' : Pipeline F} → Reach q → Step q q' → Reach q'

-- A round of `drainPending` on the first entry, or its end.
unfoldable pub drain_round :
    {F : Type 0} → (Pipeline F → Pipeline F) → Pending F → Pipeline F → Pipeline F
unfolding publish_entry
drain_round again [] q = q
drain_round again ((name, st) ∷ rest) q = again (publish_entry name st q)

-- `drainPending` while nothing is enqueued, with a number of rounds; it takes the first entry.
unfoldable pub drain_pending : {F : Type 0} → ℕ → Pipeline F → Pipeline F
unfolding drain_round
drain_pending zero q = q
drain_pending (suc rounds) q = drain_round (drain_pending rounds) q.pending q
