-- ===== src/Tests/Queues.antt =====
-- internal/mqtt/publisher.go: the pipeline with two states of one device.
use echonet_go.Base.{◌≡◌, Bool, true, false, none, [], arith}
use echonet_go.Base.Int.{ℤ}
use echonet_go.Base.Maps.{insert, text_key}
use echonet_go.Base.Texts.{text, text_eq}
use echonet_go.Cache.{DeviceState}
use echonet_go.Identity.{no_info}
use echonet_go.Publisher.Coalescing.{shown, latest, IsDrained, Reach-shown, drain_pending-IsDrained}
use echonet_go.Publisher.Queue.{
  Pipeline, Reach, start, later, enqueue, new_pipeline, store, drain_pending,
}
use echonet_go.Publisher.Wakeups.{WillDrain, Reach-WillDrain}
use echonet_go.Tests.Caches.{living_ac}

abbrev state_of : Bool → DeviceState ℤ
state_of success = record {
  device = living_ac;
  info = no_info;
  metrics = [];
  metric_specs = none;
  writable = none;
  climate = none;
  light = none;
  success = success;
}

abbrev two_states : Pipeline ℤ
two_states = store (state_of false) (store (state_of true) (new_pipeline ℤ))

two_states_reached : Reach two_states
two_states_reached =
    later (later start (enqueue (new_pipeline ℤ) (state_of true))) (enqueue _ (state_of false))

Reach-WillDrain_example : WillDrain two_states
Reach-WillDrain_example = Reach-WillDrain two_states two_states_reached

Reach-shown_example : shown (text "living") two_states ≡ latest (text "living") two_states.given
Reach-shown_example = Reach-shown two_states two_states_reached (text "living")

drain_pending-IsDrained_example : IsDrained two_states.given (drain_pending 2 two_states)
unfolding store insert text_eq
drain_pending-IsDrained_example =
    drain_pending-IsDrained 2 two_states two_states_reached (omega arith)
