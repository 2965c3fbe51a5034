-- ===== src/Commander/Verify.antt =====
-- internal/mqtt/commander.go: the tasks that read a device back after a command. They work on the
-- cache and the transport; `wait` passes a delay of some nanoseconds, or says that the program ends.
-- The other goroutines go on meanwhile: `others w` is what they make of the cache until the world is `w`.
use echonet_go.Base.{
  ℕ, Bool, true, false, ◌&&◌, ◌||◌, Option, none, some, List, [], ◌∷◌, ltb, ◌==◌, if◌then◌else◌,
  length, keep, map, Result, ok, err,
}
use echonet_go.Base.Maps.{has}
use echonet_go.Base.Texts.{text_eq}
use echonet_go.Cache.{Cache, Device, get_device_specs}
use echonet_go.Client.{Transport, get_props}
use echonet_go.Floats.{Float64}
use echonet_go.Protocol.{Property, Eoj, FrameError}
use echonet_go.Readings.{parse_props_to_metrics}
use echonet_go.Specs.{MetricSpec}
use echonet_go.Updates.{merge_metrics}
use echonet_go.Commander.{PendingUpdate}

-- The first property of this code has this data.
unfoldable pub reflects : List Property → PendingUpdate → Bool
reflects [] u = false
reflects (p ∷ props) u = if p.epc == u.0 then text_eq p.edt u.1 else reflects props u

-- `allMatched`: the reply has the data of every update.
unfoldable pub all_matched : List Property → List PendingUpdate → Bool
unfolding reflects
all_matched props [] = true
all_matched props (u ∷ updates) = reflects props u && all_matched props updates

-- `delays`, in nanoseconds.
abbrev pub delays : List ℕ
delays = 1000000000 ∷ 3000000000 ∷ 3000000000 ∷ []

abbrev pub codes : List PendingUpdate → List ℕ
codes = map (λ u. u.0)

module _ (fl : Float64) where
  open fl use {F}

  unfoldable pub merge_known :
      Device → List Property → List ℕ → Option (List (MetricSpec F)) → Cache F → Cache F
  merge_known dev props epcs none c = c
  merge_known dev props epcs (some specs) c =
      let metrics = parse_props_to_metrics fl props (keep (λ ms. has ms.epc epcs) specs) in
      if ltb 0 (length metrics) then merge_metrics fl dev metrics c else c

  -- `mergePropsToCache`
  unfoldable pub merge_props_to_cache : Device → List Property → List ℕ → Cache F → Cache F
  unfolding merge_known
  merge_props_to_cache dev props epcs c = merge_known dev props epcs (get_device_specs c dev) c

module _ (fl : Float64) (tr : Transport) (wait : ℕ → tr.W → Bool × tr.W)
    (others : tr.W → Cache fl.F → Cache fl.F) (dev : Device) (eoj : Eoj) where
  open fl use {F}
  open tr use {W}

  unfoldable pub merge_read : List ℕ → Cache F → Result FrameError (List Property) × W → Cache F × W
  merge_read epcs c (err e, w) = (others w c, w)
  merge_read epcs c (ok props, w) = (merge_props_to_cache fl dev props epcs (others w c), w)

  -- `readAndMergeProps`
  unfoldable pub read_and_merge_props : List ℕ → Cache F → W → Cache F × W
  unfolding merge_read
  read_and_merge_props epcs c w = merge_read epcs c (get_props tr dev.ip eoj epcs w)

  -- The task of `triggerStateUpdate`, which is called with no delay.
  unfoldable pub trigger_state_update : (W → Bool) → List ℕ → Cache F → W → Cache F × W
  unfolding read_and_merge_props
  trigger_state_update ended epcs c w = if ended w then (c, w) else read_and_merge_props epcs c w

  -- One attempt, from the reply on: the end, or the attempts that are left.
  unfoldable pub judge :
      List PendingUpdate
      → Bool
      → (W → Cache F × W)
      → Cache F
      → Result FrameError (List Property) × W
      → Cache F × W
  judge updates last again c (err e, w) = again w
  judge updates last again c (ok props, w) =
      if all_matched props updates || last
      then (merge_props_to_cache fl dev props (codes updates) (others w c), w)
      else again w

  unfoldable pub attempt :
      List PendingUpdate → Bool → (W → Cache F × W) → Cache F → Bool × W → Cache F × W
  unfolding judge
  attempt updates last again c (false, w) = (others w c, w)
  attempt updates last again c (true, w) =
      judge updates last again c (get_props tr dev.ip eoj (codes updates) w)

  -- The loop of `verifyStateUpdate` over the delays.
  unfoldable pub verify_loop : List PendingUpdate → List ℕ → Cache F → W → Cache F × W
  unfolding attempt
  verify_loop updates [] c w = (others w c, w)
  verify_loop updates (delay ∷ rest) c w =
      attempt updates (length rest == 0) (verify_loop updates rest c) c (wait delay w)

  -- The task of `verifyStateUpdate`.
  unfoldable pub verify_state_update : List PendingUpdate → Cache F → W → Cache F × W
  unfolding verify_loop
  verify_state_update updates = verify_loop updates delays
