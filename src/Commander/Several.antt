-- ===== src/Commander/Several.antt =====
-- internal/mqtt/commander.go: the handlers that may send two properties, a mode and a metric with a
-- pre-set.
use echonet_go.Base.{
  ℕ, ◌≡◌, Bool, true, Option, none, some, List, [], ◌∷◌, ◌==◌, Result, ok, err, inl, inr,
  Bool-cases,
}
use echonet_go.Base.Int.{ℤ}
use echonet_go.Base.Maps.{ByteSet, lookup, text_key}
use echonet_go.Base.Texts.{Text, text, text_eq}
use echonet_go.Cache.{Device}
use echonet_go.Client.{Transport}
use echonet_go.Encoder.{EncodeError}
use echonet_go.Floats.{Float64}
use echonet_go.Protocol.{Eoj}
use echonet_go.Specs.{MetricSpec, ClimateSpec, to_lower}
use echonet_go.Commander.{
  Station, Effect, set_c, verify, trigger, PendingUpdate, note, operation_status, may_set,
  set_property_i, set_and_verify,
}
use echonet_go.Commander.Handlers.{
  send_mode, mode_of, set_mode, handle_climate_mode, send_metric, set_metric, pre_set, pre_set_of,
  execute_writable_set,
}
use echonet_go.Commander.Values.{on_status, off_status}
use echonet_go.Commander.Kept.{
  Stepwise, Keeps, Stepwise-ReadsBack, when_writable-Keeps, set_property-Keeps,
}
use echonet_go.Commander.Single.{set_power-Keeps}

module _ (Q : List Effect → Type 0) (fl : Float64) (tr : Transport) (healing : Bool) (dev : Device)
    (eoj : Eoj) (writable : Option ByteSet) (s : Stepwise Q dev eoj writable) where
  open fl use {F, of_int}
  open tr use {W}

  abbrev Keeps' : (Station W → Station W) → Type 0
  Keeps' = Keeps Q fl tr healing dev eoj writable

  set_and_verify-Keeps :
      (epc : ℕ) (edt : List ℕ) (epcs : List ℕ) (updates : List PendingUpdate)
      → may_set writable epc ≡ true
      → Keeps' (set_and_verify tr dev eoj epc edt epcs updates)
  unfolding set_and_verify
  set_and_verify-Keeps epc edt epcs updates may =
      set_property-Keeps Q fl tr healing dev eoj writable epc edt (note (trigger dev epcs))
        (note (verify dev updates)) (λ es q. s.sets epc edt es may q)
        (λ st q. s.triggers epcs st.effects q) (λ st q. s.verifies updates st.effects q)

  send_mode-Keeps :
      (epc : ℕ) (r : Result EncodeError (List ℕ))
      → may_set writable epc ≡ true
      → Keeps' (send_mode fl tr healing dev eoj writable epc r)
  unfolding send_mode
  send_mode-Keeps epc (err e) may st q = q
  send_mode-Keeps epc (ok edt) may st q = set_and_verify-Keeps epc edt _ _ may st q

  mode_of-Keeps :
      (epc : ℕ) (raw : ℤ) (o : Option (MetricSpec F))
      → may_set writable epc ≡ true
      → Keeps' (mode_of fl tr healing dev eoj writable epc raw o)
  unfolding mode_of
  mode_of-Keeps epc raw none may st q = q
  mode_of-Keeps epc raw (some ms) may st q = send_mode-Keeps epc _ may st q

  set_mode-Keeps :
      (specs : List (MetricSpec F)) (epc : ℕ) (o : Option (Option ℤ))
      → may_set writable epc ≡ true
      → Keeps' (set_mode fl tr healing dev eoj writable specs epc o)
  unfolding set_mode
  set_mode-Keeps specs epc none may st q = q
  set_mode-Keeps specs epc (some none) may st q = q
  set_mode-Keeps specs epc (some (some raw)) may st q = mode_of-Keeps epc raw _ may st q

  pub handle_climate_mode-Keeps :
      (payload : Text) (o : Option (ClimateSpec F)) (specs : List (MetricSpec F))
      → Keeps' (handle_climate_mode fl tr healing dev eoj writable payload o specs)
  unfolding handle_climate_mode
  handle_climate_mode-Keeps payload none specs st q = q
  handle_climate_mode-Keeps payload (some climate) specs st q =
      let check = when_writable-Keeps Q fl tr healing dev eoj writable in
      elim (Bool-cases (text_eq (to_lower payload) (text "off"))) [
        | inl off ↦ rw off (
            check operation_status _ s.heals
              (set_power-Keeps Q fl tr healing dev eoj writable
                (Stepwise-ReadsBack Q fl tr healing dev eoj writable s) (some (off_status ∷ [])))
              st q)
        | inr on ↦ rw on (
            check operation_status _ s.heals
              (λ may. check climate.mode_epc _ s.heals (λ may'.
                set_property-Keeps Q fl tr healing dev eoj writable operation_status
                  (on_status ∷ []) (note (trigger dev (operation_status ∷ [])))
                  (set_mode fl tr healing dev eoj writable specs climate.mode_epc
                    (lookup (to_lower payload) climate.modes))
                  (λ es q. s.sets operation_status (on_status ∷ []) es may q)
                  (λ st q. s.triggers (operation_status ∷ []) st.effects q)
                  (set_mode-Keeps specs climate.mode_epc _ may')))
              st q)
      ]

  send_metric-Keeps :
      (ms : MetricSpec F) (before : List PendingUpdate) (r : Result EncodeError (List ℕ))
      → may_set writable ms.epc ≡ true
      → Keeps' (send_metric fl tr healing dev eoj writable ms before r)
  unfolding send_metric set_property_i
  send_metric-Keeps ms before (err e) may st q = q
  send_metric-Keeps ms before (ok edt) may st q =
      elim (Bool-cases (text_eq ms.set_mode (text "seti"))) [
        | inl seti ↦ rw seti (s.sets_i ms.epc edt st.effects may q)
        | inr set ↦ rw set (set_and_verify-Keeps ms.epc edt _ _ may st q)
      ]

  set_metric-Keeps :
      (ms : MetricSpec F) (before : List PendingUpdate) (o : Option F)
      → may_set writable ms.epc ≡ true
      → Keeps' (set_metric fl tr healing dev eoj writable ms before o)
  unfolding set_metric
  set_metric-Keeps ms before none may st q = q
  set_metric-Keeps ms before (some value) may st q = send_metric-Keeps ms before _ may st q

  -- The pre-set is sent with no look at the map: `Q` has to hold behind it.
  abbrev pub PreSets : MetricSpec F → Type 0
  PreSets ms = (edt : List ℕ) (es : List Effect) → Q es → Q (set_c dev ms.pre_set_epc edt ∷ es)

  pre_set-Keeps :
      (ms : MetricSpec F) (value : Option F) (r : Result EncodeError (List ℕ))
      → may_set writable ms.epc ≡ true
      → PreSets ms
      → Keeps' (pre_set fl tr healing dev eoj writable ms value r)
  unfolding pre_set
  pre_set-Keeps ms value (err e) may before st q = q
  pre_set-Keeps ms value (ok edt) may before st q =
      let rest = set_metric-Keeps ms ((ms.pre_set_epc, edt) ∷ []) value may in
      set_property-Keeps Q fl tr healing dev eoj writable ms.pre_set_epc edt _ _
        (λ es q. before edt es q) rest rest st q

  pre_set_of-Keeps :
      (ms : MetricSpec F) (value : Option F) (o : Option (MetricSpec F))
      → may_set writable ms.epc ≡ true
      → PreSets ms
      → Keeps' (pre_set_of fl tr healing dev eoj writable ms value o)
  unfolding pre_set_of
  pre_set_of-Keeps ms value none may before st q = q
  pre_set_of-Keeps ms value (some pre) may before st q = pre_set-Keeps ms value _ may before st q

  pub execute_writable_set-Keeps :
      (ms : MetricSpec F) (specs : List (MetricSpec F)) (entity payload : Text)
      → may_set writable ms.epc ≡ true
      → PreSets ms
      → Keeps' (execute_writable_set fl tr healing dev eoj writable ms specs entity payload)
  unfolding execute_writable_set
  execute_writable_set-Keeps ms specs entity payload may before st q =
      elim (Bool-cases (ms.pre_set_epc == 0)) [
        | inl unset ↦ rw unset (set_metric-Keeps ms [] _ may st q)
        | inr set ↦ rw set (pre_set_of-Keeps ms _ _ may before st q)
      ]
