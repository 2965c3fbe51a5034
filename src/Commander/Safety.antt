-- ===== src/Commander/Safety.antt =====
-- internal/mqtt/commander.go: what a message may send, and what follows it.
use echonet_go.Base.{
  ℕ, ◌≡◌, refl, ◌≢◌, ◌⊎◌, Bool, true, ◌||◌, ==_self, Option, none, some, List, [], ◌∷◌, inl, inr,
  Bool-cases, Option-cases, All,
}
use echonet_go.Base.Maps.{has, lookup, byte_key}
use echonet_go.Base.Texts.{Text, text, text_eq_iff}
use echonet_go.Cache.{
  Cache, Device, get_device_specs, get_device_climate, get_device_light, get_writable_epcs, or_else,
}
use echonet_go.Client.{Transport}
use echonet_go.Floats.{Float64}
use echonet_go.Identity.{trim_space, is_empty}
use echonet_go.Protocol.{Eoj}
use echonet_go.Specs.{MetricSpec, find_metric_spec_by_name, climate_handles_epc, light_handles_epc}
use echonet_go.Commander.{Station, Effect, set_c, set_i, verify, trigger, may_set}
use echonet_go.Commander.Kept.{ReadsBack, Stepwise, Stepwise-ReadsBack, when_writable-Keeps}
use echonet_go.Commander.Several.{handle_climate_mode-Keeps, execute_writable_set-Keeps}
use echonet_go.Commander.Messages.{handle_light_message-Keeps, handle_climate_message-Keeps}
use echonet_go.Commander.Routing.{
  split, attribute_of, entity_of_topic, addressed, handle_climate_message, handle_light_message,
  set_allowed, to_metric, with_specs, to_device, to_entity, handle_writable_message,
}

module _ {F : Type 0} (c : Cache F) where
  -- A request writes a code that the device's SETMAP has, or the device has no map.
  abbrev pub Permitted : Effect → Type 0
  Permitted (set_c dev epc edt) = may_set (get_writable_epcs c dev) epc ≡ true
  Permitted (set_i dev epc edt) = may_set (get_writable_epcs c dev) epc ≡ true
  Permitted _ = Unit

  -- The code is the pre-set of a metric of the device that may be set.
  abbrev pub IsPreSet : Device → ℕ → Type 0
  IsPreSet dev epc =
      (specs : List (MetricSpec F)) × (name : Text) × (ms : MetricSpec F) × (get_device_specs c dev
        ≡ some specs)
      × (find_metric_spec_by_name specs name ≡ some ms)
      × (may_set (get_writable_epcs c dev) ms.epc ≡ true)
      × (ms.pre_set_epc ≡ epc)

  abbrev pub PermittedOrPreSet : Effect → Type 0
  PermittedOrPreSet (set_c dev epc edt) =
      (may_set (get_writable_epcs c dev) epc ≡ true) ⊎ IsPreSet dev epc
  PermittedOrPreSet (set_i dev epc edt) = may_set (get_writable_epcs c dev) epc ≡ true
  PermittedOrPreSet _ = Unit

  Permitted-Stepwise :
      (dev : Device) (eoj : Eoj) → Stepwise (All Permitted) dev eoj (get_writable_epcs c dev)
  Permitted-Stepwise dev eoj = record {
    heals = λ es q. (tt, q);
    sets = λ epc edt es may q. (may, q);
    sets_i = λ epc edt es may q. (may, q);
    verifies = λ us es q. (tt, q);
    triggers = λ epcs es q. (tt, q);
  }

  pre_set-Stepwise :
      (dev : Device) (eoj : Eoj)
      → Stepwise (All PermittedOrPreSet) dev eoj (get_writable_epcs c dev)
  pre_set-Stepwise dev eoj = record {
    heals = λ es q. (tt, q);
    sets = λ epc edt es may q. (inl may, q);
    sets_i = λ epc edt es may q. (may, q);
    verifies = λ us es q. (tt, q);
    triggers = λ epcs es q. (tt, q);
  }

-- Behind each SetC request stands the task that reads its code back: one that verifies the data that
-- was written, or one that reads the code after an error.
abbrev pub Followed : List Effect → Type 0
Followed [] = Unit
Followed (set_c dev epc edt ∷ es) = ⊥
Followed (verify dev us ∷ set_c dev' epc edt ∷ es) =
    (dev ≡ dev') × (lookup epc us ≡ some edt) × Followed es
Followed (trigger dev epcs ∷ set_c dev' epc edt ∷ es) =
    (dev ≡ dev') × (has epc epcs ≡ true) × Followed es
Followed (_ ∷ es) = Followed es

Followed-ReadsBack :
    {F : Type 0} (c : Cache F) (dev : Device) (eoj : Eoj)
    → ReadsBack Followed dev eoj (get_writable_epcs c dev)
unfolding has lookup
Followed-ReadsBack c dev eoj = record {
  healed = λ es q. q;
  verified = λ epc edt es may q. (refl, rw (==_self epc) refl, q);
  triggered = λ epc edt es may q. (refl, rw (==_self epc) refl, q);
}

module _ (fl : Float64) (tr : Transport) (healing : Bool) (devices : List Device) (now : ℕ)
    (c : Cache fl.F) where
  open fl use {F}
  open tr use {W}

  -- A climate or a light message, whatever its topic and its payload, sends no request that writes a
  -- code outside the SETMAP of its device; a device whose map is not known takes every code. What was
  -- sent before has to be such.
  pub handle_messages-Permitted :
      (topic raw : Text) (st : Station W)
      → All (Permitted c) st.effects
      → All (Permitted c) (handle_climate_message fl tr healing devices now c topic raw st).effects
        × All (Permitted c) (handle_light_message fl tr healing devices now c topic raw st).effects
  handle_messages-Permitted topic raw st q =
      let step = Permitted-Stepwise c in
      let read = (λ (dev : Device) (eoj : Eoj).
        Stepwise-ReadsBack (All (Permitted c)) fl tr healing dev eoj (get_writable_epcs c dev)
          (step dev eoj)) in
      (
        handle_climate_message-Keeps (All (Permitted c)) fl tr healing devices now c read topic raw
            (λ name attr found is_mode dev eoj payload.
              handle_climate_mode-Keeps (All (Permitted c)) fl tr healing dev eoj
                (get_writable_epcs c dev) (step dev eoj) payload (get_device_climate c dev)
                (or_else (get_device_specs c dev) []))
            st q,
        handle_light_message-Keeps (All (Permitted c)) fl tr healing devices now c read topic raw st
            q,
      )

  -- A climate message of another attribute than the mode, and a light message: behind each SetC
  -- request that it sends stands a task that reads the written code back from that device, to verify
  -- the data after a reply, and to see the state after an error. What was sent before has to be such.
  pub handle_messages-Followed :
      (topic raw : Text) (st : Station W)
      → ((name : Text) → attribute_of (text "climate") (split topic) ≢ some (name, text "mode"))
      → Followed st.effects
      → Followed (handle_climate_message fl tr healing devices now c topic raw st).effects
        × Followed (handle_light_message fl tr healing devices now c topic raw st).effects
  handle_messages-Followed topic raw st other q =
      let read = Followed-ReadsBack c in
      (
        handle_climate_message-Keeps Followed fl tr healing devices now c read topic raw
            (λ name attr found is_mode dev eoj payload.
              absurd (other name (rw (← (text_eq_iff attr (text "mode")).0 is_mode) found)))
            st q,
        handle_light_message-Keeps Followed fl tr healing devices now c read topic raw st q,
      )

  to_metric-Kept :
      (dev : Device) (eoj : Eoj) (entity name payload : Text) (specs : List (MetricSpec F))
      → get_device_specs c dev ≡ some specs
      → (o : Option (MetricSpec F)) → find_metric_spec_by_name specs name ≡ o
      → (st : Station W) → All (PermittedOrPreSet c) st.effects
      → All
          (PermittedOrPreSet c)
          (to_metric fl tr healing devices now c dev eoj entity payload specs o st).effects
  unfolding to_metric set_allowed
  to_metric-Kept dev eoj entity name payload specs known none e st q = q
  to_metric-Kept dev eoj entity name payload specs known (some ms) e st q =
      let writable = get_writable_epcs c dev in
      let step = pre_set-Stepwise c dev eoj in
      when_writable-Keeps (All (PermittedOrPreSet c)) fl tr healing dev eoj writable ms.epc _
        (λ es q. (tt, q))
        (λ may st q.
          elim (Bool-cases (
            climate_handles_epc (get_device_climate c dev) ms.epc
            || (light_handles_epc (get_device_light c dev) ms.epc || ms.exclude_set))) [
              | inl taken ↦ rw taken q
              | inr free ↦ rw free (
                  execute_writable_set-Keeps (All (PermittedOrPreSet c)) fl tr healing dev eoj
                    writable step ms specs entity payload may
                    (λ edt es q. (inr (specs, name, ms, known, e, may, refl), q)) st q)
            ])
        st q

  -- A switch, select or number message sends no request that writes a code outside the SETMAP of its
  -- device, but for the pre-set of a metric that may be set itself; a device whose map is not known
  -- takes every code. What was sent before has to be such.
  pub handle_writable_message-Permitted :
      (topic raw : Text) (st : Station W)
      → All (PermittedOrPreSet c) st.effects
      → All
          (PermittedOrPreSet c)
          (handle_writable_message fl tr healing devices now c topic raw st).effects
  unfolding handle_writable_message to_entity to_device with_specs
  handle_writable_message-Permitted topic raw st q = elim (Bool-cases (is_empty (trim_space raw))) [
    | inl empty ↦ rw empty q
    | inr full ↦ rw full (elim (Option-cases (entity_of_topic (split topic))) [
      | inl other ↦ rw other q
      | inr ((name, (entity, metric)), found) ↦
          rw found (elim (Option-cases (addressed c devices name)) [
            | inl unknown ↦ rw unknown q
            | inr ((dev, eoj), known) ↦ rw known (elim (Option-cases (get_device_specs c dev)) [
              | inl bare ↦ rw bare q
              | inr (specs, has_specs) ↦ rw has_specs (
                  to_metric-Kept dev eoj entity metric (trim_space raw) specs has_specs _ refl st q)
            ])
          ])
    ])
  ]
