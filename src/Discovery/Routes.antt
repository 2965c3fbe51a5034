-- ===== src/Discovery/Routes.antt =====
-- internal/mqtt/discovery.go and internal/mqtt/commander.go: the topics that are announced for commands
-- are those that the command handler answers.
use echonet_go.Base.{
  ℕ, ◌≡◌, refl, ap, ◌∙◌, Bool, true, false, ◌||◌, Option, some, List, [], ◌∷◌, if◌then◌else◌, arith,
}
use mathlib.Core.Path.{subst, sym}
use echonet_go.Base.Maps.{ByteSet, has}
use echonet_go.Base.Texts.{Text, text, text_eq}
use echonet_go.Cache.{
  Cache, Device, get_device_eoj, get_device_specs, get_device_climate, get_device_light,
  get_writable_epcs,
}
use echonet_go.Client.{Transport}
use echonet_go.Commander.{Station, may_set, check_writable, when_writable, note_missing_map}
use echonet_go.Commander.Handlers.{execute_writable_set}
use echonet_go.Commander.Routing.{
  split, entity_of_topic, device_by_name, addressed, with_eoj, pair_eoj, set_allowed, to_metric,
  with_specs, to_device, to_entity, handle_writable_message,
}
use echonet_go.Commander.Topics.{HasNoSlash, split-join, join-join}
use echonet_go.Discovery.Entities.{entity_payload}
use echonet_go.Floats.{Float64}
use echonet_go.Identity.{trim_space, is_empty}
use echonet_go.Protocol.{Eoj}
use echonet_go.Publisher.{HaDevice, Printer}
use echonet_go.Publisher.States.{own_entity}
use echonet_go.Specs.{
  MetricSpec, ClimateSpec, LightSpec, find_metric_spec_by_name, climate_handles_epc,
  light_handles_epc,
}
use echonet_go.Discovery.Commanded.{is_plain, plain-HasNoSlash, is_entity, IsOwn, taken-IsOwn}

module _ (fl : Float64) (tr : Transport) (healing : Bool) (devices : List Device) (now : ℕ)
    (c : Cache fl.F) (pr : Printer fl.F) (topic_prefix discovery_prefix : Text) where
  open fl use {F}
  open tr use {W}

  own_entity-IsOwn :
      (writable : ByteSet) (climate : Option (ClimateSpec F)) (light : Option LightSpec)
      (ms : MetricSpec F)
      → is_empty (own_entity fl pr topic_prefix writable climate light ms) ≡ false
      → IsOwn writable climate light ms (own_entity fl pr topic_prefix writable climate light ms)
  unfolding own_entity
  own_entity-IsOwn writable climate light ms h =
      taken-IsOwn writable climate light ms _ _ _ refl refl refl h

  command_topic-split :
      (dev : Device) (device : HaDevice) (avail : Text) (ms : MetricSpec F) (entity : Text)
      → HasNoSlash topic_prefix
      → HasNoSlash dev.name
      → HasNoSlash entity
      → HasNoSlash ms.name
      → split
          (entity_payload fl pr topic_prefix discovery_prefix dev device avail ms
            entity).command_topic
        ≡ topic_prefix ∷ dev.name ∷ entity ∷ ms.name ∷ text "set" ∷ []
  unfolding entity_payload is_plain
  command_topic-split dev device avail ms entity p n e m =
      ap split (join-join topic_prefix (dev.name ∷ entity ∷ ms.name ∷ []) (text "set") [])
      ∙ split-join topic_prefix (dev.name ∷ entity ∷ ms.name ∷ text "set" ∷ [])
          (p, (n, (e, (m, (plain-HasNoSlash (text "set") refl, tt)))))

  guards-pass :
      (dev : Device) (eoj : Eoj) (ms : MetricSpec F) (specs : List (MetricSpec F))
      (entity payload : Text) (writable : ByteSet)
      → get_writable_epcs c dev ≡ some writable
      → has ms.epc writable ≡ true
      → (climate_handles_epc (get_device_climate c dev) ms.epc
          || (light_handles_epc (get_device_light c dev) ms.epc || ms.exclude_set))
        ≡ false
      → (st : Station W)
      → to_metric fl tr healing devices now c dev eoj entity payload specs (some ms) st
        ≡ execute_writable_set fl tr healing dev eoj (some writable) ms specs entity payload st
  unfolding to_metric when_writable check_writable set_allowed may_set note_missing_map
  guards-pass dev eoj ms specs entity payload writable known listed free st =
      subst
        (λ o.
          when_writable healing dev eoj ms.epc o
            (λ st'.
              if taken
              then st'
              else execute_writable_set fl tr healing dev eoj o ms specs entity payload st')
            st
          ≡ execute_writable_set fl tr healing dev eoj (some writable) ms specs entity payload st)
        (sym known) (by_healing healing)
    where
      taken : Bool
      taken =
          climate_handles_epc (get_device_climate c dev) ms.epc
          || (light_handles_epc (get_device_light c dev) ms.epc || ms.exclude_set)

      by_healing :
          (b : Bool)
          → when_writable b dev eoj ms.epc
              (some writable)
              (λ st'.
                if taken
                then st'
                else execute_writable_set fl tr healing dev eoj
                    (some writable)
                    ms
                    specs
                    entity
                    payload
                    st')
              st
            ≡ execute_writable_set fl tr healing dev eoj (some writable) ms specs entity payload st
      by_healing true = rw (listed, free) refl
      by_healing false = rw (listed, free) refl

  non_empty : {A : Type 0} (b : Bool) (x y : A) → b ≡ false → (if b then y else x) ≡ x
  non_empty true x y h = absurd (ground arith)
  non_empty false x y h = refl

  entity_of_topic-entity :
      (prefix name entity metric : Text)
      → is_entity entity ≡ true
      → entity_of_topic (prefix ∷ name ∷ entity ∷ metric ∷ text "set" ∷ [])
        ≡ some (name, (entity, metric))
  unfolding entity_of_topic text_eq
  entity_of_topic-entity prefix name entity metric typed = rw typed refl

  addressed-found :
      (dev : Device) (eoj : Eoj)
      → device_by_name devices dev.name ≡ some dev
      → get_device_eoj c dev ≡ some eoj
      → addressed c devices dev.name ≡ some (dev, eoj)
  unfolding addressed with_eoj
  addressed-found dev eoj by_name has_eoj = ap (with_eoj c) by_name ∙ ap (pair_eoj dev) has_eoj

  -- The command topic of an entity that discovery announces for a metric of its own reaches the
  -- metric: the message passes every guard of the command handler and is executed for this device,
  -- this metric and this type of entity. The names of the prefix, the device and the metric have no
  -- separator, the first device of the name is this one, its object, its metrics and its SETMAP are
  -- known, the metric is the first of its name, and the payload is more than blanks.
  pub handle_writable_message-announced :
      (dev : Device) (eoj : Eoj) (device : HaDevice) (avail : Text) (ms : MetricSpec F)
      (specs : List (MetricSpec F)) (writable : ByteSet) (raw : Text) (st : Station W)
      → HasNoSlash topic_prefix
      → HasNoSlash dev.name
      → HasNoSlash ms.name
      → device_by_name devices dev.name ≡ some dev
      → get_device_eoj c dev ≡ some eoj
      → get_device_specs c dev ≡ some specs
      → get_writable_epcs c dev ≡ some writable
      → find_metric_spec_by_name specs ms.name ≡ some ms
      → is_empty (
          own_entity fl pr topic_prefix writable
            (get_device_climate c dev)
            (get_device_light c dev)
            ms)
        ≡ false
      → is_empty (trim_space raw) ≡ false
      → handle_writable_message fl tr healing devices now c
          (entity_payload fl pr topic_prefix discovery_prefix dev device avail ms (
            own_entity fl pr topic_prefix writable
              (get_device_climate c dev)
              (get_device_light c dev)
              ms)).command_topic
          raw
          st
        ≡ execute_writable_set fl tr healing dev eoj
            (some writable)
            ms
            specs
            (own_entity fl pr topic_prefix writable
              (get_device_climate c dev)
              (get_device_light c dev)
              ms)
            (trim_space raw)
            st
  unfolding handle_writable_message to_entity to_device with_specs addressed with_eoj
  handle_writable_message-announced dev eoj device avail ms specs writable raw st p n m by_name
        has_eoj has_specs has_map first own full =
      let climate = get_device_climate c dev in
      let light = get_device_light c dev in
      let entity = own_entity fl pr topic_prefix writable climate light ms in
      let (listed, free, typed, plain) = own_entity-IsOwn writable climate light ms own in
      let payload = trim_space raw in
      let parts = command_topic-split dev device avail ms entity p n plain m in
      let topic =
        (entity_payload fl pr topic_prefix discovery_prefix dev device avail ms
          entity).command_topic in
      non_empty (is_empty payload)
        (to_entity fl tr healing devices now c payload (entity_of_topic (split topic)) st) st full
      ∙ (ap (λ ps. to_entity fl tr healing devices now c payload (entity_of_topic ps) st) parts
          ∙ (ap (λ o. to_entity fl tr healing devices now c payload o st)
                (entity_of_topic-entity topic_prefix dev.name entity ms.name typed)
              ∙ (ap (λ o. to_device fl tr healing devices now c entity ms.name payload o st)
                    (addressed-found dev eoj by_name has_eoj)
                  ∙ (ap
                        (λ o.
                          with_specs fl tr healing devices now c dev eoj entity ms.name payload o
                            st)
                        has_specs
                      ∙ (ap
                            (λ o.
                              to_metric fl tr healing devices now c dev eoj entity payload specs o
                                st)
                            first
                          ∙ guards-pass dev eoj ms specs entity payload writable has_map listed free
                              st)))))
