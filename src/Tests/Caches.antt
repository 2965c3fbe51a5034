-- ===== src/Tests/Caches.antt =====
-- internal/poller/cache.go: a cache with an air conditioner and a meter.
use echonet_go.Base.{
  ℕ, ◌≡◌, ◌+◌, ◌&&◌, true, false, not, List, [], ◌∷◌, arith, if◌then◌else◌, inl, ltb,
}
use echonet_go.Base.Int.{ℤ, pos}
use echonet_go.Base.Maps.{has, lookup, insert_all, text_key}
use echonet_go.Base.Texts.{text, text_eq}
use echonet_go.Cache.{
  Cache, Device, device_key, device_cache, new_cache, in_set, record_push, should_skip_poll,
  set_device_eoj,
}
use echonet_go.Cache.Push.{should_skip_poll-record_push}
use echonet_go.Cache.Status.{get}
use echonet_go.Floats.{whole_floats, zero_float}
use echonet_go.Protocol.{Eoj, Property}
use echonet_go.Readings.{Readings}
use echonet_go.Updates.{update}
use echonet_go.Updates.Callback.{TellsTruth, must_tell, step-TellsTruth}
use echonet_go.Cache.{set_on_update}
use echonet_go.Updates.History.{
  Op, step, run, clock, CacheOk, run-Ok, subscribes, sets_eoj, pushes, updates, merges, ingests,
}
use echonet_go.Updates.Scrape.{IsReport, get-update}

abbrev pub living_ac : Device
living_ac = record {
  name = text "living";
  ip = text "192.168.0.5";
  class = text "home_ac";
  manufacturer = [];
  model = [];
  labels = [];
  scrape_interval = [];
}

abbrev meter : Device
meter = record living_ac {
  name = text "meter";
  ip = text "192.168.0.9";
  class = text "smart_meter";
}

abbrev pub ac_object : Eoj
ac_object = record { b0 = 1; b1 = 0x30; b2 = 1 }

abbrev readings : Readings ℤ
readings =
    (text "temperature", record { value = pos 21; kind = text "gauge"; enum_label = [] }) ∷ []

abbrev power_on : List Property
power_on = record { epc = 0x80; pdc = 1; edt = 0x30 ∷ [] } ∷ []

abbrev known : Cache ℤ
known = set_device_eoj living_ac ac_object new_cache

abbrev history : List (ℕ × Op ℤ)
history =
    (0, subscribes)
    ∷ (10, sets_eoj living_ac ac_object)
    ∷ (10, updates living_ac (text "60s") 60 false (pos 1) [] [])
    ∷ (10, updates living_ac (text "60s") 60 true (pos 1) readings [])
    ∷ (5, pushes living_ac (0x80 ∷ []))
    ∷ (5, ingests (text "192.168.0.5") ac_object power_on (meter ∷ living_ac ∷ []))
    ∷ []

run-Ok_example :
    CacheOk whole_floats (clock whole_floats 100 history) (run whole_floats 100 history new_cache)
run-Ok_example = run-Ok whole_floats 100 history new_cache tt

should_skip_poll-record_push_example :
    should_skip_poll 30 (record_push 20 living_ac (0x80 ∷ 0xB0 ∷ []) known) living_ac 0xB0 60 ≡ (
      if text_eq (device_key living_ac) (device_key living_ac) && has 0xB0 (0x80 ∷ 0xB0 ∷ [])
      then not known.force_polling
        && (in_set 0xB0 (lookup (device_key living_ac) known.notify_epcs) && ltb 30 (20 + 60))
      else should_skip_poll 30 known living_ac 0xB0 60)
should_skip_poll-record_push_example =
    should_skip_poll-record_push 20 30 known living_ac living_ac (0x80 ∷ 0xB0 ∷ []) 0xB0 60

get-update_example :
    IsReport whole_floats 100
      (insert_all readings (device_cache known (device_key living_ac)).metrics)
      (get
        (100 + 90)
        (zero_float whole_floats)
        (update whole_floats 100 living_ac (text "60s") 60 true (pos 1) readings [] known)
        living_ac)
get-update_example =
    get-update whole_floats 100 90 living_ac (text "60s") 60 (pos 1) readings [] known
      (unfold set_device_eoj in tt) (inl (omega arith))

step-TellsTruth_example :
    TellsTruth whole_floats true
      (set_on_update known)
      (step whole_floats 100 (merges living_ac readings) (set_on_update known))
unfolding must_tell set_device_eoj
step-TellsTruth_example =
    step-TellsTruth whole_floats 100 (merges living_ac readings) (set_on_update known)
