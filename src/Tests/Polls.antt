-- ===== src/Tests/Polls.antt =====
-- internal/poller/scheduler.go and reconciler.go, internal/echonet/notification.go: how the meter and
-- the air conditioner are polled, healed and heard.
use echonet_go.Cache.{Device}
use echonet_go.Base.{
  ℕ, ◌≡◌, ◌+◌, ◌==◌, ◌++◌, refl, true, false, none, some, List, [], ◌∷◌, arith, if◌then◌else◌, ltb,
  All, length, map, ok, err,
}
use echonet_go.Base.Int.{ℤ}
use echonet_go.Base.Maps.{has, lookup, insert, text_key}
use echonet_go.Base.Texts.{text, text_eq}
use echonet_go.Cache.{
  Cache, device_key, new_cache, set_writable_epcs, set_notification_epcs, has_writable_map,
}
use echonet_go.Bringup.{Found, discover_device_state}
use echonet_go.Bringup.Records.{IsRecorded, discover_device_state-IsRecorded}
use echonet_go.Client.{Transport}
use echonet_go.Floats.{whole_floats}
use echonet_go.Identity.{Lookups}
use echonet_go.Notification.{handle_frame, is_known}
use echonet_go.Notification.Acknowledge.{handle_frame-acknowledges}
use echonet_go.Protocol.{
  InfFrame, transport_error, controller, esv_infc, esv_infc_res, parse_inf_frame, parse_frame,
  header,
}
use echonet_go.Protocol.RoundTrip.{frame_of}
use echonet_go.Reconciler.{do_reconcile}
use echonet_go.Reconciler.Safety.{do_reconcile-writable}
use echonet_go.Reconciler.Cooldown.{Call, reconciles}
use echonet_go.Scheduler.{resolve_eoj_instance}
use echonet_go.Scheduler.Instances.{SameClass, resolve_eoj_instance-SameClass}
use echonet_go.Scraping.{
  Scraper, Choice, nothing_chosen, choose_metrics, device_interval, interval_of,
  schedule_device_scrapers,
}
use echonet_go.Scraping.Groups.{Takes, schedule_device_scrapers-Takes}
use echonet_go.Specs.{DeviceSpec}
use echonet_go.Tests.Caches.{living_ac, ac_object}
use echonet_go.Tests.Metrics.{temperature, energy}

-- A notification that asks for an acknowledgement.
abbrev infc : List ℕ
infc = header 258 ac_object controller esv_infc 1 ++ (0x80 ∷ 1 ∷ 0x30 ∷ [])

abbrev infc_frame : InfFrame
infc_frame =
    frame_of 258 ac_object controller esv_infc
      (record { epc = 0x80; pdc = 1; edt = 0x30 ∷ [] } ∷ [])

infc_read : parse_inf_frame infc ≡ ok infc_frame
unfolding parse_inf_frame parse_frame
infc_read = refl

known : is_known living_ac.ip (living_ac.ip ∷ []) ≡ true
unfolding is_known text_eq
known = refl

handle_frame-acknowledges_example :
    (response : List ℕ) × ((handle_frame true (living_ac.ip ∷ []) living_ac.ip infc).sent
      ≡ some response)
    × (parse_inf_frame response
        ≡ ok (frame_of 258 controller ac_object esv_infc_res infc_frame.props))
    × ((handle_frame true (living_ac.ip ∷ []) living_ac.ip infc).called ≡ (
        if ltb 0 (length infc_frame.props)
        then some (living_ac.ip, ac_object, infc_frame.props)
        else none))
handle_frame-acknowledges_example =
    handle_frame-acknowledges (living_ac.ip ∷ []) living_ac.ip infc infc_frame (ground arith)
      infc_read refl known

-- A network that never answers.
abbrev pub dead : Transport
dead = record {
  W = ℕ;
  next_tid = λ w. (1, w);
  send_fire_and_forget = λ w addr req. (none, w);
  send = λ w addr req tid. (err (transport_error (text "i/o timeout")), w + 1);
}

resolve_eoj_instance-SameClass_example :
    SameClass (resolve_eoj_instance dead living_ac ac_object [] 0).0 ac_object
resolve_eoj_instance-SameClass_example =
    resolve_eoj_instance-SameClass dead living_ac ac_object [] 0

abbrev spec : DeviceSpec ℤ
spec = record {
  eoj = ac_object;
  description = [];
  default_scrape_interval = 60;
  metrics = temperature ∷ energy ∷ [];
  climate = none;
  light = none;
}

schedule_device_scrapers-Takes_example :
    All
      (Takes (device_interval (λ s. none) living_ac spec) (temperature ∷ energy ∷ []))
      (schedule_device_scrapers (λ s. none) living_ac (temperature ∷ energy ∷ []) spec 1)
    × All
        (λ m.
          has (interval_of (device_interval (λ s. none) living_ac spec) m) (
            map
              (λ (s : Scraper ℤ). s.interval)
              (schedule_device_scrapers (λ s. none) living_ac (temperature ∷ energy ∷ []) spec 1))
          ≡ true)
        (temperature ∷ energy ∷ [])
schedule_device_scrapers-Takes_example =
    schedule_device_scrapers-Takes (λ s. none) living_ac (temperature ∷ energy ∷ []) spec 1

abbrev chosen : Choice
chosen = choose_metrics (λ e. e == 0xB3) (temperature ∷ energy ∷ []) nothing_chosen

abbrev empty : Cache ℤ
empty = new_cache

abbrev other_ac : Device
other_ac = record living_ac { ip = text "192.168.0.6" }

abbrev seventh_second : Call ℤ
seventh_second = reconciles 107000000000 empty living_ac

abbrev nothing_known : Lookups
nothing_known = record { manufacturer_name = λ n. none; parse_ip4 = λ s. none; host_label = λ s. s }

abbrev half_known : Cache ℤ
half_known = set_notification_epcs living_ac [] (set_writable_epcs living_ac (0x80 ∷ []) empty)

do_reconcile-writable_example :
    (do_reconcile whole_floats dead nothing_known
      (λ w. false)
      living_ac
      ac_object
      half_known
      0).0.writable_epcs
    ≡ half_known.writable_epcs
unfolding has_writable_map set_notification_epcs set_writable_epcs device_key text_eq lookup insert
do_reconcile-writable_example =
    do_reconcile-writable whole_floats dead nothing_known (λ w. false) living_ac ac_object
      half_known 0 refl

abbrev brought_up : Found whole_floats dead nothing_known
brought_up = discover_device_state whole_floats dead nothing_known true living_ac spec [] [] empty 0

discover_device_state-IsRecorded_example :
    IsRecorded whole_floats dead nothing_known true living_ac ac_object empty brought_up.eoj
      brought_up.metrics brought_up.cache
discover_device_state-IsRecorded_example =
    discover_device_state-IsRecorded whole_floats dead nothing_known true living_ac spec [] [] empty
      0
