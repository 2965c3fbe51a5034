-- ===== src/Scraping.antt =====
-- internal/poller/scheduler.go: which metrics of a device are polled, when, and what one scrape does. A
-- duration is a number of nanoseconds. The clock stands still while a scrape chooses its codes; log
-- lines and the goroutines' timers are left out.
pub mod Groups
pub mod Polling
pub mod Asked
use echonet_go.Base.{
  ℕ, zero, suc, ◌+◌, ◌*◌, ◌/◌, Bool, true, false, not, ◌&&◌, ◌||◌, Option, none, some, List, [],
  ◌∷◌, ◌++◌, ltb, leb, ◌==◌, if◌then◌else◌, length, keep, map, is_some, Result, ok, err,
}
use echonet_go.Base.Int.{ℤ, pos, negsuc}
use echonet_go.Base.Maps.{ByteSet, has, add, lookup, insert, byte_key, text_key}
use echonet_go.Base.Texts.{Text, text}
use echonet_go.Cache.{Cache, Device, or_else, should_skip_poll}
use echonet_go.Client.{Transport, get_props, sort_ints}
use echonet_go.Floats.{Float64}
use echonet_go.Identity.{node_profile, is_empty}
use echonet_go.Protocol.{Property, Eoj, FrameError, transport_error}
use echonet_go.Readings.{Readings, parse_props_to_metrics}
use echonet_go.Specs.{MetricSpec, DeviceSpec, to_lower}
use echonet_go.Updates.{update}
use echonet_go.Reconciler.{needs_reconciliation}

-- `calculateInitialDelay`, in nanoseconds.
unfoldable pub calculate_initial_delay : ℕ → ℕ → ℕ → ℕ
calculate_initial_delay interval group_index dev_index =
    let initial_delay = dev_index * 250000000 + group_index * 500000000 in
    if ltb (interval / 2) initial_delay then interval / 2 else initial_delay

-- `d`, the result of `time.ParseDuration`, stands if it is positive.
positive_or : ℕ → Option ℤ → ℕ
positive_or d none = d
positive_or d (some (negsuc n)) = d
positive_or d (some (pos n)) = if ltb 0 n then n else d

-- One scraper: its metrics, its interval and its first delay.
pub record Scraper (F : Type 0) : Type 0 where
  pub metrics : List (MetricSpec F)
  pub interval : ℕ
  pub initial_delay : ℕ

-- What `scrapeOnce` has looked at: the codes seen, those that it leaves out, and those to ask for.
pub record Choice : Type 0 where
  pub seen : ByteSet
  pub skipped : ByteSet
  pub epcs : List ℕ

abbrev pub nothing_chosen : Choice
nothing_chosen = record { seen = []; skipped = []; epcs = [] }

module _ {F : Type 0} where
  -- `filterMetricsByReadableMap`
  unfoldable pub filter_metrics_by_readable_map :
      List (MetricSpec F) → ByteSet → List (MetricSpec F) × List ℕ
  filter_metrics_by_readable_map [] readable = ([], [])
  filter_metrics_by_readable_map (m ∷ metrics) readable =
      let (filtered, unsupported) = filter_metrics_by_readable_map metrics readable in
      if has m.epc readable then (m ∷ filtered, unsupported) else (filtered, m.epc ∷ unsupported)

  -- The interval of the device's metrics that have none.
  unfoldable pub device_interval : (Text → Option ℤ) → Device → DeviceSpec F → ℕ
  unfolding positive_or
  device_interval parse_duration dev spec =
      if not (is_empty dev.scrape_interval)
      then positive_or spec.default_scrape_interval (parse_duration dev.scrape_interval)
      else spec.default_scrape_interval

  unfoldable pub interval_of : ℕ → MetricSpec F → ℕ
  interval_of default' m = if m.scrape_interval == 0 then default' else m.scrape_interval

  -- `byInterval`
  unfoldable pub group_by_interval :
      ℕ → List (MetricSpec F) → List (ℕ × List (MetricSpec F)) → List (ℕ × List (MetricSpec F))
  unfolding interval_of
  group_by_interval default' [] groups = groups
  group_by_interval default' (m ∷ metrics) groups =
      let iv = interval_of default' m in
      group_by_interval default' metrics
        (insert iv (or_else (lookup iv groups) [] ++ (m ∷ [])) groups)

  unfoldable pub scrapers_of : List ℕ → ℕ → ℕ → List (ℕ × List (MetricSpec F)) → List (Scraper F)
  unfolding calculate_initial_delay
  scrapers_of [] i dev_index groups = []
  scrapers_of (iv ∷ intervals) i dev_index groups =
      record {
        metrics = or_else (lookup iv groups) [];
        interval = iv;
        initial_delay = calculate_initial_delay iv i dev_index;
      }
      ∷ scrapers_of intervals (i + 1) dev_index groups

  -- `scheduleDeviceScrapers`: the scrapers that it starts.
  unfoldable pub schedule_device_scrapers :
      (Text → Option ℤ) → Device → List (MetricSpec F) → DeviceSpec F → ℕ → List (Scraper F)
  unfolding device_interval group_by_interval scrapers_of
  schedule_device_scrapers parse_duration dev active_metrics spec dev_index =
      let groups = group_by_interval (device_interval parse_duration dev spec) active_metrics [] in
      scrapers_of (sort_ints (map (λ g. g.0) groups)) 0 dev_index groups

  -- The second half of the loop's body: the code of the multiplier.
  unfoldable pub add_multiplier : MetricSpec F → Choice → Choice
  add_multiplier m s =
      if not (m.multiplier_epc == 0) && not (has m.multiplier_epc s.seen)
      then record s { seen = m.multiplier_epc ∷ s.seen; epcs = s.epcs ++ (m.multiplier_epc ∷ []) }
      else s

  -- The body of the loop; `skip` is `ShouldSkipPoll`.
  unfoldable pub choose_metric : (ℕ → Bool) → MetricSpec F → Choice → Choice
  unfolding add_multiplier
  choose_metric skip m s =
      if has m.epc s.seen
      then add_multiplier m s
      else if skip m.epc
      then record s { skipped = m.epc ∷ s.skipped; seen = m.epc ∷ s.seen }
      else add_multiplier m (record s { seen = m.epc ∷ s.seen; epcs = s.epcs ++ (m.epc ∷ []) })

  unfoldable pub choose_metrics : (ℕ → Bool) → List (MetricSpec F) → Choice → Choice
  unfolding choose_metric
  choose_metrics skip [] s = s
  choose_metrics skip (m ∷ metrics) s = choose_metrics skip metrics (choose_metric skip m s)

  -- `missingMetricNames`
  unfoldable pub missing_metric_names : List (MetricSpec F) → Readings F → List Text
  missing_metric_names [] out = []
  missing_metric_names (m ∷ metrics) out =
      let missing = missing_metric_names metrics out in
      if is_some (lookup m.name out) then missing else m.name ∷ missing

-- What one scrape is about: its time, device, object and group, and how long it takes.
pub record ScrapeJob (F : Type 0) : Type 0 where
  pub started : ℕ
  pub ended : ℕ
  pub duration : F
  pub dev : Device
  pub eoj : Eoj
  pub metrics : List (MetricSpec F)
  pub group_id : Text
  pub interval : ℕ

module _ (fl : Float64) (tr : Transport) (error_text : FrameError → Text) where
  open fl use {F}
  open tr use {W}

  -- The cache, whether `ReconcileDevice` is called, and the world.
  finish_scrape :
      ScrapeJob F
      → List (MetricSpec F)
      → Result FrameError (List Property) × W
      → Cache F
      → Cache F × Bool × W
  finish_scrape job polled (err e, w) c = (
    update fl job.ended job.dev job.group_id job.interval false job.duration [] (error_text e) c,
    false,
    w,
  )
  finish_scrape job polled (ok props, w) c =
      let c' =
        update fl job.ended job.dev job.group_id job.interval true job.duration
          (parse_props_to_metrics fl props polled) [] c in
      (c', needs_reconciliation c' job.dev, w)

  -- `scrapeOnce`
  unfoldable pub scrape_once : ScrapeJob F → Cache F → W → Cache F × Bool × W
  unfolding finish_scrape choose_metrics
  scrape_once job c w =
      let choice =
        choose_metrics (λ epc. should_skip_poll job.started c job.dev epc (job.interval * 2))
          job.metrics nothing_chosen in
      if length choice.epcs == 0
      then (c, false, w)
      else finish_scrape job (keep (λ m. not (has m.epc choice.skipped)) job.metrics)
          (get_props tr job.dev.ip job.eoj choice.epcs w) c
