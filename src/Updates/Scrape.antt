-- ===== src/Updates/Scrape.antt =====
-- internal/poller/cache.go: what `Get` reports after a scrape.
use echonet_go.Base.{
  ℕ, ◌+◌, ◌*◌, ◌≤◌, ◌≡◌, ◌∙◌, sym, ap, refl, Bool, true, false, ◌⊎◌, some, List, if◌then◌else◌,
  arith, Bool-cases, Option-cases, inl, inr, All, All-map,
}
use echonet_go.Base.Maps.{lookup, insert, insert_all, lookup-insert, insert-All, beq_self, text_key}
use echonet_go.Base.Texts.{Text, text_eq}
use echonet_go.Cache.{Cache, DeviceCache, GroupStatus, Device, device_key, device_cache, or_else}
use echonet_go.Cache.Status.{
  Status, add_groups, get, status_of, is_fresh, ttl, min_ttl, success-lookup, last_scrape-lookup,
  last_scrape-bound, metrics-stay,
}
use echonet_go.Floats.{Float64, zero_float}
use echonet_go.Readings.{Readings}
use echonet_go.Updates.{publish, store_device, new_group, update_group, update_device, update}
use echonet_go.Updates.History.{IsConsistent, CacheOk, GroupsOk, device_cache-Ok}

module _ {F : Type 0} where
  pub device_cache-store :
      (dev : Device) (dc : DeviceCache F) (c : Cache F) (key : Text)
      → device_cache (store_device dev dc c) key
        ≡ (if text_eq (device_key dev) key then dc else device_cache c key)
  unfolding device_cache
  device_cache-store dev dc c key =
      rw (lookup-insert (device_key dev) key dc c.metrics) (ground arith)

  pub metrics-publish :
      (dev : Device) (dc : DeviceCache F) (b : Bool) (c : Cache F)
      → (publish dev dc b c).metrics ≡ c.metrics
  unfolding publish
  metrics-publish dev dc b c = ground arith

module _ (fl : Float64) where
  open fl use {F}

  lookup-update :
      (now : ℕ) (dev : Device) (gid : Text) (interval : ℕ) (success : Bool) (duration : F)
      (metrics : Readings F) (msg : Text) (c : Cache F) (key : Text)
      → lookup key (update fl now dev gid interval success duration metrics msg c).metrics ≡ (
          if text_eq (device_key dev) key
          then some (
              update_device fl now gid interval success duration metrics msg
                (device_cache c (device_key dev)))
          else lookup key c.metrics)
  unfolding update
  lookup-update now dev gid interval success duration metrics msg c key =
      let dc : DeviceCache F =
        update_device fl now gid interval success duration metrics msg
          (device_cache c (device_key dev)) in
      ap (lookup key) (metrics-publish dev dc success (store_device dev dc c))
      ∙ lookup-insert (device_key dev) key dc c.metrics

  -- A report of success with its last scrape at `now`, and these metrics.
  pub record IsReport (now : ℕ) (metrics : Readings F) (s : Status F) : Type 0 where
    pub succeeded : s.success ≡ true
    pub scraped : s.last_scrape ≡ now
    pub values : s.metrics ≡ metrics

  update_group-fresh :
      (now wait interval : ℕ) (duration : F) (msg : Text) (gs : GroupStatus F)
      → (wait ≤ min_ttl) ⊎ (wait ≤ interval * 2)
      → is_fresh (now + wait) (update_group fl now interval true duration msg gs) ≡ true
  unfolding is_fresh update_group ttl
  update_group-fresh now wait interval duration msg gs (inl h) = ground arith
  update_group-fresh now wait interval duration msg gs (inr h) = ground arith

  add_groups-insert :
      (now wait : ℕ) (gid : Text) (gs : GroupStatus F) (groups : List (Text × GroupStatus F))
      (s : Status F)
      → All (λ (g : Text × GroupStatus F). IsConsistent F now g.1) groups
      → s.last_scrape ≤ now
      → gs.last_success ≡ now
      → is_fresh (now + wait) gs ≡ true
      → IsReport now s.metrics (add_groups (now + wait) (insert gid gs groups) s)
  add_groups-insert now wait gid gs groups s h z t f = record {
    succeeded = success-lookup (now + wait) gid (insert gid gs groups) s {gs = gs} found f;
    scraped = omega (arith, lower, upper, t);
    values = metrics-stay (now + wait) (insert gid gs groups) s;
  }
    where
      found : lookup gid (insert gid gs groups) ≡ some gs
      found = lookup-insert gid gid gs groups ∙ rw (beq_self gid) refl

      lower : gs.last_success ≤ (add_groups (now + wait) (insert gid gs groups) s).last_scrape
      lower = last_scrape-lookup (now + wait) gid (insert gid gs groups) s {gs = gs} found

      upper : (add_groups (now + wait) (insert gid gs groups) s).last_scrape ≤ now
      upper =
          last_scrape-bound (now + wait) now (insert gid gs groups) s
            (insert-All (λ (g : Text × GroupStatus F). g.1.last_success ≤ now) gid gs groups
              (omega (arith, t)) (All-map _ _ groups (λ g k. omega (arith, k.ordered, k.past)) h))
            z

  status_of-update_device :
      (now wait : ℕ) (gid : Text) (interval : ℕ) (duration : F) (metrics : Readings F) (msg : Text)
      (dc : DeviceCache F)
      → GroupsOk fl now dc
      → (wait ≤ min_ttl) ⊎ (wait ≤ interval * 2)
      → IsReport now (insert_all metrics dc.metrics) (
          status_of
            (now + wait)
            (zero_float fl)
            (some (update_device fl now gid interval true duration metrics msg dc)))
  unfolding status_of update_device update_group
  status_of-update_device now wait gid interval duration metrics msg dc h w =
      let gs : GroupStatus F =
        update_group fl now interval true duration msg
          (or_else (lookup gid dc.groups) (new_group fl)) in
      add_groups-insert now wait gid gs dc.groups _ h (omega arith) refl (
        update_group-fresh now wait interval duration msg
          (or_else (lookup gid dc.groups) (new_group fl)) w)

  -- In a cache whose scrape groups are consistent: after a successful scrape, and for twice the
  -- interval of its group or five seconds, the longer of both, `Get` reports success, the time of
  -- this scrape as the last one, and the metrics that were stored before with the new ones written
  -- over them.
  pub get-update :
      (now wait : ℕ) (dev : Device) (gid : Text) (interval : ℕ) (duration : F)
      (metrics : Readings F) (msg : Text) (c : Cache F)
      → CacheOk fl now c
      → (wait ≤ min_ttl) ⊎ (wait ≤ interval * 2)
      → IsReport now (insert_all metrics (device_cache c (device_key dev)).metrics) (
          get
            (now + wait)
            (zero_float fl)
            (update fl now dev gid interval true duration metrics msg c)
            dev)
  unfolding get
  get-update now wait dev gid interval duration metrics msg c h w =
      rw
        (
          lookup-update now dev gid interval true duration metrics msg c (device_key dev),
          beq_self (device_key dev),
        )
        (status_of-update_device now wait gid interval duration metrics msg
          (device_cache c (device_key dev)) (device_cache-Ok fl now c (device_key dev) h) w)

  -- A scrape, successful or not, changes nothing that `Get` reports of a device with another key.
  pub get-update_other :
      (now later : ℕ) (dev d : Device) (gid : Text) (interval : ℕ) (success : Bool) (duration : F)
      (metrics : Readings F) (msg : Text) (c : Cache F)
      → text_eq (device_key dev) (device_key d) ≡ false
      → get later (zero_float fl) (update fl now dev gid interval success duration metrics msg c) d
        ≡ get later (zero_float fl) c d
  unfolding get
  get-update_other now later dev d gid interval success duration metrics msg c other =
      rw (lookup-update now dev gid interval success duration metrics msg c (device_key d), other)
        refl

  get-metrics :
      (now : ℕ) (c : Cache F) (d : Device)
      → (get now (zero_float fl) c d).metrics ≡ (device_cache c (device_key d)).metrics
  unfolding get status_of device_cache
  get-metrics now c d = elim (Option-cases (lookup (device_key d) c.metrics)) [
    | inl e ↦ rw e refl
    | inr (dc, e) ↦ rw e (metrics-stay now dc.groups _)
  ]

  update_failed-metrics :
      (now : ℕ) (dev d : Device) (gid : Text) (interval : ℕ) (duration : F) (metrics : Readings F)
      (msg : Text) (c : Cache F)
      → (device_cache
          (update fl now dev gid interval false duration metrics msg c)
          (device_key d)).metrics
        ≡ (device_cache c (device_key d)).metrics
  unfolding device_cache update_device update_group
  update_failed-metrics now dev d gid interval duration metrics msg c =
      elim (Bool-cases (text_eq (device_key dev) (device_key d))) [
        | inl same ↦
            rw
              (lookup-update now dev gid interval false duration metrics msg c (device_key d), same)
              (rw ((text_key.beq_iff (device_key dev) (device_key d)).0 same) refl)
        | inr other ↦
            rw
              (
                lookup-update now dev gid interval false duration metrics msg c (device_key d),
                other,
              )
              refl
      ]

  -- A failed scrape loses no metric: `Get` reports the same metrics of every device as before.
  pub get-update_failed :
      (now later : ℕ) (dev d : Device) (gid : Text) (interval : ℕ) (duration : F)
      (metrics : Readings F) (msg : Text) (c : Cache F)
      → (get later
          (zero_float fl)
          (update fl now dev gid interval false duration metrics msg c)
          d).metrics
        ≡ (get later (zero_float fl) c d).metrics
  get-update_failed now later dev d gid interval duration metrics msg c =
      get-metrics later (update fl now dev gid interval false duration metrics msg c) d
      ∙ update_failed-metrics now dev d gid interval duration metrics msg c
      ∙ sym (get-metrics later c d)
