-- ===== src/Cache/Status.antt =====
-- internal/poller/cache.go: what `Get` and `GetInfo` report of a device.
use echonet_go.Base.{
  ℕ, ◌-◌, ◌*◌, ◌≤◌, ◌≡◌, refl, Bool, true, false, ◌&&◌, Option, none, some, List, [], ◌∷◌,
  if◌then◌else◌, arith, Bool-cases, inl, inr, ltb, leb, All,
}
use echonet_go.Base.Maps.{lookup, text_key}
use echonet_go.Base.Texts.{Text, text_eq}
use echonet_go.Cache.{Cache, DeviceCache, GroupStatus, Device, device_key, device_cache}
use echonet_go.Identity.{DeviceInfo}
use echonet_go.Readings.{Readings}

-- `5 * time.Second` in nanoseconds.
abbrev pub min_ttl : ℕ
min_ttl = 5000000000

-- What `Get` returns, with the latest attempt that its loop goes by.
pub record Status (F : Type 0) : Type 0 where
  pub success : Bool
  pub duration_sec : F
  pub last_scrape : ℕ
  pub last_attempt : ℕ
  pub metrics : Readings F

module _ {F : Type 0} where
  -- How long a success of the group counts.
  unfoldable pub ttl : GroupStatus F → ℕ
  ttl gs = if ltb (gs.interval * 2) min_ttl then min_ttl else gs.interval * 2

  -- The group has succeeded, not too long ago.
  unfoldable pub is_fresh : ℕ → GroupStatus F → Bool
  unfolding ttl
  is_fresh now gs = gs.success && leb (now - gs.last_attempt) (ttl gs)

  -- The body of the loop of `Get`.
  unfoldable pub add_group : ℕ → GroupStatus F → Status F → Status F
  unfolding is_fresh
  add_group now gs s =
      let newer = ltb s.last_attempt gs.last_attempt in
      record s {
        success = if is_fresh now gs then true else s.success;
        duration_sec = if newer then gs.duration_sec else s.duration_sec;
        last_attempt = if newer then gs.last_attempt else s.last_attempt;
        last_scrape = if ltb s.last_scrape gs.last_success then gs.last_success else s.last_scrape;
      }

  unfoldable pub add_groups : ℕ → List (Text × GroupStatus F) → Status F → Status F
  unfolding add_group
  add_groups now [] s = s
  add_groups now ((gid, gs) ∷ groups) s = add_groups now groups (add_group now gs s)

  unfoldable pub status_of : ℕ → F → Option (DeviceCache F) → Status F
  unfolding add_groups
  status_of now zero' none = record {
    success = false;
    duration_sec = zero';
    last_scrape = 0;
    last_attempt = 0;
    metrics = [];
  }
  status_of now zero' (some dc) = add_groups now dc.groups (record {
    success = false;
    duration_sec = zero';
    last_scrape = 0;
    last_attempt = 0;
    metrics = dc.metrics;
  })

  -- `Get` at the time `now`; `zero'` is the float 0.
  unfoldable pub get : ℕ → F → Cache F → Device → Status F
  unfolding status_of
  get now zero' c dev = status_of now zero' (lookup (device_key dev) c.metrics)

  -- `GetInfo`
  unfoldable pub get_info : Cache F → Device → DeviceInfo
  unfolding device_cache
  get_info c dev = (device_cache c (device_key dev)).info

  success-stays :
      (now : ℕ) (groups : List (Text × GroupStatus F)) (s : Status F)
      → s.success ≡ true
      → (add_groups now groups s).success ≡ true
  unfolding add_groups add_group
  success-stays now [] s h = h
  success-stays now ((gid, gs) ∷ groups) s h = success-stays now groups _ (ground (arith))

  -- A fresh success of one group is enough.
  pub success-lookup :
      (now : ℕ) (key : Text) (groups : List (Text × GroupStatus F)) (s : Status F)
      {gs : GroupStatus F}
      → lookup key groups ≡ some gs
      → is_fresh now gs ≡ true
      → (add_groups now groups s).success ≡ true
  unfolding add_groups add_group lookup
  success-lookup now key [] s h f = absurd (cc)
  success-lookup now key ((gid, g) ∷ groups) s {gs} h f = elim (Bool-cases (text_eq gid key)) [
    | inl same ↦ let e : g ≡ gs = ground (arith) in success-stays now groups _ (rw (e, f) refl)
    | inr other ↦ success-lookup now key groups _ {gs = gs} (ground (arith)) f
  ]

  last_scrape-grows :
      (now : ℕ) (groups : List (Text × GroupStatus F)) (s : Status F)
      → s.last_scrape ≤ (add_groups now groups s).last_scrape
  unfolding add_groups add_group
  last_scrape-grows now [] s = omega arith
  last_scrape-grows now ((gid, gs) ∷ groups) s =
      let k = last_scrape-grows now groups (add_group now gs s) in ground (arith, k)

  pub last_scrape-lookup :
      (now : ℕ) (key : Text) (groups : List (Text × GroupStatus F)) (s : Status F)
      {gs : GroupStatus F}
      → lookup key groups ≡ some gs
      → gs.last_success ≤ (add_groups now groups s).last_scrape
  unfolding add_groups add_group lookup
  last_scrape-lookup now key [] s h = absurd (cc)
  last_scrape-lookup now key ((gid, g) ∷ groups) s {gs} h = elim (Bool-cases (text_eq gid key)) [
    | inl same ↦
        let e : g ≡ gs = ground (arith) in
        let k = last_scrape-grows now groups (add_group now g s) in rw (← e) (ground (arith, k))
    | inr other ↦ last_scrape-lookup now key groups _ {gs = gs} (ground (arith))
  ]

  pub last_scrape-bound :
      (now top : ℕ) (groups : List (Text × GroupStatus F)) (s : Status F)
      → All (λ (g : Text × GroupStatus F). g.1.last_success ≤ top) groups
      → s.last_scrape ≤ top
      → (add_groups now groups s).last_scrape ≤ top
  unfolding add_groups add_group
  last_scrape-bound now top [] s h k = k
  last_scrape-bound now top ((gid, gs) ∷ groups) s h k =
      last_scrape-bound now top groups _ h.1 (ground (arith, h.0))

  pub metrics-stay :
      (now : ℕ) (groups : List (Text × GroupStatus F)) (s : Status F)
      → (add_groups now groups s).metrics ≡ s.metrics
  unfolding add_groups add_group
  metrics-stay now [] s = refl
  metrics-stay now ((gid, gs) ∷ groups) s = metrics-stay now groups _
