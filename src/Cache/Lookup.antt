-- ===== src/Cache/Lookup.antt =====
-- internal/poller/cache.go: which device a notification belongs to, `FindDeviceByIPAndEOJ`.
use echonet_go.Base.{
  ◌≡◌, refl, Bool, true, false, ◌&&◌, none, some, List, [], ◌∷◌, ◌++◌, ◌⊎◌, ap, arith, Bool-cases,
  inl, inr, All,
}
use echonet_go.Base.Maps.{lookup, text_key}
use echonet_go.Base.Texts.{Text, text_eq}
use echonet_go.Cache.{Cache, Device, device_key, find_device_by_ip_and_eoj, eoj_matches}
use echonet_go.Protocol.{Eoj}

module _ {F : Type 0} (c : Cache F) (ip : Text) (seoj : Eoj) where
  -- The device has this address, and its object is known and is this one.
  abbrev pub is_sender : Device → Bool
  is_sender dev = text_eq dev.ip ip && eoj_matches (lookup (device_key dev) c.eoj_by_dev) seoj

  -- The device is the first sender of the list.
  pub record IsFirst (devices : List Device) (dev : Device) : Type 0 where
    pub before : List Device
    pub after : List Device
    pub splits : devices ≡ before ++ (dev ∷ after)
    pub matches : is_sender dev ≡ true
    pub none_before : All (λ d. is_sender d ≡ false) before

  -- The result is the first device of the list with the address of the notification whose known object
  -- is the one that sent it; there is no result exactly where there is no such device.
  pub find_device_by_ip_and_eoj_lem :
      (devices : List Device)
      → ((dev : Device) × (find_device_by_ip_and_eoj c ip seoj devices ≡ some dev)
          × IsFirst devices dev)
        ⊎ ((find_device_by_ip_and_eoj c ip seoj devices ≡ none)
            × All (λ d. is_sender d ≡ false) devices)
  unfolding find_device_by_ip_and_eoj
  find_device_by_ip_and_eoj_lem [] = inr (refl, tt)
  find_device_by_ip_and_eoj_lem (d ∷ devices) = elim (Bool-cases (is_sender d)) [
    | inr e ↦ elim (find_device_by_ip_and_eoj_lem devices) [
      | inl (dev, found, first) ↦ inl (
        dev,
        ground (arith),
        record {
          before = d ∷ first.before;
          after = first.after;
          splits = ap (◌∷◌ d) first.splits;
          matches = first.matches;
          none_before = (e, first.none_before);
        },
      )
      | inr (none', all) ↦ inr (ground (arith), (e, all))
    ]
    | inl e ↦ inl (
      d,
      ground (arith),
      record { before = []; after = devices; splits = refl; matches = e; none_before = tt },
    )
  ]
