-- ===== src/Cache/Push.antt =====
-- internal/poller/cache.go: which codes a poll leaves out, `RecordPush` and `ShouldSkipPoll`.
use echonet_go.Base.{
  ℕ, ◌+◌, ◌≡◌, refl, not, ◌&&◌, some, List, [], ◌∷◌, if◌then◌else◌, arith, Bool-cases, inl, inr,
  ltb,
}
use echonet_go.Base.Maps.{has, lookup, insert, lookup-insert, text_key, byte_key}
use echonet_go.Base.Texts.{Text, text_eq}
use echonet_go.Cache.{
  Cache, Device, device_key, or_else, push_all, record_push, should_skip_poll, in_set,
  pushed_within,
}

-- The time that a code has after a push: the time of the push if it was in it.
lookup-push_all :
    (e : ℕ) (epcs : List ℕ) (now : ℕ) (times : List (ℕ × ℕ))
    → lookup e (push_all epcs now times) ≡ (if has e epcs then some now else lookup e times)
unfolding push_all has
lookup-push_all e [] now times = refl
lookup-push_all e (x ∷ epcs) now times =
    ground (arith, lookup-push_all e epcs now (insert x now times), lookup-insert x e now times)

-- The times of a device after a push to a device, which may be another one.
times-push :
    (t : ℕ) (dev d : Text) (epcs : List ℕ) (e : ℕ) (m : List (Text × List (ℕ × ℕ)))
    → lookup e (or_else (lookup d (insert dev (push_all epcs t (or_else (lookup dev m) [])) m)) [])
      ≡ (if text_eq dev d && has e epcs then some t else lookup e (or_else (lookup d m) []))
times-push t dev d epcs e m = rw (lookup-insert dev d) (elim (Bool-cases (text_eq dev d)) [
  | inr other ↦ rw other refl
  | inl same ↦
      rw same
        (rw ((text_key.beq_iff dev d).0 same) (lookup-push_all e epcs t (or_else (lookup d m) [])))
])

module _ {F : Type 0} where
  -- After a push of some codes of a device at time `t`, a poll leaves out such a code of that device
  -- exactly if polling is not forced, the device has announced that it pushes the code, and the push is
  -- less than `freshness` old. For any other code or device nothing has changed.
  pub should_skip_poll-record_push :
      (t now : ℕ) (c : Cache F) (dev d : Device) (epcs : List ℕ) (epc freshness : ℕ)
      → should_skip_poll now (record_push t dev epcs c) d epc freshness ≡ (
          if text_eq (device_key dev) (device_key d) && has epc epcs
          then not c.force_polling
            && (in_set epc (lookup (device_key d) c.notify_epcs) && ltb now (t + freshness))
          else should_skip_poll now c d epc freshness)
  unfolding should_skip_poll record_push
  should_skip_poll-record_push t now c dev d epcs epc freshness =
      rw (times-push t (device_key dev) (device_key d) epcs epc c.last_push)
        (elim (Bool-cases (text_eq (device_key dev) (device_key d) && has epc epcs)) [
          | inl e ↦ rw e (unfold pushed_within in ground arith)
          | inr e ↦ rw e refl
        ])
