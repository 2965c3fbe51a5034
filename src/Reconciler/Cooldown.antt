-- ===== src/Reconciler/Cooldown.antt =====
-- internal/poller/reconciler.go: how often `ReconcileDevice` asks a device, whatever is called meanwhile.
use echonet_go.Base.{ℕ, ◌≡◌, ◌≤◌, Bool, true, some, List, [], ◌∷◌}
use echonet_go.Base.Maps.{lookup, text_key}
use echonet_go.Base.Texts.{Text}
use echonet_go.Cache.{Cache, Device}
use echonet_go.Reconciler.{Attempts, reconcile_device, note_refresh}

-- A call of `ReconcileDevice` or of `RefreshDevice`, with its time.
pub data Call (F : Type 0) : Type 0 where
  reconciles : ℕ → Cache F → Device → Call F
  refreshes : ℕ → Device → Call F

abbrev pub time_of : {F : Type 0} → Call F → ℕ
time_of (reconciles now c dev) = now
time_of (refreshes now dev) = now

abbrev pub device_of : {F : Type 0} → Call F → Device
device_of (reconciles now c dev) = dev
device_of (refreshes now dev) = dev

-- Whether a call starts a task, and the attempts behind it.
unfoldable pub call : {F : Type 0} → Call F → Attempts → Bool × Attempts
call (reconciles now c dev) attempts = reconcile_device now c dev attempts
call (refreshes now dev) attempts = (true, note_refresh now dev attempts)

unfoldable pub run_calls : {F : Type 0} → List (Call F) → Attempts → Attempts
unfolding call
run_calls [] attempts = attempts
run_calls (x ∷ calls) attempts = run_calls calls (call x attempts).1

-- The last attempt under the key is not before this time.
abbrev IsNoted : Text → ℕ → Attempts → Type 0
IsNoted key t attempts = (u : ℕ) × (lookup key attempts ≡ some u) × (t ≤ u)
