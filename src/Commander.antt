-- ===== src/Commander.antt =====
-- internal/mqtt/commander.go: commands that arrive over MQTT. A handler runs on the state of the
-- transport and keeps a list of what it did, the latest first: the requests it sent, and the tasks it
-- started, which run after it returns. Log lines are left out; `commandTimeout` is the transport's.
pub mod Values
pub mod Kept
pub mod Messages
pub mod Single
pub mod Several
pub mod Safety
pub mod Handlers
pub mod Routing
pub mod Verify
pub mod Stored
pub mod Outcome
pub mod Topics
use echonet_go.Base.{
  ℕ, Bool, true, false, Option, none, some, List, [], ◌∷◌, ◌++◌, if◌then◌else◌, Result, ok, err,
}
use echonet_go.Base.Maps.{ByteSet, has}
use echonet_go.Base.Texts.{Text, text}
use echonet_go.Cache.{Device}
use echonet_go.Client.{Transport, send_set, send_set_i}
use echonet_go.Protocol.{Eoj, FrameError}

-- `pendingUpdate`: a code and the data that was written.
abbrev pub PendingUpdate : Type 0
PendingUpdate = ℕ × List ℕ

pub data Effect : Type 0 where
  -- `SendSet` and `SendSetI`, whatever their result.
  set_c : Device → ℕ → List ℕ → Effect
  set_i : Device → ℕ → List ℕ → Effect
  -- `ReconcileDevice`
  reconcile : Device → Eoj → Effect
  -- `verifyStateUpdate` and `triggerStateUpdate`
  verify : Device → List PendingUpdate → Effect
  trigger : Device → List ℕ → Effect

pub record Station (W : Type 0) : Type 0 where
  pub world : W
  pub effects : List Effect

-- `operationStatusEPC`
abbrev pub operation_status : ℕ
operation_status = 0x80

-- `addrPort`
abbrev pub addr_port : Text
addr_port = text ":3610"

-- A code may be set if the map has it, or if there is no map.
unfoldable pub may_set : Option ByteSet → ℕ → Bool
may_set none epc = true
may_set (some writable) epc = has epc writable

module _ {W : Type 0} where
  abbrev pub note : Effect → Station W → Station W
  note e st = record st { effects = e ∷ st.effects }

  -- The reconciler is called if there is one and the device has no map.
  unfoldable pub note_missing_map : Bool → Device → Eoj → Option ByteSet → Station W → Station W
  note_missing_map true dev eoj none st = note (reconcile dev eoj) st
  note_missing_map _ dev eoj writable st = st

  -- `checkWritable`; `healing` tells whether there is a reconciler.
  unfoldable pub check_writable :
      Bool → Device → Eoj → ℕ → Option ByteSet → Station W → Bool × Station W
  unfolding may_set note_missing_map
  check_writable healing dev eoj epc writable st =
      (may_set writable epc, note_missing_map healing dev eoj writable st)

  -- `if !c.checkWritable(...) { return }`, and what follows.
  unfoldable pub when_writable :
      Bool → Device → Eoj → ℕ → Option ByteSet → (Station W → Station W) → Station W → Station W
  unfolding check_writable
  when_writable healing dev eoj epc writable rest st =
      let (allowed, st') = check_writable healing dev eoj epc writable st in
      if allowed then rest st' else st'

module _ (tr : Transport) (dev : Device) (eoj : Eoj) where
  open tr use {W}

  -- `dev.IP + addrPort`
  abbrev pub addr_of : Text
  addr_of = dev.ip ++ addr_port

  unfoldable pub after_set :
      ℕ
      → List ℕ
      → (Station W → Station W)
      → (Station W → Station W)
      → List Effect
      → Result FrameError (List ℕ) × W
      → Station W
  after_set epc edt failed done effects (ok raw, w) =
      done (record { world = w; effects = set_c dev epc edt ∷ effects })
  after_set epc edt failed done effects (err e, w) =
      failed (record { world = w; effects = set_c dev epc edt ∷ effects })

  -- `SendSet`, and what follows on an error and on a reply.
  unfoldable pub set_property :
      ℕ → List ℕ → (Station W → Station W) → (Station W → Station W) → Station W → Station W
  unfolding after_set
  set_property epc edt failed done st =
      after_set epc edt failed done st.effects (send_set tr addr_of eoj epc edt st.world)

  -- `SendSetI`, whose result is logged.
  unfoldable pub set_property_i : ℕ → List ℕ → Station W → Station W
  set_property_i epc edt st = record {
    world = (send_set_i tr addr_of eoj epc edt st.world).1;
    effects = set_i dev epc edt ∷ st.effects;
  }

  -- The end of the handlers: send, read back at once after an error, and verify after a reply.
  unfoldable pub set_and_verify : ℕ → List ℕ → List ℕ → List PendingUpdate → Station W → Station W
  unfolding set_property
  set_and_verify epc edt epcs updates =
      set_property epc edt (note (trigger dev epcs)) (note (verify dev updates))
