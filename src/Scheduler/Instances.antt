-- ===== src/Scheduler/Instances.antt =====
-- internal/poller/scheduler.go: which instances a node profile lists, and which one is polled.
use echonet_go.Base.{
  ℕ, ◌≡◌, ◌*◌, ◌/◌, refl, ap, Bool, true, false, not, ◌||◌, Option, none, some, List, [], ◌∷◌, ◌++◌,
  ltb, ◌==◌, ==_iff, if◌then◌else◌, length, Result, ok, err, arith, le→ltb, length-append,
  Bool-cases, inl, inr,
}
use echonet_go.Base.Maps.{lookup, text_key}
use echonet_go.Cache.{Device, or_else}
use echonet_go.Base.Texts.{Text}
use echonet_go.Client.{Transport}
use echonet_go.Protocol.{Eoj, FrameError, Property}
use echonet_go.Scheduler.{
  read_instances, decode_instance_list, select_eoj_from_instances, instances_in, sweep_instances,
  HostCache, probe_eoj, sweep, is_probe_timeout, store_instances, ask_node_profile, resolve_cached,
  resolve_eoj_from_node_profile, probe_configured, resolved, resolve_eoj_instance,
}

-- The bytes of a list of objects, three for each.
abbrev pub instance_bytes : List Eoj → List ℕ
instance_bytes [] = []
instance_bytes (e ∷ es) = e.b0 ∷ e.b1 ∷ e.b2 ∷ instance_bytes es

length-instance_bytes : (es : List Eoj) → length (instance_bytes es) ≡ 3 * length es
length-instance_bytes [] = refl
length-instance_bytes (e ∷ es) = omega (arith, length-instance_bytes es)

read_instances-bytes :
    (es : List Eoj) (rest : List ℕ) → read_instances (length es) (instance_bytes es ++ rest) ≡ es
unfolding read_instances
read_instances-bytes [] rest = refl
read_instances-bytes (e ∷ es) rest = ap (◌∷◌ e) (read_instances-bytes es rest)

-- An instance list is decoded to the objects that it lists, whatever follows them.
pub decode_instance_list-bytes :
    (es : List Eoj) (rest : List ℕ)
    → decode_instance_list (length es ∷ (instance_bytes es ++ rest)) ≡ es
unfolding decode_instance_list
decode_instance_list-bytes es rest =
    let room : ltb (length (instance_bytes es ++ rest) / 3) (length es) ≡ false =
      le→ltb (length (instance_bytes es ++ rest) / 3) (length es)
        (omega (arith, length-append (instance_bytes es) rest, length-instance_bytes es)) in
    rw room (read_instances-bytes es rest)

abbrev pub SameClass : Eoj → Eoj → Type 0
SameClass a b = (a.b0 ≡ b.b0) × (a.b1 ≡ b.b1)

abbrev pub AllSame : Eoj → Option Eoj → Type 0
AllSame configured none = Unit
AllSame configured (some e) = SameClass e configured

select-AllSame :
    (configured : Eoj) (es : List Eoj)
    → AllSame configured (select_eoj_from_instances configured es)
unfolding select_eoj_from_instances
select-AllSame configured [] = tt
select-AllSame configured (e ∷ es) =
    elim (Bool-cases (not (e.b0 == configured.b0) || not (e.b1 == configured.b1))) [
      | inl other ↦ rw other (select-AllSame configured es)
      | inr same ↦ rw same (ground (arith, ==_iff e.b0 configured.b0, ==_iff e.b1 configured.b1))
    ]

module _ (tr : Transport) where
  open tr use {W}

  sweep-SameClass :
      (ip : Text) (configured : Eoj) (insts : List ℕ) (w : W)
      → SameClass (sweep tr ip configured insts w).0 configured
  unfolding sweep
  sweep-SameClass ip configured [] w = (refl, refl)
  sweep-SameClass ip configured (inst ∷ insts) w = elim (Bool-cases (inst == configured.b2)) [
    | inl same ↦ rw same (sweep-SameClass ip configured insts w)
    | inr other ↦ rw other (
        go (λ w'. sweep-SameClass ip configured insts w')
          (probe_eoj tr ip (record configured { b2 = inst }) w))
  ]
    where
      go :
          ((w' : W) → SameClass (sweep tr ip configured insts w').0 configured)
          → (r : Bool × Option FrameError × W)
          → SameClass
              (if r.0
                then (record configured { b2 = inst }, r.2)
                else if is_probe_timeout r.1
                then (configured, r.2)
                else sweep tr ip configured insts r.2).0
              configured
      go ih (true, error, w') = (refl, refl)
      go ih (false, error, w') = elim (Bool-cases (is_probe_timeout error)) [
        | inl e ↦ rw e (refl, refl)
        | inr e ↦ rw e (ih w')
      ]

  ask_node_profile-AllSame :
      (dev : Device) (configured : Eoj) (cache : HostCache)
      (r : Result FrameError (List Property) × W)
      → AllSame configured (ask_node_profile tr dev configured cache r).0
  unfolding ask_node_profile store_instances
  ask_node_profile-AllSame dev configured cache (err e, w) = tt
  ask_node_profile-AllSame dev configured cache (ok props, w) = go (instances_in props)
    where
      go : (es : List Eoj) → AllSame configured (store_instances tr dev configured es cache w).0
      go [] = tt
      go (e ∷ es) = select-AllSame configured (e ∷ es)

  resolve_cached-AllSame :
      (dev : Device) (configured : Eoj) (cache : HostCache) (es : List Eoj) (w : W)
      → AllSame configured (resolve_cached tr dev configured cache es w).0
  unfolding resolve_cached
  resolve_cached-AllSame dev configured cache [] w = ask_node_profile-AllSame dev configured cache _
  resolve_cached-AllSame dev configured cache (e ∷ es) w = select-AllSame configured (e ∷ es)

  pick-SameClass :
      (configured : Eoj) (a b : Bool) (x y z : Eoj × HostCache × W)
      → SameClass x.0 configured
      → SameClass y.0 configured
      → SameClass z.0 configured
      → SameClass (if◌then◌else◌ {A = Eoj × HostCache × W} a x (if b then y else z)).0 configured
  pick-SameClass configured true b x y z h k l = h
  pick-SameClass configured false true x y z h k l = k
  pick-SameClass configured false false x y z h k l = l

  probe_configured-SameClass :
      (dev : Device) (configured : Eoj) (cache : HostCache) (w : W)
      → SameClass (probe_configured tr dev configured cache w).0 configured
  unfolding probe_configured
  probe_configured-SameClass dev configured cache w =
      let (found, error, w') = probe_eoj tr dev.ip configured w in
      pick-SameClass configured found (is_probe_timeout error) _ _ _ (refl, refl) (refl, refl)
        (sweep-SameClass dev.ip configured sweep_instances w')

  -- Whatever the device answers, and whatever the cache of the host holds, the object that is polled has
  -- the configured class; only its instance may differ.
  pub resolve_eoj_instance-SameClass :
      (dev : Device) (configured : Eoj) (cache : HostCache) (w : W)
      → SameClass (resolve_eoj_instance tr dev configured cache w).0 configured
  unfolding resolve_eoj_instance resolve_eoj_from_node_profile
  resolve_eoj_instance-SameClass dev configured cache w =
      go (resolve_cached tr dev configured cache (or_else (lookup dev.ip cache) []) w)
        (resolve_cached-AllSame dev configured cache (or_else (lookup dev.ip cache) []) w)
    where
      go :
          (r : Option Eoj × HostCache × W)
          → AllSame configured r.0
          → SameClass (resolved tr dev configured r).0 configured
      go (some e, cache', w') h = h
      go (none, cache', w') h = probe_configured-SameClass dev configured cache' w'
