-- ===== src/Client.antt =====
-- internal/echonet/client.go: Get requests that are split while the device leaves codes out, and the
-- values of the properties that come back. The transport is an interface; its state goes through
-- every call.
pub mod Merge
pub mod Splits
pub mod Parts
pub mod Adaptive
pub mod Requests
use echonet_go.Base.{
  ℕ, zero, suc, ◌+◌, ◌/◌, Bool, true, false, not, ◌&&◌, ◌||◌, Option, none, some, List, [], ◌∷◌,
  ltb, leb, ◌==◌, if◌then◌else◌, length, take, drop, keep, map, Result, ok, err,
}
use echonet_go.Base.Maps.{ByteSet, has, add, lookup, insert, byte_key}
use echonet_go.Base.Texts.{Text}
use echonet_go.Protocol.{
  Property, Eoj, FrameError, no_epcs, no_properties, Parsed, get_request, parse_get_res, is_get_sna,
  set_request, set_i_request, parse_set_res,
}

-- What the client uses of `Transport`: `NextTID`, `Send` and `SendFireAndForget`, over the state `W`
-- of the transport and of the network behind it.
pub record Transport : Type 1 where
  pub W : Type 0
  pub next_tid : W → ℕ × W
  pub send : W → Text → List ℕ → ℕ → Result FrameError (List ℕ) × W
  pub send_fire_and_forget : W → Text → List ℕ → Option FrameError × W

abbrev pub max_adaptive_split_depth : ℕ
max_adaptive_split_depth = 8

abbrev pub epcs_of : List Property → List ℕ
epcs_of = map (λ p. p.epc)

-- `missingEPCs`
unfoldable pub missing_epcs : List ℕ → List Property → List ℕ
missing_epcs requested props = keep (λ e. not (has e (epcs_of props))) requested

-- `splitEPCs`
unfoldable pub split_epcs : List ℕ → List ℕ × List ℕ
split_epcs epcs =
    if leb (length epcs) 1
    then (epcs, [])
    else let half = length epcs / 2 in
      let mid = if half == 0 then 1 else half in (take mid epcs, drop mid epcs)

-- `containsAny`
unfoldable pub contains_any : List ℕ → List ℕ → Bool
contains_any [] set = false
contains_any (v ∷ candidates) set = has v set || contains_any candidates set

abbrev pub PropMap : Type 0
PropMap = List (ℕ × Property)

-- A property takes its code's place if none is there, or if that one has no data and it has.
replaces : Option Property → Property → Bool
replaces none p = true
replaces (some existing) p = length existing.edt == 0 && ltb 0 (length p.edt)

-- `mergeProps`
unfoldable pub merge_props : PropMap → List Property → PropMap
unfolding replaces
merge_props dst [] = dst
merge_props dst (p ∷ src) =
    merge_props (if replaces (lookup p.epc dst) p then insert p.epc p dst else dst) src

-- `propsToMap`, the same loop from the empty map.
unfoldable pub props_to_map : List Property → PropMap
unfolding merge_props
props_to_map = merge_props []

-- `sort.Ints` on the keys.
unfoldable pub insert_sorted : ℕ → List ℕ → List ℕ
insert_sorted x [] = x ∷ []
insert_sorted x (y ∷ ys) = let rest = insert_sorted x ys in if leb x y then x ∷ y ∷ ys else y ∷ rest

unfoldable pub sort_ints : List ℕ → List ℕ
unfolding insert_sorted
sort_ints [] = []
sort_ints (x ∷ xs) = insert_sorted x (sort_ints xs)

abbrev pub keys : PropMap → List ℕ
keys = map (λ e. e.0)

cons_some : Option Property → List Property → List Property
cons_some none ps = ps
cons_some (some p) ps = p ∷ ps

-- The properties of the map at these keys, in order.
unfoldable pub values_at : PropMap → List ℕ → List Property
unfolding cons_some
values_at m [] = []
values_at m (k ∷ ks) = cons_some (lookup k m) (values_at m ks)

-- `mapToProps`
unfoldable pub map_to_props : PropMap → List Property
unfolding sort_ints values_at
map_to_props m = values_at m (sort_ints (keys m))

-- The properties of a reply that count: with Get_SNA, those that have data.
unfoldable pub usable_props : Parsed → List Property
usable_props r = if is_get_sna r.error then keep (λ p. ltb 0 p.pdc) r.props else r.props

-- `err != nil && !isGetSNA(err)`
unfoldable pub refused : Parsed → Option FrameError
refused r = if is_get_sna r.error then none else r.error

module _ (tr : Transport) (addr : Text) (eoj : Eoj) where
  open tr use {W, next_tid, send, send_fire_and_forget}

  -- `SendGet`
  unfoldable pub send_get : W → List ℕ → Result FrameError (List ℕ) × W
  send_get w [] = (err no_epcs, w)
  send_get w (e ∷ epcs) =
      let (tid, w') = next_tid w in send w' addr (get_request tid eoj (e ∷ epcs)) tid

  accept_set_res : Option FrameError → List ℕ → W → Result FrameError (List ℕ) × W
  accept_set_res none raw w = (ok raw, w)
  accept_set_res (some e) raw w = (err e, w)

  -- The reply of a SetC is one that says so.
  unfoldable pub check_set_res : Result FrameError (List ℕ) × W → Result FrameError (List ℕ) × W
  unfolding accept_set_res
  check_set_res (err e, w) = (err e, w)
  check_set_res (ok raw, w) = accept_set_res (parse_set_res raw).error raw w

  -- `SendSet`; the reply that comes with an error is read by no caller.
  unfoldable pub send_set : ℕ → List ℕ → W → Result FrameError (List ℕ) × W
  unfolding check_set_res
  send_set epc edt w =
      let (tid, w') = next_tid w in check_set_res (send w' addr (set_request tid eoj epc edt) tid)

  -- `SendSetI`
  unfoldable pub send_set_i : ℕ → List ℕ → W → Option FrameError × W
  send_set_i epc edt w =
      let (tid, w') = next_tid w in send_fire_and_forget w' addr (set_i_request tid eoj epc edt)

  -- The merge behind a part's answer: a part that failed is passed over.
  merge_part : PropMap → Result FrameError (List Property) × W → PropMap × W
  merge_part merged (ok props, w) = (merge_props merged props, w)
  merge_part merged (err e, w) = (merged, w)

  -- A part of a split: asked for if something in it is missing.
  unfoldable pub ask_part :
      (List ℕ → W → Result FrameError (List Property) × W)
      → List ℕ
      → List ℕ
      → PropMap
      → W
      → PropMap × W
  unfolding merge_part
  ask_part ask missing part merged w =
      if length part == 0 || not (contains_any part missing)
      then (merged, w)
      else merge_part merged (ask part w)

  finish_split : PropMap → Result FrameError (List Property)
  finish_split merged =
      let out = map_to_props merged in if length out == 0 then err no_properties else ok out

  -- Both parts, in order, on top of what the first answer held.
  unfoldable pub ask_parts :
      (List ℕ → W → Result FrameError (List Property) × W)
      → List ℕ
      → List Property
      → W
      → Result FrameError (List Property) × W
  unfolding ask_part finish_split
  ask_parts ask epcs props w =
      let missing = missing_epcs epcs props in
      let (left, right) = split_epcs epcs in
      let (merged, w1) = ask_part ask missing left (props_to_map props) w in
      let (merged', w2) = ask_part ask missing right merged w1 in (finish_split merged', w2)

  -- At the depth limit there is no recursive call, and what came back stands.
  split_or_keep :
      Option (List ℕ → W → Result FrameError (List Property) × W)
      → List ℕ
      → List Property
      → W
      → Result FrameError (List Property) × W
  split_or_keep none epcs props w = (ok props, w)
  split_or_keep (some ask) epcs props w = ask_parts ask epcs props w

  unless_refused :
      Option FrameError
      → W
      → Result FrameError (List Property) × W
      → Result FrameError (List Property) × W
  unless_refused (some e) w r = (err e, w)
  unless_refused none w r = r

  -- `getPropsAdaptive` behind the reply. `ask` is the recursive call, absent at the depth limit.
  unfoldable pub after_reply :
      Option (List ℕ → W → Result FrameError (List Property) × W)
      → List ℕ
      → Result FrameError (List ℕ) × W
      → Result FrameError (List Property) × W
  unfolding split_or_keep unless_refused
  after_reply ask epcs (err e, w) = (err e, w)
  after_reply ask epcs (ok raw, w) =
      let r = parse_get_res raw in
      let props = usable_props r in
      unless_refused (refused r) w (
        if length (missing_epcs epcs props) == 0 || leb (length epcs) 1
        then (ok props, w)
        else split_or_keep ask epcs props w)

  -- `getPropsAdaptive`; the first argument is the depth that is left.
  unfoldable pub get_props_adaptive : ℕ → List ℕ → W → Result FrameError (List Property) × W
  unfolding send_get after_reply
  get_props_adaptive zero epcs w = after_reply none epcs (send_get w epcs)
  get_props_adaptive (suc depth) epcs w =
      after_reply (some (λ part w'. get_props_adaptive depth part w')) epcs (send_get w epcs)

  -- `GetProps`
  unfoldable pub get_props : List ℕ → W → Result FrameError (List Property) × W
  unfolding get_props_adaptive
  get_props = get_props_adaptive max_adaptive_split_depth
