-- ===== src/Client/Requests.antt =====
-- How many requests the adaptive split sends.
use echonet_go.Base.{
  ℕ, zero, suc, ◌+◌, ◌*◌, ◌≤◌, ◌≡◌, refl, not, ◌||◌, Option, none, some, List, [], ◌∷◌, arith, inl,
  inr, Bool-cases, ◌==◌, leb, length, Result, ok, err, length-append, ap, ◌-◌, Option-cases,
}
use echonet_go.Base.Texts.{Text}
use echonet_go.Protocol.{Property, Eoj, FrameError, parse_get_res}
use echonet_go.Client.{
  Transport, PropMap, props_to_map, missing_epcs, split_epcs, contains_any, usable_props, refused,
  send_get, merge_part, ask_part, ask_parts, unless_refused, split_or_keep, after_reply,
  get_props_adaptive, get_props,
}
use echonet_go.Client.Splits.{split_epcs_lem}

-- `sent` counts the frames that went out; a transaction number costs none, a send one at most.
pub record Counts (tr : Transport) (sent : tr.W → ℕ) : Type 0 where
  pub tid_free : (w : tr.W) → sent (tr.next_tid w).1 ≡ sent w
  pub send_one :
      (w : tr.W) (addr : Text) (req : List ℕ) (tid : ℕ)
      → sent (tr.send w addr req tid).1 ≤ suc (sent w)

module _ (tr : Transport) (addr : Text) (eoj : Eoj) (sent : tr.W → ℕ)
    (counts : Counts tr sent) where
  open tr use {W}

  send_get-sent : (w : W) (epcs : List ℕ) → sent (send_get tr addr eoj w epcs).1 ≤ suc (sent w)
  unfolding send_get
  send_get-sent w [] = omega arith
  send_get-sent w (e ∷ epcs) =
      omega (arith, counts.send_one (tr.next_tid w).1 addr _ _, counts.tid_free w)

  merge_part-sent :
      (merged : PropMap) (r : Result FrameError (List Property) × W)
      → sent (merge_part tr addr eoj merged r).1 ≡ sent r.1
  unfolding merge_part
  merge_part-sent merged (ok props, w) = refl
  merge_part-sent merged (err e, w) = refl

  ask_part-sent :
      (ask : List ℕ → W → Result FrameError (List Property) × W) (missing part : List ℕ)
      (merged : PropMap) (w : W) (n : ℕ)
      → sent (ask part w).1 ≤ sent w + n
      → sent (ask_part tr addr eoj ask missing part merged w).1 ≤ sent w + n
  unfolding ask_part
  ask_part-sent ask missing part merged w n h =
      elim (Bool-cases (length part == 0 || not (contains_any part missing))) [
        | inl skip ↦ rw skip (omega arith)
        | inr asked ↦ rw asked (omega (arith, merge_part-sent merged (ask part w)))
      ]

  -- A recursive call on `n` codes sends at most 2 n - 1 frames.
  abbrev Bounded : (List ℕ → W → Result FrameError (List Property) × W) → Type 0
  Bounded ask =
      (part : List ℕ) (w : W)
      → 1 ≤ length part
      → suc (sent (ask part w).1) ≤ sent w + 2 * length part

  abbrev IfAsked : Option (List ℕ → W → Result FrameError (List Property) × W) → Type 0
  IfAsked none = Unit
  IfAsked (some ask) = Bounded ask

  ask_parts-sent :
      (ask : List ℕ → W → Result FrameError (List Property) × W) (epcs : List ℕ)
      (props : List Property) (w : W)
      → Bounded ask
      → 2 ≤ length epcs
      → suc (suc (sent (ask_parts tr addr eoj ask epcs props w).1)) ≤ sent w + 2 * length epcs
  unfolding ask_parts
  ask_parts-sent ask epcs props w b two =
      let (whole, l, r, lk, rk) = split_epcs_lem epcs (length epcs) two (omega arith) in
      let left = (split_epcs epcs).0 in
      let right = (split_epcs epcs).1 in
      let missing = missing_epcs epcs props in
      let mid = ask_part tr addr eoj ask missing left (props_to_map props) w in
      omega (
        arith,
        ap length whole,
        length-append left right,
        ask_part-sent ask missing left (props_to_map props) w (2 * length left - 1)
            (omega (arith, b left w l)),
        ask_part-sent ask missing right mid.0 mid.1 (2 * length right - 1)
            (omega (arith, b right mid.1 r)),
      )

  split_or_keep-sent :
      (ask : Option (List ℕ → W → Result FrameError (List Property) × W)) (epcs : List ℕ)
      (props : List Property) (w : W)
      → IfAsked ask
      → 2 ≤ length epcs
      → suc (suc (sent (split_or_keep tr addr eoj ask epcs props w).1)) ≤ sent w + 2 * length epcs
  unfolding split_or_keep
  split_or_keep-sent none epcs props w b n = omega arith
  split_or_keep-sent (some ask) epcs props w b n = ask_parts-sent ask epcs props w b n

  after_reply-sent :
      (ask : Option (List ℕ → W → Result FrameError (List Property) × W)) (epcs : List ℕ)
      (r : Result FrameError (List ℕ) × W)
      → IfAsked ask
      → 1 ≤ length epcs
      → suc (suc (sent (after_reply tr addr eoj ask epcs r).1)) ≤ sent r.1 + 2 * length epcs
  unfolding after_reply
  after_reply-sent ask epcs (err e, w) b n = omega arith
  after_reply-sent ask epcs (ok raw, w) b n = elim (Option-cases (refused (parse_get_res raw))) [
    | inr (e, refusal) ↦ rw (refusal, unless_refused) (omega arith)
    | inl accepted ↦
        let props = usable_props (parse_get_res raw) in
        rw (accepted, unless_refused)
          (elim (Bool-cases (length (missing_epcs epcs props) == 0 || leb (length epcs) 1)) [
            | inl done ↦ rw done (omega arith)
            | inr split ↦ rw split (split_or_keep-sent ask epcs props w b (ground arith))
          ])
  ]

  get_props_adaptive-sent : (depth : ℕ) → Bounded (get_props_adaptive tr addr eoj depth)
  unfolding get_props_adaptive
  get_props_adaptive-sent zero epcs w n =
      omega
        (arith, after_reply-sent none epcs (send_get tr addr eoj w epcs) tt n, send_get-sent w epcs)
  get_props_adaptive-sent (suc depth) epcs w n = omega (
    arith,
    after_reply-sent (some (λ part w'. get_props_adaptive tr addr eoj depth part w')) epcs
        (send_get tr addr eoj w epcs) (get_props_adaptive-sent depth) n,
    send_get-sent w epcs,
  )

  -- A read of n codes sends at most 2 n - 1 requests, whatever the device answers.
  pub get_props-sent :
      (epcs : List ℕ) (w : W)
      → 1 ≤ length epcs
      → suc (sent (get_props tr addr eoj epcs w).1) ≤ sent w + 2 * length epcs
  unfolding get_props
  get_props-sent = get_props_adaptive-sent 8
