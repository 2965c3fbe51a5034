-- ===== src/Commander/Outcome.antt =====
-- internal/mqtt/commander.go: how the verification of a command ends.
use echonet_go.Base.Texts.{text_eq, text_eq_iff}
use echonet_go.Base.{
  Option, none, some, All, sym, ◌∙◌, &&_true, if◌then◌else◌, ℕ, suc, ◌+◌, ◌*◌, ◌≤◌, ◌≡◌, refl, ap,
  Bool, true, false, ◌||◌, ◌==◌, List, [], ◌∷◌, length, Result, ok, err, inl, inr, ◌⊎◌, Bool-cases,
  arith,
}
use echonet_go.Cache.{Cache, Device}
use echonet_go.Client.{Transport, get_props}
use echonet_go.Client.Requests.{Counts, get_props-sent}
use echonet_go.Base.Maps.{has}
use echonet_go.Cache.{get_device_specs}
use echonet_go.Commander.Stored.{held, or_old, held-merge_props_to_cache}
use echonet_go.Readings.{reading}
use echonet_go.Readings.Laws.{NamesOnce, Among}
use echonet_go.Specs.{MetricSpec}
use echonet_go.Floats.{Float64}
use echonet_go.Protocol.{Property, Eoj, FrameError}
use echonet_go.Commander.{PendingUpdate}
use echonet_go.Commander.Verify.{
  reflects, all_matched, codes, delays, merge_props_to_cache, judge, attempt, verify_loop,
  verify_state_update,
}

module _ (fl : Float64) (tr : Transport) (wait : ℕ → tr.W → Bool × tr.W)
    (others : tr.W → Cache fl.F → Cache fl.F) (dev : Device) (eoj : Eoj)
    (updates : List PendingUpdate) where
  open fl use {F}
  open tr use {W}

  module _ (sent : W → ℕ) (counts : Counts tr sent)
      (still : (d : ℕ) (w : W) → sent (wait d w).1 ≡ sent w)
      (some_code : 1 ≤ length (codes updates)) where
    judge-sent :
        (last : Bool) (again : W → Cache F × W) (c : Cache F) (k : ℕ)
        (r : Result FrameError (List Property) × W)
        → ((w : W) → sent (again w).1 ≤ sent w + k)
        → sent (judge fl tr wait others dev eoj updates last again c r).1 ≤ sent r.1 + k
    unfolding judge
    judge-sent last again c k (err e, w) h = h w
    judge-sent last again c k (ok props, w) h =
        elim (Bool-cases (all_matched props updates || last)) [
          | inl stop ↦ rw stop (omega arith)
          | inr go ↦ rw go (h w)
        ]

    attempt-sent :
        (last : Bool) (again : W → Cache F × W) (c : Cache F) (k : ℕ) (a : Bool × W)
        → ((w : W) → sent (again w).1 ≤ sent w + k)
        → sent (attempt fl tr wait others dev eoj updates last again c a).1
          ≤ sent a.1 + (2 * length (codes updates) + k)
    unfolding attempt
    attempt-sent last again c k (false, w) h = omega arith
    attempt-sent last again c k (true, w) h = omega (
      arith,
      judge-sent last again c k (get_props tr dev.ip eoj (codes updates) w) h,
      get_props-sent tr dev.ip eoj sent counts (codes updates) w some_code,
    )

    verify_loop-sent :
        (ds : List ℕ) (c : Cache F) (w : W)
        → sent (verify_loop fl tr wait others dev eoj updates ds c w).1
          ≤ sent w + length ds * (2 * length (codes updates))
    unfolding verify_loop
    verify_loop-sent [] c w = omega arith
    verify_loop-sent (d ∷ ds) c w = omega (
      arith,
      attempt-sent (length ds == 0) (verify_loop fl tr wait others dev eoj updates ds c) c
          (length ds * (2 * length (codes updates))) (wait d w) (verify_loop-sent ds c),
      still d w,
    )

    -- A verification of n codes, one at least, ends after three reads at most: it sends no more than
    -- 6 n requests, whatever the device answers. Waiting sends nothing.
    pub verify_state_update-sent :
        (c : Cache F) (w : W)
        → sent (verify_state_update fl tr wait others dev eoj updates c w).1
          ≤ sent w + 6 * length (codes updates)
    unfolding verify_state_update
    verify_state_update-sent c w = omega (arith, verify_loop-sent delays c w)

  -- The verification has read the codes in the world `asked`, with this reply, and has merged it.
  record Ended (c after : Cache F) : Type 0 where
    asked : W
    props : List Property
    answered : (get_props tr dev.ip eoj (codes updates) asked).0 ≡ ok props
    merged :
        after
        ≡ merge_props_to_cache fl dev props
            (codes updates)
            (others (get_props tr dev.ip eoj (codes updates) asked).1 c)

  -- The data of the first property of this code.
  unfoldable pub first_data : ℕ → List Property → Option (List ℕ)
  first_data epc [] = none
  first_data epc (p ∷ props) = if p.epc == epc then some p.edt else first_data epc props

  -- The reply shows the data that was written, for each code.
  abbrev pub Confirms : List Property → List PendingUpdate → Type 0
  Confirms props us = All (λ (u : PendingUpdate). first_data u.0 props ≡ some u.1) us

  reflects-first_data :
      (props : List Property) (u : PendingUpdate)
      → reflects props u ≡ true
      → first_data u.0 props ≡ some u.1
  unfolding reflects first_data
  reflects-first_data [] u h = absurd (cc)
  reflects-first_data (p ∷ props) u h = elim (Bool-cases (p.epc == u.0)) [
    | inl same ↦
        let equal : text_eq p.edt u.1 ≡ true = ground (arith) in
        rw same (ap some ((text_eq_iff p.edt u.1).0 equal))
    | inr other ↦ rw other (reflects-first_data props u (ground (arith)))
  ]

  all_matched-Confirms :
      (props : List Property) (us : List PendingUpdate)
      → all_matched props us ≡ true
      → Confirms props us
  unfolding all_matched
  all_matched-Confirms props [] h = tt
  all_matched-Confirms props (u ∷ us) h = (
    reflects-first_data props u (&&_true (reflects props u) (all_matched props us) h).0,
    all_matched-Confirms props us (&&_true (reflects props u) (all_matched props us) h).1,
  )

  -- The world behind a round of waiting and reading.
  abbrev pub round : ℕ → W → W
  round d w = (get_props tr dev.ip eoj (codes updates) (wait d w).1).1

  -- The world in which the last of the rounds reads the codes.
  abbrev last_read : ℕ → List ℕ → W → W
  last_read d [] w = (wait d w).1
  last_read d (d' ∷ ds) w = last_read d' ds (round d w)

  -- The third read: after one second, three more, and three more.
  abbrev pub third_read : W → W
  third_read w = (wait 3000000000 (round 3000000000 (round 1000000000 w))).1

  -- The end is a read that confirms the written data, or this last read.
  abbrev Settles : W → Cache F → Cache F → Type 0
  Settles last c after = (e : Ended c after) × (Confirms e.props updates ⊎ (e.asked ≡ last))

  module _ (waits : (d : ℕ) (w : W) → (wait d w).0 ≡ true)
      (answers : (w : W)
        → (props : List Property) × ((get_props tr dev.ip eoj (codes updates) w).0
            ≡ ok props)) where
    refused :
        {A : Type 0} {e : FrameError} {props : List Property}
        {r : Result FrameError (List Property)}
        → r ≡ err e
        → r ≡ ok props
        → A
    refused failed answered = absurd (cc)

    judge-Settles :
        (last : Bool) (again : W → Cache F × W) (c : Cache F) (w final : W)
        (r : Result FrameError (List Property) × W)
        → get_props tr dev.ip eoj (codes updates) w ≡ r
        → ((last ≡ true) × (w ≡ final)) ⊎ ((last ≡ false) × Settles final c (again r.1).0)
        → Settles final c (judge fl tr wait others dev eoj updates last again c r).0
    unfolding judge
    judge-Settles last again c w final (err e, w') same h =
        refused (ap (λ x. x.0) same) (answers w).1
    judge-Settles last again c w final (ok props, w') same h =
        let ended : Ended c (merge_props_to_cache fl dev props (codes updates) (others w' c)) =
          record {
            asked = w;
            props = props;
            answered = ap (λ x. x.0) same;
            merged =
                ap (λ x. merge_props_to_cache fl dev props (codes updates) (others x c))
                  (sym (ap (λ x. x.1) same));
          } in
        elim (Bool-cases (all_matched props updates)) [
          | inl matched ↦ rw matched (ended, inl (all_matched-Confirms props updates matched))
          | inr differs ↦ elim h [
            | inl is_last ↦ rw (differs, is_last.0) (ended, inr is_last.1)
            | inr later ↦ rw (differs, later.0) later.1
          ]
        ]

    attempt-Settles :
        (last : Bool) (again : W → Cache F × W) (c : Cache F) (final : W) (a : Bool × W)
        → a.0 ≡ true
        → ((last ≡ true) × (a.1 ≡ final))
          ⊎ ((last ≡ false)
              × Settles final c (again (get_props tr dev.ip eoj (codes updates) a.1).1).0)
        → Settles final c (attempt fl tr wait others dev eoj updates last again c a).0
    unfolding attempt
    attempt-Settles last again c final (true, w) alive h =
        judge-Settles last again c w final _ refl h
    attempt-Settles last again c final (false, w) alive h = absurd (ground arith)

    verify_loop-Settles :
        (d : ℕ) (ds : List ℕ) (c : Cache F) (w : W)
        → Settles
            (last_read d ds w)
            c
            (verify_loop fl tr wait others dev eoj updates (d ∷ ds) c w).0
    unfolding verify_loop
    verify_loop-Settles d [] c w =
        attempt-Settles true (λ w. (others w c, w)) c _ (wait d w) (waits d w) (inl (refl, refl))
    verify_loop-Settles d (d' ∷ ds) c w =
        let more : (suc (length ds) == 0) ≡ false = ground arith in
        attempt-Settles (suc (length ds) == 0)
          (verify_loop fl tr wait others dev eoj updates (d' ∷ ds) c) c _ (wait d w) (waits d w)
          (inr (more, verify_loop-Settles d' ds c (round d w)))

    -- While the program runs and the device answers its reads, the verification of a command ends with a
    -- reply to a read of the written codes: one that shows the written data for each code, or that of
    -- the third read. The metrics of the device have different names, and no other task changes them;
    -- then the cache holds, for each metric with a written code, the value of that metric in the
    -- reply, and where the reply has none, what the other tasks have left there.
    pub verify_state_update-Stored :
        (specs : List (MetricSpec F)) (m : MetricSpec F) (c : Cache F) (w : W)
        → ((w' : W) → get_device_specs (others w' c) dev ≡ some specs)
        → NamesOnce fl specs
        → Among fl m specs
        → has m.epc (codes updates) ≡ true
        → (asked : W) × (props : List Property) × (ended : W) × (get_props tr dev.ip eoj
              (codes updates)
              asked
            ≡ (ok props, ended))
          × (Confirms props updates ⊎ (asked ≡ third_read w))
          × (held fl dev m.name (verify_state_update fl tr wait others dev eoj updates c w).0
              ≡ or_old (reading fl props m) (held fl dev m.name (others ended c)))
    unfolding verify_state_update
    verify_state_update-Stored specs m c w known once among written =
        let (e, how) = verify_loop-Settles 1000000000 (3000000000 ∷ 3000000000 ∷ []) c w in
        let ended = (get_props tr dev.ip eoj (codes updates) e.asked).1 in
        (
          e.asked,
          e.props,
          ended,
          whole (get_props tr dev.ip eoj (codes updates) e.asked) e.answered,
          how,
          ap (held fl dev m.name) e.merged
              ∙ held-merge_props_to_cache fl dev e.props (codes updates) specs m (others ended c)
                  (known ended) once among written,
        )
      where
        whole :
            (r : Result FrameError (List Property) × W) {props : List Property}
            → r.0 ≡ ok props
            → r ≡ (ok props, r.1)
        whole (a, b) h = ap (λ x. (x, b)) h
