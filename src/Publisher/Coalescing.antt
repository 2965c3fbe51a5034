-- ===== src/Publisher/Coalescing.antt =====
-- internal/mqtt/publisher.go: what is pending and published, against the states that were given.
use echonet_go.Base.{
  ℕ, zero, suc, ◌≤◌, ◌≡◌, refl, ap, sym, ◌∙◌, Bool, true, false, Option, none, some, List, [], ◌∷◌,
  arith, if◌then◌else◌, length,
}
use echonet_go.Base.Maps.{lookup, delete, text_key, lookup-insert, lookup-delete}
use echonet_go.Base.Texts.{Text, text_eq, text_eq_iff}
use echonet_go.Cache.{DeviceState}
use echonet_go.Publisher.Queue.{
  Pending, Pipeline, name_of, Step, enqueue, signal, receive_wake, take_entry, drained, stop,
  receive_stop, exit, Reach, start, later, store, publish_entry, drain_round, drain_pending,
}

text_eq_self : (name : Text) → text_eq name name ≡ true
text_eq_self name = (text_eq_iff name name).1 refl

module _ {F : Type 0} where
  -- The latest state of a name in a list that has the latest first.
  unfoldable pub latest : Text → List (DeviceState F) → Option (DeviceState F)
  latest name [] = none
  latest name (st ∷ sts) = if text_eq (name_of st) name then some st else latest name sts

  first_of : Option (DeviceState F) → Option (DeviceState F) → Option (DeviceState F)
  first_of none o = o
  first_of (some st) o = some st

  -- What the broker has of a name once the worker is through.
  unfoldable pub shown : Text → Pipeline F → Option (DeviceState F)
  unfolding first_of
  shown name q = first_of (lookup name q.pending) (latest name q.published)

  -- Each entry stands under the name of its device.
  abbrev IsNamed : Pending F → Type 0
  IsNamed m = (name : Text) (st : DeviceState F) → lookup name m ≡ some st → name_of st ≡ name

  -- The abstract state of the pipeline is a map from names to the states given last.
  pub record Coalesces (q : Pipeline F) : Type 0 where
    pub named : IsNamed q.pending
    pub agrees : (name : Text) → shown name q ≡ latest name q.given

  some_inj : {s t : DeviceState F} → some s ≡ some t → s ≡ t
  some_inj h = cc

  named-if :
      (b : Bool) (st st' : DeviceState F) (o : Option (DeviceState F)) (name : Text)
      → (b ≡ true → name_of st ≡ name)
      → (o ≡ some st' → name_of st' ≡ name)
      → (if b then some st else o) ≡ some st'
      → name_of st' ≡ name
  named-if true st st' o name same old h = ap name_of (sym (some_inj h)) ∙ same refl
  named-if false st st' o name same old h = old h

  shown-if :
      (b : Bool) (st : DeviceState F) (o p g : Option (DeviceState F))
      → first_of o p ≡ g
      → first_of (if b then some st else o) p ≡ (if b then some st else g)
  unfolding first_of
  shown-if true st o p g h = refl
  shown-if false st o p g h = h

  enqueue-Coalesces : (q : Pipeline F) (st : DeviceState F) → Coalesces q → Coalesces (store st q)
  unfolding store shown latest
  enqueue-Coalesces q st c = record {
    named = λ name st' h.
        named-if (text_eq (name_of st) name) st st' (lookup name q.pending) name
          (text_eq_iff (name_of st) name).0 (c.named name st')
          (sym (lookup-insert (name_of st) name st q.pending) ∙ h);
    agrees = λ name.
        ap (λ o. first_of o (latest name q.published))
          (lookup-insert (name_of st) name st q.pending)
        ∙ shown-if (text_eq (name_of st) name) st (lookup name q.pending) (latest name q.published)
            (latest name q.given) (c.agrees name);
  }

  deleted-if :
      (b : Bool) (o : Option (DeviceState F)) (st : DeviceState F)
      → (if b then none else o) ≡ some st
      → o ≡ some st
  deleted-if true o st h = absurd (cc)
  deleted-if false o st h = h

  taken-if :
      (b : Bool) (st : DeviceState F) (o p g : Option (DeviceState F))
      → (b ≡ true → o ≡ some st)
      → first_of o p ≡ g
      → first_of (if b then none else o) (if b then some st else p) ≡ g
  unfolding first_of
  taken-if true st o p g found h = ap (λ x. first_of x p) (sym (found refl)) ∙ h
  taken-if false st o p g found h = h

  take_entry-Coalesces :
      (q : Pipeline F) (name : Text) (st : DeviceState F)
      → lookup name q.pending ≡ some st
      → Coalesces q
      → Coalesces (publish_entry name st q)
  unfolding publish_entry shown latest
  take_entry-Coalesces q name st e c = record {
    named = λ n st' h. c.named n st' (
        deleted-if (text_eq name n) (lookup n q.pending) st'
          (sym (lookup-delete name n q.pending) ∙ h));
    agrees = λ n.
        ap (λ o. first_of o (latest n (st ∷ q.published))) (lookup-delete name n q.pending)
        ∙ (ap
              (λ x.
                first_of (if text_eq name n then none else lookup n q.pending)
                  (if text_eq x n then some st else latest n q.published))
              (c.named name st e)
            ∙ taken-if (text_eq name n) st (lookup n q.pending) (latest n q.published)
                (latest n q.given)
                (λ same. ap (λ x. lookup x q.pending) (sym ((text_eq_iff name n).0 same)) ∙ e)
                (c.agrees n));
  }

  Step-Coalesces : {q q' : Pipeline F} → Step q q' → Coalesces q → Coalesces q'
  unfolding shown
  Step-Coalesces (enqueue q st) c = enqueue-Coalesces q st c
  Step-Coalesces (signal q n e) c = record { named = c.named; agrees = c.agrees }
  Step-Coalesces (receive_wake q at e) c = record { named = c.named; agrees = c.agrees }
  Step-Coalesces (take_entry q name st d e) c = take_entry-Coalesces q name st e c
  Step-Coalesces (drained q at e) c = record { named = c.named; agrees = c.agrees }
  Step-Coalesces (stop q) c = record { named = c.named; agrees = c.agrees }
  Step-Coalesces (receive_stop q at e) c = record { named = c.named; agrees = c.agrees }
  Step-Coalesces (exit q at e) c = record { named = c.named; agrees = c.agrees }

  Reach-Coalesces : (q : Pipeline F) → Reach q → Coalesces q
  unfolding shown latest lookup
  Reach-Coalesces q start = record { named = λ name st h. absurd (cc); agrees = λ name. refl }
  Reach-Coalesces q (later r s) = Step-Coalesces s (Reach-Coalesces _ r)

  -- The pipeline is a map from names to the states that were given last: in every state that it can
  -- reach, what is pending for a name, or else what was published for it last, is the last state that
  -- was enqueued for the name.
  pub Reach-shown : (q : Pipeline F) → Reach q → (name : Text) → shown name q ≡ latest name q.given
  Reach-shown q r = (Reach-Coalesces q r).agrees

  delete-length : (name : Text) (m : Pending F) → length (delete name m) ≤ length m
  unfolding delete
  delete-length name [] = omega arith
  delete-length name ((n, st) ∷ m) = ground (arith, delete-length name m)

  shorter :
      (name : Text) (st : DeviceState F) (rest : Pending F)
      → length (delete name ((name, st) ∷ rest)) ≤ length rest
  unfolding delete
  shorter name st rest = rw (text_eq_self name) (delete-length name rest)

  first-found :
      (name : Text) (st : DeviceState F) (rest : Pending F)
      → lookup name ((name, st) ∷ rest) ≡ some st
  unfolding lookup
  first-found name st rest = rw (text_eq_self name) refl

  -- Nothing is pending, and the last state given for each name is the last one published.
  abbrev pub IsDrained : List (DeviceState F) → Pipeline F → Type 0
  IsDrained given q =
      (q.pending ≡ []) × ((name : Text) → latest name q.published ≡ latest name given)

  Coalesces-IsDrained : (q : Pipeline F) → Coalesces q → q.pending ≡ [] → IsDrained q.given q
  unfolding shown lookup first_of
  Coalesces-IsDrained q c e = (
    e,
    λ name. ap (λ m. first_of (lookup name m) (latest name q.published)) (sym e) ∙ c.agrees name,
  )

  drain_round-IsDrained :
      (again : Pipeline F → Pipeline F) (rounds : ℕ)
      → ((q : Pipeline F) → Coalesces q → length q.pending ≤ rounds → IsDrained q.given (again q))
      → (m : Pending F) (q : Pipeline F) → q.pending ≡ m
      → Coalesces q
      → length m ≤ suc rounds
      → IsDrained q.given (drain_round again m q)
  unfolding drain_round publish_entry
  drain_round-IsDrained again rounds rec [] q e c h = Coalesces-IsDrained q c e
  drain_round-IsDrained again rounds rec ((name, st) ∷ rest) q e c h =
      rec (publish_entry name st q)
        (take_entry-Coalesces q name st (ap (lookup name) e ∙ first-found name st rest) c)
        (omega (arith, ap (λ m. length (delete name m)) e, shorter name st rest))

  drain-IsDrained :
      (rounds : ℕ) (q : Pipeline F)
      → Coalesces q
      → length q.pending ≤ rounds
      → IsDrained q.given (drain_pending rounds q)
  unfolding drain_pending
  drain-IsDrained zero q c h = Coalesces-IsDrained q c (none_left q.pending h)
    where
      none_left : (m : Pending F) → length m ≤ 0 → m ≡ []
      none_left [] h = refl
      none_left (e ∷ m) h = absurd (omega arith)
  drain-IsDrained (suc rounds) q c h =
      drain_round-IsDrained (drain_pending rounds) rounds (drain-IsDrained rounds) q.pending q refl
        c h

  -- Draining ends: from any state that the pipeline can reach, with as many rounds as there are
  -- entries, nothing is pending, and the last state given for each name is the last one published.
  pub drain_pending-IsDrained :
      (rounds : ℕ) (q : Pipeline F)
      → Reach q
      → length q.pending ≤ rounds
      → IsDrained q.given (drain_pending rounds q)
  drain_pending-IsDrained rounds q r h = drain-IsDrained rounds q (Reach-Coalesces q r) h
