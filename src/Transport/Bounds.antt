-- ===== src/Transport/Bounds.antt =====
-- internal/echonet/transport.go: how much the mailroom holds.
use echonet_go.Base.{
  ℕ, suc, ◌≤◌, ◌≡◌, refl, inl, inr, Option, none, some, List, [], ◌∷◌, ◌++◌, ltb, length, arith,
  Bool-cases, length-append, ltb→lt,
}
use mathlib.Core.Path.{subst}
use echonet_go.Base.Maps.{insert, delete, text_key}
use echonet_go.Base.Texts.{Text}
use echonet_go.Transport.{
  UdpFrame, Mailroom, min_response_len, frame_key, max_expired_waiters, fresh, make_room,
  add_waiter, remove_waiter, record_expired_waiter, pop_expired_waiter, notify, offer, receive,
}
use echonet_go.Transport.Sessions.{
  Sessions, Step, register, datagram, answered, timed_out, removed, handled, Reach, start, later,
}

-- What the notification channel may hold; with no channel it is nothing.
abbrev pub WithinCapacity : Option ℕ → List UdpFrame → Type 0
WithinCapacity none fs = fs ≡ []
WithinCapacity (some capacity) fs = length fs ≤ capacity

pub record IsBounded (capacity : Option ℕ) (m : Mailroom) : Type 0 where
  pub few_expired : length m.expired_waiters ≤ max_expired_waiters
  pub same_capacity : m.capacity ≡ capacity
  pub few_notifications : WithinCapacity capacity m.notifications

module _ {V : Type 0} where
  delete-shorter : (key : Text) (m : List (Text × V)) → length (delete key m) ≤ length m
  unfolding delete
  delete-shorter key [] = omega arith
  delete-shorter key ((k, v) ∷ m) = ground (arith, delete-shorter key m)

  insert-longer :
      (key : Text) (v : V) (m : List (Text × V)) → length (insert key v m) ≤ suc (length m)
  unfolding insert
  insert-longer key v [] = omega arith
  insert-longer key v ((k, w) ∷ m) = ground (arith, insert-longer key v m)

make_room-room :
    (now : ℕ) (old : List (Text × ℕ)) → suc (length (make_room now old)) ≤ max_expired_waiters
unfolding make_room
make_room-room now old = elim (Bool-cases (ltb (length old) max_expired_waiters)) [
  | inl few ↦ rw few (ground arith)
  | inr many ↦ rw many (elim (Bool-cases (ltb (length (fresh now old)) max_expired_waiters)) [
    | inl some_old ↦ rw some_old (ground arith)
    | inr all_fresh ↦ rw all_fresh (omega arith)
  ])
]

module _ (capacity : Option ℕ) where
  notify-IsBounded :
      (f : UdpFrame) (o : Option ℕ) (m : Mailroom)
      → o ≡ capacity
      → IsBounded capacity m
      → IsBounded capacity (notify f o m)
  unfolding notify
  notify-IsBounded f none m e b = b
  notify-IsBounded f (some n) m e b = elim (Bool-cases (ltb (length m.notifications) n)) [
    | inl room ↦ rw room (record {
      few_expired = b.few_expired;
      same_capacity = b.same_capacity;
      few_notifications =
          subst (λ o. WithinCapacity o (m.notifications ++ (f ∷ []))) e
            (omega (
              arith,
              length-append m.notifications (f ∷ []),
              ltb→lt (length m.notifications) n room,
            ));
    })
    | inr full ↦ rw full b
  ]

  offer-IsBounded :
      (f : UdpFrame) (key : Text) (o : Option (Option UdpFrame)) (m : Mailroom)
      → IsBounded capacity m
      → IsBounded capacity (offer f key o m)
  unfolding offer pop_expired_waiter
  offer-IsBounded f key none m b = notify-IsBounded f m.capacity _ b.same_capacity (record {
    few_expired = omega (arith, b.few_expired, delete-shorter key m.expired_waiters);
    same_capacity = b.same_capacity;
    few_notifications = b.few_notifications;
  })
  offer-IsBounded f key (some none) m b = record {
    few_expired = b.few_expired;
    same_capacity = b.same_capacity;
    few_notifications = b.few_notifications;
  }
  offer-IsBounded f key (some (some g)) m b = b

  receive-IsBounded :
      (f : UdpFrame) (m : Mailroom) → IsBounded capacity m → IsBounded capacity (receive f m)
  unfolding receive
  receive-IsBounded f m b = elim (Bool-cases (ltb (length f.bytes) min_response_len)) [
    | inl short ↦ rw short b
    | inr enough ↦ rw enough (offer-IsBounded f (frame_key f) _ m b)
  ]

  one-less :
      (o : Option ℕ) (f : UdpFrame) (rest : List UdpFrame)
      → WithinCapacity o (f ∷ rest)
      → WithinCapacity o rest
  one-less none f rest h = absurd (cc)
  one-less (some n) f rest h = omega (arith, h)

  -- Only the waiters change.
  waiters-IsBounded :
      (m : Mailroom) (waiters : List (Text × Option UdpFrame))
      → IsBounded capacity m
      → IsBounded capacity (record m { waiters = waiters })
  waiters-IsBounded m waiters b = record {
    few_expired = b.few_expired;
    same_capacity = b.same_capacity;
    few_notifications = b.few_notifications;
  }

  Step-IsBounded :
      {s s' : Sessions} → Step s s' → IsBounded capacity s.mailroom → IsBounded capacity s'.mailroom
  unfolding add_waiter remove_waiter record_expired_waiter
  Step-IsBounded (register s key) b = waiters-IsBounded s.mailroom _ b
  Step-IsBounded (datagram s f) b = receive-IsBounded f s.mailroom b
  Step-IsBounded (answered s key f e) b = waiters-IsBounded s.mailroom _ b
  Step-IsBounded (timed_out s now key) b = record {
    few_expired = omega (
      arith,
      insert-longer key now (make_room now s.mailroom.expired_waiters),
      make_room-room now s.mailroom.expired_waiters,
    );
    same_capacity = b.same_capacity;
    few_notifications = b.few_notifications;
  }
  Step-IsBounded (removed s key) b = waiters-IsBounded s.mailroom _ b
  Step-IsBounded (handled s f rest e) b = record {
    few_expired = b.few_expired;
    same_capacity = b.same_capacity;
    few_notifications =
        one-less capacity f rest (subst (WithinCapacity capacity) e b.few_notifications);
  }

  -- However requests, datagrams and the notification handler interleave, the transport remembers 128
  -- expired requests at most, and the notification channel holds no more frames than its capacity.
  pub Reach-IsBounded : (s : Sessions) → Reach capacity s → IsBounded capacity s.mailroom
  Reach-IsBounded s start = record {
    few_expired = omega arith;
    same_capacity = refl;
    few_notifications = empty capacity;
  }
    where
      empty : (o : Option ℕ) → WithinCapacity o []
      empty none = refl
      empty (some n) = omega arith
  Reach-IsBounded s (later r t) = Step-IsBounded t (Reach-IsBounded _ r)
