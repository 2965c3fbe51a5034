-- ===== src/Transport/Answers.antt =====
-- internal/echonet/transport.go: which datagrams answer a request.
use echonet_go.Base.{
  ℕ, zero, suc, ◌^◌, ◌≤◌, ◌<◌, ◌≡◌, refl, sym, inl, inr, Option, none, some, List, [], ◌∷◌, ltb,
  length, All, All-map, arith, Bool-cases, ltb→le,
}
use mathlib.Core.Path.{subst}
use echonet_go.Base.Maps.{delete, text_key}
use echonet_go.Base.Texts.{Text, text_eq}
use echonet_go.Transport.{
  UdpFrame, Mailroom, min_response_len, frame_key, add_waiter, remove_waiter, record_expired_waiter,
  pop_expired_waiter, notify, offer, receive,
}
use echonet_go.Protocol.{byte_at}
use echonet_go.Transport.{frame_tid, waiter_key}
use echonet_go.Transport.Keys.{waiter_key_inj}
use echonet_go.Transport.Sessions.{
  Sessions, Step, register, datagram, answered, timed_out, removed, handled, Reach, start, later,
  Among, IsAnswer,
}
use echonet_go.Base.Maps.{insert-All, lookup-All}

-- A waiter is empty or holds an answer to its key.
abbrev Holds : List UdpFrame → Text × Option UdpFrame → Type 0
Holds received (key, none) = Unit
Holds received (key, some f) = IsAnswer received key f

record IsHonest (s : Sessions) : Type 0 where
  honest_waiters : All (Holds s.received) s.mailroom.waiters
  honest_answers : All (λ a. IsAnswer s.received a.0 a.1) s.answers

delete-All :
    {V : Type 0} (Q : Text × V → Type 0) (key : Text) (m : List (Text × V))
    → All Q m
    → All Q (delete key m)
unfolding delete
delete-All Q key [] h = tt
delete-All Q key ((k, v) ∷ m) h = elim (Bool-cases (text_eq k key)) [
  | inl same ↦ rw same (delete-All Q key m h.1)
  | inr other ↦ rw other (h.0, delete-All Q key m h.1)
]

grows-IsAnswer :
    (received : List UdpFrame) (g : UdpFrame) (key : Text) (f : UdpFrame)
    → IsAnswer received key f
    → IsAnswer (g ∷ received) key f
grows-IsAnswer received g key f a = record {
  belongs = a.belongs;
  long_enough = a.long_enough;
  came_in = inr a.came_in;
}

grows-Holds :
    (received : List UdpFrame) (g : UdpFrame) (e : Text × Option UdpFrame)
    → Holds received e
    → Holds (g ∷ received) e
grows-Holds received g (key, none) h = tt
grows-Holds received g (key, some f) h = grows-IsAnswer received g key f h

pub notify-waiters :
    (f : UdpFrame) (o : Option ℕ) (m : Mailroom) → (notify f o m).waiters ≡ m.waiters
unfolding notify
notify-waiters f none m = refl
notify-waiters f (some n) m = elim (Bool-cases (ltb (length m.notifications) n)) [
  | inl room ↦ rw room refl
  | inr full ↦ rw full refl
]

offer-Holds :
    (received : List UdpFrame) (f : UdpFrame) (key : Text) (o : Option (Option UdpFrame))
    (m : Mailroom)
    → IsAnswer received key f
    → All (Holds received) m.waiters
    → All (Holds received) (offer f key o m).waiters
unfolding offer pop_expired_waiter
offer-Holds received f key none m a h =
    subst (All (Holds received)) (sym (notify-waiters f m.capacity _)) h
offer-Holds received f key (some none) m a h =
    insert-All (Holds received) key (some f) m.waiters a h
offer-Holds received f key (some (some g)) m a h = h

receive-Holds :
    (received : List UdpFrame) (f : UdpFrame) (m : Mailroom)
    → All (Holds received) m.waiters
    → All (Holds (f ∷ received)) (receive f m).waiters
unfolding receive
receive-Holds received f m h =
    let grown =
      All-map (Holds received) (Holds (f ∷ received)) m.waiters (grows-Holds received f) h in
    elim (Bool-cases (ltb (length f.bytes) min_response_len)) [
      | inl short ↦ rw short grown
      | inr enough ↦ rw enough (
          offer-Holds (f ∷ received) f (frame_key f) _ m
            (record {
              belongs = refl;
              long_enough = ltb→le (length f.bytes) min_response_len enough;
              came_in = inl refl;
            })
            grown)
    ]

Step-IsHonest : {s s' : Sessions} → Step s s' → IsHonest s → IsHonest s'
unfolding add_waiter remove_waiter record_expired_waiter
Step-IsHonest (register s key) h = record {
  honest_waiters = insert-All (Holds s.received) key none s.mailroom.waiters tt h.honest_waiters;
  honest_answers = h.honest_answers;
}
Step-IsHonest (datagram s f) h = record {
  honest_waiters = receive-Holds s.received f s.mailroom h.honest_waiters;
  honest_answers =
      All-map (λ a. IsAnswer s.received a.0 a.1) (λ a. IsAnswer (f ∷ s.received) a.0 a.1) s.answers
        (λ a i. grows-IsAnswer s.received f a.0 a.1 i) h.honest_answers;
}
Step-IsHonest (answered s key f e) h = record {
  honest_waiters = insert-All (Holds s.received) key none s.mailroom.waiters tt h.honest_waiters;
  honest_answers =
      (lookup-All (Holds s.received) key s.mailroom.waiters h.honest_waiters e, h.honest_answers);
}
Step-IsHonest (timed_out s now key) h = record {
  honest_waiters = h.honest_waiters;
  honest_answers = h.honest_answers;
}
Step-IsHonest (removed s key) h = record {
  honest_waiters = delete-All (Holds s.received) key s.mailroom.waiters h.honest_waiters;
  honest_answers = h.honest_answers;
}
Step-IsHonest (handled s f rest e) h = record {
  honest_waiters = h.honest_waiters;
  honest_answers = h.honest_answers;
}

Reach-IsHonest : {capacity : Option ℕ} (s : Sessions) → Reach capacity s → IsHonest s
Reach-IsHonest s start = record { honest_waiters = tt; honest_answers = tt }
Reach-IsHonest s (later r t) = Step-IsHonest t (Reach-IsHonest _ r)

among-All : {A : Type 0} (Q : A → Type 0) (a : A) (as' : List A) → Among a as' → All Q as' → Q a
among-All Q a [] i h = absurd i
among-All Q a (b ∷ bs) (inl same) h = subst Q same h.0
among-All Q a (b ∷ bs) (inr rest) h = among-All Q a bs rest h.1

byte_at-small : (d : List ℕ) (i : ℕ) → All (λ b. b < 256) d → byte_at d i < 256
byte_at-small [] i h = omega arith
byte_at-small (b ∷ d) zero h = h.0
byte_at-small (b ∷ d) (suc i) h = byte_at-small d i h.1

frame_tid-small : (d : List ℕ) → All (λ b. b < 256) d → frame_tid d < 2 ^ 16
unfolding frame_tid
frame_tid-small d h = omega (arith, byte_at-small d 2 h, byte_at-small d 3 h)

-- However the requests, the datagrams and the notification handler interleave: a request to a host with
-- a transaction number of 16 bits is answered only by a datagram that came in, of twelve bytes or
-- more, from this host and with this number.
pub Reach-answers :
    (capacity : Option ℕ) (s : Sessions)
    → Reach capacity s
    → (host : Text) (tid : ℕ) (f : UdpFrame) → tid < 2 ^ 16
    → All (λ b. b < 256) f.bytes
    → Among (waiter_key host tid, f) s.answers
    → (f.from ≡ host)
      × (frame_tid f.bytes ≡ tid)
      × (min_response_len ≤ length f.bytes)
      × Among f s.received
unfolding frame_key
Reach-answers capacity s r host tid f small bytes a =
    let answer =
      among-All (λ a. IsAnswer s.received a.0 a.1) (waiter_key host tid, f) s.answers a
        (Reach-IsHonest s r).honest_answers in
    let (same, number) =
      waiter_key_inj f.from host (frame_tid f.bytes) tid (frame_tid-small f.bytes bytes) small
        answer.belongs in
    (same, number, answer.long_enough, answer.came_in)
