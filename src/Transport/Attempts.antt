-- ===== src/Transport/Attempts.antt =====
-- internal/echonet/transport.go: what a request gets.
use echonet_go.Base.{
  ℕ, ◌≡◌, refl, ap, ◌∙◌, inl, inr, true, false, Option, none, some, List, [], ◌∷◌, ltb,
  if◌then◌else◌, length, Result, ok, err, Bool-cases,
}
use echonet_go.Base.Maps.{lookup, text_key, lookup-insert}
use echonet_go.Base.Texts.{Text, text_eq, text_eq_iff}
use echonet_go.Transport.{
  UdpFrame, Mailroom, min_response_len, frame_key, offer, receive, pop_expired_waiter,
}
use echonet_go.Transport.Answers.{notify-waiters}
use echonet_go.Transport.Sending.{
  SendError, Event, arrives, timer, cancelled, Network, Line, deliver, give_up, await,
}

-- The first datagram for a key before the timer and the end of the context.
unfoldable pub first_match : Text → List Event → Option UdpFrame
first_match key [] = none
first_match key (timer now ∷ events) = none
first_match key (cancelled now e ∷ events) = none
first_match key (arrives f ∷ events) =
    let rest = first_match key events in
    if ltb (length f.bytes) min_response_len
    then rest
    else if text_eq (frame_key f) key
    then some f
    else rest

abbrev pub bytes_of : Option UdpFrame → Option (List ℕ)
bytes_of none = none
bytes_of (some f) = some f.bytes

abbrev pub data_of : Result SendError (List ℕ) → Option (List ℕ)
data_of (ok d) = some d
data_of (err e) = none

-- An own datagram fills the empty channel; any other one leaves it empty.
offer-other :
    (f : UdpFrame) (k key : Text) (o : Option (Option UdpFrame)) (m : Mailroom)
    → text_eq k key ≡ false
    → lookup key (offer f k o m).waiters ≡ lookup key m.waiters
unfolding offer pop_expired_waiter
offer-other f k key none m other = ap (lookup key) (notify-waiters f m.capacity _)
offer-other f k key (some none) m other = lookup-insert k key (some f) m.waiters ∙ rw other refl
offer-other f k key (some (some g)) m other = refl

receive-own :
    (f : UdpFrame) (key : Text) (m : Mailroom)
    → ltb (length f.bytes) min_response_len ≡ false
    → text_eq (frame_key f) key ≡ true
    → lookup key m.waiters ≡ some none
    → lookup key (receive f m).waiters ≡ some (some f)
unfolding receive offer
receive-own f key m long same empty =
    rw (long, ap (λ k. lookup k m.waiters) ((text_eq_iff (frame_key f) key).0 same) ∙ empty)
      (lookup-insert (frame_key f) key (some f) m.waiters ∙ rw same refl)

receive-other :
    (f : UdpFrame) (key : Text) (m : Mailroom)
    → ltb (length f.bytes) min_response_len ≡ false
    → text_eq (frame_key f) key ≡ false
    → lookup key (receive f m).waiters ≡ lookup key m.waiters
unfolding receive
receive-other f key m long other = rw long (offer-other f (frame_key f) key _ m other)

receive-short :
    (f : UdpFrame) (m : Mailroom) → ltb (length f.bytes) min_response_len ≡ true → receive f m ≡ m
unfolding receive
receive-short f m short = rw short refl

module _ (net : Network) where
  open net use {W}

  -- A request that waits with an empty channel under its key gets the first datagram of twelve bytes
  -- or more for the key that arrives before its timer and before the end of its context, whatever
  -- else arrives; if there is none it gets an error.
  pub await-first_match :
      (key : Text) (events : List Event) (l : Line net)
      → lookup key l.mailroom.waiters ≡ some none
      → data_of (await net key events l).0 ≡ bytes_of (first_match key events)
  unfolding await first_match deliver give_up
  await-first_match key [] l empty = refl
  await-first_match key (timer now ∷ events) l empty = refl
  await-first_match key (cancelled now e ∷ events) l empty = refl
  await-first_match key (arrives f ∷ events) l empty =
      let m = l.mailroom in
      let l' : Line net = record l { mailroom = receive f m } in
      let next = await-first_match key events l' in
      elim (Bool-cases (ltb (length f.bytes) min_response_len)) [
        | inl short ↦
            let still = ap (λ x. lookup key x.waiters) (receive-short f m short) ∙ empty in
            rw (short, still) (next still)
        | inr long ↦ elim (Bool-cases (text_eq (frame_key f) key)) [
          | inl same ↦ rw (long, same, receive-own f key m long same empty) refl
          | inr other ↦
              let still = receive-other f key m long other ∙ empty in
              rw (long, other, still) (next still)
        ]
      ]
