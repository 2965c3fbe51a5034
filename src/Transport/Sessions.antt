-- ===== src/Transport/Sessions.antt =====
-- internal/echonet/transport.go: the requests, the receiver and the notification handler at work on one
-- mailroom. A step is a critical section of `waitersMu` or a use of a channel; steps of different
-- goroutines interleave in any order. `received` and `answers` keep what came in and what requests
-- returned, the latest first.
use echonet_go.Base.{ℕ, ◌≤◌, ◌≡◌, ◌⊎◌, Option, some, List, [], ◌∷◌, length}
use echonet_go.Base.Maps.{lookup, text_key}
use echonet_go.Base.Texts.{Text}
use echonet_go.Transport.{
  UdpFrame, Mailroom, new_mailroom, min_response_len, frame_key, add_waiter, remove_waiter,
  record_expired_waiter, receive,
}

pub record Sessions : Type 0 where
  pub mailroom : Mailroom
  pub received : List UdpFrame
  pub answers : List (Text × UdpFrame)

pub data Step : Sessions → Sessions → Type 0 where
  -- A request is registered before it is written.
  register :
      (s : Sessions) (key : Text) → Step s (record s { mailroom = add_waiter key s.mailroom })
  datagram :
      (s : Sessions) (f : UdpFrame)
      → Step s (record s { mailroom = receive f s.mailroom; received = f ∷ s.received })
  -- `frame := <-respCh`
  answered :
      (s : Sessions) (key : Text) (f : UdpFrame)
      → lookup key s.mailroom.waiters ≡ some (some f)
      → Step s (record s { mailroom = add_waiter key s.mailroom; answers = (key, f) ∷ s.answers })
  -- `<-timer.C` and `<-ctx.Done()`
  timed_out :
      (s : Sessions) (now : ℕ) (key : Text)
      → Step s (record s { mailroom = record_expired_waiter now key s.mailroom })
  -- The deferred `removeWaiter`, at the end of a request.
  removed :
      (s : Sessions) (key : Text) → Step s (record s { mailroom = remove_waiter key s.mailroom })
  -- The notification handler takes a frame.
  handled :
      (s : Sessions) (f : UdpFrame) (rest : List UdpFrame)
      → s.mailroom.notifications ≡ f ∷ rest
      → Step s (record s { mailroom = record s.mailroom { notifications = rest } })

abbrev pub new_sessions : Option ℕ → Sessions
new_sessions capacity = record { mailroom = new_mailroom capacity; received = []; answers = [] }

pub data Reach (capacity : Option ℕ) : Sessions → Type 0 where
  start : Reach capacity (new_sessions capacity)
  later : {s s' : Sessions} → Reach capacity s → Step s s' → Reach capacity s'

abbrev pub Among : {A : Type 0} → A → List A → Type 0
Among a [] = ⊥
Among a (b ∷ bs) = (b ≡ a) ⊎ Among a bs

-- The frame came in, is long enough, and belongs to the key.
pub record IsAnswer (received : List UdpFrame) (key : Text) (f : UdpFrame) : Type 0 where
  pub belongs : frame_key f ≡ key
  pub long_enough : min_response_len ≤ length f.bytes
  pub came_in : Among f received
