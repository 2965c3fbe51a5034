-- ===== src/Transport.antt =====
-- internal/echonet/transport.go: the shared UDP socket. Requests wait under a key for a datagram that
-- the receiver hands to them; other datagrams go to the notification handler. A time is a number of
-- nanoseconds. Log lines, and the callers' names that only they show, are left out.
pub mod Bounds
pub mod Answers
pub mod Keys
pub mod Sessions
pub mod Sending
pub mod Attempts
pub mod Writes
use echonet_go.Base.{
  ℕ, suc, ◌+◌, ◌-◌, ◌*◌, ◌/◌, ◌%◌, ◌^◌, Bool, true, false, not, ◌&&◌, ◌||◌, Option, none, some,
  List, [], ◌∷◌, ◌++◌, ltb, leb, ◌==◌, if◌then◌else◌, length, keep,
}
use echonet_go.Base.Maps.{lookup, insert, delete, text_key}
use echonet_go.Base.Texts.{Text, text}
use echonet_go.Identity.{hex_byte}
use echonet_go.Protocol.{byte_at}

-- `NextTID`: the counter of 32 bits, of which the number shows the lower 16.
unfoldable pub next_tid : ℕ → ℕ × ℕ
next_tid counter = let next = (counter + 1) % 2 ^ 32 in (next % 2 ^ 16, next)

-- `waiterKey`: `host + "|" + %04x`
unfoldable pub waiter_key : Text → ℕ → Text
waiter_key host tid = host ++ (b'|' ∷ (hex_byte (tid / 256) ++ hex_byte (tid % 256)))

-- `UDPFrame`, with the address as text; the port only shows in log lines.
pub record UdpFrame : Type 0 where
  pub from : Text
  pub bytes : List ℕ

-- `minResponseLen`
abbrev pub min_response_len : ℕ
min_response_len = 12

-- `binary.BigEndian.Uint16(buf[2:4])`
unfoldable pub frame_tid : List ℕ → ℕ
frame_tid d = byte_at d 2 * 256 + byte_at d 3

-- The key under which a datagram finds its waiter.
unfoldable pub frame_key : UdpFrame → Text
unfolding waiter_key
frame_key f = waiter_key f.from (frame_tid f.bytes)

-- What the receiver and the requests share. A waiter is a channel for one frame; the notification
-- channel has a capacity, and is none where nothing was set.
pub record Mailroom : Type 0 where
  pub waiters : List (Text × Option UdpFrame)
  pub expired_waiters : List (Text × ℕ)
  pub notifications : List UdpFrame
  pub capacity : Option ℕ

-- `NewTransport` and `SetNotificationChan`
abbrev pub new_mailroom : Option ℕ → Mailroom
new_mailroom capacity = record {
  waiters = [];
  expired_waiters = [];
  notifications = [];
  capacity = capacity;
}

-- `addWaiter`, with a new channel.
unfoldable pub add_waiter : Text → Mailroom → Mailroom
add_waiter key m = record m { waiters = insert key none m.waiters }

-- `removeWaiter`
unfoldable pub remove_waiter : Text → Mailroom → Mailroom
remove_waiter key m = record m { waiters = delete key m.waiters }

-- `maxExpiredWaiters` and `expiredWaitersTTL`
abbrev pub max_expired_waiters : ℕ
max_expired_waiters = 128

abbrev pub expired_waiters_ttl : ℕ
expired_waiters_ttl = 30000000000

-- The entries that are not too old.
unfoldable pub fresh : ℕ → List (Text × ℕ) → List (Text × ℕ)
fresh now = keep (λ e. leb (now - e.1) expired_waiters_ttl)

-- Room for one more entry.
unfoldable pub make_room : ℕ → List (Text × ℕ) → List (Text × ℕ)
unfolding fresh
make_room now expired =
    if ltb (length expired) max_expired_waiters
    then expired
    else (let kept = fresh now expired in
        if ltb (length kept) max_expired_waiters then kept else [])

-- `recordExpiredWaiter`
unfoldable pub record_expired_waiter : ℕ → Text → Mailroom → Mailroom
unfolding make_room
record_expired_waiter now key m = record m {
  expired_waiters = insert key now (make_room now m.expired_waiters);
}

-- `checkAndPopExpiredWaiter`, whose result is logged.
unfoldable pub pop_expired_waiter : Text → Mailroom → Mailroom
pop_expired_waiter key m = record m { expired_waiters = delete key m.expired_waiters }

-- A frame for the notification handler; one that finds the channel full is dropped.
unfoldable pub notify : UdpFrame → Option ℕ → Mailroom → Mailroom
notify f none m = m
notify f (some capacity) m =
    if ltb (length m.notifications) capacity
    then record m { notifications = m.notifications ++ (f ∷ []) }
    else m

-- A frame for a waiter; one that comes behind another is dropped.
unfoldable pub offer : UdpFrame → Text → Option (Option UdpFrame) → Mailroom → Mailroom
unfolding notify pop_expired_waiter
offer f key none m = notify f m.capacity (pop_expired_waiter key m)
offer f key (some none) m = record m { waiters = insert key (some f) m.waiters }
offer f key (some (some g)) m = m

-- The body of the loop of `startFixedConnReceiver`, for a datagram.
unfoldable pub receive : UdpFrame → Mailroom → Mailroom
unfolding offer
receive f m =
    if ltb (length f.bytes) min_response_len
    then m
    else (let key = frame_key f in offer f key (lookup key m.waiters) m)
