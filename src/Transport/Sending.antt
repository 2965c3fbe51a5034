-- ===== src/Transport/Sending.antt =====
-- internal/echonet/transport.go: one request, from its socket to its answer or its error, in the time in
-- which it holds the lock of its host. `Network` is the part of the operating system and of package
-- net that a request uses. What happens while it waits is a list of events, which end with its timer.
use echonet_go.Base.{
  ℕ, zero, suc, Bool, true, false, not, ◌||◌, Option, none, some, List, [], ◌∷◌, ◌++◌, ltb, ◌==◌,
  if◌then◌else◌, length, is_some, Result, ok, err,
}
use echonet_go.Base.Maps.{lookup, text_key}
use echonet_go.Base.Texts.{Text, text, text_eq}
use echonet_go.Specs.{to_lower}
use echonet_go.Commander.Values.{after_prefix}
use echonet_go.Transport.{
  UdpFrame, Mailroom, min_response_len, frame_tid, waiter_key, add_waiter, remove_waiter,
  record_expired_waiter, receive,
}

-- An error: what `errors.As` and `errors.Is` find in it, and its text. `timeout` is that of a
-- `net.Error`, `no_bind` stands for EADDRINUSE and EACCES, `closed` for `net.ErrClosed`.
pub record SendError : Type 0 where
  pub timeout : Bool
  pub no_bind : Bool
  pub closed : Bool
  pub message : Text

-- `strings.Contains`
unfoldable pub contains : Text → Text → Bool
contains [] part = is_some (after_prefix part [])
contains (c ∷ s) part =
    let rest = contains s part in if is_some (after_prefix part (c ∷ s)) then true else rest

-- `isTimeoutError`, of an error.
unfoldable pub is_timeout_error : SendError → Bool
unfolding contains
is_timeout_error e = e.timeout || contains (to_lower e.message) (text "i/o timeout")

-- `isPortBindFailure`
unfoldable pub is_port_bind_failure : SendError → Bool
unfolding contains
is_port_bind_failure e =
    let message = to_lower e.message in
    if e.no_bind
    then true
    else contains message (text "address already in use")
      || contains message (text "permission denied")

-- `fmt.Errorf(... %w)`: the flags stay, the message gets longer.
abbrev pub wrap : Text → SendError → SendError
wrap before e = record e { message = before ++ e.message }

-- What a request may see while it waits: a datagram at the shared socket, its timer, or the end of its
-- context.
pub data Event : Type 0 where
  arrives : UdpFrame → Event
  timer : ℕ → Event
  cancelled : ℕ → SendError → Event

abbrev pub Socket : Type 0
Socket = ℕ

pub record Network : Type 1 where
  pub W : Type 0
  -- `ctx.Err()`
  pub ctx_err : W → Option SendError
  -- `net.ResolveUDPAddr`
  pub resolve : Text → W → Result SendError Text × W
  -- `openUDPConn`
  pub open_socket : ℕ → W → Result SendError Socket × W
  pub close : Socket → W → W
  -- `WriteToUDP`
  pub write : Socket → List ℕ → Text → W → Option SendError × W
  pub events : W → List Event × W
  -- `ReadFromUDP` of a socket of its own
  pub read : Socket → W → Result SendError UdpFrame × W

-- `echonetPort` and `maxSendAttempts`
abbrev pub echonet_port : ℕ
echonet_port = 3610

abbrev pub max_send_attempts : ℕ
max_send_attempts = 2

module _ (net : Network) where
  open net use {W}

  -- The transport: the shared socket, if it is open, the mailroom, and the world.
  pub record Line : Type 0 where
    pub fixed_conn : Option Socket
    pub mailroom : Mailroom
    pub world : W

  abbrev pub Outcome : Type 0
  Outcome = Result SendError (List ℕ) × Line

  abbrev pub with_world : Line → W → Line
  with_world l w = record l { world = w }

  unfoldable pub opened : Line → Result SendError Socket × W → Result SendError Socket × Line
  opened l (err e, w) = (err e, with_world l w)
  opened l (ok c, w) = (ok c, record l { fixed_conn = some c; world = w })

  unfoldable pub fixed_or_open : Option Socket → Line → Result SendError Socket × Line
  unfolding opened
  fixed_or_open (some c) l = (ok c, l)
  fixed_or_open none l = opened l (net.open_socket echonet_port l.world)

  -- `getOrCreateFixedConn`
  unfoldable pub get_or_create_fixed_conn : Line → Result SendError Socket × Line
  unfolding fixed_or_open
  get_or_create_fixed_conn l = fixed_or_open l.fixed_conn l

  -- `resetFixedConn`
  unfoldable pub reset_fixed_conn : Socket → Line → Line
  reset_fixed_conn old l = reset l.fixed_conn
    where
      reset : Option Socket → Line
      reset none = l
      reset (some c) =
          if c == old then record l { fixed_conn = none; world = net.close old l.world } else l

  unfoldable pub deliver : Text → Option (Option UdpFrame) → Outcome → Line → Outcome
  deliver key (some (some f)) rest l =
      (ok f.bytes, record l { mailroom = remove_waiter key l.mailroom })
  deliver key _ rest l = rest

  abbrev timeout_error : SendError
  timeout_error = record {
    timeout = false;
    no_bind = false;
    closed = false;
    message = text "i/o timeout";
  }

  unfoldable pub give_up : ℕ → Text → SendError → Line → Outcome
  give_up now key e l =
      (err e, record l { mailroom = remove_waiter key (record_expired_waiter now key l.mailroom) })

  -- The `select`: the datagrams go through the receiver until there is one for this request.
  unfoldable pub await : Text → List Event → Line → Outcome
  unfolding deliver give_up
  await key [] l = give_up 0 key timeout_error l
  await key (timer now ∷ events) l = give_up now key timeout_error l
  await key (cancelled now e ∷ events) l = give_up now key e l
  await key (arrives f ∷ events) l =
      let l' = record l { mailroom = receive f l.mailroom } in
      deliver key (lookup key l'.mailroom.waiters) (await key events l') l'

  abbrev pub forget : Text → SendError → Line → Outcome
  forget key e l = (err e, record l { mailroom = remove_waiter key l.mailroom })

  unfoldable pub await_reply : Text → Line → Outcome
  unfolding await
  await_reply key l = let (events, w) = net.events l.world in await key events (with_world l w)

  -- The second write, after a closed socket was replaced.
  unfoldable pub rewritten : Text → Option SendError × W → Line → Outcome
  unfolding await_reply
  rewritten key (some e, w) l = forget key e (with_world l w)
  rewritten key (none, w) l = await_reply key (with_world l w)

  unfoldable pub reopened : Text → List ℕ → Text → Result SendError Socket × Line → Outcome
  unfolding rewritten
  reopened key req remote (err e, l) = forget key e l
  reopened key req remote (ok c, l) = rewritten key (net.write c req remote l.world) l

  unfoldable pub written : Text → Socket → List ℕ → Text → Option SendError × W → Line → Outcome
  unfolding reopened
  written key c req remote (none, w) l = await_reply key (with_world l w)
  written key c req remote (some e, w) l =
      if e.closed
      then reopened key req remote (get_or_create_fixed_conn (reset_fixed_conn c (with_world l w)))
      else forget key e (with_world l w)

  unfoldable pub via_socket : List ℕ → ℕ → Text → Result SendError Socket × Line → Outcome
  unfolding written
  via_socket req tid remote (err e, l) = (err e, l)
  via_socket req tid remote (ok c, l) =
      let key = waiter_key remote tid in
      let l' = record l { mailroom = add_waiter key l.mailroom } in
      written key c req remote (net.write c req remote l'.world) l'

  -- `sendViaSharedFixedPort`
  unfoldable pub send_via_shared_fixed_port : List ℕ → ℕ → Text → Line → Outcome
  unfolding via_socket
  send_via_shared_fixed_port req tid remote l =
      via_socket req tid remote (get_or_create_fixed_conn l)

  unfoldable pub judge_frame :
      ℕ → Text → Outcome → Option SendError → Result SendError UdpFrame × W → Line → Outcome
  judge_frame tid remote rest (some e) r l = (err e, l)
  judge_frame tid remote rest none (err e, w) l = (err e, with_world l w)
  judge_frame tid remote rest none (ok f, w) l =
      if not (text_eq f.from remote)
        || (ltb (length f.bytes) min_response_len || not (frame_tid f.bytes == tid))
      then rest
      else (ok f.bytes, with_world l w)

  -- The loop of `writeAndRead`, with as many rounds as there are datagrams before the deadline, at
  -- which a read fails.
  unfoldable pub read_loop : ℕ → Socket → ℕ → Text → Line → Outcome
  unfolding judge_frame
  read_loop zero c tid remote l = (err timeout_error, l)
  read_loop (suc rounds) c tid remote l =
      let r = net.read c l.world in
      judge_frame tid remote (read_loop rounds c tid remote (with_world l r.1))
        (net.ctx_err l.world) r l

  unfoldable pub wrote : ℕ → Socket → ℕ → Text → Option SendError × W → Line → Outcome
  wrote rounds c tid remote (some e, w) l = (err e, with_world l w)
  wrote rounds c tid remote (none, w) l = read_loop rounds c tid remote (with_world l w)

  -- `writeAndRead`
  unfoldable pub write_and_read : ℕ → Socket → List ℕ → ℕ → Text → Line → Outcome
  unfolding wrote
  write_and_read rounds c req tid remote l =
      wrote rounds c tid remote (net.write c req remote l.world) l

  unfoldable pub closing : Socket → Outcome → Outcome
  closing c (r, l) = (r, with_world l (net.close c l.world))

  unfoldable pub via_own : ℕ → List ℕ → ℕ → Text → Result SendError Socket × W → Line → Outcome
  unfolding closing
  via_own rounds req tid remote (err e, w) l = (err e, with_world l w)
  via_own rounds req tid remote (ok c, w) l =
      closing c (write_and_read rounds c req tid remote (with_world l w))

  unfoldable pub from_port : ℕ → List ℕ → ℕ → ℕ → Result SendError Text × W → Line → Outcome
  unfolding via_own
  from_port rounds req tid port (err e, w) l = (err e, with_world l w)
  from_port rounds req tid port (ok remote, w) l =
      if port == echonet_port
      then send_via_shared_fixed_port req tid remote (with_world l w)
      else via_own rounds req tid remote (net.open_socket port w) (with_world l w)

  -- `sendFromPort`
  unfoldable pub send_from_port : ℕ → Text → List ℕ → ℕ → ℕ → Line → Outcome
  unfolding from_port
  send_from_port rounds host req tid port l =
      from_port rounds req tid port (net.resolve host l.world) l

  -- What an attempt leads to: the end, or the attempts that are left.
  unfoldable pub retry : Bool → (Line → Outcome) → Outcome → Outcome
  retry last again (ok d, l) = (ok d, l)
  retry last again (err e, l) = if not (is_timeout_error e) || last then (err e, l) else again l

  -- One attempt, unless the context has ended.
  unfoldable pub attempt :
      Bool → (Line → Outcome) → (Line → Outcome) → Option SendError → Line → Outcome
  unfolding retry
  attempt last again send (some e) l = (err e, l)
  attempt last again send none l = retry last again (send l)

  -- The loop of `sendWithRetry`, over the attempts that are left; `send` is `sendFromPort`.
  unfoldable pub attempts : ℕ → (Line → Outcome) → Line → Outcome
  unfolding attempt
  attempts zero send l = (err timeout_error, l)
  attempts (suc left) send l = attempt (left == 0) (attempts left send) send (net.ctx_err l.world) l

  -- `sendWithRetry`
  unfoldable pub send_with_retry : (Line → Outcome) → Line → Outcome
  unfolding attempts
  send_with_retry = attempts max_send_attempts

  unfoldable pub fallback : SendError → Outcome → Outcome
  fallback first (ok d, l) = (ok d, l)
  fallback first (err e, l) = (
    err (
        wrap
          (text "failed local UDP port 3610 ("
            ++ (first.message ++ text "), ephemeral fallback also failed: "))
          e),
    l,
  )

  -- The end of `Send`, behind the attempts from the port 3610.
  unfoldable pub after_attempts : Bool → Text → (Line → Outcome) → Outcome → Outcome
  unfolding fallback
  after_attempts strict host other (ok d, l) = (ok d, l)
  after_attempts strict host other (err e, l) =
      if strict
      then (
        err (
            wrap
              (text "failed to send from required local UDP port 3610 to " ++ (host ++ text ": "))
              e),
        l,
      )
      else if is_port_bind_failure e
      then fallback e (other l)
      else (err e, l)

  -- `Send`, from the address with its port on; `strict` is `strictSource`.
  unfoldable pub send : Bool → ℕ → Text → Text → List ℕ → ℕ → Line → Outcome
  unfolding after_attempts
  send strict rounds host host_key req tid l =
      after_attempts strict host_key (send_from_port rounds host req tid 0)
        (send_with_retry (send_from_port rounds host req tid echonet_port) l)
