-- ===== src/Tests/Sockets.antt =====
-- internal/echonet/transport.go and internal/config/config.go: a request that is answered, one that is
-- not, and a configuration of one device.
use echonet_go.Base.{
  ℕ, ◌≡◌, ◌≤◌, ◌+◌, refl, true, false, none, some, [], ◌∷◌, arith, length, ok, err, if◌then◌else◌,
  inl,
}
use echonet_go.Base.Int.{pos}
use echonet_go.Base.Maps.{lookup, insert, text_key}
use echonet_go.Base.Texts.{Text, text, text_eq}
use echonet_go.Cache.{Device}
use echonet_go.Config.{
  Config, Environment, Files, not_exist, timeout_variable, bool_variable, broker_variable, validate,
  sanitize, interfaces_variable, first_variable,
}
use echonet_go.Config.Loading.{load, and_then, load_additional_devices, load_devices_file}
use echonet_go.Config.Sanitized.{IsLoaded, load-IsLoaded}
use echonet_go.Identity.{hex_byte}
use echonet_go.Transport.{
  UdpFrame, new_mailroom, add_waiter, waiter_key, frame_tid, offer, frame_key, receive,
  min_response_len,
}
use echonet_go.Transport.Answers.{Reach-answers}
use echonet_go.Transport.Attempts.{first_match, bytes_of, data_of, await-first_match}
use echonet_go.Transport.Bounds.{IsBounded, Reach-IsBounded}
use echonet_go.Transport.Sending.{SendError, arrives, timer, Network, Line, await}
use echonet_go.Transport.Sessions.{
  Sessions, Among, Reach, start, later, new_sessions, register, datagram, answered,
}

abbrev reply : UdpFrame
reply = record {
  from = text "192.168.0.5";
  bytes = 0x10 ∷ 0x81 ∷ 0 ∷ 7 ∷ 1 ∷ 0x30 ∷ 1 ∷ 5 ∷ 0xFF ∷ 1 ∷ 0x72 ∷ 0 ∷ [];
}

abbrev reply_key : Text
reply_key = waiter_key (text "192.168.0.5") 7

abbrev asked : Sessions
asked = record (new_sessions (some 16)) { mailroom = add_waiter reply_key (new_mailroom (some 16)) }

abbrev heard : Sessions
heard = record { mailroom = receive reply asked.mailroom; received = reply ∷ []; answers = [] }

abbrev served : Sessions
served = record {
  mailroom = add_waiter reply_key heard.mailroom;
  received = reply ∷ [];
  answers = (reply_key, reply) ∷ [];
}

reply_waits : lookup reply_key heard.mailroom.waiters ≡ some (some reply)
unfolding receive offer add_waiter frame_key frame_tid waiter_key hex_byte lookup insert text_eq
reply_waits = refl

served_reached : Reach (some 16) served
served_reached =
    later (later (later start (register _ reply_key)) (datagram asked reply))
      (answered heard reply_key reply reply_waits)

Reach-IsBounded_example : IsBounded (some 16) served.mailroom
Reach-IsBounded_example = Reach-IsBounded (some 16) served served_reached

Reach-answers_example :
    (reply.from ≡ text "192.168.0.5")
    × (frame_tid reply.bytes ≡ 7)
    × (min_response_len ≤ length reply.bytes)
    × Among reply served.received
Reach-answers_example =
    Reach-answers (some 16) served served_reached (text "192.168.0.5") 7 reply (omega arith)
      (
        omega arith,
        (
          omega arith,
          (
            omega arith,
            (
              omega arith,
              (
                omega arith,
                (
                  omega arith,
                  (
                    omega arith,
                    (omega arith, (omega arith, (omega arith, (omega arith, (omega arith, tt))))),
                  ),
                ),
              ),
            ),
          ),
        ),
      )
      (inl refl)

-- A network in which nothing works.
abbrev no_network : Network
no_network = record {
  W = ℕ;
  ctx_err = λ w. none;
  resolve = λ host w. (ok host, w);
  open_socket = λ port w. (ok port, w);
  close = λ c w. w;
  write = λ c d host w. (none, w + 1);
  events = λ w. ([], w);
  read = λ c w. (err no_answer, w);
}
  where
    no_answer : SendError
    no_answer = record { timeout = true; no_bind = false; closed = false; message = [] }

abbrev waiting_line : Line no_network
waiting_line = record {
  fixed_conn = none;
  mailroom = add_waiter reply_key (new_mailroom (some 16));
  world = 0;
}

await-first_match_example :
    data_of (await no_network reply_key (arrives reply ∷ timer 5 ∷ []) waiting_line).0
    ≡ bytes_of (first_match reply_key (arrives reply ∷ timer 5 ∷ []))
unfolding add_waiter insert lookup waiter_key text_eq hex_byte
await-first_match_example =
    await-first_match no_network reply_key (arrives reply ∷ timer 5 ∷ []) waiting_line refl

abbrev lamp : Device
lamp = record {
  name = text "desk/lamp";
  ip = text "192.168.0.7";
  class = text "light";
  manufacturer = [];
  model = [];
  labels = [];
  scrape_interval = [];
}

abbrev environment : Environment
environment = record {
  getenv = λ name. if text_eq name (text "ECHONET_DEVICES") then text "[]" else [];
  atoi = λ t. none;
  parse_bool = λ t. none;
}

abbrev files : Files
files = record {
  read_file = λ path. err not_exist;
  unmarshal_json = λ t. none;
  unmarshal_yaml = λ t. none;
  unmarshal_list = λ t. some (lamp ∷ []);
}

abbrev lamp_config : Config
lamp_config = record {
  listen_addr = text ":9191";
  scrape_timeout_sec = pos 15;
  strict_source_port_3610 = true;
  devices_path = text "etc/devices.yaml";
  specs_dir = [];
  metrics_enabled = false;
  notifications_enabled = true;
  force_polling = false;
  multicast_interfaces = [];
  devices = record lamp { name = text "desk_lamp" } ∷ [];
  mqtt = record {
    broker = [];
    username = [];
    password = [];
    topic_prefix = text "echonetgo";
    discovery_prefix = text "homeassistant";
  };
}

load-IsLoaded_example : IsLoaded lamp_config
unfolding load text_eq and_then timeout_variable bool_variable broker_variable
    load_additional_devices load_devices_file validate sanitize interfaces_variable first_variable
load-IsLoaded_example = load-IsLoaded environment files lamp_config refl
