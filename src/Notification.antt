-- ===== src/Notification.antt =====
-- internal/echonet/notification.go: what becomes of an unsolicited frame. The acknowledgement is put
-- down as sent when it is handed to the socket; an error of the socket changes nothing else. Log lines
-- are left out.
pub mod Acknowledge
use echonet_go.Base.{
  ℕ, Bool, true, false, not, ◌&&◌, Option, none, some, List, [], ◌∷◌, ltb, ◌==◌, if◌then◌else◌,
  length, Result, ok, err,
}
use echonet_go.Base.Texts.{Text, text_eq}
use echonet_go.Protocol.{
  Property, Eoj, FrameError, InfFrame, is_notification, parse_inf_frame, build_infc_res, esv_infc,
}

-- What the handler does about a frame: the bytes that it sends back, and what it calls back with.
pub record Outcome : Type 0 where
  pub sent : Option (List ℕ)
  pub called : Option (Text × Eoj × List Property)

abbrev pub ignored : Outcome
ignored = record { sent = none; called = none }

-- The addresses of the devices, in `NotificationHandler`.
unfoldable pub is_known : Text → List Text → Bool
is_known ip [] = false
is_known ip (d ∷ devices) = let rest = is_known ip devices in if text_eq d ip then true else rest

-- `RegisterDevice`
unfoldable pub register_device : Text → List Text → List Text
unfolding is_known
register_device ip devices = if is_known ip devices then devices else ip ∷ devices

-- `sendINFCRes`: nothing is sent without a shared socket.
unfoldable pub send_infc_res : Bool → InfFrame → Option (List ℕ)
send_infc_res false inf = none
send_infc_res true inf = some (build_infc_res inf)

unfoldable pub handle_known : Bool → Text → InfFrame → Outcome
unfolding send_infc_res
handle_known has_socket ip inf = record {
  sent = if inf.esv == esv_infc then send_infc_res has_socket inf else none;
  called = if ltb 0 (length inf.props) then some (ip, inf.seoj, inf.props) else none;
}

unfoldable pub handle_parsed : Bool → List Text → Text → Result FrameError InfFrame → Outcome
unfolding handle_known is_known
handle_parsed has_socket devices ip (err e) = ignored
handle_parsed has_socket devices ip (ok inf) =
    if not (is_notification inf)
    then ignored
    else if not (is_known ip devices)
    then ignored
    else handle_known has_socket ip inf

-- `handleFrame`, with a callback and an address of the sender.
unfoldable pub handle_frame : Bool → List Text → Text → List ℕ → Outcome
unfolding handle_parsed
handle_frame has_socket devices ip bytes =
    handle_parsed has_socket devices ip (parse_inf_frame bytes)
