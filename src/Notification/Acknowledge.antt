-- ===== src/Notification/Acknowledge.antt =====
-- internal/echonet/notification.go: which frames are answered and handed on, and what the answer says.
use echonet_go.Base.{
  ℕ, zero, suc, ◌≡◌, ◌≤◌, ◌<◌, ◌∙◌, sym, ◌≢◌, refl, ap, Bool, true, none, some, List, [], ◌∷◌, ltb,
  if◌then◌else◌, length, Result, ok, err, All, arith, Bool-cases, inl, inr,
}
use echonet_go.Base.Texts.{Text}
use echonet_go.Encoder.Integers.{IsByte}
use echonet_go.Notification.{
  ignored, is_known, handle_frame, handle_known, handle_parsed, send_infc_res,
}
use echonet_go.Protocol.{
  FrameError, Property, InfFrame, Frame, is_notification, parse_frame, parse_inf_frame,
  build_infc_res, esv_infc, esv_infc_res, controller, byte_at, inf_frame,
}
use echonet_go.Protocol.Bytes.{IsSized}
use echonet_go.Protocol.RoundTrip.{frame_of, parse_inf_frame-build_infc_res}
use echonet_go.Protocol.Sound.{Splits, parse_frame_lem, parse_frame-ok}

byte_at-IsByte : (d : List ℕ) (i : ℕ) → All IsByte d → byte_at d i < 256
byte_at-IsByte [] i h = omega arith
byte_at-IsByte (b ∷ d) zero h = h.0
byte_at-IsByte (b ∷ d) (suc i) h = byte_at-IsByte d i h.1

-- A frame that was read from bytes has a transaction number of two bytes, at most 255 properties, and
-- each of these has its length in its length byte.
record IsRead (inf : InfFrame) : Type 0 where
  tid : inf.tid < 65536
  count : length inf.props < 256
  sized : All IsSized inf.props

Splits-length :
    (n : ℕ) (bytes : List ℕ) (props : List Property) → Splits n bytes props → length props ≤ n
Splits-length n bytes props s = elim s.stops [
  | inl e ↦ omega (arith, e)
  | inr h ↦ omega (arith, h.0)
]

ok_eq : {A B : Type 0} {x y : B} → ◌≡◌ {A = Result A B} (ok x) (ok y) → x ≡ y
ok_eq e = cc

frame-IsRead :
    (d : List ℕ) (inf : InfFrame) (f : Frame)
    → All IsByte d
    → parse_frame d ≡ ok f
    → (inf.tid ≡ f.tid) × (inf.props ≡ f.props)
    → IsRead inf
frame-IsRead d inf f h e (t, p) =
    let (long, one, two) = parse_frame-ok d e in
    let (g, parsed, tid, esv, s) = parse_frame_lem d long one two in
    let same : f ≡ g = ok_eq (sym e ∙ parsed) in
    let props : inf.props ≡ g.props = p ∙ ap (λ (x : Frame). x.props) same in
    let count : byte_at d 11 < 256 = byte_at-IsByte d 11 h in
    let hi : byte_at d 2 < 256 = byte_at-IsByte d 2 h in
    let lo : byte_at d 3 < 256 = byte_at-IsByte d 3 h in
    record {
      tid = omega (arith, t ∙ ap (λ (x : Frame). x.tid) same, tid, hi, lo);
      count = rw props (omega (arith, Splits-length _ _ g.props s, count));
      sized = rw props s.sized;
    }

parse_inf_frame-IsRead :
    (d : List ℕ) (inf : InfFrame) → All IsByte d → parse_inf_frame d ≡ ok inf → IsRead inf
unfolding parse_inf_frame inf_frame
parse_inf_frame-IsRead d inf h e = go (parse_frame d) refl e
  where
    go : (r : Result FrameError Frame) → parse_frame d ≡ r → inf_frame d r ≡ ok inf → IsRead inf
    go (err x) p q = absurd (cc)
    go (ok f) p q = frame-IsRead d inf f h p (
      ap (λ (x : InfFrame). x.tid) (sym (ok_eq q)),
      ap (λ (x : InfFrame). x.props) (sym (ok_eq q)),
    )

-- A notification of a known device that was read from bytes and asks for an acknowledgement is
-- answered, where there is a socket, by a frame that reads back with the transaction number and the
-- properties of the notification, from the controller to the object that sent it. What it carries
-- is handed on, unless it carries nothing.
pub handle_frame-acknowledges :
    (devices : List Text) (ip : Text) (d : List ℕ) (inf : InfFrame)
    → All IsByte d
    → parse_inf_frame d ≡ ok inf
    → inf.esv ≡ esv_infc
    → is_known ip devices ≡ true
    → (response : List ℕ) × ((handle_frame true devices ip d).sent ≡ some response)
      × (parse_inf_frame response
          ≡ ok (frame_of inf.tid controller inf.seoj esv_infc_res inf.props))
      × ((handle_frame true devices ip d).called
          ≡ (if ltb 0 (length inf.props) then some (ip, inf.seoj, inf.props) else none))
unfolding handle_frame handle_parsed handle_known send_infc_res is_notification
handle_frame-acknowledges devices ip d inf h e esv known =
    let r = parse_inf_frame-IsRead d inf h e in
    (
      build_infc_res inf,
      rw (e, esv, known) refl,
      parse_inf_frame-build_infc_res inf r.tid r.count r.sized,
      rw (e, esv, known) refl,
    )

-- A frame to which the handler does anything at all was read as a notification, and came from a known
-- device.
pub handle_frame-guards :
    (has_socket : Bool) (devices : List Text) (ip : Text) (d : List ℕ)
    → handle_frame has_socket devices ip d ≢ ignored
    → (inf : InfFrame) × (parse_inf_frame d ≡ ok inf)
      × (is_notification inf ≡ true)
      × (is_known ip devices ≡ true)
unfolding handle_frame handle_parsed
handle_frame-guards has_socket devices ip d h = go (parse_inf_frame d) refl h
  where
    go :
        (r : Result FrameError InfFrame)
        → parse_inf_frame d ≡ r
        → handle_parsed has_socket devices ip r ≢ ignored
        → (inf : InfFrame) × (parse_inf_frame d ≡ ok inf)
          × (is_notification inf ≡ true)
          × (is_known ip devices ≡ true)
    go (err x) e k = absurd (k refl)
    go (ok inf) e k = elim (Bool-cases (is_notification inf)) [
      | inr f ↦ absurd (k (rw f refl))
      | inl t ↦ elim (Bool-cases (is_known ip devices)) [
        | inr f ↦ absurd (k (rw (t, f) refl))
        | inl u ↦ (inf, e, t, u)
      ]
    ]
