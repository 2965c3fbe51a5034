-- ===== src/Protocol/RoundTrip.antt =====
-- What the frame builders write, the frame parser reads back.
use echonet_go.Base.{
  ℕ, suc, ◌<◌, ◌≡◌, refl, ap, sym, ◌∙◌, List, [], ◌∷◌, ◌++◌, map, arith, length, All, ok,
}
use echonet_go.Protocol.{
  Property, Eoj, InfFrame, parse_props, encode_props, epc_list, to_byte, get_request, set_request,
  set_i_request, build_infc_res, parse_inf_frame, parse_frame, header, controller, esv_get,
  esv_set_c, esv_set_i, esv_infc_res,
}
use echonet_go.Protocol.Bytes.{IsSized, parse_props-cons, parse_props-encode_props}
use mathlib.Core.List.{append-nil}

abbrev pub frame_of : ℕ → Eoj → Eoj → ℕ → List Property → InfFrame
frame_of tid seoj deoj esv props = record {
  tid = tid;
  seoj = seoj;
  deoj = deoj;
  esv = esv;
  props = props;
}

-- A header in front of a body: the fields come back, and the body is left to the property loop.
parse_inf_frame-header :
    (tid : ℕ) (seoj deoj : Eoj) (esv opc : ℕ) (body : List ℕ)
    → tid < 65536
    → parse_inf_frame (header tid seoj deoj esv opc ++ body)
      ≡ ok (frame_of tid seoj deoj esv (parse_props opc body))
unfolding parse_inf_frame parse_frame
parse_inf_frame-header tid seoj deoj esv opc body h = ground arith

epc_list-encode_props :
    (epcs : List ℕ)
    → epc_list epcs ≡ encode_props (map (λ e. record { epc = e; pdc = 0; edt = [] }) epcs)
unfolding epc_list encode_props
epc_list-encode_props [] = refl
epc_list-encode_props (e ∷ epcs) = ap (λ l. e ∷ 0 ∷ l) (epc_list-encode_props epcs)

abbrev pub empty_props : List ℕ → List Property
empty_props epcs = map (λ e. record { epc = e; pdc = 0; edt = [] }) epcs

empty_props-IsSized : (epcs : List ℕ) → All IsSized (empty_props epcs)
empty_props-IsSized [] = tt
empty_props-IsSized (e ∷ epcs) = (refl, empty_props-IsSized epcs)

length-empty_props : (epcs : List ℕ) → length (empty_props epcs) ≡ length epcs
length-empty_props [] = refl
length-empty_props (e ∷ epcs) = ap suc (length-empty_props epcs)

parse_props-All :
    (props : List Property)
    → All IsSized props
    → length props < 256
    → parse_props (to_byte (length props)) (encode_props props) ≡ props
parse_props-All props h small =
    let e : to_byte (length props) ≡ length props = omega arith in
    rw (e, ← append-nil (encode_props props)) (parse_props-encode_props props [] h)

parse_props-single :
    (epc : ℕ) (edt : List ℕ)
    → length edt < 256
    → parse_props 1 (epc ∷ to_byte (length edt) ∷ edt)
      ≡ record { epc = epc; pdc = length edt; edt = edt } ∷ []
parse_props-single epc edt n =
    let size : to_byte (length edt) ≡ length edt = omega arith in
    let one : Property = record { epc = epc; pdc = length edt; edt = edt } in
    rw size (
      ap (λ l. parse_props 1 (epc ∷ length edt ∷ l)) (sym (append-nil edt))
      ∙ parse_props-cons 0 one [] refl
      ∙ ap (◌∷◌ one) (unfold parse_props in refl))

-- An acknowledgement of a notification is read back with the notification's transaction number and
-- properties, from the controller to the object that sent it, if the properties are fewer than 256
-- and each has its length in its length byte.
pub parse_inf_frame-build_infc_res :
    (inf : InfFrame)
    → inf.tid < 65536
    → length inf.props < 256
    → All IsSized inf.props
    → parse_inf_frame (build_infc_res inf)
      ≡ ok (frame_of inf.tid controller inf.seoj esv_infc_res inf.props)
unfolding build_infc_res
parse_inf_frame-build_infc_res inf t n h =
    parse_inf_frame-header inf.tid controller inf.seoj esv_infc_res _ _ t
    ∙ ap (λ ps. ok (frame_of inf.tid controller inf.seoj esv_infc_res ps))
        (parse_props-All inf.props h n)

-- A Get request for fewer than 256 codes is read back as one: the codes in order, with no data.
pub parse_inf_frame-get_request :
    (tid : ℕ) (eoj : Eoj) (epcs : List ℕ)
    → tid < 65536
    → length epcs < 256
    → parse_inf_frame (get_request tid eoj epcs)
      ≡ ok (frame_of tid controller eoj esv_get (empty_props epcs))
unfolding get_request
parse_inf_frame-get_request tid eoj epcs t n =
    parse_inf_frame-header tid controller eoj esv_get _ _ t
    ∙ ap (λ ps. ok (frame_of tid controller eoj esv_get ps))
        (rw (epc_list-encode_props epcs, ← length-empty_props epcs)
          (parse_props-All (empty_props epcs) (empty_props-IsSized epcs)
            (rw (length-empty_props epcs) n)))

-- A SetC and a SetI request with fewer than 256 bytes of data are read back as what was asked.
pub parse_inf_frame-set_requests :
    (tid : ℕ) (eoj : Eoj) (epc : ℕ) (edt : List ℕ)
    → tid < 65536
    → length edt < 256
    → (parse_inf_frame (set_request tid eoj epc edt)
        ≡ ok (
            frame_of tid controller eoj esv_set_c
              (record { epc = epc; pdc = length edt; edt = edt } ∷ [])))
      × (parse_inf_frame (set_i_request tid eoj epc edt)
          ≡ ok (
              frame_of tid controller eoj esv_set_i
                (record { epc = epc; pdc = length edt; edt = edt } ∷ [])))
unfolding set_request set_i_request
parse_inf_frame-set_requests tid eoj epc edt t n = (
  parse_inf_frame-header tid controller eoj esv_set_c 1 _ t
      ∙ ap (λ ps. ok (frame_of tid controller eoj esv_set_c ps)) (parse_props-single epc edt n),
  parse_inf_frame-header tid controller eoj esv_set_i 1 _ t
      ∙ ap (λ ps. ok (frame_of tid controller eoj esv_set_i ps)) (parse_props-single epc edt n),
)
