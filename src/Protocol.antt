-- ===== src/Protocol.antt =====
-- internal/echonet/protocol.go: ECHONET Lite frames. A byte is a number below 256, a frame a list of
-- bytes. `data[pos:]` is carried along in place of `pos` in the loop of `parseFrame`.
pub mod Bytes
pub mod Sound
pub mod RoundTrip
pub mod PropertyMaps
use echonet_go.Base.{
  ℕ, zero, suc, ◌+◌, ◌-◌, ◌*◌, ◌/◌, ◌%◌, ◌^◌, Bool, true, false, not, ◌&&◌, ◌||◌, Option, none,
  some, List, [], ◌∷◌, ◌++◌, map, ltb, leb, ◌==◌, if◌then◌else◌, length, get_or, take, drop, Result,
  ok, err,
}
use echonet_go.Base.Maps.{ByteSet, add}
use echonet_go.Base.Texts.{Text}

-- `Property`
pub record Property : Type 0 where
  pub epc : ℕ
  pub pdc : ℕ
  pub edt : List ℕ

-- `[3]byte`, an ECHONET object: class group, class and instance.
pub record Eoj : Type 0 where
  pub b0 : ℕ
  pub b1 : ℕ
  pub b2 : ℕ

abbrev pub ehd1 : ℕ
ehd1 = 0x10

abbrev pub ehd2 : ℕ
ehd2 = 0x81

abbrev pub esv_set_i : ℕ
esv_set_i = 0x60

abbrev pub esv_set_c : ℕ
esv_set_c = 0x61

abbrev pub esv_get : ℕ
esv_get = 0x62

abbrev pub esv_get_res : ℕ
esv_get_res = 0x72

abbrev pub esv_set_res : ℕ
esv_set_res = 0x71

abbrev pub esv_inf : ℕ
esv_inf = 0x73

abbrev pub esv_infc : ℕ
esv_infc = 0x74

abbrev pub esv_infc_res : ℕ
esv_infc_res = 0x7A

abbrev pub esv_inf_sna : ℕ
esv_inf_sna = 0x53

abbrev pub min_response_len : ℕ
min_response_len = 12

-- `seojController, seojClass, seojInstance`
abbrev pub controller : Eoj
controller = record { b0 = 0x05; b1 = 0xFF; b2 = 0x01 }

-- The Go errors of the package. `transport_error` carries the message of an error that the UDP
-- layer returns.
pub data FrameError : Type 0 where
  too_short : ℕ → FrameError
  invalid_ehd : ℕ → ℕ → FrameError
  esv_error : ℕ → FrameError
  no_epcs no_properties : FrameError
  map_missing : ℕ → FrameError
  transport_error : Text → FrameError

-- `byte(n)`
abbrev pub to_byte : ℕ → ℕ
to_byte n = n % 256

-- The twelve bytes that every frame starts with.
abbrev pub header : ℕ → Eoj → Eoj → ℕ → ℕ → List ℕ
header tid seoj deoj esv opc =
    ehd1
    ∷ ehd2
    ∷ to_byte (tid / 256)
    ∷ to_byte tid
    ∷ seoj.b0
    ∷ seoj.b1
    ∷ seoj.b2
    ∷ deoj.b0
    ∷ deoj.b1
    ∷ deoj.b2
    ∷ esv
    ∷ opc
    ∷ []

-- The loop of `GetRequest`.
unfoldable pub epc_list : List ℕ → List ℕ
epc_list [] = []
epc_list (epc ∷ epcs) = epc ∷ 0 ∷ epc_list epcs

unfoldable pub get_request : ℕ → Eoj → List ℕ → List ℕ
unfolding epc_list
get_request tid eoj epcs =
    header tid controller eoj esv_get (to_byte (length epcs)) ++ epc_list epcs

unfoldable pub set_i_request : ℕ → Eoj → ℕ → List ℕ → List ℕ
set_i_request tid eoj epc edt =
    header tid controller eoj esv_set_i 1 ++ (epc ∷ to_byte (length edt) ∷ edt)

unfoldable pub set_request : ℕ → Eoj → ℕ → List ℕ → List ℕ
set_request tid eoj epc edt =
    header tid controller eoj esv_set_c 1 ++ (epc ∷ to_byte (length edt) ∷ edt)

-- The loop of `parseFrame`: the number of rounds left, and `data[pos:]`. A property that is cut
-- short ends the loop, and what was read stands.
unfoldable pub parse_props : ℕ → List ℕ → List Property
parse_props zero rest = []
parse_props (suc n) [] = []
parse_props (suc n) (epc ∷ []) = []
parse_props (suc n) (epc ∷ pdc ∷ rest) =
    if ltb (length rest) pdc
    then []
    else record { epc = epc; pdc = pdc; edt = take pdc rest } ∷ parse_props n (drop pdc rest)

pub record Frame : Type 0 where
  pub tid : ℕ
  pub esv : ℕ
  pub props : List Property

-- `data[i]`; the code reads below the length only.
abbrev pub byte_at : List ℕ → ℕ → ℕ
byte_at d i = get_or d i 0

unfoldable pub parse_frame : List ℕ → Result FrameError Frame
unfolding parse_props
parse_frame d =
    if ltb (length d) min_response_len
    then err (too_short (length d))
    else if not (byte_at d 0 == ehd1) || not (byte_at d 1 == ehd2)
    then err (invalid_ehd (byte_at d 0) (byte_at d 1))
    else ok (record {
      tid = byte_at d 2 * 256 + byte_at d 3;
      esv = byte_at d 10;
      props = parse_props (byte_at d 11) (drop 12 d);
    })

-- The three results of `ParseGetRes` and `ParseSetRes`: the properties are returned with an error
-- of the service code too.
pub record Parsed : Type 0 where
  pub tid : ℕ
  pub props : List Property
  pub error : Option FrameError

parse_expecting : ℕ → Result FrameError Frame → Parsed
parse_expecting esv (err e) = record { tid = 0; props = []; error = some e }
parse_expecting esv (ok f) = record {
  tid = f.tid;
  props = f.props;
  error = if f.esv == esv then none else some (esv_error f.esv);
}

unfoldable pub parse_get_res : List ℕ → Parsed
unfolding parse_expecting
parse_get_res d = parse_expecting esv_get_res (parse_frame d)

unfoldable pub parse_set_res : List ℕ → Parsed
unfolding parse_expecting
parse_set_res d = parse_expecting esv_set_res (parse_frame d)

-- `isGetSNA`, on the error that a call returned.
unfoldable pub is_get_sna : Option FrameError → Bool
is_get_sna (some (esv_error esv)) = esv == 0x52
is_get_sna _ = false

-- `prop`: the first property of this code that has data.
unfoldable pub prop : List Property → ℕ → Option (List ℕ)
prop [] epc = none
prop (p ∷ props) epc = if p.epc == epc && ltb 0 (length p.edt) then some p.edt else prop props epc

-- `INFFrame`
pub record InfFrame : Type 0 where
  pub tid : ℕ
  pub seoj : Eoj
  pub deoj : Eoj
  pub esv : ℕ
  pub props : List Property

-- `IsNotification`
unfoldable pub is_notification : InfFrame → Bool
is_notification f = f.esv == esv_inf || f.esv == esv_infc || f.esv == esv_inf_sna

unfoldable pub inf_frame : List ℕ → Result FrameError Frame → Result FrameError InfFrame
inf_frame d (err e) = err e
inf_frame d (ok f) = ok (record {
  tid = f.tid;
  seoj = record { b0 = byte_at d 4; b1 = byte_at d 5; b2 = byte_at d 6 };
  deoj = record { b0 = byte_at d 7; b1 = byte_at d 8; b2 = byte_at d 9 };
  esv = f.esv;
  props = f.props;
})

unfoldable pub parse_inf_frame : List ℕ → Result FrameError InfFrame
unfolding inf_frame
parse_inf_frame d = inf_frame d (parse_frame d)

-- The bytes of properties, as the loop of `BuildINFCRes` appends them.
unfoldable pub encode_props : List Property → List ℕ
encode_props [] = []
encode_props (p ∷ props) = (p.epc ∷ p.pdc ∷ p.edt) ++ encode_props props

unfoldable pub build_infc_res : InfFrame → List ℕ
unfolding encode_props
build_infc_res inf =
    header inf.tid controller inf.seoj esv_infc_res (to_byte (length inf.props))
    ++ encode_props inf.props

-- `decodePropertyMap`. With fewer than 17 bytes they are the codes, after a count that is not read.
unfoldable pub add_all : List ℕ → ByteSet → ByteSet
add_all [] out = out
add_all (b ∷ bs) out = add_all bs (add b out)

-- The inner loop over the bits of one byte; `code` is `i - 1`.
unfoldable pub add_bits : ℕ → ℕ → ℕ → ℕ → ByteSet → ByteSet
add_bits zero bit bits code out = out
add_bits (suc n) bit bits code out = add_bits n (bit + 1) bits code (
    if (bits / 2 ^ bit) % 2 == 1
    then add (to_byte (to_byte ((bit + 8) * 0x10) + code)) out
    else out)

-- The outer loop, `n` rounds at most, from byte `code + 1`.
unfoldable pub add_rows : ℕ → ℕ → List ℕ → ByteSet → ByteSet
add_rows zero code rows out = out
add_rows (suc n) code [] out = out
add_rows (suc n) code (bits ∷ rows) out = add_rows n (code + 1) rows (add_bits 8 0 bits code out)

unfoldable pub decode_property_map : List ℕ → ByteSet
unfolding add_all add_bits add_rows
decode_property_map [] = []
decode_property_map (n ∷ bytes) =
    if ltb (length (n ∷ bytes)) 17 then add_all bytes [] else add_rows 16 0 bytes []
