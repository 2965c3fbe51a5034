-- ===== src/Tests/Frames.antt =====
-- internal/echonet/protocol.go and client.go: frames of an air conditioner.
use echonet_go.Base.{
  ℕ, ◌≡◌, ◌≤◌, ◌*◌, drop, refl, ◌/◌, ◌%◌, ◌-◌, ◌+◌, ◌&&◌, List, [], ◌∷◌, arith, ok, leb,
  if◌then◌else◌, ltb, length,
}
use echonet_go.Base.Maps.{has}
use echonet_go.Protocol.{
  Property, Eoj, Frame, InfFrame, controller, ehd1, ehd2, esv_infc, esv_infc_res, parse_frame,
  parse_inf_frame, build_infc_res, decode_property_map, byte_at,
}
use echonet_go.Protocol.PropertyMaps.{bit_set, has-decode_property_map}
use echonet_go.Protocol.RoundTrip.{frame_of, parse_inf_frame-build_infc_res}
use echonet_go.Protocol.Sound.{Splits, parse_frame_lem, parse_frame-ok}

abbrev home_ac : Eoj
home_ac = record { b0 = 1; b1 = 0x30; b2 = 1 }

abbrev power_on : Property
power_on = record { epc = 0x80; pdc = 1; edt = 0x30 ∷ [] }

abbrev announcement : InfFrame
announcement = record {
  tid = 258;
  seoj = home_ac;
  deoj = controller;
  esv = esv_infc;
  props = power_on ∷ [];
}

parse_inf_frame-build_infc_res_example :
    parse_inf_frame (build_infc_res announcement)
    ≡ ok (frame_of 258 controller home_ac esv_infc_res (power_on ∷ []))
parse_inf_frame-build_infc_res_example =
    parse_inf_frame-build_infc_res announcement (omega arith) (omega arith) (omega arith, tt)

-- A reply that promises two properties and is cut short after one.
abbrev cut_reply : List ℕ
cut_reply =
    0x10 ∷ 0x81 ∷ 0 ∷ 7 ∷ 1 ∷ 0x30 ∷ 1 ∷ 5 ∷ 0xFF ∷ 1 ∷ 0x72 ∷ 2 ∷ 0x80 ∷ 1 ∷ 0x30 ∷ 0xB0 ∷ 1 ∷ []

parse_frame_lem_example :
    (f : Frame) × (parse_frame cut_reply ≡ ok f)
    × (f.tid ≡ byte_at cut_reply 2 * 256 + byte_at cut_reply 3)
    × (f.esv ≡ byte_at cut_reply 10)
    × Splits (byte_at cut_reply 11) (drop 12 cut_reply) f.props
parse_frame_lem_example = parse_frame_lem cut_reply (omega arith) refl refl

parse_frame-ok_example :
    (12 ≤ length cut_reply) × (byte_at cut_reply 0 ≡ ehd1) × (byte_at cut_reply 1 ≡ ehd2)
parse_frame-ok_example =
    parse_frame-ok cut_reply {f = parse_frame_lem_example.0} parse_frame_lem_example.1

-- A map of seventeen bytes with the codes 0x80 and 0xF0.
abbrev bit_map : List ℕ
bit_map = 2 ∷ 0x81 ∷ 0 ∷ 0 ∷ 0 ∷ 0 ∷ 0 ∷ 0 ∷ 0 ∷ 0 ∷ 0 ∷ 0 ∷ 0 ∷ 0 ∷ 0 ∷ 0 ∷ 0 ∷ []

has-decode_property_map_example : has 0xF0 (decode_property_map bit_map) ≡ (
    if ltb (length bit_map) 17
    then has 0xF0 (drop 1 bit_map)
    else leb 0x80 0xF0 && bit_set (byte_at bit_map (0xF0 % 16 + 1)) (0xF0 / 16 - 8))
has-decode_property_map_example = has-decode_property_map bit_map 0xF0 (omega arith)
