-- ===== src/Identity.antt =====
-- internal/echonet: how a device names itself, and its property maps (client.go), with the decoders of
-- protocol.go and manufacturers.go that they call. The table of manufacturer names and the two parsers
-- of package net are arguments. Texts are trimmed of ASCII space only.
pub mod Codes
use echonet_go.Base.{
  ℕ, ◌+◌, ◌-◌, ◌*◌, ◌/◌, ◌%◌, Bool, true, false, not, ◌&&◌, ◌||◌, Option, none, some, List, [], ◌∷◌,
  ◌++◌, ltb, leb, ◌==◌, if◌then◌else◌, length, drop, Result, ok, err,
}
use echonet_go.Base.Maps.{ByteSet}
use echonet_go.Base.Texts.{Text, text}
use echonet_go.Client.{Transport, get_props}
use echonet_go.Protocol.{
  Property, Eoj, FrameError, map_missing, esv_error, prop, decode_property_map, byte_at, is_get_sna,
}
use mathlib.Core.List.{reverse}

-- `DeviceInfo`
pub record DeviceInfo : Type 0 where
  pub uid : Text
  pub manufacturer : Text
  pub manufacturer_code : Text
  pub product_code : Text

abbrev pub no_info : DeviceInfo
no_info = record { uid = []; manufacturer = []; manufacturer_code = []; product_code = [] }

-- What the decoders look up elsewhere: the table `manufacturerNames`, `net.ParseIP(s).To4()`, and the
-- label that the transport gives an address.
pub record Lookups : Type 0 where
  pub manufacturer_name : ℕ → Option Text
  pub parse_ip4 : Text → Option (ℕ × ℕ × ℕ × ℕ)
  pub host_label : Text → Text

unfoldable pub hex_digit : ℕ → ℕ
hex_digit d = if ltb d 10 then b'0' + d else b'a' + d - 10

upper_digit : ℕ → ℕ
upper_digit d = if ltb d 10 then b'0' + d else b'A' + d - 10

-- `%02x` of a byte, and `hex.EncodeToString`.
unfoldable pub hex_byte : ℕ → Text
unfolding hex_digit
hex_byte b = hex_digit (b / 16) ∷ hex_digit (b % 16) ∷ []

unfoldable pub hex_text : List ℕ → Text
unfolding hex_byte
hex_text [] = []
hex_text (b ∷ bs) = hex_byte b ++ hex_text bs

-- `%03d` of a byte.
unfoldable pub decimal_byte : ℕ → Text
decimal_byte b = (b'0' + b / 100) ∷ (b'0' + (b / 10) % 10) ∷ (b'0' + b % 10) ∷ []

uid_of_ip : Option (ℕ × ℕ × ℕ × ℕ) → Text
uid_of_ip none = []
uid_of_ip (some (a, b, c, d)) = decimal_byte c ++ decimal_byte d

abbrev pub is_space : ℕ → Bool
is_space c = c == 0x20 || (leb 0x09 c && leb c 0x0D)

-- `strings.TrimRight(s, "\x00")` and `strings.TrimSpace`, on a reversed text and on both ends.
unfoldable pub drop_while : (ℕ → Bool) → Text → Text
drop_while p [] = []
drop_while p (c ∷ s) = let rest = drop_while p s in if p c then rest else c ∷ s

unfoldable pub trim_right : (ℕ → Bool) → Text → Text
unfolding drop_while
trim_right p s = reverse (drop_while p (reverse s))

unfoldable pub trim_space : Text → Text
unfolding drop_while trim_right
trim_space s = drop_while is_space (trim_right is_space s)

-- `decodeProductCode`
unfoldable pub decode_product_code : List ℕ → Text
unfolding trim_space trim_right
decode_product_code edt = trim_space (trim_right (λ c. c == 0) edt)

-- `formatManufacturerCode`
unfoldable pub format_manufacturer_code : List ℕ → Text
unfolding hex_byte
format_manufacturer_code edt =
    if length edt == 3
    then hex_byte (byte_at edt 0) ++ (hex_byte (byte_at edt 1) ++ hex_byte (byte_at edt 2))
    else []

upper_byte : ℕ → Text
upper_byte b = upper_digit (b / 16) ∷ upper_digit (b % 16) ∷ []

-- `0x%06X` of the three bytes.
unfoldable pub unknown_manufacturer : List ℕ → Text
unfolding upper_byte upper_digit
unknown_manufacturer edt =
    text "0x"
    ++ (upper_byte (byte_at edt 0) ++ (upper_byte (byte_at edt 1) ++ upper_byte (byte_at edt 2)))

or_text : Option Text → Text → Text
or_text none d = d
or_text (some s) d = s

module _ (l : Lookups) where
  -- `decodeUID`
  unfoldable pub decode_uid : List ℕ → Text → Text
  unfolding uid_of_ip hex_text decimal_byte
  decode_uid edt host =
      if ltb 1 (length edt) then hex_text (drop 1 edt) else uid_of_ip (l.parse_ip4 host)

  -- `decodeManufacturer`
  unfoldable pub decode_manufacturer : List ℕ → Text
  unfolding or_text unknown_manufacturer
  decode_manufacturer edt =
      if length edt == 3
      then or_text
          (l.manufacturer_name (byte_at edt 0 * 65536 + byte_at edt 1 * 256 + byte_at edt 2))
          (unknown_manufacturer edt)
      else []

  -- The `switch p.EPC` over the properties of a reply.
  unfoldable pub take_identity : Text → List Property → DeviceInfo → DeviceInfo
  unfolding decode_uid decode_manufacturer format_manufacturer_code decode_product_code
  take_identity host [] info = info
  take_identity host (p ∷ props) info = take_identity host props (
      if p.epc == 0x83
      then record info { uid = decode_uid p.edt host }
      else if p.epc == 0x8A
      then record info {
        manufacturer = decode_manufacturer p.edt;
        manufacturer_code = format_manufacturer_code p.edt;
      }
      else if p.epc == 0x8C
      then record info { product_code = decode_product_code p.edt }
      else info)

abbrev pub is_empty : Text → Bool
is_empty s = length s == 0

-- The codes whose values are not known yet.
unfoldable pub missing_identity : DeviceInfo → List ℕ
missing_identity info =
    (if is_empty info.uid then 0x83 ∷ [] else [])
    ++ ((if is_empty info.manufacturer then 0x8A ∷ [] else [])
        ++ (if is_empty info.product_code then 0x8C ∷ [] else []))

abbrev pub node_profile : Eoj
node_profile = record { b0 = 0x0E; b1 = 0xF0; b2 = 0x01 }

-- Go's `==` on `[3]byte`.
abbrev pub eoj_eq : Eoj → Eoj → Bool
eoj_eq a b = a.b0 == b.b0 && (a.b1 == b.b1 && a.b2 == b.b2)

-- The properties to go on with: an error other than Get_SNA ends the call.
unfoldable pub props_or_fail : Result FrameError (List Property) → Result FrameError (List Property)
props_or_fail (ok props) = ok props
props_or_fail (err e) = if is_get_sna (some e) then ok [] else err e

module _ (tr : Transport) (addr : Text) where
  open tr use {W}

  map_of : ℕ → Option (List ℕ) → Result FrameError ByteSet
  map_of epc none = err (map_missing epc)
  map_of epc (some edt) = ok (decode_property_map edt)

  map_result : ℕ → Result FrameError (List Property) × W → Result FrameError ByteSet × W
  map_result epc (err e, w) = (err e, w)
  map_result epc (ok props, w) = (map_of epc (prop props epc), w)

  -- The common body of `GetReadablePropertyMap`, `GetWritablePropertyMap` and
  -- `GetNotificationPropertyMap`, which read 0x9F, 0x9E and 0x9D.
  unfoldable pub get_property_map : Eoj → ℕ → W → Result FrameError ByteSet × W
  unfolding map_of map_result
  get_property_map eoj epc w = map_result epc (get_props tr addr eoj (epc ∷ []) w)

  module _ (l : Lookups) where
    -- The second query, to the node profile, for what is still missing.
    from_node_profile :
        Eoj → DeviceInfo → Result FrameError (List Property) × W → Result FrameError DeviceInfo × W
    from_node_profile eoj info (err e, w) = (err e, w)
    from_node_profile eoj info (ok props, w) =
        (ok (take_identity l (l.host_label addr) props info), w)

    complete_info : Eoj → DeviceInfo → W → Result FrameError DeviceInfo × W
    unfolding from_node_profile
    complete_info eoj info w =
        if (is_empty info.uid || (is_empty info.manufacturer || is_empty info.product_code))
          && not (eoj_eq eoj node_profile)
        then (let (r, w') = get_props tr addr node_profile (missing_identity info) w in
            from_node_profile eoj info (props_or_fail r, w'))
        else (ok info, w)

    after_first :
        Eoj → Text → Result FrameError (List Property) × W → Result FrameError DeviceInfo × W
    after_first eoj known_model (err e, w) = (err e, w)
    after_first eoj known_model (ok props, w) =
        complete_info eoj
          (take_identity l (l.host_label addr) props
            (record no_info { product_code = known_model }))
          w

    -- `GetDeviceInfo`
    unfoldable pub get_device_info : Eoj → Text → W → Result FrameError DeviceInfo × W
    unfolding complete_info after_first
    get_device_info eoj known_model w =
        let epcs = 0x83 ∷ 0x8A ∷ (if is_empty known_model then 0x8C ∷ [] else []) in
        let (r, w') = get_props tr addr eoj epcs w in
        after_first eoj known_model (props_or_fail r, w')

  -- The code in the first property 0x8A that has three bytes.
  code_in : List Property → Text
  code_in [] = []
  code_in (p ∷ props) =
      if p.epc == 0x8A && length p.edt == 3 then format_manufacturer_code p.edt else code_in props

  code_or_retry : Eoj → Result FrameError (List Property) × W → Result FrameError Text × W
  code_or_retry eoj (err e, w) = (err e, w)
  code_or_retry eoj (ok props, w) = (ok (code_in props), w)

  -- `GetManufacturerCode`: from the object, else from the node profile.
  unfoldable pub get_manufacturer_code : Eoj → W → Result FrameError Text × W
  unfolding code_in code_or_retry
  get_manufacturer_code eoj w =
      let (r, w') = get_props tr addr eoj (0x8A ∷ []) w in
      elim (props_or_fail r) [
        | err e ↦ (err e, w')
        | ok props ↦
            if not (is_empty (code_in props)) || eoj_eq eoj node_profile
            then (ok (code_in props), w')
            else (let (r2, w2) = get_props tr addr node_profile (0x8A ∷ []) w' in
                code_or_retry eoj (props_or_fail r2, w2))
      ]
