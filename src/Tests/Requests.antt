-- ===== src/Tests/Requests.antt =====
-- internal/echonet/client.go: a device that answers only the first code of a request.
use echonet_go.Base.{
  ℕ, none, suc, ◌≡◌, ◌≤◌, ◌+◌, ◌*◌, ◌==◌, ==_iff, refl, true, List, [], ◌∷◌, ◌++◌, arith, ok,
}
use echonet_go.Base.Maps.{has, byte_key}
use echonet_go.Base.Texts.{text}
use echonet_go.Client.{Transport, PropMap, get_props, send_get, usable_props, refused}
use echonet_go.Client.Parts.{Covers}
use echonet_go.Client.Adaptive.{Serves, get_props-Covers}
use echonet_go.Client.Requests.{Counts, get_props-sent}
use echonet_go.Protocol.{
  Property, Eoj, controller, header, byte_at, parse_get_res, parse_frame, get_request, is_get_sna,
}

abbrev pub meter : Eoj
meter = record { b0 = 2; b1 = 0x88; b2 = 1 }

-- The answer: the first code of the request, with one byte of data.
abbrev answer : List ℕ → List ℕ
answer req = header 1 meter controller 0x72 1 ++ (byte_at req 12 ∷ 1 ∷ 7 ∷ [])

-- The state counts the frames that went out.
abbrev pub terse_meter : Transport
terse_meter = record {
  W = ℕ;
  next_tid = λ w. (1, w);
  send_fire_and_forget = λ w addr req. (none, w);
  send = λ w addr req tid. (ok (answer req), suc w);
}

abbrev pub counts : Counts terse_meter (λ w. w)
counts = record { tid_free = λ w. omega arith; send_one = λ w addr req tid. omega arith }

get_props-sent_example :
    suc (get_props terse_meter (text "192.168.0.9") meter (0xE0 ∷ 0xE1 ∷ 0xE7 ∷ []) 0).1 ≤ 0 + 2 * 3
get_props-sent_example =
    get_props-sent terse_meter (text "192.168.0.9") meter (λ w. w) counts (0xE0 ∷ 0xE1 ∷ 0xE7 ∷ [])
      0 (omega arith)

abbrev IsSeven : Property → Type 0
IsSeven p = p.edt ≡ 7 ∷ []

first_eq : {x y : ℕ} {xs ys : List ℕ} → x ∷ xs ≡ y ∷ ys → (x == y) ≡ true
first_eq {x} {y} e = (==_iff x y).1 (cc)

serves : Serves terse_meter (text "192.168.0.9") meter IsSeven (λ e. true)
unfolding send_get get_request parse_get_res parse_frame usable_props refused has is_get_sna
serves [] w n = absurd (omega arith)
serves (e ∷ epcs) w n = (refl, (refl, tt), λ x same t. ground (arith, first_eq same))

get_props-Covers_example :
    Covers IsSeven
      (λ e. true)
      (0xE0 ∷ 0xE1 ∷ 0xE7 ∷ [])
      (get_props terse_meter (text "192.168.0.9") meter (0xE0 ∷ 0xE1 ∷ 0xE7 ∷ []) 0)
get_props-Covers_example =
    get_props-Covers terse_meter (text "192.168.0.9") meter IsSeven (λ e. true)
      (0xE0 ∷ 0xE1 ∷ 0xE7 ∷ []) 0 serves (omega arith) (omega arith)

abbrev empty_e0 : Property
empty_e0 = record { epc = 0xE0; pdc = 0; edt = [] }

abbrev full_e0 : Property
full_e0 = record { epc = 0xE0; pdc = 1; edt = 5 ∷ [] }

abbrev held : PropMap
held = (0xE7, record { epc = 0xE7; pdc = 1; edt = 9 ∷ [] }) ∷ (0xE0, full_e0) ∷ []
