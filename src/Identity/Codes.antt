-- ===== src/Identity/Codes.antt =====
-- internal/echonet/client.go: the manufacturer code as a text, which the scheduler looks vendor specs up by.
use echonet_go.Base.{ℕ, ◌/◌, ◌%◌, ◌<◌, ◌≡◌, [], ◌∷◌, ◌++◌, arith, ap}
use echonet_go.Base.Texts.{Text}
use echonet_go.Identity.{hex_digit, hex_byte, format_manufacturer_code}

hex_digit_inj : (a b : ℕ) → a < 16 → b < 16 → hex_digit a ≡ hex_digit b → a ≡ b
unfolding hex_digit
hex_digit_inj a b h k e = ground arith

halves : (a b : ℕ) → a / 16 ≡ b / 16 → a % 16 ≡ b % 16 → a ≡ b
halves a b d m = omega arith

head_eq : {x y : ℕ} {xs ys : Text} → x ∷ xs ≡ y ∷ ys → x ≡ y
head_eq e = cc

tail_eq : {x y : ℕ} {xs ys : Text} → x ∷ xs ≡ y ∷ ys → xs ≡ ys
tail_eq e = cc

pub hex_byte_inj :
    (a b : ℕ) {s t : Text}
    → a < 256
    → b < 256
    → hex_byte a ++ s ≡ hex_byte b ++ t
    → (a ≡ b) × (s ≡ t)
unfolding hex_byte
hex_byte_inj a b h k e = (
  halves a b (hex_digit_inj (a / 16) (b / 16) (omega arith) (omega arith) (head_eq e))
      (hex_digit_inj (a % 16) (b % 16) (omega arith) (omega arith) (head_eq (tail_eq e))),
  tail_eq (tail_eq e),
)

-- Manufacturer codes of three bytes have the same text only if they are the same.
pub format_manufacturer_code_inj :
    (a b c x y z : ℕ)
    → (a < 256) × (b < 256) × (c < 256)
    → (x < 256) × (y < 256) × (z < 256)
    → format_manufacturer_code (a ∷ b ∷ c ∷ []) ≡ format_manufacturer_code (x ∷ y ∷ z ∷ [])
    → (a ≡ x) × (b ≡ y) × (c ≡ z)
unfolding format_manufacturer_code
format_manufacturer_code_inj a b c x y z h k e =
    let (p, e2) = hex_byte_inj a x h.0 k.0 e in
    let (q, e3) = hex_byte_inj b y h.1 k.1 e2 in
    (p, q, (hex_byte_inj c z {s = []} {t = []} h.2 k.2 (ap (λ l. l ++ []) e3)).0)
