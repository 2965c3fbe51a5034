-- ===== src/Transport/Keys.antt =====
-- internal/echonet/transport.go, `waiterKey`: the key determines the host and the transaction number.
use echonet_go.Base.{
  ℕ, ◌/◌, ◌%◌, ◌^◌, ◌<◌, ◌≡◌, refl, ap, [], ◌∷◌, ◌++◌, length, arith, length-append,
}
use echonet_go.Base.Texts.{Text}
use echonet_go.Identity.{hex_byte}
use echonet_go.Identity.Codes.{hex_byte_inj}
use echonet_go.Transport.{waiter_key}

heads : {x y : ℕ} {xs ys : Text} → x ∷ xs ≡ y ∷ ys → x ≡ y
heads e = cc

tails : {x y : ℕ} {xs ys : Text} → x ∷ xs ≡ y ∷ ys → xs ≡ ys
tails e = cc

append_inj : (a b s t : Text) → length s ≡ length t → a ++ s ≡ b ++ t → (a ≡ b) × (s ≡ t)
append_inj [] [] s t n e = (refl, e)
append_inj [] (y ∷ b) s t n e = absurd (omega (arith, ap length e, length-append b t, n))
append_inj (x ∷ a) [] s t n e = absurd (omega (arith, ap length e, length-append a s, n))
append_inj (x ∷ a) (y ∷ b) s t n e = let (same, rest) = append_inj a b s t n (tails e) in (cc, rest)

-- Two requests wait under the same key only if they are for the same host and have the same number.
pub waiter_key_inj :
    (h g : Text) (t u : ℕ)
    → t < 2 ^ 16
    → u < 2 ^ 16
    → waiter_key h t ≡ waiter_key g u
    → (h ≡ g) × (t ≡ u)
unfolding waiter_key hex_byte
waiter_key_inj h g t u small small' e =
    let (same, key) =
      append_inj h g (b'|' ∷ (hex_byte (t / 256) ++ hex_byte (t % 256)))
        (b'|' ∷ (hex_byte (u / 256) ++ hex_byte (u % 256))) refl e in
    let (high, rest) = hex_byte_inj (t / 256) (u / 256) (omega arith) (omega arith) (tails key) in
    let (low, _) =
      hex_byte_inj (t % 256) (u % 256) {s = []} {t = []} (omega arith) (omega arith)
        (ap (λ l. l ++ []) rest) in
    (same, omega (arith, high, low))
