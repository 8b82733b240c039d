-- ===== src/Processor/SeenCounter/Hex.antt =====
-- Hexadecimal encoding keeps byte strings apart.
use peekd.Base.{ℕ, ◌<◌, ◌/◌, ◌%◌, ◌≡◌, refl, [], ◌∷◌, Text, All, arith}
use peekd.Processor.SeenCounter.{hex_digit, hex_encode}

abbrev pub IsBytes : Text → Type 0
IsBytes = All (λ b. b < 256)

hex_digit-injective : (c d : ℕ) → c < 16 → d < 16 → hex_digit c ≡ hex_digit d → c ≡ d
unfolding hex_digit
hex_digit-injective c d hc hd h = ground arith

byte-eq :
    (a b : ℕ)
    → a < 256
    → b < 256
    → hex_digit (a / 16) ≡ hex_digit (b / 16)
    → hex_digit (a % 16) ≡ hex_digit (b % 16)
    → a ≡ b
byte-eq a b ha hb p q = omega (
  arith,
  hex_digit-injective (a / 16) (b / 16) (omega arith) (omega arith) p,
  hex_digit-injective (a % 16) (b % 16) (omega arith) (omega arith) q,
)

pub hex_encode-injective :
    (xs ys : Text) → IsBytes xs → IsBytes ys → hex_encode xs ≡ hex_encode ys → xs ≡ ys
unfolding hex_encode
hex_encode-injective [] [] hx hy h = refl
hex_encode-injective [] (y ∷ ys) hx hy h = cc
hex_encode-injective (x ∷ xs) [] hx hy h = cc
hex_encode-injective (x ∷ xs) (y ∷ ys) hx hy h =
    ground (arith, byte-eq x y hx.0 hy.0, hex_encode-injective xs ys hx.1 hy.1)
