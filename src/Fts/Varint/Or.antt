-- ===== src/Fts/Varint/Or.antt =====
-- The bitwise or, by which `read_varint` of crates/embedmind-core/src/index/fts.rs gathers the groups
-- of bits: where no bit is set on both sides, it adds.
use Prim.Native.Nat.{max, bit_or, digits, bit_or-bitwise}
use native.Mathlib.Nat.{pow-suc}
use embedmind.Prelude.{ℕ, zero, suc, ◌+◌, ◌*◌, ◌/◌, ◌%◌, ◌^◌, ◌≤◌, ◌<◌, ◌≡◌, refl, ap, ◌∙◌, arith}

abbrev or_digits : ℕ → ℕ → ℕ → ℕ
or_digits n a b = digits (λ b. b) max n a b

or_digits_fuel : (n m a b : ℕ) → a ≤ n → a ≤ m → or_digits n a b ≡ or_digits m a b
or_digits_fuel zero zero a b p q = refl
or_digits_fuel zero (suc m) zero b p q = refl
or_digits_fuel zero (suc m) (suc a) b p q = absurd (omega arith)
or_digits_fuel (suc n) zero zero b p q = refl
or_digits_fuel (suc n) zero (suc a) b p q = absurd (omega arith)
or_digits_fuel (suc n) (suc m) zero b p q = refl
or_digits_fuel (suc n) (suc m) (suc a) b p q =
    omega (arith, or_digits_fuel n m (suc a / 2) (b / 2) (omega arith) (omega arith))

zero-bit_or : (b : ℕ) → bit_or 0 b ≡ b
zero-bit_or b = bit_or-bitwise 0 b

bit_or_step : (a b : ℕ) → bit_or a b ≡ bit_or (a / 2) (b / 2) * 2 + max (a % 2) (b % 2)
bit_or_step zero b = omega (arith, zero-bit_or b, zero-bit_or (b / 2))
bit_or_step (suc a) b = omega (
  arith,
  bit_or-bitwise (suc a) b,
  bit_or-bitwise (suc a / 2) (b / 2),
  or_digits_fuel a (suc a / 2) (suc a / 2) (b / 2) (omega arith) (omega arith),
)

double : (b c : ℕ) → b * (c * 2) ≡ b * c * 2
double b c = omega arith

-- `b * 2 ^ s` has its lowest `s` bits clear, and `a` has no others.
pub bit_or-shifted : (s a b : ℕ) → a < 2 ^ s → bit_or a (b * 2 ^ s) ≡ a + b * 2 ^ s
bit_or-shifted zero a b h =
    let z : a ≡ 0 = omega arith in rw z (omega (arith, zero-bit_or (b * 2 ^ 0)))
bit_or-shifted (suc s) a b h =
    let e : b * 2 ^ suc s ≡ b * 2 ^ s * 2 = ap (λ t. b * t) (pow-suc 2 s) ∙ double b (2 ^ s) in
    let half : (b * 2 ^ s * 2) / 2 ≡ b * 2 ^ s = omega arith in
    let lt : a / 2 < 2 ^ s = omega (arith, pow-suc 2 s) in
    let ih : bit_or (a / 2) ((b * 2 ^ s * 2) / 2) ≡ a / 2 + b * 2 ^ s =
      rw half (bit_or-shifted s (a / 2) b lt) in
    rw e (omega (arith, bit_or_step a (b * 2 ^ s * 2), ih))

-- No bit is set above those of the two sides.
pub bit_or-lt : (n a b : ℕ) → a < 2 ^ n → b < 2 ^ n → bit_or a b < 2 ^ n
bit_or-lt zero a b ha hb = let z : a ≡ 0 = omega arith in rw z (omega (arith, zero-bit_or b))
bit_or-lt (suc n) a b ha hb = omega (
  arith,
  bit_or_step a b,
  bit_or-lt n (a / 2) (b / 2) (omega (arith, pow-suc 2 n)) (omega (arith, pow-suc 2 n)),
  pow-suc 2 n,
)
