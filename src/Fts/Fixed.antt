-- ===== src/Fts/Fixed.antt =====
-- crates/embedmind-core/src/index/fts.rs: `byte_width`, `put_fixed` and `read_fixed`, integers of a
-- width that the block chooses.
use native.Mathlib.Nat.{pow-suc, pow-le-pow_right}
use Prim.Native.Nat.{max}
use embedmind.Prelude.{
  ℕ, zero, suc, ◌+◌, ◌*◌, ◌/◌, ◌%◌, ◌^◌, ◌≤◌, ◌<◌, ◌≡◌, refl, ap, Option, none, some, false, [],
  ◌∷◌, length, take, replicate, leb, ◌==◌, if◌then◌else◌, arith,
}
use embedmind.Error.{Result, ok, malformed_page, ok_or, ◌>>=◌}
use embedmind.Bytes.{Bytes, le_bytes, from_le, overwrite, get_range}
use embedmind.Bytes.Le.{length-le_bytes, from_le-le_bytes}
use embedmind.Bytes.Reads.{Reads}

-- `checked_add` and `checked_mul` of a `usize` of 64 bits
unfoldable pub checked : ℕ → Option ℕ
checked n = if leb (2 ^ 64) n then none else some n

-- `128 - v.leading_zeros()`, with fuel for 128 bits.
unfoldable pub bit_len : ℕ → ℕ → ℕ
bit_len zero v = 0
bit_len (suc fuel) v = let rest = bit_len fuel (v / 2) in if v == 0 then 0 else suc rest

-- `byte_width`
unfoldable pub byte_width : ℕ → ℕ
byte_width v = max ((bit_len 128 v + 7) / 8) 1

-- `put_fixed`: what it appends.
unfoldable pub put_fixed : ℕ → ℕ → Bytes
put_fixed v width = take width (le_bytes 16 v)

-- `read_fixed`: the value, and the offset behind it.
unfoldable pub read_fixed : Bytes → ℕ → ℕ → ℕ → Result (ℕ × ℕ)
unfolding checked
read_fixed body off width page_no = do
  end ← ok_or (checked (off + width)) (malformed_page page_no "fts fixed-width overflow")
  slice ← ok_or (get_range body off width) (malformed_page page_no "fts fixed-width truncated")
  let buf = overwrite (replicate 16 0) slice
  ok (from_le buf, end)

bit_len-bound : (fuel v : ℕ) → v < 2 ^ fuel → v < 2 ^ bit_len fuel v
unfolding bit_len
bit_len-bound zero v h = h
bit_len-bound (suc fuel) v h =
    let ih = bit_len-bound fuel (v / 2) (omega (arith, pow-suc 2 fuel)) in
    ground (arith, ih, pow-suc 2 (bit_len fuel (v / 2)))

pub bit_len-le : (fuel k v : ℕ) → v < 2 ^ k → bit_len fuel v ≤ k
unfolding bit_len
bit_len-le zero k v h = omega arith
bit_len-le (suc fuel) zero v h = ground arith
bit_len-le (suc fuel) (suc k) v h =
    ground (arith, bit_len-le fuel k (v / 2) (omega (arith, pow-suc 2 k)))

bits_of_bytes : (w : ℕ) → 2 ^ (8 * w) ≡ 256 ^ w
bits_of_bytes zero = omega arith
bits_of_bytes (suc w) =
    let e : 8 * suc w ≡ suc (suc (suc (suc (suc (suc (suc (suc (8 * w)))))))) = omega arith in
    rw e (
      omega (
        arith,
        pow-suc 256 w,
        bits_of_bytes w,
        pow-suc 2 (8 * w),
        pow-suc 2 (suc (8 * w)),
        pow-suc 2 (suc (suc (8 * w))),
        pow-suc 2 (suc (suc (suc (8 * w)))),
        pow-suc 2 (suc (suc (suc (suc (8 * w))))),
        pow-suc 2 (suc (suc (suc (suc (suc (8 * w)))))),
        pow-suc 2 (suc (suc (suc (suc (suc (suc (8 * w))))))),
        pow-suc 2 (suc (suc (suc (suc (suc (suc (suc (8 * w)))))))),
      ))

pow_mono : (b i j : ℕ) → 0 < b → i ≤ j → b ^ i ≤ b ^ j
pow_mono b i j h le = pow-le-pow_right h le

-- A number fits in the bytes of its width, and in those of a greater width.
pub byte_width-fits : (v w : ℕ) → v < 2 ^ 128 → byte_width v ≤ w → v < 256 ^ w
unfolding byte_width
byte_width-fits v w h le =
    let bits = bit_len 128 v in
    let wide : bits ≤ 8 * w = omega arith in
    omega
      (arith, bit_len-bound 128 v h, pow_mono 2 bits (8 * w) (omega arith) wide, bits_of_bytes w)

pub byte_width-le : (k v : ℕ) → v < 2 ^ (8 * suc k) → byte_width v ≤ suc k
unfolding byte_width
byte_width-le k v h = omega (arith, bit_len-le 128 (8 * suc k) v h)

pub byte_width_pos : (v : ℕ) → 1 ≤ byte_width v
unfolding byte_width
byte_width_pos v = omega arith

take-le_bytes : (w n v : ℕ) → w ≤ n → take w (le_bytes n v) ≡ le_bytes w v
unfolding le_bytes
take-le_bytes zero n v h = refl
take-le_bytes (suc w) zero v h = absurd (omega arith)
take-le_bytes (suc w) (suc n) v h =
    ap (λ t. (v % 256) ∷ t) (take-le_bytes w n (v / 256) (omega arith))

pub put_fixed_lem : (v w : ℕ) → w ≤ 16 → put_fixed v w ≡ le_bytes w v
unfolding put_fixed
put_fixed_lem v w h = take-le_bytes w 16 v h

from_le-zeros : (n : ℕ) → from_le (replicate n 0) ≡ 0
unfolding from_le
from_le-zeros zero = refl
from_le-zeros (suc n) = omega (arith, from_le-zeros n)

-- Bytes in front of zeros have their own value.
from_le-overwrite :
    (n : ℕ) (bs : Bytes) → length bs ≤ n → from_le (overwrite (replicate n 0) bs) ≡ from_le bs
unfolding from_le overwrite
from_le-overwrite n [] h = from_le-zeros n
from_le-overwrite zero (b ∷ bs) h = absurd (omega arith)
from_le-overwrite (suc n) (b ∷ bs) h = omega (arith, from_le-overwrite n bs (omega arith))

-- A number of the width is read back, and the offset stands behind its bytes.
pub read_fixed-put_fixed :
    (v off w page_no : ℕ) (body : Bytes)
    → w ≤ 16
    → v < 256 ^ w
    → off + w < 2 ^ 64
    → Reads body off (put_fixed v w)
    → read_fixed body off w page_no ≡ ok (v, off + w)
unfolding read_fixed checked
read_fixed-put_fixed v off w page_no body le fits room reads =
    let le_reads : Reads body off (le_bytes w v) = rw (put_fixed_lem v w le) at reads in
    let slice : get_range body off w ≡ some (le_bytes w v) = rw (length-le_bytes w v) at le_reads in
    let test : leb (2 ^ 64) (off + w) ≡ false = ground arith in
    let short : length (le_bytes w v) ≤ 16 = omega (arith, length-le_bytes w v) in
    rw (test, slice, from_le-overwrite 16 (le_bytes w v) short, from_le-le_bytes w v fits) refl
