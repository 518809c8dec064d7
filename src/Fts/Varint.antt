-- ===== src/Fts/Varint.antt =====
-- crates/embedmind-core/src/index/fts.rs: `put_varint` and `read_varint`, LEB128 of a number of 128
-- bits.
pub mod Or
pub mod RoundTrip
use Prim.Native.Nat.{bit_or}
use embedmind.Prelude.{
  ℕ, zero, suc, ◌+◌, ◌*◌, ◌/◌, ◌%◌, ◌^◌, Bool, ◌||◌, [], ◌∷◌, get_elem?, ◌==◌, if◌then◌else◌,
}
use embedmind.Error.{Result, ok, err, malformed_page, guard, ok_or, ◌>>=◌, ◌>>◌}
use embedmind.Bytes.{Bytes}
use embedmind.Fts.{max_varint_len}

-- The loop of `put_varint`, with fuel. Setting the high bit of a number below 128 adds 128.
unfoldable pub varint_loop : ℕ → ℕ → Bytes
varint_loop zero v = []
varint_loop (suc fuel) v =
    let rest = varint_loop fuel (v / 128) in
    if v / 128 == 0 then (v % 128) ∷ [] else (v % 128 + 128) ∷ rest

-- `put_varint`: what it appends for a number of 128 bits.
unfoldable pub put_varint : ℕ → Bytes
put_varint v = varint_loop max_varint_len v

-- `bits << shift` of a number of 128 bits
unfoldable pub shifted : ℕ → ℕ → ℕ
shifted bits shift = (bits * 2 ^ shift) % 2 ^ 128

-- The loop of `read_varint`, from its round `i` on, with the value so far.
unfoldable pub read_varint_loop : ℕ → Bytes → ℕ → ℕ → ℕ → ℕ → Result (ℕ × ℕ)
unfolding shifted
read_varint_loop zero body off page_no i value = err (malformed_page page_no "fts varint too long")
read_varint_loop (suc rounds) body off page_no i value = do
  byte ← ok_or (get_elem? body (off + i)) (malformed_page page_no "fts varint truncated")
  let bits = byte % 128
  guard (bits == 0 || shifted bits (7 * i) / 2 ^ (7 * i) == bits)
      (malformed_page page_no "fts varint overflow")
  let so_far = bit_or value (shifted bits (7 * i))
  let more = read_varint_loop rounds body off page_no (suc i) so_far
  if (byte / 128) % 2 == 0 then ok (so_far, off + (i + 1)) else more

-- `read_varint`: the value, and the offset behind it.
unfoldable pub read_varint : Bytes → ℕ → ℕ → Result (ℕ × ℕ)
read_varint body off page_no = read_varint_loop max_varint_len body off page_no 0 0
