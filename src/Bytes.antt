-- ===== src/Bytes.antt =====
-- Byte buffers: little-endian fields at offsets, the helpers at the end of
-- crates/embedmind-core/src/format.rs. A byte is a number below 256.
pub mod Le
pub mod Order
pub mod Range
pub mod Reads
pub mod Writes
pub mod Fields
pub mod Utf8
use embedmind.Prelude.{
  ℕ, zero, suc, ◌+◌, ◌*◌, ◌/◌, ◌%◌, ◌^◌, ◌<◌, Bool, true, false, ◌&&◌, Option, none, some, List, [],
  ◌∷◌, length, take, drop, All, leb, ◌==◌, if◌then◌else◌,
}
use mathlib.Core.Option

abbrev pub Bytes : Type 0
Bytes = List ℕ

abbrev pub IsByte : ℕ → Type 0
IsByte b = b < 256

-- `to_le_bytes` of an unsigned integer of `k` bytes, and `from_le_bytes`.
unfoldable pub le_bytes : ℕ → ℕ → Bytes
le_bytes zero v = []
le_bytes (suc k) v = (v % 256) ∷ le_bytes k (v / 256)

unfoldable pub from_le : Bytes → ℕ
from_le [] = 0
from_le (b ∷ bs) = b + 256 * from_le bs

-- `buf.get(off..off + n)`
unfoldable pub get_range : Bytes → ℕ → ℕ → Option Bytes
get_range buf off n = if leb (off + n) (length buf) then some (take n (drop off buf)) else none

-- `copy_from_slice` into the front of a buffer that is long enough.
unfoldable pub overwrite : Bytes → Bytes → Bytes
overwrite buf [] = buf
overwrite [] (v ∷ vs) = []
overwrite (b ∷ buf) (v ∷ vs) = v ∷ overwrite buf vs

unfoldable pub splice : Bytes → ℕ → Bytes → Bytes
unfolding overwrite
splice buf zero val = overwrite buf val
splice [] (suc off) val = []
splice (b ∷ buf) (suc off) val = b ∷ splice buf off val

-- A write that does not fit changes nothing.
unfoldable pub write_bytes : Bytes → ℕ → Bytes → Bytes
write_bytes buf off val = if leb (off + length val) (length buf) then splice buf off val else buf

unfoldable pub read_u16 : Bytes → ℕ → Option ℕ
read_u16 buf off = Option.map from_le (get_range buf off 2)

unfoldable pub read_u32 : Bytes → ℕ → Option ℕ
read_u32 buf off = Option.map from_le (get_range buf off 4)

unfoldable pub read_u64 : Bytes → ℕ → Option ℕ
read_u64 buf off = Option.map from_le (get_range buf off 8)

unfoldable pub write_u16 : Bytes → ℕ → ℕ → Bytes
write_u16 buf off val = write_bytes buf off (le_bytes 2 val)

unfoldable pub write_u32 : Bytes → ℕ → ℕ → Bytes
write_u32 buf off val = write_bytes buf off (le_bytes 4 val)

unfoldable pub write_u64 : Bytes → ℕ → ℕ → Bytes
write_u64 buf off val = write_bytes buf off (le_bytes 8 val)

-- Equality of byte strings.
unfoldable pub bytes_eq : Bytes → Bytes → Bool
bytes_eq [] [] = true
bytes_eq [] (y ∷ ys) = false
bytes_eq (x ∷ xs) [] = false
bytes_eq (x ∷ xs) (y ∷ ys) = x == y && bytes_eq xs ys
