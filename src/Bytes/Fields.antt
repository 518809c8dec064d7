-- ===== src/Bytes/Fields.antt =====
-- Integer fields read back from a page that was written by a run of ascending writes.
use embedmind.Prelude.{ℕ, ◌^◌, ◌≤◌, ◌<◌, ◌≡◌, ap, some, List, length, get_elem?}
use embedmind.Bytes.{Bytes, le_bytes, from_le, get_range, read_u16, read_u32, read_u64}
use embedmind.Bytes.Le.{length-le_bytes, from_le-le_bytes}
use embedmind.Bytes.Writes.{Write, write_all, Ascending, get_range-write_all}
use mathlib.Core.Option

field :
    (k : ℕ) (buf : Bytes) (ws : List Write) (lo hi i off v : ℕ)
    → Ascending lo ws hi
    → hi ≤ length buf
    → get_elem? ws i ≡ some (off, le_bytes k v)
    → v < 256 ^ k
    → Option.map from_le (get_range (write_all buf ws) off k) ≡ some v
field k buf ws lo hi i off v h b e hv =
    let r = get_range-write_all buf ws lo hi i off (le_bytes k v) h b e in
    let r' : get_range (write_all buf ws) off k ≡ some (le_bytes k v) =
      rw (length-le_bytes k v) at r in
    rw r' (ap some (from_le-le_bytes k v hv))

module _ (buf : Bytes) (ws : List Write) (lo hi i off v : ℕ) where
  pub read_u16-write_all :
      Ascending lo ws hi
      → hi ≤ length buf
      → get_elem? ws i ≡ some (off, le_bytes 2 v)
      → v < 2 ^ 16
      → read_u16 (write_all buf ws) off ≡ some v
  unfolding read_u16
  read_u16-write_all h b e hv = field 2 buf ws lo hi i off v h b e hv

  pub read_u32-write_all :
      Ascending lo ws hi
      → hi ≤ length buf
      → get_elem? ws i ≡ some (off, le_bytes 4 v)
      → v < 2 ^ 32
      → read_u32 (write_all buf ws) off ≡ some v
  unfolding read_u32
  read_u32-write_all h b e hv = field 4 buf ws lo hi i off v h b e hv

  pub read_u64-write_all :
      Ascending lo ws hi
      → hi ≤ length buf
      → get_elem? ws i ≡ some (off, le_bytes 8 v)
      → v < 2 ^ 64
      → read_u64 (write_all buf ws) off ≡ some v
  unfolding read_u64
  read_u64-write_all h b e hv = field 8 buf ws lo hi i off v h b e hv
