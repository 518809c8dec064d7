-- ===== src/Dict/Fields.antt =====
-- crates/embedmind-core/src/index/dict.rs: the readers and writers at its end. A cursor `&mut off`
-- is handed on beside what was read or written.
use embedmind.Prelude.{ℕ, ◌+◌, String, ◌&&◌, length, leb, ◌∷◌, []}
use embedmind.Error.{Result, ok, malformed_page, guard, ok_or, ◌>>=◌, ◌>>◌}
use embedmind.Bytes.{Bytes, le_bytes, get_range, read_u16, read_u32, read_u64, write_bytes}

-- `read_u32`
unfoldable pub read_u32_at : Bytes → ℕ → ℕ → Result ℕ
read_u32_at buf off page_no = ok_or (read_u32 buf off) (malformed_page page_no "dict short read")

-- `get_u16`
unfoldable pub get_u16 : Bytes → ℕ → ℕ → Result (ℕ × ℕ)
get_u16 buf off page_no = do
  v ← ok_or (read_u16 buf off) (malformed_page page_no "dict short read")
  ok (v, off + 2)

-- `get_u32`
unfoldable pub get_u32 : Bytes → ℕ → ℕ → Result (ℕ × ℕ)
unfolding read_u32_at
get_u32 buf off page_no = do v ← read_u32_at buf off page_no; ok (v, off + 4)

-- `get_u64`
unfoldable pub get_u64 : Bytes → ℕ → ℕ → Result (ℕ × ℕ)
get_u64 buf off page_no = do
  v ← ok_or (read_u64 buf off) (malformed_page page_no "dict short read")
  ok (v, off + 8)

-- The end of `get_bytes_u16` and of `get_bytes_u32`, behind the length.
unfoldable pub get_slice : Bytes → ℕ → ℕ → ℕ → ℕ → String → Result (Bytes × ℕ)
get_slice buf off len content_end page_no what = do
  guard (leb (off + len) content_end && leb (off + len) (length buf)) (malformed_page page_no what)
  out ← ok_or (get_range buf off len) (malformed_page page_no what)
  ok (out, off + len)

-- `get_bytes_u16`
unfoldable pub get_bytes_u16 : Bytes → ℕ → ℕ → ℕ → String → Result (Bytes × ℕ)
unfolding get_slice
get_bytes_u16 buf off content_end page_no what = do
  len ← ok_or (read_u16 buf off) (malformed_page page_no what)
  get_slice buf (off + 2) len content_end page_no what

-- `get_bytes_u32`
unfoldable pub get_bytes_u32 : Bytes → ℕ → ℕ → ℕ → String → Result (Bytes × ℕ)
unfolding get_slice read_u32_at
get_bytes_u32 buf off content_end page_no what = do
  len ← read_u32_at buf off page_no
  get_slice buf (off + 4) len content_end page_no what

-- A page that is being written, and where.
abbrev pub Cursor : Type 0
Cursor = Bytes × ℕ

abbrev pub put : Bytes → Cursor → Cursor
put bytes c = (write_bytes c.0 c.1 bytes, c.1 + length bytes)

-- `page[off] = b; off += 1`
unfoldable pub put_u8 : ℕ → Cursor → Cursor
put_u8 b c = put (b ∷ []) c

-- `put_u16`, `put_u32` and `put_u64`
unfoldable pub put_u16 : ℕ → Cursor → Cursor
put_u16 v c = (write_bytes c.0 c.1 (le_bytes 2 v), c.1 + 2)

unfoldable pub put_u32 : ℕ → Cursor → Cursor
put_u32 v c = (write_bytes c.0 c.1 (le_bytes 4 v), c.1 + 4)

unfoldable pub put_u64 : ℕ → Cursor → Cursor
put_u64 v c = (write_bytes c.0 c.1 (le_bytes 8 v), c.1 + 8)

-- `put_bytes_u16` and `put_bytes_u32`
unfoldable pub put_bytes_u16 : Bytes → Cursor → Cursor
unfolding put_u16
put_bytes_u16 v c = put v (put_u16 (length v) c)

unfoldable pub put_bytes_u32 : Bytes → Cursor → Cursor
unfolding put_u32
put_bytes_u32 v c = put v (put_u32 (length v) c)
