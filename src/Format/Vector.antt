-- ===== src/Format/Vector.antt =====
-- crates/embedmind-core/src/format.rs, the vector pages: fixed-size slots, filled in order. A float
-- is its bit pattern of 32 bits.
pub mod Laws
use embedmind.Prelude.{
  ℕ, ◌+◌, ◌-◌, ◌*◌, ◌/◌, ◌%◌, ◌^◌, Bool, not, Option, none, some, List, [], ◌∷◌, length, ltb, leb,
  ◌==◌, if◌then◌else◌,
}
use embedmind.Error.{Result, ok, err, invalid_argument, malformed_page, guard, ok_or, ◌>>=◌, ◌>>◌}
use embedmind.Bytes.{Bytes, le_bytes, from_le, get_range, write_bytes}
use embedmind.Format.{page_header_len, page_trailer_len}
use embedmind.Format.Page as P
use embedmind.Format.Page.{vector, PageHeader, encode_into}

abbrev pub vector_stride_f32 : ℕ
vector_stride_f32 = 4

-- `vector_slots_per_page`: a page is longer than its header and trailer.
unfoldable pub vector_slots_per_page : ℕ → ℕ → ℕ
vector_slots_per_page page_size dims =
    let stride = dims * vector_stride_f32 in
    if stride == 0 then 0 else (page_size - page_header_len - page_trailer_len) / stride

-- The writes of a vector, one dimension after the other.
unfoldable pub put_vector : Bytes → ℕ → List ℕ → Bytes
put_vector page offset [] = page
put_vector page offset (v ∷ vs) =
    put_vector (write_bytes page offset (le_bytes 4 v)) (offset + vector_stride_f32) vs

-- `chunks_exact(4)`, each chunk as a float.
unfoldable pub floats : Bytes → List ℕ
floats (a ∷ b ∷ c ∷ d ∷ bs) = from_le (a ∷ b ∷ c ∷ d ∷ []) ∷ floats bs
floats _ = []

-- The page after a push at the slot `used`.
unfoldable pub pushed_page : Bytes → ℕ → ℕ → ℕ → List ℕ → Bytes
unfolding put_vector
pushed_page page dims used next_page vs =
    let stride = dims * vector_stride_f32 in
    let offset = page_header_len + used * stride in
    encode_into (record { page_type = vector; entry_count = used + 1; next_page = next_page })
      (put_vector page offset vs)

-- `vector_page_push`
unfoldable pub vector_page_push : Bytes → ℕ → List ℕ → Result (Option ℕ × Bytes)
vector_page_push page dims vs = do
  guard (length vs == dims) (invalid_argument "vector length != header dims")
  header ← ok_or (P.decode page) (invalid_argument "not a valid page")
  guard (P.to_u8 header.page_type == P.to_u8 vector) (invalid_argument "not a VECTOR page")
  if leb (vector_slots_per_page (length page % 2 ^ 32) dims) header.entry_count
      then ok (none, page)
      else ok (
        some (header.entry_count % 2 ^ 16),
        pushed_page page dims header.entry_count header.next_page vs,
      )

-- `vector_page_get`
unfoldable pub vector_page_get : Bytes → ℕ → ℕ → ℕ → Result (List ℕ)
vector_page_get page dims slot page_no = do
  header ← ok_or (P.decode page) (malformed_page page_no "page header")
  guard (P.to_u8 header.page_type == P.to_u8 vector) (malformed_page page_no "not a VECTOR page")
  guard (ltb slot header.entry_count) (malformed_page page_no "vector slot out of range")
  bytes ←
      ok_or
        (get_range page (page_header_len + slot * (dims * vector_stride_f32))
          (dims * vector_stride_f32))
        (malformed_page page_no "vector slot bounds")
  ok (floats bytes)

-- `init_vector_page`
unfoldable pub init_vector_page : Bytes → Bytes
init_vector_page page =
    encode_into (record { page_type = vector; entry_count = 0; next_page = 0 }) page
