-- ===== src/Tests/Pages.antt =====
-- The theorems on the page codecs at concrete inputs.
use embedmind.Prelude.{
  ℕ, ◌≤◌, ◌<◌, ◌≡◌, refl, true, some, [], ◌∷◌, length, replicate, length-replicate, bit_and, arith,
}
use embedmind.Error.{ok}
use embedmind.Bytes.{Bytes, get_range, read_u32, read_u64, from_le}
use embedmind.Bytes.Utf8.{utf8_valid}
use embedmind.Format.{page_checksum_is_valid, page_size_is_valid}
use embedmind.Format.Header
use embedmind.Format.Header.Laws.{header_page, decode-header_page, decode-encode, decode-checked}
use embedmind.Format.Page
use embedmind.Format.Page.{PageHeader, vector, btree_leaf}
use embedmind.Format.Vector.{vector_slots_per_page, vector_page_push, vector_page_get}
use embedmind.Format.Vector.Laws.{vector_page_get-push}
use embedmind.Format.WalFrame.{WalFrameHeader, encode_frame, decode_frame}
use embedmind.Format.WalFrame.Laws.{decode-encode_frame}
use embedmind.Tests.{xxh, small_header, small_header-IsHeader}

abbrev blank : Bytes
blank = replicate 512 0

decode-encode_example :
    (out : Bytes) × (Header.encode xxh small_header blank ≡ ok out)
    × (Header.decode xxh out ≡ ok small_header)
decode-encode_example =
    decode-encode xxh small_header blank
      (small_header-IsHeader 2 3 (omega arith) (omega arith) (omega arith))
      (length-replicate {A = ℕ} 512 0)

decode-checked_example :
    (page_checksum_is_valid xxh (header_page xxh small_header) ≡ true)
    × (0 < small_header.format_version)
    × (small_header.format_version ≤ 8)
    × (length (header_page xxh small_header) ≡ small_header.page_size)
    × (page_size_is_valid small_header.page_size ≡ true)
    × (0 < small_header.page_count)
    × (bit_and small_header.flags 1 ≡ 0)
    × (utf8_valid small_header.embedding_model_id ≡ true)
decode-checked_example = decode-checked xxh (header_page xxh small_header) small_header (
    decode-header_page xxh small_header
      (small_header-IsHeader 2 3 (omega arith) (omega arith) (omega arith)))

abbrev last_frame : WalFrameHeader
last_frame = record { page_no = 5; txn_id = 4; commit = true }

decode-encode_frame_example :
    decode_frame xxh (encode_frame xxh last_frame blank 7) blank 7 ≡ some last_frame
decode-encode_frame_example =
    decode-encode_frame xxh last_frame blank 7
      (record { page_no_lt = omega arith; txn_id_lt = omega arith })

-- A vector page with one vector of two dimensions in it, and room for four.
abbrev one_vector : Bytes
one_vector =
    3
    ∷ 0
    ∷ 0
    ∷ 0
    ∷ 1
    ∷ 0
    ∷ 0
    ∷ 0
    ∷ 0
    ∷ 0
    ∷ 0
    ∷ 0
    ∷ 0
    ∷ 0
    ∷ 0
    ∷ 0
    ∷ 0
    ∷ 0
    ∷ 128
    ∷ 63
    ∷ 0
    ∷ 0
    ∷ 0
    ∷ 0
    ∷ replicate 32 0

abbrev vector_header : PageHeader
vector_header = record { page_type = vector; entry_count = 1; next_page = 0 }

decode-one_vector : Page.decode one_vector ≡ some vector_header
unfolding Page.decode Page.from_u8 read_u32 read_u64 get_range from_le
decode-one_vector = refl

one_vector-room : 1 < vector_slots_per_page (length one_vector) 2
unfolding vector_slots_per_page
one_vector-room = omega arith

vector_page_get-push_example :
    (after : Bytes) × (vector_page_push one_vector 2 (0 ∷ 0x3f80_0000 ∷ [])
      ≡ ok (some vector_header.entry_count, after))
    × (vector_page_get after 2 1 6 ≡ ok (0 ∷ 0x3f80_0000 ∷ []))
vector_page_get-push_example =
    vector_page_get-push one_vector vector_header 2 (0 ∷ 0x3f80_0000 ∷ []) decode-one_vector refl
      (omega arith) (omega arith) refl one_vector-room 6 (omega arith, (omega arith, tt))
