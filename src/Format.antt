-- ===== src/Format.antt =====
-- crates/embedmind-core/src/format.rs: constants of the `.mind` layout, page sizes, the page
-- checksum, and, in the children, the header page, page headers, WAL framing and index pages.
pub mod Checksum
pub mod Page
pub mod Header
pub mod HnswMeta
pub mod HnswNode
pub mod Vector
pub mod WalFrame
use embedmind.Prelude.{
  ℕ, zero, suc, ◌+◌, ◌-◌, ◌/◌, ◌%◌, ◌^◌, ◌<◌, Bool, true, false, ◌&&◌, Option, none, some, List, [],
  ◌∷◌, length, take, leb, ltb, ◌==◌, if◌then◌else◌,
}
use embedmind.Bytes.{Bytes, le_bytes, get_range, read_u64, splice, bytes_eq}

-- The `xxhash_rust` crate: XXH3 of 64 bits over a byte string, by seed. Seed 0 is `xxh3_64`, and
-- feeding a hasher piece by piece hashes the concatenation. A digest is a 64-bit value.
pub record Xxh3 : Type 0 where
  pub hash : ℕ → Bytes → ℕ
  pub hash-lt : (seed : ℕ) (bs : Bytes) → hash seed bs < 2 ^ 64

-- b"MINDFMT1" and b"MINDWAL1"
abbrev pub magic : Bytes
magic = b'M' ∷ b'I' ∷ b'N' ∷ b'D' ∷ b'F' ∷ b'M' ∷ b'T' ∷ b'1' ∷ []

abbrev pub wal_magic : Bytes
wal_magic = b'M' ∷ b'I' ∷ b'N' ∷ b'D' ∷ b'W' ∷ b'A' ∷ b'L' ∷ b'1' ∷ []

abbrev pub format_version : ℕ
format_version = 8

abbrev pub default_page_size : ℕ
default_page_size = 4096

abbrev pub min_page_size : ℕ
min_page_size = 512

abbrev pub max_page_size : ℕ
max_page_size = 65536

abbrev pub page_trailer_len : ℕ
page_trailer_len = 8

abbrev pub max_model_id_len : ℕ
max_model_id_len = 64

abbrev pub wal_header_len : ℕ
wal_header_len = 32

abbrev pub wal_frame_header_len : ℕ
wal_frame_header_len = 32

abbrev pub flag_encrypted : ℕ
flag_encrypted = 1

abbrev pub page_header_len : ℕ
page_header_len = 16

abbrev pub header_peek_len : ℕ
header_peek_len = 16

-- `u32::is_power_of_two`: exactly one bit is set.
count_ones : ℕ → ℕ → ℕ
count_ones zero v = 0
count_ones (suc k) v = v % 2 + count_ones k (v / 2)

unfoldable pub is_power_of_two : ℕ → Bool
unfolding count_ones
is_power_of_two v = count_ones 32 v == 1

unfoldable pub page_size_is_valid : ℕ → Bool
page_size_is_valid page_size =
    (leb min_page_size page_size && leb page_size max_page_size) && is_power_of_two page_size

-- `buf.get(range) == Some(&expected[..])`
unfoldable pub is_some_bytes : Option Bytes → Bytes → Bool
is_some_bytes none bs = false
is_some_bytes (some a) bs = bytes_eq a bs

-- The digest of all of a page but its trailer.
unfoldable pub page_checksum : Xxh3 → Bytes → ℕ
page_checksum x page = x.hash 0 (take (length page - page_trailer_len) page)

-- The pages are longer than the trailer; on a shorter buffer the source panics.
unfoldable pub stamp_page_checksum : Xxh3 → Bytes → Bytes
unfolding page_checksum
stamp_page_checksum x page =
    splice page (length page - page_trailer_len) (le_bytes 8 (page_checksum x page))

is_some_eq : Option ℕ → ℕ → Bool
is_some_eq none v = false
is_some_eq (some u) v = u == v

unfoldable pub page_checksum_is_valid : Xxh3 → Bytes → Bool
unfolding is_some_eq
page_checksum_is_valid x page =
    if ltb (length page) page_trailer_len
    then false
    else is_some_eq (read_u64 page (length page - page_trailer_len)) (page_checksum x page)
