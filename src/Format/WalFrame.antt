-- ===== src/Format/WalFrame.antt =====
-- crates/embedmind-core/src/format.rs, `WalHeader` and `WalFrameHeader`: the framing of the log.
pub mod Laws
use embedmind.Prelude.{
  ℕ, zero, suc, ◌+◌, Bool, true, false, ◌&&◌, ◌||◌, not, Option, none, some, List, [], ◌∷◌, ◌++◌,
  length, take, replicate, get_elem?, leb, ltb, ◌==◌, if◌then◌else◌,
}
use embedmind.Bytes.{Bytes, get_range, read_u32, read_u64, write_bytes, write_u32, write_u64}
use embedmind.Format.{
  Xxh3, wal_magic, wal_header_len, wal_frame_header_len, page_size_is_valid, is_some_bytes,
}
use embedmind.Format as F

infixl 5 ◌>>=◌ ◌>>◌
abbrev ◌>>=◌ : {A B : Type 0} → Option A → (A → Option B) → Option B
none >>= f = none
some a >>= f = f a

abbrev ◌>>◌ : {B : Type 0} → Option (Unit {0}) → Option B → Option B
m >> k = m >>= λ _. k

-- `if !test { return None }`
abbrev guard : Bool → Option (Unit {0})
guard true = some tt
guard false = none

pub record WalHeader : Type 0 where
  pub format_version : ℕ
  pub page_size : ℕ
  pub salt : ℕ

-- `WalHeader::encode`
unfoldable pub encode_wal_header : WalHeader → Bytes
encode_wal_header h =
    let buf = replicate wal_header_len 0 in
    let buf = write_bytes buf 0 wal_magic in
    let buf = write_u32 buf 8 h.format_version in
    let buf = write_u32 buf 12 h.page_size in write_u64 buf 16 h.salt

-- `WalHeader::decode`
unfoldable pub decode_wal_header : Bytes → Option WalHeader
decode_wal_header buf = do
  guard (is_some_bytes (get_range buf 0 8) wal_magic)
  version ← read_u32 buf 8
  page_size ← read_u32 buf 12
  guard (not (version == 0 || (ltb F.format_version version || not (page_size_is_valid page_size))))
  salt ← read_u64 buf 16
  some (record { format_version = version; page_size = page_size; salt = salt })

pub record WalFrameHeader : Type 0 where
  pub page_no : ℕ
  pub txn_id : ℕ
  pub commit : Bool

-- `frame_header.get(..24).unwrap_or_default()`, then the image.
unfoldable pub frame_checksum : Xxh3 → Bytes → Bytes → ℕ → ℕ
frame_checksum x frame_header image salt =
    x.hash salt ((if leb 24 (length frame_header) then take 24 frame_header else []) ++ image)

abbrev pub byte_of_bool : Bool → ℕ
byte_of_bool true = 1
byte_of_bool false = 0

-- The frame header before its checksum is written.
unfoldable pub frame_fields : WalFrameHeader → Bytes
frame_fields h =
    let buf = replicate wal_frame_header_len 0 in
    let buf = write_u64 buf 0 h.page_no in
    let buf = write_u64 buf 8 h.txn_id in write_bytes buf 16 (byte_of_bool h.commit ∷ [])

-- `WalFrameHeader::encode`
unfoldable pub encode_frame : Xxh3 → WalFrameHeader → Bytes → ℕ → Bytes
encode_frame x h image salt =
    let buf = frame_fields h in write_u64 buf 24 (frame_checksum x buf image salt)

-- `WalFrameHeader::decode`
unfoldable pub decode_frame : Xxh3 → Bytes → Bytes → ℕ → Option WalFrameHeader
decode_frame x buf image salt = if ltb (length buf) wal_frame_header_len then none else do
  stored ← read_u64 buf 24
  guard (stored == frame_checksum x buf image salt)
  commit_byte ← get_elem? buf 16
  guard (leb commit_byte 1)
  page_no ← read_u64 buf 0
  txn_id ← read_u64 buf 8
  some (record { page_no = page_no; txn_id = txn_id; commit = commit_byte == 1 })
