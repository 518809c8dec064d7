-- ===== src/Format/WalFrame/Laws.antt =====
-- The log's header and frame headers read back what was written.
use embedmind.Prelude.{
  ℕ, zero, suc, ◌^◌, ◌≤◌, ◌<◌, ◌≡◌, refl, ap, sym, ◌∙◌, true, some, List, [], ◌∷◌, length,
  replicate, get_elem?, arith,
}
use embedmind.Bytes.{
  Bytes, get_range, le_bytes, read_u32, read_u64, write_bytes, write_u32, write_u64,
}
use embedmind.Bytes.Le.{bytes_eq_refl}
use embedmind.Bytes.Range.{take-splice_below, length-splice}
use embedmind.Bytes.Writes.{Write, write_all, Ascending, length-write_all, get_range-write_all}
use embedmind.Bytes.Fields.{read_u32-write_all, read_u64-write_all}
use embedmind.Format.{Xxh3, wal_magic, page_size_is_valid, is_some_bytes}
use embedmind.Format.WalFrame.{
  WalHeader, encode_wal_header, decode_wal_header, WalFrameHeader, frame_checksum, byte_of_bool,
  frame_fields, encode_frame, decode_frame,
}

-- A log header that this build reads.
pub record IsWalHeader (h : WalHeader) : Type 0 where
  pub version_pos : 0 < h.format_version
  pub version_known : h.format_version ≤ 8
  pub page_size_lt : h.page_size < 2 ^ 32
  pub page_size_ok : page_size_is_valid h.page_size ≡ true
  pub salt_lt : h.salt < 2 ^ 64

abbrev wal_header_writes : WalHeader → List Write
wal_header_writes h =
    (0, wal_magic)
    ∷ (8, le_bytes 4 h.format_version)
    ∷ (12, le_bytes 4 h.page_size)
    ∷ (16, le_bytes 8 h.salt)
    ∷ []

encode_wal_header-write_all :
    (h : WalHeader) → encode_wal_header h ≡ write_all (replicate 32 0) (wal_header_writes h)
unfolding encode_wal_header write_u32 write_u64
encode_wal_header-write_all h = refl

wal_header_writes-Ascending : (h : WalHeader) → Ascending 0 (wal_header_writes h) 32
unfolding le_bytes
wal_header_writes-Ascending h = omega arith

pub length-encode_wal_header : (h : WalHeader) → length (encode_wal_header h) ≡ 32
length-encode_wal_header h =
    rw (encode_wal_header-write_all h) (length-write_all (replicate 32 0) (wal_header_writes h))

decode_wal_header-of-fields :
    (h : WalHeader) (buf : Bytes)
    → IsWalHeader h
    → get_range buf 0 8 ≡ some wal_magic
    → read_u32 buf 8 ≡ some h.format_version
    → read_u32 buf 12 ≡ some h.page_size
    → read_u64 buf 16 ≡ some h.salt
    → decode_wal_header buf ≡ some h
unfolding decode_wal_header is_some_bytes
decode_wal_header-of-fields h buf v m r p s =
    rw (m, bytes_eq_refl wal_magic, r, p, s)
      (ground (arith, v.version_pos, v.version_known, v.page_size_ok))

-- Every log header of a known version, a supported page size and a salt of 64 bits reads back.
pub decode-encode_wal_header :
    (h : WalHeader) → IsWalHeader h → decode_wal_header (encode_wal_header h) ≡ some h
decode-encode_wal_header h v =
    let ws = wal_header_writes h in
    let zeros : Bytes = replicate 32 0 in
    let asc = wal_header_writes-Ascending h in
    let len : 32 ≤ length zeros = omega arith in
    rw (encode_wal_header-write_all h) (
      decode_wal_header-of-fields h (write_all zeros ws) v
        (get_range-write_all zeros ws 0 32 0 0 wal_magic asc len refl)
        (read_u32-write_all zeros ws 0 32 1 8 _ asc len refl (omega (arith, v.version_known)))
        (read_u32-write_all zeros ws 0 32 2 12 _ asc len refl v.page_size_lt)
        (read_u64-write_all zeros ws 0 32 3 16 _ asc len refl v.salt_lt))

-- The fields of a frame header fit their widths.
pub record IsFrameHeader (h : WalFrameHeader) : Type 0 where
  pub page_no_lt : h.page_no < 2 ^ 64
  pub txn_id_lt : h.txn_id < 2 ^ 64

abbrev frame_writes : WalFrameHeader → ℕ → List Write
frame_writes h sum =
    (0, le_bytes 8 h.page_no)
    ∷ (8, le_bytes 8 h.txn_id)
    ∷ (16, byte_of_bool h.commit ∷ [])
    ∷ (24, le_bytes 8 sum)
    ∷ []

encode_frame-write_all :
    (x : Xxh3) (h : WalFrameHeader) (image : Bytes) (salt : ℕ)
    → encode_frame x h image salt
      ≡ write_all (replicate 32 0) (frame_writes h (frame_checksum x (frame_fields h) image salt))
unfolding encode_frame frame_fields write_u64
encode_frame-write_all x h image salt = refl

frame_writes-Ascending : (h : WalFrameHeader) (sum : ℕ) → Ascending 0 (frame_writes h sum) 32
unfolding le_bytes
frame_writes-Ascending h sum = omega arith

pub length-encode_frame :
    (x : Xxh3) (h : WalFrameHeader) (image : Bytes) (salt : ℕ)
    → length (encode_frame x h image salt) ≡ 32
length-encode_frame x h image salt =
    let sum = frame_checksum x (frame_fields h) image salt in
    rw encode_frame-write_all (length-write_all (replicate 32 0) (frame_writes h sum))

-- The checksum does not read the bytes that hold it.
checksum-write :
    (x : Xxh3) (buf image : Bytes) (salt sum : ℕ)
    → frame_checksum x (write_u64 buf 24 sum) image salt ≡ frame_checksum x buf image salt
unfolding frame_checksum write_u64 write_bytes
checksum-write x buf image salt sum =
    let val = le_bytes 8 sum in
    ground (arith, length-splice buf 24 val, take-splice_below buf 24 val 24 (omega arith))

frame_checksum-lt :
    (x : Xxh3) (buf image : Bytes) (salt : ℕ) → frame_checksum x buf image salt < 2 ^ 64
unfolding frame_checksum
frame_checksum-lt x buf image salt = x.hash-lt salt _

decode_frame-of-fields :
    (x : Xxh3) (h : WalFrameHeader) (buf image : Bytes) (salt : ℕ)
    → 32 ≤ length buf
    → read_u64 buf 24 ≡ some (frame_checksum x buf image salt)
    → get_elem? buf 16 ≡ some (byte_of_bool h.commit)
    → read_u64 buf 0 ≡ some h.page_no
    → read_u64 buf 8 ≡ some h.txn_id
    → decode_frame x buf image salt ≡ some h
unfolding decode_frame
decode_frame-of-fields x h buf image salt len c b p t = rw (c, b, p, t) (ground arith)

byte-of-range :
    (buf : Bytes) (off b : ℕ) → get_range buf off 1 ≡ some (b ∷ []) → get_elem? buf off ≡ some b
unfolding get_range
byte-of-range [] off b h = ground arith
byte-of-range (c ∷ cs) zero b h = ground arith
byte-of-range (c ∷ cs) (suc off) b h = byte-of-range cs off b (unfold get_range in ground arith)

-- A frame header whose numbers fit 64 bits decodes, beside the image and the salt that it was
-- encoded for, to what it was.
pub decode-encode_frame :
    (x : Xxh3) (h : WalFrameHeader) (image : Bytes) (salt : ℕ)
    → IsFrameHeader h
    → decode_frame x (encode_frame x h image salt) image salt ≡ some h
decode-encode_frame x h image salt v =
    let sum = frame_checksum x (frame_fields h) image salt in
    let ws = frame_writes h sum in
    let zeros : Bytes = replicate 32 0 in
    let asc : Ascending 0 ws 32 = frame_writes-Ascending h sum in
    let len : 32 ≤ length zeros = omega arith in
    let same : frame_checksum x (write_all zeros ws) image salt ≡ sum =
      unfold encode_frame frame_fields write_u64 in
      checksum-write x (frame_fields h) image salt sum in
    rw encode_frame-write_all (
      decode_frame-of-fields x h (write_all zeros ws) image salt
        (omega (arith, length-write_all zeros ws))
        (read_u64-write_all zeros ws 0 32 3 24 sum asc len refl (frame_checksum-lt x _ image salt)
          ∙ ap some (sym same))
        (byte-of-range _ 16 _ (get_range-write_all zeros ws 0 32 2 16 _ asc len refl))
        (read_u64-write_all zeros ws 0 32 0 0 _ asc len refl v.page_no_lt)
        (read_u64-write_all zeros ws 0 32 1 8 _ asc len refl v.txn_id_lt))
