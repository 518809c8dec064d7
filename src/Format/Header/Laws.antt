-- ===== src/Format/Header/Laws.antt =====
-- The header page: what is encoded decodes to the same header, and what decodes was checked.
use embedmind.Prelude.{
  ℕ, ◌≤◌, ◌<◌, ◌≡◌, ◌∙◌, true, false, some, length, replicate, length-replicate, bit_and, arith,
}
use embedmind.Error.{ok, err, unsupported_version, corrupt_page, question_ok}
use embedmind.Bytes.{Bytes, get_range, read_u32}
use embedmind.Bytes.Writes.{write_all, length-write_all}
use embedmind.Bytes.Utf8.{utf8_valid}
use embedmind.Format.{Xxh3, magic, page_size_is_valid, stamp_page_checksum, page_checksum_is_valid}
use embedmind.Format.Checksum.{page_size_bounds, length-stamp, checksum_is_valid-stamp}
use embedmind.Format.Header.{
  Header, encode, encode_fields, decode, decode_prefix, decode_model_id, decode_fields,
}
use embedmind.Format.Header.Fields.{
  IsHeader, HasFields, header_writes, encode_fields-write_all, write_all-HasFields, stamp-HasFields,
  decode-HasFields, magic_test,
}

-- The page that `encode` writes.
unfoldable pub header_page : Xxh3 → Header → Bytes
header_page x h = stamp_page_checksum x (encode_fields h (replicate h.page_size 0))

pub encode-header_page :
    (x : Xxh3) (h : Header) (page : Bytes)
    → IsHeader h
    → length page ≡ h.page_size
    → encode x h page ≡ ok (header_page x h)
unfolding encode header_page
encode-header_page x h page v len =
    rw (len, v.page_size_ok, v.flags_ok) (ground (arith, v.model_id_len))

pub length-header_page : (x : Xxh3) (h : Header) → length (header_page x h) ≡ h.page_size
unfolding header_page
length-header_page x h =
    length-stamp x _
    ∙ rw encode_fields-write_all
        (length-write_all (replicate h.page_size 0) (header_writes h) ∙ length-replicate _ _)

pub header_page-HasFields : (x : Xxh3) (h : Header) → IsHeader h → HasFields h (header_page x h)
unfolding header_page
header_page-HasFields x h v =
    let zeros : Bytes = replicate h.page_size 0 in
    let bounds = page_size_bounds h.page_size v.page_size_ok in
    let lz : length zeros ≡ h.page_size = length-replicate h.page_size 0 in
    rw (encode_fields-write_all h zeros) (
      stamp-HasFields x h (write_all zeros (header_writes h)) v.model_id_len
        (omega (arith, length-write_all zeros (header_writes h), lz, bounds.0))
        (write_all-HasFields h v zeros (omega (arith, lz, bounds.0))))

header_page-checksum :
    (x : Xxh3) (h : Header) → IsHeader h → page_checksum_is_valid x (header_page x h) ≡ true
unfolding header_page
header_page-checksum x h v =
    let bounds = page_size_bounds h.page_size v.page_size_ok in
    let len = length-header_page x h in
    checksum_is_valid-stamp x _ (
      unfold header_page in
      omega (arith, length-stamp x (encode_fields h (replicate h.page_size 0))))

pub decode-header_page : (x : Xxh3) (h : Header) → IsHeader h → decode x (header_page x h) ≡ ok h
decode-header_page x h v =
    decode-HasFields x h (header_page x h) v (header_page-HasFields x h v) (length-header_page x h)
      (header_page-checksum x h v)

-- For every header that this build may write and any buffer of one page, `encode` succeeds, and
-- `decode` of the page that it wrote returns the header.
pub decode-encode :
    (x : Xxh3) (h : Header) (page : Bytes)
    → IsHeader h
    → length page ≡ h.page_size
    → (out : Bytes) × (encode x h page ≡ ok out) × (decode x out ≡ ok h)
decode-encode x h page v len =
    (header_page x h, encode-header_page x h page v len, decode-header_page x h v)

-- What `decode_prefix` has checked when it succeeds.
prefix_checked :
    (page : Bytes) (version page_size : ℕ)
    → decode_prefix page ≡ ok (version, page_size)
    → (0 < version)
      × (version ≤ 8)
      × (length page ≡ page_size)
      × (page_size_is_valid page_size ≡ true)
unfolding decode_prefix
prefix_checked page version page_size e = ground arith

model_id_checked :
    (x : Xxh3) (page : Bytes) (flags : ℕ) (id : Bytes)
    → decode_model_id x page ≡ ok (flags, id)
    → (page_checksum_is_valid x page ≡ true) × (bit_and flags 1 ≡ 0) × (utf8_valid id ≡ true)
unfolding decode_model_id
model_id_checked x page flags id e = ground arith

fields_checked :
    (version page_size flags : ℕ) (id page : Bytes) (h : Header)
    → decode_fields version page_size flags id page ≡ ok h
    → (h.format_version ≡ version)
      × (h.page_size ≡ page_size)
      × (h.flags ≡ flags)
      × (h.embedding_model_id ≡ id)
      × (0 < h.page_count)
unfolding decode_fields
fields_checked version page_size flags id page h e = ground arith

-- Whatever the bytes are, a page that decodes has a valid checksum, a version from 1 to 8, the
-- recorded length, which is a supported page size, at least one page, a clear encrypted flag and a
-- model id in UTF-8.
pub decode-checked :
    (x : Xxh3) (page : Bytes) (h : Header)
    → decode x page ≡ ok h
    → (page_checksum_is_valid x page ≡ true)
      × (0 < h.format_version)
      × (h.format_version ≤ 8)
      × (length page ≡ h.page_size)
      × (page_size_is_valid h.page_size ≡ true)
      × (0 < h.page_count)
      × (bit_and h.flags 1 ≡ 0)
      × (utf8_valid h.embedding_model_id ≡ true)
unfolding decode
decode-checked x page h e =
    let (p, rest, ep) = question_ok (decode_prefix page) _ h e in
    let (m, last, em) = question_ok (decode_model_id x page) _ h rest in
    ground (
      arith,
      prefix_checked page p.0 p.1 ep,
      model_id_checked x page m.0 m.1 em,
      fields_checked p.0 p.1 m.0 m.1 page h last,
    )

prefix_newer :
    (page : Bytes) (version : ℕ)
    → get_range page 0 8 ≡ some magic
    → read_u32 page 8 ≡ some version
    → 8 < version
    → decode_prefix page ≡ err (unsupported_version version 8)
unfolding decode_prefix
prefix_newer page version m r h = rw (m, magic_test, r) (ground arith)

-- A page with the magic and a version above 8 is refused as unsupported, whatever its checksum.
decode_newer :
    (x : Xxh3) (page : Bytes) (version : ℕ)
    → get_range page 0 8 ≡ some magic
    → read_u32 page 8 ≡ some version
    → 8 < version
    → decode x page ≡ err (unsupported_version version 8)
unfolding decode
decode_newer x page version m r h = rw (prefix_newer page version m r h)

-- A page whose version and length are in order and whose checksum is not is reported as corrupt.
pub decode_corrupt :
    (x : Xxh3) (page : Bytes) (version page_size : ℕ)
    → decode_prefix page ≡ ok (version, page_size)
    → page_checksum_is_valid x page ≡ false
    → decode x page ≡ err (corrupt_page 0)
unfolding decode decode_model_id
decode_corrupt x page version page_size p sum = rw (p, sum)
