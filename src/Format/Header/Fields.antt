-- ===== src/Format/Header/Fields.antt =====
-- The fields of a header page: where `encode` writes them, and that `decode` reads them back.
use embedmind.Prelude.{
  ◌^◌, ◌≤◌, ◌<◌, ◌≡◌, refl, ◌∙◌, true, some, List, [], ◌∷◌, length, bit_and, arith,
}
use embedmind.Error.{ok}
use embedmind.Bytes.{
  Bytes, le_bytes, get_range, read_u16, read_u32, read_u64, write_u16, write_u32, write_u64,
}
use embedmind.Bytes.Le.{bytes_eq_refl}
use embedmind.Bytes.Writes.{Write, write_all, Ascending, get_range-write_all}
use embedmind.Bytes.Fields.{read_u16-write_all, read_u32-write_all, read_u64-write_all}
use embedmind.Bytes.Utf8.{utf8_valid}
use embedmind.Format.{
  Xxh3, magic, page_size_is_valid, is_some_bytes, stamp_page_checksum, page_checksum_is_valid,
}
use embedmind.Format.Checksum.{get_range-stamp}
use embedmind.Format.Header.{
  Header, encode_fields, decode, decode_prefix, decode_model_id, decode_fields,
}

-- A header that this build may write: every field fits its width, the version is known, the model
-- id is UTF-8 of at most 64 bytes, the encrypted flag is clear.
pub record IsHeader (h : Header) : Type 0 where
  pub version_pos : 0 < h.format_version
  pub version_known : h.format_version ≤ 8
  pub page_size_lt : h.page_size < 2 ^ 32
  pub page_size_ok : page_size_is_valid h.page_size ≡ true
  pub page_count_pos : 0 < h.page_count
  pub page_count_lt : h.page_count < 2 ^ 64
  pub root_btree_lt : h.root_btree_page < 2 ^ 64
  pub freelist_lt : h.freelist_page < 2 ^ 64
  pub hnsw_meta_lt : h.hnsw_meta_page < 2 ^ 64
  pub fts_root_lt : h.fts_root_page < 2 ^ 64
  pub graph_root_lt : h.graph_root_page < 2 ^ 64
  pub filter_meta_lt : h.filter_meta_page < 2 ^ 64
  pub filter_symbols_lt : h.filter_symbols_page < 2 ^ 64
  pub txn_counter_lt : h.txn_counter < 2 ^ 64
  pub dims_lt : h.embedding_dims < 2 ^ 16
  pub quant_lt : h.embedding_quant < 2 ^ 16
  pub model_id_len : length h.embedding_model_id ≤ 64
  pub model_id_utf8 : utf8_valid h.embedding_model_id ≡ true
  pub flags_lt : h.flags < 2 ^ 32
  pub flags_ok : bit_and h.flags 1 ≡ 0

abbrev pub header_writes : Header → List Write
header_writes h =
    (0, magic)
    ∷ (8, le_bytes 4 h.format_version)
    ∷ (12, le_bytes 4 h.page_size)
    ∷ (16, le_bytes 8 h.page_count)
    ∷ (24, le_bytes 8 h.root_btree_page)
    ∷ (32, le_bytes 8 h.freelist_page)
    ∷ (40, le_bytes 8 h.hnsw_meta_page)
    ∷ (48, le_bytes 8 h.txn_counter)
    ∷ (56, le_bytes 2 h.embedding_dims)
    ∷ (58, le_bytes 2 h.embedding_quant)
    ∷ (60, le_bytes 4 (length h.embedding_model_id))
    ∷ (64, h.embedding_model_id)
    ∷ (128, le_bytes 4 h.flags)
    ∷ (156, le_bytes 8 h.fts_root_page)
    ∷ (164, le_bytes 8 h.graph_root_page)
    ∷ (172, le_bytes 8 h.filter_meta_page)
    ∷ (180, le_bytes 8 h.filter_symbols_page)
    ∷ []

pub encode_fields-write_all :
    (h : Header) (page : Bytes) → encode_fields h page ≡ write_all page (header_writes h)
unfolding encode_fields write_u16 write_u32 write_u64
encode_fields-write_all h page = refl

header_writes-Ascending :
    (h : Header) → length h.embedding_model_id ≤ 64 → Ascending 0 (header_writes h) 188
unfolding le_bytes
header_writes-Ascending h len = omega arith

-- What the fields of a page read as, if it is the page of `h`.
pub record HasFields (h : Header) (page : Bytes) : Type 0 where
  pub magic_is : get_range page 0 8 ≡ some magic
  pub version : read_u32 page 8 ≡ some h.format_version
  pub page_size : read_u32 page 12 ≡ some h.page_size
  pub page_count : read_u64 page 16 ≡ some h.page_count
  pub root_btree : read_u64 page 24 ≡ some h.root_btree_page
  pub freelist : read_u64 page 32 ≡ some h.freelist_page
  pub hnsw_meta : read_u64 page 40 ≡ some h.hnsw_meta_page
  pub txn_counter : read_u64 page 48 ≡ some h.txn_counter
  pub dims : read_u16 page 56 ≡ some h.embedding_dims
  pub quant : read_u16 page 58 ≡ some h.embedding_quant
  pub id_len : read_u32 page 60 ≡ some (length h.embedding_model_id)
  pub id : get_range page 64 (length h.embedding_model_id) ≡ some h.embedding_model_id
  pub flags : read_u32 page 128 ≡ some h.flags
  pub fts_root : read_u64 page 156 ≡ some h.fts_root_page
  pub graph_root : read_u64 page 164 ≡ some h.graph_root_page
  pub filter_meta : read_u64 page 172 ≡ some h.filter_meta_page
  pub filter_symbols : read_u64 page 180 ≡ some h.filter_symbols_page

module _ (h : Header) (v : IsHeader h) (buf : Bytes) (len : 188 ≤ length buf) where
  asc : Ascending 0 (header_writes h) 188
  asc = header_writes-Ascending h v.model_id_len

  pub write_all-HasFields : HasFields h (write_all buf (header_writes h))
  write_all-HasFields =
      let ws = header_writes h in
      record {
        magic_is = get_range-write_all buf ws 0 188 0 0 magic asc len refl;
        version =
            read_u32-write_all buf ws 0 188 1 8 _ asc len refl (omega (arith, v.version_known));
        page_size = read_u32-write_all buf ws 0 188 2 12 _ asc len refl v.page_size_lt;
        page_count = read_u64-write_all buf ws 0 188 3 16 _ asc len refl v.page_count_lt;
        root_btree = read_u64-write_all buf ws 0 188 4 24 _ asc len refl v.root_btree_lt;
        freelist = read_u64-write_all buf ws 0 188 5 32 _ asc len refl v.freelist_lt;
        hnsw_meta = read_u64-write_all buf ws 0 188 6 40 _ asc len refl v.hnsw_meta_lt;
        txn_counter = read_u64-write_all buf ws 0 188 7 48 _ asc len refl v.txn_counter_lt;
        dims = read_u16-write_all buf ws 0 188 8 56 _ asc len refl v.dims_lt;
        quant = read_u16-write_all buf ws 0 188 9 58 _ asc len refl v.quant_lt;
        id_len =
            read_u32-write_all buf ws 0 188 10 60 _ asc len refl (omega (arith, v.model_id_len));
        id = get_range-write_all buf ws 0 188 11 64 _ asc len refl;
        flags = read_u32-write_all buf ws 0 188 12 128 _ asc len refl v.flags_lt;
        fts_root = read_u64-write_all buf ws 0 188 13 156 _ asc len refl v.fts_root_lt;
        graph_root = read_u64-write_all buf ws 0 188 14 164 _ asc len refl v.graph_root_lt;
        filter_meta = read_u64-write_all buf ws 0 188 15 172 _ asc len refl v.filter_meta_lt;
        filter_symbols = read_u64-write_all buf ws 0 188 16 180 _ asc len refl v.filter_symbols_lt;
      }

-- Stamping a page of at least 512 bytes leaves every field.
pub stamp-HasFields :
    (x : Xxh3) (h : Header) (page : Bytes)
    → length h.embedding_model_id ≤ 64
    → 512 ≤ length page
    → HasFields h page
    → HasFields h (stamp_page_checksum x page)
unfolding read_u16 read_u32 read_u64
stamp-HasFields x h page lid len f = record {
  magic_is = get_range-stamp x page 0 8 (omega arith) ∙ f.magic_is;
  version = rw (get_range-stamp x page 8 4 (omega arith)) f.version;
  page_size = rw (get_range-stamp x page 12 4 (omega arith)) f.page_size;
  page_count = rw (get_range-stamp x page 16 8 (omega arith)) f.page_count;
  root_btree = rw (get_range-stamp x page 24 8 (omega arith)) f.root_btree;
  freelist = rw (get_range-stamp x page 32 8 (omega arith)) f.freelist;
  hnsw_meta = rw (get_range-stamp x page 40 8 (omega arith)) f.hnsw_meta;
  txn_counter = rw (get_range-stamp x page 48 8 (omega arith)) f.txn_counter;
  dims = rw (get_range-stamp x page 56 2 (omega arith)) f.dims;
  quant = rw (get_range-stamp x page 58 2 (omega arith)) f.quant;
  id_len = rw (get_range-stamp x page 60 4 (omega arith)) f.id_len;
  id = get_range-stamp x page 64 (length h.embedding_model_id) (omega arith) ∙ f.id;
  flags = rw (get_range-stamp x page 128 4 (omega arith)) f.flags;
  fts_root = rw (get_range-stamp x page 156 8 (omega arith)) f.fts_root;
  graph_root = rw (get_range-stamp x page 164 8 (omega arith)) f.graph_root;
  filter_meta = rw (get_range-stamp x page 172 8 (omega arith)) f.filter_meta;
  filter_symbols = rw (get_range-stamp x page 180 8 (omega arith)) f.filter_symbols;
}

pub magic_test : is_some_bytes (some magic) magic ≡ true
unfolding is_some_bytes
magic_test = bytes_eq_refl magic

decode_prefix-HasFields :
    (h : Header) (page : Bytes)
    → IsHeader h
    → HasFields h page
    → length page ≡ h.page_size
    → decode_prefix page ≡ ok (h.format_version, h.page_size)
unfolding decode_prefix
decode_prefix-HasFields h page v f len =
    rw (f.magic_is, magic_test, f.version, f.page_size)
      (ground (arith, v.version_pos, v.version_known, v.page_size_ok))

decode_model_id-HasFields :
    (x : Xxh3) (h : Header) (page : Bytes)
    → IsHeader h
    → HasFields h page
    → page_checksum_is_valid x page ≡ true
    → decode_model_id x page ≡ ok (h.flags, h.embedding_model_id)
unfolding decode_model_id
decode_model_id-HasFields x h page v f sum =
    rw (sum, f.flags, v.flags_ok, f.id_len) (ground (arith, f.id, v.model_id_len, v.model_id_utf8))

decode_fields-HasFields :
    (h : Header) (page : Bytes)
    → 0 < h.page_count
    → HasFields h page
    → decode_fields h.format_version h.page_size h.flags h.embedding_model_id page ≡ ok h
unfolding decode_fields
decode_fields-HasFields h page pos f =
    rw
      (
        f.page_count, f.root_btree, f.freelist, f.hnsw_meta, f.fts_root, f.graph_root,
        f.filter_meta, f.filter_symbols, f.txn_counter, f.dims, f.quant,
      )
      (ground arith)

pub decode-HasFields :
    (x : Xxh3) (h : Header) (page : Bytes)
    → IsHeader h
    → HasFields h page
    → length page ≡ h.page_size
    → page_checksum_is_valid x page ≡ true
    → decode x page ≡ ok h
unfolding decode
decode-HasFields x h page v f len sum =
    rw (decode_prefix-HasFields h page v f len, decode_model_id-HasFields x h page v f sum)
      (decode_fields-HasFields h page v.page_count_pos f)
