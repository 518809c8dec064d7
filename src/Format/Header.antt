-- ===== src/Format/Header.antt =====
-- crates/embedmind-core/src/format.rs, `Header`: page 0 of a `.mind` file.
pub mod Fields
pub mod Laws
use embedmind.Prelude.{
  ℕ, ◌+◌, Bool, true, false, ◌&&◌, ◌||◌, not, Option, none, some, List, [], ◌∷◌, length, replicate,
  bit_and, leb, ltb, ◌==◌, if◌then◌else◌,
}
use embedmind.Error.{
  Error, Result, ok, err, bad_header, invalid_argument, unsupported_version, corrupt_page,
  encrypted, ◌>>=◌, ◌>>◌, guard, ok_or,
}
use embedmind.Bytes.{
  Bytes, get_range, read_u16, read_u32, read_u64, write_bytes, write_u16, write_u32, write_u64,
}
use embedmind.Bytes.Utf8.{utf8_valid}
use embedmind.Format.{
  Xxh3, magic, max_model_id_len, flag_encrypted, page_size_is_valid, is_some_bytes,
  stamp_page_checksum, page_checksum_is_valid,
}
use embedmind.Format as F

abbrev pub off_magic : ℕ
off_magic = 0

abbrev pub off_version : ℕ
off_version = 8

abbrev pub off_page_size : ℕ
off_page_size = 12

abbrev pub off_page_count : ℕ
off_page_count = 16

abbrev pub off_root_btree : ℕ
off_root_btree = 24

abbrev pub off_freelist : ℕ
off_freelist = 32

abbrev pub off_hnsw_meta : ℕ
off_hnsw_meta = 40

abbrev pub off_txn_counter : ℕ
off_txn_counter = 48

abbrev pub off_dims : ℕ
off_dims = 56

abbrev pub off_quant : ℕ
off_quant = 58

abbrev pub off_model_id : ℕ
off_model_id = 60

abbrev pub off_flags : ℕ
off_flags = 128

abbrev pub off_fts_root : ℕ
off_fts_root = 156

abbrev pub off_graph_root : ℕ
off_graph_root = 164

abbrev pub off_filter_meta : ℕ
off_filter_meta = 172

abbrev pub off_filter_symbols : ℕ
off_filter_symbols = 180

pub record Header : Type 0 where
  pub format_version : ℕ
  pub page_size : ℕ
  pub page_count : ℕ
  pub root_btree_page : ℕ
  pub freelist_page : ℕ
  pub hnsw_meta_page : ℕ
  pub fts_root_page : ℕ
  pub graph_root_page : ℕ
  pub filter_meta_page : ℕ
  pub filter_symbols_page : ℕ
  pub txn_counter : ℕ
  pub embedding_dims : ℕ
  pub embedding_quant : ℕ
  pub embedding_model_id : Bytes
  pub flags : ℕ

-- `Header::new`
unfoldable pub new : ℕ → Result Header
new page_size =
    if not (page_size_is_valid page_size)
    then err (invalid_argument "unsupported page size")
    else ok (record {
      format_version = F.format_version;
      page_size = page_size;
      page_count = 1;
      root_btree_page = 0;
      freelist_page = 0;
      hnsw_meta_page = 0;
      fts_root_page = 0;
      graph_root_page = 0;
      filter_meta_page = 0;
      filter_symbols_page = 0;
      txn_counter = 0;
      embedding_dims = 0;
      embedding_quant = 0;
      embedding_model_id = [];
      flags = 0;
    })

unfoldable pub peek_page_size : Bytes → Result ℕ
peek_page_size prefix = do
  guard (is_some_bytes (get_range prefix off_magic 8) magic) bad_header
  page_size ← ok_or (read_u32 prefix off_page_size) bad_header
  guard (page_size_is_valid page_size) bad_header
  ok page_size

-- The writes of `encode` into a page that was filled with zeros.
unfoldable pub encode_fields : Header → Bytes → Bytes
encode_fields h page0 =
    let page = write_bytes page0 off_magic magic in
    let page = write_u32 page off_version h.format_version in
    let page = write_u32 page off_page_size h.page_size in
    let page = write_u64 page off_page_count h.page_count in
    let page = write_u64 page off_root_btree h.root_btree_page in
    let page = write_u64 page off_freelist h.freelist_page in
    let page = write_u64 page off_hnsw_meta h.hnsw_meta_page in
    let page = write_u64 page off_txn_counter h.txn_counter in
    let page = write_u16 page off_dims h.embedding_dims in
    let page = write_u16 page off_quant h.embedding_quant in
    let page = write_u32 page off_model_id (length h.embedding_model_id) in
    let page = write_bytes page (off_model_id + 4) h.embedding_model_id in
    let page = write_u32 page off_flags h.flags in
    let page = write_u64 page off_fts_root h.fts_root_page in
    let page = write_u64 page off_graph_root h.graph_root_page in
    let page = write_u64 page off_filter_meta h.filter_meta_page in
    write_u64 page off_filter_symbols h.filter_symbols_page

unfoldable pub encode : Xxh3 → Header → Bytes → Result Bytes
encode x h page = do
  guard (length page == h.page_size && page_size_is_valid h.page_size)
      (invalid_argument "header buffer must be one page")
  guard (leb (length h.embedding_model_id) max_model_id_len)
      (invalid_argument "embedding_model_id exceeds 64 bytes")
  guard (bit_and h.flags flag_encrypted == 0) (invalid_argument "encrypted flag is reserved in v1")
  ok (stamp_page_checksum x (encode_fields h (replicate (length page) 0)))

-- The checks of `decode` that come before the fields: the version and the page size.
unfoldable pub decode_prefix : Bytes → Result (ℕ × ℕ)
decode_prefix page = do
  guard (is_some_bytes (get_range page off_magic 8) magic) bad_header
  version ← ok_or (read_u32 page off_version) bad_header
  guard (not (version == 0)) bad_header
  guard (leb version F.format_version) (unsupported_version version F.format_version)
  page_size ← ok_or (read_u32 page off_page_size) bad_header
  guard (page_size_is_valid page_size && length page == page_size) bad_header
  ok (version, page_size)

-- The flags and the model id, behind the checksum.
unfoldable pub decode_model_id : Xxh3 → Bytes → Result (ℕ × Bytes)
decode_model_id x page = do
  guard (page_checksum_is_valid x page) (corrupt_page 0)
  flags ← ok_or (read_u32 page off_flags) bad_header
  guard (bit_and flags flag_encrypted == 0) encrypted
  id_len ← ok_or (read_u32 page off_model_id) bad_header
  guard (leb id_len max_model_id_len) bad_header
  id ← ok_or (get_range page (off_model_id + 4) id_len) bad_header
  guard (utf8_valid id) bad_header
  ok (flags, id)

unfoldable pub decode_fields : ℕ → ℕ → ℕ → Bytes → Bytes → Result Header
decode_fields version page_size flags id page = do
  page_count ← ok_or (read_u64 page off_page_count) bad_header
  guard (not (page_count == 0)) bad_header
  root_btree ← ok_or (read_u64 page off_root_btree) bad_header
  freelist ← ok_or (read_u64 page off_freelist) bad_header
  hnsw_meta ← ok_or (read_u64 page off_hnsw_meta) bad_header
  fts_root ← ok_or (read_u64 page off_fts_root) bad_header
  graph_root ← ok_or (read_u64 page off_graph_root) bad_header
  filter_meta ← ok_or (read_u64 page off_filter_meta) bad_header
  filter_symbols ← ok_or (read_u64 page off_filter_symbols) bad_header
  txn_counter ← ok_or (read_u64 page off_txn_counter) bad_header
  dims ← ok_or (read_u16 page off_dims) bad_header
  quant ← ok_or (read_u16 page off_quant) bad_header
  ok (record {
    format_version = version;
    page_size = page_size;
    page_count = page_count;
    root_btree_page = root_btree;
    freelist_page = freelist;
    hnsw_meta_page = hnsw_meta;
    fts_root_page = fts_root;
    graph_root_page = graph_root;
    filter_meta_page = filter_meta;
    filter_symbols_page = filter_symbols;
    txn_counter = txn_counter;
    embedding_dims = dims;
    embedding_quant = quant;
    embedding_model_id = id;
    flags = flags;
  })

unfoldable pub decode : Xxh3 → Bytes → Result Header
decode x page = do
  (version, page_size) ← decode_prefix page
  (flags, id) ← decode_model_id x page
  decode_fields version page_size flags id page
