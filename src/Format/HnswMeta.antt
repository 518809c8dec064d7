-- ===== src/Format/HnswMeta.antt =====
-- crates/embedmind-core/src/format.rs, `HnswMeta`: the page with the parameters and the entry point
-- of the vector index, and the cap on a node's level.
pub mod Laws
use embedmind.Prelude.{
  ℕ, ◌+◌, ◌-◌, ◌*◌, ◌/◌, Bool, ◌&&◌, Option, none, some, List, [], ◌∷◌, length, replicate,
  get_elem?, ltb, ◌==◌, if◌then◌else◌,
}
use embedmind.Error.{Result, ok, err, invalid_argument, malformed_page, guard, ok_or, ◌>>=◌, ◌>>◌}
use embedmind.Bytes.{Bytes, read_u16, read_u64, write_bytes, write_u16, write_u64}
use embedmind.Format.{Xxh3, page_header_len, page_trailer_len, stamp_page_checksum}
use embedmind.Format.Page as P
use embedmind.Format.Page.{PageType, hnsw_meta, PageHeader, encode_into}

abbrev hnsw_default_m : ℕ
hnsw_default_m = 16

abbrev hnsw_default_ef_construction : ℕ
hnsw_default_ef_construction = 200

pub record HnswMeta : Type 0 where
  pub m : ℕ
  pub ef_construction : ℕ
  pub max_layer : ℕ
  pub entry_point_page : ℕ
  pub node_count : ℕ

-- `HnswMeta::new`
abbrev pub new : HnswMeta
new = record {
  m = hnsw_default_m;
  ef_construction = hnsw_default_ef_construction;
  max_layer = 0;
  entry_point_page = 0;
  node_count = 0;
}

-- The bytes of `encode` before the checksum. The buffer is one page, so that every field fits.
unfoldable pub encode_fields : HnswMeta → Bytes → Bytes
encode_fields h page =
    let page = replicate (length page) 0 in
    let page =
      encode_into (record { page_type = hnsw_meta; entry_count = 0; next_page = 0 }) page in
    let off = page_header_len in
    let page = write_u16 page off h.m in
    let page = write_u16 page (off + 2) h.ef_construction in
    let page = write_bytes page (off + 4) (h.max_layer ∷ []) in
    let page = write_u64 page (off + 5) h.entry_point_page in write_u64 page (off + 13) h.node_count

-- `HnswMeta::encode`
unfoldable pub encode : Xxh3 → HnswMeta → Bytes → Result Bytes
encode x h page =
    guard (ltb 0 h.m) (invalid_argument "hnsw m must be >= 1")
    >> (if ltb 0 h.node_count && h.entry_point_page == 0
        then err (invalid_argument "non-empty hnsw index requires an entry point")
        else ok (stamp_page_checksum x (encode_fields h page)))

-- `HnswMeta::decode`
unfoldable pub decode : Bytes → ℕ → Result HnswMeta
decode page page_no = do
  header ← ok_or (P.decode page) (malformed_page page_no "page header")
  guard (P.to_u8 header.page_type == P.to_u8 hnsw_meta)
      (malformed_page page_no "not an HNSW_META page")
  m ← ok_or (read_u16 page page_header_len) (malformed_page page_no "m")
  guard (ltb 0 m) (malformed_page page_no "hnsw m is zero")
  ef_construction ←
      ok_or (read_u16 page (page_header_len + 2)) (malformed_page page_no "ef_construction")
  max_layer ← ok_or (get_elem? page (page_header_len + 4)) (malformed_page page_no "max_layer")
  entry_point_page ←
      ok_or (read_u64 page (page_header_len + 5)) (malformed_page page_no "entry_point_page")
  node_count ← ok_or (read_u64 page (page_header_len + 13)) (malformed_page page_no "node_count")
  if ltb 0 node_count && entry_point_page == 0
      then err (malformed_page page_no "hnsw entry point missing")
      else ok (record {
        m = m;
        ef_construction = ef_construction;
        max_layer = max_layer;
        entry_point_page = entry_point_page;
        node_count = node_count;
      })

-- `max_hnsw_level`: the sizes are those of a page, so that `usable` does not wrap.
unfoldable pub max_hnsw_level : ℕ → ℕ → Option ℕ
max_hnsw_level page_size m =
    let usable = page_size - page_header_len - page_trailer_len in
    let fixed = 16 + 8 + 2 + 1 in
    let layer0 = 2 + m * 2 * 8 in
    let upper = 2 + m * 8 in
    if ltb usable (fixed + layer0)
    then none
    else let level = (usable - (fixed + layer0)) / upper in
      some (if ltb level 31 then level else 31)
