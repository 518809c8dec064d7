-- ===== src/Fts/Meta.antt =====
-- crates/embedmind-core/src/index/fts.rs: `FtsMeta`, the statistics of the corpus and the root of the
-- dictionary, on a page of its own.
use embedmind.Prelude.{
  ℕ, ◌+◌, ◌^◌, ◌≤◌, ◌<◌, ◌≡◌, refl, ◌∙◌, [], ◌∷◌, ◌++◌, Option, none, some, length, length-append,
  get_elem?, ◌==◌, if◌then◌else◌, arith,
}
use embedmind.Error.{Result, ok, malformed_page, guard, ok_or, ◌>>=◌, ◌>>◌}
use embedmind.Bytes.{Bytes, le_bytes}
use embedmind.Bytes.Le.{length-le_bytes}
use embedmind.Bytes.Reads.{Reads-front, Reads-next}
use embedmind.Bytes.Range.{length-write_bytes}
use embedmind.Format.{Xxh3, page_header_len, stamp_page_checksum}
use embedmind.Format.Page as P
use embedmind.Format.Page.{PageType, fts_dict, fts_postings, PageHeader}
use embedmind.Btree.Lookup.{PageSource}
use embedmind.Dict.{DictSpec, node_meta, same_type}
use embedmind.Dict.Codec.{fresh_page}
use embedmind.Dict.Codec.Pages.{fresh_page-Framed, fresh_page-room, same_type_refl}
use embedmind.Dict.Codec.Puts.{put-put, put_u64_lem}
use embedmind.Dict.Codec.Values.{get_u64-of}
use embedmind.Dict.Fields.{Cursor, put, put_u8, put_u64, get_u64}
use embedmind.Fts.Tokenize.{max_term_len}
use embedmind.Fts.Varint.RoundTrip.{Reads-head}

pub record FtsMeta : Type 0 where
  pub doc_count : ℕ
  pub total_tokens : ℕ
  pub dict_root : ℕ

-- `FTS_DICT`
abbrev pub fts_spec : DictSpec
fts_spec = record { dict = fts_dict; overflow = fts_postings; max_key_len = max_term_len }

-- `FtsMeta::empty`
abbrev pub empty : FtsMeta
empty = record { doc_count = 0; total_tokens = 0; dict_root = 0 }

-- `FtsMeta::encode`
unfoldable pub encode : Xxh3 → FtsMeta → ℕ → Bytes
encode x meta page_size =
    let c = put_u8 node_meta (fresh_page fts_spec page_size 0) in
    let c = put_u64 meta.doc_count c in
    let c = put_u64 meta.total_tokens c in
    let c = put_u64 meta.dict_root c in stamp_page_checksum x c.0

-- `FtsMeta::decode`
unfoldable pub decode : Bytes → ℕ → Result FtsMeta
decode page page_no = do
  header ← ok_or (P.decode page) (malformed_page page_no "fts page header")
  guard (same_type header.page_type fts_dict) (malformed_page page_no "not an FTS page")
  kind ← ok_or (get_elem? page page_header_len) (malformed_page page_no "not an FTS meta page")
  guard (kind == node_meta) (malformed_page page_no "not an FTS meta page")
  doc_count ← get_u64 page (page_header_len + 1) page_no
  total_tokens ← get_u64 page doc_count.1 page_no
  dict_root ← get_u64 page total_tokens.1 page_no
  ok (record { doc_count = doc_count.0; total_tokens = total_tokens.0; dict_root = dict_root.0 })

-- `load_meta`
unfoldable pub load_meta : PageSource → ℕ → Result (Option FtsMeta)
load_meta src root =
    let loaded = (do page ← src.page root; meta ← decode page root; ok (some meta)) in
    if root == 0 then ok none else loaded

abbrev meta_bytes : FtsMeta → Bytes
meta_bytes m = le_bytes 8 m.doc_count ++ (le_bytes 8 m.total_tokens ++ le_bytes 8 m.dict_root)

meta_put :
    (m : FtsMeta) (c : Cursor)
    → c.1 + 25 ≤ length c.0
    → put_u64 m.dict_root (put_u64 m.total_tokens (put_u64 m.doc_count (put_u8 node_meta c)))
      ≡ put (node_meta ∷ meta_bytes m) c
unfolding put_u8
meta_put m c h =
    let kind : Bytes = node_meta ∷ [] in
    let a = le_bytes 8 m.doc_count in
    let b = le_bytes 8 m.total_tokens in
    let d = le_bytes 8 m.dict_root in
    let la = length-le_bytes 8 m.doc_count in
    let lb = length-le_bytes 8 m.total_tokens in
    let ld = length-le_bytes 8 m.dict_root in
    let bd = length-append b d in
    let abd = length-append a (b ++ d) in
    let w1 = length-write_bytes c.0 c.1 kind in
    let w2 = length-write_bytes (put kind c).0 (put kind c).1 a in
    rw
      (
        put_u64_lem m.doc_count (put kind c),
        put_u64_lem m.total_tokens (put a (put kind c)),
        put_u64_lem m.dict_root (put b (put a (put kind c))),
      )
      (put-put (put a (put kind c)) b d (omega arith)
        ∙ put-put (put kind c) a (b ++ d) (omega arith)
        ∙ put-put c kind (a ++ (b ++ d)) (omega arith))

-- The fields fit their 64 bits.
pub record IsMeta (m : FtsMeta) : Type 0 where
  pub doc_count : m.doc_count < 2 ^ 64
  pub total_tokens : m.total_tokens < 2 ^ 64
  pub dict_root : m.dict_root < 2 ^ 64

-- The statistics come back from their page.
decode-encode_meta :
    (x : Xxh3) (m : FtsMeta) (page_size page_no : ℕ)
    → IsMeta m
    → 49 ≤ page_size
    → decode (encode x m page_size) page_no ≡ ok m
unfolding encode decode
decode-encode_meta x m page_size page_no v big =
    let a = le_bytes 8 m.doc_count in
    let b = le_bytes 8 m.total_tokens in
    let d = le_bytes 8 m.dict_root in
    let la = length-le_bytes 8 m.doc_count in
    let lb = length-le_bytes 8 m.total_tokens in
    let ld = length-le_bytes 8 m.dict_root in
    let bd = length-append b d in
    let abd = length-append a (b ++ d) in
    let bytes = node_meta ∷ meta_bytes m in
    let room = fresh_page-room fts_spec page_size 0 25 (omega arith) in
    let framed =
      fresh_page-Framed x fts_spec page_size 0 bytes (omega arith) (omega arith) (omega arith) in
    let page = stamp_page_checksum x (put bytes (fresh_page fts_spec page_size 0)).0 in
    let at_a = Reads-next page 16 1 (node_meta ∷ []) (meta_bytes m) refl framed.body in
    let at_b = Reads-next page 17 8 a (b ++ d) la at_a in
    let at_d = Reads-next page 25 8 b d lb at_b in
    rw
      (
        meta_put m (fresh_page fts_spec page_size 0) room,
        framed.head,
        same_type_refl fts_dict,
        Reads-head page 16 node_meta (meta_bytes m) framed.body,
        get_u64-of page 17 m.doc_count page_no v.doc_count (Reads-front page 17 a (b ++ d) at_a),
        get_u64-of page 25 m.total_tokens page_no v.total_tokens (Reads-front page 25 b d at_b),
        get_u64-of page 33 m.dict_root page_no v.dict_root at_d,
      )
      refl
