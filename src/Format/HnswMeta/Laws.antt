-- ===== src/Format/HnswMeta/Laws.antt =====
-- Pages of index parameters read back what was written.
use embedmind.Prelude.{
  ℕ, ◌+◌, ◌^◌, ◌≤◌, ◌<◌, ◌≡◌, refl, ◌∙◌, some, List, [], ◌∷◌, length, replicate, length-replicate,
  get_elem?, true, false, ◌&&◌, arith, ltb, ◌==◌,
}
use embedmind.Error.{ok}
use embedmind.Bytes.{
  Bytes, le_bytes, get_range, read_u16, read_u32, read_u64, write_u16, write_u32, write_u64,
}
use embedmind.Bytes.Range.{get_elem-of-range}
use embedmind.Bytes.Writes.{Write, write_all, Ascending, length-write_all, get_range-write_all}
use embedmind.Bytes.Fields.{read_u16-write_all, read_u32-write_all, read_u64-write_all}
use embedmind.Format.{Xxh3, stamp_page_checksum}
use embedmind.Format.Checksum.{length-stamp, get_range-stamp}
use embedmind.Format.Page as P
use embedmind.Format.Page.{PageHeader, hnsw_meta, encode_into}
use embedmind.Format.Page.Laws.{decode-of-fields}
use embedmind.Format.HnswMeta.{HnswMeta, encode_fields, encode, decode}

abbrev page_header : PageHeader
page_header = record { page_type = hnsw_meta; entry_count = 0; next_page = 0 }

abbrev meta_writes : HnswMeta → List Write
meta_writes h =
    (0, 5 ∷ 0 ∷ 0 ∷ 0 ∷ [])
    ∷ (4, le_bytes 4 0)
    ∷ (8, le_bytes 8 0)
    ∷ (16, le_bytes 2 h.m)
    ∷ (18, le_bytes 2 h.ef_construction)
    ∷ (20, h.max_layer ∷ [])
    ∷ (21, le_bytes 8 h.entry_point_page)
    ∷ (29, le_bytes 8 h.node_count)
    ∷ []

encode_fields-write_all :
    (h : HnswMeta) (page : Bytes)
    → encode_fields h page ≡ write_all (replicate (length page) 0) (meta_writes h)
unfolding encode_fields write_u16 write_u32 write_u64 encode_into P.to_u8
encode_fields-write_all h page = refl

meta_writes-Ascending : (h : HnswMeta) → Ascending 0 (meta_writes h) 37
unfolding le_bytes
meta_writes-Ascending h = omega arith

-- Parameters that an index may have: the fields fit their widths, `m` is not 0, and an index with
-- nodes has an entry point.
pub record IsMeta (h : HnswMeta) : Type 0 where
  pub m_pos : 0 < h.m
  pub m_lt : h.m < 2 ^ 16
  pub ef_lt : h.ef_construction < 2 ^ 16
  pub max_layer_lt : h.max_layer < 2 ^ 8
  pub entry_lt : h.entry_point_page < 2 ^ 64
  pub count_lt : h.node_count < 2 ^ 64
  pub entry_ok : (ltb 0 h.node_count && h.entry_point_page == 0) ≡ false

-- What the fields of a page read as, if it is the page of `h`.
record HasFields (h : HnswMeta) (page : Bytes) : Type 0 where
  kind : get_elem? page 0 ≡ some 5
  entries : read_u32 page 4 ≡ some 0
  next : read_u64 page 8 ≡ some 0
  m : read_u16 page 16 ≡ some h.m
  ef : read_u16 page 18 ≡ some h.ef_construction
  max_layer : get_elem? page 20 ≡ some h.max_layer
  entry : read_u64 page 21 ≡ some h.entry_point_page
  count : read_u64 page 29 ≡ some h.node_count

decode-HasFields :
    (h : HnswMeta) (page : Bytes) (page_no : ℕ)
    → IsMeta h
    → 16 ≤ length page
    → HasFields h page
    → decode page page_no ≡ ok h
unfolding decode P.to_u8
decode-HasFields h page page_no v len f =
    let m_ok : ltb 0 h.m ≡ true = ground (arith, v.m_pos) in
    rw
      (
        decode-of-fields page_header page len f.kind f.entries f.next,
        f.m,
        m_ok,
        f.ef,
        f.max_layer,
        f.entry,
        f.count,
        v.entry_ok,
      )
      refl

stamped-HasFields :
    (x : Xxh3) (h : HnswMeta) (page : Bytes)
    → IsMeta h
    → 45 ≤ length page
    → HasFields h (stamp_page_checksum x (write_all page (meta_writes h)))
unfolding read_u16 read_u32 read_u64
stamped-HasFields x h page v len =
    let ws = meta_writes h in
    let asc = meta_writes-Ascending h in
    let long = length-write_all page ws in
    let short : 37 ≤ length page = omega arith in
    let stamp : (o n : ℕ)
        → o + n + 8 ≤ length page
        → get_range (stamp_page_checksum x (write_all page ws)) o n
          ≡ get_range (write_all page ws) o n =
      λ o n b. get_range-stamp x (write_all page ws) o n (omega (arith, long)) in
    record {
      kind =
          get_elem-of-range _ 0 3 5 _
            (stamp 0 4 (omega arith) ∙ get_range-write_all page ws 0 37 0 0 _ asc short refl);
      entries =
          rw (stamp 4 4 (omega arith))
            (read_u32-write_all page ws 0 37 1 4 0 asc short refl (omega arith));
      next =
          rw (stamp 8 8 (omega arith))
            (read_u64-write_all page ws 0 37 2 8 0 asc short refl (omega arith));
      m =
          rw (stamp 16 2 (omega arith))
            (read_u16-write_all page ws 0 37 3 16 h.m asc short refl v.m_lt);
      ef =
          rw (stamp 18 2 (omega arith))
            (read_u16-write_all page ws 0 37 4 18 h.ef_construction asc short refl v.ef_lt);
      max_layer =
          get_elem-of-range _ 20 0 h.max_layer []
            (stamp 20 1 (omega arith) ∙ get_range-write_all page ws 0 37 5 20 _ asc short refl);
      entry =
          rw (stamp 21 8 (omega arith))
            (read_u64-write_all page ws 0 37 6 21 h.entry_point_page asc short refl v.entry_lt);
      count =
          rw (stamp 29 8 (omega arith))
            (read_u64-write_all page ws 0 37 7 29 h.node_count asc short refl v.count_lt);
    }

-- For all parameters that an index may have and any buffer of at least 45 bytes, `encode` succeeds
-- and `decode` of what it wrote returns the parameters.
decode-encode_meta :
    (x : Xxh3) (h : HnswMeta) (page : Bytes) (page_no : ℕ)
    → IsMeta h
    → 45 ≤ length page
    → (out : Bytes) × (encode x h page ≡ ok out) × (decode out page_no ≡ ok h)
unfolding encode
decode-encode_meta x h page page_no v len =
    let m_ok : ltb 0 h.m ≡ true = ground (arith, v.m_pos) in
    let zeros : Bytes = replicate (length page) 0 in
    let lz : length zeros ≡ length page = length-replicate {A = ℕ} (length page) 0 in
    let out : Bytes = stamp_page_checksum x (write_all zeros (meta_writes h)) in
    (
      out,
      rw (m_ok, v.entry_ok, encode_fields-write_all h page) refl,
      decode-HasFields h out page_no v
          (omega (
            arith,
            length-stamp x (write_all zeros (meta_writes h)),
            length-write_all zeros (meta_writes h),
            lz,
          ))
          (stamped-HasFields x h zeros v (omega (arith, lz))),
    )
