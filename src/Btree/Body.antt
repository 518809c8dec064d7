-- ===== src/Btree/Body.antt =====
-- crates/embedmind-core/src/storage/btree.rs, `decode_node`: about pages that differ in the checksum
-- at their end.
use embedmind.Prelude.{
  ℕ, zero, suc, ◌+◌, ◌-◌, ◌*◌, ◌≤◌, ◌≡◌, inl, inr, refl, ap, true, ◌||◌, not, Option, none, some,
  List, [], ◌∷◌, length, leb, ltb, leb→le, ◌==◌, arith, get_elem?, Option-cases,
}
use embedmind.Error.{Result, ok, ok_or, ◌>>=◌, question_same, guard_same, malformed_page}
use embedmind.Bytes.{Bytes, get_range, read_u16, read_u32, read_u64}
use embedmind.Format.{Xxh3, stamp_page_checksum, page_header_len, page_trailer_len}
use embedmind.Format.Checksum.{length-stamp, get_range-stamp}
use embedmind.Format.Page as P
use embedmind.Format.Page.{PageType, PageHeader}
use embedmind.Btree.{LeafEntry, leaf, slot_len, inner_entry_len}
use embedmind.Btree.Codec.{
  decode_cell, in_order, decode_slots, decode_children, decode_leaf, decode_inner, node_of_type,
  decode_node,
}

-- The pages are of one length and agree before the trailer.
abbrev pub SameBody : Bytes → Bytes → Type 0
SameBody kept page =
    (length kept ≡ length page)
    × ((o n : ℕ) → o + n + page_trailer_len ≤ length page → get_range kept o n ≡ get_range page o n)

in_bounds :
    (off len slots_end content_end total : ℕ)
    → not (ltb off slots_end || (len == 0 || ltb content_end (off + len))) ≡ true
    → content_end + 8 ≤ total
    → off + len + 8 ≤ total
in_bounds off len slots_end content_end total h inside = ground arith

first_byte :
    (kept page : Bytes)
    → get_range kept 0 1 ≡ get_range page 0 1
    → get_elem? kept 0 ≡ get_elem? page 0
unfolding get_range
first_byte [] [] e = refl
first_byte [] (p ∷ ps) e = ground arith
first_byte (k ∷ ks) [] e = ground arith
first_byte (k ∷ ks) (p ∷ ps) e = ground arith

module _ (kept page : Bytes) (same : SameBody kept page) where
  read_u16-kept : (o : ℕ) → o + 2 + 8 ≤ length page → read_u16 kept o ≡ read_u16 page o
  unfolding read_u16
  read_u16-kept o h = rw (same.1 o 2 h) refl

  read_u32-kept : (o : ℕ) → o + 4 + 8 ≤ length page → read_u32 kept o ≡ read_u32 page o
  unfolding read_u32
  read_u32-kept o h = rw (same.1 o 4 h) refl

  read_u64-kept : (o : ℕ) → o + 8 + 8 ≤ length page → read_u64 kept o ≡ read_u64 page o
  unfolding read_u64
  read_u64-kept o h = rw (same.1 o 8 h) refl

  -- A cell and the entries behind it.
  cell_kept :
      (key : Bytes) (off len page_no : ℕ) (more more' : Result (List LeafEntry))
      → off + len + 8 ≤ length page
      → more ≡ more'
      → (ok_or (get_range kept off len) (malformed_page page_no "cell bounds") >>= λ bytes.
          decode_cell bytes page_no >>= λ cell.
          more >>= λ rest. ok (record { key = key; cell = cell } ∷ rest))
        ≡ (ok_or (get_range page off len) (malformed_page page_no "cell bounds") >>= λ bytes.
            decode_cell bytes page_no >>= λ cell.
            more' >>= λ rest. ok (record { key = key; cell = cell } ∷ rest))
  cell_kept key off len page_no more more' inside e = rw (same.1 off len inside, e) refl

  decode_slots-kept :
      (n page_no slots_end content_end slot : ℕ) (prev : Option Bytes)
      → slots_end ≡ slot + n * 20
      → slots_end ≤ content_end
      → content_end + 8 ≤ length page
      → decode_slots n kept page_no slots_end content_end slot prev
        ≡ decode_slots n page page_no slots_end content_end slot prev
  unfolding decode_slots
  decode_slots-kept zero page_no slots_end content_end slot prev e fits inside = refl
  decode_slots-kept (suc n) page_no slots_end content_end slot prev e fits inside =
      let k = same.1 slot 16 (omega arith) in
      let o = read_u16-kept (slot + 16) (omega arith) in
      let l = read_u16-kept (slot + 18) (omega arith) in
      elim (Option-cases (get_range page slot 16)) [
        | inl nk ↦ rw (k, nk) refl
        | inr (key, sk) ↦ elim (Option-cases (read_u16 page (slot + 16))) [
          | inl gone ↦ rw (k, o, sk, gone) refl
          | inr (off, so) ↦ elim (Option-cases (read_u16 page (slot + 18))) [
            | inl nl ↦ rw (k, o, l, sk, so, nl) refl
            | inr (len, sl) ↦
                rw (k, o, l, sk, so, sl)
                  (guard_same (in_order prev key) (malformed_page page_no "unsorted leaf keys") _ _
                    (λ _.
                      guard_same
                        (not (ltb off slots_end || (len == 0 || ltb content_end (off + len))))
                        (malformed_page page_no "cell bounds") _ _
                        (λ bounds.
                          cell_kept key off len page_no _ _
                            (in_bounds off len slots_end content_end (length page) bounds inside)
                            (decode_slots-kept n page_no slots_end content_end (slot + 20)
                              (some key) (omega arith) fits inside))))
          ]
        ]
      ]

  decode_children-kept :
      (n page_no base : ℕ) (prev : Option Bytes)
      → base + n * 24 + 8 ≤ length page
      → decode_children n kept page_no base prev ≡ decode_children n page page_no base prev
  unfolding decode_children
  decode_children-kept zero page_no base prev fits = refl
  decode_children-kept (suc n) page_no base prev fits =
      let k = same.1 base 16 (omega arith) in
      let c = read_u64-kept (base + 16) (omega arith) in
      elim (Option-cases (get_range page base 16)) [
        | inl nk ↦ rw (k, nk) refl
        | inr (key, sk) ↦
            rw (k, c, sk, decode_children-kept n page_no (base + 24) (some key) (omega arith)) refl
      ]

  decode_leaf-kept :
      (page_no n content_end : ℕ)
      → content_end + 8 ≤ length page
      → decode_leaf kept page_no n content_end ≡ decode_leaf page page_no n content_end
  unfolding decode_leaf
  decode_leaf-kept page_no n content_end inside =
      guard_same (leb (page_header_len + n * slot_len) content_end)
        (malformed_page page_no "slot directory") _ _
        (λ room.
          ap (λ r. r >>= λ es. ok (leaf es))
            (decode_slots-kept n page_no (page_header_len + n * slot_len) content_end
              page_header_len none refl (leb→le _ _ room) inside))

  decode_inner-kept :
      (page_no n content_end : ℕ)
      → content_end + 8 ≤ length page
      → decode_inner kept page_no n content_end ≡ decode_inner page page_no n content_end
  unfolding decode_inner
  decode_inner-kept page_no n content_end inside =
      guard_same (not (n == 0)) (malformed_page page_no "empty inner node") _ _ (λ _.
        guard_same (leb (page_header_len + 8 + n * inner_entry_len) content_end)
          (malformed_page page_no "inner entries") _ _
          (λ room.
            let fits = leb→le _ _ room in
            rw
              (
                read_u64-kept page_header_len (omega arith),
                decode_children-kept n page_no (page_header_len + 8) none (omega arith),
              )
              refl))

  node_of_type-kept :
      (t : PageType) (page_no n : ℕ)
      → 8 ≤ length page
      → node_of_type t kept page_no n ≡ node_of_type t page page_no n
  unfolding node_of_type
  node_of_type-kept PageType.btree_leaf page_no n big =
      rw same.0 (decode_leaf-kept page_no n (length page - 8) (omega arith))
  node_of_type-kept PageType.btree_inner page_no n big =
      rw same.0 (decode_inner-kept page_no n (length page - 8) (omega arith))
  node_of_type-kept _ page_no n big = refl

  header_kept : 24 ≤ length page → P.decode kept ≡ P.decode page
  unfolding P.decode
  header_kept big =
      rw
        (
          same.0,
          read_u32-kept 4 (omega arith),
          read_u64-kept 8 (omega arith),
          first_byte kept page (same.1 0 1 (omega arith)),
        )
        refl

  -- Pages of one length that agree before the trailer decode to the same node, or both fail.
  pub decode_node-kept :
      (page_no : ℕ) → 24 ≤ length page → decode_node kept page_no ≡ decode_node page page_no
  unfolding decode_node
  decode_node-kept page_no big = rw (header_kept big) (
      question_same (ok_or (P.decode page) (malformed_page page_no "page header"))
        (λ h. node_of_type h.page_type kept page_no h.entry_count)
        (λ h. node_of_type h.page_type page page_no h.entry_count)
        (λ h _. node_of_type-kept h.page_type page_no h.entry_count (omega arith)))

-- Stamping a page with its checksum does not change the node that it decodes to, for pages that
-- hold a header and a checksum.
pub decode_node-stamp :
    (x : Xxh3) (page : Bytes) (page_no : ℕ)
    → 24 ≤ length page
    → decode_node (stamp_page_checksum x page) page_no ≡ decode_node page page_no
decode_node-stamp x page page_no big =
    decode_node-kept (stamp_page_checksum x page) page
      (length-stamp x page, λ o n h. get_range-stamp x page o n h) page_no big
