-- ===== src/Btree/LeafPage.antt =====
-- crates/embedmind-core/src/storage/btree.rs, `encode_leaf` and `decode_node`: about whole leaves.
use embedmind.Prelude.{
  ℕ, ◌+◌, ◌-◌, ◌*◌, ◌≤◌, ◌≡◌, inl, inr, refl, ◌∙◌, sym, true, none, some, List, [], ◌∷◌, length,
  replicate, length-replicate, All, leb, none_if-some, none_if-none, Option-cases, arith,
}
use embedmind.Error.{ok}
use embedmind.Bytes.{Bytes}
use embedmind.Format.{page_header_len, page_trailer_len}
use embedmind.Format.Page as P
use embedmind.Format.Page.{btree_leaf, PageHeader, encode_into}
use embedmind.Format.Page.Laws.{decode-kept, length-encode_into}
use embedmind.Btree.{LeafEntry, leaf, slot_len, total_footprint, usable}
use embedmind.Btree.Codec.{decode_leaf, decode_node, put_entries, cells_len, encode_leaf}
use embedmind.Btree.Leaf.{
  IsEntry, Ascends, length-put_entries, put_entries-keeps, decode_slots-put_entries,
}

-- The bytes that entries take up, as the encoder adds them.
footprints : (es : List LeafEntry) → total_footprint es ≡ length es * 20 + cells_len es
footprints [] = refl
footprints (e ∷ es) = omega (arith, footprints es)

-- A leaf is encoded when its entries' footprints fit the usable bytes of a page.
pub encode_leaf_fits :
    (es : List LeafEntry) (page_size : ℕ)
    → 24 ≤ page_size
    → total_footprint es ≤ usable page_size
    → (page : Bytes) × (encode_leaf es page_size ≡ some page)
unfolding encode_leaf
encode_leaf_fits es page_size big fits = elim (Option-cases (encode_leaf es page_size)) [
  | inr found ↦ found
  | inl e ↦
      let over =
        none_if-none (page_size - page_trailer_len)
          (page_header_len + length es * slot_len + cells_len es) _ e in
      absurd (omega (arith, footprints es))
]

header_of : (es : List LeafEntry) → PageHeader
header_of es = record { page_type = btree_leaf; entry_count = length es; next_page = 0 }

-- A leaf whose entries are valid and in order decodes, from the page that it was encoded to, to
-- the same entries, for page sizes that a 16-bit offset covers.
pub decode_node-encode_leaf :
    (es : List LeafEntry) (page_size page_no : ℕ) (page : Bytes)
    → 24 ≤ page_size
    → page_size ≤ 65536
    → All IsEntry es
    → Ascends none es
    → encode_leaf es page_size ≡ some page
    → decode_node page page_no ≡ ok (leaf es)
unfolding encode_leaf decode_node decode_leaf header_of
decode_node-encode_leaf es page_size page_no page big small v asc e =
    let zeros : Bytes = replicate page_size 0 in
    let blank = encode_into (header_of es) zeros in
    let end = page_size - page_trailer_len in
    let body = put_entries blank es 16 end in
    let (fits, written) = none_if-some _ _ _ _ e in
    let size : length blank ≡ page_size =
      length-encode_into (header_of es) zeros ∙ length-replicate {A = ℕ} page_size 0 in
    let size' : length body ≡ page_size = length-put_entries blank es 16 end ∙ size in
    let head : P.decode body ≡ some (header_of es) =
      decode-kept (header_of es) zeros body
        (record { entry_count = omega arith; next_page = omega arith })
        (omega (arith, length-replicate {A = ℕ} page_size 0))
        (size' ∙ sym (length-replicate {A = ℕ} page_size 0))
        (λ o n le. put_entries-keeps blank es 16 end o n v (omega arith) (inl le)) in
    let slots =
      decode_slots-put_entries blank page_no (16 + length es * 20) end es 16 end none v asc refl
        (omega arith) (omega arith) (omega arith) (omega arith) in
    let room : leb (page_header_len + length es * slot_len) end ≡ true = ground arith in
    rw (sym written, head, size', room, slots) refl

pub length-encode_leaf :
    (es : List LeafEntry) (page_size : ℕ) (page : Bytes)
    → encode_leaf es page_size ≡ some page
    → length page ≡ page_size
unfolding encode_leaf header_of
length-encode_leaf es page_size page e =
    let (fits, written) = none_if-some _ _ _ _ e in
    rw (sym written) (
      length-put_entries (encode_into (header_of es) (replicate page_size 0)) es 16
        (page_size - page_trailer_len)
      ∙ length-encode_into (header_of es) (replicate page_size 0)
      ∙ length-replicate {A = ℕ} page_size 0)
