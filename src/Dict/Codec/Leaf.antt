-- ===== src/Dict/Codec/Leaf.antt =====
-- crates/embedmind-core/src/index/dict.rs: `decode_node` at a leaf that `encode_leaf` wrote.
use embedmind.Prelude.{
  ℕ, suc, ◌+◌, ◌-◌, ◌^◌, ◌≤◌, ◌<◌, ◌≡◌, refl, sym, ap, ◌∙◌, true, Option, none, some, List, [], ◌∷◌,
  ◌++◌, length, length-append, All, none_if-some, arith,
}
use embedmind.Error.{ok}
use embedmind.Bytes.{Bytes}
use embedmind.Bytes.Range.{length-write_bytes}
use embedmind.Bytes.Reads.{Reads, Reads-front, Reads-back, Reads-next, Reads-at}
use embedmind.Format.{Xxh3, page_header_len, page_trailer_len, stamp_page_checksum}
use embedmind.Format.Page as P
use embedmind.Format.Page.{PageHeader, encode_into}
use embedmind.Fts.Varint.RoundTrip.{Reads-head}
use embedmind.Dict.{DictSpec, node_leaf, LeafEntry, leaf, same_type}
use embedmind.Dict.Codec.{
  decode_entries, decode_leaf, decode_node, put_entries, footprints, fresh_page, encode_leaf,
}
use embedmind.Dict.Codec.Layout.{
  key_bytes, value_bytes, entries_bytes, length-key_bytes, length-entries_bytes,
}
use embedmind.Dict.Codec.Puts.{put_entries_lem, put-put}
use embedmind.Dict.Codec.Values.{
  IsEntry, Ascends, tag_of, payload_of, value_parts, get_bytes_u16-of, decode_value-of,
}
use embedmind.Dict.Codec.Pages.{fresh_page-Framed, fresh_page-room, same_type_refl}
use embedmind.Dict.Fields.{Cursor, put, put_u8}

suc_lem : (n : ℕ) → suc n ≡ 1 + n
suc_lem n = omega arith

decode_entries-of :
    (es : List LeafEntry) (page : Bytes) (content_end page_no off : ℕ) (prev : Option Bytes)
    → All IsEntry es
    → Ascends prev es
    → Reads page off (entries_bytes es)
    → off + length (entries_bytes es) ≤ content_end
    → content_end ≤ length page
    → decode_entries (length es) page content_end page_no off prev ≡ ok es
unfolding decode_entries
decode_entries-of [] page content_end page_no off prev v asc reads a b = refl
decode_entries-of (e ∷ es) page content_end page_no off prev ((vk, vv), vs) (o, asc) reads a b =
    let key = key_bytes e.key in
    let value = value_bytes e.value in
    let payload = payload_of e.value in
    let rest = entries_bytes es in
    let kl = length-key_bytes e.key in
    let all = length-append key (value ++ rest) in
    let both = length-append value rest in
    let vlen : length value ≡ 1 + length payload =
      ap (λ (t : Bytes). length t) (value_parts e.value) ∙ suc_lem (length payload) in
    let at_value : Reads page (off + 2 + length e.key) (value ++ rest) =
      Reads-at page (off + length key) (off + 2 + length e.key) (value ++ rest) (omega arith)
        (Reads-back page off key (value ++ rest) reads) in
    let whole = Reads-front page (off + 2 + length e.key) value rest at_value in
    let parts : Reads page (off + 2 + length e.key) (tag_of e.value ∷ payload) =
      rw (value_parts e.value) at whole in
    let at_payload =
      Reads-next page (off + 2 + length e.key) 1 (tag_of e.value ∷ []) payload refl parts in
    let at_rest =
      Reads-at page (off + 2 + length e.key + length value)
        (off + 2 + length e.key + 1 + length payload) rest (omega arith)
        (Reads-back page (off + 2 + length e.key) value rest at_value) in
    rw
      (
        get_bytes_u16-of page e.key off content_end page_no "dict leaf key" vk
            (Reads-front page off key (value ++ rest) reads) (omega arith) b,
        o,
        Reads-head page (off + 2 + length e.key) (tag_of e.value) payload parts,
        decode_value-of e.value page (off + 2 + length e.key + 1) content_end page_no vv at_payload
            (omega arith) b,
        decode_entries-of es page content_end page_no (off + 2 + length e.key + 1 + length payload)
            (some e.key) vs asc at_rest (omega arith) b,
      )
      refl

-- The one write that the entries of a leaf come to.
leaf_put :
    (es : List LeafEntry) (c : Cursor)
    → c.1 + (1 + footprints es) ≤ length c.0
    → put_entries es (put_u8 node_leaf c) ≡ put (node_leaf ∷ entries_bytes es) c
unfolding put_u8
leaf_put es c h =
    let kind : Bytes = node_leaf ∷ [] in
    let el = length-entries_bytes es in
    put_entries_lem es (put kind c) (omega (arith, length-write_bytes c.0 c.1 kind))
    ∙ put-put c kind (entries_bytes es) (omega arith)

entries_few : (es : List LeafEntry) → length es ≤ footprints es
entries_few [] = omega arith
entries_few (e ∷ es) = omega (arith, entries_few es)

-- A leaf whose entries are valid and in order decodes, from the page that it was encoded to, to the
-- same entries, for page sizes up to 65536.
pub decode_node-encode_leaf_dict :
    (x : Xxh3) (es : List LeafEntry) (page_size page_no : ℕ) (spec : DictSpec) (page : Bytes)
    → 24 ≤ page_size
    → page_size ≤ 65536
    → All IsEntry es
    → Ascends none es
    → encode_leaf x es page_size spec ≡ some page
    → decode_node page page_no spec ≡ ok (leaf es)
unfolding encode_leaf decode_node decode_leaf
decode_node-encode_leaf_dict x es page_size page_no spec page big small v asc e =
    let (fits, written) =
      none_if-some (page_size - page_trailer_len) (page_header_len + (1 + footprints es)) _ _ e in
    let bytes = node_leaf ∷ entries_bytes es in
    let el = length-entries_bytes es in
    let few : length es < 2 ^ 32 = omega (arith, entries_few es) in
    let put_eq =
      leaf_put es (fresh_page spec page_size (length es))
        (fresh_page-room spec page_size (length es) (1 + footprints es) (omega arith)) in
    let same : stamp_page_checksum x (put bytes (fresh_page spec page_size (length es))).0 ≡ page =
      ap (λ (c : Cursor). stamp_page_checksum x c.0) (sym put_eq) ∙ written in
    let framed = fresh_page-Framed x spec page_size (length es) bytes few big (omega arith) in
    let size : length page ≡ page_size = rw (← same) framed.size in
    let head : P.decode page
        ≡ some (record { page_type = spec.dict; entry_count = length es; next_page = 0 }) =
      rw (← same) framed.head in
    let body : Reads page 16 bytes = rw (← same) framed.body in
    let own : same_type spec.dict spec.dict ≡ true = same_type_refl spec.dict in
    let entries =
      decode_entries-of es page (length page - 8) page_no 17 none v asc
        (Reads-next page 16 1 (node_leaf ∷ []) (entries_bytes es) refl body) (omega arith)
        (omega arith) in
    rw (head, own, Reads-head page 16 node_leaf (entries_bytes es) body, entries) refl
