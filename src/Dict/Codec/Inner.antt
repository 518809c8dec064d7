-- ===== src/Dict/Codec/Inner.antt =====
-- crates/embedmind-core/src/index/dict.rs: `decode_node` at an inner node that `encode_inner` wrote.
use embedmind.Prelude.{
  ℕ, ◌+◌, ◌-◌, ◌^◌, ◌≤◌, ◌<◌, ◌≡◌, refl, sym, ap, ◌∙◌, true, ◌||◌, not, Option, none, some, List,
  [], ◌∷◌, ◌++◌, length, length-append, All, ltb, ◌==◌, if◌then◌else◌, none_if-some, arith,
}
use embedmind.Error.{ok}
use embedmind.Bytes.{Bytes, le_bytes}
use embedmind.Bytes.Le.{length-le_bytes}
use embedmind.Bytes.Range.{length-write_bytes}
use embedmind.Bytes.Reads.{Reads, Reads-front, Reads-back, Reads-next, Reads-at}
use embedmind.Format.{Xxh3, page_header_len, page_trailer_len, stamp_page_checksum}
use embedmind.Format.Page as P
use embedmind.Format.Page.{PageHeader, encode_into}
use embedmind.Fts.Varint.RoundTrip.{Reads-head}
use embedmind.Btree.Codec.{in_order, is_nil}
use embedmind.Dict.{DictSpec, node_inner, InnerNode, inner}
use embedmind.Dict.Codec.{
  decode_children, decode_inner, decode_node, put_children, separators_len, fresh_page,
  encode_inner,
}
use embedmind.Dict.Codec.Layout.{key_bytes, children_bytes, length-key_bytes, length-children_bytes}
use embedmind.Dict.Codec.Puts.{put_children_lem, put-put, put_u64_lem}
use embedmind.Dict.Codec.Values.{get_bytes_u16-of, get_u64-of}
use embedmind.Dict.Codec.Pages.{fresh_page-Framed, fresh_page-room, same_type_refl}
use embedmind.Dict.Fields.{Cursor, put, put_u8, put_u64}

-- A separator with its child.
abbrev pub IsChild : Bytes × ℕ → Type 0
IsChild c = (length c.0 < 2 ^ 16) × (0 < c.1) × (c.1 < 2 ^ 64)

-- The separators ascend, from behind `prev`.
abbrev pub Separates : Option Bytes → List (Bytes × ℕ) → Type 0
Separates prev [] = Unit
Separates prev (c ∷ cs) = (in_order prev c.0 ≡ true) × Separates (some c.0) cs

decode_children-of :
    (cs : List (Bytes × ℕ)) (page : Bytes) (content_end page_no off : ℕ) (prev : Option Bytes)
    → All IsChild cs
    → Separates prev cs
    → Reads page off (children_bytes cs)
    → off + length (children_bytes cs) ≤ content_end
    → content_end ≤ length page
    → decode_children (length cs) page content_end page_no off prev ≡ ok cs
unfolding decode_children
decode_children-of [] page content_end page_no off prev v asc reads a b = refl
decode_children-of ((k, c) ∷ cs) page content_end page_no off prev ((vk, lo, hi), vs) (o, asc) reads
      a b =
    let key = key_bytes k in
    let link = le_bytes 8 c in
    let rest = children_bytes cs in
    let kl = length-key_bytes k in
    let ll = length-le_bytes 8 c in
    let all = length-append key (link ++ rest) in
    let both = length-append link rest in
    let at_link : Reads page (off + 2 + length k) (link ++ rest) =
      Reads-at page (off + length key) (off + 2 + length k) (link ++ rest) (omega arith)
        (Reads-back page off key (link ++ rest) reads) in
    let at_rest = Reads-next page (off + 2 + length k) 8 link rest ll at_link in
    let real : not (c == 0) ≡ true = ground arith in
    rw
      (
        get_bytes_u16-of page k off content_end page_no "dict inner key" vk
            (Reads-front page off key (link ++ rest) reads) (omega arith) b,
        o,
        get_u64-of page (off + 2 + length k) c page_no hi
            (Reads-front page (off + 2 + length k) link rest at_link),
        real,
        decode_children-of cs page content_end page_no (off + 2 + length k + 8) (some k) vs asc
            at_rest (omega arith) b,
      )
      refl

-- The one write that an inner node comes to.
inner_put :
    (node : InnerNode) (c : Cursor)
    → c.1 + (1 + 8 + separators_len node.entries) ≤ length c.0
    → put_children node.entries (put_u64 node.rightmost (put_u8 node_inner c))
      ≡ put (node_inner ∷ (le_bytes 8 node.rightmost ++ children_bytes node.entries)) c
unfolding put_u8
inner_put node c h =
    let kind : Bytes = node_inner ∷ [] in
    let last = le_bytes 8 node.rightmost in
    let rest = children_bytes node.entries in
    let el = length-children_bytes node.entries in
    let ll = length-le_bytes 8 node.rightmost in
    let both = length-append last rest in
    let w1 = length-write_bytes c.0 c.1 kind in
    let w2 = length-write_bytes (put kind c).0 (put kind c).1 last in
    ap (λ (k : Cursor). put_children node.entries k) (put_u64_lem node.rightmost (put kind c))
    ∙ put_children_lem node.entries (put last (put kind c)) (omega arith)
    ∙ put-put (put kind c) last rest (omega arith)
    ∙ put-put c kind (last ++ rest) (omega arith)

children_few : (cs : List (Bytes × ℕ)) → length cs ≤ separators_len cs
children_few [] = omega arith
children_few ((k, c) ∷ cs) = omega (arith, children_few cs)

written_of :
    (cs : List (Bytes × ℕ)) (most full : ℕ) (made page : Bytes)
    → (if is_nil cs || ltb most full then none else some made) ≡ some page
    → (0 < length cs) × (full ≤ most) × (made ≡ page)
unfolding is_nil
written_of [] most full made page e = cc
written_of (c ∷ cs) most full made page e =
    let (a, b) = none_if-some most full made page e in (omega arith, a, b)

-- An inner node whose children are real pages and whose separators ascend decodes, from the page that
-- it was encoded to, to the same node, for page sizes up to 65536.
pub decode_node-encode_inner_dict :
    (x : Xxh3) (node : InnerNode) (page_size page_no : ℕ) (spec : DictSpec) (page : Bytes)
    → 24 ≤ page_size
    → page_size ≤ 65536
    → All IsChild node.entries
    → Separates none node.entries
    → 0 < node.rightmost
    → node.rightmost < 2 ^ 64
    → encode_inner x node page_size spec ≡ some page
    → decode_node page page_no spec ≡ ok (inner node)
unfolding encode_inner decode_node decode_inner
decode_node-encode_inner_dict x node page_size page_no spec page big small v asc lo hi e =
    let cs = node.entries in
    let (filled, fits, written) =
      written_of cs (page_size - page_trailer_len) (page_header_len + (1 + 8 + separators_len cs)) _
        page e in
    let last = le_bytes 8 node.rightmost in
    let rest = children_bytes cs in
    let bytes = node_inner ∷ (last ++ rest) in
    let el = length-children_bytes cs in
    let ll = length-le_bytes 8 node.rightmost in
    let both = length-append last rest in
    let few : length cs < 2 ^ 32 = omega (arith, children_few cs) in
    let put_eq =
      inner_put node (fresh_page spec page_size (length cs))
        (fresh_page-room spec page_size (length cs) (1 + 8 + separators_len cs) (omega arith)) in
    let same : stamp_page_checksum x (put bytes (fresh_page spec page_size (length cs))).0 ≡ page =
      ap (λ (c : Cursor). stamp_page_checksum x c.0) (sym put_eq) ∙ written in
    let framed = fresh_page-Framed x spec page_size (length cs) bytes few big (omega arith) in
    let size : length page ≡ page_size = rw (← same) framed.size in
    let head : P.decode page
        ≡ some (record { page_type = spec.dict; entry_count = length cs; next_page = 0 }) =
      rw (← same) framed.head in
    let body : Reads page 16 bytes = rw (← same) framed.body in
    let at_last = Reads-next page 16 1 (node_inner ∷ []) (last ++ rest) refl body in
    let at_rest = Reads-next page 17 8 last rest ll at_last in
    let some_entries : not (length cs == 0) ≡ true = ground arith in
    let real : not (node.rightmost == 0) ≡ true = ground arith in
    rw
      (
        head,
        same_type_refl spec.dict,
        Reads-head page 16 node_inner (last ++ rest) body,
        some_entries,
        get_u64-of page 17 node.rightmost page_no hi (Reads-front page 17 last rest at_last),
        real,
        decode_children-of cs page (length page - 8) page_no 25 none v asc at_rest (omega arith)
            (omega arith),
      )
      refl
