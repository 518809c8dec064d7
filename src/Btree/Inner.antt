-- ===== src/Btree/Inner.antt =====
-- crates/embedmind-core/src/storage/btree.rs, `encode_inner` and `decode_node`: about inner nodes on
-- their pages, the rightmost child first, then separators with their children.
use embedmind.Prelude.{
  ℕ, ◌+◌, ◌-◌, ◌*◌, ◌^◌, ◌<◌, ◌≤◌, ◌≡◌, refl, ◌∙◌, sym, Bool, true, false, ◌||◌, Option, none, some,
  List, [], ◌∷◌, ◌++◌, length, length-append, replicate, length-replicate, All, ltb, leb, ◌==◌,
  if◌then◌else◌, none_if-some, unless_some, arith,
}
use embedmind.Error.{ok}
use embedmind.Bytes.{Bytes, le_bytes, get_range, write_bytes}
use embedmind.Bytes.Le.{length-le_bytes}
use embedmind.Bytes.Range.{get_range-write_self, get_range-write_below, length-write_bytes}
use embedmind.Bytes.Reads.{Reads, Reads-front, Reads-next, Reads-range, read_u64-of}
use embedmind.Format.{page_header_len, page_trailer_len}
use embedmind.Format.Page as P
use embedmind.Format.Page.{btree_inner, PageHeader, encode_into}
use embedmind.Format.Page.Laws.{decode-kept, length-encode_into}
use embedmind.Btree.{InnerNode, inner, inner_entry_len}
use embedmind.Btree.Codec.{
  in_order, decode_children, decode_inner, decode_node, put_children, is_nil, encode_inner,
}

-- A separator with its child.
abbrev pub IsChild : Bytes × ℕ → Type 0
IsChild c = (length c.0 ≡ 16) × (0 < c.1) × (c.1 < 2 ^ 64)

-- The separators ascend, from behind `prev`.
abbrev pub Separates : Option Bytes → List (Bytes × ℕ) → Type 0
Separates prev [] = Unit
Separates prev (c ∷ cs) = (in_order prev c.0 ≡ true) × Separates (some c.0) cs

length-put_children :
    (page : Bytes) (cs : List (Bytes × ℕ)) (base : ℕ)
    → length (put_children page cs base) ≡ length page
unfolding put_children
length-put_children page [] base = refl
length-put_children page ((k, c) ∷ cs) base =
    length-put_children (write_bytes page base (k ++ le_bytes 8 c)) cs (base + 24)
    ∙ length-write_bytes page base (k ++ le_bytes 8 c)

put_children-keeps :
    (page : Bytes) (cs : List (Bytes × ℕ)) (base o n : ℕ)
    → o + n ≤ base
    → get_range (put_children page cs base) o n ≡ get_range page o n
unfolding put_children
put_children-keeps page [] base o n below = refl
put_children-keeps page ((k, c) ∷ cs) base o n below =
    put_children-keeps (write_bytes page base (k ++ le_bytes 8 c)) cs (base + 24) o n (omega arith)
    ∙ get_range-write_below page base (k ++ le_bytes 8 c) o n below

decode_children-put_children :
    (page : Bytes) (page_no : ℕ) (cs : List (Bytes × ℕ)) (base : ℕ) (prev : Option Bytes)
    → All IsChild cs
    → Separates prev cs
    → base + length cs * 24 ≤ length page
    → decode_children (length cs) (put_children page cs base) page_no base prev ≡ ok cs
unfolding decode_children put_children
decode_children-put_children page page_no [] base prev v asc fits = refl
decode_children-put_children page page_no ((k, c) ∷ cs) base prev ((v, lo, hi), vs) (a, asc) fits =
    let entry = k ++ le_bytes 8 c in
    let size : length entry ≡ 24 =
      omega (arith, length-append k (le_bytes 8 c), length-le_bytes 8 c) in
    let next = write_bytes page base entry in
    let final = put_children next cs (base + 24) in
    let whole : Reads final base entry =
      put_children-keeps next cs (base + 24) base (length entry) (omega arith)
      ∙ get_range-write_self page base entry (omega arith) in
    let key = Reads-range final base 16 k v (Reads-front final base k (le_bytes 8 c) whole) in
    let child =
      read_u64-of final (base + 16) c hi (Reads-next final base 16 k (le_bytes 8 c) v whole) in
    let real : (c == 0) ≡ false = ground arith in
    let more =
      decode_children-put_children next page_no cs (base + 24) (some k) vs asc
        (omega (arith, length-write_bytes page base entry)) in
    rw (key, a, child, real, more) refl

header_of : InnerNode → PageHeader
header_of node = record {
  page_type = btree_inner;
  entry_count = length node.entries;
  next_page = 0;
}

some_entries :
    (cs : List (Bytes × ℕ)) (full : Bool) (x page : Bytes)
    → (if is_nil cs || full then none else some x) ≡ some page
    → (length cs == 0) ≡ false
unfolding is_nil
some_entries [] full x page e = cc
some_entries (c ∷ cs) full x page e = ground arith

fits_of :
    (cs : List (Bytes × ℕ)) (full : ℕ) (most : ℕ) (x page : Bytes)
    → (if is_nil cs || ltb most full then none else some x) ≡ some page
    → (full ≤ most) × (page ≡ x)
unfolding is_nil
fits_of [] full most x page e = cc
fits_of (c ∷ cs) full most x page e = let (a, b) = none_if-some most full x page e in (a, sym b)

encoded_not_empty :
    (node : InnerNode) (page_size : ℕ) (page : Bytes)
    → encode_inner node page_size ≡ some page
    → (length node.entries == 0) ≡ false
unfolding encode_inner is_nil
encoded_not_empty node page_size page e = some_entries node.entries _ _ _ e

-- An inner node that is not empty, whose children are real pages and whose separators ascend,
-- decodes from the page that it was encoded to.
pub decode_node-encode_inner :
    (node : InnerNode) (page_size page_no : ℕ) (page : Bytes)
    → 24 ≤ page_size
    → page_size ≤ 65536
    → All IsChild node.entries
    → Separates none node.entries
    → 0 < node.rightmost
    → node.rightmost < 2 ^ 64
    → encode_inner node page_size ≡ some page
    → decode_node page page_no ≡ ok (inner node)
unfolding encode_inner decode_node decode_inner header_of
decode_node-encode_inner node page_size page_no page big small v asc lo hi e =
    let cs = node.entries in
    let zeros : Bytes = replicate page_size 0 in
    let blank = encode_into (header_of node) zeros in
    let right = write_bytes blank 16 (le_bytes 8 node.rightmost) in
    let body = put_children right cs 24 in
    let end = page_size - page_trailer_len in
    let zeros_len = length-replicate {A = ℕ} page_size 0 in
    let (fits, written) = fits_of cs _ _ _ _ e in
    let many : (length cs == 0) ≡ false = encoded_not_empty node page_size page e in
    let size : length blank ≡ page_size = length-encode_into (header_of node) zeros ∙ zeros_len in
    let size_right : length right ≡ page_size =
      length-write_bytes blank 16 (le_bytes 8 node.rightmost) ∙ size in
    let size_body : length body ≡ page_size = length-put_children right cs 24 ∙ size_right in
    let head : P.decode body ≡ some (header_of node) =
      decode-kept (header_of node) zeros body
        (record { entry_count = omega arith; next_page = omega arith }) (omega arith)
        (size_body ∙ sym zeros_len)
        (λ o n le.
          put_children-keeps right cs 24 o n (omega arith)
          ∙ get_range-write_below blank 16 (le_bytes 8 node.rightmost) o n le) in
    let last = read_u64-of body 16 node.rightmost hi (
      put_children-keeps right cs 24 16 (length (le_bytes 8 node.rightmost))
        (omega (arith, length-le_bytes 8 node.rightmost))
      ∙ get_range-write_self blank 16 (le_bytes 8 node.rightmost)
          (omega (arith, length-le_bytes 8 node.rightmost))) in
    let real : (node.rightmost == 0) ≡ false = ground arith in
    let room : leb (page_header_len + 8 + length cs * inner_entry_len) end ≡ true = ground arith in
    let children = decode_children-put_children right page_no cs 24 none v asc (omega arith) in
    rw (written, head, size_body, many, room, last, real, children) refl

filled : (cs : List (Bytes × ℕ)) → 0 < length cs → is_nil cs ≡ false
unfolding is_nil
filled [] h = absurd (omega arith)
filled (c ∷ cs) h = refl

-- An inner node that is not empty is encoded when its entries fit the page.
pub encode_inner_fits :
    (node : InnerNode) (page_size : ℕ)
    → 0 < length node.entries
    → 24 + length node.entries * 24 + 8 ≤ page_size
    → (page : Bytes) × (encode_inner node page_size ≡ some page)
unfolding encode_inner is_nil
encode_inner_fits node page_size full fits =
    let some_child = filled node.entries full in
    let room : ltb (page_size - page_trailer_len)
          (page_header_len + 8 + length node.entries * inner_entry_len)
        ≡ false =
      ground arith in
    unless_some
      (is_nil node.entries
        || ltb (page_size - page_trailer_len)
            (page_header_len + 8 + length node.entries * inner_entry_len))
      _ (rw (some_child, room) refl)
