-- ===== src/Dict/Codec/Values.antt =====
-- crates/embedmind-core/src/index/dict.rs: keys and values read back where they were put.
use embedmind.Prelude.{
  ℕ, ◌+◌, ◌^◌, ◌≤◌, ◌<◌, ◌≡◌, refl, String, true, ◌&&◌, not, Option, some, List, [], ◌∷◌, ◌++◌,
  length, length-append, leb, ◌==◌, arith,
}
use embedmind.Error.{ok}
use embedmind.Bytes.{Bytes, le_bytes}
use embedmind.Bytes.Le.{length-le_bytes}
use embedmind.Bytes.Reads.{Reads, Reads-front, Reads-next, read_u16-of, read_u32-of, read_u64-of}
use embedmind.Btree.Codec.{in_order}
use embedmind.Dict.{value_inline, value_overflow, Value, inline, overflow, LeafEntry}
use embedmind.Dict.Codec.{decode_value}
use embedmind.Dict.Codec.Layout.{key_bytes, value_bytes}
use embedmind.Dict.Fields.{get_slice, get_bytes_u16, get_bytes_u32, get_u32, get_u64, read_u32_at}

get_slice-of :
    (page v : Bytes) (off content_end page_no : ℕ) (what : String)
    → Reads page off v
    → off + length v ≤ content_end
    → content_end ≤ length page
    → get_slice page off (length v) content_end page_no what ≡ ok (v, off + length v)
unfolding get_slice
get_slice-of page v off content_end page_no what reads a b =
    let t : (leb (off + length v) content_end && leb (off + length v) (length page)) ≡ true =
      ground arith in
    rw (t, reads) refl

pub get_bytes_u16-of :
    (page v : Bytes) (off content_end page_no : ℕ) (what : String)
    → length v < 2 ^ 16
    → Reads page off (key_bytes v)
    → off + (2 + length v) ≤ content_end
    → content_end ≤ length page
    → get_bytes_u16 page off content_end page_no what ≡ ok (v, off + 2 + length v)
unfolding get_bytes_u16
get_bytes_u16-of page v off content_end page_no what small reads a b =
    let len = le_bytes 2 (length v) in
    rw (read_u16-of page off (length v) small (Reads-front page off len v reads)) (
      get_slice-of page v (off + 2) content_end page_no what
        (Reads-next page off 2 len v (length-le_bytes 2 (length v)) reads) (omega arith) b)

get_bytes_u32-of :
    (page v : Bytes) (off content_end page_no : ℕ) (what : String)
    → length v < 2 ^ 32
    → Reads page off (le_bytes 4 (length v) ++ v)
    → off + (4 + length v) ≤ content_end
    → content_end ≤ length page
    → get_bytes_u32 page off content_end page_no what ≡ ok (v, off + 4 + length v)
unfolding get_bytes_u32 read_u32_at
get_bytes_u32-of page v off content_end page_no what small reads a b =
    let len = le_bytes 4 (length v) in
    rw (read_u32-of page off (length v) small (Reads-front page off len v reads)) (
      get_slice-of page v (off + 4) content_end page_no what
        (Reads-next page off 4 len v (length-le_bytes 4 (length v)) reads) (omega arith) b)

pub get_u64-of :
    (page : Bytes) (off v page_no : ℕ)
    → v < 2 ^ 64
    → Reads page off (le_bytes 8 v)
    → get_u64 page off page_no ≡ ok (v, off + 8)
unfolding get_u64
get_u64-of page off v page_no lt reads = rw (read_u64-of page off v lt reads) refl

get_u32-of :
    (page : Bytes) (off v page_no : ℕ)
    → v < 2 ^ 32
    → Reads page off (le_bytes 4 v)
    → get_u32 page off page_no ≡ ok (v, off + 4)
unfolding get_u32 read_u32_at
get_u32-of page off v page_no lt reads = rw (read_u32-of page off v lt reads) refl

-- A value that the format can hold.
abbrev pub IsValue : Value → Type 0
IsValue (inline body) = length body < 2 ^ 32
IsValue (overflow total_len first_page) =
    (total_len < 2 ^ 32) × (0 < first_page) × (first_page < 2 ^ 64)

abbrev pub IsEntry : LeafEntry → Type 0
IsEntry e = (length e.key < 2 ^ 16) × IsValue e.value

-- The keys ascend, from behind `prev`.
abbrev pub Ascends : Option Bytes → List LeafEntry → Type 0
Ascends prev [] = Unit
Ascends prev (e ∷ es) = (in_order prev e.key ≡ true) × Ascends (some e.key) es

abbrev pub tag_of : Value → ℕ
tag_of (inline body) = value_inline
tag_of (overflow total_len first_page) = value_overflow

abbrev pub payload_of : Value → Bytes
payload_of (inline body) = le_bytes 4 (length body) ++ body
payload_of (overflow total_len first_page) = le_bytes 4 total_len ++ le_bytes 8 first_page

pub value_parts : (v : Value) → value_bytes v ≡ tag_of v ∷ payload_of v
value_parts (inline body) = refl
value_parts (overflow t f) = refl

pub decode_value-of :
    (v : Value) (page : Bytes) (off content_end page_no : ℕ)
    → IsValue v
    → Reads page off (payload_of v)
    → off + length (payload_of v) ≤ content_end
    → content_end ≤ length page
    → decode_value page off content_end page_no (tag_of v) ≡ ok (v, off + length (payload_of v))
unfolding decode_value
decode_value-of (inline body) page off content_end page_no small reads a b =
    let l = length-append (le_bytes 4 (length body)) body in
    let l4 = length-le_bytes 4 (length body) in
    let e : off + 4 + length body ≡ off + length (le_bytes 4 (length body) ++ body) = omega arith in
    rw
      (
        get_bytes_u32-of page body off content_end page_no "dict inline value" small reads
            (omega arith) b,
        e,
      )
      refl
decode_value-of (overflow t f) page off content_end page_no (st, pos, sf) reads a b =
    let l4 = length-le_bytes 4 t in
    let e : off + 4 + 8 ≡ off + length (le_bytes 4 t ++ le_bytes 8 f) =
      omega (arith, length-append (le_bytes 4 t) (le_bytes 8 f), length-le_bytes 8 f) in
    let real : not (f == 0) ≡ true = ground arith in
    rw
      (
        get_u32-of page off t page_no st (Reads-front page off (le_bytes 4 t) (le_bytes 8 f) reads),
        get_u64-of page (off + 4) f page_no sf
            (Reads-next page off 4 (le_bytes 4 t) (le_bytes 8 f) l4 reads),
        real,
        e,
      )
      refl
