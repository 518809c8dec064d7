-- ===== src/Format/Page/Laws.antt =====
-- Page headers read back what was written, and accept only known page types.
use embedmind.Prelude.{
  ℕ, ◌^◌, ◌≤◌, ◌<◌, ◌+◌, ◌≡◌, refl, ap, ◌∙◌, some, List, [], ◌∷◌, length, get_elem?, arith,
}
use embedmind.Bytes.{Bytes, get_range, le_bytes, read_u32, read_u64, write_u32, write_u64}
use embedmind.Bytes.Writes.{Write, write_all, Ascending, length-write_all, get_range-write_all}
use embedmind.Bytes.Le.{length-le_bytes}
use embedmind.Bytes.Reads.{Reads-of-range, Reads-range, read_u32-of, read_u64-of}
use embedmind.Bytes.Fields.{read_u32-write_all, read_u64-write_all}
use embedmind.Format.Page.{PageType, to_u8, from_u8, PageHeader, encode_into, decode}

pub from_u8-to_u8 : (t : PageType) → from_u8 (to_u8 t) ≡ some t
unfolding from_u8 to_u8
from_u8-to_u8 PageType.btree_inner = refl
from_u8-to_u8 _ = refl

-- A byte that decodes to a page type is the byte of that type.
from_u8_sound : (v : ℕ) (t : PageType) → from_u8 v ≡ some t → to_u8 t ≡ v
unfolding from_u8 to_u8
from_u8_sound v t h = ground arith

abbrev pub header_writes : PageHeader → List Write
header_writes h =
    (0, to_u8 h.page_type ∷ 0 ∷ 0 ∷ 0 ∷ [])
    ∷ (4, le_bytes 4 h.entry_count)
    ∷ (8, le_bytes 8 h.next_page)
    ∷ []

pub encode_into-write_all :
    (h : PageHeader) (page : Bytes) → encode_into h page ≡ write_all page (header_writes h)
unfolding encode_into write_u32 write_u64
encode_into-write_all h page = refl

pub length-encode_into : (h : PageHeader) (page : Bytes) → length (encode_into h page) ≡ length page
length-encode_into h page = rw encode_into-write_all (length-write_all page (header_writes h))

-- The fields of a page header fit their widths.
pub record IsHeader (h : PageHeader) : Type 0 where
  pub entry_count : h.entry_count < 2 ^ 32
  pub next_page : h.next_page < 2 ^ 64

pub header_writes-Ascending : (h : PageHeader) → Ascending 0 (header_writes h) 16
unfolding le_bytes
header_writes-Ascending h = omega arith

head-of-range :
    (buf : Bytes) (b : ℕ) (r : Bytes) → get_range buf 0 4 ≡ some (b ∷ r) → get_elem? buf 0 ≡ some b
unfolding get_range
head-of-range [] b r h = ground arith
head-of-range (c ∷ cs) b r h = ground arith

-- A page whose fields read as those of `h` decodes to `h`.
pub decode-of-fields :
    (h : PageHeader) (page : Bytes)
    → 16 ≤ length page
    → get_elem? page 0 ≡ some (to_u8 h.page_type)
    → read_u32 page 4 ≡ some h.entry_count
    → read_u64 page 8 ≡ some h.next_page
    → decode page ≡ some h
unfolding decode
decode-of-fields h page len t e n = ground (arith, from_u8-to_u8 h.page_type)

-- On any page of at least 16 bytes, whatever it held, decoding gives the header that was written,
-- if its fields fit their widths.
pub decode-encode_into :
    (h : PageHeader) (page : Bytes)
    → IsHeader h
    → 16 ≤ length page
    → decode (encode_into h page) ≡ some h
decode-encode_into h page v len =
    let ws = header_writes h in
    let asc = header_writes-Ascending h in
    rw encode_into-write_all (
      decode-of-fields h (write_all page ws) (omega (arith, length-write_all page ws))
        (head-of-range _ _ _ (get_range-write_all page ws 0 16 0 0 _ asc len refl))
        (read_u32-write_all page ws 0 16 1 4 h.entry_count asc len refl v.entry_count)
        (read_u64-write_all page ws 0 16 2 8 h.next_page asc len refl v.next_page))

-- A page whose first 16 bytes are those of a page that `h` was written to decodes to `h`.
pub decode-kept :
    (h : PageHeader) (page kept : Bytes)
    → IsHeader h
    → 16 ≤ length page
    → length kept ≡ length page
    → ((o n : ℕ) → o + n ≤ 16 → get_range kept o n ≡ get_range (encode_into h page) o n)
    → decode kept ≡ some h
decode-kept h page kept v len same keeps =
    let ws = header_writes h in
    let asc = header_writes-Ascending h in
    let keeps : (o n : ℕ) → o + n ≤ 16 → get_range kept o n ≡ get_range (write_all page ws) o n =
      λ o n le. keeps o n le ∙ ap (λ q. get_range q o n) (encode_into-write_all h page) in
    decode-of-fields h kept (omega arith)
      (head-of-range _ _ _
        (keeps 0 4 (omega arith) ∙ get_range-write_all page ws 0 16 0 0 _ asc len refl))
      (read_u32-of kept 4 h.entry_count v.entry_count (
        Reads-of-range kept 4 4 (le_bytes 4 h.entry_count) (length-le_bytes 4 h.entry_count) (
          keeps 4 4 (omega arith)
          ∙ Reads-range (write_all page ws) 4 4 (le_bytes 4 h.entry_count)
              (length-le_bytes 4 h.entry_count)
              (get_range-write_all page ws 0 16 1 4 _ asc len refl))))
      (read_u64-of kept 8 h.next_page v.next_page (
        Reads-of-range kept 8 8 (le_bytes 8 h.next_page) (length-le_bytes 8 h.next_page) (
          keeps 8 8 (omega arith)
          ∙ Reads-range (write_all page ws) 8 8 (le_bytes 8 h.next_page)
              (length-le_bytes 8 h.next_page)
              (get_range-write_all page ws 0 16 2 8 _ asc len refl))))
