-- ===== src/Btree/Leaf.antt =====
-- crates/embedmind-core/src/storage/btree.rs, the loops of `encode_leaf` and `decode_node`: about the
-- slots, which grow from the front, and the cells, from the tail.
use embedmind.Prelude.{
  ℕ, suc, ◌+◌, ◌-◌, ◌*◌, ◌^◌, ◌<◌, ◌≤◌, ◌≡◌, ◌⊎◌, inl, inr, refl, ◌∙◌, true, false, ◌||◌, Option,
  some, List, [], ◌∷◌, ◌++◌, length, length-append, All, ltb, ◌==◌, arith,
}
use embedmind.Error.{ok}
use embedmind.Bytes.{Bytes, le_bytes, get_range, write_bytes}
use embedmind.Bytes.Le.{length-le_bytes}
use embedmind.Bytes.Range.{
  get_range-write_self, get_range-write_below, get_range-write_above, length-write_bytes,
}
use embedmind.Bytes.Reads.{
  Reads, Reads-front, Reads-back, Reads-next, Reads-whole, read_u16-of, read_u32-of, read_u64-of,
  Reads-range, Reads-at,
}
use embedmind.Btree.{Cell, inline, overflow, encoded_len, LeafEntry}
use embedmind.Btree.Codec.{decode_cell, in_order, decode_slots, cell_bytes, put_entries, cells_len}

-- A cell that the format can hold.
abbrev pub IsCell : Cell → Type 0
IsCell (inline v) = Unit
IsCell (overflow total_len first_page) =
    (total_len ≤ 33554432) × (0 < first_page) × (first_page < 2 ^ 64)

abbrev pub IsEntry : LeafEntry → Type 0
IsEntry e = (length e.key ≡ 16) × IsCell e.cell

-- The keys ascend, from behind `prev`.
abbrev pub Ascends : Option Bytes → List LeafEntry → Type 0
Ascends prev [] = Unit
Ascends prev (e ∷ es) = (in_order prev e.key ≡ true) × Ascends (some e.key) es

pub length-cell_bytes : (c : Cell) → length (cell_bytes c) ≡ encoded_len c
length-cell_bytes (inline v) = omega arith
length-cell_bytes (overflow t f) =
    omega
      (arith, length-append (le_bytes 4 t) (le_bytes 8 f), length-le_bytes 4 t, length-le_bytes 8 f)

pub encoded_len_pos : (c : Cell) → 0 < encoded_len c
encoded_len_pos (inline v) = omega arith
encoded_len_pos (overflow t f) = omega arith

decode_cell-of : (c : Cell) (page_no : ℕ) → IsCell c → decode_cell (cell_bytes c) page_no ≡ ok c
unfolding decode_cell
decode_cell-of (inline v) page_no h = refl
decode_cell-of (overflow t f) page_no h =
    let bs : Bytes = 1 ∷ (le_bytes 4 t ++ le_bytes 8 f) in
    let whole = Reads-back bs 0 (1 ∷ []) (le_bytes 4 t ++ le_bytes 8 f) (Reads-whole bs) in
    let len : length (le_bytes 4 t ++ le_bytes 8 f) ≡ 12 = omega (
      arith,
      length-append (le_bytes 4 t) (le_bytes 8 f),
      length-le_bytes 4 t,
      length-le_bytes 8 f,
    ) in
    let total =
      read_u32-of bs 1 t (omega arith) (Reads-front bs 1 (le_bytes 4 t) (le_bytes 8 f) whole) in
    let first =
      read_u64-of bs 5 f h.2
        (Reads-next bs 1 4 (le_bytes 4 t) (le_bytes 8 f) (length-le_bytes 4 t) whole) in
    let some_page : (f == 0) ≡ false = ground arith in
    let small : ltb 33554432 t ≡ false = ground arith in
    rw (len, total, first, some_page, small) refl

abbrev slot_bytes : LeafEntry → ℕ → Bytes
slot_bytes e cursor = e.key ++ (le_bytes 2 cursor ++ le_bytes 2 (encoded_len e.cell))

length-slot_bytes :
    (e : LeafEntry) (cursor : ℕ) → length e.key ≡ 16 → length (slot_bytes e cursor) ≡ 20
length-slot_bytes e cursor h = omega (
  arith,
  length-append e.key (le_bytes 2 cursor ++ le_bytes 2 (encoded_len e.cell)),
  length-append (le_bytes 2 cursor) (le_bytes 2 (encoded_len e.cell)),
  length-le_bytes 2 cursor,
  length-le_bytes 2 (encoded_len e.cell),
)

-- The page after the writes of one entry.
abbrev with_entry : Bytes → LeafEntry → ℕ → ℕ → Bytes
with_entry page e slot cursor =
    write_bytes (write_bytes page cursor (cell_bytes e.cell)) slot (slot_bytes e cursor)

pub length-put_entries :
    (page : Bytes) (es : List LeafEntry) (slot cursor : ℕ)
    → length (put_entries page es slot cursor) ≡ length page
unfolding put_entries
length-put_entries page [] slot cursor = refl
length-put_entries page (e ∷ es) slot cursor =
    let at = cursor - encoded_len e.cell in
    length-put_entries (with_entry page e slot at) es (slot + 20) at
    ∙ length-write_bytes (write_bytes page at (cell_bytes e.cell)) slot (slot_bytes e at)
    ∙ length-write_bytes page at (cell_bytes e.cell)

length-with_entry :
    (page : Bytes) (e : LeafEntry) (slot cursor : ℕ)
    → length (with_entry page e slot cursor) ≡ length page
length-with_entry page e slot cursor =
    length-write_bytes (write_bytes page cursor (cell_bytes e.cell)) slot (slot_bytes e cursor)
    ∙ length-write_bytes page cursor (cell_bytes e.cell)

-- The writes leave what is before the slots and what is behind the cells.
pub put_entries-keeps :
    (page : Bytes) (es : List LeafEntry) (slot cursor o n : ℕ)
    → All IsEntry es
    → slot + length es * 20 + cells_len es ≤ cursor
    → (o + n ≤ slot) ⊎ (cursor ≤ o)
    → get_range (put_entries page es slot cursor) o n ≡ get_range page o n
unfolding put_entries
put_entries-keeps page [] slot cursor o n v fits side = refl
put_entries-keeps page (e ∷ es) slot cursor o n (v, vs) fits (inl below) =
    let at = cursor - encoded_len e.cell in
    let cell = length-cell_bytes e.cell in
    put_entries-keeps (with_entry page e slot at) es (slot + 20) at o n vs (omega arith)
      (inl (omega arith))
    ∙ get_range-write_below (write_bytes page at (cell_bytes e.cell)) slot (slot_bytes e at) o n
        below
    ∙ get_range-write_below page at (cell_bytes e.cell) o n (omega arith)
put_entries-keeps page (e ∷ es) slot cursor o n (v, vs) fits (inr above) =
    let at = cursor - encoded_len e.cell in
    let cell = length-cell_bytes e.cell in
    put_entries-keeps (with_entry page e slot at) es (slot + 20) at o n vs (omega arith)
      (inr (omega arith))
    ∙ get_range-write_above (write_bytes page at (cell_bytes e.cell)) slot (slot_bytes e at) o n
        (omega (arith, length-slot_bytes e at v.0))
    ∙ get_range-write_above page at (cell_bytes e.cell) o n (omega (arith, cell))

-- The slot and the cell of the first entry are on the page when all entries are.
first_slot :
    (page : Bytes) (e : LeafEntry) (es : List LeafEntry) (slot cursor : ℕ)
    → IsEntry e
    → All IsEntry es
    → slot + suc (length es) * 20 + cells_len (e ∷ es) ≤ cursor
    → cursor ≤ length page
    → let at = cursor - encoded_len e.cell in
      Reads (put_entries page (e ∷ es) slot cursor) slot (slot_bytes e at)
unfolding put_entries
first_slot page e es slot cursor v vs fits inside =
    let at = cursor - encoded_len e.cell in
    let cell = length-cell_bytes e.cell in
    let size = length-slot_bytes e at v.0 in
    let under = write_bytes page at (cell_bytes e.cell) in
    put_entries-keeps (with_entry page e slot at) es (slot + 20) at slot (length (slot_bytes e at))
      vs (omega arith) (inl (omega arith))
    ∙ get_range-write_self under slot (slot_bytes e at)
        (omega (arith, length-write_bytes page at (cell_bytes e.cell)))

first_cell :
    (page : Bytes) (e : LeafEntry) (es : List LeafEntry) (slot cursor : ℕ)
    → IsEntry e
    → All IsEntry es
    → slot + suc (length es) * 20 + cells_len (e ∷ es) ≤ cursor
    → cursor ≤ length page
    → get_range
        (put_entries page (e ∷ es) slot cursor)
        (cursor - encoded_len e.cell)
        (encoded_len e.cell)
      ≡ some (cell_bytes e.cell)
unfolding put_entries
first_cell page e es slot cursor v vs fits inside =
    let at = cursor - encoded_len e.cell in
    let cell = length-cell_bytes e.cell in
    let size = length-slot_bytes e at v.0 in
    put_entries-keeps (with_entry page e slot at) es (slot + 20) at at (encoded_len e.cell) vs
      (omega arith) (inr (omega arith))
    ∙ get_range-write_above (write_bytes page at (cell_bytes e.cell)) slot (slot_bytes e at) at
        (encoded_len e.cell) (omega arith)
    ∙ Reads-range (write_bytes page at (cell_bytes e.cell)) at (encoded_len e.cell)
        (cell_bytes e.cell) cell (get_range-write_self page at (cell_bytes e.cell) (omega arith))

pub decode_slots-put_entries :
    (page : Bytes) (page_no slots_end content_end : ℕ) (es : List LeafEntry) (slot cursor : ℕ)
    (prev : Option Bytes)
    → All IsEntry es
    → Ascends prev es
    → slots_end ≡ slot + length es * 20
    → slots_end + cells_len es ≤ cursor
    → cursor ≤ content_end
    → content_end ≤ length page
    → content_end < 65536
    → decode_slots
        (length es)
        (put_entries page es slot cursor)
        page_no
        slots_end
        content_end
        slot
        prev
      ≡ ok es
unfolding decode_slots put_entries
decode_slots-put_entries page page_no slots_end content_end [] slot cursor prev v asc se fits
      inside1 inside2 small =
    refl
decode_slots-put_entries page page_no slots_end content_end (e ∷ es) slot cursor prev (v, vs)
      (a, asc) se fits inside1 inside2 small =
    let at = cursor - encoded_len e.cell in
    let len = encoded_len e.cell in
    let pos = encoded_len_pos e.cell in
    let tail = le_bytes 2 at ++ le_bytes 2 len in
    let final = put_entries page (e ∷ es) slot cursor in
    let whole = first_slot page e es slot cursor v vs (omega arith) (omega arith) in
    let key = Reads-range final slot 16 e.key v.0 (Reads-front final slot e.key tail whole) in
    let rest = Reads-next final slot 16 e.key tail v.0 whole in
    let off =
      read_u16-of final (slot + 16) at (omega arith)
        (Reads-front final (slot + 16) (le_bytes 2 at) (le_bytes 2 len) rest) in
    let size = read_u16-of final (slot + 18) len (omega arith) (
      Reads-at final (slot + 16 + 2) (slot + 18) (le_bytes 2 len) (omega arith) (
        Reads-next final (slot + 16) 2 (le_bytes 2 at) (le_bytes 2 len) (length-le_bytes 2 at)
          rest)) in
    let cell = first_cell page e es slot cursor v vs (omega arith) (omega arith) in
    let bounds : (ltb at slots_end || (len == 0 || ltb content_end (at + len))) ≡ false =
      ground arith in
    let more =
      decode_slots-put_entries (with_entry page e slot at) page_no slots_end content_end es
        (slot + 20) at (some e.key) vs asc (omega arith) (omega arith) (omega arith)
        (omega (arith, length-with_entry page e slot at)) small in
    rw (key, a, off, size, bounds, cell, decode_cell-of e.cell page_no v.1, more) refl
