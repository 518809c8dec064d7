-- ===== src/Btree/Split.antt =====
-- crates/embedmind-core/src/storage/btree.rs, `insert_rec`: how the entries of a leaf that no
-- longer fit are cut in two.
use embedmind.Prelude.{
  ℕ, zero, suc, ◌+◌, ◌/◌, ◌<◌, ◌≤◌, ◌≡◌, refl, Bool-cases, inl, inr, some, List, [], ◌∷◌, length,
  take, drop, All, leb, leb→le, if◌then◌else◌, arith,
}
use embedmind.Bytes.{Bytes}
use embedmind.Btree.{LeafEntry, footprint, total_footprint, usable, max_entry_footprint}
use embedmind.Btree.Codec.{encode_leaf}
use embedmind.Btree.LeafPage.{encode_leaf_fits}

-- The loop that looks for the byte midpoint: the first index of the right half, from `acc` bytes
-- that are to the left already.
unfoldable pub cut_at : ℕ → ℕ → List LeafEntry → ℕ
cut_at half acc [] = 0
cut_at half acc (e ∷ es) =
    let rest = cut_at half (acc + footprint e) es in
    if leb half (acc + footprint e) then 1 else suc rest

-- `split_off` at the cut.
abbrev pub left_half : List LeafEntry → List LeafEntry
left_half es = take (cut_at (total_footprint es / 2) 0 es) es

abbrev pub right_half : List LeafEntry → List LeafEntry
right_half es = drop (cut_at (total_footprint es / 2) 0 es) es

-- The entry keeps to the limit that makes room for four on a page.
abbrev pub IsSmall : ℕ → LeafEntry → Type 0
IsSmall page_size e = footprint e ≤ max_entry_footprint page_size

halves_add :
    (n : ℕ) (es : List LeafEntry)
    → total_footprint (take n es) + total_footprint (drop n es) ≡ total_footprint es
halves_add zero es = omega arith
halves_add (suc n) [] = refl
halves_add (suc n) (e ∷ es) = omega (arith, halves_add n es)

-- What goes to the left reaches the midpoint with its last entry, and not before.
cut_at_lem :
    (page_size half acc : ℕ) (es : List LeafEntry)
    → All (IsSmall page_size) es
    → acc < half
    → half ≤ acc + total_footprint es
    → let left = total_footprint (take (cut_at half acc es) es) in
      (half ≤ acc + left) × (acc + left < half + max_entry_footprint page_size)
unfolding cut_at
cut_at_lem page_size half acc [] v below reach = absurd (omega arith)
cut_at_lem page_size half acc (e ∷ es) (v, vs) below reach =
    let at = acc + footprint e in
    elim (Bool-cases (leb half at)) [
      | inl now ↦ rw now (omega (arith, leb→le half at now), omega arith)
      | inr later ↦
          let (a, b) = cut_at_lem page_size half at es vs (ground arith) (omega arith) in
          rw later (omega arith, omega arith)
    ]

take_full : (n : ℕ) (es : List LeafEntry) → 0 < total_footprint (take n es) → 0 < length (take n es)
take_full zero es h = absurd (omega arith)
take_full (suc n) [] h = absurd (omega arith)
take_full (suc n) (e ∷ es) h = omega arith

drop_full : (n : ℕ) (es : List LeafEntry) → 0 < total_footprint (drop n es) → 0 < length (drop n es)
drop_full zero [] h = absurd (omega arith)
drop_full zero (e ∷ es) h = omega arith
drop_full (suc n) [] h = absurd (omega arith)
drop_full (suc n) (e ∷ es) h = drop_full n es h

-- Entries that keep to the limit, and that outgrow a page by no more than one of them, are cut
-- into two halves that are not empty and that both fit a page.
pub halves_fit :
    (page_size : ℕ) (es : List LeafEntry)
    → 512 ≤ page_size
    → All (IsSmall page_size) es
    → usable page_size < total_footprint es
    → total_footprint es ≤ usable page_size + max_entry_footprint page_size
    → (0 < length (left_half es))
      × (0 < length (right_half es))
      × ((page : Bytes) × (encode_leaf (left_half es) page_size ≡ some page))
      × ((page : Bytes) × (encode_leaf (right_half es) page_size ≡ some page))
halves_fit page_size es big v more most =
    let half = total_footprint es / 2 in
    let cut = cut_at half 0 es in
    let (a, b) = cut_at_lem page_size half 0 es v (omega arith) (omega arith) in
    let sum = halves_add cut es in
    (
      take_full cut es (omega arith),
      drop_full cut es (omega arith),
      encode_leaf_fits (take cut es) page_size (omega arith) (omega arith),
      encode_leaf_fits (drop cut es) page_size (omega arith) (omega arith),
    )
