-- ===== src/Dict/Split.antt =====
-- crates/embedmind-core/src/index/dict.rs, `insert_rec`: the halves of a leaf, cut at the middle of
-- its bytes. Those of an inner node are in Dict/Split/Inner.
pub mod Inner
use Prim.Native.Nat.{max}
use embedmind.Prelude.{
  All-take, All-drop, ℕ, zero, suc, ◌+◌, ◌-◌, ◌*◌, ◌/◌, ◌<◌, ◌≤◌, ◌≡◌, refl, false, ◌||◌, inl, inr,
  Bool-cases, some, List, [], ◌∷◌, length, length-take, length-drop, take, drop, All, ltb, leb,
  leb→le, if◌then◌else◌, unless_some, arith,
}
use embedmind.Bytes.{Bytes}
use embedmind.Format.{Xxh3}
use embedmind.Btree.Codec.{is_nil}
use embedmind.Dict.{
  DictSpec, inline, overflow, LeafEntry, footprint, usable, max_entry_footprint, max_inline_body,
}
use embedmind.Dict.Codec.{footprints, separators_len, encode_leaf, encode_inner}
use embedmind.Dict.Upsert.{cut_at, left_half, right_half}

-- The most that an entry takes up: the cap, or, where the cap has no room for a value behind the
-- longest key, that key with a value that is a pointer.
abbrev pub most_footprint : DictSpec → ℕ → ℕ
most_footprint spec page_size = max (max_entry_footprint page_size) (2 + spec.max_key_len + 13)

-- A value that `make_value` leaves inline or moves to a chain.
pub footprint-most :
    (spec : DictSpec) (page_size : ℕ) (key body : Bytes) (first_page : ℕ)
    → length key ≤ spec.max_key_len
    → let value =
        if leb (length body) (max_inline_body spec page_size)
        then inline body
        else overflow (length body) first_page in
      footprint (record { key = key; value = value }) ≤ most_footprint spec page_size
footprint-most spec page_size key body first_page h =
    elim (Bool-cases (leb (length body) (max_inline_body spec page_size))) [
      | inl small ↦
          let fits = leb→le (length body) (max_inline_body spec page_size) small in
          rw small (omega arith)
      | inr large ↦ rw large (omega arith)
    ]

halves_add :
    (n : ℕ) (es : List LeafEntry) → footprints (take n es) + footprints (drop n es) ≡ footprints es
halves_add zero es = omega arith
halves_add (suc n) [] = refl
halves_add (suc n) (e ∷ es) = omega (arith, halves_add n es)

cut_at_lem :
    (most half acc : ℕ) (es : List LeafEntry)
    → All (λ (e : LeafEntry). footprint e ≤ most) es
    → acc < half
    → half ≤ acc + footprints es
    → let left = footprints (take (cut_at half acc es) es) in
      (half ≤ acc + left) × (acc + left < half + most)
unfolding cut_at
cut_at_lem most half acc [] v below reach = absurd (omega arith)
cut_at_lem most half acc (e ∷ es) (v, vs) below reach =
    let at = acc + footprint e in
    elim (Bool-cases (leb half at)) [
      | inl now ↦ rw now (omega (arith, leb→le half at now), omega arith)
      | inr later ↦
          let (a, b) = cut_at_lem most half at es vs (ground arith) (omega arith) in
          rw later (omega arith, omega arith)
    ]

filled : (es : List LeafEntry) → 0 < footprints es → 0 < length es
filled [] h = absurd (omega arith)
filled (e ∷ es) h = omega arith

pub encode_leaf_fits :
    (x : Xxh3) (es : List LeafEntry) (page_size : ℕ) (spec : DictSpec)
    → 24 ≤ page_size
    → 1 + footprints es ≤ usable page_size
    → (page : Bytes) × (encode_leaf x es page_size spec ≡ some page)
unfolding encode_leaf
encode_leaf_fits x es page_size spec big fits =
    unless_some (ltb (page_size - 8) (16 + (1 + footprints es))) _ (ground arith)

-- Where no entry takes up more than the most of it, and an entry too many stands in the leaf, either
-- half has an entry and fits a page: for every page size, with keys of up to 129 bytes.
pub dict_halves_fit :
    (x : Xxh3) (spec : DictSpec) (page_size : ℕ) (es : List LeafEntry)
    → 512 ≤ page_size
    → spec.max_key_len ≤ 129
    → All (λ (e : LeafEntry). footprint e ≤ most_footprint spec page_size) es
    → usable page_size < 1 + footprints es
    → 1 + footprints es ≤ usable page_size + most_footprint spec page_size
    → (0 < length (left_half es))
      × (0 < length (right_half es))
      × ((page : Bytes) × (encode_leaf x (left_half es) page_size spec ≡ some page))
      × ((page : Bytes) × (encode_leaf x (right_half es) page_size spec ≡ some page))
dict_halves_fit x spec page_size es big keys v more most =
    let half = footprints es / 2 in
    let cut = cut_at half 0 es in
    let (a, b) =
      cut_at_lem (most_footprint spec page_size) half 0 es v (omega arith) (omega arith) in
    let sum = halves_add cut es in
    (
      filled (take cut es) (omega arith),
      filled (drop cut es) (omega arith),
      encode_leaf_fits x (take cut es) page_size spec (omega arith) (omega arith),
      encode_leaf_fits x (drop cut es) page_size spec (omega arith) (omega arith),
    )
