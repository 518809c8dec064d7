-- ===== src/Format/HnswNode/Fits.antt =====
-- The cap on levels, `max_hnsw_level`: a node up to it fits a page, whatever neighbors it has.
use embedmind.Prelude.{
  ℕ, ◌+◌, ◌-◌, ◌*◌, ◌/◌, ◌≤◌, ◌≡◌, inl, inr, some, List, [], ◌∷◌, ◌++◌, length, length-append, All,
  arith, ltb, Bool-cases,
}
use embedmind.Error.{ok}
use embedmind.Bytes.{Bytes, le_bytes}
use embedmind.Bytes.Le.{length-le_bytes}
use embedmind.Format.{Xxh3}
use embedmind.Format.HnswMeta.{max_hnsw_level}
use embedmind.Format.HnswNode.{Ulids, HnswNode, neighbor_bytes, front_bytes, encode, decode}
use embedmind.Format.HnswNode.Laws.{IsNode, all_layers, length-neighbor_bytes, decode-encode_node}
use native.Mathlib.Nat.{div-mul-le_self, suc-mul, mul-le-mul_right}

abbrev pub IsAtMost : ℕ → List ℕ → Type 0
IsAtMost m layer = length layer ≤ m

length-layer :
    (l : List ℕ) (ls : List (List ℕ))
    → length (all_layers (l ∷ ls)) ≡ 2 + length l * 8 + length (all_layers ls)
length-layer l ls = omega (
  arith,
  length-append (le_bytes 2 (length l) ++ neighbor_bytes l) (all_layers ls),
  length-append (le_bytes 2 (length l)) (neighbor_bytes l),
  length-le_bytes 2 (length l),
  length-neighbor_bytes l,
)

upper_layers :
    (m : ℕ) (ls : List (List ℕ))
    → All (IsAtMost m) ls
    → length (all_layers ls) ≤ length ls * (2 + m * 8)
upper_layers m [] h = omega arith
upper_layers m (l ∷ ls) (h, hs) =
    omega (arith, length-layer l ls, upper_layers m ls hs, suc-mul (length ls) (2 + m * 8))

length-front : (U : Ulids) (h : HnswNode U) → length (front_bytes U h) ≡ 27
unfolding front_bytes
length-front U h = omega (
  arith,
  length-append (U.to_bytes h.record_id)
      (le_bytes 8 h.vec_page ++ (le_bytes 2 h.vec_slot ++ length h.layers ∷ [])),
  length-append (le_bytes 8 h.vec_page) (le_bytes 2 h.vec_slot ++ length h.layers ∷ []),
  length-append (le_bytes 2 h.vec_slot) (length h.layers ∷ []),
  U.length-to_bytes h.record_id,
  length-le_bytes 8 h.vec_page,
  length-le_bytes 2 h.vec_slot,
)

-- What the cap leaves for the layers above the first.
level_room :
    (page_size m level : ℕ)
    → max_hnsw_level page_size m ≡ some level
    → 16 + 27 + (2 + m * 2 * 8) + level * (2 + m * 8) + 8 ≤ page_size
unfolding max_hnsw_level
level_room page_size m level e =
    let rest : ℕ = page_size - 16 - 8 - (16 + 8 + 2 + 1 + (2 + m * 2 * 8)) in
    let below : rest / (2 + m * 8) * (2 + m * 8) ≤ rest = div-mul-le_self rest (2 + m * 8) in
    elim (Bool-cases (ltb (page_size - 16 - 8) (16 + 8 + 2 + 1 + (2 + m * 2 * 8)))) [
      | inl none_fits ↦ absurd (ground arith)
      | inr fits ↦
          let capped : level ≤ rest / (2 + m * 8) = ground arith in
          let scaled = mul-le-mul_right (2 + m * 8) capped in
          let room : 16 + 8 + 2 + 1 + (2 + m * 2 * 8) ≤ page_size - 16 - 8 = ground arith in
          omega (arith, below, scaled, room)
    ]

-- A node whose numbers fit their widths, with at most 2m neighbors in its first layer, at most m in
-- each other layer, and a level of at most the cap for the page size and m, is encoded into a page,
-- which decodes to it.
pub encode_capped :
    (x : Xxh3) (U : Ulids) (h : HnswNode U) (page_size page_no m level : ℕ) (first : List ℕ)
    (upper : List (List ℕ))
    → IsNode U h
    → h.layers ≡ first ∷ upper
    → IsAtMost (m * 2) first
    → All (IsAtMost m) upper
    → max_hnsw_level page_size m ≡ some level
    → length upper ≤ level
    → (page : Bytes) × (encode x U h page_size ≡ some page) × (decode U page page_no ≡ ok h)
encode_capped x U h page_size page_no m level first upper v e few fewer cap low =
    let room = level_room page_size m level cap in
    let above = upper_layers m upper fewer in
    let scaled = mul-le-mul_right (2 + m * 8) low in
    let layers_len : length (all_layers h.layers)
        ≡ 2 + length first * 8 + length (all_layers upper) =
      rw e (length-layer first upper) in
    decode-encode_node x U h page_size page_no v (
      omega (
        arith,
        length-append (front_bytes U h) (all_layers h.layers),
        length-front U h,
        layers_len,
        room,
        above,
        scaled,
        few,
      ))
