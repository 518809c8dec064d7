-- ===== src/Fts/Postings/Agrees.antt =====
-- crates/embedmind-core/src/index/fts.rs: `lookup_via_skip` against a search of the whole list.
use embedmind.Prelude.{
  ℕ, zero, suc, ◌+◌, ◌*◌, ◌^◌, ◌<◌, ◌≤◌, ◌≡◌, refl, sym, ap, ◌∙◌, List, [], ◌∷◌, length,
  length-drop, take, drop, arith,
}
use embedmind.Error.{ok}
use embedmind.Bytes.{Bytes}
use embedmind.Bytes.Reads.{Reads, Reads-at, Reads-fits}
use embedmind.Fts.{Posting, SkipEntry, PostingsLayout, entry_len}
use embedmind.Fts.Runs.Sorted.{Valid, IsSorted, Valid-IsSorted, Valid-take, Valid-drop, last_of}
use embedmind.Fts.Runs.Blocks.{checked_lem, max_tf_lt}
use embedmind.Fts.Postings.{read_u128_le, blocks_of, first_id, last_id, skip_index, blocks_body}
use embedmind.Fts.Postings.Skip.{block_len, term_freq_in, look_in_block}
use embedmind.Fts.Postings.Index.{
  ReadsEntry, skip_bytes-ReadsEntry, length-blocks_of, block_len-blocks_of,
}
use embedmind.Fts.Postings.Blocks.{framed, decode_block_run-of, last_id-lt}
use embedmind.Fts.Postings.Nth.{nth_block, Placed, nth_block-Placed}
use embedmind.Fts.Postings.Lookup.{first_id-drop_le, drop_above, in_block}
use embedmind.Fts.Postings.Search.{Parts, term_freq_in-absent}

first_id-lt : (i prev : ℕ) (ps : List Posting) → Valid i prev ps → first_id ps < 2 ^ 128
first_id-lt i prev [] v = omega arith
first_id-lt i prev (p ∷ ps) (a, c, d, e, rest) = c

block_last-lt : (ps : List Posting) → IsSorted ps → last_id ps < 2 ^ 128
unfolding last_id
block_last-lt [] sorted = omega arith
block_last-lt (p ∷ ps) sorted = last_id-lt p ps sorted

first_id-take : (n : ℕ) (ps : List Posting) → first_id (take (suc n) ps) ≡ first_id ps
first_id-take n [] = refl
first_id-take n (p ∷ ps) = refl

nth_block-IsSorted : (b : ℕ) (ps : List Posting) → IsSorted ps → IsSorted (nth_block b ps)
nth_block-IsSorted b ps sorted =
    let v = Valid-drop (b * 128) 0 0 ps sorted in
    Valid-IsSorted (0 + b * 128) (last_of 0 (take (b * 128) ps)) (nth_block b ps)
      (Valid-take 128 (0 + b * 128) (last_of 0 (take (b * 128) ps)) (drop (b * 128) ps) v)

-- The length that the code counts for a block.
nth_block-len :
    (b : ℕ) (ps : List Posting)
    → b * 128 < length ps
    → block_len (length ps) (length (blocks_of (length ps) ps)) b ≡ length (nth_block b ps)
nth_block-len b ps h =
    let n = length ps in
    let behind = drop (b * 128) ps in
    let behind_len = length-drop (b * 128) ps in
    let rest_len = length-drop 128 behind in
    let all = length-blocks_of n ps (omega arith) in
    let left = length-blocks_of n (drop 128 behind) (omega arith) in
    let e : length (blocks_of n ps) ≡ suc b + length (blocks_of n (drop 128 behind)) =
      omega arith in
    rw e (block_len-blocks_of n b n behind (omega arith) (omega arith))

module _ (entry : SkipEntry) (layout : PostingsLayout) (ps : List Posting) (body : Bytes)
    (page_no target : ℕ) (sorted : IsSorted ps) (room : length body < 2 ^ 32)
    (small : length (blocks_body (framed layout) (blocks_of (length ps) ps)) < 2 ^ 32) (base : ℕ)
    (based : base < 2 ^ 32)
    (ri : Reads body 8 (skip_index entry (framed layout) 0 (blocks_of (length ps) ps)))
    (rb : Reads body base (blocks_body (framed layout) (blocks_of (length ps) ps))) where
  placed :
      (b : ℕ)
      → b < length (blocks_of (length ps) ps)
      → Placed entry (framed layout) body (8 + b * entry_len entry) base (nth_block b ps)
  placed b h =
      nth_block-Placed entry (framed layout) body base 8 (length ps) b 0 ps h (omega arith) ri (
        Reads-at body base (base + 0) (blocks_body (framed layout) (blocks_of (length ps) ps))
          (omega arith) rb)

  entry_of :
      (b : ℕ) (h : b < length (blocks_of (length ps) ps))
      → ReadsEntry entry body (8 + b * entry_len entry) page_no (nth_block b ps) (placed b h).start
  entry_of b h =
      let block = nth_block b ps in
      let s = nth_block-IsSorted b ps sorted in
      skip_bytes-ReadsEntry entry body (8 + b * entry_len entry) page_no block (placed b h).start
        (first_id-lt 0 0 block s) (block_last-lt block s) (placed b h).small (max_tf_lt 0 0 block s)
        (placed b h).indexed

  pub first_of_block :
      (b : ℕ)
      → b < length (blocks_of (length ps) ps)
      → read_u128_le body (8 + b * entry_len entry) page_no ≡ ok (first_id (drop (b * 128) ps))
  first_of_block b h = (entry_of b h).first ∙ ap (λ n. ok n) (first_id-take 127 (drop (b * 128) ps))

  pub blocks_ascend :
      (b c : ℕ)
      → b ≤ c
      → c < length (blocks_of (length ps) ps)
      → first_id (drop (b * 128) ps) ≤ first_id (drop (c * 128) ps)
  blocks_ascend b c le h =
      first_id-drop_le (b * 128) (c * 128) 0 0 ps sorted (omega arith)
        (omega (arith, length-blocks_of (length ps) ps (omega arith)))

  pub look_in_block-lem :
      (r : ℕ)
      → Parts (λ b. first_id (drop (b * 128) ps)) (length (blocks_of (length ps) ps)) target r
      → look_in_block entry layout body page_no
          (length ps)
          (length (blocks_of (length ps) ps))
          base
          target
          r
        ≡ ok (term_freq_in target ps)
  unfolding look_in_block
  look_in_block-lem zero parts =
      let n = length-blocks_of (length ps) ps (omega arith) in
      let above =
        drop_above 0 0 0 target ps sorted (λ s. parts.beyond 0 (omega arith) (omega arith)) in
      ap (λ o. ok o) (sym (term_freq_in-absent target ps above))
  look_in_block-lem (suc b) parts =
      let n = length-blocks_of (length ps) ps (omega arith) in
      let within = parts.within in
      let inside : b < length (blocks_of (length ps) ps) = omega arith in
      let here : b * 128 < length ps = omega arith in
      let block = nth_block b ps in
      let spot = placed b inside in
      let fits = Reads-fits body (base + spot.start) _ spot.stored in
      rw
        (
          (entry_of b inside).byte_offset,
          checked_lem (base + spot.start) (omega arith),
          nth_block-len b ps here,
          decode_block_run-of layout block [] (base + spot.start) page_no body
              (nth_block-IsSorted b ps sorted) (omega arith) spot.stored,
          in_block b target ps sorted here (parts.upto b (omega arith))
              (λ s. parts.beyond (suc b) (omega arith) (omega arith)),
        )
        refl
