-- ===== src/Fts/Postings/Nth.antt =====
-- crates/embedmind-core/src/index/fts.rs: a block of a body reached by its number, as
-- `lookup_via_skip` reaches it.
use embedmind.Prelude.{
  ℕ, zero, suc, ◌+◌, ◌*◌, ◌^◌, ◌<◌, ◌≡◌, refl, ◌∙◌, Bool, List, [], ◌∷◌, length, length-append,
  take, drop, drop-drop, arith,
}
use embedmind.Bytes.{Bytes}
use embedmind.Bytes.Reads.{Reads, Reads-front, Reads-back, Reads-next, Reads-at}
use embedmind.Fts.{Posting, SkipEntry, skip_block_size, entry_len}
use embedmind.Fts.Postings.{blocks_of, skip_bytes, skip_index, blocks_body, block_bytes}
use embedmind.Fts.Postings.Index.{length-skip_bytes}

-- Block `b` of a list.
abbrev pub nth_block : ℕ → List Posting → List Posting
nth_block b ps = take skip_block_size (drop (b * skip_block_size) ps)

-- Where the index has its entry, and where its bytes are.
pub record Placed (entry : SkipEntry) (frame : Bool) (body : Bytes) (at base : ℕ)
    (block : List Posting) : Type 0 where
  pub start : ℕ
  pub small : start < 2 ^ 32
  pub indexed : Reads body at (skip_bytes entry block start)
  pub stored : Reads body (base + start) (block_bytes frame block)

next_drop : (b : ℕ) (ps : List Posting) → drop (b * 128) (drop 128 ps) ≡ drop (suc b * 128) ps
next_drop b ps =
    let e : 128 + b * 128 ≡ suc b * 128 = omega arith in drop-drop (b * 128) 128 ps ∙ rw e refl

pub nth_block-Placed :
    (entry : SkipEntry) (frame : Bool) (body : Bytes) (base at : ℕ) (turns b start : ℕ)
    (ps : List Posting)
    → b < length (blocks_of turns ps)
    → start + length (blocks_body frame (blocks_of turns ps)) < 2 ^ 32
    → Reads body at (skip_index entry frame start (blocks_of turns ps))
    → Reads body (base + start) (blocks_body frame (blocks_of turns ps))
    → Placed entry frame body (at + b * entry_len entry) base (nth_block b ps)
unfolding blocks_of skip_index blocks_body
nth_block-Placed entry frame body base at zero b start ps lt small ri rb = absurd (omega arith)
nth_block-Placed entry frame body base at (suc turns) b start [] lt small ri rb =
    absurd (omega arith)
nth_block-Placed entry frame body base at (suc turns) zero start (p ∷ ps) lt small ri rb =
    let block = take skip_block_size (p ∷ ps) in
    let others = blocks_of turns (drop skip_block_size (p ∷ ps)) in
    let bytes = block_bytes frame block in
    let here : at + 0 * entry_len entry ≡ at = omega arith in
    rw here (record {
      start = start;
      small = omega arith;
      indexed =
          Reads-front body at (skip_bytes entry block start)
            (skip_index entry frame (start + length bytes) others) ri;
      stored = Reads-front body (base + start) bytes (blocks_body frame others) rb;
    })
nth_block-Placed entry frame body base at (suc turns) (suc b) start (p ∷ ps) lt small ri rb =
    let xs = p ∷ ps in
    let block = take skip_block_size xs in
    let others = drop skip_block_size xs in
    let blocks = blocks_of turns others in
    let bytes = block_bytes frame block in
    let total = length-append bytes (blocks_body frame blocks) in
    let ri' =
      Reads-next body at (entry_len entry) (skip_bytes entry block start)
        (skip_index entry frame (start + length bytes) blocks) (length-skip_bytes entry block start)
        ri in
    let rb' =
      Reads-at body (base + start + length bytes) (base + (start + length bytes))
        (blocks_body frame blocks) (omega arith)
        (Reads-back body (base + start) bytes (blocks_body frame blocks) rb) in
    let ih =
      nth_block-Placed entry frame body base (at + entry_len entry) turns b (start + length bytes)
        others (omega arith) (omega arith) ri' rb' in
    let there : at + entry_len entry + b * entry_len entry ≡ at + suc b * entry_len entry =
      omega arith in
    rw (← there, ← next_drop b xs) ih
