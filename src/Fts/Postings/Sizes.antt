-- ===== src/Fts/Postings/Sizes.antt =====
-- crates/embedmind-core/src/index/fts.rs: how long the runs, the blocks and the index of a body are,
-- which the decoders test before they read.
use native.Mathlib.Nat.{mul-le-mul_left}
use embedmind.Prelude.{
  ℕ, zero, suc, ◌+◌, ◌*◌, ◌^◌, ◌<◌, ◌≤◌, ◌≡◌, refl, Bool, true, false, List, [], ◌∷◌, ◌++◌, length,
  length-append, length-take, length-drop, take, drop, leb, arith,
}
use embedmind.Error.{ok}
use embedmind.Bytes.{Bytes}
use embedmind.Fts.{Posting, SkipEntry, skip_block_size, entry_len}
use embedmind.Fts.Varint.{varint_loop, put_varint}
use embedmind.Fts.Fixed.{byte_width, byte_width_pos}
use embedmind.Fts.Runs.{
  wrapping_sub, delta_run, encode_delta_run, reject_hostile_delta_count, max_delta, max_tf,
}
use embedmind.Fts.Runs.Sorted.{Valid, IsSorted, Valid-IsSorted, Valid-take, Valid-drop, last_of}
use embedmind.Fts.Runs.Blocks.{length-encode_for_block, checked_lem}
use embedmind.Fts.Postings.{blocks_of, skip_bytes, skip_index, blocks_body, block_bytes}
use embedmind.Fts.Postings.Index.{length-skip_bytes}

put_varint_pos : (v : ℕ) → 1 ≤ length (put_varint v)
unfolding put_varint varint_loop
put_varint_pos v = ground arith

delta_run_long : (prev : ℕ) (ps : List Posting) → 2 * length ps ≤ length (delta_run prev ps)
unfolding delta_run
delta_run_long prev [] = omega arith
delta_run_long prev (p ∷ ps) =
    let delta = put_varint (wrapping_sub p.record_id prev) in
    let tf = put_varint p.term_freq in
    let tail = delta_run p.record_id ps in
    omega (
      arith,
      length-append delta (tf ++ tail),
      length-append tf tail,
      put_varint_pos (wrapping_sub p.record_id prev),
      put_varint_pos p.term_freq,
      delta_run_long p.record_id ps,
    )

pub encode_delta_run_long : (ps : List Posting) → 2 * length ps ≤ length (encode_delta_run ps)
unfolding encode_delta_run
encode_delta_run_long ps = delta_run_long 0 ps

times_least : (n w : ℕ) → 1 ≤ w → n ≤ n * w
times_least n w h = let e : n * 1 ≤ n * w = mul-le-mul_left n h in omega arith

block_bytes_long :
    (frame : Bool) (ps : List Posting) → IsSorted ps → 2 * length ps ≤ length (block_bytes frame ps)
unfolding block_bytes
block_bytes_long false ps sorted = encode_delta_run_long ps
block_bytes_long true ps sorted =
    let dw = byte_width (max_delta 0 ps) in
    let tw = byte_width (max_tf ps) in
    omega (
      arith,
      length-encode_for_block ps sorted,
      times_least (length ps) dw (byte_width_pos (max_delta 0 ps)),
      times_least (length ps) tw (byte_width_pos (max_tf ps)),
    )

pub blocks_body_long :
    (frame : Bool) (turns i prev : ℕ) (ps : List Posting)
    → length ps ≤ turns
    → Valid i prev ps
    → 2 * length ps ≤ length (blocks_body frame (blocks_of turns ps))
unfolding blocks_of blocks_body
blocks_body_long frame zero i prev [] h v = omega arith
blocks_body_long frame zero i prev (p ∷ ps) h v = absurd (omega arith)
blocks_body_long frame (suc turns) i prev [] h v = omega arith
blocks_body_long frame (suc turns) i prev (p ∷ ps) h v =
    let xs = p ∷ ps in
    let block = take skip_block_size xs in
    let others = drop skip_block_size xs in
    let sorted = Valid-take skip_block_size 0 0 xs (Valid-IsSorted i prev xs v) in
    let tail = blocks_body frame (blocks_of turns others) in
    let ih =
      blocks_body_long frame turns (i + skip_block_size) (last_of prev block) others
        (omega (arith, length-drop skip_block_size xs)) (Valid-drop skip_block_size i prev xs v) in
    omega (
      arith,
      length-append (block_bytes frame block) tail,
      block_bytes_long frame block sorted,
      ih,
      length-take skip_block_size xs,
      length-drop skip_block_size xs,
    )

pub length-skip_index :
    (entry : SkipEntry) (frame : Bool) (start : ℕ) (blocks : List (List Posting))
    → length (skip_index entry frame start blocks) ≡ length blocks * entry_len entry
unfolding skip_index
length-skip_index entry frame start [] = omega arith
length-skip_index entry frame start (block ∷ blocks) =
    let next = start + length (block_bytes frame block) in
    omega (
      arith,
      length-append (skip_bytes entry block start) (skip_index entry frame next blocks),
      length-skip_bytes entry block start,
      length-skip_index entry frame next blocks,
    )

pub reject_hostile_delta_count-passes :
    (body : Bytes) (count page_no : ℕ)
    → count < 2 ^ 32
    → 4 + 2 * count ≤ length body
    → reject_hostile_delta_count body count page_no ≡ ok tt
unfolding reject_hostile_delta_count
reject_hostile_delta_count-passes body count page_no small h =
    let room : leb (4 + count * 2) (length body) ≡ true = ground arith in
    rw (checked_lem (count * 2) (omega arith), checked_lem (4 + count * 2) (omega arith), room) refl
