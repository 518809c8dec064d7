-- ===== src/Fts/Postings/Index.antt =====
-- crates/embedmind-core/src/index/fts.rs: the entries of the index of blocks as they are read, and
-- the lengths that `chunks` gives the blocks.
use embedmind.Prelude.{
  ℕ, zero, suc, ◌+◌, ◌-◌, ◌*◌, ◌/◌, ◌^◌, ◌<◌, ◌≤◌, ◌≡◌, inl, inr, refl, ap, ◌∙◌, true, false,
  Option, some, none, List, [], ◌∷◌, ◌++◌, length, length-append, length-take, length-drop, take,
  drop, ◌==◌, le-cases, arith,
}
use embedmind.Error.{ok}
use embedmind.Bytes.{Bytes, le_bytes, get_range}
use embedmind.Bytes.Le.{length-le_bytes, from_le-le_bytes}
use embedmind.Bytes.Reads.{Reads, Reads-front, Reads-next, Reads-at, read_u32-of}
use embedmind.Dict.Fields.{read_u32_at}
use embedmind.Fts.{Posting, SkipEntry, v5, v6, skip_block_size, entry_len, tail_off}
use embedmind.Fts.Runs.{max_tf}
use embedmind.Fts.Postings.{read_u128_le, blocks_of, first_id, last_id, skip_bytes}
use embedmind.Fts.Postings.Skip.{stored_last, last_agrees, block_len}

pub read_u32_at-of :
    (body : Bytes) (off v page_no : ℕ)
    → v < 2 ^ 32
    → Reads body off (le_bytes 4 v)
    → read_u32_at body off page_no ≡ ok v
unfolding read_u32_at
read_u32_at-of body off v page_no lt h = rw (read_u32-of body off v lt h) refl

pub read_u128_le-of :
    (body : Bytes) (off v page_no : ℕ)
    → v < 2 ^ 128
    → Reads body off (le_bytes 16 v)
    → read_u128_le body off page_no ≡ ok v
unfolding read_u128_le
read_u128_le-of body off v page_no lt h =
    let slice : get_range body off 16 ≡ some (le_bytes 16 v) = rw (length-le_bytes 16 v) at h in
    rw (slice, from_le-le_bytes 16 v lt) refl

pub length-skip_bytes :
    (entry : SkipEntry) (block : List Posting) (start : ℕ)
    → length (skip_bytes entry block start) ≡ entry_len entry
unfolding skip_bytes entry_len
length-skip_bytes v5 block start =
    let offset = le_bytes 4 start in
    let tf = le_bytes 4 (max_tf block) in
    omega (
      arith,
      length-append (le_bytes 16 (first_id block)) (offset ++ tf),
      length-append offset tf,
      length-le_bytes 16 (first_id block),
      length-le_bytes 4 start,
      length-le_bytes 4 (max_tf block),
    )
length-skip_bytes v6 block start =
    let last = le_bytes 16 (last_id block) in
    let offset = le_bytes 4 start in
    let tf = le_bytes 4 (max_tf block) in
    omega (
      arith,
      length-append (le_bytes 16 (first_id block)) (last ++ (offset ++ tf)),
      length-append last (offset ++ tf),
      length-append offset tf,
      length-le_bytes 16 (first_id block),
      length-le_bytes 16 (last_id block),
      length-le_bytes 4 start,
      length-le_bytes 4 (max_tf block),
    )

-- What an entry of the index reads as.
pub record ReadsEntry (entry : SkipEntry) (body : Bytes) (off page_no : ℕ) (block : List Posting)
    (start : ℕ) : Type 0 where
  pub first : read_u128_le body off page_no ≡ ok (first_id block)
  pub last :
      (stored : Option ℕ) × (stored_last entry body off page_no ≡ ok stored)
      × (last_agrees stored (last_id block) ≡ true)
  pub byte_offset : read_u32_at body (off + tail_off entry) page_no ≡ ok start
  pub max_term_freq : read_u32_at body (off + tail_off entry + 4) page_no ≡ ok (max_tf block)

tail-Reads :
    (body : Bytes) (off tail page_no start tf : ℕ)
    → start < 2 ^ 32
    → tf < 2 ^ 32
    → Reads body (off + tail) (le_bytes 4 start ++ le_bytes 4 tf)
    → (read_u32_at body (off + tail) page_no ≡ ok start)
      × (read_u32_at body (off + tail + 4) page_no ≡ ok tf)
tail-Reads body off tail page_no start tf hs ht reads = (
  read_u32_at-of body (off + tail) start page_no hs
      (Reads-front body (off + tail) (le_bytes 4 start) (le_bytes 4 tf) reads),
  read_u32_at-of body (off + tail + 4) tf page_no ht (
      Reads-next body (off + tail) 4 (le_bytes 4 start) (le_bytes 4 tf) (length-le_bytes 4 start)
        reads),
)

pub skip_bytes-ReadsEntry :
    (entry : SkipEntry) (body : Bytes) (off page_no : ℕ) (block : List Posting) (start : ℕ)
    → first_id block < 2 ^ 128
    → last_id block < 2 ^ 128
    → start < 2 ^ 32
    → max_tf block < 2 ^ 32
    → Reads body off (skip_bytes entry block start)
    → ReadsEntry entry body off page_no block start
unfolding skip_bytes stored_last last_agrees tail_off
skip_bytes-ReadsEntry v5 body off page_no block start hf hl hs ht reads =
    let first = le_bytes 16 (first_id block) in
    let tail = le_bytes 4 start ++ le_bytes 4 (max_tf block) in
    let (a, b) =
      tail-Reads body off 16 page_no start (max_tf block) hs ht
        (Reads-next body off 16 first tail (length-le_bytes 16 (first_id block)) reads) in
    record {
      first =
          read_u128_le-of body off (first_id block) page_no hf
            (Reads-front body off first tail reads);
      last = (none, refl, refl);
      byte_offset = a;
      max_term_freq = b;
    }
skip_bytes-ReadsEntry v6 body off page_no block start hf hl hs ht reads =
    let first = le_bytes 16 (first_id block) in
    let last = le_bytes 16 (last_id block) in
    let tail = le_bytes 4 start ++ le_bytes 4 (max_tf block) in
    let at_last =
      Reads-next body off 16 first (last ++ tail) (length-le_bytes 16 (first_id block)) reads in
    let at_tail =
      Reads-at body (off + 16 + 16) (off + 32) tail (omega arith)
        (Reads-next body (off + 16) 16 last tail (length-le_bytes 16 (last_id block)) at_last) in
    let (a, b) = tail-Reads body off 32 page_no start (max_tf block) hs ht at_tail in
    let e =
      read_u128_le-of body (off + 16) (last_id block) page_no hl
        (Reads-front body (off + 16) last tail at_last) in
    record {
      first =
          read_u128_le-of body off (first_id block) page_no hf
            (Reads-front body off first (last ++ tail) reads);
      last = (some (last_id block), rw e refl, ground arith);
      byte_offset = a;
      max_term_freq = b;
    }

-- The number of blocks, and the length that `block_len` counts for the first of those left.
pub length-blocks_of :
    (turns : ℕ) (ps : List Posting)
    → length ps ≤ turns
    → length (blocks_of turns ps) ≡ (length ps + (skip_block_size - 1)) / skip_block_size
unfolding blocks_of
length-blocks_of zero [] h = omega arith
length-blocks_of zero (p ∷ ps) h = absurd (omega arith)
length-blocks_of (suc turns) [] h = omega arith
length-blocks_of (suc turns) (p ∷ ps) h =
    let len = length-drop 128 (p ∷ ps) in
    omega (arith, length-blocks_of turns (drop 128 (p ∷ ps)) (omega arith), len)

final_block :
    (b count m : ℕ)
    → m ≤ 128
    → count ≡ b * 128 + m
    → block_len count (suc b + (m - 128 + 127) / 128) b ≡ m
unfolding block_len
final_block b count m h total =
    let z : (m - 128 + 127) / 128 ≡ 0 = omega arith in
    let e : suc b + 0 ≡ b + 1 = omega arith in
    let same : (b + 1 == b + 1) ≡ true = ground arith in rw (z, e, same) (omega arith)

full_block : (b count m : ℕ) → 128 < m → block_len count (suc b + (m - 128 + 127) / 128) b ≡ 128
unfolding block_len
full_block b count m h =
    let more : (b + 1 == suc b + (m - 128 + 127) / 128) ≡ false = ground arith in rw more refl

pub block_len-blocks_of :
    (turns b count : ℕ) (ps : List Posting)
    → length ps ≤ suc turns
    → count ≡ b * skip_block_size + length ps
    → block_len count (suc b + length (blocks_of turns (drop skip_block_size ps))) b
      ≡ length (take skip_block_size ps)
block_len-blocks_of turns b count ps h total =
    let m = length ps in
    let l = length-blocks_of turns (drop 128 ps) (omega (arith, length-drop 128 ps)) in
    let l' : length (blocks_of turns (drop 128 ps)) ≡ (m - 128 + 127) / 128 =
      l ∙ ap (λ k. (k + 127) / 128) (length-drop 128 ps) in
    elim (le-cases m 128) [
      | inl few ↦
          let t : length (take 128 ps) ≡ m = omega (arith, length-take 128 ps) in
          rw (l', t) (final_block b count m few total)
      | inr many ↦
          let t : length (take 128 ps) ≡ 128 = omega (arith, length-take 128 ps) in
          rw (l', t) (full_block b count m many)
    ]
