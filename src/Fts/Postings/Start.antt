-- ===== src/Fts/Postings/Start.antt =====
-- crates/embedmind-core/src/index/fts.rs: a plain run and the blocks of an index, read behind the
-- counts of a body.
use embedmind.Prelude.{
  ℕ, ◌+◌, ◌-◌, ◌*◌, ◌/◌, ◌^◌, ◌<◌, ◌≤◌, ◌≡◌, inl, refl, true, ◌&&◌, not, none, List, [], ◌++◌,
  length, length-append, length-drop, drop, ltb, leb, ◌==◌, arith,
}
use embedmind.Error.{ok}
use embedmind.Bytes.{Bytes}
use embedmind.Bytes.Reads.{Reads, Reads-front, Reads-next, Reads-at, Reads-fits}
use embedmind.Fts.{Posting, SkipEntry, PostingsLayout, entry_len}
use embedmind.Fts.Runs.{encode_delta_run}
use embedmind.Fts.Runs.Sorted.{IsSorted}
use embedmind.Fts.Runs.RoundTrip.{decode_delta_run-encode}
use embedmind.Fts.Runs.Blocks.{checked_lem}
use embedmind.Fts.Postings.{blocks_of, skip_index, blocks_body, decode_plain}
use embedmind.Fts.Postings.Skip.{blocks_start, block_rounds, decode_blocks}
use embedmind.Fts.Postings.Index.{length-blocks_of}
use embedmind.Fts.Postings.Blocks.{framed, block_rounds_lem}
use embedmind.Fts.Postings.Sizes.{
  encode_delta_run_long, blocks_body_long, length-skip_index, reject_hostile_delta_count-passes,
}

pub decode_plain-of :
    (ps : List Posting) (body : Bytes) (page_no off : ℕ)
    → IsSorted ps
    → length ps < 2 ^ 32
    → 4 ≤ off
    → Reads body off (encode_delta_run ps)
    → decode_plain body page_no (length ps) off ≡ ok (record { entries = ps })
unfolding decode_plain
decode_plain-of ps body page_no off sorted few behind_count reads =
    let long : 4 + 2 * length ps ≤ length body =
      omega (arith, Reads-fits body off (encode_delta_run ps) reads, encode_delta_run_long ps) in
    rw
      (
        reject_hostile_delta_count-passes body (length ps) page_no few long,
        decode_delta_run-encode ps [] off page_no body sorted reads,
      )
      refl

-- The tests before the blocks.
pub blocks_start-of :
    (entry : SkipEntry) (body : Bytes) (page_no count block_count : ℕ)
    → 512 ≤ count
    → count < 2 ^ 32
    → block_count ≡ (count + 127) / 128
    → 8 + block_count * entry_len entry ≤ length body
    → length body < 2 ^ 64
    → blocks_start entry body page_no count block_count ≡ ok (8 + block_count * entry_len entry)
unfolding blocks_start
blocks_start-of entry body page_no count block_count many few bc fits room =
    let index = block_count * entry_len entry in
    let test : (not (ltb count 512) && block_count == (count + (128 - 1)) / 128) ≡ true =
      ground arith in
    let full : leb (8 + index) (length body) ≡ true = ground arith in
    rw (test, checked_lem index (omega arith), checked_lem (8 + index) (omega arith), full) refl

pub decode_blocks-of :
    (entry : SkipEntry) (layout : PostingsLayout) (ps : List Posting) (body : Bytes) (page_no : ℕ)
    → IsSorted ps
    → 512 ≤ length ps
    → length ps < 2 ^ 32
    → length body < 2 ^ 32
    → Reads body 8 (
        skip_index entry (framed layout) 0 (blocks_of (length ps) ps)
        ++ blocks_body (framed layout) (blocks_of (length ps) ps))
    → decode_blocks entry layout body page_no (length ps) (length (blocks_of (length ps) ps))
      ≡ ok (record { entries = ps })
unfolding decode_blocks
decode_blocks-of entry layout ps body page_no sorted many few room reads =
    let blocks = blocks_of (length ps) ps in
    let index = skip_index entry (framed layout) 0 blocks in
    let bodies = blocks_body (framed layout) blocks in
    let size = length blocks * entry_len entry in
    let len = length-skip_index entry (framed layout) 0 blocks in
    let fits = Reads-fits body 8 (index ++ bodies) reads in
    let whole : 8 + size + length bodies ≤ length body =
      omega (arith, fits, length-append index bodies, len) in
    let long = blocks_body_long (framed layout) (length ps) 0 0 ps (omega arith) sorted in
    let start = 8 + size in
    let backed : 4 + 2 * length ps ≤ length (drop (start - 4) body) =
      omega (arith, length-drop (start - 4) body) in
    let base : start + 0 ≡ start = omega arith in
    let at_index = Reads-front body 8 index bodies reads in
    let at_bodies = Reads-next body 8 size index bodies len reads in
    let rounds =
      block_rounds_lem entry layout body page_no start (omega arith) (length ps) ps 0 0 0 0
        (length ps) (length blocks) [] (omega arith) sorted (inl (omega arith)) (omega arith)
        (omega arith) (Reads-at body 8 (8 + 0 * entry_len entry) index (omega arith) at_index)
        (Reads-at body start (start + 0) bodies (omega arith) at_bodies) in
    let rounds' : block_rounds (length blocks) entry layout body page_no (length ps) (length blocks)
          start 0 none start []
        ≡ ok ps =
      rw base at rounds in
    rw
      (
        blocks_start-of entry body page_no (length ps) (length blocks) many few
            (length-blocks_of (length ps) ps (omega arith)) (omega arith) (omega arith),
        reject_hostile_delta_count-passes (drop (start - 4) body) (length ps) page_no few backed,
        rounds',
      )
      refl
