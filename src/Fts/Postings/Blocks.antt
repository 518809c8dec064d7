-- ===== src/Fts/Postings/Blocks.antt =====
-- crates/embedmind-core/src/index/fts.rs: the rounds of `decode_skip` on the blocks that
-- `encode_skip` wrote.
use mathlib.Core.Path.{subst}
use embedmind.Prelude.{
  ℕ, zero, suc, ◌+◌, ◌*◌, ◌^◌, ◌<◌, ◌≤◌, ◌≡◌, inl, inr, refl, ◌∙◌, Bool, true, false, Option, some,
  none, List, [], ◌∷◌, ◌++◌, append-nil, append_assoc, length, length-append, length-drop, take,
  drop, take-append-drop, ◌==◌, le-cases, ◌⊎◌, arith,
}
use embedmind.Error.{ok}
use embedmind.Bytes.{Bytes}
use embedmind.Bytes.Reads.{Reads, Reads-front, Reads-back, Reads-next, Reads-at}
use embedmind.Fts.{
  Posting, SkipEntry, PostingsLayout, fixed_width, delta_varint, frame_of_reference,
  delta_varint_skip, skip_block_size, entry_len,
}
use embedmind.Fts.Runs.{max_tf, decode_block_run}
use embedmind.Fts.Runs.Sorted.{Valid, IsSorted, Valid-IsSorted, last_of, Valid-take, Valid-drop}
use embedmind.Fts.Runs.RoundTrip.{decode_delta_run-encode}
use embedmind.Fts.Runs.Blocks.{decode_for_block-encode, max_tf_lt}
use embedmind.Fts.Postings.{
  blocks_of, first_id, last_id, skip_bytes, skip_index, blocks_body, block_bytes, behind,
}
use embedmind.Fts.Postings.Skip.{block_len, block_rounds}
use embedmind.Fts.Postings.Index.{
  ReadsEntry, skip_bytes-ReadsEntry, length-skip_bytes, block_len-blocks_of,
}

-- Which bodies the blocks of a layout have.
abbrev pub framed : PostingsLayout → Bool
framed frame_of_reference = true
framed _ = false

pub decode_block_run-of :
    (layout : PostingsLayout) (ps acc : List Posting) (off page_no : ℕ) (body : Bytes)
    → IsSorted ps
    → length body < 2 ^ 64
    → Reads body off (block_bytes (framed layout) ps)
    → decode_block_run layout body off (length ps) page_no acc
      ≡ ok (acc ++ ps, off + length (block_bytes (framed layout) ps))
unfolding decode_block_run block_bytes
decode_block_run-of frame_of_reference ps acc off page_no body sorted room reads =
    decode_for_block-encode ps acc off page_no body sorted room reads
decode_block_run-of fixed_width ps acc off page_no body sorted room reads =
    decode_delta_run-encode ps acc off page_no body sorted reads
decode_block_run-of delta_varint ps acc off page_no body sorted room reads =
    decode_delta_run-encode ps acc off page_no body sorted reads
decode_block_run-of (delta_varint_skip entry) ps acc off page_no body sorted room reads =
    decode_delta_run-encode ps acc off page_no body sorted reads

pub drop-length {ℓ} : {A : Type ℓ} (xs ys : List A) → drop (length xs) (xs ++ ys) ≡ ys
drop-length [] ys = refl
drop-length (x ∷ xs) ys = drop-length xs ys

pub last_id_lem :
    (prev : ℕ) (p : Posting) (ps : List Posting) → last_id (p ∷ ps) ≡ last_of prev (p ∷ ps)
unfolding last_id last_of
last_id_lem prev p [] = refl
last_id_lem prev p (q ∷ ps) = last_id_lem p.record_id q ps

last_of_lt :
    (i prev : ℕ) (ps : List Posting) → prev < 2 ^ 128 → Valid i prev ps → last_of prev ps < 2 ^ 128
unfolding last_of
last_of_lt i prev [] h v = h
last_of_lt i prev (p ∷ ps) h (a, c, d, e, rest) = last_of_lt (suc i) p.record_id ps c rest

pub last_id-lt : (p : Posting) (ps : List Posting) → IsSorted (p ∷ ps) → last_id (p ∷ ps) < 2 ^ 128
last_id-lt p ps sorted = rw (last_id_lem 0 p ps) (last_of_lt 0 0 (p ∷ ps) (omega arith) sorted)

-- What the loop keeps of the block before: nothing at first, then its last identifier.
abbrev pub seam : ℕ → ℕ → Option ℕ
seam zero prev = none
seam (suc i) prev = some prev

behind-seam :
    (i prev : ℕ) (p : Posting) (ps : List Posting)
    → Valid i prev (p ∷ ps)
    → behind (seam i prev) p.record_id ≡ true
unfolding behind
behind-seam zero prev p ps v = refl
behind-seam (suc i) prev p ps (inl (a, b), c, d, e, rest) = absurd (omega arith)
behind-seam (suc i) prev p ps (inr (a, b), c, d, e, rest) = ground arith

-- Behind a block that is not full there is no other.
blocks_left :
    (b count : ℕ) (ps : List Posting)
    → count ≡ b * 128 + length ps
    → (count ≡ suc b * 128 + length (drop 128 ps)) ⊎ (length (drop 128 ps) ≡ 0)
blocks_left b count ps h = elim (le-cases (length ps) 128) [
  | inl few ↦ inr (omega (arith, length-drop 128 ps))
  | inr many ↦ inl (omega (arith, length-drop 128 ps))
]

same_number : (n : ℕ) → (n == n) ≡ true
same_number n = ground arith

module _ (entry : SkipEntry) (layout : PostingsLayout) (body : Bytes) (page_no base : ℕ)
    (room : length body < 2 ^ 64) where
  block_round :
      (rounds b start count block_count : ℕ) (prev : Option ℕ) (block acc : List Posting)
      → ReadsEntry entry body (8 + b * entry_len entry) page_no block start
      → block_len count block_count b ≡ length block
      → IsSorted block
      → Reads body (base + start) (block_bytes (framed layout) block)
      → behind prev (first_id block) ≡ true
      → block_rounds
          (suc rounds)
          entry
          layout
          body
          page_no
          count
          block_count
          base
          b
          prev
          (base + start)
          acc
        ≡ block_rounds rounds entry layout body page_no count block_count base
            (suc b)
            (some (last_id block))
            (base + start + length (block_bytes (framed layout) block))
            (acc ++ block)
  unfolding block_rounds
  block_round rounds b start count block_count prev block acc entry_reads len sorted reads order =
      let (stored, last, agrees) = entry_reads.last in
      rw
        (
          entry_reads.first,
          last,
          entry_reads.byte_offset,
          entry_reads.max_term_freq,
          same_number (base + start),
          len,
          decode_block_run-of layout block acc (base + start) page_no body sorted room reads,
          drop-length acc block,
          same_number (first_id block),
          agrees,
          same_number (max_tf block),
          order,
        )
        refl

  pub block_rounds_lem :
      (turns : ℕ) (ps : List Posting) (i prev b start count block_count : ℕ) (acc : List Posting)
      → length ps ≤ turns
      → Valid i prev ps
      → (count ≡ b * skip_block_size + length ps) ⊎ (length ps ≡ 0)
      → block_count ≡ b + length (blocks_of turns ps)
      → start + length (blocks_body (framed layout) (blocks_of turns ps)) < 2 ^ 32
      → Reads body
          (8 + b * entry_len entry)
          (skip_index entry (framed layout) start (blocks_of turns ps))
      → Reads body (base + start) (blocks_body (framed layout) (blocks_of turns ps))
      → block_rounds
          (length (blocks_of turns ps))
          entry
          layout
          body
          page_no
          count
          block_count
          base
          b
          (seam i prev)
          (base + start)
          acc
        ≡ ok (acc ++ ps)
  unfolding blocks_of skip_index blocks_body
  block_rounds_lem zero [] i prev b start count block_count acc few v total left small ri rb =
      unfold block_rounds in rw append-nil refl
  block_rounds_lem zero (p ∷ ps) i prev b start count block_count acc few v total left small ri rb =
      absurd (omega arith)
  block_rounds_lem (suc turns) [] i prev b start count block_count acc few v total left small ri
        rb =
      unfold block_rounds in rw append-nil refl
  block_rounds_lem (suc turns) (p ∷ ps) i prev b start count block_count acc few v total left small
        ri rb =
      let xs = p ∷ ps in
      let total_now : count ≡ b * skip_block_size + length xs = omega arith in
      let block = take skip_block_size xs in
      let others = drop skip_block_size xs in
      let blocks = blocks_of turns others in
      let bytes = block_bytes (framed layout) block in
      let sorted = Valid-IsSorted i prev xs v in
      let sorted_block = Valid-take skip_block_size 0 0 xs sorted in
      let behind_it : Valid (suc (i + 127)) (last_of prev block) others =
        subst (λ k. Valid k (last_of prev block) others) (omega arith)
          (Valid-drop skip_block_size i prev xs v) in
      let total_bytes = length-append bytes (blocks_body (framed layout) blocks) in
      let len : block_len count block_count b ≡ length block =
        subst (λ k. block_len count k b ≡ length block) (omega arith)
          (block_len-blocks_of turns b count xs few total_now) in
      let entry_reads =
        skip_bytes-ReadsEntry entry body (8 + b * entry_len entry) page_no block start v.1
          (last_id-lt p (take 127 ps) sorted_block) (omega arith) (max_tf_lt 0 0 block sorted_block)
          (Reads-front body (8 + b * entry_len entry) (skip_bytes entry block start)
            (skip_index entry (framed layout) (start + length bytes) blocks) ri) in
      let next_index =
        Reads-at body (8 + b * entry_len entry + entry_len entry) (8 + suc b * entry_len entry)
          (skip_index entry (framed layout) (start + length bytes) blocks) (omega arith)
          (Reads-next body (8 + b * entry_len entry) (entry_len entry)
            (skip_bytes entry block start)
            (skip_index entry (framed layout) (start + length bytes) blocks)
            (length-skip_bytes entry block start) ri) in
      let next_body =
        Reads-at body (base + start + length bytes) (base + (start + length bytes))
          (blocks_body (framed layout) blocks) (omega arith)
          (Reads-back body (base + start) bytes (blocks_body (framed layout) blocks) rb) in
      let shorter : length others ≤ turns = omega (arith, length-drop skip_block_size xs) in
      let fewer = blocks_left b count xs total_now in
      let off_eq : base + start + length bytes ≡ base + (start + length bytes) = omega arith in
      let ih =
        block_rounds_lem turns others (suc (i + 127)) (last_of prev block) (suc b)
          (start + length bytes) count block_count (acc ++ block) shorter behind_it fewer
          (omega arith) (omega arith) next_index next_body in
      block_round (length blocks) b start count block_count (seam i prev) block acc entry_reads len
        sorted_block (Reads-front body (base + start) bytes (blocks_body (framed layout) blocks) rb)
        (behind-seam i prev p ps v)
      ∙ rw (last_id_lem prev p (take 127 ps), off_eq)
          (ih ∙ rw (append_assoc acc block others, take-append-drop skip_block_size xs) refl)
