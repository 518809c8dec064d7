-- ===== src/Btree/Overflow.antt =====
-- crates/embedmind-core/src/storage/btree.rs, `write_overflow` and `read_overflow`: about values in
-- chains of fresh pages.
use embedmind.Prelude.{
  ℕ, zero, suc, ◌+◌, ◌^◌, ◌≤◌, ◌<◌, ◌≡◌, refl, ap, ◌∙◌, sym, List, [], ◌∷◌, length, drop,
  take-append-drop, length-take, length-drop, All, arith,
}
use embedmind.Error.{Result, ok}
use embedmind.Effect.{pure, ◌>>=◌, bind_ok}
use embedmind.Bytes.{Bytes}
use embedmind.Btree.{overflow_capacity}
use embedmind.Btree.Lookup.{read_overflow}
use embedmind.Btree.Insert.{TxnPages, claim_pages, write_chunks, first_page, write_overflow}
use embedmind.Btree.Pieces.{chunks, first_or_zero}
use embedmind.Btree.Chains.{
  IsTxn, row, bytes_of, IsChunk, source, after_chunks, write_chunks-ok, read_chain-write_chunks,
}

-- The chunks are the value, none is empty or too long, and there are no more than bytes.
bytes_of-chunks :
    (turns most : ℕ) (v : Bytes) → 0 < most → length v ≤ turns → bytes_of (chunks turns most v) ≡ v
unfolding chunks
bytes_of-chunks zero most [] pos enough = refl
bytes_of-chunks zero most (b ∷ v) pos enough = absurd (omega arith)
bytes_of-chunks (suc turns) most [] pos enough = refl
bytes_of-chunks (suc turns) most (b ∷ v) pos enough =
    rw
      (bytes_of-chunks turns most (drop most (b ∷ v)) pos (omega (arith, length-drop most (b ∷ v))))
      (take-append-drop most (b ∷ v))

chunks-IsChunk : (turns most : ℕ) (v : Bytes) → 0 < most → All (IsChunk most) (chunks turns most v)
unfolding chunks
chunks-IsChunk zero most v pos = tt
chunks-IsChunk (suc turns) most [] pos = tt
chunks-IsChunk (suc turns) most (b ∷ v) pos = (
  (omega (arith, length-take most (b ∷ v)), omega (arith, length-take most (b ∷ v))),
  chunks-IsChunk turns most (drop most (b ∷ v)) pos,
)

length-chunks : (turns most : ℕ) (v : Bytes) → length (chunks turns most v) ≤ turns
unfolding chunks
length-chunks zero most v = omega arith
length-chunks (suc turns) most [] = omega arith
length-chunks (suc turns) most (b ∷ v) = omega (arith, length-chunks turns most (drop most (b ∷ v)))

chunks_full : (cs : List Bytes) (v : Bytes) → bytes_of cs ≡ v → 0 < length v → 0 < length cs
chunks_full [] v e full =
    let none : length v ≡ 0 = ap (λ (b : Bytes). length b) (sym e) in absurd (omega arith)
chunks_full (c ∷ cs) v e full = omega arith

first_row : (n c : ℕ) → 0 < n → first_or_zero (row c n) ≡ c
first_row zero c h = absurd (omega arith)
first_row (suc n) c h = refl

first_of_row :
    (S : Type 0) (T : TxnPages S) (n c : ℕ) (s : S) → 0 < n → first_page S T (row c n) s ≡ (ok c, s)
unfolding first_page
first_of_row S T zero c s h = absurd (omega arith)
first_of_row S T (suc n) c s h = refl

module _ (S : Type 0) (T : TxnPages S) (shown : S → ℕ → Result Bytes) (count : S → ℕ)
    (law : IsTxn S T shown count) (big : 32 ≤ T.page_size) (small : T.page_size ≤ 65536) where
  -- Fresh pages come in a row behind the others.
  claim_pages-fresh :
      (n : ℕ) (s : S)
      → count s + n < 2 ^ 64
      → let out = claim_pages S T n [] s in
        (out.0 ≡ ok (row (count s) n))
        × (count out.1 ≡ count s + n)
        × ((q : ℕ) → q < count s → shown out.1 q ≡ shown s q)
  unfolding claim_pages
  claim_pages-fresh zero s word = (refl, omega arith, λ q h. refl)
  claim_pages-fresh (suc n) s word =
      let next = (T.allocate_page s).1 in
      let at = law.alloc s (omega arith) in
      let grown = law.alloc_count s (omega arith) in
      let (pages, total, older) = claim_pages-fresh n next (omega arith) in
      let first : claim_pages S T (suc n) [] s
          ≡ (ok (count s ∷ row (count next) n), (claim_pages S T n [] next).1) =
        bind_ok T.allocate_page (λ p. claim_pages S T n [] >>= λ rest. pure (p ∷ rest)) s (count s)
          at
        ∙ bind_ok (claim_pages S T n []) (λ rest. pure (count s ∷ rest)) next (row (count next) n)
            pages in
      let succ : count next ≡ suc (count s) = omega arith in
      let same : row (count next) n ≡ row (suc (count s)) n = ap (λ c. row c n) succ in
      rw (first, same)
        (refl, omega arith, λ q h. older q (omega arith) ∙ law.alloc_other s q (omega arith) h)

  pub write_overflow-ok :
      (value : Bytes) (s : S)
      → 0 < length value
      → 0 < count s
      → count s + length value < 2 ^ 64
      → let out = write_overflow S T value [] s in
        (out.0 ≡ ok (count s))
        × ((q : ℕ) → q < count s → shown out.1 q ≡ shown s q)
        × (count s ≤ count out.1)
        × (count out.1 ≤ count s + length value)
        × ((later : ℕ → Result Bytes)
            → ((q : ℕ) → q < count out.1 → later q ≡ shown out.1 q)
            → read_overflow (source S T later) (count s) (length value) ≡ ok value)
  unfolding write_overflow first_page read_overflow
  write_overflow-ok value s full pos word =
      let most = overflow_capacity T.page_size in
      let cs = chunks (length value) most value in
      let few = length-chunks (length value) most value in
      let whole = bytes_of-chunks (length value) most value (omega arith) (omega arith) in
      let sizes = chunks-IsChunk (length value) most value (omega arith) in
      let claimed = (claim_pages S T (length cs) [] s).1 in
      let (pages, total, older) = claim_pages-fresh (length cs) s (omega arith) in
      let (fine, kept, before) =
        write_chunks-ok S T shown count law big small cs (count s) claimed pos (omega arith) in
      let some_chunk : 0 < length cs = chunks_full cs value whole full in
      let done : write_overflow S T value [] s
          ≡ (ok (count s), after_chunks S T shown count law big small cs (count s) claimed) =
        bind_ok (claim_pages S T (length cs) []) _ s (row (count s) (length cs)) pages
        ∙ bind_ok (write_chunks S T cs (row (count s) (length cs))) _ claimed tt fine
        ∙ first_of_row S T (length cs) (count s) _ some_chunk in
      rw done (
        refl,
        λ q h. before q h ∙ older q h,
        omega arith,
        omega arith,
        λ later same.
            let read =
              read_chain-write_chunks S T shown count law big small cs (count s) claimed
                (length value) sizes pos (omega arith) (omega arith)
                (omega (arith, ap (λ (b : Bytes). length b) whole)) later
                (λ q h. same q (omega arith)) in
            rw (whole, first_row (length cs) (count s) some_chunk) at read,
      )

  -- A value that is not empty, written to fresh pages of the transaction, reads back from the chain
  -- that starts at the page that the write returned.
  pub read_overflow-write_overflow :
      (value : Bytes) (s : S)
      → 0 < length value
      → 0 < count s
      → count s + length value < 2 ^ 64
      → let out = write_overflow S T value [] s in
        (out.0 ≡ ok (count s))
        × (read_overflow (source S T (shown out.1)) (count s) (length value) ≡ ok value)
  read_overflow-write_overflow value s full pos word =
      let (fine, older, more, most, read) = write_overflow-ok value s full pos word in
      (fine, read (shown (write_overflow S T value [] s).1) (λ q h. refl))
