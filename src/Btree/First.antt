-- ===== src/Btree/First.antt =====
-- crates/embedmind-core/src/storage/btree.rs, `make_cell` and `insert`: about cells for values, and
-- the first insertion into a tree.
use mathlib.Core.Path.{subst}
use embedmind.Prelude.{
  ℕ, ◌+◌, ◌^◌, ◌≤◌, ◌<◌, ◌≡◌, ◌≢◌, inl, inr, refl, ap, ◌∙◌, sym, none, some, List, [], ◌∷◌, length,
  All, leb, true, false, le-cases, arith,
}
use embedmind.Error.{◌>>=◌ as ◌>>=?◌, Result, ok, ok_or, internal}
use embedmind.Effect.{pure, lift, ◌>>=◌, bind_ok}
use embedmind.Bytes.{Bytes}
use embedmind.Bytes.Order.{bytes_cmp_refl, cmp-cases}
use embedmind.Record.{max_record_len}
use embedmind.Btree.{
  Cell, inline, overflow, LeafEntry, leaf, slot_len, encoded_len, max_entry_footprint,
  max_inline_value,
}
use embedmind.Btree.Codec.{in_order, encode_leaf, decode_node}
use embedmind.Btree.Leaf.{IsCell, IsEntry, Ascends}
use embedmind.Btree.LeafPage.{length-encode_leaf, encode_leaf_fits, decode_node-encode_leaf}
use embedmind.Btree.Body.{decode_node-kept}
use embedmind.Btree.Lookup.{resolve_cell, resolve_found, get}
use embedmind.Btree.Search.{find, search}
use embedmind.Btree.Search.Laws.{find-at, find-before, find-behind}
use embedmind.Btree.Tree.{Holds, tip, get-Holds}
use embedmind.Btree.Insert.{TxnPages, make_cell, first_leaf, insert_at_root, insert, write_overflow}
use embedmind.Btree.Chains.{IsTxn, source}
use embedmind.Btree.Overflow.{write_overflow-ok}

module _ (S : Type 0) (T : TxnPages S) (shown : S → ℕ → Result Bytes) (count : S → ℕ)
    (law : IsTxn S T shown count) (big : 512 ≤ T.page_size) (small : T.page_size ≤ 65536) where
  -- The cell that a value gets resolves to it, as long as the pages up to then are kept.
  pub record IsMade (value : Bytes) (s : S) (out : Result Cell × S) : Type 0 where
    pub cell : Cell
    pub made : out.0 ≡ ok cell
    pub valid : IsCell cell
    pub fits : slot_len + encoded_len cell ≤ max_entry_footprint T.page_size
    pub more : count s ≤ count out.1
    pub most : count out.1 ≤ count s + length value
    pub older : (q : ℕ) → q < count s → shown out.1 q ≡ shown s q
    pub resolves :
        (later : ℕ → Result Bytes)
        → ((q : ℕ) → q < count out.1 → later q ≡ shown out.1 q)
        → resolve_cell (source S T later) cell ≡ ok value

  pub make_cell-IsMade :
      (value : Bytes) (s : S)
      → length value ≤ max_record_len
      → 0 < count s
      → count s + length value < 2 ^ 64
      → IsMade value s (make_cell S T value [] s)
  unfolding make_cell resolve_cell
  make_cell-IsMade value s short pos word =
      elim (le-cases (length value) (max_inline_value T.page_size)) [
        | inl small ↦
            let test : leb (length value) (max_inline_value T.page_size) ≡ true = ground arith in
            rw test (record {
              cell = inline value;
              made = refl;
              valid = tt;
              fits = omega arith;
              more = omega arith;
              most = omega arith;
              older = λ q h. refl;
              resolves = λ later h. refl;
            })
        | inr large ↦
            let test : leb (length value) (max_inline_value T.page_size) ≡ false = ground arith in
            let (fine, older, more, most, read) =
              write_overflow-ok S T shown count law (omega arith) small value s (omega arith) pos
                word in
            let done : (write_overflow S T value [] >>= λ first.
            pure (overflow (length value) first))
                  s
                ≡ (ok (overflow (length value) (count s)), (write_overflow S T value [] s).1) =
              bind_ok (write_overflow S T value []) (λ first. pure (overflow (length value) first))
                s (count s) fine in
            rw (test, done)
              (record {
                cell = overflow (length value) (count s);
                made = refl;
                valid = (omega arith, pos, omega arith);
                fits = omega arith;
                more = more;
                most = most;
                older = older;
                resolves = read;
              })
      ]

  -- A leaf that was written shows its entries.
  leaf_written :
      (es : List LeafEntry) (p : ℕ) (page : Bytes) (s : S)
      → All IsEntry es
      → Ascends none es
      → encode_leaf es T.page_size ≡ some page
      → 0 < p
      → p < count s
      → (kept : Bytes) × (shown (T.write_page p page s).1 p ≡ ok kept)
        × (decode_node kept p ≡ ok (leaf es))
  leaf_written es p page s v asc e pos room =
      let size = length-encode_leaf es T.page_size page e in
      let (kept, there, same) = law.write_self p page s size pos room in
      (
        kept,
        there,
        decode_node-kept kept page same p (omega arith)
            ∙ decode_node-encode_leaf es T.page_size p page (omega arith) small v asc e,
      )

  -- Nothing is at another key of a leaf of one entry.
  find-single : (e : LeafEntry) (k : Bytes) → e.key ≢ k → find k (e ∷ []) ≡ none
  find-single e k other = elim (cmp-cases e.key k) [
    | inl lt ↦ find-before k e [] lt ∙ (unfold find search in refl)
    | inr (inl same) ↦ absurd (other same)
    | inr (inr gt) ↦ find-behind k e [] gt
  ]

  insert_empty :
      (key value : Bytes) (s : S)
      → T.root_btree_page s ≡ 0
      → length value ≤ max_record_len
      → insert S T key value s ≡ first_leaf S T key value s
  unfolding insert insert_at_root
  insert_empty key value s empty short =
      let test : leb (length value) max_record_len ≡ true = ground arith in
      rw test (ap (λ r. insert_at_root S T key value r s) empty)

  -- After a new leaf was written and made the root.
  abbrev AtRoot : Bytes → Bytes → Bytes → Result (Unit {0}) × S → Type 0
  AtRoot key value k out =
      (out.0 ≡ ok tt)
      × (get (source S T (shown out.1)) (T.root_btree_page out.1) key ≡ ok (some value))
      × (get (source S T (shown out.1)) (T.root_btree_page out.1) k ≡ ok none)

  single_leaf :
      (key value k : Bytes) (s : S)
      → length key ≡ 16
      → length value ≤ max_record_len
      → 0 < count s
      → count s + length value + 1 < 2 ^ 64
      → key ≢ k
      → AtRoot key value k (first_leaf S T key value s)
  unfolding first_leaf resolve_found in_order
  single_leaf key value k s size short pos word other =
      let M = make_cell-IsMade value s short pos (omega arith) in
      let s1 = (make_cell S T value [] s).1 in
      let p = count s1 in
      let s2 = (T.allocate_page s1).1 in
      let more = M.more in
      let most = M.most in
      let e : LeafEntry = record { key = key; cell = M.cell } in
      let (page, enc) =
        encode_leaf_fits (e ∷ []) T.page_size (omega arith) (omega (arith, M.fits)) in
      let grown = law.alloc_count s1 (omega arith) in
      let s3 = (T.write_page p page s2).1 in
      let s4 = T.set_root_btree_page p s3 in
      let wrote =
        law.write p page s2 (length-encode_leaf (e ∷ []) T.page_size page enc) (omega arith)
          (omega arith) in
      let (kept, there, node) =
        leaf_written (e ∷ []) p page s2 ((size, M.valid), tt) (refl, tt) enc (omega arith)
          (omega arith) in
      let done : first_leaf S T key value s ≡ (ok tt, s4) =
        bind_ok (make_cell S T value []) _ s M.cell M.made
        ∙ bind_ok T.allocate_page _ s1 p (law.alloc s1 (omega arith))
        ∙ bind_ok
            (lift (ok_or (encode_leaf (e ∷ []) T.page_size) (internal "fresh leaf does not fit"))) _
            s2 page (ap (λ o. ok_or o (internal "fresh leaf does not fit")) enc)
        ∙ bind_ok (T.write_page p page) _ s2 tt wrote in
      let root : T.root_btree_page s4 ≡ p = law.set_root p s3 in
      let same : (q : ℕ) → q < p → shown s4 q ≡ shown s1 q = λ q h.
        law.set_root_shown p s3 q
        ∙ law.write_other p page s2 q (omega arith)
        ∙ law.alloc_other s1 q (omega arith) h in
      let holds : Holds (source S T (shown s4)) p (tip (e ∷ [])) =
        (kept, law.set_root_shown p s3 p ∙ there, node) in
      let look : (j : Bytes)
          → get (source S T (shown s4)) (T.root_btree_page s4) j
            ≡ resolve_found (source S T (shown s4)) (find j (e ∷ [])) =
        λ j.
          ap (λ r. get (source S T (shown s4)) r j) root
          ∙ get-Holds (source S T (shown s4)) p j (tip (e ∷ [])) (omega arith) tt tt holds in
      let value_there : resolve_found (source S T (shown s4)) (some M.cell) ≡ ok (some value) =
        ap (λ r. r >>=? λ v. ok (some v)) (M.resolves (shown s4) same) in
      subst (λ out. AtRoot key value k out) (sym done)
        (
          refl,
          look key
              ∙ ap (resolve_found (source S T (shown s4))) (find-at key e [] (bytes_cmp_refl key))
              ∙ value_there,
          look k ∙ ap (resolve_found (source S T (shown s4))) (find-single e k other),
        )

  -- An insertion into an empty tree, of a key of 16 bytes and a value of 32 MiB at most, where the
  -- pages that it may take have numbers below 64 bits, succeeds; then the value, long or short, is
  -- found at its key, and nothing at any other key. Pages have 512 to 65536 bytes.
  pub get-insert_first :
      (key value k : Bytes) (s : S)
      → T.root_btree_page s ≡ 0
      → length key ≡ 16
      → length value ≤ max_record_len
      → 0 < count s
      → count s + length value + 1 < 2 ^ 64
      → key ≢ k
      → let out = insert S T key value s in
        (out.0 ≡ ok tt)
        × (get (source S T (shown out.1)) (T.root_btree_page out.1) key ≡ ok (some value))
        × (get (source S T (shown out.1)) (T.root_btree_page out.1) k ≡ ok none)
  get-insert_first key value k s empty size short pos word other =
      subst (λ out. AtRoot key value k out) (sym (insert_empty key value s empty short))
        (single_leaf key value k s size short pos word other)
