-- ===== src/Btree/Search/Laws.antt =====
-- crates/embedmind-core/src/storage/btree.rs, the leaves of `get` and `insert_rec`: a leaf as a map
-- from keys to cells.
use Prim.Native.Nat.{Ordering}
use embedmind.Prelude.{◌≡◌, ◌≢◌, inl, inr, refl, ap, ◌∙◌, sym, none, some, List, [], ◌∷◌}
use embedmind.Bytes.{Bytes}
use embedmind.Bytes.Order.{
  bytes_cmp, bytes_cmp_refl, IsBefore, gt_of_lt, lt_of_gt, IsBefore-trans, cmp-cases,
}
use embedmind.Btree.{Cell, LeafEntry}
use embedmind.Btree.Search.{Place, found, vacant, behind, step, search, put, upsert, cell_at, find}

-- One step of an update and of a look-up, by how the first key compares.
put-behind :
    (key : Bytes) (cell : Cell) (e : LeafEntry) (es : List LeafEntry) (p : Place)
    → put key cell (e ∷ es) (behind p) ≡ e ∷ put key cell es p
put-behind key cell e es (found i) = refl
put-behind key cell e es (vacant i) = refl

cell_at-behind :
    (e : LeafEntry) (es : List LeafEntry) (p : Place) → cell_at (e ∷ es) (behind p) ≡ cell_at es p
cell_at-behind e es (found i) = refl
cell_at-behind e [] (vacant i) = refl
cell_at-behind e (x ∷ es) (vacant i) = refl

search-step :
    (key : Bytes) (e : LeafEntry) (es : List LeafEntry) (o : Ordering)
    → bytes_cmp e.key key ≡ o
    → search key (e ∷ es) ≡ step o (search key es)
unfolding search
search-step key e es o h = ap (λ c. step c (search key es)) h

pub upsert-before :
    (key : Bytes) (cell : Cell) (e : LeafEntry) (es : List LeafEntry)
    → IsBefore e.key key
    → upsert key cell (e ∷ es) ≡ e ∷ upsert key cell es
unfolding upsert
upsert-before key cell e es h =
    ap (put key cell (e ∷ es)) (search-step key e es Ordering.lt h)
    ∙ put-behind key cell e es (search key es)

pub upsert-at :
    (key : Bytes) (cell : Cell) (e : LeafEntry) (es : List LeafEntry)
    → bytes_cmp e.key key ≡ Ordering.eq
    → upsert key cell (e ∷ es) ≡ record e { cell = cell } ∷ es
unfolding upsert
upsert-at key cell e es h = ap (put key cell (e ∷ es)) (search-step key e es Ordering.eq h)

pub upsert-behind :
    (key : Bytes) (cell : Cell) (e : LeafEntry) (es : List LeafEntry)
    → bytes_cmp e.key key ≡ Ordering.gt
    → upsert key cell (e ∷ es) ≡ record { key = key; cell = cell } ∷ e ∷ es
unfolding upsert
upsert-behind key cell e es h = ap (put key cell (e ∷ es)) (search-step key e es Ordering.gt h)

pub find-before :
    (key : Bytes) (e : LeafEntry) (es : List LeafEntry)
    → IsBefore e.key key
    → find key (e ∷ es) ≡ find key es
unfolding find
find-before key e es h =
    ap (cell_at (e ∷ es)) (search-step key e es Ordering.lt h) ∙ cell_at-behind e es (search key es)

pub find-at :
    (key : Bytes) (e : LeafEntry) (es : List LeafEntry)
    → bytes_cmp e.key key ≡ Ordering.eq
    → find key (e ∷ es) ≡ some e.cell
unfolding find
find-at key e es h = ap (cell_at (e ∷ es)) (search-step key e es Ordering.eq h)

pub find-behind :
    (key : Bytes) (e : LeafEntry) (es : List LeafEntry)
    → bytes_cmp e.key key ≡ Ordering.gt
    → find key (e ∷ es) ≡ none
unfolding find
find-behind key e es h = ap (cell_at (e ∷ es)) (search-step key e es Ordering.gt h)

pub find-upsert :
    (key : Bytes) (cell : Cell) (es : List LeafEntry) → find key (upsert key cell es) ≡ some cell
find-upsert key cell [] =
    unfold upsert search in find-at key (record { key = key; cell = cell }) [] (bytes_cmp_refl key)
find-upsert key cell (e ∷ es) = elim (cmp-cases e.key key) [
  | inl lt ↦
      rw
        (
          upsert-before key cell e es lt,
          find-before key e (upsert key cell es) lt,
          find-upsert key cell es,
        )
        refl
  | inr (inl same) ↦
      let eq : bytes_cmp e.key key ≡ Ordering.eq = rw same (bytes_cmp_refl key) in
      rw (upsert-at key cell e es eq, find-at key (record e { cell = cell }) es eq) refl
  | inr (inr gt) ↦
      rw
        (
          upsert-behind key cell e es gt,
          find-at key (record { key = key; cell = cell }) (e ∷ es) (bytes_cmp_refl key),
        )
        refl
]

-- Look-ups behind the same first entry, and at keys that the first entry does not have.
same_head :
    (k : Bytes) (x : LeafEntry) (es fs : List LeafEntry)
    → find k es ≡ find k fs
    → find k (x ∷ es) ≡ find k (x ∷ fs)
same_head k x es fs h = elim (cmp-cases x.key k) [
  | inl lt ↦ find-before k x es lt ∙ h ∙ sym (find-before k x fs lt)
  | inr (inl same) ↦
      let eq : bytes_cmp x.key k ≡ Ordering.eq = rw same (bytes_cmp_refl k) in
      find-at k x es eq ∙ sym (find-at k x fs eq)
  | inr (inr gt) ↦ find-behind k x es gt ∙ sym (find-behind k x fs gt)
]

other_head :
    (k : Bytes) (x : LeafEntry) (cell : Cell) (es : List LeafEntry)
    → x.key ≢ k
    → find k (record x { cell = cell } ∷ es) ≡ find k (x ∷ es)
other_head k x cell es other = elim (cmp-cases x.key k) [
  | inl lt ↦ find-before k (record x { cell = cell }) es lt ∙ sym (find-before k x es lt)
  | inr (inl same) ↦ absurd (other same)
  | inr (inr gt) ↦ find-behind k (record x { cell = cell }) es gt ∙ sym (find-behind k x es gt)
]

pub find-upsert_other :
    (key k : Bytes) (cell : Cell) (es : List LeafEntry)
    → key ≢ k
    → find k (upsert key cell es) ≡ find k es
find-upsert_other key k cell [] other =
    let e : LeafEntry = record { key = key; cell = cell } in
    let empty : upsert key cell [] ≡ e ∷ [] = unfold upsert search in refl in
    elim (cmp-cases key k) [
      | inl lt ↦ rw empty (find-before k e [] lt)
      | inr (inl same) ↦ absurd (other same)
      | inr (inr gt) ↦ rw empty (find-behind k e [] gt ∙ (unfold find search in refl))
    ]
find-upsert_other key k cell (x ∷ es) other =
    let e : LeafEntry = record { key = key; cell = cell } in
    elim (cmp-cases x.key key) [
      | inl lt ↦
          rw (upsert-before key cell x es lt)
            (same_head k x (upsert key cell es) es (find-upsert_other key k cell es other))
      | inr (inl same) ↦
          let eq : bytes_cmp x.key key ≡ Ordering.eq = rw same (bytes_cmp_refl key) in
          rw (upsert-at key cell x es eq)
            (other_head k x cell es (λ (q : x.key ≡ k). other (sym same ∙ q)))
      | inr (inr gt) ↦ rw (upsert-behind key cell x es gt) (elim (cmp-cases key k) [
        | inl lt ↦ find-before k e (x ∷ es) lt
        | inr (inl same) ↦ absurd (other same)
        | inr (inr back) ↦
            let past =
              gt_of_lt k x.key
                (IsBefore-trans k key x.key (lt_of_gt key k back) (lt_of_gt x.key key gt)) in
            find-behind k e (x ∷ es) back ∙ sym (find-behind k x es past)
      ])
    ]

-- After an update of a leaf, a look-up finds the new cell at its key, and at every other key what
-- it found before.
pub find-upsert_map :
    (key k : Bytes) (cell : Cell) (es : List LeafEntry)
    → key ≢ k
    → (find key (upsert key cell es) ≡ some cell) × (find k (upsert key cell es) ≡ find k es)
find-upsert_map key k cell es other =
    (find-upsert key cell es, find-upsert_other key k cell es other)
