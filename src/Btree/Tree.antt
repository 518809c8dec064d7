-- ===== src/Btree/Tree.antt =====
-- crates/embedmind-core/src/storage/btree.rs, `get`: the tree that pages hold, as a value, and
-- look-ups against its entries in order.
use Prim.Native.Nat.{Ordering}
use embedmind.Prelude.{
  ℕ, zero, suc, ◌≡◌, ◌≢◌, inl, inr, refl, ◌∙◌, sym, true, false, Bool-cases, List, [], ◌∷◌, ◌++◌,
  All, ◌==◌, arith,
}
use embedmind.Error.{ok}
use embedmind.Bytes.{Bytes}
use embedmind.Bytes.Order.{
  bytes_cmp, bytes_cmp_refl, IsBefore, bytes_le, IsBefore-trans, lt_of_gt, gt_of_lt, cmp-cases,
}
use embedmind.Btree.{LeafEntry, leaf, inner, InnerNode, max_depth}
use embedmind.Btree.Codec.{decode_node}
use embedmind.Btree.Search.{find, search}
use embedmind.Btree.Search.Laws.{find-before, find-at, find-behind}
use embedmind.Btree.Lookup.{PageSource, child_of, child_for, visit, descend, get, resolve_found}

mutual
  pub data Tree : Type 0 where
    tip : List LeafEntry → Tree
    branch : Children → Tree

  pub data Children : Type 0 where
    last : Tree → Children
    upto : Tree → Bytes → Children → Children

-- The entries in order.
abbrev mutual
  pub entries : Tree → List LeafEntry
  entries (tip es) = es
  entries (branch cs) = entries_of cs

  pub entries_of : Children → List LeafEntry
  entries_of (last t) = entries t
  entries_of (upto t sep cs) = entries t ++ entries_of cs

-- How many pages a look-up reads at most.
abbrev mutual
  pub IsWithin : ℕ → Tree → Type 0
  IsWithin zero t = ⊥
  IsWithin (suc n) (tip es) = Unit
  IsWithin (suc n) (branch cs) = AreWithin n cs

  pub AreWithin : ℕ → Children → Type 0
  AreWithin n (last t) = IsWithin n t
  AreWithin n (upto t sep cs) = IsWithin n t × AreWithin n cs

-- A separator is at or behind the keys to its left and before those to its right.
abbrev mutual
  pub IsOrdered : Tree → Type 0
  IsOrdered (tip es) = Unit
  IsOrdered (branch cs) = AreOrdered cs

  pub AreOrdered : Children → Type 0
  AreOrdered (last t) = IsOrdered t
  AreOrdered (upto t sep cs) =
      All (λ (e : LeafEntry). bytes_le e.key sep ≡ true) (entries t)
      × All (λ (e : LeafEntry). IsBefore sep e.key) (entries_of cs)
      × IsOrdered t
      × AreOrdered cs

-- The pages of the source hold the tree.
abbrev mutual
  pub Holds : PageSource → ℕ → Tree → Type 0
  Holds src page_no (tip es) =
      (page : Bytes) × (src.page page_no ≡ ok page) × (decode_node page page_no ≡ ok (leaf es))
  Holds src page_no (branch cs) =
      (page : Bytes) × (node : InnerNode) × (src.page page_no ≡ ok page)
      × (decode_node page page_no ≡ ok (inner node))
      × HoldChildren src node.entries node.rightmost cs

  pub HoldChildren : PageSource → List (Bytes × ℕ) → ℕ → Children → Type 0
  HoldChildren src [] rightmost (last t) = Holds src rightmost t
  HoldChildren src [] rightmost (upto t sep cs) = ⊥
  HoldChildren src ((sep, child) ∷ es) rightmost (last t) = ⊥
  HoldChildren src ((sep, child) ∷ es) rightmost (upto t sep' cs) =
      (sep ≡ sep') × Holds src child t × HoldChildren src es rightmost cs

le-IsBefore : (a b c : Bytes) → bytes_le a b ≡ true → IsBefore b c → IsBefore a c
le-IsBefore a b c h k = elim (cmp-cases a b) [
  | inl lt ↦ IsBefore-trans a b c lt k
  | inr (inl same) ↦ rw same k
  | inr (inr gt) ↦ ground (arith, gt)
]

IsBefore-of :
    (key sep k : Bytes) → bytes_le key sep ≡ false → bytes_le k sep ≡ true → IsBefore k key
IsBefore-of key sep k h v =
    let gt : bytes_cmp key sep ≡ Ordering.gt = ground arith in
    le-IsBefore k sep key v (lt_of_gt key sep gt)

-- Look-ups in two runs of entries, the key at or before the end of the first, or behind it.
find-front :
    (key sep : Bytes) (xs ys : List LeafEntry)
    → bytes_le key sep ≡ true
    → All (λ (e : LeafEntry). IsBefore sep e.key) ys
    → find key (xs ++ ys) ≡ find key xs
find-front key sep [] [] h v = refl
find-front key sep [] (y ∷ ys) h (v, vs) =
    let gt = gt_of_lt key y.key (le-IsBefore key sep y.key h v) in
    find-behind key y ys gt ∙ (unfold find search in refl)
find-front key sep (x ∷ xs) ys h v = elim (cmp-cases x.key key) [
  | inl lt ↦
      find-before key x (xs ++ ys) lt ∙ find-front key sep xs ys h v ∙ sym (find-before key x xs lt)
  | inr (inl same) ↦
      let eq : bytes_cmp x.key key ≡ Ordering.eq = rw same (bytes_cmp_refl key) in
      find-at key x (xs ++ ys) eq ∙ sym (find-at key x xs eq)
  | inr (inr gt) ↦ find-behind key x (xs ++ ys) gt ∙ sym (find-behind key x xs gt)
]

find-back :
    (key sep : Bytes) (xs ys : List LeafEntry)
    → bytes_le key sep ≡ false
    → All (λ (e : LeafEntry). bytes_le e.key sep ≡ true) xs
    → find key (xs ++ ys) ≡ find key ys
find-back key sep [] ys h v = refl
find-back key sep (x ∷ xs) ys h (v, vs) =
    find-before key x (xs ++ ys) (IsBefore-of key sep x.key h v) ∙ find-back key sep xs ys h vs

-- A look-up goes to the part of the entries that may have the key.
mutual
  unfolding descend visit child_for

  descend-Holds :
      (src : PageSource) (key : Bytes) (t : Tree) (levels page_no : ℕ)
      → IsWithin levels t
      → IsOrdered t
      → Holds src page_no t
      → descend src key levels page_no ≡ resolve_found src (find key (entries t))
  descend-Holds src key t zero page_no w o h = absurd w
  descend-Holds src key (tip es) (suc levels) page_no w o (page, there, node) =
      rw (there, node) refl
  descend-Holds src key (branch cs) (suc levels) page_no w o (page, node, there, decoded, below) =
      rw (there, decoded) (descend-children src key cs levels node.entries node.rightmost w o below)

  descend-children :
      (src : PageSource) (key : Bytes) (cs : Children) (levels : ℕ) (es : List (Bytes × ℕ))
      (rightmost : ℕ)
      → AreWithin levels cs
      → AreOrdered cs
      → HoldChildren src es rightmost cs
      → descend src key levels (child_of es rightmost key)
        ≡ resolve_found src (find key (entries_of cs))
  descend-children src key (last t) levels [] rightmost w o h =
      descend-Holds src key t levels rightmost w o h
  descend-children src key (last t) levels (e ∷ es) rightmost w o h = absurd h
  descend-children src key (upto t sep cs) levels [] rightmost w o h = absurd h
  descend-children src key (upto t sep cs) levels ((sep', child) ∷ es) rightmost (w, ws)
        (left, right, o, os) (same, h, hs) =
      elim (Bool-cases (bytes_le key sep)) [
        | inl reached ↦
            let here : bytes_le key sep' ≡ true = rw same reached in
            rw (here, find-front key sep (entries t) (entries_of cs) reached right)
              (descend-Holds src key t levels child w o h)
        | inr beyond ↦
            let past : bytes_le key sep' ≡ false = rw same beyond in
            rw (past, find-back key sep (entries t) (entries_of cs) beyond left)
              (descend-children src key cs levels es rightmost ws os hs)
      ]

-- A look-up in a tree that the pages hold, ordered and no deeper than the limit, gives what its
-- entries in order give: the value of the first entry with the key, or nothing.
pub get-Holds :
    (src : PageSource) (root : ℕ) (key : Bytes) (t : Tree)
    → root ≢ 0
    → IsWithin max_depth t
    → IsOrdered t
    → Holds src root t
    → get src root key ≡ resolve_found src (find key (entries t))
unfolding get
get-Holds src root key t real w o h =
    let at : (root == 0) ≡ false = ground arith in
    rw at (descend-Holds src key t max_depth root w o h)
