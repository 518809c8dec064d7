-- ===== src/Dict/Split/Inner.antt =====
-- crates/embedmind-core/src/index/dict.rs, `insert_rec`: an inner node after its child was split,
-- stored whole or in two halves around its middle entry.
use embedmind.Prelude.{
  ℕ, ◌+◌, ◌-◌, ◌/◌, ◌<◌, ◌≤◌, ◌≡◌, false, ◌||◌, some, List, [], ◌∷◌, ◌++◌, length, ltb, unless_some,
  arith,
}
use embedmind.Effect.{Exec, pure, ◌>>=◌, ◌>>◌}
use embedmind.Bytes.{Bytes}
use embedmind.Format.{Xxh3}
use embedmind.Btree.Codec.{is_nil}
use embedmind.Btree.Pieces.{Ins, split}
use embedmind.Btree.Insert.{TxnPages}
use embedmind.Dict.{DictSpec, InnerNode}
use embedmind.Dict.Codec.{separators_len, encode_inner}

-- A separator that is not empty, of up to 129 bytes.
abbrev pub IsShort : Bytes × ℕ → Type 0
IsShort c = (1 ≤ length c.0) × (length c.0 ≤ 129)

pub encode_inner_fits :
    (x : Xxh3) (cs : List (Bytes × ℕ)) (rightmost page_size : ℕ) (spec : DictSpec)
    → 0 < length cs
    → 33 + separators_len cs ≤ page_size
    → (page : Bytes) × (encode_inner x
          (record { entries = cs; rightmost = rightmost })
          page_size
          spec
        ≡ some page)
unfolding encode_inner is_nil
encode_inner_fits x [] rightmost page_size spec full fits = absurd (omega arith)
encode_inner_fits x ((k, c) ∷ cs) rightmost page_size spec full fits =
    unless_some (false || ltb (page_size - 8) (16 + (1 + 8 + separators_len ((k, c) ∷ cs)))) _
      (ground arith)

-- What `after` is stored as when it is too large: the entries before the middle one on its page,
-- those behind it on a new page, and the middle one handed up.
pub record Halves (x : Xxh3) (S : Type 0) (T : TxnPages S) (spec : DictSpec) (page_no : ℕ)
    (after : InnerNode) (stored : Exec S Ins) : Type 0 where
  pub front : List (Bytes × ℕ)
  pub middle : Bytes × ℕ
  pub back : List (Bytes × ℕ)
  pub left_page : Bytes
  pub right_page : Bytes
  pub entries : after.entries ≡ front ++ middle ∷ back
  pub balanced : length front ≡ length after.entries / 2
  pub left :
      encode_inner x (record { entries = front; rightmost = middle.1 }) T.page_size spec
      ≡ some left_page
  pub right :
      encode_inner x (record { entries = back; rightmost = after.rightmost }) T.page_size spec
      ≡ some right_page
  pub written : stored ≡ (do
    new_page ← T.allocate_page
    T.write_page page_no left_page
    T.write_page new_page right_page
    pure (split middle.0 new_page))
