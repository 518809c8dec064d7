-- ===== src/Fts/Tokenize.antt =====
-- crates/embedmind-core/src/index/fts.rs: `tokenize`, `doc_len` and `clip_term`. A text is its
-- characters, a token its bytes in UTF-8; what Unicode says of a character is a parameter.
use Prim.Native.Nat.{min}
use embedmind.Prelude.{
  ℕ, zero, suc, ◌+◌, ◌-◌, ◌^◌, ◌≤◌, ◌<◌, ◌≡◌, refl, ◌∙◌, Bool, true, false, ◌||◌, not, Option, none,
  some, List, [], ◌∷◌, ◌++◌, length, take, get_elem?, ltb, leb, if◌then◌else◌, Bool-cases, inl, inr,
  arith,
}
use embedmind.Bytes.{Bytes}
use embedmind.Btree.Codec.{is_nil}

-- `char::is_alphanumeric`, and the bytes of `char::to_lowercase`, which gives a character at least.
pub record Unicode : Type 0 where
  pub is_alphanumeric : ℕ → Bool
  pub to_lowercase : ℕ → Bytes
  pub full : (ch : ℕ) → 0 < length (to_lowercase ch)

abbrev pub max_term_len : ℕ
max_term_len = 128

-- The loop of `tokenize`, with the token so far.
unfoldable pub tokens_from : Unicode → Bytes → List ℕ → List Bytes
unfolding is_nil
tokens_from u cur [] = if is_nil cur then [] else cur ∷ []
tokens_from u cur (ch ∷ text) =
    let longer = tokens_from u (cur ++ u.to_lowercase ch) text in
    let rest = tokens_from u [] text in
    if u.is_alphanumeric ch then longer else if is_nil cur then rest else cur ∷ rest

-- `tokenize`
unfoldable pub tokenize : Unicode → List ℕ → List Bytes
tokenize u text = tokens_from u [] text

-- `count.saturating_add(1)` of 32 bits
abbrev pub saturating_next : ℕ → ℕ
saturating_next count = min (count + 1) (2 ^ 32 - 1)

-- The loop of `doc_len`.
unfoldable pub doc_len_from : Unicode → ℕ → Bool → List ℕ → ℕ
doc_len_from u count in_token [] = if in_token then saturating_next count else count
doc_len_from u count in_token (ch ∷ text) =
    doc_len_from u
      (if u.is_alphanumeric ch then count else if in_token then saturating_next count else count)
      (if u.is_alphanumeric ch then true else false) text

-- `doc_len`
unfoldable pub doc_len : Unicode → List ℕ → ℕ
doc_len u text = doc_len_from u 0 false text

-- `is_char_boundary` of a place inside a string: the byte there continues no character.
unfoldable pub starts_char : Option ℕ → Bool
starts_char none = true
starts_char (some b) = ltb b 128 || leb 192 b

-- The loop of `clip_term`.
unfoldable pub clip_end : Bytes → ℕ → ℕ
unfolding starts_char
clip_end term zero = 0
clip_end term (suc end) =
    let before = clip_end term end in
    if starts_char (get_elem? term (suc end)) then suc end else before

-- `clip_term`
unfoldable pub clip_term : Bytes → Bytes
unfolding clip_end
clip_term term =
    if leb (length term) max_term_len then term else take (clip_end term max_term_len) term

filled : (cur bs : Bytes) → 0 < length bs → is_nil (cur ++ bs) ≡ false
unfolding is_nil
filled [] [] h = absurd (omega arith)
filled [] (b ∷ bs) h = refl
filled (c ∷ cur) bs h = refl

from_empty :
    (u : Unicode) (text : List ℕ) (count result : ℕ)
    → doc_len_from u count (not (is_nil {A = ℕ} [])) text ≡ result
    → doc_len_from u count false text ≡ result
unfolding is_nil
from_empty u text count result h = h

doc_len_from_lem :
    (u : Unicode) (text : List ℕ) (cur : Bytes) (count : ℕ)
    → count ≤ 2 ^ 32 - 1
    → doc_len_from u count (not (is_nil cur)) text
      ≡ min (count + length (tokens_from u cur text)) (2 ^ 32 - 1)
unfolding doc_len_from tokens_from
doc_len_from_lem u [] cur count h = elim (Bool-cases (is_nil cur)) [
  | inl e ↦ rw e (omega arith)
  | inr e ↦ rw e (omega arith)
]
doc_len_from_lem u (ch ∷ text) cur count h = elim (Bool-cases (u.is_alphanumeric ch)) [
  | inl letter ↦
      let more = filled cur (u.to_lowercase ch) (u.full ch) in
      let ih = doc_len_from_lem u text (cur ++ u.to_lowercase ch) count h in
      rw letter (rw more at ih)
  | inr other ↦ elim (Bool-cases (is_nil cur)) [
    | inl e ↦ rw (other, e) (from_empty u text count _ (doc_len_from_lem u text [] count h))
    | inr e ↦
        let ih = doc_len_from_lem u text [] (saturating_next count) (omega arith) in
        let ih' = from_empty u text (saturating_next count) _ ih in
        rw (other, e) (ih' ∙ omega arith)
  ]
]

-- The length of a document is the number of its tokens, or the greatest number of 32 bits where there
-- are more.
pub doc_len-tokenize :
    (u : Unicode) (text : List ℕ) → doc_len u text ≡ min (length (tokenize u text)) (2 ^ 32 - 1)
unfolding doc_len tokenize
doc_len-tokenize u text =
    let e : 0 + length (tokens_from u [] text) ≡ length (tokens_from u [] text) = omega arith in
    from_empty u text 0 _ (doc_len_from_lem u text [] 0 (omega arith)) ∙ rw e refl
