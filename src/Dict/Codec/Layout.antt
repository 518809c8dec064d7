-- ===== src/Dict/Codec/Layout.antt =====
-- crates/embedmind-core/src/index/dict.rs: the bytes that the entries of a node take up on its page.
use embedmind.Prelude.{ℕ, ◌+◌, ◌≡◌, refl, List, [], ◌∷◌, ◌++◌, length, length-append, arith}
use embedmind.Bytes.{Bytes, le_bytes}
use embedmind.Bytes.Le.{length-le_bytes}
use embedmind.Dict.{value_inline, value_overflow, Value, inline, overflow, encoded_len, LeafEntry}
use embedmind.Dict.Codec.{footprints, separators_len}

-- The bytes of an entry, in their order.
abbrev pub key_bytes : Bytes → Bytes
key_bytes key = le_bytes 2 (length key) ++ key

abbrev pub value_bytes : Value → Bytes
value_bytes (inline body) = value_inline ∷ (le_bytes 4 (length body) ++ body)
value_bytes (overflow total_len first_page) =
    value_overflow ∷ (le_bytes 4 total_len ++ le_bytes 8 first_page)

abbrev pub entries_bytes : List LeafEntry → Bytes
entries_bytes [] = []
entries_bytes (e ∷ es) = key_bytes e.key ++ (value_bytes e.value ++ entries_bytes es)

abbrev pub children_bytes : List (Bytes × ℕ) → Bytes
children_bytes [] = []
children_bytes ((key, child) ∷ es) = key_bytes key ++ (le_bytes 8 child ++ children_bytes es)

pub length-key_bytes : (key : Bytes) → length (key_bytes key) ≡ 2 + length key
length-key_bytes key =
    omega (arith, length-append (le_bytes 2 (length key)) key, length-le_bytes 2 (length key))

pub length-value_bytes : (v : Value) → length (value_bytes v) ≡ encoded_len v
length-value_bytes (inline body) =
    omega (arith, length-append (le_bytes 4 (length body)) body, length-le_bytes 4 (length body))
length-value_bytes (overflow t f) =
    omega
      (arith, length-append (le_bytes 4 t) (le_bytes 8 f), length-le_bytes 4 t, length-le_bytes 8 f)

pub length-entries_bytes : (es : List LeafEntry) → length (entries_bytes es) ≡ footprints es
length-entries_bytes [] = refl
length-entries_bytes (e ∷ es) = omega (
  arith,
  length-append (key_bytes e.key) (value_bytes e.value ++ entries_bytes es),
  length-append (value_bytes e.value) (entries_bytes es),
  length-key_bytes e.key,
  length-value_bytes e.value,
  length-entries_bytes es,
)

pub length-children_bytes : (es : List (Bytes × ℕ)) → length (children_bytes es) ≡ separators_len es
length-children_bytes [] = refl
length-children_bytes ((key, child) ∷ es) = omega (
  arith,
  length-append (key_bytes key) (le_bytes 8 child ++ children_bytes es),
  length-append (le_bytes 8 child) (children_bytes es),
  length-key_bytes key,
  length-le_bytes 8 child,
  length-children_bytes es,
)
