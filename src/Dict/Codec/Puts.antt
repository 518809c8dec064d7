-- ===== src/Dict/Codec/Puts.antt =====
-- crates/embedmind-core/src/index/dict.rs: a run of `put_*` calls as one write of what they put.
use embedmind.Prelude.{
  ℕ, zero, suc, ◌+◌, ◌≤◌, ◌≡◌, refl, sym, ap, ◌∙◌, true, List, [], ◌∷◌, ◌++◌, length, length-append,
  leb, arith,
}
use embedmind.Bytes.{Bytes, le_bytes, overwrite, splice, write_bytes}
use embedmind.Bytes.Le.{length-le_bytes}
use embedmind.Bytes.Range.{length-write_bytes, length-splice}
use embedmind.Dict.{value_inline, value_overflow, Value, inline, overflow, encoded_len, LeafEntry}
use embedmind.Dict.Codec.{put_value, put_entries, put_children, footprints, separators_len}
use embedmind.Dict.Codec.Layout.{
  key_bytes, value_bytes, entries_bytes, children_bytes, length-key_bytes, length-value_bytes,
  length-entries_bytes, length-children_bytes,
}
use embedmind.Dict.Fields.{
  Cursor, put, put_u8, put_u16, put_u32, put_u64, put_bytes_u16, put_bytes_u32,
}

overwrite-append :
    (buf a b : Bytes)
    → length (a ++ b) ≤ length buf
    → splice (overwrite buf a) (length a) b ≡ overwrite buf (a ++ b)
unfolding overwrite splice
overwrite-append buf [] b h = refl
overwrite-append [] (v ∷ a) b h = absurd (omega arith)
overwrite-append (c ∷ buf) (v ∷ a) b h = ap (λ t. v ∷ t) (overwrite-append buf a b (omega arith))

splice-append :
    (buf : Bytes) (off : ℕ) (a b : Bytes)
    → off + length (a ++ b) ≤ length buf
    → splice (splice buf off a) (off + length a) b ≡ splice buf off (a ++ b)
unfolding splice
splice-append buf zero a b h =
    let e : zero + length a ≡ length a = omega arith in
    rw e (overwrite-append buf a b (omega arith))
splice-append [] (suc off) a b h = absurd (omega arith)
splice-append (c ∷ buf) (suc off) a b h =
    let e : suc off + length a ≡ suc (off + length a) = omega arith in
    rw e (ap (λ t. c ∷ t) (splice-append buf off a b (omega arith)))

-- What two calls in a row put.
pub put-put :
    (c : Cursor) (a b : Bytes)
    → c.1 + length (a ++ b) ≤ length c.0
    → put b (put a c) ≡ put (a ++ b) c
unfolding write_bytes
put-put c a b h =
    let both = length-append a b in
    let t1 : leb (c.1 + length a) (length c.0) ≡ true = ground arith in
    let t2 : leb (c.1 + length a + length b) (length (splice c.0 c.1 a)) ≡ true =
      ground (arith, length-splice c.0 c.1 a) in
    let t3 : leb (c.1 + length (a ++ b)) (length c.0) ≡ true = ground arith in
    let off : c.1 + length a + length b ≡ c.1 + length (a ++ b) = omega arith in
    rw (t1, t2, t3, splice-append c.0 c.1 a b h, off) refl

splice-nil : (buf : Bytes) (off : ℕ) → off ≤ length buf → splice buf off [] ≡ buf
unfolding splice overwrite
splice-nil buf zero h = refl
splice-nil [] (suc off) h = absurd (omega arith)
splice-nil (b ∷ buf) (suc off) h = ap (λ t. b ∷ t) (splice-nil buf off (omega arith))

write_bytes-nil : (buf : Bytes) (off : ℕ) → write_bytes buf off [] ≡ buf
unfolding write_bytes
write_bytes-nil buf off = ground (arith, splice-nil buf off)

put-nil : (c : Cursor) → put [] c ≡ c
put-nil c = let e : c.1 + 0 ≡ c.1 = omega arith in rw (write_bytes-nil c.0 c.1, e) refl

put_u16_lem : (v : ℕ) (c : Cursor) → put_u16 v c ≡ put (le_bytes 2 v) c
unfolding put_u16
put_u16_lem v c = rw length-le_bytes refl

put_u32_lem : (v : ℕ) (c : Cursor) → put_u32 v c ≡ put (le_bytes 4 v) c
unfolding put_u32
put_u32_lem v c = rw length-le_bytes refl

pub put_u64_lem : (v : ℕ) (c : Cursor) → put_u64 v c ≡ put (le_bytes 8 v) c
unfolding put_u64
put_u64_lem v c = rw length-le_bytes refl

-- Room for a run of bytes at a cursor.
abbrev pub Fits : Cursor → ℕ → Type 0
Fits c n = c.1 + n ≤ length c.0

put_bytes_u16_lem :
    (v : Bytes) (c : Cursor) → Fits c (2 + length v) → put_bytes_u16 v c ≡ put (key_bytes v) c
unfolding put_bytes_u16
put_bytes_u16_lem v c h =
    ap (λ (k : Cursor). put v k) (put_u16_lem (length v) c)
    ∙ put-put c (le_bytes 2 (length v)) v (omega (arith, length-key_bytes v))

put_bytes_u32_lem :
    (v : Bytes) (c : Cursor)
    → Fits c (4 + length v)
    → put_bytes_u32 v c ≡ put (le_bytes 4 (length v) ++ v) c
unfolding put_bytes_u32
put_bytes_u32_lem v c h =
    ap (λ (k : Cursor). put v k) (put_u32_lem (length v) c)
    ∙ put-put c (le_bytes 4 (length v)) v
        (omega (arith, length-append (le_bytes 4 (length v)) v, length-le_bytes 4 (length v)))

Fits-put : (c : Cursor) (a : Bytes) (n : ℕ) → Fits c (length a + n) → Fits (put a c) n
Fits-put c a n h = omega (arith, length-write_bytes c.0 c.1 a)

put_value_lem :
    (v : Value) (c : Cursor) → Fits c (encoded_len v) → put_value v c ≡ put (value_bytes v) c
unfolding put_value put_u8
put_value_lem (inline body) c h =
    let tag : Bytes = value_inline ∷ [] in
    let len = length-value_bytes (inline body) in
    put_bytes_u32_lem body (put tag c) (Fits-put c tag (4 + length body) (omega arith))
    ∙ put-put c tag (le_bytes 4 (length body) ++ body) (omega arith)
put_value_lem (overflow t f) c h =
    let tag : Bytes = value_overflow ∷ [] in
    let len = length-value_bytes (overflow t f) in
    let l4 = length-le_bytes 4 t in
    let l8 = length-le_bytes 8 f in
    let both = length-append (le_bytes 4 t) (le_bytes 8 f) in
    rw (put_u32_lem, put_u64_lem)
      (put-put (put tag c) (le_bytes 4 t) (le_bytes 8 f)
          (Fits-put c tag (length (le_bytes 4 t ++ le_bytes 8 f)) (omega arith))
        ∙ put-put c tag (le_bytes 4 t ++ le_bytes 8 f) (omega arith))

-- Entries that fit are put as their bytes in a row.
pub put_entries_lem :
    (es : List LeafEntry) (c : Cursor)
    → Fits c (footprints es)
    → put_entries es c ≡ put (entries_bytes es) c
unfolding put_entries
put_entries_lem [] c h = sym (put-nil c)
put_entries_lem (e ∷ es) c h =
    let key = key_bytes e.key in
    let value = value_bytes e.value in
    let kl = length-key_bytes e.key in
    let vl = length-value_bytes e.value in
    let el = length-entries_bytes es in
    let fits_value : Fits (put key c) (encoded_len e.value) =
      Fits-put c key (encoded_len e.value) (omega arith) in
    let first = put_bytes_u16_lem e.key c (omega arith) in
    let kv = put_value_lem e.value (put key c) fits_value in
    let ve = length-append value (entries_bytes es) in
    let kve = length-append key (value ++ entries_bytes es) in
    let fits_rest = Fits-put c key (length value + length (entries_bytes es)) (omega arith) in
    let rest =
      put_entries_lem es (put value (put key c))
        (Fits-put (put key c) value (footprints es) (omega arith)) in
    rw (first, kv)
      (rest
        ∙ put-put (put key c) value (entries_bytes es) (omega arith)
        ∙ put-put c key (value ++ entries_bytes es) (omega arith))

-- So are separators with their children.
pub put_children_lem :
    (es : List (Bytes × ℕ)) (c : Cursor)
    → Fits c (separators_len es)
    → put_children es c ≡ put (children_bytes es) c
unfolding put_children
put_children_lem [] c h = sym (put-nil c)
put_children_lem ((k, child) ∷ es) c h =
    let key = key_bytes k in
    let link = le_bytes 8 child in
    let kl = length-key_bytes k in
    let ll = length-le_bytes 8 child in
    let el = length-children_bytes es in
    let first = put_bytes_u16_lem k c (omega arith) in
    let ve = length-append link (children_bytes es) in
    let kve = length-append key (link ++ children_bytes es) in
    let fits_rest = Fits-put c key (length link + length (children_bytes es)) (omega arith) in
    let rest =
      put_children_lem es (put link (put key c))
        (Fits-put (put key c) link (separators_len es) (omega arith)) in
    rw (first, put_u64_lem child (put key c))
      (rest
        ∙ put-put (put key c) link (children_bytes es) (omega arith)
        ∙ put-put c key (link ++ children_bytes es) (omega arith))
