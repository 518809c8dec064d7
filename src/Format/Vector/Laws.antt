-- ===== src/Format/Vector/Laws.antt =====
-- A vector page keeps what was pushed: every slot reads back its own vector.
use embedmind.Prelude.{
  ℕ, zero, suc, ◌+◌, ◌-◌, ◌*◌, ◌/◌, ◌%◌, ◌^◌, ◌≤◌, ◌<◌, ◌≡◌, refl, ap, sym, ◌∙◌, true, false, some,
  List, [], ◌∷◌, ◌++◌, length, length-append, All, arith, ltb, leb, ◌==◌, Bool-cases, inl, inr,
}
use embedmind.Error.{ok, malformed_page, ok_or, ◌>>=◌}
use embedmind.Bytes.{
  Bytes, le_bytes, get_range, overwrite, splice, write_bytes, write_u32, write_u64,
}
use embedmind.Bytes.Le.{length-le_bytes, from_le-le_bytes}
use embedmind.Bytes.Range.{
  get_range-write_self, get_range-write_above, get_range-write_below, length-write_bytes,
  length-splice,
}
use embedmind.Format.Page as P
use embedmind.Format.Page.{vector, PageHeader, encode_into}
use embedmind.Format.Page.Laws.{decode-encode_into}
use embedmind.Format.Vector.{
  vector_slots_per_page, put_vector, floats, pushed_page, vector_page_push, vector_page_get,
}
use native.Mathlib.Nat.{le-div_iff_mul-le, suc-mul, le-mul_of_pos_right, mul-le-mul_right}

-- The bytes of a vector.
abbrev vector_bytes : List ℕ → Bytes
vector_bytes [] = []
vector_bytes (v ∷ vs) = le_bytes 4 v ++ vector_bytes vs

length-vector_bytes : (vs : List ℕ) → length (vector_bytes vs) ≡ length vs * 4
length-vector_bytes [] = refl
length-vector_bytes (v ∷ vs) = omega (
  arith,
  length-append (le_bytes 4 v) (vector_bytes vs),
  length-le_bytes 4 v,
  length-vector_bytes vs,
)

overwrite-append :
    (buf a b : Bytes)
    → length a + length b ≤ length buf
    → splice (overwrite buf a) (length a) b ≡ overwrite buf (a ++ b)
unfolding splice overwrite
overwrite-append buf [] b h = refl
overwrite-append [] (x ∷ a) b h = absurd (omega arith)
overwrite-append (c ∷ buf) (x ∷ a) b h =
    ap (λ (t : Bytes). x ∷ t) (overwrite-append buf a b (omega arith))

splice-append :
    (buf : Bytes) (off : ℕ) (a b : Bytes)
    → off + length a + length b ≤ length buf
    → splice (splice buf off a) (off + length a) b ≡ splice buf off (a ++ b)
unfolding splice
splice-append buf zero a b h =
    let e : zero + length a ≡ length a = omega arith in
    rw e (overwrite-append buf a b (omega arith))
splice-append [] (suc off) a b h = absurd (omega arith)
splice-append (c ∷ buf) (suc off) a b h =
    let e : suc off + length a ≡ suc (off + length a) = omega arith in
    rw e (ap (λ (t : Bytes). c ∷ t) (splice-append buf off a b (omega arith)))

-- Two writes next to each other are one.
write_bytes-append :
    (buf : Bytes) (off : ℕ) (a b : Bytes)
    → off + length a + length b ≤ length buf
    → write_bytes (write_bytes buf off a) (off + length a) b ≡ write_bytes buf off (a ++ b)
unfolding write_bytes
write_bytes-append buf off a b h =
    ground (arith, splice-append buf off a b h, length-append a b, length-splice buf off a)

splice-nil : (buf : Bytes) (off : ℕ) → splice buf off [] ≡ buf
unfolding splice overwrite
splice-nil buf zero = refl
splice-nil [] (suc off) = refl
splice-nil (c ∷ buf) (suc off) = ap (λ (t : Bytes). c ∷ t) (splice-nil buf off)

put_vector-write :
    (page : Bytes) (off : ℕ) (vs : List ℕ)
    → off + length vs * 4 ≤ length page
    → put_vector page off vs ≡ write_bytes page off (vector_bytes vs)
unfolding put_vector
put_vector-write page off [] h = unfold write_bytes in ground (arith, splice-nil page off)
put_vector-write page off (v ∷ vs) h =
    let four = length-le_bytes 4 v in
    let long = length-vector_bytes vs in
    let two =
      write_bytes-append page off (le_bytes 4 v) (vector_bytes vs) (omega (arith, four, long)) in
    put_vector-write (write_bytes page off (le_bytes 4 v)) (off + 4) vs
      (omega (arith, length-write_bytes page off (le_bytes 4 v)))
    ∙ (rw four at two)

floats-vector_bytes : (vs : List ℕ) → All (λ (v : ℕ). v < 2 ^ 32) vs → floats (vector_bytes vs) ≡ vs
unfolding floats le_bytes
floats-vector_bytes [] h = refl
floats-vector_bytes (v ∷ vs) (h, hs) =
    let one = from_le-le_bytes 4 v h in rw (one, floats-vector_bytes vs hs) refl

get_range-encode_into :
    (h : PageHeader) (page : Bytes) (o n : ℕ)
    → 16 ≤ o
    → get_range (encode_into h page) o n ≡ get_range page o n
unfolding encode_into write_u32 write_u64
get_range-encode_into h page o n b =
    get_range-write_above _ 8 (le_bytes 8 h.next_page) o n
      (omega (arith, length-le_bytes 8 h.next_page))
    ∙ get_range-write_above _ 4 (le_bytes 4 h.entry_count) o n
        (omega (arith, length-le_bytes 4 h.entry_count))
    ∙ get_range-write_above page 0 _ o n (omega arith)

-- What a read of a slot gives, on a vector page.
get-of-header :
    (page : Bytes) (dims slot page_no : ℕ) (h : PageHeader)
    → P.decode page ≡ some h
    → h.page_type ≡ vector
    → slot < h.entry_count
    → vector_page_get page dims slot page_no ≡ (
        ok_or
          (get_range page (16 + slot * (dims * 4)) (dims * 4))
          (malformed_page page_no "vector slot bounds")
        >>= λ bytes. ok (floats bytes))
unfolding vector_page_get P.to_u8
get-of-header page dims slot page_no h e t lt =
    let w : ltb slot h.entry_count ≡ true = ground arith in rw (e, t, w) refl

-- A free slot ends before the trailer.
slot_bound :
    (n used dims : ℕ)
    → used < vector_slots_per_page n dims
    → (16 + used * (dims * 4) + dims * 4 + 8 ≤ n) × (used * 4 ≤ n)
unfolding vector_slots_per_page
slot_bound n used dims h =
    let stride : ℕ = dims * 4 in
    elim (Bool-cases (stride == 0)) [
      | inl z ↦ absurd (ground arith)
      | inr w ↦
          let lt : suc used ≤ (n - 16 - 8) / stride = ground arith in
          let pos : 0 < stride = ground arith in
          let fits : suc used * stride ≤ n - 16 - 8 = (le-div_iff_mul-le pos).0 lt in
          let stride_pos : 0 < dims = omega (arith, pos) in
          let fewer : used * 4 ≤ used * 4 * dims = le-mul_of_pos_right (used * 4) stride_pos in
          let bound : 16 + used * (dims * 4) + dims * 4 + 8 ≤ n =
            omega (arith, fits, pos, suc-mul used stride) in
          (bound, omega (arith, bound, fewer))
    ]

module _ (page : Bytes) (h : PageHeader) (dims : ℕ) (vs : List ℕ) (e : P.decode page ≡ some h)
    (kind : h.page_type ≡ vector) (next : h.next_page < 2 ^ 64) (small : length page ≤ 65536)
    (len : length vs ≡ dims) (room : h.entry_count < vector_slots_per_page (length page) dims) where
  abbrev out : Bytes
  out = pushed_page page dims h.entry_count h.next_page vs

  push-room : vector_page_push page dims vs ≡ ok (some h.entry_count, out)
  unfolding vector_page_push P.to_u8
  push-room =
      let m : length page % 2 ^ 32 ≡ length page = omega arith in
      let r : leb (vector_slots_per_page (length page) dims) h.entry_count ≡ false = ground arith in
      let l : (length vs == dims) ≡ true = ground arith in
      let b = slot_bound (length page) h.entry_count dims room in
      let u : h.entry_count % 2 ^ 16 ≡ h.entry_count = omega (arith, b.1) in
      rw (l, e, kind, m, r, u) refl

  put :
      put_vector page (16 + h.entry_count * (dims * 4)) vs
      ≡ write_bytes page (16 + h.entry_count * (dims * 4)) (vector_bytes vs)
  put =
      let b = slot_bound (length page) h.entry_count dims room in
      let l : length vs * 4 ≡ dims * 4 = rw len refl in
      put_vector-write page _ vs (omega (arith, b.0, l))

  decode-out :
      P.decode out
      ≡ some
          (record { page_type = vector; entry_count = h.entry_count + 1; next_page = h.next_page })
  unfolding pushed_page
  decode-out =
      let b = slot_bound (length page) h.entry_count dims room in
      decode-encode_into _ (put_vector page (16 + h.entry_count * (dims * 4)) vs)
        (record { entry_count = omega (arith, b.1); next_page = next })
        (rw put (
          omega (
            arith,
            b.0,
            length-write_bytes page (16 + h.entry_count * (dims * 4)) (vector_bytes vs),
          )))

  get-out_self : get_range out (16 + h.entry_count * (dims * 4)) (dims * 4) ≡ some (vector_bytes vs)
  unfolding pushed_page
  get-out_self =
      let b = slot_bound (length page) h.entry_count dims room in
      let l : length (vector_bytes vs) ≡ dims * 4 = length-vector_bytes vs ∙ rw len refl in
      let off = 16 + h.entry_count * (dims * 4) in
      let self : get_range (write_bytes page off (vector_bytes vs)) off (length (vector_bytes vs))
          ≡ some (vector_bytes vs) =
        get_range-write_self page off (vector_bytes vs) (omega (arith, b.0, l)) in
      get_range-encode_into _ _ off (dims * 4) (omega arith) ∙ rw put (rw l at self)

  get-out_below :
      (slot : ℕ)
      → slot < h.entry_count
      → get_range out (16 + slot * (dims * 4)) (dims * 4)
        ≡ get_range page (16 + slot * (dims * 4)) (dims * 4)
  unfolding pushed_page
  get-out_below slot lt =
      let stride = dims * 4 in
      let mono : suc slot * stride ≤ h.entry_count * stride = mul-le-mul_right stride lt in
      get_range-encode_into _ _ (16 + slot * stride) stride (omega arith)
      ∙ rw put (
          get_range-write_below page _ (vector_bytes vs) (16 + slot * stride) stride
            (omega (arith, mono, suc-mul slot stride)))

  -- A push is kept. For a vector page of at most 64 KiB with a free slot, whose link fits 64 bits,
  -- and a vector of the right dimensions with floats of 32 bits, the push succeeds with the next
  -- slot, and a read of that slot returns the vector.
  pub vector_page_get-push :
      (page_no : ℕ)
      → All (λ (v : ℕ). v < 2 ^ 32) vs
      → (after : Bytes) × (vector_page_push page dims vs ≡ ok (some h.entry_count, after))
        × (vector_page_get after dims h.entry_count page_no ≡ ok vs)
  vector_page_get-push page_no floats_ok = (
    out,
    push-room,
    get-of-header out dims h.entry_count page_no _ decode-out refl (omega arith)
        ∙ rw (get-out_self, floats-vector_bytes vs floats_ok) refl,
  )

  -- A push keeps what was stored before: for such a page and a vector of the right dimensions,
  -- whatever its floats, the push succeeds with the next slot, and a read of an earlier slot
  -- returns after the push what it returned before it.
  vector_page_get-push_earlier :
      (slot page_no : ℕ)
      → slot < h.entry_count
      → (after : Bytes) × (vector_page_push page dims vs ≡ ok (some h.entry_count, after))
        × (vector_page_get after dims slot page_no ≡ vector_page_get page dims slot page_no)
  vector_page_get-push_earlier slot page_no lt = (
    out,
    push-room,
    get-of-header out dims slot page_no _ decode-out refl (omega arith)
        ∙ rw (get-out_below slot lt) (sym (get-of-header page dims slot page_no h e kind lt)),
  )
