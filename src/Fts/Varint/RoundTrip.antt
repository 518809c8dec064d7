-- ===== src/Fts/Varint/RoundTrip.antt =====
-- crates/embedmind-core/src/index/fts.rs: `read_varint` at what `put_varint` wrote, group by group.
use native.Mathlib.Nat.{pow-suc, mul-div_cancel, mul-le-mul_right}
use embedmind.Prelude.{
  ℕ, zero, suc, ◌+◌, ◌*◌, ◌/◌, ◌%◌, ◌^◌, ◌≤◌, ◌<◌, ◌≡◌, refl, ap, ◌∙◌, inl, inr, true, false, ◌||◌,
  some, [], ◌∷◌, length, get_elem?, ◌==◌, if◌then◌else◌, Bool-cases, drop, take, arith,
}
use embedmind.Error.{ok}
use embedmind.Bytes.{Bytes, get_range}
use embedmind.Bytes.Reads.{Reads, Reads-next, Reads-at}
use embedmind.Fts.Varint.{varint_loop, put_varint, shifted, read_varint_loop, read_varint}
use embedmind.Fts.Varint.Or.{bit_or-shifted}

take-drop-head :
    (n off b : ℕ) (page bs : Bytes)
    → take (suc n) (drop off page) ≡ b ∷ bs
    → get_elem? page off ≡ some b
take-drop-head n zero b [] bs h = cc
take-drop-head n zero b (x ∷ page) bs h = cc
take-drop-head n (suc off) b [] bs h = cc
take-drop-head n (suc off) b (x ∷ page) bs h = take-drop-head n off b page bs h

pub Reads-head :
    (page : Bytes) (off b : ℕ) (bs : Bytes) → Reads page off (b ∷ bs) → get_elem? page off ≡ some b
unfolding get_range
Reads-head page off b bs h = ground (arith, take-drop-head (length bs) off b page bs)

groups : (v c : ℕ) → v * c ≡ (v / 128) * (128 * c) + (v % 128) * c
groups v c =
    let e : v ≡ (v / 128) * 128 + v % 128 = omega arith in omega (arith, ap (λ (t : ℕ). t * c) e)

shift_next : (i : ℕ) → 2 ^ (7 * suc i) ≡ 128 * 2 ^ (7 * i)
shift_next i =
    let e : 7 * suc i ≡ suc (suc (suc (suc (suc (suc (suc (7 * i))))))) = omega arith in
    rw e (
      omega (
        arith,
        pow-suc 2 (7 * i),
        pow-suc 2 (suc (7 * i)),
        pow-suc 2 (suc (suc (7 * i))),
        pow-suc 2 (suc (suc (suc (7 * i)))),
        pow-suc 2 (suc (suc (suc (suc (7 * i))))),
        pow-suc 2 (suc (suc (suc (suc (suc (7 * i)))))),
        pow-suc 2 (suc (suc (suc (suc (suc (suc (7 * i))))))),
      ))

shift_pos : (s : ℕ) → 0 < 2 ^ s
shift_pos zero = omega arith
shift_pos (suc s) = omega (arith, pow-suc 2 s, shift_pos s)

-- What the bits of a group are shifted to, and back.
shifted-fits : (v s : ℕ) → v * 2 ^ s < 2 ^ 128 → shifted (v % 128) s ≡ (v % 128) * 2 ^ s
unfolding shifted
shifted-fits v s h = omega (arith, groups v (2 ^ s))

no_overflow :
    (v s : ℕ)
    → v * 2 ^ s < 2 ^ 128
    → (v % 128 == 0 || shifted (v % 128) s / 2 ^ s == v % 128) ≡ true
no_overflow v s h =
    let e : (v % 128) * 2 ^ s / 2 ^ s ≡ v % 128 = mul-div_cancel (v % 128) (shift_pos s) in
    rw (shifted-fits v s h, e) (ground arith)

-- One round of the loop on a byte that holds the lowest group of `v`.
round :
    (rounds byte v i value off page_no : ℕ) (body : Bytes)
    → get_elem? body (off + i) ≡ some byte
    → byte % 128 ≡ v % 128
    → value < 2 ^ (7 * i)
    → v * 2 ^ (7 * i) < 2 ^ 128
    → read_varint_loop (suc rounds) body off page_no i value ≡ (
        if (byte / 128) % 2 == 0
        then ok (value + (v % 128) * 2 ^ (7 * i), off + (i + 1))
        else read_varint_loop rounds body off page_no (suc i) (value + (v % 128) * 2 ^ (7 * i)))
unfolding read_varint_loop
round rounds byte v i value off page_no body at_byte group below fits =
    rw
      (
        at_byte,
        group,
        no_overflow v (7 * i) fits,
        shifted-fits v (7 * i) fits,
        bit_or-shifted (7 * i) value (v % 128) below,
      )
      refl

next_below :
    (v i value : ℕ) → value < 2 ^ (7 * i) → value + (v % 128) * 2 ^ (7 * i) < 2 ^ (7 * suc i)
next_below v i value below =
    let most : v % 128 ≤ 127 = omega arith in
    let h : (v % 128) * 2 ^ (7 * i) ≤ 127 * 2 ^ (7 * i) = mul-le-mul_right (2 ^ (7 * i)) most in
    omega (arith, shift_next i)

fits_next : (v i : ℕ) → v * 2 ^ (7 * i) < 2 ^ 128 → (v / 128) * 2 ^ (7 * suc i) < 2 ^ 128
fits_next v i fits = rw (shift_next i) (omega (arith, groups v (2 ^ (7 * i))))

-- What `put_varint` writes for the last group, and for one before it.
last_group : (k v : ℕ) → (v / 128 == 0) ≡ true → varint_loop (suc k) v ≡ v ∷ []
unfolding varint_loop
last_group k v done = let e : v % 128 ≡ v = ground arith in rw (done, e) refl

first_group :
    (k v : ℕ)
    → (v / 128 == 0) ≡ false
    → varint_loop (suc k) v ≡ (v % 128 + 128) ∷ varint_loop k (v / 128)
unfolding varint_loop
first_group k v more = rw more refl

last_round :
    (k v i value off page_no : ℕ) (body : Bytes)
    → (v / 128 == 0) ≡ true
    → value < 2 ^ (7 * i)
    → v * 2 ^ (7 * i) < 2 ^ 128
    → Reads body (off + i) (v ∷ [])
    → read_varint_loop (suc k) body off page_no i value
      ≡ ok (value + v * 2 ^ (7 * i), off + (i + 1))
last_round k v i value off page_no body done below fits reads =
    let small : v < 128 = ground arith in
    let e : v % 128 ≡ v = omega arith in
    let z : ((v / 128) % 2 == 0) ≡ true = ground arith in
    round k v v i value off page_no body (Reads-head body (off + i) v [] reads) refl below fits
    ∙ rw (z, e) refl

loop_lem :
    (k v i value off page_no : ℕ) (body : Bytes)
    → v < 128 ^ suc k
    → value < 2 ^ (7 * i)
    → v * 2 ^ (7 * i) < 2 ^ 128
    → Reads body (off + i) (varint_loop (suc k) v)
    → read_varint_loop (suc k) body off page_no i value
      ≡ ok (value + v * 2 ^ (7 * i), off + (i + length (varint_loop (suc k) v)))
loop_lem zero v i value off page_no body fuel below fits reads =
    let done : (v / 128 == 0) ≡ true = ground arith in
    let reads' : Reads body (off + i) (v ∷ []) = rw (last_group 0 v done) at reads in
    rw (last_group 0 v done) (last_round 0 v i value off page_no body done below fits reads')
loop_lem (suc k) v i value off page_no body fuel below fits reads =
    elim (Bool-cases (v / 128 == 0)) [
      | inl done ↦
          let reads' : Reads body (off + i) (v ∷ []) = rw (last_group (suc k) v done) at reads in
          rw (last_group (suc k) v done)
            (last_round (suc k) v i value off page_no body done below fits reads')
      | inr more ↦
          let tail = varint_loop (suc k) (v / 128) in
          let byte = v % 128 + 128 in
          let so_far = value + (v % 128) * 2 ^ (7 * i) in
          let reads' : Reads body (off + i) (byte ∷ tail) =
            rw (first_group (suc k) v more) at reads in
          let behind : Reads body (off + suc i) tail =
            Reads-at body _ _ tail (omega arith)
              (Reads-next body (off + i) 1 (byte ∷ []) tail refl reads') in
          let rest =
            loop_lem k (v / 128) (suc i) so_far off page_no body
              (omega (arith, pow-suc 128 (suc k))) (next_below v i value below) (fits_next v i fits)
              behind in
          let on : ((byte / 128) % 2 == 0) ≡ false = ground arith in
          let value_eq : so_far + (v / 128) * 2 ^ (7 * suc i) ≡ value + v * 2 ^ (7 * i) =
            rw (shift_next i) (omega (arith, groups v (2 ^ (7 * i)))) in
          let off_eq : off + (suc i + length tail) ≡ off + (i + suc (length tail)) = omega arith in
          rw (first_group (suc k) v more) (
            round (suc k) byte v i value off page_no body
              (Reads-head body (off + i) byte tail reads') (omega arith) below fits
            ∙ rw (on, rest, value_eq, off_eq) refl)
    ]

-- A number of 128 bits is read back, and the offset stands behind its bytes.
pub read_varint-put_varint :
    (v off page_no : ℕ) (body : Bytes)
    → v < 2 ^ 128
    → Reads body off (put_varint v)
    → read_varint body off page_no ≡ ok (v, off + length (put_varint v))
unfolding put_varint read_varint
read_varint-put_varint v off page_no body h reads =
    let v_eq : 0 + v * 2 ^ (7 * 0) ≡ v = omega arith in
    let reads' : Reads body (off + 0) (varint_loop 19 v) =
      Reads-at body off (off + 0) _ (omega arith) reads in
    let e = loop_lem 18 v 0 0 off page_no body (omega arith) (omega arith) (omega arith) reads' in
    let off_eq : 0 + length (varint_loop 19 v) ≡ length (varint_loop 19 v) = omega arith in
    e ∙ rw (v_eq, off_eq) refl
