-- ===== src/Fts/Runs/Bounds.antt =====
-- crates/embedmind-core/src/index/fts.rs: how large what `read_varint` and `read_fixed` return is.
use Prim.Native.Nat.{bit_or}
use mathlib.Core.Path.{subst}
use embedmind.Prelude.{
  All-take, All-drop, ℕ, zero, suc, ◌+◌, ◌*◌, ◌/◌, ◌%◌, ◌^◌, ◌<◌, ◌≡◌, ◌⊎◌, inl, inr, refl, ap,
  Bool, true, false, ◌||◌, [], ◌∷◌, length, take, drop, All, leb, ◌==◌, if◌then◌else◌, get_elem?,
  some, none, replicate, arith,
}
use embedmind.Error.{Result, ok, ok_or-some, ok_or, malformed_page, guard_ok, question_ok}
use embedmind.Bytes.{Bytes, IsByte, from_le, overwrite, get_range}
use embedmind.Bytes.Le.{from_le-lt}
use embedmind.Fts.Varint.{shifted, read_varint_loop, read_varint}
use embedmind.Fts.Varint.Or.{bit_or-lt}
use embedmind.Fts.Fixed.{checked, read_fixed}

shifted_lt : (bits s : ℕ) → shifted bits s < 2 ^ 128
unfolding shifted
shifted_lt bits s = omega arith

-- A round either ends with the value so far or goes on with it.
one_or_more :
    (b : Bool) (x r : ℕ × ℕ) (more : Result (ℕ × ℕ))
    → (if b then ok x else more) ≡ ok r
    → (x ≡ r) ⊎ (more ≡ ok r)
one_or_more true x r more h = inl (cc)
one_or_more false x r more h = inr h

read_varint_loop-lt :
    (rounds : ℕ) (body : Bytes) (off page_no i value : ℕ) (r : ℕ × ℕ)
    → value < 2 ^ 128
    → read_varint_loop rounds body off page_no i value ≡ ok r
    → r.0 < 2 ^ 128
unfolding read_varint_loop
read_varint_loop-lt zero body off page_no i value r lt h = cc
read_varint_loop-lt (suc rounds) body off page_no i value r lt h =
    let (byte, h1, e1) = question_ok (ok_or (get_elem? body (off + i)) _) _ r h in
    let bits = byte % 128 in
    let so_far = bit_or value (shifted bits (7 * i)) in
    let more = read_varint_loop rounds body off page_no (suc i) so_far in
    let (passed, h2) =
      guard_ok (bits == 0 || shifted bits (7 * i) / 2 ^ (7 * i) == bits)
        (malformed_page page_no "fts varint overflow")
        (if (byte / 128) % 2 == 0 then ok (so_far, off + (i + 1)) else more) r h1 in
    let below : so_far < 2 ^ 128 =
      bit_or-lt 128 value (shifted (byte % 128) (7 * i)) lt (shifted_lt (byte % 128) (7 * i)) in
    elim (one_or_more ((byte / 128) % 2 == 0) (so_far, off + (i + 1)) r more h2) [
      | inl e ↦ let e0 : so_far ≡ r.0 = ap (λ t. t.0) e in omega arith
      | inr e ↦ read_varint_loop-lt rounds body off page_no (suc i) so_far r below e
    ]

pub read_varint-lt :
    (body : Bytes) (off page_no : ℕ) (r : ℕ × ℕ)
    → read_varint body off page_no ≡ ok r
    → r.0 < 2 ^ 128
unfolding read_varint
read_varint-lt body off page_no r h = read_varint_loop-lt 19 body off page_no 0 0 r (omega arith) h

some_if : (b : Bool) (x y : Bytes) → (if b then some x else none) ≡ some y → x ≡ y
some_if true x y h = cc
some_if false x y h = cc

pub All-get_range :
    (buf : Bytes) (off n : ℕ) (bs : Bytes)
    → All IsByte buf
    → get_range buf off n ≡ some bs
    → All IsByte bs
unfolding get_range
All-get_range buf off n bs h e =
    let same = some_if (leb (off + n) (length buf)) (take n (drop off buf)) bs e in
    subst (λ t. All IsByte t) same (All-take IsByte n (drop off buf) (All-drop IsByte off buf h))

-- Sixteen bytes, in part overwritten by bytes, are a number of 128 bits.
All-overwrite : (n : ℕ) (bs : Bytes) → All IsByte bs → All IsByte (overwrite (replicate n 0) bs)
unfolding overwrite
All-overwrite zero [] h = tt
All-overwrite (suc n) [] h = (omega arith, All-overwrite n [] tt)
All-overwrite zero (b ∷ bs) h = tt
All-overwrite (suc n) (b ∷ bs) (hb, hbs) = (hb, All-overwrite n bs hbs)

length-overwrite : (n : ℕ) (bs : Bytes) → length (overwrite (replicate n 0) bs) ≡ n
unfolding overwrite
length-overwrite zero [] = refl
length-overwrite (suc n) [] = ap suc (length-overwrite n [])
length-overwrite zero (b ∷ bs) = refl
length-overwrite (suc n) (b ∷ bs) = ap suc (length-overwrite n bs)

pub read_fixed-lt :
    (body : Bytes) (off width page_no : ℕ) (r : ℕ × ℕ)
    → All IsByte body
    → read_fixed body off width page_no ≡ ok r
    → r.0 < 2 ^ 128
unfolding read_fixed
read_fixed-lt body off width page_no r bytes h =
    let (end, h1, e1) = question_ok (ok_or (checked (off + width)) _) _ r h in
    let (slice, h2, e2) = question_ok (ok_or (get_range body off width) _) _ r h1 in
    let e : (from_le (overwrite (replicate 16 0) slice), end) ≡ r = cc in
    let e0 : from_le (overwrite (replicate 16 0) slice) ≡ r.0 = ap (λ t. t.0) e in
    let found = ok_or-some (get_range body off width) _ slice e2 in
    let all = All-overwrite 16 slice (All-get_range body off width slice bytes found) in
    let lt = from_le-lt (overwrite (replicate 16 0) slice) all in
    let lt16 : from_le (overwrite (replicate 16 0) slice) < 256 ^ 16 =
      rw (length-overwrite 16 slice) at lt in
    omega arith
