-- ===== src/Bytes/Range.antt =====
-- One write into a buffer, and the ranges that it changes and leaves.
use embedmind.Prelude.{
  ℕ, zero, suc, ◌+◌, ◌≤◌, ◌≡◌, refl, ap, some, [], ◌∷◌, length, take, drop, get_elem?, arith,
}
use embedmind.Bytes.{Bytes, get_range, overwrite, splice, write_bytes}

length-overwrite : (buf val : Bytes) → length (overwrite buf val) ≡ length buf
unfolding overwrite
length-overwrite buf [] = refl
length-overwrite [] (v ∷ vs) = refl
length-overwrite (b ∷ buf) (v ∷ vs) = ap suc (length-overwrite buf vs)

pub length-splice : (buf : Bytes) (off : ℕ) (val : Bytes) → length (splice buf off val) ≡ length buf
unfolding splice
length-splice buf zero val = length-overwrite buf val
length-splice [] (suc off) val = refl
length-splice (b ∷ buf) (suc off) val = ap suc (length-splice buf off val)

take-overwrite :
    (buf val : Bytes) → length val ≤ length buf → take (length val) (overwrite buf val) ≡ val
unfolding overwrite
take-overwrite buf [] h = refl
take-overwrite [] (v ∷ vs) h = absurd (omega arith)
take-overwrite (b ∷ buf) (v ∷ vs) h = ap (λ t. v ∷ t) (take-overwrite buf vs (omega arith))

drop-overwrite :
    (buf val : Bytes) (n : ℕ) → length val ≤ n → drop n (overwrite buf val) ≡ drop n buf
unfolding overwrite
drop-overwrite buf [] n h = refl
drop-overwrite [] (v ∷ vs) n h = refl
drop-overwrite (b ∷ buf) (v ∷ vs) zero h = absurd (omega arith)
drop-overwrite (b ∷ buf) (v ∷ vs) (suc n) h = drop-overwrite buf vs n (omega arith)

pub read-splice_self :
    (buf : Bytes) (off : ℕ) (val : Bytes)
    → off + length val ≤ length buf
    → take (length val) (drop off (splice buf off val)) ≡ val
unfolding splice
read-splice_self buf zero val h = take-overwrite buf val (omega arith)
read-splice_self [] (suc off) val h = absurd (omega arith)
read-splice_self (b ∷ buf) (suc off) val h = read-splice_self buf off val (omega arith)

pub drop-splice_above :
    (buf : Bytes) (off : ℕ) (val : Bytes) (n : ℕ)
    → off + length val ≤ n
    → drop n (splice buf off val) ≡ drop n buf
unfolding splice
drop-splice_above buf zero val n h = drop-overwrite buf val n (omega arith)
drop-splice_above [] (suc off) val n h = refl
drop-splice_above (b ∷ buf) (suc off) val zero h = absurd (omega arith)
drop-splice_above (b ∷ buf) (suc off) val (suc n) h = drop-splice_above buf off val n (omega arith)

pub take-splice_below :
    (buf : Bytes) (off : ℕ) (val : Bytes) (n : ℕ)
    → n ≤ off
    → take n (splice buf off val) ≡ take n buf
unfolding splice
take-splice_below buf off val zero h = refl
take-splice_below buf zero val (suc n) h = absurd (omega arith)
take-splice_below [] (suc off) val (suc n) h = refl
take-splice_below (b ∷ buf) (suc off) val (suc n) h =
    ap (λ t. b ∷ t) (take-splice_below buf off val n (omega arith))

pub read-splice_below :
    (buf : Bytes) (off : ℕ) (val : Bytes) (o n : ℕ)
    → o + n ≤ off
    → take n (drop o (splice buf off val)) ≡ take n (drop o buf)
unfolding splice
read-splice_below buf off val zero n h = take-splice_below buf off val n (omega arith)
read-splice_below buf zero val (suc o) n h = absurd (omega arith)
read-splice_below [] (suc off) val (suc o) n h = refl
read-splice_below (b ∷ buf) (suc off) val (suc o) n h =
    read-splice_below buf off val o n (omega arith)

pub length-write_bytes :
    (buf : Bytes) (off : ℕ) (val : Bytes) → length (write_bytes buf off val) ≡ length buf
unfolding write_bytes
length-write_bytes buf off val = ground (arith, length-splice buf off val)

-- The written range reads back.
pub get_range-write_self :
    (buf : Bytes) (off : ℕ) (val : Bytes)
    → off + length val ≤ length buf
    → get_range (write_bytes buf off val) off (length val) ≡ some val
unfolding get_range write_bytes
get_range-write_self buf off val h =
    ground (arith, length-splice buf off val, read-splice_self buf off val h)

-- A range below the written one is as before.
pub get_range-write_below :
    (buf : Bytes) (off : ℕ) (val : Bytes) (o n : ℕ)
    → o + n ≤ off
    → get_range (write_bytes buf off val) o n ≡ get_range buf o n
unfolding get_range write_bytes
get_range-write_below buf off val o n h =
    ground (arith, length-splice buf off val, read-splice_below buf off val o n h)

head-of-take :
    (buf : Bytes) (off n b : ℕ) (r : Bytes)
    → take (suc n) (drop off buf) ≡ b ∷ r
    → get_elem? buf off ≡ some b
head-of-take [] zero n b r h = cc
head-of-take [] (suc off) n b r h = cc
head-of-take (c ∷ cs) zero n b r h = cc
head-of-take (c ∷ cs) (suc off) n b r h = head-of-take cs off n b r h

-- The first byte of a range.
pub get_elem-of-range :
    (buf : Bytes) (off n b : ℕ) (r : Bytes)
    → get_range buf off (suc n) ≡ some (b ∷ r)
    → get_elem? buf off ≡ some b
unfolding get_range
get_elem-of-range buf off n b r h = ground (arith, head-of-take buf off n b r)

-- A write leaves the ranges above it.
pub get_range-write_above :
    (buf : Bytes) (off : ℕ) (val : Bytes) (o n : ℕ)
    → off + length val ≤ o
    → get_range (write_bytes buf off val) o n ≡ get_range buf o n
unfolding get_range write_bytes
get_range-write_above buf off val o n h =
    ground (arith, length-splice buf off val, drop-splice_above buf off val o h)
