-- ===== src/Bytes/Reads.antt =====
-- A page that has given bytes at an offset, and what its parts and numbers then read as.
use mathlib.Core.Path.{subst}
use embedmind.Prelude.{
  ℕ, ◌+◌, ◌^◌, ◌≤◌, ◌<◌, ◌≡◌, refl, ap, sym, ◌∙◌, some, [], ◌∷◌, ◌++◌, length, length-append, take,
  drop, drop-drop, take-all, arith,
}
use embedmind.Bytes.{Bytes, le_bytes, get_range, read_u16, read_u32, read_u64}
use embedmind.Bytes.Le.{length-le_bytes, from_le-le_bytes}

-- The page has the bytes `bs` at `off`.
abbrev pub Reads : Bytes → ℕ → Bytes → Type 0
Reads page off bs = get_range page off (length bs) ≡ some bs

pub Reads-fits :
    (page : Bytes) (off : ℕ) (bs : Bytes) → Reads page off bs → off + length bs ≤ length page
unfolding get_range
Reads-fits page off bs h = ground arith

Reads-take :
    (page : Bytes) (off : ℕ) (bs : Bytes)
    → Reads page off bs
    → take (length bs) (drop off page) ≡ bs
unfolding get_range
Reads-take page off bs h = ground arith

take-front : (xs ys zs : Bytes) → take (length (xs ++ ys)) zs ≡ xs ++ ys → take (length xs) zs ≡ xs
take-front [] ys zs h = refl
take-front (x ∷ xs) ys [] h = cc
take-front (x ∷ xs) ys (z ∷ zs) h =
    let hd : z ≡ x = cc in
    let tl : take (length (xs ++ ys)) zs ≡ xs ++ ys = cc in rw (hd, take-front xs ys zs tl) refl

take-back :
    (xs ys zs : Bytes)
    → take (length (xs ++ ys)) zs ≡ xs ++ ys
    → take (length ys) (drop (length xs) zs) ≡ ys
take-back [] ys zs h = h
take-back (x ∷ xs) ys [] h = cc
take-back (x ∷ xs) ys (z ∷ zs) h =
    let tl : take (length (xs ++ ys)) zs ≡ xs ++ ys = cc in take-back xs ys zs tl

pub Reads-front :
    (page : Bytes) (off : ℕ) (a b : Bytes) → Reads page off (a ++ b) → Reads page off a
unfolding get_range
Reads-front page off a b h = ground (
  arith,
  Reads-fits page off (a ++ b) h,
  length-append a b,
  take-front a b (drop off page) (Reads-take page off (a ++ b) h),
)

pub Reads-back :
    (page : Bytes) (off : ℕ) (a b : Bytes) → Reads page off (a ++ b) → Reads page (off + length a) b
unfolding get_range
Reads-back page off a b h = ground (
  arith,
  Reads-fits page off (a ++ b) h,
  length-append a b,
  drop-drop (length a) off page,
  take-back a b (drop off page) (Reads-take page off (a ++ b) h),
)

pub Reads-next :
    (page : Bytes) (off n : ℕ) (a b : Bytes)
    → length a ≡ n
    → Reads page off (a ++ b)
    → Reads page (off + n) b
Reads-next page off n a b e h =
    subst (λ (k : ℕ). Reads page (off + k) b) e (Reads-back page off a b h)

pub read_u64-of :
    (page : Bytes) (off v : ℕ)
    → v < 2 ^ 64
    → Reads page off (le_bytes 8 v)
    → read_u64 page off ≡ some v
unfolding read_u64
read_u64-of page off v lt h =
    let h' : get_range page off 8 ≡ some (le_bytes 8 v) = rw (length-le_bytes 8 v) at h in
    rw h' (ap some (from_le-le_bytes 8 v lt))

pub read_u16-of :
    (page : Bytes) (off v : ℕ)
    → v < 2 ^ 16
    → Reads page off (le_bytes 2 v)
    → read_u16 page off ≡ some v
unfolding read_u16
read_u16-of page off v lt h =
    let h' : get_range page off 2 ≡ some (le_bytes 2 v) = rw (length-le_bytes 2 v) at h in
    rw h' (ap some (from_le-le_bytes 2 v lt))

pub read_u32-of :
    (page : Bytes) (off v : ℕ)
    → v < 2 ^ 32
    → Reads page off (le_bytes 4 v)
    → read_u32 page off ≡ some v
unfolding read_u32
read_u32-of page off v lt h =
    let h' : get_range page off 4 ≡ some (le_bytes 4 v) = rw (length-le_bytes 4 v) at h in
    rw h' (ap some (from_le-le_bytes 4 v lt))

-- A buffer has all of its bytes at its start.
pub Reads-whole : (buf : Bytes) → Reads buf 0 buf
unfolding get_range
Reads-whole buf = ground (arith, take-all (length buf) buf)

pub Reads-of-range :
    (page : Bytes) (off n : ℕ) (bs : Bytes)
    → length bs ≡ n
    → get_range page off n ≡ some bs
    → Reads page off bs
Reads-of-range page off n bs e h = ap (λ k. get_range page off k) e ∙ h

pub Reads-range :
    (page : Bytes) (off n : ℕ) (bs : Bytes)
    → length bs ≡ n
    → Reads page off bs
    → get_range page off n ≡ some bs
Reads-range page off n bs e h = ap (λ k. get_range page off k) (sym e) ∙ h

pub Reads-at : (page : Bytes) (o o' : ℕ) (bs : Bytes) → o ≡ o' → Reads page o bs → Reads page o' bs
Reads-at page o o' bs e h = subst (λ (k : ℕ). Reads page k bs) e h
