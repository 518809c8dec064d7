-- ===== src/Bytes/Writes.antt =====
-- A run of writes at ascending offsets, as the encoders make: each field reads back.
use embedmind.Prelude.{
  ℕ, zero, suc, ◌+◌, ◌≤◌, ◌≡◌, refl, ◌∙◌, some, List, [], ◌∷◌, length, get_elem?, arith,
}
use embedmind.Bytes.{Bytes, get_range, write_bytes}
use embedmind.Bytes.Range.{length-write_bytes, get_range-write_self, get_range-write_below}

abbrev pub Write : Type 0
Write = ℕ × Bytes

abbrev pub write_all : Bytes → List Write → Bytes
write_all buf [] = buf
write_all buf ((off, v) ∷ ws) = write_all (write_bytes buf off v) ws

-- The writes lie one above the other between `lo` and `hi`.
abbrev pub Ascending : ℕ → List Write → ℕ → Type 0
Ascending lo [] hi = lo ≤ hi
Ascending lo ((off, v) ∷ ws) hi = (lo ≤ off) × Ascending (off + length v) ws hi

Ascending-le : (lo : ℕ) (ws : List Write) (hi : ℕ) → Ascending lo ws hi → lo ≤ hi
Ascending-le lo [] hi h = h
Ascending-le lo ((off, v) ∷ ws) hi (h, hs) = omega (arith, Ascending-le (off + length v) ws hi hs)

pub length-write_all : (buf : Bytes) (ws : List Write) → length (write_all buf ws) ≡ length buf
length-write_all buf [] = refl
length-write_all buf ((off, v) ∷ ws) =
    length-write_all (write_bytes buf off v) ws ∙ length-write_bytes buf off v

pub get_range-write_all_below :
    (buf : Bytes) (ws : List Write) (lo hi o n : ℕ)
    → Ascending lo ws hi
    → o + n ≤ lo
    → get_range (write_all buf ws) o n ≡ get_range buf o n
get_range-write_all_below buf [] lo hi o n h b = refl
get_range-write_all_below buf ((off, v) ∷ ws) lo hi o n (h, hs) b =
    get_range-write_all_below (write_bytes buf off v) ws (off + length v) hi o n hs (omega arith)
    ∙ get_range-write_below buf off v o n (omega arith)

pub get_range-write_all :
    (buf : Bytes) (ws : List Write) (lo hi i off : ℕ) (v : Bytes)
    → Ascending lo ws hi
    → hi ≤ length buf
    → get_elem? ws i ≡ some (off, v)
    → get_range (write_all buf ws) off (length v) ≡ some v
get_range-write_all buf [] lo hi i off v h b e = cc
get_range-write_all buf ((o, u) ∷ ws) lo hi zero off v (h, hs) b e =
    let eo : o ≡ off = cc in
    let ev : u ≡ v = cc in
    let le : o + length u ≤ hi = Ascending-le (o + length u) ws hi hs in
    let below : get_range (write_all (write_bytes buf o u) ws) o (length u)
        ≡ get_range (write_bytes buf o u) o (length u) =
      get_range-write_all_below (write_bytes buf o u) ws (o + length u) hi o (length u) hs
        (omega arith) in
    rw (← eo, ← ev) (below ∙ get_range-write_self buf o u (omega arith))
get_range-write_all buf ((o, u) ∷ ws) lo hi (suc i) off v (h, hs) b e =
    get_range-write_all (write_bytes buf o u) ws (o + length u) hi i off v hs
      (omega (arith, length-write_bytes buf o u)) e
