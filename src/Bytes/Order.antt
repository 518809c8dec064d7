-- ===== src/Bytes/Order.antt =====
-- Byte strings in their order, that of `[u8]` and of `String`: lexicographic, a prefix first.
use Prim.Native.Nat.{compare, Ordering}
use embedmind.Prelude.{◌≡◌, ◌⊎◌, inl, inr, refl, Bool, true, false, [], ◌∷◌, arith}
use embedmind.Bytes.{Bytes}

unfoldable pub bytes_cmp : Bytes → Bytes → Ordering
bytes_cmp [] [] = Ordering.eq
bytes_cmp [] (y ∷ ys) = Ordering.lt
bytes_cmp (x ∷ xs) [] = Ordering.gt
bytes_cmp (x ∷ xs) (y ∷ ys) =
    let rest = bytes_cmp xs ys in
    elim (compare x y) [
      | Ordering.lt ↦ Ordering.lt
      | Ordering.gt ↦ Ordering.gt
      | Ordering.eq ↦ rest
    ]

abbrev pub IsBefore : Bytes → Bytes → Type 0
IsBefore a b = bytes_cmp a b ≡ Ordering.lt

pub bytes_cmp_refl : (a : Bytes) → bytes_cmp a a ≡ Ordering.eq
unfolding bytes_cmp
bytes_cmp_refl [] = refl
bytes_cmp_refl (x ∷ a) = ground (arith, bytes_cmp_refl a)

pub eq_of_cmp : (a b : Bytes) → bytes_cmp a b ≡ Ordering.eq → a ≡ b
unfolding bytes_cmp
eq_of_cmp [] [] h = refl
eq_of_cmp [] (y ∷ b) h = cc
eq_of_cmp (x ∷ a) [] h = cc
eq_of_cmp (x ∷ a) (y ∷ b) h = ground (arith, eq_of_cmp a b)

pub gt_of_lt : (a b : Bytes) → bytes_cmp a b ≡ Ordering.lt → bytes_cmp b a ≡ Ordering.gt
unfolding bytes_cmp
gt_of_lt [] [] h = cc
gt_of_lt [] (y ∷ b) h = refl
gt_of_lt (x ∷ a) [] h = cc
gt_of_lt (x ∷ a) (y ∷ b) h = ground (arith, gt_of_lt a b)

pub lt_of_gt : (a b : Bytes) → bytes_cmp a b ≡ Ordering.gt → bytes_cmp b a ≡ Ordering.lt
unfolding bytes_cmp
lt_of_gt [] [] h = cc
lt_of_gt [] (y ∷ b) h = cc
lt_of_gt (x ∷ a) [] h = refl
lt_of_gt (x ∷ a) (y ∷ b) h = ground (arith, lt_of_gt a b)

pub IsBefore-trans : (a b c : Bytes) → IsBefore a b → IsBefore b c → IsBefore a c
unfolding bytes_cmp
IsBefore-trans [] [] c h k = cc
IsBefore-trans [] (y ∷ b) [] h k = cc
IsBefore-trans [] (y ∷ b) (z ∷ c) h k = refl
IsBefore-trans (x ∷ a) [] c h k = cc
IsBefore-trans (x ∷ a) (y ∷ b) [] h k = cc
IsBefore-trans (x ∷ a) (y ∷ b) (z ∷ c) h k = ground (arith, IsBefore-trans a b c)

pub cmp-cases : (a b : Bytes) → (IsBefore a b) ⊎ ((a ≡ b) ⊎ (bytes_cmp a b ≡ Ordering.gt))
cmp-cases a b = named (bytes_cmp a b) refl
  where
    named :
        (o : Ordering)
        → bytes_cmp a b ≡ o
        → (IsBefore a b) ⊎ ((a ≡ b) ⊎ (bytes_cmp a b ≡ Ordering.gt))
    named Ordering.lt e = inl e
    named Ordering.eq e = inr (inl (eq_of_cmp a b e))
    named Ordering.gt e = inr (inr e)

-- `a < b` and `a <= b` as tests.
abbrev pub bytes_lt : Bytes → Bytes → Bool
bytes_lt a b = elim (bytes_cmp a b) [ Ordering.lt ↦ true | _ ↦ false ]

abbrev pub bytes_le : Bytes → Bytes → Bool
bytes_le a b = elim (bytes_cmp a b) [ Ordering.gt ↦ false | _ ↦ true ]
