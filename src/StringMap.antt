-- ===== src/StringMap.antt =====
-- `BTreeMap<String, _>`: an association list in the order of its keys.
use Prim.Native.Nat.{Ordering}
use embedmind.Prelude.{
  ◌≡◌, refl, Bool, true, false, if◌then◌else◌, Option, none, some, List, [], ◌∷◌, ◌++◌, All, arith,
}
use embedmind.Bytes.{Bytes, bytes_eq}
use embedmind.Bytes.Order.{bytes_cmp, IsBefore, gt_of_lt}

abbrev pub StringMap {ℓ} : Type ℓ → Type ℓ
StringMap V = List (Bytes × V)

module _ {ℓ} {V : Type ℓ} where
  -- `insert`, and whether the key was there.
  unfoldable pub insert : Bytes → V → StringMap V → StringMap V × Bool
  insert k v [] = ((k, v) ∷ [], false)
  insert k v ((j, w) ∷ m) =
      let rest = insert k v m in
      elim (bytes_cmp k j) [
        | Ordering.lt ↦ ((k, v) ∷ (j, w) ∷ m, false)
        | Ordering.eq ↦ ((k, v) ∷ m, true)
        | Ordering.gt ↦ ((j, w) ∷ rest.0, rest.1)
      ]

  -- Every key of the map stands before `k`.
  abbrev pub Below : Bytes → StringMap V → Type 0
  Below k m = All (λ (e : Bytes × V). IsBefore e.0 k) m

  abbrev pub IsSorted : StringMap V → Type 0
  IsSorted [] = Unit
  IsSorted ((k, v) ∷ m) = All (λ (e : Bytes × V). IsBefore k e.0) m × IsSorted m

  -- A key behind all others goes to the end.
  pub insert-last :
      (k : Bytes) (v : V) (m : StringMap V) → Below k m → insert k v m ≡ (m ++ ((k, v) ∷ []), false)
  unfolding insert
  insert-last k v [] h = refl
  insert-last k v ((j, w) ∷ m) (h, hs) = ground (arith, gt_of_lt j k h, insert-last k v m hs)

  -- `get`
  unfoldable pub get : Bytes → StringMap V → Option V
  get k [] = none
  get k ((j, v) ∷ m) = if bytes_eq k j then some v else get k m
