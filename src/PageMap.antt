-- ===== src/PageMap.antt =====
-- `BTreeMap<u64, _>`: an association list in key order, with a look-up law.
use embedmind.Prelude.{
  ℕ, ◌<◌, ◌≡◌, refl, Option, none, some, List, [], ◌∷◌, All, arith, ltb, ◌==◌, if◌then◌else◌, inl,
  inr, Bool-cases,
}

abbrev pub PageMap {ℓ} : Type ℓ → Type ℓ
PageMap V = List (ℕ × V)

module _ {ℓ} {V : Type ℓ} where
  unfoldable pub insert : ℕ → V → PageMap V → PageMap V
  insert k v [] = (k, v) ∷ []
  insert k v ((j, w) ∷ m) =
      if ltb k j then (k, v) ∷ (j, w) ∷ m else if k == j then (k, v) ∷ m else (j, w) ∷ insert k v m

  unfoldable pub lookup : ℕ → PageMap V → Option V
  lookup k [] = none
  lookup k ((j, v) ∷ m) = if j == k then some v else lookup k m

  -- `extend`: the items in order, each replacing what its key had.
  unfoldable pub extend : PageMap V → List (ℕ × V) → PageMap V
  extend m [] = m
  extend m ((k, v) ∷ items) = extend (insert k v m) items

  -- An insertion is seen at its own key and at no other.
  pub lookup-insert :
      (m : PageMap V) (page : ℕ) (item : V) (q : ℕ)
      → lookup q (insert page item m) ≡ (if page == q then some item else lookup q m)
  unfolding lookup insert
  lookup-insert ((first, kept) ∷ later) page item q =
      ground (arith, lookup-insert later page item q)
  lookup-insert [] page item q = refl

  abbrev pub Above : ℕ → PageMap V → Type 0
  Above k m = All (λ (e : ℕ × V). k < e.0) m

  abbrev pub IsSorted : PageMap V → Type 0
  IsSorted [] = Unit
  IsSorted ((k, v) ∷ m) = Above k m × IsSorted m

  pub All-insert {κ} :
      (P : ℕ × V → Type κ) (k : ℕ) (v : V) (m : PageMap V)
      → P (k, v)
      → All P m
      → All P (insert k v m)
  unfolding insert
  All-insert P k v [] h hs = (h, tt)
  All-insert P k v ((j, w) ∷ m) h (hj, hs) = elim (Bool-cases (ltb k j)) [
    | inl y ↦ rw y (h, (hj, hs))
    | inr n ↦ elim (Bool-cases (k == j)) [
      | inl e ↦ rw (n, e) (h, hs)
      | inr d ↦ rw (n, d) (hj, All-insert P k v m h hs)
    ]
  ]

  pub All-map {κ μ} :
      {P : ℕ × V → Type κ} {Q : ℕ × V → Type μ} (m : PageMap V)
      → ((e : ℕ × V) → P e → Q e)
      → All P m
      → All Q m
  All-map [] f h = tt
  All-map (e ∷ m) f (h, hs) = (f e h, All-map m f hs)

  -- Insertion keeps the order of the keys, and so that each is there once.
  pub insert-IsSorted : (k : ℕ) (v : V) (m : PageMap V) → IsSorted m → IsSorted (insert k v m)
  unfolding insert
  insert-IsSorted k v [] h = (tt, tt)
  insert-IsSorted k v ((j, w) ∷ m) (above, h) = elim (Bool-cases (ltb k j)) [
    | inl y ↦
        let lt : k < j = ground arith in
        rw y ((lt, All-map m (λ e (l : j < e.0). omega arith) above), (above, h))
    | inr n ↦ elim (Bool-cases (k == j)) [
      | inl e ↦ let same : k ≡ j = ground arith in rw (n, e) (rw same above, h)
      | inr d ↦
          rw (n, d)
            (
              All-insert (λ (e : ℕ × V). j < e.0) k v m (ground arith) above,
              insert-IsSorted k v m h,
            )
    ]
  ]
