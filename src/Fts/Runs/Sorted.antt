-- ===== src/Fts/Runs/Sorted.antt =====
-- crates/embedmind-core/src/index/fts.rs: the lists that a run holds, strictly ascending with term
-- frequencies of 32 bits above 0, and the two checks of a round at such an entry.
use embedmind.Prelude.{
  ℕ, zero, suc, ◌+◌, ◌-◌, ◌^◌, ◌<◌, ◌≤◌, ◌≡◌, ◌⊎◌, inl, inr, refl, List, [], ◌∷◌, take, drop, arith,
}
use embedmind.Error.{ok}
use embedmind.Fts.{Posting}
use embedmind.Fts.Runs.{wrapping_sub, next_id, term_freq_of}

-- The first entry of a run stands behind nothing, each other one behind a smaller identifier.
abbrev pub Steps : ℕ → ℕ → ℕ → Type 0
Steps i prev id = ((i ≡ 0) × (prev ≡ 0)) ⊎ ((0 < i) × (prev < id))

abbrev pub Valid : ℕ → ℕ → List Posting → Type 0
Valid i prev [] = Unit
Valid i prev (p ∷ ps) =
    Steps i prev p.record_id
    × (p.record_id < 2 ^ 128)
    × (0 < p.term_freq)
    × (p.term_freq < 2 ^ 32)
    × Valid (suc i) p.record_id ps

abbrev pub IsSorted : List Posting → Type 0
IsSorted ps = Valid 0 0 ps

pub Steps-le : (i prev id : ℕ) → Steps i prev id → prev ≤ id
Steps-le i prev id (inl (a, b)) = omega arith
Steps-le i prev id (inr (a, b)) = omega arith

pub wrapping_sub_lem :
    (i prev id : ℕ) → Steps i prev id → id < 2 ^ 128 → wrapping_sub id prev ≡ id - prev
unfolding wrapping_sub
wrapping_sub_lem i prev id s lt = omega (arith, Steps-le i prev id s)

pub next_id-wrapping_sub :
    (page_no i prev id : ℕ)
    → Steps i prev id
    → id < 2 ^ 128
    → next_id page_no i prev (wrapping_sub id prev) ≡ ok id
unfolding next_id
next_id-wrapping_sub page_no i prev id (inl (a, b)) lt =
    rw (wrapping_sub_lem i prev id (inl (a, b)) lt) (ground arith)
next_id-wrapping_sub page_no i prev id (inr (a, b)) lt =
    rw (wrapping_sub_lem i prev id (inr (a, b)) lt) (ground arith)

pub term_freq_of_lem : (page_no tf : ℕ) → 0 < tf → tf < 2 ^ 32 → term_freq_of page_no tf ≡ ok tf
unfolding term_freq_of
term_freq_of_lem page_no tf pos lt = ground arith

-- The place of an entry counts only in whether it is the first.
pub renumber : (i j prev : ℕ) (ps : List Posting) → Valid (suc i) prev ps → Valid (suc j) prev ps
renumber i j prev [] v = tt
renumber i j prev (p ∷ ps) (inl (a, b), c, d, e, rest) = absurd (omega arith)
renumber i j prev (p ∷ ps) (inr (a, b), c, d, e, rest) =
    (inr (omega arith, b), c, d, e, renumber (suc i) (suc j) p.record_id ps rest)

-- A part of a list that follows others is a list of its own.
pub Valid-IsSorted : (i prev : ℕ) (ps : List Posting) → Valid i prev ps → IsSorted ps
Valid-IsSorted i prev [] v = tt
Valid-IsSorted i prev (p ∷ ps) (a, c, d, e, rest) =
    (inl (refl, refl), c, d, e, renumber i 0 p.record_id ps rest)

unfoldable pub last_of : ℕ → List Posting → ℕ
last_of prev [] = prev
last_of prev (p ∷ ps) = last_of p.record_id ps

pub Valid-take : (n i prev : ℕ) (ps : List Posting) → Valid i prev ps → Valid i prev (take n ps)
Valid-take zero i prev ps v = tt
Valid-take (suc n) i prev [] v = tt
Valid-take (suc n) i prev (p ∷ ps) (a, c, d, e, rest) =
    (a, c, d, e, Valid-take n (suc i) p.record_id ps rest)

pub Valid-drop :
    (n i prev : ℕ) (ps : List Posting)
    → Valid i prev ps
    → Valid (i + n) (last_of prev (take n ps)) (drop n ps)
unfolding last_of
Valid-drop zero i prev ps v = let e : i + 0 ≡ i = omega arith in rw e v
Valid-drop (suc n) i prev [] v = tt
Valid-drop (suc n) i prev (p ∷ ps) (a, c, d, e, rest) =
    let eq : i + suc n ≡ suc i + n = omega arith in rw eq (Valid-drop n (suc i) p.record_id ps rest)
