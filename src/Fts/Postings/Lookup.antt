-- ===== src/Fts/Postings/Lookup.antt =====
-- crates/embedmind-core/src/index/fts.rs: the order among the parts of a sorted list, for the
-- search of one block in place of the list.
use embedmind.Prelude.{
  ℕ, zero, suc, ◌+◌, ◌*◌, ◌<◌, ◌≤◌, ◌≡◌, inl, inr, refl, sym, ap, ◌∙◌, List, [], ◌∷◌, length, take,
  drop, drop-drop, take-append-drop, All, arith,
}
use embedmind.Fts.{Posting}
use embedmind.Fts.Runs.Sorted.{Valid, IsSorted}
use embedmind.Fts.Postings.{first_id}
use embedmind.Fts.Postings.Skip.{term_freq_in}
use embedmind.Fts.Postings.Nth.{nth_block}
use embedmind.Fts.Postings.Search.{term_freq_in-front, term_freq_in-back}

-- Order among the parts of a sorted list.
prev_lt_first :
    (n i prev : ℕ) (ps : List Posting)
    → Valid (suc i) prev ps
    → n < length ps
    → prev < first_id (drop n ps)
prev_lt_first n i prev [] v h = absurd (omega arith)
prev_lt_first n i prev (p ∷ ps) (inl (a, b), c, d, e, rest) h = absurd (omega arith)
prev_lt_first zero i prev (p ∷ ps) (inr (a, b), c, d, e, rest) h = b
prev_lt_first (suc n) i prev (p ∷ ps) (inr (a, b), c, d, e, rest) h =
    omega (arith, prev_lt_first n (suc i) p.record_id ps rest (omega arith))

pub first_id-drop_le :
    (m n i prev : ℕ) (ps : List Posting)
    → Valid i prev ps
    → m ≤ n
    → n < length ps
    → first_id (drop m ps) ≤ first_id (drop n ps)
first_id-drop_le m n i prev [] v le h = absurd (omega arith)
first_id-drop_le zero zero i prev (p ∷ ps) v le h = omega arith
first_id-drop_le zero (suc n) i prev (p ∷ ps) (a, c, d, e, rest) le h =
    omega (arith, prev_lt_first n i p.record_id ps rest (omega arith))
first_id-drop_le (suc m) zero i prev (p ∷ ps) v le h = absurd (omega arith)
first_id-drop_le (suc m) (suc n) i prev (p ∷ ps) (a, c, d, e, rest) le h =
    first_id-drop_le m n (suc i) p.record_id ps rest (omega arith) (omega arith)

take_below :
    (n i prev target : ℕ) (ps : List Posting)
    → Valid i prev ps
    → n < length ps
    → first_id (drop n ps) ≤ target
    → All (λ (p : Posting). p.record_id < target) (take n ps)
take_below zero i prev target ps v h le = tt
take_below (suc n) i prev target [] v h le = tt
take_below (suc n) i prev target (p ∷ ps) (a, c, d, e, rest) h le = (
  omega (arith, prev_lt_first n i p.record_id ps rest (omega arith)),
  take_below n (suc i) p.record_id target ps rest (omega arith) le,
)

all_above :
    (i prev target : ℕ) (ps : List Posting)
    → Valid (suc i) prev ps
    → target ≤ prev
    → All (λ (p : Posting). target < p.record_id) ps
all_above i prev target [] v h = tt
all_above i prev target (p ∷ ps) (inl (a, b), c, d, e, rest) h = absurd (omega arith)
all_above i prev target (p ∷ ps) (inr (a, b), c, d, e, rest) h =
    (omega arith, all_above (suc i) p.record_id target ps rest (omega arith))

pub drop_above :
    (n i prev target : ℕ) (ps : List Posting)
    → Valid i prev ps
    → (n < length ps → target < first_id (drop n ps))
    → All (λ (p : Posting). target < p.record_id) (drop n ps)
drop_above zero i prev target [] v h = tt
drop_above (suc n) i prev target [] v h = tt
drop_above zero i prev target (p ∷ ps) (a, c, d, e, rest) h =
    let lt : target < p.record_id = h (omega arith) in
    (lt, all_above i p.record_id target ps rest (omega arith))
drop_above (suc n) i prev target (p ∷ ps) (a, c, d, e, rest) h =
    drop_above n (suc i) p.record_id target ps rest (λ s. h (omega arith))

-- A target between the first identifiers of a block and of the next is in that block or nowhere.
pub in_block :
    (b target : ℕ) (ps : List Posting)
    → IsSorted ps
    → b * 128 < length ps
    → first_id (drop (b * 128) ps) ≤ target
    → (suc b * 128 < length ps → target < first_id (drop (suc b * 128) ps))
    → term_freq_in target (nth_block b ps) ≡ term_freq_in target ps
in_block b target ps sorted here low high =
    let front = take (b * 128) ps in
    let behind = drop (b * 128) ps in
    let block = take 128 behind in
    let rest = drop 128 behind in
    let e : b * 128 + 128 ≡ suc b * 128 = omega arith in
    let rest_eq : rest ≡ drop (suc b * 128) ps = drop-drop 128 (b * 128) ps ∙ rw e refl in
    let above : All (λ (p : Posting). target < p.record_id) rest =
      rw rest_eq (drop_above (suc b * 128) 0 0 target ps sorted high) in
    let back = term_freq_in-back target block rest above in
    let first =
      term_freq_in-front target front behind (take_below (b * 128) 0 0 target ps sorted here low) in
    sym back
    ∙ ap (λ t. term_freq_in target t) (take-append-drop 128 behind)
    ∙ sym first
    ∙ ap (λ t. term_freq_in target t) (take-append-drop (b * 128) ps)
