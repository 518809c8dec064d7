-- ===== src/Fts/Postings/Search.antt =====
-- crates/embedmind-core/src/index/fts.rs: the binary search of `lookup_via_skip` over the index, and
-- the search of a list in parts.
use embedmind.Prelude.{
  ℕ, zero, suc, ◌+◌, ◌-◌, ◌*◌, ◌/◌, ◌<◌, ◌≤◌, ◌≡◌, inl, inr, refl, false, Bool-cases, none, List,
  [], ◌∷◌, ◌++◌, All, ltb, leb, ◌==◌, arith,
}
use embedmind.Error.{ok}
use embedmind.Bytes.{Bytes}
use embedmind.Fts.{Posting}
use embedmind.Fts.Postings.{read_u128_le}
use embedmind.Fts.Postings.Skip.{first_behind, term_freq_in}

-- `r` parts the first `n` values of `F` into those up to the target and those behind it.
pub record Parts (F : ℕ → ℕ) (n target r : ℕ) : Type 0 where
  pub within : r ≤ n
  pub upto : (b : ℕ) → b < r → F b ≤ target
  pub beyond : (b : ℕ) → r ≤ b → b < n → target < F b

module _ (body : Bytes) (page_no entry_len target n : ℕ) (F : ℕ → ℕ)
    (reads : (b : ℕ) → b < n → read_u128_le body (8 + b * entry_len) page_no ≡ ok (F b))
    (ascends : (b c : ℕ) → b ≤ c → c < n → F b ≤ F c) where
  pub first_behind-Parts :
      (fuel lo hi : ℕ)
      → lo ≤ hi
      → hi ≤ n
      → hi - lo ≤ fuel
      → ((b : ℕ) → b < lo → F b ≤ target)
      → ((b : ℕ) → hi ≤ b → b < n → target < F b)
      → (r : ℕ) × (first_behind fuel body page_no entry_len target lo hi ≡ ok r)
        × Parts F n target r
  unfolding first_behind
  first_behind-Parts zero lo hi le hn enough low high =
      let same : lo ≡ hi = omega arith in
      (
        lo,
        refl,
        record { within = omega arith; upto = low; beyond = λ b h1 h2. high b (omega arith) h2 },
      )
  first_behind-Parts (suc fuel) lo hi le hn enough low high = elim (Bool-cases (ltb lo hi)) [
    | inr done ↦ (
      lo,
      rw done refl,
      record { within = omega arith; upto = low; beyond = λ b h1 h2. high b (ground arith) h2 },
    )
    | inl more ↦
        let mid = lo + (hi - lo) / 2 in
        let narrow : lo < hi = ground arith in
        let inside : mid < n = omega arith in
        elim (Bool-cases (leb (F mid) target)) [
          | inl before ↦
              let (r, e, parts) =
                first_behind-Parts fuel (mid + 1) hi (omega arith) hn (omega arith)
                  (λ b h. let a = ascends b mid (omega arith) inside in ground arith) high in
              (r, rw (more, reads mid inside, before) e, parts)
          | inr behind ↦
              let (r, e, parts) =
                first_behind-Parts fuel lo mid (omega arith) (omega arith) (omega arith) low
                  (λ b h1 h2. let a = ascends mid b h1 h2 in ground arith) in
              (r, rw (more, reads mid inside, behind) e, parts)
        ]
  ]

pub term_freq_in-front :
    (target : ℕ) (xs ys : List Posting)
    → All (λ (p : Posting). p.record_id < target) xs
    → term_freq_in target (xs ++ ys) ≡ term_freq_in target ys
unfolding term_freq_in
term_freq_in-front target [] ys h = refl
term_freq_in-front target (p ∷ xs) ys (hp, hxs) =
    let differs : (p.record_id == target) ≡ false = ground arith in
    rw differs (term_freq_in-front target xs ys hxs)

pub term_freq_in-absent :
    (target : ℕ) (xs : List Posting)
    → All (λ (p : Posting). target < p.record_id) xs
    → term_freq_in target xs ≡ none
unfolding term_freq_in
term_freq_in-absent target [] h = refl
term_freq_in-absent target (p ∷ xs) (hp, hxs) =
    let differs : (p.record_id == target) ≡ false = ground arith in
    rw differs (term_freq_in-absent target xs hxs)

pub term_freq_in-back :
    (target : ℕ) (xs ys : List Posting)
    → All (λ (p : Posting). target < p.record_id) ys
    → term_freq_in target (xs ++ ys) ≡ term_freq_in target xs
unfolding term_freq_in
term_freq_in-back target [] ys h = term_freq_in-absent target ys h
term_freq_in-back target (p ∷ xs) ys h = ground (arith, term_freq_in-back target xs ys h)
