-- ===== src/Pager/Failure.antt =====
-- crates/embedmind-core/src/storage/pager.rs, `commit_txn` and `checkpoint`: the ways in which they
-- fail, and the pager after that.
use mathlib.Core.Path.{subst}
use embedmind.Prelude.{
  ℕ, ◌≡◌, refl, sym, ◌⊎◌, inl, inr, Bool, true, false, ◌&&◌, Bool-cases, List, replicate, leb, ◌==◌,
}
use embedmind.Error.{Error, Result, ok, err, io, failed_state}
use embedmind.Effect.{continue, pure, ◌>>=◌}
use embedmind.Bytes.{Bytes}
use embedmind.Format.{Xxh3}
use embedmind.Format.Header
use embedmind.PageMap.{PageMap}
use embedmind.Pager.{
  Store, PendingHeader, is_empty, pending_is_empty, ensure_usable, committed_header, after_append,
  checkpoint_if, checkpoint, checkpoint_inner, commit_txn, read_page, break_on_error,
}
use embedmind.Pager.Txn.{begin}
use embedmind.Pager.Commit.{usable-ok, commit_txn-append}

-- A pager that refuses these calls and keeps its state.
abbrev pub Refuses : Xxh3 → ℕ → ℕ → PageMap Bytes → ℕ → PendingHeader → Store → Type 0
Refuses x page_no fresh dirty count pending s =
    (read_page x page_no s ≡ (err (io failed_state), s))
    × (commit_txn x fresh dirty count pending s ≡ (err (io failed_state), s))
    × (checkpoint s ≡ (err (io failed_state), s))
    × (begin s ≡ (err (io failed_state), s))

broken-Refuses :
    (x : Xxh3) (page_no fresh : ℕ) (dirty : PageMap Bytes) (count : ℕ) (pending : PendingHeader)
    (s : Store)
    → s.pager.broken ≡ true
    → Refuses x page_no fresh dirty count pending s
unfolding read_page commit_txn checkpoint begin ensure_usable
broken-Refuses x page_no fresh dirty count pending s e = rw e (refl, refl, refl, refl)

-- A call that succeeded, or that failed and left an unusable pager.
abbrev OkOrBroken : {A : Type 0} → Result A × Store → Type 0
OkOrBroken {A} r =
    ((a : A) × (r.0 ≡ ok a)) ⊎ ((e : Error) × (r.0 ≡ err e) × (r.1.pager.broken ≡ true))

break_on_error-OkOrBroken : (r : Result (Unit {0})) (s : Store) → OkOrBroken (break_on_error r s)
unfolding break_on_error
break_on_error-OkOrBroken (ok u) s = inl (u, refl)
break_on_error-OkOrBroken (err e) s = inr (e, refl, refl)

broken-OkOrBroken : (s : Store) → s.pager.broken ≡ true → OkOrBroken (checkpoint s)
unfolding checkpoint ensure_usable
broken-OkOrBroken s broken = rw broken (inr (io failed_state, refl, refl))

checkpoint-OkOrBroken : (s : Store) → OkOrBroken (checkpoint s)
unfolding checkpoint
checkpoint-OkOrBroken s = elim (Bool-cases s.pager.broken) [
  | inl broken ↦ broken-OkOrBroken s broken
  | inr usable ↦ elim (Bool-cases (is_empty s.pager.wal_index && s.pager.wal.len == 0)) [
    | inl nothing ↦ rw (usable-ok s usable, nothing) (inl (tt, refl))
    | inr work ↦
        rw (usable-ok s usable, work)
          (break_on_error-OkOrBroken (checkpoint_inner s).0 (checkpoint_inner s).1)
  ]
]

-- What `commit_txn` does after its append, as in `commit_txn`.
append_end :
    (count : ℕ) (b : Bool) (s : Store) → OkOrBroken ((checkpoint_if b >>= λ u. pure count) s)
unfolding checkpoint_if
append_end count false s = inl (count, refl)
append_end count true s = passed (checkpoint s) (checkpoint-OkOrBroken s)
  where
    passed :
        (r : Result (Unit {0}) × Store)
        → OkOrBroken r
        → OkOrBroken ((continue r.0 (λ u. pure count)) r.1)
    passed (ok u, s) h = inl (count, refl)
    passed (err e, s) (inl (a, h)) = cc
    passed (err e, s) (inr (f, h, b)) = inr (e, refl, b)

after_append-OkOrBroken :
    (new : Header.Header) (r : Result (List (ℕ × ℕ))) (s : Store)
    → OkOrBroken (
        (after_append new r >>= λ u. (λ (now : Store).
            (checkpoint_if (leb now.pager.checkpoint_threshold now.pager.wal.len) >>= λ v.
            pure new.txn_counter)
              now))
          s)
unfolding after_append
after_append-OkOrBroken new (ok offsets) s = append_end new.txn_counter _ _
after_append-OkOrBroken new (err e) s = inr (e, refl, refl)

-- The header page that a commit of these writes.
abbrev pub new_page : Xxh3 → ℕ → PendingHeader → Store → Result Bytes
new_page x count pending s =
    Header.encode x (committed_header s.pager.header count pending)
      (replicate s.pager.header.page_size 0)

commit_end :
    (x : Xxh3) (fresh count : ℕ) (dirty : PageMap Bytes) (pending : PendingHeader) (s : Store)
    (page0 : Result Bytes)
    → s.pager.broken ≡ false
    → (is_empty dirty && (count == s.pager.header.page_count && pending_is_empty pending)) ≡ false
    → new_page x count pending s ≡ page0
    → ((e : Error) × (new_page x count pending s ≡ err e)
        × (commit_txn x fresh dirty count pending s ≡ (err e, s)))
      ⊎ OkOrBroken (commit_txn x fresh dirty count pending s)
unfolding commit_txn ensure_usable
commit_end x fresh count dirty pending s (err e) usable work enc =
    inl (e, enc, rw (usable, work, enc) refl)
commit_end x fresh count dirty pending s (ok page0) usable work enc =
    let same = commit_txn-append x fresh count dirty pending s page0 _ usable work enc refl in
    inr (
      subst (λ (r : Result ℕ × Store). OkOrBroken r) (sym same)
        (after_append-OkOrBroken (committed_header s.pager.header count pending) _ _))

commit_cases :
    (x : Xxh3) (fresh count : ℕ) (dirty : PageMap Bytes) (pending : PendingHeader) (s : Store)
    → ((e : Error) × (new_page x count pending s ≡ err e)
        × (commit_txn x fresh dirty count pending s ≡ (err e, s)))
      ⊎ OkOrBroken (commit_txn x fresh dirty count pending s)
unfolding commit_txn ensure_usable
commit_cases x fresh count dirty pending s = elim (Bool-cases s.pager.broken) [
  | inl broken ↦ inr (inr (io failed_state, rw broken refl, rw broken refl))
  | inr usable ↦
      elim (Bool-cases
        (is_empty dirty && (count == s.pager.header.page_count && pending_is_empty pending))) [
          | inl nothing ↦ inr (inl (s.pager.header.txn_counter, rw (usable, nothing) refl))
          | inr work ↦ commit_end x fresh count dirty pending s _ usable work refl
        ]
]

-- However a commit ends, one of three holds: it returns a counter; or the new header could not be
-- written, and the commit fails with that error and changes nothing; or it fails, and from then on
-- the pager refuses every read, commit, checkpoint and new transaction, which change nothing.
pub commit_txn_fails :
    (x : Xxh3) (fresh count : ℕ) (dirty : PageMap Bytes) (pending : PendingHeader) (s : Store)
    (page_no later_fresh later_count : ℕ) (later_dirty : PageMap Bytes)
    (later_pending : PendingHeader)
    → ((n : ℕ) × ((commit_txn x fresh dirty count pending s).0 ≡ ok n))
      ⊎ (((e : Error) × (new_page x count pending s ≡ err e)
            × (commit_txn x fresh dirty count pending s ≡ (err e, s)))
          ⊎ ((e : Error) × ((commit_txn x fresh dirty count pending s).0 ≡ err e)
              × Refuses x page_no later_fresh later_dirty later_count later_pending
                  (commit_txn x fresh dirty count pending s).1))
commit_txn_fails x fresh count dirty pending s page_no later_fresh later_count later_dirty
      later_pending =
    elim (commit_cases x fresh count dirty pending s) [
      | inl unwritten ↦ inr (inl unwritten)
      | inr (inl done) ↦ inl done
      | inr (inr (e, failed, broken)) ↦ inr (
          inr (
            e,
            failed,
            broken-Refuses x page_no later_fresh later_dirty later_count later_pending _ broken,
          ))
    ]
