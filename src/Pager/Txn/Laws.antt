-- ===== src/Pager/Txn/Laws.antt =====
-- A transaction sees its own writes, leaves the others, and buffers only stamped pages in range.
use embedmind.Prelude.{
  ℕ, ◌+◌, ◌^◌, ◌≤◌, ◌<◌, ◌≡◌, ◌≢◌, ◌∙◌, ◌↔◌, ◌⊎◌, inl, inr, true, length, replicate,
  length-replicate, All, arith, leb, ltb, ◌==◌, if◌then◌else◌, Bool-cases,
}
use embedmind.Error.{ok}
use embedmind.Bytes.{Bytes}
use embedmind.Format.{Xxh3, stamp_page_checksum, page_checksum_is_valid}
use embedmind.Format.Checksum.{length-stamp, checksum_is_valid-stamp}
use embedmind.PageMap.{lookup-insert, IsSorted, All-insert, All-map, insert-IsSorted}
use embedmind.Pager.{Store}
use embedmind.Pager.Txn.{Txn, allocate_page, write_page, read_page}

-- Within a transaction, a successful write is what a later read of the page returns, with the
-- checksum stamped, and reads of the other pages are as they were.
pub read_page-write_page :
    (x : Xxh3) (page_size p q : ℕ) (bytes : Bytes) (t t' : Txn) (s : Store)
    → write_page x page_size p bytes t ≡ (ok tt, t')
    → read_page x t' q s
      ≡ (if p == q then (ok (stamp_page_checksum x bytes), s) else read_page x t q s)
unfolding read_page write_page
read_page-write_page x page_size p q bytes t t' s e =
    ground (arith, lookup-insert t.dirty p (stamp_page_checksum x bytes) q)

-- A write is accepted exactly if it is of one page, not of the header, and within the transaction's
-- page count; a write that is not accepted changes nothing.
pub write_page-accepts :
    (x : Xxh3) (page_size p : ℕ) (bytes : Bytes) (t : Txn)
    → (((write_page x page_size p bytes t).0 ≡ ok tt)
        ↔ ((length bytes ≡ page_size) × (p ≢ 0) × (p < t.page_count)))
      × (((write_page x page_size p bytes t).0 ≡ ok tt)
          ⊎ ((write_page x page_size p bytes t).1 ≡ t))
unfolding write_page
write_page-accepts x page_size p bytes t = ((ground arith, ground arith), ground arith)

-- For pages of at least 8 bytes, an allocation that succeeds returns the old page count and raises
-- the count by one; the new page then reads as a stamped page of zeros, and passes its check.
pub allocate_page-fresh :
    (x : Xxh3) (page_size p : ℕ) (t t' : Txn) (s : Store)
    → 8 ≤ page_size
    → allocate_page x page_size t ≡ (ok p, t')
    → (p ≡ t.page_count)
      × (t'.page_count ≡ t.page_count + 1)
      × (read_page x t' p s ≡ (ok (stamp_page_checksum x (replicate page_size 0)), s))
      × (page_checksum_is_valid x (stamp_page_checksum x (replicate page_size 0)) ≡ true)
unfolding read_page allocate_page
allocate_page-fresh x page_size p t t' s h e =
    let zeros : Bytes = replicate page_size 0 in
    let found = lookup-insert t.dirty p (stamp_page_checksum x zeros) p in
    (
      ground arith,
      ground arith,
      ground (arith, found),
      checksum_is_valid-stamp x zeros (omega (arith, length-replicate {A = ℕ} page_size 0)),
    )

-- A buffered page: not the header, within the page count, of one page, with a valid checksum.
abbrev pub IsBuffered : Xxh3 → ℕ → ℕ → ℕ × Bytes → Type 0
IsBuffered x page_size page_count e =
    (0 < e.0)
    × (e.0 < page_count)
    × (length e.1 ≡ page_size)
    × (page_checksum_is_valid x e.1 ≡ true)

-- The invariant of a transaction over pages of `page_size` bytes.
pub record IsWorking (x : Xxh3) (page_size : ℕ) (t : Txn) : Type 0 where
  pub count_pos : 0 < t.page_count
  pub buffered : All (IsBuffered x page_size t.page_count) t.dirty
  pub sorted : IsSorted t.dirty

-- For pages of at least 8 bytes, a write keeps the invariant of the transaction, whether it is
-- accepted or not: every buffered page is behind the header, within the page count, one page long
-- and stamped, and the pages are in key order.
pub write_page-IsWorking :
    (x : Xxh3) (page_size p : ℕ) (bytes : Bytes) (t : Txn)
    → 8 ≤ page_size
    → IsWorking x page_size t
    → IsWorking x page_size (write_page x page_size p bytes t).1
unfolding write_page
write_page-IsWorking x page_size p bytes t h w = elim (Bool-cases (length bytes == page_size)) [
  | inr n ↦ rw n w
  | inl y ↦ elim (Bool-cases (p == 0)) [
    | inl z ↦ rw (y, z) w
    | inr nz ↦ elim (Bool-cases (ltb p t.page_count)) [
      | inr out ↦ rw (y, nz, out) w
      | inl inside ↦
          let page = stamp_page_checksum x bytes in
          let len : length bytes ≡ page_size = ground arith in
          rw (y, nz, inside)
            (record {
              count_pos = w.count_pos;
              buffered =
                  All-insert (IsBuffered x page_size t.page_count) p page t.dirty
                    (
                      ground arith,
                      ground arith,
                      length-stamp x bytes ∙ len,
                      checksum_is_valid-stamp x bytes (omega arith),
                    )
                    w.buffered;
              sorted = insert-IsSorted p page t.dirty w.sorted;
            })
    ]
  ]
]

-- For pages of at least 8 bytes, an allocation keeps the same invariant, whether it succeeds or
-- not.
pub allocate_page-IsWorking :
    (x : Xxh3) (page_size : ℕ) (t : Txn)
    → 8 ≤ page_size
    → IsWorking x page_size t
    → IsWorking x page_size (allocate_page x page_size t).1
unfolding allocate_page
allocate_page-IsWorking x page_size t h w = elim (Bool-cases (leb (2 ^ 64) (t.page_count + 1))) [
  | inl full ↦ rw full w
  | inr free ↦
      let zeros : Bytes = replicate page_size 0 in
      let page = stamp_page_checksum x zeros in
      let lz = length-replicate {A = ℕ} page_size 0 in
      rw free (record {
        count_pos = omega arith;
        buffered =
            All-insert (IsBuffered x page_size (t.page_count + 1)) t.page_count page t.dirty
              (
                w.count_pos,
                omega arith,
                length-stamp x zeros ∙ lz,
                checksum_is_valid-stamp x zeros (omega (arith, lz)),
              )
              (All-map t.dirty (λ e b. (b.0, omega (arith, b.1), b.2, b.3)) w.buffered);
        sorted = insert-IsSorted t.page_count page t.dirty w.sorted;
      })
]
