-- ===== src/Tests/Commits.antt =====
-- The theorems on logs, commits and transactions at concrete inputs.
use embedmind.Prelude.{
  ℕ, ◌+◌, ◌^◌, ◌<◌, ◌≡◌, ◌≢◌, ◌⊎◌, ◌↔◌, refl, none, sym, ◌∙◌, true, some, [], ◌∷◌, append-nil,
  length, length-append, replicate, length-replicate, take, All, arith, ◌==◌, if◌then◌else◌,
}
use embedmind.Error.{Error, ok, err, io, crash}
use embedmind.Bytes.{Bytes, bytes_eq}
use embedmind.Format.{stamp_page_checksum, page_checksum_is_valid}
use embedmind.Format.Header.Fields.{IsHeader}
use embedmind.Format.Header.Laws.{header_page, length-header_page}
use embedmind.Format.WalFrame.{encode_wal_header}
use embedmind.Format.WalFrame.Laws.{length-encode_wal_header}
use embedmind.PageMap.{PageMap, insert}
use embedmind.Vfs.Files.{find}
use embedmind.Wal.{RecoveredWal, scan}
use embedmind.Wal.Total.{InFile, scan_total}
use embedmind.Wal.Frames.{log_bytes}
use embedmind.Wal.Txns.{LogTxn, pages, image_offsets, committed_within, size_of}
use embedmind.Wal.Durability.{log_file, IsTxn, IsPage, scan-cut}
use embedmind.Wal.Log.{length-log_file, last_bytes}
use embedmind.Wal.Append.{append_txn}
use embedmind.Wal.Atomic.{Holds, IsReady, Done}
use embedmind.Wal.Recovery.{Recovers, append_txn-atomic}
use embedmind.Pager.{wal_of, committed_header, stamp_embedding, is_empty, commit_txn}
use embedmind.Pager.Appended.{commit_record, record_of, commit_record-IsTxn}
use embedmind.Pager.Commit.{CommitOutcome, commit_txn-atomic}
use embedmind.Pager.Failure.{Refuses, new_page, commit_txn_fails}
use embedmind.Pager.Txn
use embedmind.Pager.Txn.{no_pending}
use embedmind.Pager.Txn.Laws.{
  read_page-write_page, write_page-accepts, allocate_page-fresh, IsWorking, write_page-IsWorking,
  allocate_page-IsWorking,
}
use embedmind.Tests.{
  xxh, small_header, generation_header, generation_header-IsWalHeader, log_data, small_store,
  small_header-IsHeader,
}

abbrev page_of : ℕ → Bytes
page_of b = replicate 512 b

abbrev two_pages : LogTxn
two_pages = record { txn_id = 4; first = (1, page_of 5); others = (0, page_of 6) ∷ [] }

two_pages-IsTxn : IsTxn 512 two_pages
two_pages-IsTxn = record {
  txn_id_lt = omega arith;
  pages_ok = (
    (omega arith, length-replicate {A = ℕ} 512 5),
    ((omega arith, length-replicate {A = ℕ} 512 6), tt),
  );
}

two_pages_fit : length (log_file xxh generation_header (two_pages ∷ [])) < 2 ^ 64
unfolding size_of
two_pages_fit =
    let len = length-log_file xxh generation_header (two_pages ∷ []) (two_pages-IsTxn, tt) in
    rw len (omega arith)

store-IsReady : IsReady (wal_of small_store) (log_file xxh generation_header [])
unfolding find bytes_eq log_file log_bytes
store-IsReady = record {
  holds = record {
    d = log_data;
    found = refl;
    content = sym (append-nil (encode_wal_header generation_header));
  };
  len = sym (
      length-append (encode_wal_header generation_header) []
      ∙ rw (length-encode_wal_header generation_header) refl);
  no_tear = refl;
}

-- A cut in the middle of the second frame.
scan-cut_example :
    scan xxh (take (32 + 600) (log_file xxh generation_header (two_pages ∷ [])))
    ≡ ok (
        some
          (record { page_size = 512; committed = committed_within 544 600 32 (two_pages ∷ []) [] }))
scan-cut_example =
    scan-cut xxh generation_header (two_pages ∷ []) 600 generation_header-IsWalHeader
      (two_pages-IsTxn, tt) two_pages_fit

append_txn-atomic_example :
    (bs : Bytes) × Holds (append_txn xxh 9 4 (pages two_pages) (wal_of small_store)).1 bs
    × ((((append_txn xxh 9 4 (pages two_pages) (wal_of small_store)).0
            ≡ ok (image_offsets 544 (length (log_file xxh generation_header [])) (pages two_pages)))
          × Recovers xxh generation_header (two_pages ∷ []) bs
          × Done
              (wal_of small_store)
              (append_txn xxh 9 4 (pages two_pages) (wal_of small_store)).1
              (log_file xxh generation_header [])
              (last_bytes xxh generation_header two_pages))
        ⊎ (((append_txn xxh 9 4 (pages two_pages) (wal_of small_store)).0 ≡ err (io crash))
            × (Recovers xxh generation_header (two_pages ∷ []) bs
                ⊎ Recovers xxh generation_header [] bs)))
append_txn-atomic_example =
    append_txn-atomic xxh generation_header [] two_pages generation_header-IsWalHeader tt
      two_pages-IsTxn two_pages_fit 9 (wal_of small_store) store-IsReady refl refl

abbrev one_dirty : PageMap Bytes
one_dirty = (1, page_of 5) ∷ []

committed_header-IsHeader : IsHeader (committed_header small_header 2 no_pending)
unfolding committed_header stamp_embedding
committed_header-IsHeader = small_header-IsHeader 2 4 (omega arith) (omega arith) (omega arith)

one_dirty_ok : All (IsPage 512) one_dirty
one_dirty_ok = ((omega arith, length-replicate {A = ℕ} 512 5), tt)

new_record-IsTxn : IsTxn 512 (record_of xxh (committed_header small_header 2 no_pending) one_dirty)
unfolding committed_header stamp_embedding
new_record-IsTxn =
    commit_record-IsTxn 512 4 one_dirty
      (header_page xxh (record small_header { page_count = 2; txn_counter = 4 })) (omega arith)
      one_dirty_ok
      (length-header_page xxh (record small_header { page_count = 2; txn_counter = 4 }))

new_log-length :
    length (
      log_file xxh generation_header
        (record_of xxh (committed_header small_header 2 no_pending) one_dirty ∷ []))
    ≡ 1120
unfolding size_of commit_record
new_log-length =
    length-log_file xxh generation_header
      (record_of xxh (committed_header small_header 2 no_pending) one_dirty ∷ [])
      (new_record-IsTxn, tt)

commit_txn-atomic_example :
    CommitOutcome xxh generation_header []
      (record_of xxh (committed_header small_header 2 no_pending) one_dirty)
      (committed_header small_header 2 no_pending)
      small_store
      (commit_txn xxh 9 one_dirty 2 no_pending small_store)
unfolding is_empty
commit_txn-atomic_example =
    commit_txn-atomic xxh generation_header [] 9 2 one_dirty no_pending small_store
      generation_header-IsWalHeader tt one_dirty_ok committed_header-IsHeader refl
      (rw new_log-length (omega arith)) refl refl store-IsReady refl refl

-- A commit in which an armed crash fires, and a commit after that.
commit_txn_fails_example :
    ((n : ℕ) × ((commit_txn xxh 9 one_dirty 2 no_pending small_store).0 ≡ ok n))
    ⊎ (((e : Error) × (new_page xxh 2 no_pending small_store ≡ err e)
          × (commit_txn xxh 9 one_dirty 2 no_pending small_store ≡ (err e, small_store)))
        ⊎ ((e : Error) × ((commit_txn xxh 9 one_dirty 2 no_pending small_store).0 ≡ err e)
            × Refuses xxh 1 9 one_dirty 2 no_pending
                (commit_txn xxh 9 one_dirty 2 no_pending small_store).1))
commit_txn_fails_example =
    commit_txn_fails xxh 9 2 one_dirty no_pending small_store 1 9 2 one_dirty no_pending

-- A transaction over the pages of `small_store`.
abbrev open_txn : Txn.Txn
open_txn = record { dirty = []; page_count = 2; pending = no_pending }

abbrev written : Txn.Txn
written = record {
  dirty = (1, stamp_page_checksum xxh (page_of 5)) ∷ [];
  page_count = 2;
  pending = no_pending;
}

open_txn-IsWorking : IsWorking xxh 512 open_txn
open_txn-IsWorking = record { count_pos = omega arith; buffered = tt; sorted = tt }

read_page-write_page_example : Txn.read_page xxh written 1 small_store ≡ (
    if 1 == 1
    then (ok (stamp_page_checksum xxh (page_of 5)), small_store)
    else Txn.read_page xxh open_txn 1 small_store)
unfolding Txn.write_page insert
read_page-write_page_example =
    read_page-write_page xxh 512 1 1 (page_of 5) open_txn written small_store refl

write_page-accepts_example :
    (((Txn.write_page xxh 512 0 (page_of 5) open_txn).0 ≡ ok tt)
      ↔ ((length (page_of 5) ≡ 512) × (◌≢◌ {A = ℕ} 0 0) × (0 < 2)))
    × (((Txn.write_page xxh 512 0 (page_of 5) open_txn).0 ≡ ok tt)
        ⊎ ((Txn.write_page xxh 512 0 (page_of 5) open_txn).1 ≡ open_txn))
write_page-accepts_example = write_page-accepts xxh 512 0 (page_of 5) open_txn

write_page-IsWorking_example : IsWorking xxh 512 (Txn.write_page xxh 512 1 (page_of 5) open_txn).1
write_page-IsWorking_example =
    write_page-IsWorking xxh 512 1 (page_of 5) open_txn (omega arith) open_txn-IsWorking

allocate_page-IsWorking_example : IsWorking xxh 512 (Txn.allocate_page xxh 512 open_txn).1
allocate_page-IsWorking_example =
    allocate_page-IsWorking xxh 512 open_txn (omega arith) open_txn-IsWorking

abbrev grown_txn : Txn.Txn
grown_txn = record {
  dirty = (2, stamp_page_checksum xxh (page_of 0)) ∷ [];
  page_count = 3;
  pending = no_pending;
}

allocate_page-fresh_example :
    (◌≡◌ {A = ℕ} 2 2)
    × (◌≡◌ {A = ℕ} 3 (2 + 1))
    × (Txn.read_page xxh grown_txn 2 small_store
        ≡ (ok (stamp_page_checksum xxh (page_of 0)), small_store))
    × (page_checksum_is_valid xxh (stamp_page_checksum xxh (page_of 0)) ≡ true)
unfolding Txn.allocate_page insert
allocate_page-fresh_example =
    allocate_page-fresh xxh 512 2 open_txn grown_txn small_store (omega arith) refl

-- Bytes that are no log.
scan_total_example :
    (scan xxh (replicate 40 1) ≡ ok none)
    ⊎ ((r : RecoveredWal) × (scan xxh (replicate 40 1) ≡ ok (some r))
        × All (InFile (replicate 40 1) r.page_size) r.committed)
scan_total_example = scan_total xxh (replicate 40 1)
