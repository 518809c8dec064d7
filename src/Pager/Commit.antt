-- ===== src/Pager/Commit.antt =====
-- crates/embedmind-core/src/storage/pager.rs, `commit_txn`: a commit against the list of transactions
-- in the log.
use embedmind.Prelude.{
  ℕ, ◌+◌, ◌^◌, ◌<◌, ◌≡◌, refl, sym, ◌∙◌, Bool, ◌⊎◌, inl, inr, true, false, ◌&&◌, Option, none, some,
  List, [], ◌∷◌, ◌++◌, length, replicate, length-replicate, All, arith, leb, ◌==◌, if◌then◌else◌,
}
use embedmind.Error.{Error, Result, ok, err, io, crash}
use embedmind.Effect.{pure, ◌>>=◌}
use embedmind.Bytes.{Bytes}
use embedmind.Format.{Xxh3}
use embedmind.Format.Header
use embedmind.Format.Header.{Header}
use embedmind.Format.Header.Fields.{IsHeader}
use embedmind.Format.Header.Laws.{header_page, encode-header_page, length-header_page}
use embedmind.Format.WalFrame.{WalHeader}
use embedmind.Format.WalFrame.Laws.{IsWalHeader}
use embedmind.PageMap.{PageMap, extend}
use embedmind.Wal.Txns.{LogTxn, pages, image_offsets}
use embedmind.Wal.Durability.{log_file, IsTxn, IsPage}
use embedmind.Wal.Log.{last_bytes, log_file-last}
use embedmind.Wal.Append
use embedmind.Wal.Append.{WalStore}
use embedmind.Wal.Atomic.{Holds, IsReady, Done}
use embedmind.Wal.Recovery.{Recovers, append_txn-atomic}
use embedmind.Pager.{
  Store, PendingHeader, wal_of, with_wal, is_empty, pending_is_empty, ensure_usable,
  committed_header, stamp_embedding, after_append, checkpoint_if, checkpoint, commit_txn,
  mark_broken,
}
use embedmind.Pager.Appended.{
  record_of, pages-commit_record, txn_id-commit_record, commit_record-IsTxn,
}

pub usable-ok : (s : Store) → s.pager.broken ≡ false → ensure_usable s ≡ (ok tt, s)
unfolding ensure_usable
usable-ok s e = ground arith

-- The commit goes on after its append.
pub commit_txn-append :
    (x : Xxh3) (fresh count : ℕ) (dirty : PageMap Bytes) (pending : PendingHeader) (s : Store)
    (page0 : Bytes) (r : Result (List (ℕ × ℕ)) × WalStore)
    → s.pager.broken ≡ false
    → (is_empty dirty && (count == s.pager.header.page_count && pending_is_empty pending)) ≡ false
    → Header.encode x
        (committed_header s.pager.header count pending)
        (replicate s.pager.header.page_size 0)
      ≡ ok page0
    → Append.append_txn x fresh
        (committed_header s.pager.header count pending).txn_counter
        (dirty ++ (0, page0) ∷ [])
        (wal_of s)
      ≡ r
    → commit_txn x fresh dirty count pending s
      ≡ (after_append (committed_header s.pager.header count pending) r.0 >>= λ u. (λ (now : Store).
            (checkpoint_if (leb now.pager.checkpoint_threshold now.pager.wal.len) >>= λ v.
            pure (committed_header s.pager.header count pending).txn_counter)
              now))
          (with_wal s r.1)
unfolding commit_txn
commit_txn-append x fresh count dirty pending s page0 r usable dirty_or enc app =
    rw (usable-ok s usable, dirty_or, enc, app)

-- The end of a commit in the state `now`, its log being `len` bytes long: from the checkpoint
-- threshold on, a checkpoint comes before the counter is returned.
abbrev pub ended : Header → ℕ → Store → Result ℕ × Store
ended new len now =
    if leb now.pager.checkpoint_threshold len
    then (checkpoint >>= λ u. pure new.txn_counter) now
    else (ok new.txn_counter, now)

-- A commit from the state `s0`, and the state `now` after its append, in which the bytes `log` are
-- in the log. If the append succeeded, the pager took the commit over, the log holds the new
-- transaction behind the old ones, and the commit ends from there; else a crash ended it, the
-- pager is unusable, and the log holds the old transactions, with or without the new one.
pub record CommitOutcome (x : Xxh3) (h : WalHeader) (ts : List LogTxn) (t : LogTxn) (new : Header)
    (s0 : Store) (r : Result ℕ × Store) : Type 0 where
  pub now : Store
  pub log : Bytes
  pub holds : Holds (wal_of now) log
  pub result :
      ((r ≡ ended new (length (log_file x h (ts ++ t ∷ []))) now)
        × (now.pager.header ≡ new)
        × (now.pager.wal_index
            ≡ extend s0.pager.wal_index
                (image_offsets (32 + h.page_size) (length (log_file x h ts)) (pages t)))
        × IsReady (wal_of now) (log_file x h (ts ++ t ∷ []))
        × Recovers x h (ts ++ t ∷ []) log)
      ⊎ ((r ≡ (err (io crash), now))
          × (now.pager.broken ≡ true)
          × (Recovers x h (ts ++ t ∷ []) log ⊎ Recovers x h ts log))

abbrev finish_commit : Header → Store → Result (List (ℕ × ℕ)) × WalStore → Result ℕ × Store
finish_commit new s r =
    (after_append new r.0 >>= λ u. (λ (now : Store).
        (checkpoint_if (leb now.pager.checkpoint_threshold now.pager.wal.len) >>= λ v.
        pure new.txn_counter)
          now))
      (with_wal s r.1)

abbrev taken_over : Header → Store → List (ℕ × ℕ) → WalStore → Store
taken_over new s offsets w = record (with_wal s w) {
  pager = record (with_wal s w).pager {
    header = new;
    wal_index = extend s.pager.wal_index offsets;
  };
}

checkpoint_if-ended :
    (b : Bool) (new : Header) (now : Store)
    → (checkpoint_if b >>= λ v. pure new.txn_counter) now
      ≡ (if b then (checkpoint >>= λ u. pure new.txn_counter) now else (ok new.txn_counter, now))
unfolding checkpoint_if
checkpoint_if-ended true new now = refl
checkpoint_if-ended false new now = refl

finish_commit-ok :
    (new : Header) (s : Store) (offsets : List (ℕ × ℕ)) (w : WalStore) (len : ℕ)
    → w.wal.len ≡ len
    → finish_commit new s (ok offsets, w) ≡ ended new len (taken_over new s offsets w)
unfolding after_append
finish_commit-ok new s offsets w len e = rw (sym e) (
    checkpoint_if-ended (leb s.pager.checkpoint_threshold w.wal.len) new
      (taken_over new s offsets w))

finish_commit-err :
    (new : Header) (s : Store) (e : Error) (w : WalStore)
    → finish_commit new s (err e, w) ≡ (err e, mark_broken (with_wal s w))
unfolding after_append
finish_commit-err new s e w = refl

finish_commit-outcome :
    (x : Xxh3) (h : WalHeader) (ts : List LogTxn) (t : LogTxn) (new : Header) (s : Store)
    (r : Result (List (ℕ × ℕ)) × WalStore)
    → (bs : Bytes) × Holds r.1 bs
      × (((r.0 ≡ ok (image_offsets (32 + h.page_size) (length (log_file x h ts)) (pages t)))
            × Recovers x h (ts ++ t ∷ []) bs
            × Done (wal_of s) r.1 (log_file x h ts) (last_bytes x h t))
          ⊎ ((r.0 ≡ err (io crash)) × (Recovers x h (ts ++ t ∷ []) bs ⊎ Recovers x h ts bs)))
    → CommitOutcome x h ts t new s (finish_commit new s r)
finish_commit-outcome x h ts t new s r (bs, holds, inl (e, found, done)) =
    let whole = log_file-last x h ts t in
    let ready : IsReady r.1 (log_file x h (ts ++ t ∷ [])) = rw whole done.ready in
    rw e (record {
      now =
          taken_over new s (image_offsets (32 + h.page_size) (length (log_file x h ts)) (pages t))
            r.1;
      log = bs;
      holds = holds;
      result = inl (finish_commit-ok new s _ r.1 _ ready.len, refl, refl, ready, found);
    })
finish_commit-outcome x h ts t new s r (bs, holds, inr (e, found)) =
    rw (e, finish_commit-err new s (io crash) r.1)
      (record {
        now = mark_broken (with_wal s r.1);
        log = bs;
        holds = holds;
        result = inr (refl, refl, found);
      })

page_size-stamp_embedding :
    (e : Option (Bytes × ℕ)) (h : Header) → (stamp_embedding e h).page_size ≡ h.page_size
unfolding stamp_embedding
page_size-stamp_embedding none h = refl
page_size-stamp_embedding (some e) h = refl

page_size-committed_header :
    (h : Header) (count : ℕ) (p : PendingHeader)
    → (committed_header h count p).page_size ≡ h.page_size
unfolding committed_header
page_size-committed_header h count p = page_size-stamp_embedding p.embedding _

-- Take a usable pager whose log file holds exactly whole transactions, with its generation begun and
-- no torn write armed, and is ready for an append; dirty pages of one page each; something to commit;
-- a new header that can be written; and room for the new transaction below 64 bits. Whatever
-- operation of the append an armed crash fires before, one of two holds. The append succeeds: then
-- the pager has the new header and index, a scan of the log finds the transactions with the new one,
-- and the commit returns the new counter, after a checkpoint of that state if the log has reached the
-- threshold, or with the failure of that checkpoint. Or the commit fails, the pager is unusable, and
-- the scan finds the old transactions, with or without the whole new one.
pub commit_txn-atomic :
    (x : Xxh3) (h : WalHeader) (ts : List LogTxn) (fresh count : ℕ) (dirty : PageMap Bytes)
    (pending : PendingHeader) (s : Store)
    → IsWalHeader h
    → All (IsTxn h.page_size) ts
    → All (IsPage h.page_size) dirty
    → IsHeader (committed_header s.pager.header count pending)
    → s.pager.header.page_size ≡ h.page_size
    → length (
        log_file x h (ts ++ record_of x (committed_header s.pager.header count pending) dirty ∷ []))
      < 2 ^ 64
    → s.pager.broken ≡ false
    → (is_empty dirty && (count == s.pager.header.page_count && pending_is_empty pending)) ≡ false
    → IsReady (wal_of s) (log_file x h ts)
    → s.pager.wal.salt ≡ some h.salt
    → s.pager.wal.page_size ≡ h.page_size
    → CommitOutcome x h ts
        (record_of x (committed_header s.pager.header count pending) dirty)
        (committed_header s.pager.header count pending)
        s
        (commit_txn x fresh dirty count pending s)
commit_txn-atomic x h ts fresh count dirty pending s vh vts vd v size' fits usable work r es ep =
    let new : Header = committed_header s.pager.header count pending in
    let size = page_size-committed_header s.pager.header count pending ∙ size' in
    let t : LogTxn = record_of x new dirty in
    let page0 : Bytes = header_page x new in
    let enc =
      encode-header_page x new (replicate s.pager.header.page_size 0) v
        (length-replicate {A = ℕ} s.pager.header.page_size 0 ∙ size' ∙ sym size) in
    let vt : IsTxn h.page_size t =
      commit_record-IsTxn h.page_size new.txn_counter dirty page0 v.txn_counter_lt vd
        (length-header_page x new ∙ size) in
    let done = append_txn-atomic x h ts t vh vts vt fits fresh (wal_of s) r es ep in
    let same : Append.append_txn x fresh new.txn_counter (dirty ++ (0, page0) ∷ []) (wal_of s)
        ≡ Append.append_txn x fresh t.txn_id (pages t) (wal_of s) =
      rw
        (
          txn_id-commit_record new.txn_counter dirty page0,
          pages-commit_record new.txn_counter dirty page0,
        )
        refl in
    rw (commit_txn-append x fresh count dirty pending s page0 _ usable work enc same) (
      finish_commit-outcome x h ts t new s (Append.append_txn x fresh t.txn_id (pages t) (wal_of s))
        done)
