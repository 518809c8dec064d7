-- ===== src/Pager/Appended.antt =====
-- crates/embedmind-core/src/storage/pager.rs, `commit_txn`: the transaction that it appends to the log.
use mathlib.Core.Path.{subst}
use embedmind.Prelude.{ℕ, ◌^◌, ◌<◌, ◌≡◌, refl, sym, List, [], ◌∷◌, ◌++◌, length, All, arith}
use embedmind.Bytes.{Bytes}
use embedmind.Format.{Xxh3}
use embedmind.Format.Header.{Header}
use embedmind.Format.Header.Laws.{header_page}
use embedmind.PageMap.{PageMap}
use embedmind.Wal.Txns.{LogTxn, pages}
use embedmind.Wal.Durability.{IsTxn, IsPage}

-- What a commit appends: the dirty pages, then the header page.
unfoldable pub commit_record : ℕ → PageMap Bytes → Bytes → LogTxn
commit_record id [] page0 = record { txn_id = id; first = (0, page0); others = [] }
commit_record id (p ∷ ps) page0 = record { txn_id = id; first = p; others = ps ++ (0, page0) ∷ [] }

pub pages-commit_record :
    (id : ℕ) (dirty : PageMap Bytes) (page0 : Bytes)
    → pages (commit_record id dirty page0) ≡ dirty ++ (0, page0) ∷ []
unfolding commit_record
pages-commit_record id [] page0 = refl
pages-commit_record id (p ∷ ps) page0 = refl

pub txn_id-commit_record :
    (id : ℕ) (dirty : PageMap Bytes) (page0 : Bytes) → (commit_record id dirty page0).txn_id ≡ id
unfolding commit_record
txn_id-commit_record id [] page0 = refl
txn_id-commit_record id (p ∷ ps) page0 = refl

commit_record-pages_ok :
    (page_size id : ℕ) (dirty : PageMap Bytes) (page0 : Bytes)
    → All (IsPage page_size) dirty
    → length page0 ≡ page_size
    → All (IsPage page_size) (dirty ++ (0, page0) ∷ [])
commit_record-pages_ok page_size id [] page0 h e = ((omega arith, e), tt)
commit_record-pages_ok page_size id (p ∷ ps) page0 (h, hs) e =
    (h, commit_record-pages_ok page_size id ps page0 hs e)

pub commit_record-IsTxn :
    (page_size id : ℕ) (dirty : PageMap Bytes) (page0 : Bytes)
    → id < 2 ^ 64
    → All (IsPage page_size) dirty
    → length page0 ≡ page_size
    → IsTxn page_size (commit_record id dirty page0)
commit_record-IsTxn page_size id dirty page0 lt h e = record {
  txn_id_lt = rw (txn_id-commit_record id dirty page0) lt;
  pages_ok =
      subst (λ (ps : List (ℕ × Bytes)). All (IsPage page_size) ps)
        (sym (pages-commit_record id dirty page0))
        (commit_record-pages_ok page_size id dirty page0 h e);
}

-- What a commit of these dirty pages appends to the log.
abbrev pub record_of : Xxh3 → Header → PageMap Bytes → LogTxn
record_of x new dirty = commit_record new.txn_counter dirty (header_page x new)
