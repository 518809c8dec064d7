-- ===== src/Pager.antt =====
-- crates/embedmind-core/src/storage/pager.rs: the pager's state, reads, checkpoints and commits.
-- Transactions are in Pager/Txn, opening and closing in Pager/Open.
pub mod Txn
pub mod Open
pub mod Appended
pub mod Commit
pub mod Failure
use embedmind.Prelude.{
  ℕ, zero, suc, ◌+◌, ◌*◌, ◌%◌, ◌^◌, Bool, true, false, ◌&&◌, Option, none, some, List, [], ◌∷◌,
  ◌++◌, length, replicate, leb, ltb, ◌==◌, if◌then◌else◌,
}
use embedmind.Error.{
  Error, Result, ok, err, io, failed_state, invalid_argument, page_out_of_bounds, corrupt_page,
}
use embedmind.Effect.{Exec, pure, raise, require, gets, modify, lift, continue, ◌>>=◌, ◌>>◌}
use embedmind.Bytes.{Bytes}
use embedmind.Format.{Xxh3, page_checksum_is_valid}
use embedmind.Format.Header
use embedmind.Format.Header.{Header}
use embedmind.PageMap.{PageMap, extend, lookup}
use embedmind.Vfs
use embedmind.Vfs.{SimState, SimFile}
use embedmind.Vfs.Files.{FilePath}
use embedmind.Wal.Append
use embedmind.Wal.Append.{Wal, WalStore}

abbrev pub default_checkpoint_threshold : ℕ
default_checkpoint_threshold = 4 * 1024 * 1024

pub record PagerOptions : Type 0 where
  pub page_size : ℕ
  pub checkpoint_threshold : ℕ
  pub format_version : ℕ

-- `Pager`; the index maps a page to the offset of its committed image in the log. The source's
-- hash map has no order; it is walked in key order here.
pub record Pager : Type 0 where
  pub main : SimFile
  pub wal : Wal
  pub wal_path : FilePath
  pub header : Header
  pub wal_index : PageMap ℕ
  pub checkpoint_threshold : ℕ
  pub broken : Bool

-- The pager beside the storage that it works on.
pub record Store : Type 0 where
  pub pager : Pager
  pub sim : SimState

abbrev pub on_sim : {A : Type 0} → Exec SimState A → Exec Store A
on_sim m s = ((m s.sim).0, record s { sim = (m s.sim).1 })

abbrev pub wal_of : Store → WalStore
wal_of s = record { wal = s.pager.wal; sim = s.sim }

abbrev pub with_wal : Store → WalStore → Store
with_wal s w = record { pager = record s.pager { wal = w.wal }; sim = w.sim }

abbrev pub on_wal : {A : Type 0} → Exec WalStore A → Exec Store A
on_wal m s = ((m (wal_of s)).0, with_wal s (m (wal_of s)).1)

abbrev pub the_pager : Exec Store Pager
the_pager = gets (λ (s : Store). s.pager)

-- A result that the caller looks at, in place of `?`.
abbrev pub attempt : {A : Type 0} → Exec Store A → Exec Store (Result A)
attempt m s = (ok (m s).0, (m s).1)

abbrev pub mark_broken : Store → Store
mark_broken s = record s { pager = record s.pager { broken = true } }

unfoldable pub ensure_usable : Exec Store (Unit {0})
ensure_usable s = if s.pager.broken then (err (io failed_state), s) else (ok tt, s)

-- `page_no.checked_mul(page_size)`
unfoldable pub page_offset : ℕ → ℕ → Result ℕ
page_offset page_no page_size =
    if leb (2 ^ 64) (page_no * page_size)
    then err (invalid_argument "page offset overflow")
    else ok (page_no * page_size)

-- The image of a page: in the log if the index has it, else in the main file.
unfoldable pub read_image : Option ℕ → ℕ → Exec Store Bytes
read_image (some offset) page_no = do
  p ← the_pager
  on_wal (Append.read_image offset p.header.page_size)
read_image none page_no = do
  p ← the_pager
  offset ← lift (page_offset page_no p.header.page_size)
  on_sim (Vfs.read_at p.main offset p.header.page_size)

-- `Pager::read_page`
unfoldable pub read_page : Xxh3 → ℕ → Exec Store Bytes
unfolding ensure_usable read_image page_offset
read_page x page_no = do
  ensure_usable
  p ← the_pager
  require (ltb page_no p.header.page_count) (page_out_of_bounds page_no p.header.page_count)
  page ← read_image (lookup page_no p.wal_index) page_no
  require (page_checksum_is_valid x page) (corrupt_page page_no)
  pure page

-- The copies of `checkpoint_inner`.
unfoldable pub copy_pages : PageMap ℕ → Exec Store (Unit {0})
unfolding page_offset
copy_pages [] = pure tt
copy_pages ((page_no, offset) ∷ rest) = do
  p ← the_pager
  image ← on_wal (Append.read_image offset p.header.page_size)
  target ← lift (page_offset page_no p.header.page_size)
  on_sim (Vfs.write_at p.main image target)
  copy_pages rest

unfoldable pub checkpoint_inner : Exec Store (Unit {0})
unfolding copy_pages
checkpoint_inner = do
  p ← the_pager
  copy_pages p.wal_index
  on_sim (Vfs.sync p.main)
  on_wal Append.reset
  modify (λ (s : Store). record s { pager = record s.pager { wal_index = [] } })

unfoldable pub is_empty {ℓ} : {A : Type ℓ} → List A → Bool
is_empty [] = true
is_empty (x ∷ xs) = false

pub break_on_error : Result (Unit {0}) → Exec Store (Unit {0})
break_on_error (ok u) s = (ok u, s)
break_on_error (err e) s = (err e, mark_broken s)

-- `Pager::checkpoint`
unfoldable pub checkpoint : Exec Store (Unit {0})
unfolding ensure_usable checkpoint_inner is_empty break_on_error
checkpoint = do
  ensure_usable
  p ← the_pager
  if is_empty p.wal_index && p.wal.len == 0
      then pure tt
      else do result ← attempt checkpoint_inner; break_on_error result

-- `PendingHeader`
pub record PendingHeader : Type 0 where
  pub root_btree : Option ℕ
  pub hnsw_meta : Option ℕ
  pub fts_root : Option ℕ
  pub graph_root : Option ℕ
  pub filter_meta : Option ℕ
  pub filter_symbols : Option ℕ
  pub embedding : Option (Bytes × ℕ)

is_none {ℓ} : {A : Type ℓ} → Option A → Bool
is_none none = true
is_none (some a) = false

unfoldable pub pending_is_empty : PendingHeader → Bool
unfolding is_none
pending_is_empty p =
    is_none p.root_btree
    && (is_none p.hnsw_meta
        && (is_none p.fts_root
            && (is_none p.graph_root
                && (is_none p.filter_meta && (is_none p.filter_symbols && is_none p.embedding)))))

abbrev pub unwrap_or : Option ℕ → ℕ → ℕ
unwrap_or none d = d
unwrap_or (some v) d = v

unfoldable pub stamp_embedding : Option (Bytes × ℕ) → Header → Header
stamp_embedding none h = h
stamp_embedding (some (model_id, dims)) h = record h {
  embedding_model_id = model_id;
  embedding_dims = dims;
}

-- The header that a commit writes.
unfoldable pub committed_header : Header → ℕ → PendingHeader → Header
unfolding stamp_embedding
committed_header h new_page_count p =
    let h = record h {
      page_count = new_page_count;
      root_btree_page = unwrap_or p.root_btree h.root_btree_page;
      hnsw_meta_page = unwrap_or p.hnsw_meta h.hnsw_meta_page;
      fts_root_page = unwrap_or p.fts_root h.fts_root_page;
      graph_root_page = unwrap_or p.graph_root h.graph_root_page;
      filter_meta_page = unwrap_or p.filter_meta h.filter_meta_page;
      filter_symbols_page = unwrap_or p.filter_symbols h.filter_symbols_page;
      txn_counter = (h.txn_counter + 1) % 2 ^ 64;
    } in
    stamp_embedding p.embedding h

-- After the append: the commit is taken over, or the pager is unusable.
unfoldable pub after_append : Header → Result (List (ℕ × ℕ)) → Exec Store (Unit {0})
after_append new_header (ok offsets) s = (
  ok tt,
  record s {
    pager = record s.pager { header = new_header; wal_index = extend s.pager.wal_index offsets };
  },
)
after_append new_header (err e) s = (err e, mark_broken s)

unfoldable pub checkpoint_if : Bool → Exec Store (Unit {0})
checkpoint_if true = checkpoint
checkpoint_if false = pure tt

-- `Pager::commit_txn`; `fresh` is the salt if the log starts a generation.
unfoldable pub commit_txn : Xxh3 → ℕ → PageMap Bytes → ℕ → PendingHeader → Exec Store ℕ
commit_txn x fresh dirty new_page_count pending = do
  ensure_usable
  p ← the_pager
  if is_empty dirty && (new_page_count == p.header.page_count && pending_is_empty pending)
      then pure p.header.txn_counter
      else do
        let new_header = committed_header p.header new_page_count pending
        page0 ← lift (Header.encode x new_header (replicate p.header.page_size 0))
        appended ←
            attempt
              (on_wal (Append.append_txn x fresh new_header.txn_counter (dirty ++ (0, page0) ∷ [])))
        after_append new_header appended
        now ← the_pager
        checkpoint_if (leb now.checkpoint_threshold now.wal.len)
        pure new_header.txn_counter
