-- ===== src/Pager/Txn.antt =====
-- crates/embedmind-core/src/storage/pager.rs, `Txn`: buffered pages and pending header fields,
-- beside the pager that they are committed to. A transaction that is dropped is never committed.
pub mod Laws
use embedmind.Prelude.{
  ℕ, zero, suc, ◌+◌, ◌^◌, Bool, true, false, Option, none, some, [], length, replicate, leb, ltb,
  ◌==◌, if◌then◌else◌,
}
use embedmind.Error.{Result, ok, err, invalid_argument, page_out_of_bounds}
use embedmind.Effect.{Exec, pure, require, gets, lift, ◌>>=◌, ◌>>◌}
use embedmind.Bytes.{Bytes}
use embedmind.Format.{Xxh3, max_model_id_len, stamp_page_checksum}
use embedmind.Format.Header.{Header}
use embedmind.PageMap.{PageMap, insert, lookup}
use embedmind.Pager
use embedmind.Pager.{Store, PendingHeader, unwrap_or, ensure_usable, commit_txn, the_pager}

pub record Txn : Type 0 where
  pub dirty : PageMap Bytes
  pub page_count : ℕ
  pub pending : PendingHeader

-- `PendingHeader::default`
abbrev pub no_pending : PendingHeader
no_pending = record {
  root_btree = none;
  hnsw_meta = none;
  fts_root = none;
  graph_root = none;
  filter_meta = none;
  filter_symbols = none;
  embedding = none;
}

-- `Pager::begin`
unfoldable pub begin : Exec Store Txn
begin = do
  ensure_usable
  p ← the_pager
  pure (record { dirty = []; page_count = p.header.page_count; pending = no_pending })

-- `Txn::allocate_page`; the page size is that of the pager's header.
unfoldable pub allocate_page : Xxh3 → ℕ → Txn → Result ℕ × Txn
allocate_page x page_size t =
    if leb (2 ^ 64) (t.page_count + 1) then (err (invalid_argument "page count overflow"), t) else (
      ok t.page_count,
      record t {
        page_count = t.page_count + 1;
        dirty = insert t.page_count (stamp_page_checksum x (replicate page_size 0)) t.dirty;
      },
    )

-- `Txn::write_page`
unfoldable pub write_page : Xxh3 → ℕ → ℕ → Bytes → Txn → Result (Unit {0}) × Txn
write_page x page_size page_no bytes t =
    if length bytes == page_size
    then (if page_no == 0
        then (err (invalid_argument "page 0 (header) is managed by the pager"), t)
        else if ltb page_no t.page_count
        then (ok tt, record t { dirty = insert page_no (stamp_page_checksum x bytes) t.dirty })
        else (err (page_out_of_bounds page_no t.page_count), t))
    else (err (invalid_argument "page write must be exactly one page"), t)

-- A page of the transaction's own, or of the committed state.
unfoldable pub own_or_committed : Xxh3 → Txn → ℕ → Option Bytes → Exec Store Bytes
own_or_committed x t page_no (some page) = pure page
own_or_committed x t page_no none = do
  require (ltb page_no t.page_count) (page_out_of_bounds page_no t.page_count)
  Pager.read_page x page_no

-- `Txn::read_page`
unfoldable pub read_page : Xxh3 → Txn → ℕ → Exec Store Bytes
unfolding own_or_committed
read_page x t page_no = own_or_committed x t page_no (lookup page_no t.dirty)

-- The roots as the transaction sees them, its own pending moves included.
unfoldable pub root_btree_page : Header → Txn → ℕ
root_btree_page h t = unwrap_or t.pending.root_btree h.root_btree_page

unfoldable pub hnsw_meta_page : Header → Txn → ℕ
hnsw_meta_page h t = unwrap_or t.pending.hnsw_meta h.hnsw_meta_page

unfoldable pub fts_root_page : Header → Txn → ℕ
fts_root_page h t = unwrap_or t.pending.fts_root h.fts_root_page

unfoldable pub graph_root_page : Header → Txn → ℕ
graph_root_page h t = unwrap_or t.pending.graph_root h.graph_root_page

unfoldable pub filter_meta_page : Header → Txn → ℕ
filter_meta_page h t = unwrap_or t.pending.filter_meta h.filter_meta_page

unfoldable pub filter_symbols_page : Header → Txn → ℕ
filter_symbols_page h t = unwrap_or t.pending.filter_symbols h.filter_symbols_page

unfoldable pub set_root_btree_page : ℕ → Txn → Txn
set_root_btree_page page_no t = record t {
  pending = record t.pending { root_btree = some page_no };
}

unfoldable pub set_hnsw_meta_page : ℕ → Txn → Txn
set_hnsw_meta_page page_no t = record t { pending = record t.pending { hnsw_meta = some page_no } }

unfoldable pub set_fts_root_page : ℕ → Txn → Txn
set_fts_root_page page_no t = record t { pending = record t.pending { fts_root = some page_no } }

unfoldable pub set_graph_root_page : ℕ → Txn → Txn
set_graph_root_page page_no t = record t {
  pending = record t.pending { graph_root = some page_no };
}

unfoldable pub set_filter_meta_page : ℕ → Txn → Txn
set_filter_meta_page page_no t = record t {
  pending = record t.pending { filter_meta = some page_no };
}

unfoldable pub set_filter_symbols_page : ℕ → Txn → Txn
set_filter_symbols_page page_no t = record t {
  pending = record t.pending { filter_symbols = some page_no };
}

unfoldable pub set_embedding_model : Bytes → ℕ → Txn → Result (Unit {0}) × Txn
set_embedding_model model_id dims t =
    if leb (length model_id) max_model_id_len
    then (ok tt, record t { pending = record t.pending { embedding = some (model_id, dims) } })
    else (err (invalid_argument "embedding_model_id exceeds 64 bytes"), t)

-- `Txn::commit`
unfoldable pub commit : Xxh3 → ℕ → Txn → Exec Store ℕ
commit x fresh t = commit_txn x fresh t.dirty t.page_count t.pending
