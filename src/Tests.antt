-- ===== src/Tests.antt =====
-- Data of the runs at concrete inputs: a hash, headers, and a pager over an empty log.
pub mod Pages
pub mod Nodes
pub mod Commits
pub mod Records
pub mod Filters
pub mod Leaves
pub mod Trees
pub mod Postings
pub mod Dicts
use embedmind.Prelude.{
  ℕ, ◌+◌, ◌%◌, ◌^◌, ◌<◌, ◌≡◌, refl, Option, none, some, List, [], ◌∷◌, length, replicate, true,
  false, arith,
}
use embedmind.Bytes.{Bytes}
use embedmind.Format.{Xxh3, page_size_is_valid, is_power_of_two}
use embedmind.Bytes.Utf8.{utf8_valid}
use embedmind.Format.Header.{Header}
use embedmind.Format.Header.Fields.{IsHeader}
use embedmind.Format.WalFrame.{WalHeader, encode_wal_header}
use embedmind.Format.WalFrame.Laws.{IsWalHeader}
use embedmind.Vfs.{SimState, SimFile, Armed, before}
use embedmind.Vfs.Files.{SimFileData}
use embedmind.Wal.Append.{Wal}
use embedmind.Pager.{Pager, Store}

abbrev pub sum : Bytes → ℕ
sum [] = 0
sum (b ∷ bs) = b + sum bs

-- A hash that depends on the seed and on every byte.
abbrev pub xxh : Xxh3
xxh = record { hash = λ seed bs. (seed + sum bs) % 2 ^ 64; hash-lt = λ seed bs. omega arith }

abbrev pub small_header : Header
small_header = record {
  format_version = 8;
  page_size = 512;
  page_count = 2;
  root_btree_page = 1;
  freelist_page = 0;
  hnsw_meta_page = 0;
  fts_root_page = 0;
  graph_root_page = 0;
  filter_meta_page = 0;
  filter_symbols_page = 0;
  txn_counter = 3;
  embedding_dims = 384;
  embedding_quant = 0;
  embedding_model_id = 98 ∷ 103 ∷ 101 ∷ [];
  flags = 0;
}

abbrev pub generation_header : WalHeader
generation_header = record { format_version = 8; page_size = 512; salt = 7 }

pub generation_header-IsWalHeader : IsWalHeader generation_header
unfolding page_size_is_valid is_power_of_two
generation_header-IsWalHeader = record {
  version_pos = omega arith;
  version_known = omega arith;
  page_size_lt = omega arith;
  page_size_ok = refl;
  salt_lt = omega arith;
}

abbrev main_path : Bytes
main_path = 1 ∷ []

abbrev log_path : Bytes
log_path = 2 ∷ []

abbrev pub log_data : SimFileData
log_data = record { synced = []; current = encode_wal_header generation_header; locked_by = none }

-- A log without transactions, and a crash that fires before the third operation.
abbrev pub small_store : Store
small_store = record {
  pager = record {
    main = record { path = main_path; handle_id = 0 };
    wal = record {
      file = record { path = log_path; handle_id = 1 };
      page_size = 512;
      salt = some 7;
      len = 32;
    };
    wal_path = log_path;
    header = small_header;
    wal_index = [];
    checkpoint_threshold = 4096;
    broken = false;
  };
  sim = record {
    files =
        (main_path, record { synced = []; current = []; locked_by = some 0 })
        ∷ (log_path, log_data)
        ∷ [];
    ops = 0;
    crash_at = some (record { at_op = 2; mode = before; torn_seed = 0 });
    crashed = false;
    lying_sync = false;
    next_handle_id = 2;
  };
}

pub small_header-IsHeader :
    (n c : ℕ)
    → 0 < n
    → n < 2 ^ 64
    → c < 2 ^ 64
    → IsHeader (record small_header { page_count = n; txn_counter = c })
unfolding page_size_is_valid is_power_of_two utf8_valid
small_header-IsHeader n c pos lt clt = record {
  version_pos = omega arith;
  version_known = omega arith;
  page_size_lt = omega arith;
  page_size_ok = refl;
  page_count_pos = pos;
  page_count_lt = lt;
  root_btree_lt = omega arith;
  freelist_lt = omega arith;
  hnsw_meta_lt = omega arith;
  fts_root_lt = omega arith;
  graph_root_lt = omega arith;
  filter_meta_lt = omega arith;
  filter_symbols_lt = omega arith;
  txn_counter_lt = clt;
  dims_lt = omega arith;
  quant_lt = omega arith;
  model_id_len = omega arith;
  model_id_utf8 = refl;
  flags_lt = omega arith;
  flags_ok = refl;
}
