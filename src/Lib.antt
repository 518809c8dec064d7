-- ===== src/Lib.antt =====
-- EmbedMind is an embedded store for memories with vector search, in one file. This library models
-- its storage engine: the file format, the write-ahead log, the pager with its transactions, the
-- records and the B-tree that keeps them, the full-text index with the dictionary under it, and the
-- simulated storage that the engine's crash tests run on.
--
-- The parts and how they interact. A transaction buffers pages over the pager; its commit hands the
-- dirty pages and the new header page to the log, which appends one frame for each and syncs; a
-- checkpoint copies the images from the log to the main file and empties the log; opening a store
-- scans the log first and applies what was committed. All of it works on files of the storage layer.
-- The B-tree maps the identifier of a record to its encoding: its nodes are pages of the transaction,
-- and long values stand in chains of overflow pages. The full-text index keeps, in pages of the same
-- transaction, a second tree, the dictionary, from each term to the list of the records that it stands
-- in; the body of a list is in the layout of the file's format version.
--
-- crates/embedmind-core/src/format.rs
--   Format: constants, page checksums, page sizes. Format/Page: page types and page headers.
--   Format/Header: the header page (`Header`). Format/WalFrame: log and frame headers (`WalHeader`,
--   `WalFrameHeader`). Format/Vector: vector pages. Format/HnswMeta, Format/HnswNode: the pages of
--   the vector index. Bytes: byte buffers, `read_u16` to `write_u64`, with the laws of reads and
--   writes in its children. Below each, the module Laws has the theorems.
-- crates/embedmind-core/src/storage/wal.rs
--   Wal: `scan` and its loop. Wal/Append: `Wal`, `append_txn`, `read_image`, `reset`. Wal/Txns and
--   Wal/Frames: the abstract log, a list of whole transactions, and its bytes. Wal/Scan,
--   Wal/Total, Wal/Durability, Wal/Log, Wal/Atomic, Wal/Recovery: the theorems, from one frame up.
-- crates/embedmind-core/src/storage/pager.rs
--   Pager: `Pager`, `read_page`, `checkpoint`, `commit_txn`. Pager/Txn: `Txn`. Pager/Open: `create`,
--   `open`, recovery, `close`. Pager/Appended: what a commit appends. Pager/Commit, Pager/Failure
--   and Pager/Txn/Laws: the theorems.
-- crates/embedmind-core/src/record.rs
--   Record: `Scalar`, `Filter::matches`, `MemoryRecord`. Record/Reader: `Reader`. Record/Encode and
--   Record/Decode: the codec. Record/Layout: the bytes of a record. Record/Parts, Record/RoundTrip,
--   Record/Filters: the theorems. StringMap: the ordered map of the metadata.
-- crates/embedmind-core/src/storage/btree.rs
--   Btree: constants, cells, entries, nodes. Btree/Codec: `decode_node`, `encode_leaf`,
--   `encode_inner`. Btree/Search: the search in a leaf and its update. Btree/Split: the cut of a
--   leaf. Btree/Lookup: `PageSource`, `get`, `read_overflow`. Btree/Insert: `insert`, `insert_rec`,
--   `write_overflow`, over `TxnPages`, what the tree needs of a transaction. Btree/Session: the
--   transaction as such pages. Btree/Leaf,
--   Btree/LeafPage, Btree/Inner, Btree/Body: nodes on their pages. Btree/Pieces: chunks of a value and
--   the parts of a split node. Btree/Tree: trees that pages hold. Btree/Chains,
--   Btree/Overflow, Btree/First: values in the tree.
-- crates/embedmind-core/src/index/dict.rs
--   Dict: `DictSpec`, values, entries, nodes and their sizes. Dict/Fields: `put_u16` to
--   `get_bytes_u32`, on a page with an offset. Dict/Codec: `decode_node`, `encode_leaf`,
--   `encode_inner`. Dict/Get: `read_overflow_chain`, `get`. Dict/Chain: `write_overflow_chain`,
--   `chain_pages`, `make_value`. Dict/Upsert: `upsert`, `insert_rec`. Dict/Get/Turns: the turns of a
--   chain. Dict/Codec/Layout, Dict/Codec/Puts, Dict/Codec/Values, Dict/Codec/Pages, Dict/Codec/Leaf,
--   Dict/Codec/Inner: nodes on their pages. Dict/Split, Dict/Split/Inner: the halves.
-- crates/embedmind-core/src/index/fts.rs
--   Fts: postings, layouts, constants. Fts/Varint: `put_varint`, `read_varint`. Fts/Fixed:
--   `byte_width`, `put_fixed`, `read_fixed`. Fts/Runs: `encode_delta_run`, `encode_for_block` and
--   their decoders. Fts/Postings: `Postings` with `upsert`, `encode` and the decoders of the plain
--   layouts. Fts/Postings/Skip: `decode_skip`, `decode`, `lookup_via_skip`. Fts/Tokenize: `tokenize`,
--   `doc_len`, `clip_term`. Fts/Meta: `FtsMeta`. Fts/Document: `postings_for`, `index_document`.
--   The other modules below these have the theorems: those of Fts/Varint and Fts/Runs on single runs;
--   Fts/Postings/Index, Blocks, Sizes, Start, Fixed and RoundTrip on bodies and their lists; Nth,
--   Search, Lookup, Agrees, Equivalent and Upsert on the look-up; Hostile and Accepted on bodies of
--   any bytes.
-- crates/embedmind-core/src/index/filter_meta.rs, crates/embedmind-core/src/api.rs
--   FilterMeta: `Table::decide`, the entries that `record_updates` makes, and the check that a recall
--   makes of a record (`in_scope`, `record_passes_filters`, `keep`). FilterMeta/Fits,
--   FilterMeta/Agrees: the theorems.
-- crates/embedmind-core/src/storage/sim.rs, crates/embedmind-core/src/storage/vfs.rs
--   Vfs: `SimVfs` and `SimFile`, with armed crashes, torn writes, power loss and locks. Vfs/Files:
--   the file table. Vfs/Sector: the generator and the sectors. Vfs/Laws: the theorems.
-- crates/embedmind-core/src/error.rs
--   Error: the errors that these parts return.
-- Prelude, Effect, PageMap: tests and lists; methods that change a state and may fail (the state
-- comes back beside the error too); the ordered map. Tests: runs and theorems at concrete inputs.
--
-- How the code is modelled. A byte buffer is a list of numbers; a method on a `&mut` buffer returns
-- the buffer. Integers are natural numbers, with the range checks and wrap-around of the source
-- written out where they can be reached. An offset fits a `usize`, as on a 64-bit machine. The model
-- of the storage layer's files is the simulated one, whose operations are single steps: mutexes are
-- left out. XXH3 (Format.Xxh3) and the identifiers of the ulid crate (HnswNode.Ulids) are parameters.
-- A fresh salt is an argument of the append. The hash map of page images is walked in key order. A
-- float is its bit pattern, and an `i64` too; the comparisons of floats in a filter are a parameter
-- (Record.Floats). The Unicode tables of the tokenizer (Tokenize.Unicode) and the bytes of an
-- identifier (Postings.UlidBytes) are parameters. A string is its bytes, with the test for UTF-8; a
-- text for the tokenizer is its characters. A search in entries that are in order goes from the front,
-- but for the blocks of a list of postings, where the halving of the code is kept, since a body may
-- hold blocks in any order.
--
-- Bounds and fuel. The scan of a log runs on the length of the file as fuel: each round moves on by
-- at least a frame header, and Wal/Total shows that this is enough on any file. Power loss and
-- torn writes run on the length of the data, a sector at a time. A look-up and an insertion go down
-- 64 levels at most, as in the source. The read of an overflow chain runs on the length of the value,
-- since every page that is taken has a byte at least. The read of a chain of the dictionary has no
-- such bound in the code: it takes a number of turns, and gives nothing when they run out, which is an
-- error of the model (`out of turns`) for the full-text index. A varint is
-- written in 19 turns at most, since 7 bits go each time; the search among blocks halves a range of
-- `block_count` blocks and runs on that number; a list is cut into blocks in as many turns as it has
-- entries.
--
-- Not modelled: the files of the operating system (pure I/O), the ordered scan of the B-tree, the
-- vector search and the graph, the queries of the full-text index (scores in floating point, cursors,
-- statistics), the filter columns but for their decisions, recall but for its check of a record, the
-- MCP server, the command line, the bindings, and the mutexes.
pub mod Prelude
pub mod Bytes
pub mod Error
pub mod Format
pub mod PageMap
pub mod StringMap
pub mod Effect
pub mod Vfs
pub mod Wal
pub mod Record
pub mod FilterMeta
pub mod Fts
pub mod Dict
pub mod Btree
pub mod Pager
pub mod Tests
