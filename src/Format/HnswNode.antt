-- ===== src/Format/HnswNode.antt =====
-- crates/embedmind-core/src/format.rs, `HnswNode`: a node of the vector index, with its record, the
-- place of its vector, and the pages of its neighbors by layer.
pub mod Laws
pub mod Fits
use embedmind.Prelude.{
  ℕ, zero, suc, ◌+◌, ◌-◌, ◌*◌, ◌^◌, ◌≡◌, Bool, Option, none, some, List, [], ◌∷◌, ◌++◌, length,
  replicate, get_elem?, ltb, leb, ◌==◌, if◌then◌else◌,
}
use embedmind.Error.{Result, ok, err, malformed_page, guard, ok_or, ◌>>=◌, ◌>>◌}
use embedmind.Bytes.{Bytes, le_bytes, get_range, read_u16, read_u64, write_bytes}
use embedmind.Format.{Xxh3, page_header_len, page_trailer_len, stamp_page_checksum}
use embedmind.Format.Page as P
use embedmind.Format.Page.{hnsw_node, PageHeader, encode_into}

-- The `ulid` crate: an identifier is 16 bytes, both ways.
pub record Ulids : Type 1 where
  pub Ulid : Type 0
  pub to_bytes : Ulid → Bytes
  pub from_bytes : Bytes → Ulid
  pub length-to_bytes : (u : Ulid) → length (to_bytes u) ≡ 16
  pub from_bytes-to_bytes : (u : Ulid) → from_bytes (to_bytes u) ≡ u

pub record HnswNode (U : Ulids) : Type 0 where
  pub record_id : U.Ulid
  pub vec_page : ℕ
  pub vec_slot : ℕ
  pub layers : List (List ℕ)

abbrev pub neighbor_bytes : List ℕ → Bytes
neighbor_bytes [] = []
neighbor_bytes (n ∷ ns) = le_bytes 8 n ++ neighbor_bytes ns

append_to : Bytes → Option Bytes → Option Bytes
append_to bs none = none
append_to bs (some r) = some (bs ++ r)

-- The layers of the body; `none` for a layer with more neighbors than 16 bits count.
unfoldable pub layer_bytes : List (List ℕ) → Option Bytes
unfolding append_to
layer_bytes [] = some []
layer_bytes (layer ∷ layers) =
    let rest = layer_bytes layers in
    if leb (2 ^ 16) (length layer)
    then none
    else append_to (le_bytes 2 (length layer) ++ neighbor_bytes layer) rest

-- The page of a body that fits.
unfoldable pub node_page : Xxh3 → ℕ → Bytes → Option Bytes
node_page x page_size body =
    if ltb (page_size - page_trailer_len) (page_header_len + length body)
    then none
    else let page = replicate page_size 0 in
      let page =
        encode_into (record { page_type = hnsw_node; entry_count = 0; next_page = 0 }) page in
      some (stamp_page_checksum x (write_bytes page page_header_len body))

node_of_layers : Xxh3 → ℕ → Bytes → Option Bytes → Option Bytes
unfolding node_page
node_of_layers x page_size front none = none
node_of_layers x page_size front (some layers) = node_page x page_size (front ++ layers)

unfoldable pub front_bytes : (U : Ulids) → HnswNode U → Bytes
front_bytes U h =
    U.to_bytes h.record_id
    ++ (le_bytes 8 h.vec_page ++ (le_bytes 2 h.vec_slot ++ length h.layers ∷ []))

-- `HnswNode::encode`
unfoldable pub encode : Xxh3 → (U : Ulids) → HnswNode U → ℕ → Option Bytes
unfolding node_of_layers
encode x U h page_size =
    if ltb 255 (length h.layers)
    then none
    else node_of_layers x page_size (front_bytes U h) (layer_bytes h.layers)

-- The inner loop of `decode`: `count` neighbors from `off` on, none of them page 0.
unfoldable pub decode_neighbors : ℕ → Bytes → ℕ → ℕ → Result (List ℕ)
decode_neighbors zero page page_no off = ok []
decode_neighbors (suc count) page page_no off = do
  n ← ok_or (read_u64 page off) (malformed_page page_no "hnsw neighbor page")
  guard (ltb 0 n) (malformed_page page_no "hnsw null neighbor page")
  rest ← decode_neighbors count page page_no (off + 8)
  ok (n ∷ rest)

-- The outer loop; a layer takes two bytes and eight for each neighbor.
unfoldable pub decode_layers : ℕ → Bytes → ℕ → ℕ → Result (List (List ℕ))
decode_layers zero page page_no off = ok []
decode_layers (suc k) page page_no off = do
  count ← ok_or (read_u16 page off) (malformed_page page_no "hnsw neighbor count")
  guard (leb (count * 8) (length page - (off + 2)))
      (malformed_page page_no "hnsw neighbor count exceeds page")
  neighbors ← decode_neighbors count page page_no (off + 2)
  rest ← decode_layers k page page_no (off + 2 + count * 8)
  ok (neighbors ∷ rest)

-- `HnswNode::decode`
unfoldable pub decode : (U : Ulids) → Bytes → ℕ → Result (HnswNode U)
decode U page page_no = do
  header ← ok_or (P.decode page) (malformed_page page_no "page header")
  guard (P.to_u8 header.page_type == P.to_u8 hnsw_node)
      (malformed_page page_no "not an HNSW_NODE page")
  id ← ok_or (get_range page page_header_len 16) (malformed_page page_no "hnsw record_id")
  vec_page ← ok_or (read_u64 page (page_header_len + 16)) (malformed_page page_no "hnsw vec_page")
  vec_slot ← ok_or (read_u16 page (page_header_len + 24)) (malformed_page page_no "hnsw vec_slot")
  layer_count ←
      ok_or (get_elem? page (page_header_len + 26)) (malformed_page page_no "hnsw layer_count")
  layers ← decode_layers layer_count page page_no (page_header_len + 27)
  ok (record {
    record_id = U.from_bytes id;
    vec_page = vec_page;
    vec_slot = vec_slot;
    layers = layers;
  })
