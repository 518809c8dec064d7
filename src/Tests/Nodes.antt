-- ===== src/Tests/Nodes.antt =====
-- The theorems on nodes of the vector index at concrete inputs.
use embedmind.Prelude.{ℕ, ◌≡◌, refl, some, [], ◌∷◌, replicate, get_elem?, arith}
use embedmind.Error.{ok}
use embedmind.Bytes.{Bytes, le_bytes}
use embedmind.Format.HnswMeta
use embedmind.Format.HnswNode
use embedmind.Format.HnswNode.{Ulids}
use embedmind.Format.HnswNode.Laws.{IsNode, decode-encode_node}
use embedmind.Format.HnswNode.Fits.{encode_capped}
use embedmind.Pager.{unwrap_or}
use embedmind.Tests.{xxh}

-- Identifiers of two bytes, padded to sixteen.
abbrev pub short_ulids : Ulids
short_ulids = record {
  Ulid = ℕ × ℕ;
  to_bytes = λ u. u.0 ∷ u.1 ∷ replicate 14 0;
  from_bytes = λ bs. (unwrap_or (get_elem? bs 0) 0, unwrap_or (get_elem? bs 1) 0);
  length-to_bytes = λ u. refl;
  from_bytes-to_bytes = λ u. refl;
}

abbrev small_node : HnswNode.HnswNode short_ulids
small_node = record {
  record_id = (1, 2);
  vec_page = 6;
  vec_slot = 1;
  layers = (7 ∷ 8 ∷ []) ∷ (8 ∷ []) ∷ [];
}

small_node-IsNode : IsNode short_ulids small_node
small_node-IsNode = record {
  vec_page_lt = omega arith;
  vec_slot_lt = omega arith;
  layers_le = omega arith;
  layers_ok = (
    (omega arith, ((omega arith, omega arith), ((omega arith, omega arith), tt))),
    ((omega arith, ((omega arith, omega arith), tt)), tt),
  );
}

decode-encode_node_example :
    (page : Bytes) × (HnswNode.encode xxh short_ulids small_node 512 ≡ some page)
    × (HnswNode.decode short_ulids page 9 ≡ ok small_node)
unfolding HnswNode.front_bytes le_bytes
decode-encode_node_example =
    decode-encode_node xxh short_ulids small_node 512 9 small_node-IsNode (omega arith)

-- For pages of 512 bytes and m = 4 the cap on levels is 11.
encode_capped_example :
    (page : Bytes) × (HnswNode.encode xxh short_ulids small_node 512 ≡ some page)
    × (HnswNode.decode short_ulids page 9 ≡ ok small_node)
unfolding HnswMeta.max_hnsw_level
encode_capped_example =
    encode_capped xxh short_ulids small_node 512 9 4 11 (7 ∷ 8 ∷ []) ((8 ∷ []) ∷ [])
      small_node-IsNode refl (omega arith) (omega arith, tt) refl (omega arith)
