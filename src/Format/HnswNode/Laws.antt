-- ===== src/Format/HnswNode/Laws.antt =====
-- Nodes of the vector index read back what was written.
use mathlib.Core.Path.{subst}
use embedmind.Prelude.{
  ℕ, ◌+◌, ◌-◌, ◌*◌, ◌^◌, ◌≤◌, ◌<◌, ◌≡◌, refl, ◌∙◌, true, false, some, List, [], ◌∷◌, ◌++◌, length,
  length-append, replicate, length-replicate, All, ltb, leb, arith,
}
use embedmind.Error.{ok}
use embedmind.Bytes.{Bytes, le_bytes, get_range, read_u32, read_u64, write_u32, write_u64}
use embedmind.Bytes.Range.{get_elem-of-range}
use embedmind.Bytes.Reads.{
  Reads, Reads-fits, Reads-front, Reads-back, Reads-next, read_u64-of, read_u16-of,
}
use embedmind.Bytes.Writes.{Write, write_all, Ascending, length-write_all, get_range-write_all}
use embedmind.Bytes.Fields.{read_u32-write_all, read_u64-write_all}
use embedmind.Bytes.Le.{length-le_bytes}
use embedmind.Format.{Xxh3, stamp_page_checksum}
use embedmind.Format.Checksum.{length-stamp, get_range-stamp}
use embedmind.Format.Page as P
use embedmind.Format.Page.{PageHeader, hnsw_node, encode_into}
use embedmind.Format.Page.Laws.{decode-of-fields}
use embedmind.Format.HnswNode.{
  Ulids, HnswNode, neighbor_bytes, layer_bytes, node_page, front_bytes, encode, decode_neighbors,
  decode_layers, decode,
}

-- A neighbor is a page that is not the header.
abbrev pub IsNeighbor : ℕ → Type 0
IsNeighbor n = (0 < n) × (n < 2 ^ 64)

decode_neighbors-of :
    (ns : List ℕ) (page : Bytes) (page_no off : ℕ)
    → All IsNeighbor ns
    → Reads page off (neighbor_bytes ns)
    → decode_neighbors (length ns) page page_no off ≡ ok ns
unfolding decode_neighbors
decode_neighbors-of [] page page_no off v h = refl
decode_neighbors-of (n ∷ ns) page page_no off (v, vs) h =
    let here =
      read_u64-of page off n v.1 (Reads-front page off (le_bytes 8 n) (neighbor_bytes ns) h) in
    let pos : ltb 0 n ≡ true = ground (arith, v.0) in
    let later = Reads-back page off (le_bytes 8 n) (neighbor_bytes ns) h in
    let later' : Reads page (off + 8) (neighbor_bytes ns) = rw (length-le_bytes 8 n) at later in
    rw (here, pos, decode_neighbors-of ns page page_no (off + 8) vs later') refl

pub length-neighbor_bytes : (ns : List ℕ) → length (neighbor_bytes ns) ≡ length ns * 8
length-neighbor_bytes [] = refl
length-neighbor_bytes (n ∷ ns) = omega (
  arith,
  length-append (le_bytes 8 n) (neighbor_bytes ns),
  length-le_bytes 8 n,
  length-neighbor_bytes ns,
)

-- The bytes of the layers, where every layer's count fits 16 bits.
abbrev pub all_layers : List (List ℕ) → Bytes
all_layers [] = []
all_layers (l ∷ ls) = (le_bytes 2 (length l) ++ neighbor_bytes l) ++ all_layers ls

abbrev pub IsLayer : List ℕ → Type 0
IsLayer l = (length l < 2 ^ 16) × All IsNeighbor l

layer_bytes-all_layers :
    (ls : List (List ℕ)) → All IsLayer ls → layer_bytes ls ≡ some (all_layers ls)
unfolding layer_bytes
layer_bytes-all_layers [] v = refl
layer_bytes-all_layers (l ∷ ls) (v, vs) =
    let fits : leb (2 ^ 16) (length l) ≡ false = ground (arith, v.0) in
    rw (fits, layer_bytes-all_layers ls vs) refl

decode_layers-of :
    (ls : List (List ℕ)) (page : Bytes) (page_no off : ℕ)
    → All IsLayer ls
    → Reads page off (all_layers ls)
    → decode_layers (length ls) page page_no off ≡ ok ls
unfolding decode_layers
decode_layers-of [] page page_no off v h = refl
decode_layers-of (l ∷ ls) page page_no off (v, vs) h =
    let count = le_bytes 2 (length l) in
    let first = Reads-front page off (count ++ neighbor_bytes l) (all_layers ls) h in
    let counted =
      read_u16-of page off (length l) v.0 (Reads-front page off count (neighbor_bytes l) first) in
    let two = length-le_bytes 2 (length l) in
    let eight = length-neighbor_bytes l in
    let listed = Reads-back page off count (neighbor_bytes l) first in
    let listed' : Reads page (off + 2) (neighbor_bytes l) = rw two at listed in
    let fits = Reads-fits page (off + 2) (neighbor_bytes l) listed' in
    let room : leb (length l * 8) (length page - (off + 2)) ≡ true = ground (arith, fits, eight) in
    let later = Reads-back page off (count ++ neighbor_bytes l) (all_layers ls) h in
    let size : off + length (count ++ neighbor_bytes l) ≡ off + 2 + length l * 8 =
      omega (arith, length-append count (neighbor_bytes l), two, eight) in
    let later' : Reads page (off + 2 + length l * 8) (all_layers ls) = rw size at later in
    rw
      (
        counted,
        room,
        decode_neighbors-of l page page_no (off + 2) v.1 listed',
        decode_layers-of ls page page_no (off + 2 + length l * 8) vs later',
      )
      refl

abbrev node_header : PageHeader
node_header = record { page_type = hnsw_node; entry_count = 0; next_page = 0 }

abbrev node_writes : Bytes → List Write
node_writes body = (0, 4 ∷ 0 ∷ 0 ∷ 0 ∷ []) ∷ (4, le_bytes 4 0) ∷ (8, le_bytes 8 0) ∷ (16, body) ∷ []

node_writes-Ascending : (body : Bytes) → Ascending 0 (node_writes body) (16 + length body)
unfolding le_bytes
node_writes-Ascending body = omega arith

-- The page of a body, as a run of writes into zeros.
abbrev written : ℕ → Bytes → Bytes
written page_size body = write_all (replicate page_size 0) (node_writes body)

node_page-written :
    (x : Xxh3) (page_size : ℕ) (body : Bytes)
    → 16 + length body + 8 ≤ page_size
    → node_page x page_size body ≡ some (stamp_page_checksum x (written page_size body))
unfolding node_page encode_into write_u32 write_u64 P.to_u8
node_page-written x page_size body fits =
    let room : ltb (page_size - 8) (16 + length body) ≡ false = ground arith in rw room refl

module _ (x : Xxh3) (page_size : ℕ) (body : Bytes) (fits : 16 + length body + 8 ≤ page_size) where
  abbrev out : Bytes
  out = stamp_page_checksum x (written page_size body)

  long : length (written page_size body) ≡ page_size
  long =
      length-write_all (replicate page_size 0) (node_writes body)
      ∙ length-replicate {A = ℕ} page_size 0

  enough : 16 + length body ≤ length {A = ℕ} (replicate page_size 0)
  enough = omega (arith, length-replicate {A = ℕ} page_size 0)

  stamp_keeps :
      (o n : ℕ)
      → o + n ≤ 16 + length body
      → get_range out o n ≡ get_range (written page_size body) o n
  stamp_keeps o n b = get_range-stamp x (written page_size body) o n (omega (arith, long))

  out-body : Reads out 16 body
  out-body =
      stamp_keeps 16 (length body) (omega arith)
      ∙ get_range-write_all (replicate page_size 0) (node_writes body) 0 (16 + length body) 3 16
          body (node_writes-Ascending body) enough refl

  decode-out : P.decode out ≡ some node_header
  unfolding read_u32 read_u64 P.to_u8
  decode-out =
      let zeros : Bytes = replicate page_size 0 in
      let asc = node_writes-Ascending body in
      let ws = node_writes body in
      decode-of-fields node_header out
        (omega (arith, length-stamp x (written page_size body), long))
        (get_elem-of-range out 0 3 4 _ (
          stamp_keeps 0 4 (omega arith)
          ∙ get_range-write_all zeros ws 0 (16 + length body) 0 0 _ asc enough refl))
        (rw (stamp_keeps 4 4 (omega arith))
          (read_u32-write_all zeros ws 0 (16 + length body) 1 4 0 asc enough refl (omega arith)))
        (rw (stamp_keeps 8 8 (omega arith))
          (read_u64-write_all zeros ws 0 (16 + length body) 2 8 0 asc enough refl (omega arith)))

-- A node whose numbers fit their widths, whose layers are at most 255, and whose neighbors are pages
-- behind the header.
pub record IsNode (U : Ulids) (h : HnswNode U) : Type 0 where
  pub vec_page_lt : h.vec_page < 2 ^ 64
  pub vec_slot_lt : h.vec_slot < 2 ^ 16
  pub layers_le : length h.layers ≤ 255
  pub layers_ok : All IsLayer h.layers

decode-Reads :
    (U : Ulids) (h : HnswNode U) (page : Bytes) (page_no : ℕ)
    → IsNode U h
    → P.decode page ≡ some node_header
    → Reads page 16 (front_bytes U h ++ all_layers h.layers)
    → decode U page page_no ≡ ok h
unfolding decode front_bytes P.to_u8
decode-Reads U h page page_no v e r =
    let id = U.to_bytes h.record_id in
    let vec = le_bytes 8 h.vec_page in
    let slot = le_bytes 2 h.vec_slot in
    let count : Bytes = length h.layers ∷ [] in
    let front = Reads-front page 16 (id ++ (vec ++ (slot ++ count))) (all_layers h.layers) r in
    let at_vec =
      Reads-next page 16 16 id (vec ++ (slot ++ count)) (U.length-to_bytes h.record_id) front in
    let at_slot = Reads-next page 32 8 vec (slot ++ count) (length-le_bytes 8 h.vec_page) at_vec in
    let at_count = Reads-next page 40 2 slot count (length-le_bytes 2 h.vec_slot) at_slot in
    let front_len : length (id ++ (vec ++ (slot ++ count))) ≡ 27 = omega (
      arith,
      length-append id (vec ++ (slot ++ count)),
      length-append vec (slot ++ count),
      length-append slot count,
      U.length-to_bytes h.record_id,
      length-le_bytes 8 h.vec_page,
      length-le_bytes 2 h.vec_slot,
    ) in
    let at_layers =
      Reads-next page 16 27 (id ++ (vec ++ (slot ++ count))) (all_layers h.layers) front_len r in
    let id_read : get_range page 16 16 ≡ some id =
      subst (λ (k : ℕ). get_range page 16 k ≡ some id) (U.length-to_bytes h.record_id)
        (Reads-front page 16 id (vec ++ (slot ++ count)) front) in
    rw
      (
        e,
        id_read,
        read_u64-of page 32 h.vec_page v.vec_page_lt
            (Reads-front page 32 vec (slot ++ count) at_vec),
        read_u16-of page 40 h.vec_slot v.vec_slot_lt (Reads-front page 40 slot count at_slot),
        get_elem-of-range page 42 0 (length h.layers) [] at_count,
        decode_layers-of h.layers page page_no 43 v.layers_ok at_layers,
        U.from_bytes-to_bytes h.record_id,
      )
      refl

-- Every node whose numbers fit their widths, with at most 255 layers, fewer than 2^16 neighbors in
-- each and none of them page 0, and whose body fits a page of the given size, is encoded, and
-- decoding the page returns the node.
pub decode-encode_node :
    (x : Xxh3) (U : Ulids) (h : HnswNode U) (page_size page_no : ℕ)
    → IsNode U h
    → 16 + length (front_bytes U h ++ all_layers h.layers) + 8 ≤ page_size
    → (page : Bytes) × (encode x U h page_size ≡ some page) × (decode U page page_no ≡ ok h)
unfolding encode
decode-encode_node x U h page_size page_no v fits =
    let body = front_bytes U h ++ all_layers h.layers in
    let few : ltb 255 (length h.layers) ≡ false = ground (arith, v.layers_le) in
    (
      out x page_size body fits,
      rw (few, layer_bytes-all_layers h.layers v.layers_ok)
          (node_page-written x page_size body fits),
      decode-Reads U h (out x page_size body fits) page_no v (decode-out x page_size body fits)
          (out-body x page_size body fits),
    )
