-- ===== src/Fts/Runs/Blocks.antt =====
-- crates/embedmind-core/src/index/fts.rs: `decode_for_block` at what `encode_for_block` wrote, its
-- two widths and its two streams.
use Prim.Native.Nat.{max}
use embedmind.Prelude.{
  ℕ, suc, ◌+◌, ◌*◌, ◌^◌, ◌<◌, ◌≤◌, ◌≡◌, refl, ap, ◌∙◌, true, ◌&&◌, List, [], ◌∷◌, ◌++◌, some,
  append-nil, append_assoc, length, length-append, leb, arith,
}
use embedmind.Error.{ok}
use embedmind.Bytes.{Bytes}
use embedmind.Bytes.Le.{length-le_bytes}
use embedmind.Bytes.Reads.{Reads, Reads-front, Reads-next, Reads-at, Reads-fits}
use embedmind.Fts.{Posting}
use embedmind.Fts.Varint.RoundTrip.{Reads-head}
use embedmind.Fts.Fixed.{
  checked, byte_width, put_fixed, byte_width-fits, byte_width-le, byte_width_pos, put_fixed_lem,
  read_fixed-put_fixed,
}
use embedmind.Fts.Runs.{
  wrapping_sub, max_delta, max_tf, delta_stream, tf_stream, encode_for_block, for_rounds,
  decode_for_block,
}
use embedmind.Fts.Runs.RoundTrip.{wrapping_sub_lt}
use embedmind.Fts.Runs.Sorted.{Valid, IsSorted, next_id-wrapping_sub, term_freq_of_lem}

length-put_fixed : (v w : ℕ) → w ≤ 16 → length (put_fixed v w) ≡ w
length-put_fixed v w h = ap length (put_fixed_lem v w h) ∙ length-le_bytes w v

length-delta_stream :
    (w prev : ℕ) (ps : List Posting) → w ≤ 16 → length (delta_stream w prev ps) ≡ length ps * w
unfolding delta_stream
length-delta_stream w prev [] h = omega arith
length-delta_stream w prev (p ∷ ps) h =
    let tail = delta_stream w p.record_id ps in
    omega (
      arith,
      length-append (put_fixed (wrapping_sub p.record_id prev) w) tail,
      length-put_fixed (wrapping_sub p.record_id prev) w h,
      length-delta_stream w p.record_id ps h,
    )

length-tf_stream : (w : ℕ) (ps : List Posting) → w ≤ 16 → length (tf_stream w ps) ≡ length ps * w
unfolding tf_stream
length-tf_stream w [] h = omega arith
length-tf_stream w (p ∷ ps) h = omega (
  arith,
  length-append (put_fixed p.term_freq w) (tf_stream w ps),
  length-put_fixed p.term_freq w h,
  length-tf_stream w ps h,
)

max_left : (a b x : ℕ) → max a b < x → a < x
max_left a b x h = omega arith

max_right : (a b x : ℕ) → max a b < x → b < x
max_right a b x h = omega arith

for_rounds_lem :
    (ps : List Posting) (i prev dw tw delta_off tf_off page_no : ℕ) (body : Bytes)
    (acc : List Posting)
    → Valid i prev ps
    → dw ≤ 16
    → tw ≤ 16
    → length body < 2 ^ 64
    → max_delta prev ps < 256 ^ dw
    → max_tf ps < 256 ^ tw
    → Reads body delta_off (delta_stream dw prev ps)
    → Reads body tf_off (tf_stream tw ps)
    → for_rounds (length ps) body page_no dw tw i prev delta_off tf_off acc
      ≡ ok (acc ++ ps, tf_off + length ps * tw)
unfolding for_rounds delta_stream tf_stream max_delta max_tf
for_rounds_lem [] i prev dw tw delta_off tf_off page_no body acc v hd ht room md mt rd rt =
    let e : tf_off + 0 * tw ≡ tf_off = omega arith in rw (append-nil, e) refl
for_rounds_lem (p ∷ ps) i prev dw tw delta_off tf_off page_no body acc (a, c, d, e, rest) hd ht room
      md mt rd rt =
    let delta = wrapping_sub p.record_id prev in
    let deltas = delta_stream dw p.record_id ps in
    let tfs = tf_stream tw ps in
    let first_delta = Reads-front body delta_off (put_fixed delta dw) deltas rd in
    let first_tf = Reads-front body tf_off (put_fixed p.term_freq tw) tfs rt in
    let delta_room : delta_off + dw < 2 ^ 64 = omega (
      arith,
      Reads-fits body delta_off (put_fixed delta dw) first_delta,
      length-put_fixed delta dw hd,
    ) in
    let tf_room : tf_off + tw < 2 ^ 64 = omega (
      arith,
      Reads-fits body tf_off (put_fixed p.term_freq tw) first_tf,
      length-put_fixed p.term_freq tw ht,
    ) in
    let off_eq : tf_off + tw + length ps * tw ≡ tf_off + suc (length ps) * tw = omega arith in
    rw
      (
        read_fixed-put_fixed delta delta_off dw page_no body hd
            (max_left delta (max_delta p.record_id ps) (256 ^ dw) md) delta_room first_delta,
        next_id-wrapping_sub page_no i prev p.record_id a c,
        read_fixed-put_fixed p.term_freq tf_off tw page_no body ht
            (max_left p.term_freq (max_tf ps) (256 ^ tw) mt) tf_room first_tf,
        term_freq_of_lem page_no p.term_freq d e,
      )
      (for_rounds_lem ps (suc i) p.record_id dw tw (delta_off + dw) (tf_off + tw) page_no body
          (acc ++ p ∷ []) rest hd ht room (max_right delta (max_delta p.record_id ps) (256 ^ dw) md)
          (max_right p.term_freq (max_tf ps) (256 ^ tw) mt)
          (Reads-next body delta_off dw (put_fixed delta dw) deltas (length-put_fixed delta dw hd)
            rd)
          (Reads-next body tf_off tw (put_fixed p.term_freq tw) tfs
            (length-put_fixed p.term_freq tw ht) rt)
        ∙ rw (off_eq, append_assoc acc (p ∷ []) ps) refl)

max_delta_lt : (prev : ℕ) (ps : List Posting) → max_delta prev ps < 2 ^ 128
unfolding max_delta
max_delta_lt prev [] = omega arith
max_delta_lt prev (p ∷ ps) =
    omega (arith, wrapping_sub_lt p.record_id prev, max_delta_lt p.record_id ps)

pub max_tf_lt : (i prev : ℕ) (ps : List Posting) → Valid i prev ps → max_tf ps < 2 ^ 32
unfolding max_tf
max_tf_lt i prev [] v = omega arith
max_tf_lt i prev (p ∷ ps) (a, c, d, e, rest) = omega (arith, max_tf_lt (suc i) p.record_id ps rest)

-- The tests of `decode_for_block` before its streams.
widths_pass :
    (dw tw : ℕ)
    → 1 ≤ dw
    → dw ≤ 16
    → 1 ≤ tw
    → tw ≤ 4
    → (leb 1 dw && (leb dw 16 && (leb 1 tw && leb tw 4))) ≡ true
widths_pass dw tw a b c d = ground arith

pub checked_lem : (n : ℕ) → n < 2 ^ 64 → checked n ≡ some n
unfolding checked
checked_lem n h = ground arith

decode_for_block-streams :
    (ps acc : List Posting) (dw tw off page_no : ℕ) (body : Bytes)
    → IsSorted ps
    → 1 ≤ dw
    → dw ≤ 16
    → 1 ≤ tw
    → tw ≤ 4
    → length body < 2 ^ 64
    → max_delta 0 ps < 256 ^ dw
    → max_tf ps < 256 ^ tw
    → Reads body off (dw ∷ tw ∷ (delta_stream dw 0 ps ++ tf_stream tw ps))
    → decode_for_block body off (length ps) page_no acc
      ≡ ok (acc ++ ps, off + 2 + length ps * dw + length ps * tw)
unfolding decode_for_block
decode_for_block-streams ps acc dw tw off page_no body sorted d1 d16 t1 t4 room md mt reads =
    let deltas = delta_stream dw 0 ps in
    let tfs = tf_stream tw ps in
    let at_tw = Reads-next body off 1 (dw ∷ []) (tw ∷ (deltas ++ tfs)) refl reads in
    let at_streams : Reads body (off + 2) (deltas ++ tfs) =
      Reads-at body (off + 1 + 1) (off + 2) (deltas ++ tfs) (omega arith)
        (Reads-next body (off + 1) 1 (tw ∷ []) (deltas ++ tfs) refl at_tw) in
    let len_d = length-delta_stream dw 0 ps d16 in
    let len_t : length tfs ≡ length ps * tw = length-tf_stream tw ps (omega arith) in
    let fits : off + 2 + length ps * (dw + tw) ≤ length body = omega (
      arith,
      Reads-fits body (off + 2) (deltas ++ tfs) at_streams,
      length-append deltas tfs,
      len_d,
      len_t,
    ) in
    let small : length ps * (dw + tw) < 2 ^ 64 = omega arith in
    let full : leb (off + 2 + length ps * (dw + tw)) (length body) ≡ true = ground arith in
    rw
      (
        Reads-head body off dw (tw ∷ (deltas ++ tfs)) reads,
        Reads-head body (off + 1) tw (deltas ++ tfs) at_tw,
        widths_pass dw tw d1 d16 t1 t4,
        checked_lem (length ps * (dw + tw)) small,
        checked_lem (off + 2) (omega arith),
        checked_lem (off + 2 + length ps * (dw + tw)) (omega arith),
        full,
      )
      (for_rounds_lem ps 0 0 dw tw (off + 2) (off + 2 + length ps * dw) page_no body acc sorted d16
        (omega arith) room md mt (Reads-front body (off + 2) deltas tfs at_streams)
        (Reads-next body (off + 2) (length ps * dw) deltas tfs len_d at_streams))

pub length-encode_for_block :
    (ps : List Posting)
    → IsSorted ps
    → length (encode_for_block ps)
      ≡ 2 + length ps * byte_width (max_delta 0 ps) + length ps * byte_width (max_tf ps)
unfolding encode_for_block
length-encode_for_block ps sorted =
    let dw = byte_width (max_delta 0 ps) in
    let tw = byte_width (max_tf ps) in
    let t4 : tw ≤ 4 = byte_width-le 3 (max_tf ps) (max_tf_lt 0 0 ps sorted) in
    let d16 : dw ≤ 16 = byte_width-le 15 (max_delta 0 ps) (max_delta_lt 0 ps) in
    omega (
      arith,
      length-append (delta_stream dw 0 ps) (tf_stream tw ps),
      length-delta_stream dw 0 ps d16,
      length-tf_stream tw ps (omega arith),
    )

-- A run in streams of the least widths is read back behind the entries that were there.
pub decode_for_block-encode :
    (ps acc : List Posting) (off page_no : ℕ) (body : Bytes)
    → IsSorted ps
    → length body < 2 ^ 64
    → Reads body off (encode_for_block ps)
    → decode_for_block body off (length ps) page_no acc
      ≡ ok (acc ++ ps, off + length (encode_for_block ps))
decode_for_block-encode ps acc off page_no body sorted room reads =
    let tf_lt = max_tf_lt 0 0 ps sorted in
    let dw = byte_width (max_delta 0 ps) in
    let tw = byte_width (max_tf ps) in
    let t4 : tw ≤ 4 = byte_width-le 3 (max_tf ps) tf_lt in
    let d16 : dw ≤ 16 = byte_width-le 15 (max_delta 0 ps) (max_delta_lt 0 ps) in
    let len : off + 2 + length ps * dw + length ps * tw ≡ off + length (encode_for_block ps) =
      omega (arith, length-encode_for_block ps sorted) in
    decode_for_block-streams ps acc dw tw off page_no body sorted (byte_width_pos (max_delta 0 ps))
      d16 (byte_width_pos (max_tf ps)) t4 room
      (byte_width-fits (max_delta 0 ps) dw (max_delta_lt 0 ps) (omega arith))
      (byte_width-fits (max_tf ps) tw (omega arith) (omega arith))
      (unfold encode_for_block in reads)
    ∙ rw len refl
