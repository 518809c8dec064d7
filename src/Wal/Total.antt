-- ===== src/Wal/Total.antt =====
-- The scan on any bytes: it returns, and what it returns lies in the file.
use embedmind.Prelude.{
  ℕ, zero, suc, ◌+◌, ◌^◌, ◌≤◌, ◌<◌, ◌≡◌, ◌⊎◌, inl, inr, refl, true, none, some, List, [], ◌∷◌,
  length, take, drop, All, arith, leb, ltb, Bool-cases, Option-cases,
}
use embedmind.Error.{Result, ok}
use embedmind.Bytes.{Bytes, get_range}
use embedmind.Format.{Xxh3}
use embedmind.Format.WalFrame.{WalHeader, WalFrameHeader, decode_wal_header, decode_frame}
use embedmind.PageMap.{PageMap, insert, extend, All-insert}
use embedmind.Wal.{
  RecoveredWal, ScanState, read_at, interleaved, take_frame, scan_start, scan_loop, scan,
}
use embedmind.Wal.Durability.{All-append}

-- A page image at the offset of the entry lies in the file.
abbrev pub InFile : Bytes → ℕ → ℕ × ℕ → Type 0
InFile file page_size e = e.1 + page_size ≤ length file

All-extend :
    (P : ℕ × ℕ → Type 0) (items : List (ℕ × ℕ)) (m : PageMap ℕ)
    → All P m
    → All P items
    → All P (extend m items)
unfolding extend
All-extend P [] m hm hs = hm
All-extend P ((k, v) ∷ items) m hm (h, hs) =
    All-extend P items (insert k v m) (All-insert P k v m h hm) hs

-- The entries of the loop's variables all lie in the file.
record IsInside (file : Bytes) (page_size : ℕ) (s : ScanState) : Type 0 where
  committed : All (InFile file page_size) s.committed
  pending : All (InFile file page_size) s.pending

take_frame-IsInside :
    (file : Bytes) (page_size : ℕ) (s : ScanState) (frame : WalFrameHeader) (image : ℕ)
    → IsInside file page_size s
    → image + page_size ≤ length file
    → IsInside file page_size (take_frame s frame image)
unfolding take_frame
take_frame-IsInside file page_size s frame image h b =
    let all =
      All-append (InFile file page_size) s.pending ((frame.page_no, image) ∷ []) h.pending
        (b, tt) in
    elim (Bool-cases frame.commit) [
      | inl y ↦ rw y (record {
        committed = All-extend (InFile file page_size) _ s.committed h.committed all;
        pending = tt;
      })
      | inr n ↦ rw n (record { committed = h.committed; pending = all })
    ]

read_at-inside :
    (file : Bytes) (offset n : ℕ)
    → offset + n ≤ length file
    → read_at file offset n ≡ ok (take n (drop offset file))
unfolding read_at get_range
read_at-inside file offset n h =
    let w : leb (offset + n) (length file) ≡ true = ground arith in rw w

abbrev LoopResult : Bytes → ℕ → Result (PageMap ℕ) → Type 0
LoopResult file page_size r = (m : PageMap ℕ) × (r ≡ ok m) × All (InFile file page_size) m

scan_loop_total :
    (x : Xxh3) (fuel : ℕ) (file : Bytes) (header : WalHeader) (s : ScanState) (offset : ℕ)
    → length file < offset + fuel
    → offset ≤ length file
    → IsInside file header.page_size s
    → LoopResult file header.page_size (scan_loop x fuel file header s offset)
unfolding scan_loop
scan_loop_total x zero file header s offset lt le h = absurd (omega arith)
scan_loop_total x (suc fuel) file header s offset lt le h =
    let end = offset + (32 + header.page_size) in
    elim (Bool-cases (leb (2 ^ 64) end)) [
      | inl big ↦ rw big (s.committed, refl, h.committed)
      | inr small ↦ elim (Bool-cases (ltb (length file) end)) [
        | inl past ↦ rw (small, past) (s.committed, refl, h.committed)
        | inr inside ↦
            let fits : end ≤ length file = ground arith in
            let efh = read_at-inside file offset 32 (omega arith) in
            let eimage = read_at-inside file (offset + 32) header.page_size (omega arith) in
            let fh : Bytes = take 32 (drop offset file) in
            let image : Bytes = take header.page_size (drop (offset + 32) file) in
            elim (Option-cases (decode_frame x fh image header.salt)) [
              | inl e ↦
                  (s.committed, rw (small, inside, efh) (ground (arith, eimage, e)), h.committed)
              | inr (frame, e) ↦ elim (Bool-cases (interleaved s.pending_txn frame.txn_id)) [
                | inl mixed ↦ (
                  s.committed,
                  rw (small, inside, efh) (ground (arith, eimage, e, mixed)),
                  h.committed,
                )
                | inr same ↦
                    let (m, em, found) =
                      scan_loop_total x fuel file header (take_frame s frame (offset + 32)) end
                        (omega arith) fits
                        (take_frame-IsInside file header.page_size s frame (offset + 32) h
                          (omega arith)) in
                    (m, rw (small, inside, efh) (ground (arith, eimage, e, same, em)), found)
              ]
            ]
      ]
    ]

-- The scan of any file at all returns: either nothing, or a page size and an index in which every
-- entry is the offset of a whole page image in the file.
pub scan_total :
    (x : Xxh3) (file : Bytes)
    → (scan x file ≡ ok none)
      ⊎ ((r : RecoveredWal) × (scan x file ≡ ok (some r))
          × All (InFile file r.page_size) r.committed)
unfolding scan
scan_total x file = elim (Bool-cases (ltb (length file) 32)) [
  | inl short ↦ inl (rw short refl)
  | inr long ↦
      let head : Bytes = take 32 (drop 0 file) in
      let read = read_at-inside file 0 32 (ground arith) in
      elim (Option-cases (decode_wal_header head)) [
        | inl e ↦ inl (rw long (ground (arith, read, e)))
        | inr (h, e) ↦
            let (m, em, inside) =
              scan_loop_total x (length file) file h scan_start 32 (omega arith) (ground arith)
                (record { committed = tt; pending = tt }) in
            inr (
              record { page_size = h.page_size; committed = m },
              rw long (ground (arith, read, e, em)),
              inside,
            )
      ]
]
