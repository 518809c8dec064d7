-- ===== src/Vfs/Sector.antt =====
-- crates/embedmind-core/src/storage/sim.rs: the seeded generator, and which sectors survive.
use embedmind.Prelude.{
  ℕ, zero, suc, ◌+◌, ◌-◌, ◌*◌, ◌/◌, ◌%◌, ◌^◌, Bool, none, [], ◌∷◌, ◌++◌, length, take, drop, ltb,
  ◌==◌, if◌then◌else◌,
}
use embedmind.Bytes.{Bytes, splice}
use embedmind.Vfs.Files.{FileTable, SimFileData, resize}
use Prim.Native.Nat.{bit_xor, bit_and, min}

abbrev pub sector_size : ℕ
sector_size = 512

-- `SplitMix64::next_u64`: the value, and the new state.
next_u64 : ℕ → ℕ × ℕ
next_u64 rng =
    let s = (rng + 0x9E3779B97F4A7C15) % 2 ^ 64 in
    let z = bit_xor s (s / 2 ^ 30) * 0xBF58476D1CE4E5B9 % 2 ^ 64 in
    let z = bit_xor z (z / 2 ^ 27) * 0x94D049BB133111EB % 2 ^ 64 in (bit_xor z (z / 2 ^ 31), s)

next_bool : ℕ → Bool × ℕ
unfolding next_u64
next_bool rng = let (v, s) = next_u64 rng in (bit_and v 1 == 1, s)

-- The sectors of a torn write, from `pos` on: each coin decides whether the sector's part of
-- `buf` is stored. A round moves on by a byte at least.
tear_loop : ℕ → ℕ → ℕ → Bytes → ℕ → Bytes → Bytes
unfolding next_bool
tear_loop zero rng start buf pos cur = cur
tear_loop (suc fuel) rng start buf pos cur =
    let end = start + length buf in
    let chunk_end = min ((pos / sector_size + 1) * sector_size) end in
    let coin = next_bool rng in
    let cur' =
      if coin.0 then splice cur pos (take (chunk_end - pos) (drop (pos - start) buf)) else cur in
    let rest = tear_loop fuel coin.1 start buf chunk_end cur' in if ltb pos end then rest else cur

unfoldable pub tear : ℕ → ℕ → Bytes → Bytes → Bytes
unfolding tear_loop
tear seed start buf cur = tear_loop (length buf) seed start buf start cur

-- `data.get(off + i).copied().unwrap_or(0)` for the bytes of a sector.
sector_of : Bytes → ℕ → ℕ → Bytes
sector_of src off n = resize n (drop off src)

rebuild_loop : ℕ → ℕ → SimFileData → ℕ → ℕ → Bytes × ℕ
unfolding next_bool sector_of resize
rebuild_loop zero rng d final_len off = ([], rng)
rebuild_loop (suc fuel) rng d final_len off =
    let end = min (off + sector_size) final_len in
    let coin = next_bool rng in
    let src = if coin.0 then d.current else d.synced in
    let rest = rebuild_loop fuel coin.1 d final_len end in
    if ltb off final_len then (sector_of src off (end - off) ++ rest.0, rest.1) else ([], rng)

-- A file after a power failure: a coin for its length, then one for each sector.
rebuild : ℕ → SimFileData → SimFileData × ℕ
unfolding rebuild_loop next_bool
rebuild rng d =
    let coin = next_bool rng in
    let final_len = if coin.0 then length d.current else length d.synced in
    let (bs, rng') = rebuild_loop final_len coin.1 d final_len 0 in
    (record { synced = bs; current = bs; locked_by = none }, rng')

unfoldable pub rebuild_all : ℕ → FileTable → FileTable
unfolding rebuild
rebuild_all rng [] = []
rebuild_all rng ((p, d) ∷ fs) = let (d', rng') = rebuild rng d in (p, d') ∷ rebuild_all rng' fs
