-- ===== src/Mmu/Bytes.antt =====
-- The byte paths of the flat MMU: a fast path over a whole slice, and a loop that finds the exact
-- byte at fault; and the accesses of a fixed width (crates/fs-mmu/src/lib.rs).
use fuzzsoft.Base.{
  ℕ, zero, suc, ◌+◌, ◌-◌, ◌/◌, Bool, ◌&&◌, none, some, List, [], ◌∷◌, Result, ok, err, map_ok,
  and_then, length, get_or, set, slice, splice, update_range, all, ltb, leb, if◌then◌else◌,
}
use fuzzsoft.Perm.{permits, perm_read, perm_write, perm_exec, stored_perm}
use fuzzsoft.Fault.{
  Access, read, write, exec, unmapped, permission, Fault, fault, Outcome, u32, check_align,
  to_le_bytes, from_le_bytes,
}
use fuzzsoft.Mmu.{Mmu, Dirty, offset, mark_dirty, mark_block, dirty_block}

-- `off + len <= self.mem.len() && self.perms[off..off + len].iter().all(|&p| p & need != 0)`.
abbrev pub span_permits : ℕ → Mmu → ℕ → ℕ → Bool
span_permits need m off len =
    leb (off + len) (length m.mem) && all (permits need) (slice m.perms off len 0)

-- The loop of `read_bytewise` (and of `fetch_bytes`), from byte `i` on.
unfoldable pub read_from : ℕ → Access → Mmu → ℕ → ℕ → ℕ → ℕ → Result (List ℕ) Fault
read_from need access m addr len i zero = ok []
read_from need access m addr len i (suc n) = elim (offset m (u32 (addr + i))) [
  | none ↦ err (fault (u32 (addr + i)) len access unmapped)
  | some off ↦
      if permits need (get_or m.perms off 0)
      then map_ok (λ bs. get_or m.mem off 0 ∷ bs) (read_from need access m addr len (i + 1) n)
      else err (fault (u32 (addr + i)) len access permission)
]

unfoldable pub read_bytewise : Mmu → ℕ → ℕ → Result (List ℕ) Fault
unfolding read_from
read_bytewise m addr len = read_from perm_read read m addr len 0 len

unfoldable pub read_bytes : Mmu → ℕ → ℕ → Result (List ℕ) Fault
read_bytes m addr len = elim (offset m addr) [
  | none ↦ read_bytewise m addr len
  | some off ↦
      if span_permits perm_read m off len
      then ok (slice m.mem off len 0)
      else read_bytewise m addr len
]

unfoldable pub fetch_bytes : Mmu → ℕ → ℕ → Result (List ℕ) Fault
fetch_bytes m addr len = elim (offset m addr) [
  | none ↦ read_from perm_exec exec m addr len 0 len
  | some off ↦
      if span_permits perm_exec m off len
      then ok (slice m.mem off len 0)
      else read_from perm_exec exec m addr len 0 len
]

-- One byte of `write_bytewise`.
unfoldable pub write_byte : Mmu → ℕ → ℕ → Mmu
write_byte m off b = record m {
  mem = set m.mem off b;
  perms = set m.perms off (stored_perm (get_or m.perms off 0));
  dirty = if m.track_dirty then mark_dirty off m.dirty else m.dirty;
}

unfoldable pub write_from : Mmu → ℕ → ℕ → ℕ → List ℕ → Outcome Mmu (Unit {0})
write_from m addr len i [] = (ok tt, m)
write_from m addr len i (b ∷ bs) = elim (offset m (u32 (addr + i))) [
  | none ↦ (err (fault (u32 (addr + i)) len write unmapped), m)
  | some off ↦
      if permits perm_write (get_or m.perms off 0)
      then write_from (write_byte m off b) addr len (i + 1) bs
      else (err (fault (u32 (addr + i)) len write permission), m)
]

unfoldable pub write_bytewise : Mmu → ℕ → List ℕ → Outcome Mmu (Unit {0})
write_bytewise m addr bytes = write_from m addr (length bytes) 0 bytes

-- `for blk in first..first + n`.
unfoldable pub mark_blocks : ℕ → ℕ → Dirty → Dirty
mark_blocks first zero d = d
mark_blocks first (suc n) d = mark_blocks (first + 1) n (mark_block first d)

-- `for i in off..off + n { self.mark_dirty(i) }`.
unfoldable pub mark_bytes : ℕ → ℕ → Dirty → Dirty
mark_bytes off zero d = d
mark_bytes off (suc n) d = mark_bytes (off + 1) n (mark_dirty off d)

-- The fast path of `write`: both planes at once, then the blocks `off / 64 ..= (off + len - 1) / 64`.
unfoldable pub write_span : Mmu → ℕ → List ℕ → Mmu
write_span m off bytes = record m {
  mem = splice m.mem off bytes;
  perms = update_range stored_perm m.perms off (length bytes) 0;
  dirty =
      if m.track_dirty && ltb 0 (length bytes)
      then mark_blocks (off / dirty_block)
          ((off + length bytes - 1) / dirty_block + 1 - off / dirty_block) m.dirty
      else m.dirty;
}

unfoldable pub write_bytes : Mmu → ℕ → List ℕ → Outcome Mmu (Unit {0})
write_bytes m addr bytes = elim (offset m addr) [
  | none ↦ write_bytewise m addr bytes
  | some off ↦
      if span_permits perm_write m off (length bytes)
      then (ok tt, write_span m off bytes)
      else write_bytewise m addr bytes
]

-- `read_u8`, `read_u16` and `read_u32`: `n` is 1, 2 or 4.
unfoldable pub read_word : Mmu → ℕ → ℕ → Result ℕ Fault
read_word m addr n =
    and_then (check_align addr n read) (λ _. map_ok from_le_bytes (read_bytes m addr n))

unfoldable pub write_word : Mmu → ℕ → ℕ → ℕ → Outcome Mmu (Unit {0})
write_word m addr n v = elim (check_align addr n write) [
  | ok _ ↦ write_bytes m addr (to_le_bytes n v)
  | err e ↦ (err e, m)
]

-- `fetch_u16` and `fetch_u32`.
unfoldable pub fetch_word : Mmu → ℕ → ℕ → Result ℕ Fault
fetch_word m addr n =
    and_then (check_align addr n exec) (λ _. map_ok from_le_bytes (fetch_bytes m addr n))
