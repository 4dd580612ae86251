-- ===== src/Mmu/Spans.antt =====
-- The fast path of `write` leaves exactly the MMU that the byte loop leaves: both planes and the
-- dirty list in its order.
use fuzzsoft.Base.{
  ℕ, suc, ◌+◌, ◌-◌, ◌/◌, ◌^◌, ◌≤◌, ◌≡◌, sym, ap, ◌∙◌, true, some, List, [], ◌∷◌, ok, length, get_or,
  set, slice, splice, update_range, all, if◌then◌else◌, arith, slice-set, length-set,
}
use fuzzsoft.Perm.{permits, perm_write, stored_perm}
use fuzzsoft.Fault.{u32, window_offset}
use fuzzsoft.Ram.{store_from}
use fuzzsoft.Mmu.{Mmu, WellFormed, contents}
use fuzzsoft.Mmu.Refines.{write_from-store_from}
use fuzzsoft.Mmu.Bytes.{
  write_byte, write_from, write_bytewise, write_bytes, write_span, mark_blocks, mark_bytes,
}
use fuzzsoft.Mmu.Marks.{mark_bytes-mark_blocks}

-- What the byte loop leaves after it has stored all bytes.
abbrev pub stored_bytes : Mmu → ℕ → List ℕ → Mmu
stored_bytes m off bs = record m {
  mem = splice m.mem off bs;
  perms = update_range stored_perm m.perms off (length bs) 0;
  dirty = if m.track_dirty then mark_bytes off (length bs) m.dirty else m.dirty;
}

stored_bytes-step :
    (m : Mmu) (off b : ℕ) (bs : List ℕ)
    → stored_bytes (write_byte m off b) (off + 1) bs ≡ stored_bytes m off (b ∷ bs)
unfolding write_byte splice update_range mark_bytes
stored_bytes-step m off b bs = ground arith

slice-permits-step :
    (xs : List ℕ) (off n : ℕ) (v : ℕ)
    → all (permits perm_write) (slice xs off (suc n) 0) ≡ true
    → (permits perm_write (get_or xs off 0) ≡ true)
      × (all (permits perm_write) (slice (set xs off v) (off + 1) n 0) ≡ true)
unfolding slice
slice-permits-step xs off n v h = ground (arith, slice-set n xs off (off + 1) v 0 (omega arith))

write_from-step :
    (m : Mmu) (addr len i off b : ℕ) (bs : List ℕ)
    → window_offset m.base (length m.mem) (u32 (addr + i)) ≡ some off
    → permits perm_write (get_or m.perms off 0) ≡ true
    → write_from m addr len i (b ∷ bs) ≡ write_from (write_byte m off b) addr len (i + 1) bs
unfolding write_from
write_from-step m addr len i off b bs at permitted = ground arith

pub write_from-stored_bytes :
    (bs : List ℕ) (m : Mmu) (addr len i off : ℕ)
    → m.base ≤ addr
    → m.base + length m.mem ≤ 2 ^ 32
    → off ≡ addr - m.base + i
    → off + length bs ≤ length m.mem
    → all (permits perm_write) (slice m.perms off (length bs) 0) ≡ true
    → write_from m addr len i bs ≡ (ok tt, stored_bytes m off bs)
unfolding write_byte
write_from-stored_bytes [] m addr len i off lo fits at room perms =
    unfold write_from splice update_range mark_bytes in ground arith
write_from-stored_bytes (b ∷ bs) m addr len i off lo fits at room perms =
    let here : window_offset m.base (length m.mem) (u32 (addr + i)) ≡ some off = ground arith in
    let step =
      slice-permits-step m.perms off (length bs) (stored_perm (get_or m.perms off 0)) perms in
    let same = length-set {0} m.mem off b in
    let ih =
      write_from-stored_bytes bs (write_byte m off b) addr len (i + 1) (off + 1) lo
        (omega (arith, same)) (omega arith) (omega (arith, same)) (step.1) in
    write_from-step m addr len i off b bs here (step.0)
    ∙ ih
    ∙ ap (λ s. (ok tt, s)) (stored_bytes-step m off b bs)

dirty_span :
    (m : Mmu) (off n : ℕ)
    → WellFormed m
    → m.track_dirty ≡ true
    → off + suc n ≤ length m.mem
    → mark_blocks (off / 64) ((off + suc n - 1) / 64 + 1 - off / 64) m.dirty
      ≡ mark_bytes off (suc n) m.dirty
dirty_span m off n w on room =
    let covered = w.covers on in
    let last : off + suc n - 1 ≡ off + n = omega arith in
    rw last (sym (mark_bytes-mark_blocks n off m.dirty (omega arith)))

write_span-stored_bytes :
    (m : Mmu) (off : ℕ) (bs : List ℕ)
    → WellFormed m
    → off + length bs ≤ length m.mem
    → write_span m off bs ≡ stored_bytes m off bs
unfolding write_span
write_span-stored_bytes m off [] w room = unfold mark_bytes in ground arith
write_span-stored_bytes m off (b ∷ bs) w room = ground (arith, dirty_span m off (length bs) w)

-- On a well-formed flat RAM `write` gives the result, the two planes and the dirty list of the byte
-- loop, whichever path it takes.
pub write_bytes-write_bytewise :
    (m : Mmu) (addr : ℕ) (bs : List ℕ)
    → WellFormed m
    → write_bytes m addr bs ≡ write_bytewise m addr bs
unfolding write_bytes write_bytewise
write_bytes-write_bytewise m addr bs w =
    let off = addr - m.base in
    ground (
      arith,
      write_span-stored_bytes m off bs w,
      write_from-stored_bytes bs m addr (length bs) 0 off,
      w.fits,
    )

-- A write to a well-formed flat RAM returns what `Ram` promises and leaves the RAM that `Ram`
-- promises, also where it faults after some bytes.
pub write_bytes-store_from :
    (m : Mmu) (addr : ℕ) (bs : List ℕ)
    → WellFormed m
    → ((write_bytes m addr bs).0 ≡ (store_from (contents m) addr (length bs) 0 bs).0)
      × (contents (write_bytes m addr bs).1 ≡ (store_from (contents m) addr (length bs) 0 bs).1)
write_bytes-store_from m addr bs w =
    rw (write_bytes-write_bytewise m addr bs w)
      (unfold write_bytewise in write_from-store_from m addr (length bs) 0 bs (w.planes))
