-- ===== src/Mmu/Reset.antt =====
-- Stores under dirty tracking, and `reset_dirty` (crates/fs-mmu/src/lib.rs).
pub mod Blocks
use fuzzsoft.Base.{
  ℕ, ◌+◌, ◌-◌, ◌*◌, ◌/◌, ◌%◌, ◌^◌, ◌≤◌, ◌<◌, ◌≡◌, refl, sym, ap, ◌∙◌, true, false, ◌||◌, inl, inr,
  some, List, [], ◌∷◌, ◌++◌, Result, length, get_or, replicate, ◌==◌, arith, Bool-cases,
  Option-cases, length-set, get_or-set, length-replicate, get_or-replicate,
}
use fuzzsoft.Base.Bits.{bit-zero}
use fuzzsoft.Perm.{permits, perm_write, stored_perm}
use fuzzsoft.Fault.{Fault, Outcome, u32}
use fuzzsoft.Mmu.{
  Mmu, Dirty, WellFormed, offset, mark_block, mark_dirty, clear_bitmap, reset_dirty,
  enable_dirty_tracking, div_ceil, dirty_block,
}
use fuzzsoft.Mmu.Bytes.{write_byte, write_from, write_bytewise, write_bytes}
use fuzzsoft.Mmu.Marks.{marked, marked-mark_block, length-mark_block, test-marked}
use fuzzsoft.Mmu.Spans.{write_bytes-write_bytewise}
pub use fuzzsoft.Mmu.Reset.Blocks.{
  Within, clear_bitmap-mark_block, get_or-restore_blocks, length-restore_blocks, listed,
  listed-append, restore_blocks-eq,
}

-- What holds of the MMU since tracking began on `start`: everything that differs from `start` lies
-- in a listed block, and the bitmap lists the same blocks.
pub record Since (start : Mmu) (words : ℕ) (m : Mmu) : Type 0 where
  pub base : m.base ≡ start.base
  pub tracking : m.track_dirty ≡ true
  pub mem_size : length m.mem ≡ length start.mem
  pub perms_size : length m.perms ≡ length start.mem
  pub within : Within (length start.mem) m.dirty.blocks
  pub bitmap_size : length start.mem ≤ length m.dirty.bitmap * 4096
  pub clears : clear_bitmap m.dirty.blocks m.dirty.bitmap ≡ replicate words 0
  pub mem_agrees :
      (j : ℕ)
      → j < length start.mem
      → listed m.dirty.blocks (j / 64) ≡ false
      → get_or m.mem j 0 ≡ get_or start.mem j 0
  pub perms_agrees :
      (j : ℕ)
      → j < length start.mem
      → listed m.dirty.blocks (j / 64) ≡ false
      → get_or m.perms j 0 ≡ get_or start.perms j 0
  pub in_sync :
      (c : ℕ) → c / 64 < length m.dirty.bitmap → marked m.dirty c ≡ listed m.dirty.blocks c

Within-append :
    (len b : ℕ) (bs : List ℕ) → Within len bs → b * 64 < len → Within len (bs ++ (b ∷ []))
Within-append len b [] w lt = (lt, tt)
Within-append len b (c ∷ bs) w lt = (w.0, Within-append len b bs (w.1) lt)

Within-mark_block :
    (len b : ℕ) (d : Dirty)
    → Within len d.blocks
    → b * 64 < len
    → Within len (mark_block b d).blocks
unfolding mark_block
Within-mark_block len b d w lt = ground (arith, Within-append len b d.blocks w lt)

listed-mark_block :
    (d : Dirty) (b c : ℕ)
    → marked d b ≡ listed d.blocks b
    → listed (mark_block b d).blocks c ≡ b == c || listed d.blocks c
unfolding mark_block
listed-mark_block d b c h = elim (Bool-cases (b == c)) [
  | inl same ↦
      let e : b ≡ c = ground arith in
      rw (← e) (
        ground
          (arith, h, listed-append d.blocks b b, test-marked (get_or d.bitmap (b / 64) 0) (b % 64)))
  | inr other ↦ ground (arith, h, listed-append d.blocks b c)
]

-- A byte of a store is refused and the loop stops, or it is stored and the loop goes on.
pub write_from-cases :
    (m : Mmu) (addr len i b : ℕ) (bs : List ℕ) (P : Outcome Mmu (Unit {0}) → Type 0)
    → ((r : Result (Unit {0}) Fault) → P (r, m))
    → ((off : ℕ)
        → offset m (u32 (addr + i)) ≡ some off
        → off < length m.mem
        → permits perm_write (get_or m.perms off 0) ≡ true
        → P (write_from (write_byte m off b) addr len (i + 1) bs))
    → P (write_from m addr len i (b ∷ bs))
unfolding write_from
write_from-cases m addr len i b bs P stop next = elim (Option-cases (offset m (u32 (addr + i)))) [
  | inl out ↦ rw (out, write_from) (stop _)
  | inr (off, at) ↦
      rw (at, write_from)
        (elim (Bool-cases (permits perm_write (get_or m.perms off 0))) [
          | inl may ↦ rw may (next off at (ground arith) may)
          | inr may_not ↦ rw may_not (stop _)
        ])
]

-- The stores of a fuzz case, one `write` each, whatever each returns.
unfoldable pub stores : Mmu → List (ℕ × List ℕ) → Mmu
stores m [] = m
stores m ((addr, bs) ∷ ws) = stores (write_bytes m addr bs).1 ws

module _ (start : Mmu) (words : ℕ) where
  write_byte-Since :
      {m : Mmu} (off b : ℕ)
      → off < length start.mem
      → Since start words m
      → Since start words (write_byte m off b)
  unfolding write_byte mark_dirty
  write_byte-Since {m} off b lt s =
      let v = stored_perm (get_or m.perms off 0) in
      let d = m.dirty in
      let blk = off / 64 in
      let covered : blk / 64 < length d.bitmap = omega (arith, s.bitmap_size) in
      let same = s.in_sync blk covered in
      record {
        base = s.base;
        tracking = s.tracking;
        mem_size = length-set m.mem off b ∙ s.mem_size;
        perms_size = length-set m.perms off v ∙ s.perms_size;
        within =
            rw (s.tracking) (Within-mark_block (length start.mem) blk d (s.within) (omega arith));
        bitmap_size = rw (s.tracking) (rw length-mark_block (s.bitmap_size));
        clears = rw (s.tracking) (clear_bitmap-mark_block d blk words (s.clears));
        mem_agrees = λ j inside.
            rw (s.tracking, listed-mark_block d blk (j / 64) same)
              (ground (arith, s.mem_agrees j, get_or-set m.mem off j b 0));
        perms_agrees = λ j inside.
            rw (s.tracking, listed-mark_block d blk (j / 64) same)
              (ground (arith, s.perms_agrees j, get_or-set m.perms off j v 0));
        in_sync = λ c.
            rw (s.tracking, length-mark_block, listed-mark_block d blk c same)
              λ inside.
                marked-mark_block d blk c covered ∙ ap (λ t. blk == c || t) (s.in_sync c inside);
      }

  write_from-Since :
      (bs : List ℕ) (m : Mmu) (addr len i : ℕ)
      → Since start words m
      → Since start words (write_from m addr len i bs).1
  write_from-Since [] m addr len i s = unfold write_from in s
  write_from-Since (b ∷ bs) m addr len i s =
      write_from-cases m addr len i b bs (λ o. Since start words (o.1)) (λ _. s)
        (λ off at inside _.
          write_from-Since bs (write_byte m off b) addr len (i + 1)
            (write_byte-Since off b (omega (arith, s.mem_size)) s))

  pub Since-WellFormed :
      {m : Mmu} → start.base + length start.mem ≤ 2 ^ 32 → Since start words m → WellFormed m
  Since-WellFormed fits s = record {
    planes = s.perms_size ∙ sym (s.mem_size);
    fits = omega (arith, s.mem_size, s.base);
    covers = λ _. omega (arith, s.mem_size, s.bitmap_size);
  }

  pub write_bytes-Since :
      (m : Mmu) (addr : ℕ) (bs : List ℕ)
      → start.base + length start.mem ≤ 2 ^ 32
      → Since start words m
      → Since start words (write_bytes m addr bs).1
  write_bytes-Since m addr bs fits s =
      rw (write_bytes-write_bytewise m addr bs (Since-WellFormed fits s))
        (unfold write_bytewise in write_from-Since bs m addr (length bs) 0 s)

  -- Any run of stores, whatever each returns.
  stores-Since :
      (ws : List (ℕ × List ℕ)) (m : Mmu)
      → start.base + length start.mem ≤ 2 ^ 32
      → Since start words m
      → Since start words (stores m ws)
  unfolding stores
  stores-Since [] m fits s = s
  stores-Since ((addr, bs) ∷ ws) m fits s =
      stores-Since ws (write_bytes m addr bs).1 fits (write_bytes-Since m addr bs fits s)

unfoldable pub words_of : Mmu → ℕ
words_of m = div_ceil (div_ceil (length m.mem) dirty_block) 64

no_marks : (n c : ℕ) → marked (record { blocks = []; bitmap = replicate n 0 }) c ≡ false
no_marks n c = ground (arith, get_or-replicate {A = ℕ} n (c / 64) 0, bit-zero (c % 64))

pub Since-enable :
    (m : Mmu)
    → length m.perms ≡ length m.mem
    → Since (enable_dirty_tracking m) (words_of m) (enable_dirty_tracking m)
unfolding enable_dirty_tracking words_of
Since-enable m planes = record {
  base = refl;
  tracking = refl;
  mem_size = refl;
  perms_size = planes;
  within = tt;
  bitmap_size = omega (arith, length-replicate {A = ℕ} (words_of m) 0);
  clears = unfold clear_bitmap in refl;
  mem_agrees = λ j inside h. refl;
  perms_agrees = λ j inside h. refl;
  in_sync = λ c inside. no_marks (words_of m) c;
}

pub reset_dirty-Since :
    (m k : Mmu)
    → length m.perms ≡ length m.mem
    → Since (enable_dirty_tracking m) (words_of m) k
    → reset_dirty m.mem m.perms k ≡ enable_dirty_tracking m
unfolding enable_dirty_tracking words_of reset_dirty
reset_dirty-Since m k planes s = λ i. record {
  base = s.base i;
  mem =
      restore_blocks-eq m.mem k.dirty.blocks k.mem (rw (s.mem_size) (s.within)) (s.mem_size)
        (λ j inside. s.mem_agrees j (omega (arith, s.mem_size))) i;
  perms =
      restore_blocks-eq m.perms k.dirty.blocks k.perms (rw (s.perms_size) (s.within))
        (s.perms_size ∙ sym planes) (λ j inside. s.perms_agrees j (omega (arith, s.perms_size))) i;
  track_dirty = s.tracking i;
  dirty = record { blocks = []; bitmap = s.clears i };
}

-- From a RAM whose planes have one length and whose window ends by 2 ^ 32: after dirty tracking is
-- enabled and any list of stores has run, those that fault included, `reset_dirty` from the planes
-- of the start gives back the RAM that tracking began with: contents, permissions, dirty list and
-- bitmap.
pub reset_dirty-stores :
    (m : Mmu) (ws : List (ℕ × List ℕ))
    → length m.perms ≡ length m.mem
    → m.base + length m.mem ≤ 2 ^ 32
    → reset_dirty m.mem m.perms (stores (enable_dirty_tracking m) ws) ≡ enable_dirty_tracking m
reset_dirty-stores m ws planes fits =
    reset_dirty-Since m (stores (enable_dirty_tracking m) ws) planes (
      stores-Since (enable_dirty_tracking m) (words_of m) ws (enable_dirty_tracking m)
        (unfold enable_dirty_tracking in fits) (Since-enable m planes))
