-- ===== src/Mmu.antt =====
-- The flat soft MMU of crates/fs-mmu/src/lib.rs: its state, its window, dirty-block tracking, and
-- the operations that set permissions. A `Vec` is a list; the code that is modelled indexes it in
-- range only (`WellFormed`), where it would otherwise panic.
pub mod Bytes
pub mod Device
pub mod FastPath
pub mod Marks
pub mod Protect
pub mod Words
pub mod Refines
pub mod Reset
pub mod Spans
use fuzzsoft.Base.{
  ℕ, zero, suc, ◌+◌, ◌-◌, ◌*◌, ◌/◌, ◌%◌, ◌^◌, ◌≤◌, min, Bool, true, false, ◌&&◌, Option, none, some,
  List, [], ◌∷◌, ◌++◌, ok, err, bit_and, bit_or, length, get_or, set, replicate, slice, splice, ltb,
  leb, ◌==◌, if◌then◌else◌, ◌≡◌,
}
use fuzzsoft.Perm.{with_vtaint}
use fuzzsoft.Fault.{write, unmapped, fault, Outcome, u32, window_offset}
use fuzzsoft.Ram.{Ram}

abbrev pub dirty_block : ℕ
dirty_block = 64

-- The fields `dirty` and `dirty_bitmap`.
pub record Dirty : Type 0 where
  pub blocks : List ℕ
  pub bitmap : List ℕ

pub record Mmu : Type 0 where
  pub base : ℕ
  pub mem : List ℕ
  pub perms : List ℕ
  pub track_dirty : Bool
  pub dirty : Dirty

abbrev pub div_ceil : ℕ → ℕ → ℕ
div_ceil a b = (a + b - 1) / b

unfoldable pub new : ℕ → ℕ → Mmu
new base size = record {
  base = base;
  mem = replicate size 0;
  perms = replicate size 0;
  track_dirty = false;
  dirty = record { blocks = []; bitmap = [] };
}

unfoldable pub enable_dirty_tracking : Mmu → Mmu
enable_dirty_tracking m = record m {
  track_dirty = true;
  dirty = record {
    blocks = [];
    bitmap = replicate (div_ceil (div_ceil (length m.mem) dirty_block) 64) 0;
  };
}

-- The body of `mark_dirty` once the block is known.
unfoldable pub mark_block : ℕ → Dirty → Dirty
mark_block blk d =
    if bit_and (get_or d.bitmap (blk / 64) 0) (2 ^ (blk % 64)) == 0
    then record {
      blocks = d.blocks ++ (blk ∷ []);
      bitmap = set d.bitmap (blk / 64) (bit_or (get_or d.bitmap (blk / 64) 0) (2 ^ (blk % 64)));
    }
    else d

unfoldable pub mark_dirty : ℕ → Dirty → Dirty
mark_dirty off d = mark_block (off / dirty_block) d

-- `self.dirty_bitmap[self.dirty[i] / 64] = 0` for every listed block.
unfoldable pub clear_bitmap : List ℕ → List ℕ → List ℕ
clear_bitmap [] bitmap = bitmap
clear_bitmap (blk ∷ blks) bitmap = clear_bitmap blks (set bitmap (blk / 64) 0)

unfoldable pub clear_dirty : Dirty → Dirty
unfolding clear_bitmap
clear_dirty d = record { blocks = []; bitmap = clear_bitmap d.blocks d.bitmap }

-- One block of `reset_dirty`, in one plane: `xs[start..end]` from `gold[start..end]`.
unfoldable pub restore_block : List ℕ → List ℕ → ℕ → List ℕ
restore_block gold xs blk =
    let start = blk * dirty_block in
    let end = min (start + dirty_block) (length xs) in
    splice xs start (slice gold start (end - start) 0)

unfoldable pub restore_blocks : List ℕ → List ℕ → List ℕ → List ℕ
unfolding restore_block
restore_blocks gold [] xs = xs
restore_blocks gold (blk ∷ blks) xs = restore_blocks gold blks (restore_block gold xs blk)

unfoldable pub reset_dirty : List ℕ → List ℕ → Mmu → Mmu
unfolding clear_dirty
reset_dirty gmem gperms m = record m {
  mem = restore_blocks gmem m.dirty.blocks m.mem;
  perms = restore_blocks gperms m.dirty.blocks m.perms;
  dirty = clear_dirty m.dirty;
}

abbrev pub offset : Mmu → ℕ → Option ℕ
offset m addr = window_offset m.base (length m.mem) addr

abbrev pub end : Mmu → ℕ
end m = u32 (m.base + u32 (length m.mem))

-- `map`, from byte `i` on.
unfoldable pub map_from : Mmu → ℕ → ℕ → List ℕ → ℕ → Outcome Mmu (Unit {0})
map_from m addr i [] perm = (ok tt, m)
map_from m addr i (b ∷ bs) perm = elim (offset m (u32 (addr + i))) [
  | none ↦ (err (fault (u32 (addr + i)) 1 write unmapped), m)
  | some off ↦
      map_from (record m { mem = set m.mem off b; perms = set m.perms off perm }) addr (i + 1) bs
        perm
]

abbrev pub map : Mmu → ℕ → List ℕ → ℕ → Outcome Mmu (Unit {0})
map m addr bytes perm = map_from m addr 0 bytes perm

-- The loop of `protect` and `set_vtaint`: `f` is what is done to each permission byte.
unfoldable pub adjust_from : (ℕ → ℕ) → Mmu → ℕ → ℕ → ℕ → ℕ → Outcome Mmu (Unit {0})
adjust_from f m addr len i zero = (ok tt, m)
adjust_from f m addr len i (suc n) = elim (offset m (u32 (addr + i))) [
  | none ↦ (err (fault (u32 (addr + i)) len write unmapped), m)
  | some off ↦
      adjust_from f (record m { perms = set m.perms off (f (get_or m.perms off 0)) }) addr len
        (i + 1) n
]

unfoldable pub protect : Mmu → ℕ → ℕ → ℕ → Outcome Mmu (Unit {0})
unfolding adjust_from
protect m addr len perm = adjust_from (λ _. perm) m addr len 0 len

unfoldable pub poison : Mmu → ℕ → ℕ → Outcome Mmu (Unit {0})
unfolding protect
poison m addr len = protect m addr len 0

unfoldable pub set_vtaint : Mmu → ℕ → ℕ → Bool → Outcome Mmu (Unit {0})
unfolding adjust_from
set_vtaint m addr len tainted = adjust_from (with_vtaint tainted) m addr len 0 len

-- `checked_add` stops at 2 ^ 32.
unfoldable pub in_bounds : Mmu → ℕ → ℕ → Bool
in_bounds m addr len =
    if len == 0 then leb m.base addr && leb addr (end m) else elim (offset m addr) [
      | none ↦ false
      | some start ↦
          if ltb (addr + (len - 1)) (2 ^ 32)
          then elim (offset m (addr + (len - 1))) [ none ↦ false | some last ↦ leb start last ]
          else false
    ]

unfoldable pub perm_at : Mmu → ℕ → Option ℕ
perm_at m addr = elim (offset m addr) [ none ↦ none | some off ↦ some (get_or m.perms off 0) ]

-- The two planes cover the window, the window does not wrap around the address space, and while
-- dirty tracking is on the bitmap has a bit for every block.
pub record WellFormed (m : Mmu) : Type 0 where
  pub planes : length m.perms ≡ length m.mem
  pub fits : m.base + length m.mem ≤ 2 ^ 32
  pub covers : m.track_dirty ≡ true → length m.mem ≤ length m.dirty.bitmap * 4096

-- The RAM that the MMU holds.
abbrev pub contents : Mmu → Ram
contents m = record {
  base = m.base;
  size = length m.mem;
  mem = λ off. get_or m.mem off 0;
  perms = λ off. get_or m.perms off 0;
}
