-- ===== src/Examples.antt =====
-- Runs of the models of guest RAM (crates/fs-mmu/src/lib.rs) at concrete inputs.
mod Hart
mod Runs
mod Sanitizers
use fuzzsoft.Base.{
  ℕ, ◌+◌, ◌*◌, ◌^◌, ◌%◌, ◌/◌, ◌≡◌, ◌≢◌, refl, Bool, true, false, Option, none, some, List, [], ◌∷◌,
  ok, err, arith, ◌<◌, zero, suc, slice, get_or, ◌==◌, ◌||◌,
}
use fuzzsoft.Perm.{
  permits, perm_read, perm_write, perm_exec, perm_raw, perm_vtaint, stored_perm, with_vtaint,
}
use fuzzsoft.Perm.Laws.{stored_perm_bits, with_vtaint_bits}
use fuzzsoft.Fault.{read, write, exec, from_le_bytes}
use fuzzsoft.Ram.{load_bytes, store_from}
use fuzzsoft.Mmu
use fuzzsoft.Mmu.{Mmu, Dirty, enable_dirty_tracking, reset_dirty, mark_block}
use fuzzsoft.Mmu.Bytes.{mark_blocks, mark_bytes}
use fuzzsoft.Mmu.Device.{fast_ptr, load, ifetch16, mmu_bus}
use fuzzsoft.Mmu.Refines.{read_bytes-load_bytes, fetch_bytes-load_bytes}
use fuzzsoft.Mmu.Spans.{write_bytes-write_bytewise, write_bytes-store_from}
use fuzzsoft.Mmu.Reset.{reset_dirty-stores, stores}
use fuzzsoft.Mmu.Marks.{marked, marked-mark_block, mark_bytes-mark_blocks}
use fuzzsoft.Mmu.FastPath.{fast_ptr-write_bytes, store_direct}
use fuzzsoft.Golden.{from_mmu, read_sized, fetch_u16, access_word}
use fuzzsoft.Golden.Laws.{read_sized-load, fetch_u16-ifetch16}
use fuzzsoft.Cow
use fuzzsoft.Cow.{CowRam, new, reset}
use fuzzsoft.Cow.Device.Laws.{load-Mmu, store-Mmu, ifetch16-Mmu}
use fuzzsoft.Cow.Invariant
use fuzzsoft.Cow.Refines.{read_bytes-contents, fetch_bytes-contents}
use fuzzsoft.Cow.Reset.{new-WellFormed, reset-new}
use fuzzsoft.Cow.Simulates.{Refines, write_bytes-Refines}
use fuzzsoft.Cow.Session.{
  Op, read_op, fetch_op, write_op, reset_op, answers, cow_step, flat_step, contents-new,
  answers-cow_flat,
}

-- Four bytes at 0x1000: two writable, one readable, one that may not be touched.
abbrev small : Mmu
small = record {
  base = 0x1000;
  mem = 10 ∷ 20 ∷ 30 ∷ 40 ∷ [];
  perms = 7 ∷ 7 ∷ 1 ∷ 0 ∷ [];
  track_dirty = true;
  dirty = record { blocks = []; bitmap = 0 ∷ [] };
}

small-WellFormed : Mmu.WellFormed small
small-WellFormed = record { planes = refl; fits = omega arith; covers = λ _. omega arith }

abbrev small_view : CowRam
small_view = new (from_mmu small)

small_view-WellFormed : Cow.Invariant.WellFormed small_view
unfolding from_mmu
small_view-WellFormed = new-WellFormed (from_mmu small) refl (omega arith)

-- Reads in and out of the window, a store that faults after two bytes, a reset.
abbrev some_ops : List Op
some_ops =
    write_op 0x1000 (1 ∷ 2 ∷ 3 ∷ [])
    ∷ read_op 0x1000 3
    ∷ fetch_op 0x1000 2
    ∷ reset_op
    ∷ read_op 0x1000 4
    ∷ []

answers-cow_flat_example :
    answers cow_step some_ops (new (from_mmu small))
    ≡ answers (flat_step small) some_ops (enable_dirty_tracking small)
answers-cow_flat_example = answers-cow_flat small refl (omega arith) some_ops

reset_dirty-stores_example :
    reset_dirty small.mem small.perms
      (stores (enable_dirty_tracking small) ((0x1000, 1 ∷ 2 ∷ 3 ∷ []) ∷ (0x1001, 9 ∷ []) ∷ []))
    ≡ enable_dirty_tracking small
reset_dirty-stores_example =
    reset_dirty-stores small ((0x1000, 1 ∷ 2 ∷ 3 ∷ []) ∷ (0x1001, 9 ∷ []) ∷ []) refl (omega arith)

cow_write_bytes_example :
    Refines
      (Cow.Bytes.write_bytes small_view 0x1000 (1 ∷ 2 ∷ []))
      (store_from (Cow.contents small_view) 0x1000 2 0 (1 ∷ 2 ∷ []))
cow_write_bytes_example = write_bytes-Refines small_view 0x1000 (1 ∷ 2 ∷ []) small_view-WellFormed

write_bytes-store_from_example :
    ((Mmu.Bytes.write_bytes small 0x1001 (1 ∷ 2 ∷ [])).0
      ≡ (store_from (Mmu.contents small) 0x1001 2 0 (1 ∷ 2 ∷ [])).0)
    × (Mmu.contents (Mmu.Bytes.write_bytes small 0x1001 (1 ∷ 2 ∷ [])).1
        ≡ (store_from (Mmu.contents small) 0x1001 2 0 (1 ∷ 2 ∷ [])).1)
write_bytes-store_from_example = write_bytes-store_from small 0x1001 (1 ∷ 2 ∷ []) small-WellFormed

write_bytes-write_bytewise_example :
    Mmu.Bytes.write_bytes small 0x1000 (1 ∷ 2 ∷ [])
    ≡ Mmu.Bytes.write_bytewise small 0x1000 (1 ∷ 2 ∷ [])
write_bytes-write_bytewise_example =
    write_bytes-write_bytewise small 0x1000 (1 ∷ 2 ∷ []) small-WellFormed

read_bytes-load_bytes_example :
    Mmu.Bytes.read_bytes small 0x1001 3 ≡ load_bytes perm_read read (Mmu.contents small) 0x1001 3
read_bytes-load_bytes_example = read_bytes-load_bytes small 0x1001 3 small-WellFormed

fetch_bytes-load_bytes_example :
    Mmu.Bytes.fetch_bytes small 0x1000 2 ≡ load_bytes perm_exec exec (Mmu.contents small) 0x1000 2
fetch_bytes-load_bytes_example = fetch_bytes-load_bytes small 0x1000 2 small-WellFormed

read_bytes-contents_example :
    Cow.Bytes.read_bytes small_view 0x1001 2
    ≡ load_bytes perm_read read (Cow.contents small_view) 0x1001 2
read_bytes-contents_example = read_bytes-contents small_view 0x1001 2 small_view-WellFormed

fetch_bytes-contents_example :
    Cow.Bytes.fetch_bytes small_view 0x1000 2
    ≡ load_bytes perm_exec exec (Cow.contents small_view) 0x1000 2
fetch_bytes-contents_example = fetch_bytes-contents small_view 0x1000 2 small_view-WellFormed

small_bytes : (i : ℕ) → get_or small.perms i 0 < 256
small_bytes zero = omega arith
small_bytes (suc zero) = omega arith
small_bytes (suc (suc zero)) = omega arith
small_bytes (suc (suc (suc zero))) = omega arith
small_bytes (suc (suc (suc (suc i)))) = omega arith

given_pointer : (fast_ptr small 0x1000 2 3).0 ≢ none
unfolding fast_ptr slice
given_pointer = λ e. ground arith

fast_ptr-write_bytes_example :
    Mmu.Bytes.write_bytes small 0x1000 (1 ∷ 2 ∷ [])
    ≡ (ok tt, store_direct (fast_ptr small 0x1000 2 3).1 0 (1 ∷ 2 ∷ []))
fast_ptr-write_bytes_example =
    fast_ptr-write_bytes small 0x1000 (1 ∷ 2 ∷ []) small-WellFormed small_bytes given_pointer

found_word : read_sized (from_mmu small) 0x1000 2 ≡ some 5130
unfolding read_sized access_word from_mmu slice from_le_bytes
found_word = refl

read_sized-load_example : load small 0x1000 2 ≡ ok 5130
read_sized-load_example = read_sized-load small 0x1000 2 5130 found_word

found_half : fetch_u16 (from_mmu small) 0x1000 ≡ some 5130
unfolding fetch_u16 access_word from_mmu slice from_le_bytes
found_half = refl

small_shown : Cow.contents small_view ≡ Mmu.contents small
small_shown = contents-new small
