-- ===== src/Mmu/Device.antt =====
-- The flat MMU as a bus device: `impl Bus for Mmu` of crates/fs-mmu/src/lib.rs.
use fuzzsoft.Base.{
  ℕ, zero, suc, ◌+◌, ◌*◌, ◌/◌, ◌^◌, min, ◌&&◌, Option, none, some, Result, bit_and, bit_or, nonzero,
  length, get_or, set, slice, all, leb, ◌==◌, if◌then◌else◌,
}
use fuzzsoft.Perm.{permits, perm_write, is_trivial, with_vtaint}
use fuzzsoft.Fault.{Fault, Outcome, u8, u16, u32}
use fuzzsoft.Bus.{Bus}
use fuzzsoft.Mmu.{Mmu, offset}
use fuzzsoft.Mmu.Bytes.{read_word, write_word, fetch_word, mark_bytes}

unfoldable pub load : Mmu → ℕ → ℕ → Result ℕ Fault
load m addr size =
    if size == 1
    then read_word m addr 1
    else (if size == 2 then read_word m addr 2 else read_word m addr 4)

unfoldable pub store : Mmu → ℕ → ℕ → ℕ → Outcome Mmu (Unit {0})
store m addr size val =
    if size == 1
    then write_word m addr 1 (u8 val)
    else (if size == 2 then write_word m addr 2 (u16 val) else write_word m addr 4 val)

unfoldable pub ifetch16 : Mmu → ℕ → Result ℕ Fault
ifetch16 m addr = fetch_word m addr 2

-- The bytes `i .. i + n` of `read_raw_state`; 40 is `PERM_RAW | PERM_VTAINT`.
unfoldable pub raw_state_from : Mmu → ℕ → ℕ → ℕ → ℕ → ℕ
raw_state_from m addr i zero mask = mask
raw_state_from m addr i (suc n) mask =
    raw_state_from m addr (i + 1) n (elim (offset m (u32 (addr + i))) [
      | none ↦ mask
      | some off ↦ if permits 40 (get_or m.perms off 0) then bit_or mask (2 ^ (8 * i)) else mask
    ])

unfoldable pub read_raw_state : Mmu → ℕ → ℕ → ℕ
unfolding raw_state_from
read_raw_state m addr len = raw_state_from m addr 0 (min len 4) 0

unfoldable pub shadow_from : Mmu → ℕ → ℕ → ℕ → ℕ → Mmu
shadow_from m addr i zero mask = m
shadow_from m addr i (suc n) mask =
    shadow_from
      (elim (offset m (u32 (addr + i))) [
        | none ↦ m
        | some off ↦ record m {
          perms =
              set m.perms off
                (with_vtaint (nonzero (bit_and (mask / 2 ^ (8 * i)) 1)) (get_or m.perms off 0));
        }
      ])
      addr (i + 1) n mask

unfoldable pub write_shadow : Mmu → ℕ → ℕ → ℕ → Mmu
unfolding shadow_from
write_shadow m addr len mask = shadow_from m addr 0 (min len 4) mask

-- `fast_ptr`; the pointer is the offset of the first byte.
unfoldable pub fast_ptr : Mmu → ℕ → ℕ → ℕ → Option ℕ × Mmu
fast_ptr m addr len need = elim (offset m addr) [
  | none ↦ (none, m)
  | some off ↦
      if leb (off + len) (length m.mem) && all (is_trivial need) (slice m.perms off len 0)
      then (
        some off,
        (if permits perm_write need && m.track_dirty
            then record m { dirty = mark_bytes off len m.dirty }
            else m),
      )
      else (none, m)
]

-- `impl Bus for Mmu`.
abbrev pub mmu_bus : Bus Mmu
mmu_bus = record {
  load = λ m addr size. (load m addr size, m);
  store = λ m addr size val. store m addr size val;
  ifetch16 = λ m addr. (ifetch16 m addr, m);
  read_raw_state = λ m addr len. read_raw_state m addr len;
  write_shadow = λ m addr len mask. write_shadow m addr len mask;
}
