-- ===== src/Platform/Clint.antt =====
-- The core-local interruptor: software interrupts, timer compares and the timer
-- (crates/fs-platform/src/lib.rs). Hart 0 has the scalar registers, the others the lists.
use fuzzsoft.Base.{
  ℕ, ◌+◌, ◌-◌, ◌*◌, ◌/◌, ◌%◌, ◌^◌, Bool, true, false, ◌&&◌, List, [], bit_and, bit_or, get_or, set,
  ltb, leb, ◌==◌, if◌then◌else◌,
}
use fuzzsoft.Fault.{u32}

abbrev pub clint_mtimecmp : ℕ
clint_mtimecmp = 0x4000

abbrev pub clint_mtime : ℕ
clint_mtime = 0xbff8

abbrev pub no_deadline : ℕ
no_deadline = 2 ^ 64 - 1

pub record Clint : Type 0 where
  pub msip : ℕ
  pub mtimecmp : ℕ
  pub mtime : ℕ
  pub msip_extra : List ℕ
  pub mtimecmp_extra : List ℕ

-- `Clint::default`.
abbrev pub default_clint : Clint
default_clint = record { msip = 0; mtimecmp = 0; mtime = 0; msip_extra = []; mtimecmp_extra = [] }

-- The MSIP windows of the harts after the first, and their compare windows.
abbrev pub in_msip_window : ℕ → Bool
in_msip_window o = (leb 4 o && ltb o clint_mtimecmp) && o % 4 == 0

abbrev pub in_compare_window : ℕ → Bool
in_compare_window o = leb (clint_mtimecmp + 8) o && ltb o clint_mtime

-- One half of a 64-bit register.
abbrev pub half : Bool → ℕ → ℕ
half low v = if low then u32 v else u32 (v / 2 ^ 32)

-- The register with one half replaced.
abbrev pub with_half : Bool → ℕ → ℕ → ℕ
with_half low val v =
    if low
    then bit_or (bit_and v 0xffffffff00000000) val
    else bit_or (bit_and v 0xffffffff) (val * 2 ^ 32)

-- The size is not looked at.
unfoldable pub load : Clint → ℕ → ℕ
load c off =
    if off == 0
    then bit_and c.msip 1
    else if off == clint_mtimecmp
    then half true c.mtimecmp
    else if off == clint_mtimecmp + 4
    then half false c.mtimecmp
    else if off == clint_mtime
    then half true c.mtime
    else if off == clint_mtime + 4
    then half false c.mtime
    else if in_msip_window off
    then bit_and (get_or c.msip_extra (off / 4 - 1) 0) 1
    else if in_compare_window off
    then (let rel = off - clint_mtimecmp in
        half (rel % 8 == 0) (get_or c.mtimecmp_extra (rel / 8 - 1) no_deadline))
    else 0

-- `mtime` is read-only.
unfoldable pub store : Clint → ℕ → ℕ → Clint
store c off val =
    if off == 0
    then record c { msip = bit_and val 1 }
    else if off == clint_mtimecmp
    then record c { mtimecmp = with_half true val c.mtimecmp }
    else if off == clint_mtimecmp + 4
    then record c { mtimecmp = with_half false val c.mtimecmp }
    else if in_msip_window off
    then record c { msip_extra = set c.msip_extra (off / 4 - 1) (bit_and val 1) }
    else if in_compare_window off
    then (let rel = off - clint_mtimecmp in
        let old = get_or c.mtimecmp_extra (rel / 8 - 1) no_deadline in
        record c {
          mtimecmp_extra = set c.mtimecmp_extra (rel / 8 - 1) (with_half (rel % 8 == 0) val old);
        })
    else c
