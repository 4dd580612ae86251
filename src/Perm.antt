-- ===== src/Perm.antt =====
-- The permission byte beside every guest byte, from crates/fs-mmu/src/lib.rs.
pub mod Laws
use fuzzsoft.Base.{ℕ, ◌-◌, Bool, bit_and, bit_or, nonzero, ◌==◌, ◌&&◌, if◌then◌else◌}

abbrev pub perm_read : ℕ
perm_read = 1

abbrev pub perm_write : ℕ
perm_write = 2

abbrev pub perm_exec : ℕ
perm_exec = 4

abbrev pub perm_raw : ℕ
perm_raw = 8

abbrev pub perm_acc : ℕ
perm_acc = 16

abbrev pub perm_vtaint : ℕ
perm_vtaint = 32

-- `PERM_RAW | PERM_ACC`.
abbrev pub fast_ptr_forbidden : ℕ
fast_ptr_forbidden = 24

-- `!m` on a `u8`.
abbrev pub not_u8 : ℕ → ℕ
not_u8 m = 255 - m

-- `p & need != 0`.
abbrev pub permits : ℕ → ℕ → Bool
permits need p = nonzero (bit_and p need)

-- `(p | PERM_READ) & !PERM_RAW`: what a store leaves in the permission byte.
unfoldable pub stored_perm : ℕ → ℕ
stored_perm p = bit_and (bit_or p perm_read) (not_u8 perm_raw)

-- `p | PERM_VTAINT`, or `p & !PERM_VTAINT`.
unfoldable pub with_vtaint : Bool → ℕ → ℕ
with_vtaint tainted p = if tainted then bit_or p perm_vtaint else bit_and p (not_u8 perm_vtaint)

-- `(p & need) == need && (p & FAST_PTR_FORBIDDEN) == 0`.
abbrev pub is_trivial : ℕ → ℕ → Bool
is_trivial need p = (bit_and p need == need) && (bit_and p fast_ptr_forbidden == 0)
