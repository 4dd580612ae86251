-- ===== src/Fault.antt =====
-- Accesses and faults (crates/fs-mmu/src/lib.rs), little-endian bytes, and the alignment check.
use fuzzsoft.Base.{
  ℕ, zero, suc, ◌+◌, ◌-◌, ◌*◌, ◌/◌, ◌%◌, ◌^◌, Option, none, some, List, [], ◌∷◌, Result, ok, err,
  ◌==◌, ltb, if◌then◌else◌,
}

pub data Access : Type 0 where
  read write exec : Access

pub data FaultKind : Type 0 where
  unmapped permission unaligned : FaultKind

pub record Fault : Type 0 where
  pub addr : ℕ
  pub len : ℕ
  pub access : Access
  pub kind : FaultKind

abbrev pub fault : ℕ → ℕ → Access → FaultKind → Fault
fault a n x k = record { addr = a; len = n; access = x; kind = k }

-- A result beside the state that the call leaves, also when it fails.
abbrev pub Outcome : Type 0 → Type 0 → Type 0
Outcome S A = Result A Fault × S

abbrev pub u8 : ℕ → ℕ
u8 n = n % 2 ^ 8

abbrev pub u16 : ℕ → ℕ
u16 n = n % 2 ^ 16

abbrev pub u32 : ℕ → ℕ
u32 n = n % 2 ^ 32

-- `offset`: where an address falls in a window that starts at `base` and holds `size` bytes.
abbrev pub window_offset : ℕ → ℕ → ℕ → Option ℕ
window_offset base size addr =
    if ltb addr base then none else (if ltb (addr - base) size then some (addr - base) else none)

-- `check_align`.
unfoldable pub check_align : ℕ → ℕ → Access → Result (Unit {0}) Fault
check_align addr n access = if addr % n == 0 then ok tt else err (fault addr n access unaligned)

-- `to_le_bytes`, at `n` bytes.
unfoldable pub to_le_bytes : ℕ → ℕ → List ℕ
to_le_bytes zero v = []
to_le_bytes (suc n) v = u8 v ∷ to_le_bytes n (v / 2 ^ 8)

-- `from_le_bytes`.
unfoldable pub from_le_bytes : List ℕ → ℕ
from_le_bytes [] = 0
from_le_bytes (b ∷ bs) = b + 2 ^ 8 * from_le_bytes bs
