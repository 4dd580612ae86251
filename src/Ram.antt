-- ===== src/Ram.antt =====
-- What guest RAM promises, whatever stores it: a window of bytes with a permission each. An access
-- goes byte by byte in address order, wrapping at 2 ^ 32, and stops at the first byte that is
-- outside the window or lacks the permission. It is the abstract side of
-- the two RAMs of crates/fs-mmu/src/lib.rs.
pub mod Laws
use fuzzsoft.Base.{
  ℕ, zero, suc, ◌+◌, ◌-◌, Option, none, some, List, [], ◌∷◌, Result, ok, err, map_ok, ◌==◌,
  if◌then◌else◌,
}
use fuzzsoft.Perm.{permits, perm_write, stored_perm}
use fuzzsoft.Fault.{Access, write, unmapped, permission, Fault, fault, Outcome, u32, window_offset}

pub record Ram : Type 0 where
  pub base : ℕ
  pub size : ℕ
  pub mem : ℕ → ℕ
  pub perms : ℕ → ℕ

abbrev pub offset : Ram → ℕ → Option ℕ
offset r addr = window_offset r.base r.size addr

abbrev pub update : (ℕ → ℕ) → ℕ → ℕ → ℕ → ℕ
update f i v j = if i == j then v else f j

-- One byte of a store: the byte and its permission.
abbrev pub put_byte : Ram → ℕ → ℕ → Ram
put_byte r off b = record r {
  mem = update r.mem off b;
  perms = update r.perms off (stored_perm (r.perms off));
}

-- The bytes `i .. i + n` of an access of `len` bytes at `addr`.
unfoldable pub load_from : ℕ → Access → Ram → ℕ → ℕ → ℕ → ℕ → Result (List ℕ) Fault
load_from need access r addr len i zero = ok []
load_from need access r addr len i (suc n) = elim (offset r (u32 (addr + i))) [
  | none ↦ err (fault (u32 (addr + i)) len access unmapped)
  | some off ↦
      if permits need (r.perms off)
      then map_ok (λ bs. r.mem off ∷ bs) (load_from need access r addr len (i + 1) n)
      else err (fault (u32 (addr + i)) len access permission)
]

-- The bytes of a store that are left, from byte `i` on.
unfoldable pub store_from : Ram → ℕ → ℕ → ℕ → List ℕ → Outcome Ram (Unit {0})
store_from r addr len i [] = (ok tt, r)
store_from r addr len i (b ∷ bs) = elim (offset r (u32 (addr + i))) [
  | none ↦ (err (fault (u32 (addr + i)) len write unmapped), r)
  | some off ↦
      if permits perm_write (r.perms off)
      then store_from (put_byte r off b) addr len (i + 1) bs
      else (err (fault (u32 (addr + i)) len write permission), r)
]

abbrev pub load_bytes : ℕ → Access → Ram → ℕ → ℕ → Result (List ℕ) Fault
load_bytes need access r addr n = load_from need access r addr n 0 n
