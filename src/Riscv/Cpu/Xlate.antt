-- ===== src/Riscv/Cpu/Xlate.antt =====
-- sv32 address translation: `xlate`, its software TLB, and the two read-only versions of it,
-- `fast_pa` and `xlate_golden_readonly` (crates/fs-riscv/src/lib.rs).
pub mod Laws
use fuzzsoft.Base.{
  ℕ, zero, suc, ◌+◌, ◌-◌, ◌*◌, ◌/◌, ◌%◌, ◌^◌, Bool, true, false, ◌&&◌, ◌||◌, not, Option, none,
  some, List, Result, ok, err, bit_and, bit_or, nonzero, ◌==◌, if◌then◌else◌,
}
use fuzzsoft.Perm.{perm_read}
use fuzzsoft.Fault.{Access, read, write, exec, u32, Outcome}
use fuzzsoft.Bus.{Bus}
use fuzzsoft.Golden.{Golden, access_word}
use fuzzsoft.Riscv.Csr.{Priv, user, supervisor, machine, mstatus_sum, mstatus_mxr}
use fuzzsoft.Riscv.Cpu.{
  Cpu, Trap, exception, TlbEntry, tlb_get, tlb_insert, effective_priv, is_exec, is_machine,
}

pub record LeafBits : Type 0 where
  pub r : Bool
  pub w : Bool
  pub x : Bool
  pub u : Bool

abbrev pub is_write : Access → Bool
is_write read = false
is_write write = true
is_write exec = false

abbrev pub perm_ok : Access → Bool → LeafBits → Bool
perm_ok exec mxr leaf = leaf.x
perm_ok read mxr leaf = leaf.r || (mxr && leaf.x)
perm_ok write mxr leaf = leaf.w

abbrev pub priv_ok : Access → Priv → Bool → LeafBits → Bool
priv_ok access user sum leaf = leaf.u
priv_ok access supervisor sum leaf = not (leaf.u && (is_exec access || not sum))
priv_ok access machine sum leaf = true

unfoldable pub leaf_perm_priv_ok : Access → Priv → Bool → Bool → LeafBits → Bool
leaf_perm_priv_ok access p sum mxr leaf = perm_ok access mxr leaf && priv_ok access p sum leaf

-- The test of a leaf that an access makes in the hart's present mode.
abbrev pub may_access : Cpu → Access → LeafBits → Bool
may_access c access leaf =
    leaf_perm_priv_ok access (effective_priv c access) (nonzero (bit_and c.csr.mstatus mstatus_sum))
      (nonzero (bit_and c.csr.mstatus mstatus_mxr)) leaf

-- `p == Priv::M || (self.csr.satp >> 31) == 0`.
abbrev pub untranslated : Cpu → Access → Bool
untranslated c access = is_machine (effective_priv c access) || c.csr.satp / 2 ^ 31 == 0

abbrev pub page_fault : Access → ℕ → Trap
page_fault exec va = exception 12 va
page_fault read va = exception 13 va
page_fault write va = exception 15 va

-- Bit `k` of a page-table entry.
abbrev pub pte_bit : ℕ → ℕ → Bool
pte_bit pte k = pte / 2 ^ k % 2 == 1

abbrev pub pte_leaf : ℕ → LeafBits
pte_leaf pte = record { r = pte_bit pte 1; w = pte_bit pte 2; x = pte_bit pte 3; u = pte_bit pte 4 }

-- The entry is not valid, or is writable and not readable.
abbrev pub pte_invalid : ℕ → Bool
pte_invalid pte = not (pte_bit pte 0) || (not (pte_bit pte 1) && pte_bit pte 2)

abbrev pub pte_is_leaf : ℕ → Bool
pte_is_leaf pte = pte_bit pte 1 || pte_bit pte 3

abbrev pub misaligned_superpage : ℕ → ℕ → Bool
misaligned_superpage level pte = level == 1 && not (pte / 2 ^ 10 % 2 ^ 10 == 0)

-- The next table, or the page: `((pte >> 10) & 0x3f_ffff) << 12`.
abbrev pub pte_target : ℕ → ℕ
pte_target pte = u32 (pte / 2 ^ 10 % 2 ^ 22 * 2 ^ 12)

abbrev pub page_offset : ℕ → ℕ
page_offset va = va % 2 ^ 12

abbrev pub vpn : ℕ → ℕ → ℕ
vpn va level = (if level == 0 then va / 2 ^ 12 else va / 2 ^ 22) % 2 ^ 10

abbrev pub leaf_pa : ℕ → ℕ → ℕ → ℕ
leaf_pa level pte va =
    if level == 1
    then bit_or (bit_or (u32 (pte / 2 ^ 20 % 2 ^ 12 * 2 ^ 22)) (va / 2 ^ 12 % 2 ^ 10 * 2 ^ 12))
        (page_offset va)
    else bit_or (pte_target pte) (page_offset va)

-- The A bit, or the D bit of a write, is still to be set.
abbrev pub ad_unset : Access → ℕ → Bool
ad_unset access pte = not (pte_bit pte 6) || (is_write access && not (pte_bit pte 7))

-- A translation, with the hart and the memory after it.
abbrev pub Xlated : Type 0 → Type 0
Xlated S = Result ℕ Trap × (Cpu × S)

-- The refill of the TLB from a leaf.
abbrev pub refill : Access → ℕ → ℕ → ℕ → Cpu → Cpu
refill access va pte pa c = record c {
  tlb = tlb_insert c.tlb (record {
    vpn = va / 2 ^ 12;
    ppn = pa / 2 ^ 12;
    r = pte_bit pte 1;
    w = pte_bit pte 2;
    x = pte_bit pte 3;
    u = pte_bit pte 4;
    d_set = is_write access || pte_bit pte 7;
  });
}

-- The end of a walk whose A and D bits were stored, or whose store failed.
abbrev pub leaf_stored : {S : Type 0} → Access → ℕ → ℕ → Cpu → Cpu → Outcome S (Unit {0}) → Xlated S
leaf_stored access va pa refilled c (ok _, t) = (ok pa, (refilled, t))
leaf_stored access va pa refilled c (err _, t) = (err (page_fault access va), (c, t))

-- A leaf that passed its tests: its A and D bits, the TLB and the address.
unfoldable pub take_leaf : {S : Type 0} → Bus S → Access → ℕ → ℕ → ℕ → ℕ → Cpu → S → Xlated S
take_leaf bus access va level pte_addr pte c s =
    let pa = leaf_pa level pte va in
    let refilled = refill access va pte pa c in
    if ad_unset access pte
    then leaf_stored access va pa refilled c (
        bus.store s pte_addr 4 (bit_or (bit_or pte (2 ^ 6)) (if is_write access then 2 ^ 7 else 0)))
    else (ok pa, (refilled, s))

-- What a page-table entry is to an access: it faults, it is a leaf that may be used, or it names the
-- next table.
pub data EntryKind : Type 0 where
  refused leaf table : EntryKind

unfoldable pub entry_kind : Cpu → Access → ℕ → ℕ → EntryKind
entry_kind c access level pte =
    if pte_invalid pte
    then refused
    else if not (pte_is_leaf pte)
    then table
    else if not (may_access c access (pte_leaf pte)) || misaligned_superpage level pte
    then refused
    else leaf

-- An entry of the given kind; `deeper` is the walk from the table that it names.
abbrev pub walk_entry :
    {S : Type 0} → EntryKind → Bus S → Access → ℕ → ℕ → ℕ → ℕ → (S → Xlated S) → Cpu → S → Xlated S
walk_entry refused bus access va level pte_addr pte deeper c s =
    (err (page_fault access va), (c, s))
walk_entry leaf bus access va level pte_addr pte deeper c s =
    take_leaf bus access va level pte_addr pte c s
walk_entry table bus access va level pte_addr pte deeper c s = deeper s

-- The entry that was loaded, or the fault of the load.
abbrev pub walk_loaded :
    {S : Type 0} → Bus S → Access → ℕ → ℕ → ℕ → (ℕ → S → Xlated S) → Cpu → Outcome S ℕ → Xlated S
walk_loaded bus access va level pte_addr deeper c (err _, s) = (err (page_fault access va), (c, s))
walk_loaded bus access va level pte_addr deeper c (ok pte, s) =
    walk_entry (entry_kind c access level pte) bus access va level pte_addr pte (deeper pte) c s

-- The walk, with `n` levels left and the table at `a`.
unfoldable pub walk : {S : Type 0} → Bus S → Access → ℕ → ℕ → ℕ → Cpu → S → Xlated S
walk bus access va zero a c s = (err (page_fault access va), (c, s))
walk bus access va (suc level) a c s =
    let pte_addr = u32 (a + vpn va level * 4) in
    walk_loaded bus access va level pte_addr
      (λ pte t. walk bus access va level (pte_target pte) c t) c (bus.load s pte_addr 4)

abbrev pub root_table : Cpu → ℕ
root_table c = u32 (c.csr.satp % 2 ^ 22 * 2 ^ 12)

abbrev pub entry_leaf : TlbEntry → LeafBits
entry_leaf e = record { r = e.r; w = e.w; x = e.x; u = e.u }

abbrev pub entry_pa : TlbEntry → ℕ → ℕ
entry_pa e va = bit_or (u32 (e.ppn * 2 ^ 12)) (page_offset va)

-- The entry of the TLB that the page has; `walked` is the walk.
abbrev pub xlate_entry : {S : Type 0} → Option TlbEntry → Xlated S → Cpu → S → ℕ → Access → Xlated S
xlate_entry none walked c s va access = walked
xlate_entry (some e) walked c s va access =
    if not (may_access c access (entry_leaf e))
    then (err (page_fault access va), (c, s))
    else if not (is_write access && not (e.d_set))
    then (ok (entry_pa e va), (c, s))
    else walked

unfoldable pub xlate : {S : Type 0} → Bus S → Cpu → S → ℕ → Access → Xlated S
xlate bus c s va access =
    if untranslated c access
    then (ok va, (c, s))
    else xlate_entry (tlb_get c.tlb (va / 2 ^ 12)) (walk bus access va 2 (root_table c) c s) c s va
        access

unfoldable pub fast_pa : Cpu → ℕ → Access → Option ℕ
fast_pa c va access =
    if untranslated c access then some va else elim (tlb_get c.tlb (va / 2 ^ 12)) [
      | none ↦ none
      | some e ↦
          if not (may_access c access (entry_leaf e))
          then none
          else if is_write access && not (e.d_set)
          then none
          else some (entry_pa e va)
    ]

abbrev pub golden_entry : EntryKind → Access → ℕ → ℕ → ℕ → Result ℕ (Unit {0}) → Result ℕ (Unit {0})
golden_entry refused access va level pte deeper = err tt
golden_entry leaf access va level pte deeper =
    if ad_unset access pte then err tt else ok (leaf_pa level pte va)
golden_entry table access va level pte deeper = deeper

-- The walk of `xlate_golden_readonly`; `overlaid` stands for the caller's `page_overlaid`, and an
-- error for `XlateDeclined`.
unfoldable pub walk_golden : Cpu → Golden → (ℕ → Bool) → Access → ℕ → ℕ → ℕ → Result ℕ (Unit {0})
walk_golden c golden overlaid access va zero a = err tt
walk_golden c golden overlaid access va (suc level) a =
    let pte_addr = u32 (a + vpn va level * 4) in
    if overlaid pte_addr then err tt else elim (access_word perm_read golden pte_addr 4) [
      | none ↦ err tt
      | some pte ↦
          golden_entry (entry_kind c access level pte) access va level pte
            (walk_golden c golden overlaid access va level (pte_target pte))
    ]

unfoldable pub xlate_golden_readonly : Cpu → Golden → ℕ → Access → (ℕ → Bool) → Result ℕ (Unit {0})
unfolding walk_golden
xlate_golden_readonly c golden va access overlaid =
    if untranslated c access
    then ok va
    else walk_golden c golden overlaid access va 2 (root_table c)
