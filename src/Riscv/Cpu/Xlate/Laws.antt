-- ===== src/Riscv/Cpu/Xlate/Laws.antt =====
-- What a translation and its read-only versions have in common (crates/fs-riscv/src/lib.rs).
use fuzzsoft.Base.{
  ℕ, zero, suc, ◌+◌, ◌*◌, ◌/◌, ◌%◌, ◌^◌, ◌<◌, ◌≡◌, ◌⊎◌, refl, sym, ap, ◌∙◌, Bool, true, false, ◌||◌,
  inl, inr, none, some, List, Result, ok, err, bit_or, ◌==◌, if◌then◌else◌, arith, Bool-cases,
  Option-cases, length, get_or, set, get_or-set,
}
use fuzzsoft.Base.Bits.{bit_or_fields}
use fuzzsoft.Perm.{perm_read}
use fuzzsoft.Fault.{Access, u32, Outcome}
use fuzzsoft.Bus.{Bus}
use fuzzsoft.Golden.{Golden, access_word}
use fuzzsoft.Riscv.Cpu.{Cpu, Trap, TlbEntry, tlb_get, tlb_insert, tlb_size, tlb_slot, empty_entry}
use fuzzsoft.Riscv.Cpu.Xlate.{
  EntryKind, refused, leaf, table, entry_kind, walk_entry, walk_loaded, golden_entry, is_write,
  may_access, untranslated, pte_leaf, pte_bit, pte_target, page_offset, vpn, leaf_pa, Xlated,
  refill, take_leaf, walk, root_table, xlate, fast_pa, walk_golden, xlate_golden_readonly,
}

-- Where `fast_pa` gives an address, `xlate` gives the same one, and leaves the hart and the memory,
-- whatever the memory is, as they are.
pub fast_pa-xlate :
    {S : Type 0} (bus : Bus S) (c : Cpu) (s : S) (va pa : ℕ) (access : Access)
    → fast_pa c va access ≡ some pa
    → xlate bus c s va access ≡ (ok pa, (c, s))
unfolding fast_pa xlate
fast_pa-xlate bus c s va pa access h = ground arith

-- A memory whose words are those of the snapshot wherever the view is not overlaid.
module _ {S : Type 0} (bus : Bus S) (s : S) (golden : Golden) (overlaid : ℕ → Bool)
    (agrees : (addr word : ℕ)
      → overlaid addr ≡ false
      → access_word perm_read golden addr 4 ≡ some word
      → bus.load s addr 4 ≡ (ok word, s)) where
  golden_entry-walk_entry :
      (kind : EntryKind) (c : Cpu) (access : Access) (va level addr pte pa : ℕ)
      (deeper : S → Xlated S) (deeper_golden : Result ℕ (Unit {0}))
      → (deeper_golden ≡ ok pa → ((deeper s).0 ≡ ok pa) × ((deeper s).1.1 ≡ s))
      → golden_entry kind access va level pte deeper_golden ≡ ok pa
      → ((walk_entry kind bus access va level addr pte deeper c s).0 ≡ ok pa)
        × ((walk_entry kind bus access va level addr pte deeper c s).1.1 ≡ s)
  unfolding take_leaf
  golden_entry-walk_entry refused c access va level addr pte pa deeper g next h =
      absurd (ground arith)
  golden_entry-walk_entry leaf c access va level addr pte pa deeper g next h =
      (ground arith, ground arith)
  golden_entry-walk_entry table c access va level addr pte pa deeper g next h = next h

  walk_golden-walk :
      (c : Cpu) (access : Access) (va n a pa : ℕ)
      → walk_golden c golden overlaid access va n a ≡ ok pa
      → ((walk bus access va n a c s).0 ≡ ok pa) × ((walk bus access va n a c s).1.1 ≡ s)
  unfolding walk_golden walk
  walk_golden-walk c access va zero a pa h = absurd (ground arith)
  walk_golden-walk c access va (suc level) a pa h =
      let addr = u32 (a + vpn va level * 4) in
      elim (Option-cases (access_word perm_read golden addr 4)) [
        | inl missing ↦ absurd (ground arith)
        | inr (pte, found) ↦
            let fresh : overlaid addr ≡ false = ground arith in
            rw (agrees addr pte fresh found) (
              golden_entry-walk_entry (entry_kind c access level pte) c access va level addr pte pa
                (λ t. walk bus access va level (pte_target pte) c t)
                (walk_golden c golden overlaid access va level (pte_target pte))
                (walk_golden-walk c access va level (pte_target pte) pa) (ground arith))
      ]

  -- Where `xlate_golden_readonly` gives an address, `xlate` gives the same one and leaves the
  -- memory as it is: for a page that the software TLB does not hold, over any memory whose words
  -- are the snapshot's at the addresses that `page_overlaid` does not veto.
  pub xlate_golden_readonly-xlate :
      (c : Cpu) (va pa : ℕ) (access : Access)
      → tlb_get c.tlb (va / 2 ^ 12) ≡ none
      → xlate_golden_readonly c golden va access overlaid ≡ ok pa
      → ((xlate bus c s va access).0 ≡ ok pa) × ((xlate bus c s va access).1.1 ≡ s)
  unfolding xlate_golden_readonly xlate
  xlate_golden_readonly-xlate c va pa access miss h =
      ground (arith, walk_golden-walk c access va 2 (root_table c) pa)

-- The page number of a leaf's address.
abbrev leaf_page : ℕ → ℕ → ℕ → ℕ
leaf_page level pte va =
    if level == 1
    then pte / 2 ^ 20 % 2 ^ 10 * 2 ^ 10 + va / 2 ^ 12 % 2 ^ 10
    else pte / 2 ^ 10 % 2 ^ 20

leaf_page-lt : (level pte va : ℕ) → leaf_page level pte va < 2 ^ 20
leaf_page-lt level pte va = elim (Bool-cases (level == 1)) [
  | inl super ↦ rw super (omega arith)
  | inr small ↦ rw small (omega arith)
]

with_offset : (q va : ℕ) → bit_or (q * 2 ^ 12) (page_offset va) ≡ q * 2 ^ 12 + page_offset va
with_offset q va = bit_or_fields 12 q (page_offset va) (omega arith)

leaf_pa-page :
    (level pte va : ℕ) → leaf_pa level pte va ≡ leaf_page level pte va * 2 ^ 12 + page_offset va
leaf_pa-page level pte va = elim (Bool-cases (level == 1)) [
  | inl super ↦
      let q = pte / 2 ^ 20 % 2 ^ 10 in
      let v = va / 2 ^ 12 % 2 ^ 10 in
      let top : u32 (pte / 2 ^ 20 % 2 ^ 12 * 2 ^ 22) ≡ q * 2 ^ 22 = omega arith in
      let both : bit_or (q * 2 ^ 22) (v * 2 ^ 12) ≡ (q * 2 ^ 10 + v) * 2 ^ 12 =
        bit_or_fields 22 q (v * 2 ^ 12) (omega arith) ∙ omega arith in
      rw (super, top, both) (with_offset (q * 2 ^ 10 + v) va)
  | inr small ↦
      let q = pte / 2 ^ 10 % 2 ^ 20 in
      let top : pte_target pte ≡ q * 2 ^ 12 = omega arith in rw (small, top) (with_offset q va)
]

-- A leaf's address is the one that its TLB entry gives back.
entry_pa-leaf_pa :
    (level pte va : ℕ)
    → bit_or (u32 (leaf_pa level pte va / 2 ^ 12 * 2 ^ 12)) (page_offset va) ≡ leaf_pa level pte va
entry_pa-leaf_pa level pte va =
    let q = leaf_page level pte va in
    let small = leaf_page-lt level pte va in
    let form = leaf_pa-page level pte va in
    let page : u32 (leaf_pa level pte va / 2 ^ 12 * 2 ^ 12) ≡ q * 2 ^ 12 =
      omega (arith, form, small) in
    rw page (with_offset q va ∙ sym form)

tlb_get-insert :
    (entries : List TlbEntry) (e : TlbEntry)
    → length entries ≡ tlb_size
    → tlb_get (tlb_insert entries e) e.vpn ≡ some e
unfolding tlb_get tlb_insert
tlb_get-insert entries e size =
    let same : (e.vpn == e.vpn) ≡ true = ground arith in
    let slot : get_or (set entries (tlb_slot e.vpn) e) (tlb_slot e.vpn) empty_entry ≡ e =
      get_or-set entries (tlb_slot e.vpn) (tlb_slot e.vpn) e empty_entry ∙ ground arith in
    rw (slot, same) refl

-- After a refill the TLB answers the access.
fast_pa-refill :
    (c : Cpu) (access : Access) (va level pte : ℕ)
    → length c.tlb ≡ tlb_size
    → untranslated c access ≡ false
    → may_access c access (pte_leaf pte) ≡ true
    → fast_pa (refill access va pte (leaf_pa level pte va) c) va access
      ≡ some (leaf_pa level pte va)
unfolding fast_pa fuzzsoft.Riscv.Cpu.effective_priv
fast_pa-refill c access va level pte size on may =
    let e : TlbEntry = record {
      vpn = va / 2 ^ 12;
      ppn = leaf_pa level pte va / 2 ^ 12;
      r = pte_bit pte 1;
      w = pte_bit pte 2;
      x = pte_bit pte 3;
      u = pte_bit pte 4;
      d_set = is_write access || pte_bit pte 7;
    } in
    rw (on, tlb_get-insert c.tlb e size, may, entry_pa-leaf_pa level pte va) (ground arith)

take_leaf-fast_pa :
    {S : Type 0} (bus : Bus S) (c : Cpu) (s : S) (access : Access) (va level addr pte pa : ℕ)
    → length c.tlb ≡ tlb_size
    → untranslated c access ≡ false
    → may_access c access (pte_leaf pte) ≡ true
    → (take_leaf bus access va level addr pte c s).0 ≡ ok pa
    → fast_pa (take_leaf bus access va level addr pte c s).1.0 va access ≡ some pa
unfolding take_leaf
take_leaf-fast_pa bus c s access va level addr pte pa size on may h =
    ground (arith, fast_pa-refill c access va level pte size on may)

-- What a translation of `va` has done that gives `pa`: the TLB now answers the same access.
abbrev Answered : {S : Type 0} → Access → ℕ → ℕ → Xlated S → Type 0
Answered access va pa out = fast_pa out.1.0 va access ≡ some pa

entry_kind-leaf :
    (c : Cpu) (access : Access) (level pte : ℕ)
    → entry_kind c access level pte ≡ leaf
    → may_access c access (pte_leaf pte) ≡ true
unfolding entry_kind
entry_kind-leaf c access level pte h = ground arith

module _ {S : Type 0} (bus : Bus S) (c : Cpu) (access : Access) (va : ℕ)
    (size : length c.tlb ≡ tlb_size) (on : untranslated c access ≡ false) where
  walk_entry-fast_pa :
      (kind : EntryKind) (level addr pte pa : ℕ) (deeper : S → Xlated S) (s : S)
      → (kind ≡ leaf → may_access c access (pte_leaf pte) ≡ true)
      → ((t : S) → (deeper t).0 ≡ ok pa → Answered access va pa (deeper t))
      → (walk_entry kind bus access va level addr pte deeper c s).0 ≡ ok pa
      → Answered access va pa (walk_entry kind bus access va level addr pte deeper c s)
  walk_entry-fast_pa refused level addr pte pa deeper s may next h = absurd (ground arith)
  walk_entry-fast_pa leaf level addr pte pa deeper s may next h =
      take_leaf-fast_pa bus c s access va level addr pte pa size on (may refl) h
  walk_entry-fast_pa table level addr pte pa deeper s may next h = next s h

  walk_loaded-fast_pa :
      (level addr pa : ℕ) (deeper : ℕ → S → Xlated S) (got : Outcome S ℕ)
      → ((pte : ℕ) (t : S) → (deeper pte t).0 ≡ ok pa → Answered access va pa (deeper pte t))
      → (walk_loaded bus access va level addr deeper c got).0 ≡ ok pa
      → Answered access va pa (walk_loaded bus access va level addr deeper c got)
  walk_loaded-fast_pa level addr pa deeper (err _, s) next h = absurd (ground arith)
  walk_loaded-fast_pa level addr pa deeper (ok pte, s) next h =
      walk_entry-fast_pa (entry_kind c access level pte) level addr pte pa (deeper pte) s
        (entry_kind-leaf c access level pte) (next pte) h

  walk-fast_pa :
      (n a pa : ℕ) (s : S)
      → (walk bus access va n a c s).0 ≡ ok pa
      → Answered access va pa (walk bus access va n a c s)
  unfolding walk
  walk-fast_pa zero a pa s h = absurd (ground arith)
  walk-fast_pa (suc level) a pa s h =
      let addr = u32 (a + vpn va level * 4) in
      walk_loaded-fast_pa level addr pa (λ pte t. walk bus access va level (pte_target pte) c t)
        (bus.load s addr 4) (λ pte t. walk-fast_pa level (pte_target pte) pa t) h

-- A translation that succeeds leaves the hart and answers at once, or walks.
xlate-cases :
    {S : Type 0} (bus : Bus S) (c : Cpu) (s : S) (va pa : ℕ) (access : Access)
    → (xlate bus c s va access).0 ≡ ok pa
    → ((xlate bus c s va access ≡ (ok pa, (c, s))) × (fast_pa c va access ≡ some pa))
      ⊎ ((untranslated c access ≡ false)
          × (xlate bus c s va access ≡ walk bus access va 2 (root_table c) c s))
unfolding xlate fast_pa
xlate-cases bus c s va pa access h = ground arith

-- A translation that succeeds is remembered: on a hart whose TLB has its 256 entries, after an
-- `xlate` that gives `pa`, over any memory and whether it was untranslated, a TLB hit or a walk,
-- `fast_pa` gives `pa` for the same address and access.
pub xlate-fast_pa :
    {S : Type 0} (bus : Bus S) (c : Cpu) (s : S) (va pa : ℕ) (access : Access)
    → length c.tlb ≡ tlb_size
    → (xlate bus c s va access).0 ≡ ok pa
    → fast_pa (xlate bus c s va access).1.0 va access ≡ some pa
xlate-fast_pa bus c s va pa access size h = elim (xlate-cases bus c s va pa access h) [
  | inl (same, answer) ↦ rw same answer
  | inr (on, walked) ↦
      rw walked (
        walk-fast_pa bus c access va size on 2 (root_table c) pa s (sym (ap (λ o. o.0) walked) ∙ h))
]
