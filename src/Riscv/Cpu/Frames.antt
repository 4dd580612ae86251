-- ===== src/Riscv/Cpu/Frames.antt =====
-- What the execution of an instruction leaves alone in the hart until it retires, with a rule for
-- each way to build an action (crates/fs-riscv/src/lib.rs).
pub mod Arms
pub mod Step
use fuzzsoft.Base.{
  ℕ, zero, suc, ◌+◌, ◌≡◌, refl, sym, ap, ◌∙◌, Bool, true, false, Option, none, some, List, Result,
  ok, err, length, set, ◌==◌, if◌then◌else◌, arith, Bool-cases, inl, inr, length-set,
  length-replicate, replicate,
}
use fuzzsoft.Fault.{Access, Outcome}
use fuzzsoft.Bus.{Bus}
use fuzzsoft.Riscv.Cpu.{
  Cpu, Trap, TlbEntry, tlb_size, wr_reg, wr_taint, tlb_insert, tlb_get, empty_tlb,
}
use fuzzsoft.Riscv.Cpu.Monad.{
  Hart, pure, raise, gets, update, updated, on_bus, on_memory, peek, modify, poke, continue, ◌>>=◌,
}
use fuzzsoft.Riscv.Cpu.Memory.{translate}
use fuzzsoft.Riscv.Cpu.Xlate.{
  EntryKind, refused, leaf, table, entry_kind, walk_entry, walk_loaded, Xlated, refill, take_leaf,
  walk, xlate, pte_target, root_table, ad_unset, leaf_pa, leaf_stored, page_fault,
}

-- The pc, the retired count and the sizes of the register file and the TLB stay, and taint tracking
-- is not turned on.
pub record Frame (c d : Cpu) : Type 0 where
  pub pc : d.pc ≡ c.pc
  pub retired : d.insns_retired ≡ c.insns_retired
  pub regs : length d.regs ≡ length c.regs
  pub tlb : length c.tlb ≡ tlb_size → length d.tlb ≡ tlb_size
  pub untracked : c.regs_taint ≡ none → d.regs_taint ≡ none

pub Frame-refl : (c : Cpu) → Frame c c
Frame-refl c = record { pc = refl; retired = refl; regs = refl; tlb = λ h. h; untracked = λ h. h }

pub Frame-trans : {c d e : Cpu} → Frame c d → Frame d e → Frame c e
Frame-trans f g = record {
  pc = g.pc ∙ f.pc;
  retired = g.retired ∙ f.retired;
  regs = g.regs ∙ f.regs;
  tlb = λ h. g.tlb (f.tlb h);
  untracked = λ h. g.untracked (f.untracked h);
}

-- `m` leaves the frame, whether it returns or traps.
pub record Frames {S A : Type 0} (m : Hart S A) : Type 0 where
  pub at : (c : Cpu) (s : S) → Frame c (m c s).1.0

-- A step of the hart alone leaves the frame where it does not trap.
abbrev pub Leaves : {A : Type 0} → Cpu → Result (A × Cpu) Trap → Type 0
Leaves c (ok (a, d)) = Frame c d
Leaves c (err t) = Unit {0}

module _ {S A : Type 0} where
  pub Frames-pure : (a : A) → Frames {S = S} (pure a)
  unfolding pure
  Frames-pure a = record { at = λ c s. Frame-refl c }

  pub Frames-raise : (t : Trap) → Frames {S = S} {A = A} (raise t)
  unfolding raise
  Frames-raise t = record { at = λ c s. Frame-refl c }

  pub Frames-gets : (f : Cpu → A) → Frames {S = S} (gets f)
  unfolding gets
  Frames-gets f = record { at = λ c s. Frame-refl c }

  pub Frames-peek : (f : S → A) → Frames (peek f)
  unfolding peek
  Frames-peek f = record { at = λ c s. Frame-refl c }

  on_memory-Frame : (c : Cpu) (o : Outcome S A) → Frame c (on_memory c o).1.0
  on_memory-Frame c (ok a, s) = Frame-refl c
  on_memory-Frame c (err f, s) = Frame-refl c

  pub Frames-on_bus : (call : S → Outcome S A) → Frames (on_bus call)
  unfolding on_bus
  Frames-on_bus call = record { at = λ c s. on_memory-Frame c (call s) }

  updated-Frame :
      (c : Cpu) (s : S) (r : Result (A × Cpu) Trap) → Leaves c r → Frame c (updated c s r).1.0
  updated-Frame c s (ok (a, d)) h = h
  updated-Frame c s (err t) h = Frame-refl c

  pub Frames-update :
      (f : Cpu → Result (A × Cpu) Trap) → ((c : Cpu) → Leaves c (f c)) → Frames {S = S} (update f)
  unfolding update
  Frames-update f h = record { at = λ c s. updated-Frame c s (f c) (h c) }

  pub Frames-if : (b : Bool) (m n : Hart S A) → Frames m → Frames n → Frames (if b then m else n)
  Frames-if true m n f g = f
  Frames-if false m n f g = g

module _ {S : Type 0} where
  pub Frames-modify : (f : Cpu → Cpu) → ((c : Cpu) → Frame c (f c)) → Frames {S = S} (modify f)
  unfolding modify
  Frames-modify f h = record { at = λ c s. h c }

  pub Frames-poke : (f : S → S) → Frames (poke f)
  unfolding poke
  Frames-poke f = record { at = λ c s. Frame-refl c }

module _ {S A B : Type 0} where
  continue-Frame :
      (c : Cpu) (o : Result A Trap × (Cpu × S)) (f : A → Hart S B)
      → Frame c o.1.0
      → ((a : A) → Frames (f a))
      → Frame c (continue o f).1.0
  continue-Frame c (ok a, (d, s)) f h k = Frame-trans h ((k a).at d s)
  continue-Frame c (err t, (d, s)) f h k = h

  pub Frames-bind :
      (m : Hart S A) (f : A → Hart S B) → Frames m → ((a : A) → Frames (f a)) → Frames (m >>= f)
  unfolding ◌>>=◌
  Frames-bind m f h k = record { at = λ c s. continue-Frame c (m c s) f (h.at c s) k }

pub wr_reg-Frame : (c : Cpu) (i v : ℕ) → Frame c (wr_reg c i v)
unfolding wr_reg
wr_reg-Frame c i v =
    elim (i == 0) as (λ b. Frame c (if b then c else record c { regs = set c.regs i v })) [
      | true ↦ Frame-refl c
      | false ↦ record {
        pc = refl;
        retired = refl;
        regs = length-set c.regs i v;
        tlb = λ h. h;
        untracked = λ h. h;
      }
    ]

pub wr_taint-Frame : (c : Cpu) (i v : ℕ) → Frame c (wr_taint c i v)
unfolding wr_taint
wr_taint-Frame c i v = record {
  pc = ground arith;
  retired = ground arith;
  regs = ground arith;
  tlb = λ h. ground arith;
  untracked = λ h. ground arith;
}

-- A hart that differs in its TLB alone.
pub record Retlb (c d : Cpu) : Type 0 where
  pub rest : d ≡ record c { tlb = d.tlb }
  pub size : length c.tlb ≡ tlb_size → length d.tlb ≡ tlb_size

Retlb-refl : (c : Cpu) → Retlb c c
Retlb-refl c = record { rest = refl; size = λ h. h }

Retlb-Frame : {c d : Cpu} → Retlb c d → Frame c d
Retlb-Frame r = record {
  pc = ap (λ x. x.pc) r.rest;
  retired = ap (λ x. x.insns_retired) r.rest;
  regs = ap (λ x. length x.regs) r.rest;
  tlb = r.size;
  untracked = λ h. ap (λ x. x.regs_taint) r.rest ∙ h;
}

refill-Retlb : (access : Access) (va pte pa : ℕ) (c : Cpu) → Retlb c (refill access va pte pa c)
unfolding tlb_insert
refill-Retlb access va pte pa c = record { rest = refl; size = λ h. length-set c.tlb _ _ ∙ h }

module _ {S : Type 0} (bus : Bus S) (access : Access) (va : ℕ) where
  leaf_stored-Retlb :
      (pa : ℕ) (c d : Cpu) (o : Outcome S (Unit {0}))
      → Retlb c d
      → Retlb c (leaf_stored access va pa d c o).1.0
  leaf_stored-Retlb pa c d (ok _, t) h = h
  leaf_stored-Retlb pa c d (err _, t) h = Retlb-refl c

  take_leaf-Retlb :
      (level addr pte : ℕ) (c : Cpu) (s : S)
      → Retlb c (take_leaf bus access va level addr pte c s).1.0
  unfolding take_leaf
  take_leaf-Retlb level addr pte c s =
      let pa = leaf_pa level pte va in
      let filled = refill-Retlb access va pte pa c in
      elim (Bool-cases (ad_unset access pte)) [
        | inl unset ↦ rw unset (leaf_stored-Retlb pa c (refill access va pte pa c) _ filled)
        | inr already ↦ rw already filled
      ]

  walk_loaded-Retlb :
      (level addr : ℕ) (deeper : ℕ → S → Xlated S) (c : Cpu) (o : Outcome S ℕ)
      → ((pte : ℕ) (t : S) → Retlb c (deeper pte t).1.0)
      → Retlb c (walk_loaded bus access va level addr deeper c o).1.0
  walk_loaded-Retlb level addr deeper c (err f, s) h = Retlb-refl c
  walk_loaded-Retlb level addr deeper c (ok pte, s) h =
      elim (entry_kind c access level pte)
        as (λ k. Retlb c (walk_entry k bus access va level addr pte (deeper pte) c s).1.0) [
          | refused ↦ Retlb-refl c
          | leaf ↦ take_leaf-Retlb level addr pte c s
          | table ↦ h pte s
        ]

  walk-Retlb : (n a : ℕ) (c : Cpu) (s : S) → Retlb c (walk bus access va n a c s).1.0
  unfolding walk
  walk-Retlb zero a c s = Retlb-refl c
  walk-Retlb (suc level) a c s =
      walk_loaded-Retlb level _ _ c _ (λ pte t. walk-Retlb level (pte_target pte) c t)

  -- A translation changes nothing of the hart but its TLB.
  pub xlate-Retlb : (c : Cpu) (s : S) → Retlb c (xlate bus c s va access).1.0
  unfolding xlate
  xlate-Retlb c s = ground (arith, Retlb-refl c, walk-Retlb 2 (root_table c) c s)

  pub Frames-translate : Frames (translate bus va access)
  unfolding translate
  Frames-translate = record { at = λ c s. Retlb-Frame (xlate-Retlb c s) }

pub ruleset frames_rules = (
  Frames-pure, Frames-raise, Frames-gets, Frames-peek, Frames-on_bus, Frames-update, Frames-if,
  Frames-modify, Frames-poke, Frames-bind, Frames-translate, Frame-refl, wr_reg-Frame,
  wr_taint-Frame,
)
