-- ===== src/Riscv/Cpu/Agree/Holds.antt =====
-- What a memory keeps through every call of the bus, it keeps through a step of the full system
-- (crates/fs-riscv/src/lib.rs). A memory and itself answer alike.
use mathlib.Core.Path.{subst}
use fuzzsoft.Base.{ℕ, ◌<◌, ◌≡◌, refl}
use fuzzsoft.Fault.{Outcome}
use fuzzsoft.Bus.{Bus}
use fuzzsoft.Riscv.Cpu.{Cpu}
use fuzzsoft.Riscv.Cpu.System.{SysExit, step_system}
use fuzzsoft.Riscv.Cpu.Agree.{Untracked, Answers, Concord, concord}
use fuzzsoft.Riscv.Cpu.Agree.Step.{Matches, matches, step_system-Answers}

module _ {S : Type 0} (P : S → Type 0) where
  -- A predicate that loads, stores and fetches keep, also where they fault.
  pub record BusKeeps (bus : Bus S) : Type 0 where
    pub loads : (s : S) (addr size : ℕ) → P s → P (bus.load s addr size).1
    pub stores : (s : S) (addr size val : ℕ) → 0 < size → P s → P (bus.store s addr size val).1
    pub fetches : (s : S) (addr : ℕ) → P s → P (bus.ifetch16 s addr).1

  -- One memory, with the predicate.
  abbrev Same : S → S → Type 0
  Same s t = (s ≡ t) × P s

  itself-Concord : {A : Type 0} (o : Outcome S A) → P o.1 → Concord Same o o
  itself-Concord (r, s) p = concord r s s (refl, p)

  itself-Answers : (bus : Bus S) → BusKeeps bus → Answers Same bus bus
  itself-Answers bus k = record {
    loads = λ s t h addr size.
        subst (λ t. Concord Same (bus.load s addr size) (bus.load t addr size)) (h.0)
          (itself-Concord (bus.load s addr size) (k.loads s addr size h.1));
    stores = λ s t h addr size val some_byte.
        subst (λ t. Concord Same (bus.store s addr size val) (bus.store t addr size val)) (h.0)
          (itself-Concord (bus.store s addr size val) (k.stores s addr size val some_byte h.1));
    fetches = λ s t h addr.
        subst (λ t. Concord Same (bus.ifetch16 s addr) (bus.ifetch16 t addr)) (h.0)
          (itself-Concord (bus.ifetch16 s addr) (k.fetches s addr h.1));
    raw_states = λ s t h addr len i. bus.read_raw_state (h.0 i) addr len;
  }

  -- A hart that still tracks no taint, over a memory with the predicate.
  abbrev pub Held : SysExit × (Cpu × S) → Type 0
  Held o = Untracked o.1.0 × P o.1.1

  Matches-Held : (o p : SysExit × (Cpu × S)) → Matches Same o p → Held o
  Matches-Held _ _ (matches exit c s t u h) = (u, h.1)

  pub step_system-Held :
      (bus : Bus S) (c : Cpu) (s : S)
      → BusKeeps bus
      → Untracked c
      → P s
      → Held (step_system bus c s)
  step_system-Held bus c s k u p =
      Matches-Held _ _ (step_system-Answers bus bus (itself-Answers bus k) c s s u (refl, p))
