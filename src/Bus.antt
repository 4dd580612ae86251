-- ===== src/Bus.antt =====
-- `Bus`, what a hart asks of its memory (crates/fs-mmu/src/lib.rs), on a state `S`: the flat RAM and
-- the copy-on-write view are both one.
use fuzzsoft.Base.{ℕ}
use fuzzsoft.Fault.{Outcome}

-- `store_may_assert_interrupt` and `fast_ptr` are asked by the JIT only.
pub record Bus (S : Type 0) : Type 0 where
  pub load : S → ℕ → ℕ → Outcome S ℕ
  pub store : S → ℕ → ℕ → ℕ → Outcome S (Unit {0})
  pub ifetch16 : S → ℕ → Outcome S ℕ
  pub read_raw_state : S → ℕ → ℕ → ℕ
  pub write_shadow : S → ℕ → ℕ → ℕ → S
