-- ===== src/Driver/Laws.antt =====
-- One case on the two machines (crates/fs-cli/src/main.rs).
use fuzzsoft.Base.{
  ℕ, zero, suc, ◌+◌, ◌^◌, ◌≤◌, ◌≡◌, true, false, none, some, List, length, ltb, if◌then◌else◌,
}
use fuzzsoft.Mmu.{Mmu}
use fuzzsoft.Riscv.Cpu.{Cpu}
use fuzzsoft.Riscv.Cpu.System.{SysExit, carry_on, halted, hypercall}
use fuzzsoft.Riscv.Cpu.Agree.{Untracked}
use fuzzsoft.Riscv.Cpu.Agree.Step.{Matches, matches, step_system-Matches}
use fuzzsoft.Platform.Machine.{Machine}
use fuzzsoft.Platform.CowMachine.{CowMachine}
use fuzzsoft.Platform.Run.{
  Stop, halt_stop, hypercall_stop, budget, sync_timer, sync_timer_cow, apply_clint,
}
use fuzzsoft.Platform.Twins.{Twins, twins, machines-Related}
use fuzzsoft.Coverage.{CovBitmap}
use fuzzsoft.Driver.{machine_guest, cow_guest, case_step, case_exit, run_case_bus, Case, with_edge}

-- Two cases that end the same way with the same hart and the same coverage, on machines that are
-- still twins, or that are both not over.
pub data SameCase (gold : Mmu) (x y : List ℕ) : Case machine_guest → Case cow_guest → Type 0 where
  ended :
      (stop : Stop) (cpu : Cpu) (m : Machine) (c : CowMachine) (cov : CovBitmap)
      → Untracked cpu
      → Twins gold x y m c
      → SameCase gold x y (some (stop, (cpu, (m, cov)))) (some (stop, (cpu, (c, cov))))
  running : SameCase gold x y none none

module _ (gold : Mmu) (planes : length gold.perms ≡ length gold.mem)
    (fits : gold.base + length gold.mem ≤ 2 ^ 32) (x y : List ℕ) where
  case_step-Matches :
      (cpu : Cpu) (m : Machine) (c : CowMachine)
      → Untracked cpu
      → Twins gold x y m c
      → Matches (Twins gold x y) (case_step machine_guest cpu m) (case_step cow_guest cpu c)
  unfolding case_step machine_guest cow_guest sync_timer sync_timer_cow apply_clint
  case_step-Matches cpu _ _ u (twins m c b e k d a) =
      step_system-Matches _ _ (machines-Related gold planes fits x y) _ _ _ u (twins m c b e _ d a)

  case_exit-SameCase :
      (prev : ℕ) (cov : CovBitmap) (o : SysExit × (Cpu × Machine))
      (p : SysExit × (Cpu × CowMachine)) (f : Cpu → Machine → CovBitmap → Case machine_guest)
      (g : Cpu → CowMachine → CovBitmap → Case cow_guest)
      → Matches (Twins gold x y) o p
      → ((cpu : Cpu) (m : Machine) (c : CowMachine) (cov' : CovBitmap)
          → Untracked cpu
          → Twins gold x y m c
          → SameCase gold x y (f cpu m cov') (g cpu c cov'))
      → SameCase gold x y (case_exit machine_guest prev cov o f) (case_exit cow_guest prev cov p g)
  case_exit-SameCase prev cov _ _ f g (matches carry_on cpu m c u h) k =
      k cpu m c (with_edge prev cpu.pc cov) u h
  case_exit-SameCase prev cov _ _ f g (matches (halted code) cpu m c u h) k =
      ended (halt_stop code) cpu m c cov u h
  case_exit-SameCase prev cov _ _ f g (matches (hypercall code) cpu m c u h) k =
      ended (hypercall_stop code) cpu m c cov u h

  -- The loop of a case gives the same stop, hart and coverage on twin machines and leaves twins, or
  -- is over on neither, for any deadline, any number of steps and any hart that tracks no taint.
  pub run_case_bus-SameCase :
      (n : ℕ) (cpu : Cpu) (m : Machine) (c : CowMachine) (cov : CovBitmap) (deadline : ℕ)
      → Untracked cpu
      → Twins gold x y m c
      → SameCase gold x y
          (run_case_bus machine_guest n cpu m cov deadline)
          (run_case_bus cow_guest n cpu c cov deadline)
  unfolding run_case_bus
  run_case_bus-SameCase zero cpu m c cov deadline u h = running
  run_case_bus-SameCase (suc n) cpu m c cov deadline u h =
      elim (ltb cpu.insns_retired deadline)
        as (λ b.
          SameCase gold x y
            (if b
              then case_exit machine_guest cpu.pc cov (case_step machine_guest cpu m)
                  (λ d k cov'. run_case_bus machine_guest n d k cov' deadline)
              else some (budget, (cpu, (m, cov))))
            (if b
              then case_exit cow_guest cpu.pc cov (case_step cow_guest cpu c)
                  (λ d k cov'. run_case_bus cow_guest n d k cov' deadline)
              else some (budget, (cpu, (c, cov))))) [
                | true ↦
                    case_exit-SameCase cpu.pc cov _ _ _ _ (case_step-Matches cpu m c u h)
                      (λ d k j cov' v r. run_case_bus-SameCase n d k j cov' deadline v r)
                | false ↦ ended budget cpu m c cov u h
              ]
