-- ===== src/Driver/Restores.antt =====
-- The reset after a case on the serial machine (crates/fs-cli/src/main.rs and
-- crates/fs-platform/src/lib.rs).
use fuzzsoft.Base.{ℕ, ◌+◌, ◌^◌, ◌≤◌, ◌≡◌, refl, none, some, List, length}
use fuzzsoft.Mmu.{enable_dirty_tracking}
use fuzzsoft.Mmu.Reset.{reset_dirty-Since}
use fuzzsoft.Riscv.Cpu.{Cpu}
use fuzzsoft.Riscv.Cpu.Agree.{Untracked}
use fuzzsoft.Platform.Machine.{Machine}
use fuzzsoft.Platform.CowMachine.{CowMachine}
use fuzzsoft.Platform.Run.{Stop}
use fuzzsoft.Platform.Snapshot.{capture, reset}
use fuzzsoft.Platform.Twins.{Twins, twins}
use fuzzsoft.Coverage.{CovBitmap}
use fuzzsoft.Driver.{machine_guest, cow_guest, Ended, inject_and_run}
use fuzzsoft.Driver.Campaign.{
  SameRun, same_run, both_running, Reusable, truncate-append, inject_and_run-SameRun,
}

-- The hart, the RAM with its dirty list, the CLINT and the console are those that were captured.
pub record Restored (golden : Machine) (golden_cpu : Cpu) (after : Cpu × Machine) : Type 0 where
  pub cpu : after.0 ≡ golden_cpu
  pub ram : after.1.ram ≡ enable_dirty_tracking golden.ram
  pub clint : after.1.clint ≡ golden.clint
  pub uart : after.1.uart ≡ golden.uart

-- What a reset makes of the state that a case left, where the case is over.
pub data ResetAfter (golden : Machine) (golden_cpu : Cpu) : Ended machine_guest → Type 0 where
  reset_after :
      (stop : Stop) (used : ℕ) (console : List ℕ) (cpu : Cpu) (m : Machine) (cov : CovBitmap)
      → Restored golden golden_cpu (reset (capture golden_cpu golden).0 cpu m)
      → ResetAfter golden golden_cpu (some ((stop, (used, console)), (cpu, (m, cov))))
  unfinished : ResetAfter golden golden_cpu none

module _ (golden : Machine) (golden_cpu : Cpu)
    (planes : length golden.ram.perms ≡ length golden.ram.mem)
    (fits : golden.ram.base + length golden.ram.mem ≤ 2 ^ 32) where
  Twins-Restored :
      (y : List ℕ) (cpu : Cpu) (m : Machine) (c : CowMachine)
      → Twins golden.ram golden.uart.out y m c
      → Restored golden golden_cpu (reset (capture golden_cpu golden).0 cpu m)
  unfolding capture reset
  Twins-Restored y cpu _ _ (twins m c b e k sent a) = record {
    cpu = refl;
    ram = reset_dirty-Since golden.ram m planes a.since;
    clint = refl;
    uart = λ i. record { out = truncate-append golden.uart.out sent i };
  }

  SameRun-ResetAfter :
      (y : List ℕ) (o : Ended machine_guest) (p : Ended cow_guest)
      → SameRun golden.ram golden.uart.out y o p
      → ResetAfter golden golden_cpu o
  SameRun-ResetAfter y _ _ (same_run stop used cpu m c cov sent u h _ _) =
      reset_after stop used sent cpu m cov (Twins-Restored y cpu m c h)
  SameRun-ResetAfter y _ _ both_running = unfinished

  -- Whatever program a case ran, where the case is over, a reset of the snapshot gives back the
  -- captured hart, the RAM in every byte, permission and dirty mark, the CLINT and the console,
  -- under the same conditions.
  pub inject_and_run-ResetAfter :
      (n : ℕ) (cpu : Cpu) (m : Machine) (c : CowMachine)
      (words scratch prog_pas scratch_pas : List ℕ) (case_insns : ℕ) (run_map : CovBitmap)
      → Untracked golden_cpu
      → Reusable golden.ram golden.uart.out m c
      → ResetAfter golden golden_cpu (
          inject_and_run machine_guest n
            (reset (capture golden_cpu golden).0)
            cpu
            m
            words
            scratch
            prog_pas
            scratch_pas
            case_insns
            (length golden.uart.out)
            run_map)
  inject_and_run-ResetAfter n cpu m c words scratch prog_pas scratch_pas case_insns run_map u h =
      SameRun-ResetAfter _ _ _ (
        inject_and_run-SameRun golden golden_cpu planes fits n cpu cpu m c words scratch prog_pas
          scratch_pas case_insns run_map u h)
