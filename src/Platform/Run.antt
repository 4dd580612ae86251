-- ===== src/Platform/Run.antt =====
-- The driver of one hart: the timer, and the loops `run_until` and `run`
-- (crates/fs-platform/src/lib.rs).
pub mod Laws
use fuzzsoft.Base.{ℕ, zero, suc, ◌^◌, Option, none, some, bit_and, nonzero, ltb, if◌then◌else◌}
use fuzzsoft.Riscv.Cpu.{Cpu, set_bit}
use fuzzsoft.Riscv.Cpu.System.{SysExit, carry_on, halted, hypercall, step_system}
use fuzzsoft.Platform.Clint.{Clint}
use fuzzsoft.Platform.Machine.{Machine, machine_bus}
use fuzzsoft.Platform.CowMachine.{CowMachine}

pub data Stop : Type 0 where
  halt_stop hypercall_stop : (code : ℕ) → Stop
  budget : Stop

abbrev pub mip_msip : ℕ
mip_msip = 2 ^ 3

-- The compare and the software interrupt that a hart sees.
abbrev pub with_clint : ℕ → ℕ → Cpu → Cpu
with_clint msip mtimecmp cpu = record cpu {
  csr = record cpu.csr {
    mtimecmp = mtimecmp;
    mip = set_bit (nonzero (bit_and msip 1)) mip_msip cpu.csr.mip;
  };
}

unfoldable pub apply_clint : Cpu → Clint → Cpu
apply_clint cpu clint = with_clint clint.msip clint.mtimecmp cpu

unfoldable pub sync_timer : Cpu → Machine → Cpu
unfolding apply_clint
sync_timer cpu m = apply_clint cpu m.clint

unfoldable pub sync_timer_cow : Cpu → CowMachine → Cpu
unfolding apply_clint
sync_timer_cow cpu m = apply_clint cpu m.clint

abbrev pub set_mtime : ℕ → Machine → Machine
set_mtime t m = record m { clint = record m.clint { mtime = t } }

-- The body of both loops up to the step's exit; virtual time is the count of retired instructions.
unfoldable pub timed_step : Cpu → Machine → SysExit × (Cpu × Machine)
unfolding sync_timer
timed_step cpu m =
    let timed = set_mtime cpu.insns_retired m in
    step_system machine_bus (sync_timer cpu timed) timed

abbrev pub Ran : Type 0 → Type 0
Ran A = Option (A × (Cpu × Machine))

abbrev pub until_exit : SysExit × (Cpu × Machine) → (Cpu → Machine → Ran Stop) → Ran Stop
until_exit (carry_on, (cpu, m)) again = again cpu m
until_exit (halted code, after) again = some (halt_stop code, after)
until_exit (hypercall code, after) again = some (hypercall_stop code, after)

-- `none` is a run that is not over after that many steps.
unfoldable pub run_until : ℕ → Cpu → Machine → ℕ → Ran Stop
run_until zero cpu m deadline = none
run_until (suc n) cpu m deadline =
    if ltb cpu.insns_retired deadline
    then until_exit (timed_step cpu m) (λ d k. run_until n d k deadline)
    else some (budget, (cpu, m))

-- `run` goes on after a hypercall.
abbrev pub halt_or_on :
    SysExit × (Cpu × Machine) → (Cpu → Machine → Ran (Option ℕ)) → Ran (Option ℕ)
halt_or_on (carry_on, (cpu, m)) again = again cpu m
halt_or_on (halted code, after) again = some (some code, after)
halt_or_on (hypercall code, (cpu, m)) again = again cpu m

unfoldable pub run : ℕ → Cpu → Machine → ℕ → Ran (Option ℕ)
run zero cpu m max_insns = none
run (suc n) cpu m max_insns =
    if ltb cpu.insns_retired max_insns
    then halt_or_on (timed_step cpu m) (λ d k. run n d k max_insns)
    else some (none, (cpu, m))
