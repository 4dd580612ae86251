-- ===== src/Examples/Runs.antt =====
-- Runs of the machines, the scheduler, the coverage maps and the driver at concrete inputs.
use fuzzsoft.Base.{
  ℕ, ◌+◌, ◌≡◌, ◌<◌, refl, ap, ◌∙◌, true, false, none, some, List, [], ◌∷◌, err, arith, length,
  replicate, zero, suc, get_or, length-replicate, max,
}
use fuzzsoft.Fault.{exec}
use fuzzsoft.Mmu.{Mmu, enable_dirty_tracking}
use fuzzsoft.Golden.{from_mmu}
use fuzzsoft.Cow
use fuzzsoft.Cow.Session.{Alike-start}
use fuzzsoft.Riscv.Csr.{default}
use fuzzsoft.Riscv.Cpu.{
  Cpu, mem_trap, new_hart, poll_interrupt, update_timers, empty_tlb, tlb_size, empty_entry,
}
use fuzzsoft.Riscv.Cpu.System.{step, step_system, finish_exit}
use fuzzsoft.Riscv.Cpu.Agree.{Related, Untracked}
use fuzzsoft.Riscv.Cpu.Agree.Step.{Matches, step_system-Matches}
use fuzzsoft.Riscv.Cpu.Frames.Step.{Sized, Stepped, step-Stepped}
use fuzzsoft.Riscv.Cpu.Precise.{arch}
use fuzzsoft.Riscv.Cpu.Precise.Step.{step_system-finish_exit}
use fuzzsoft.Platform.{in_ram, mmio_fault}
use fuzzsoft.Platform.Clint.{default_clint}
use fuzzsoft.Platform.Machine.{Machine, machine_bus}
use fuzzsoft.Platform.CowMachine.{CowMachine, cow_machine_bus, from_machine}
use fuzzsoft.Platform.Run.{run_until}
use fuzzsoft.Platform.Run.Laws.{Stuck, step-Stuck, quiet, run_until-Stuck}
use fuzzsoft.Platform.Snapshot.{capture, reset, truncate}
use fuzzsoft.Platform.Twins.{Twins, twins, machines-Related}
use fuzzsoft.Platform.Smp.{Smp, after_turn, turn_of, run_smp}
use fuzzsoft.Platform.Smp.Ends.{Holds, run_smp-Holds}
use fuzzsoft.Platform.Smp.Guards.{guarded, turn_of-guarded}
use fuzzsoft.Mmu.Words.{Word}
use fuzzsoft.Perm.{permits, perm_write}
use fuzzsoft.Coverage.{CovBitmap, new_bitmap, new_virgin, record_edge, has_new_bits, map_size}
use fuzzsoft.Coverage.Laws.{
  run_class, seen_class, advances, has_new_bits-seen, has_new_bits-advances,
}
use fuzzsoft.Driver.{machine_guest, cow_guest, run_case_bus, inject_and_run, reset_cow}
use fuzzsoft.Driver.Laws.{SameCase, run_case_bus-SameCase}
use fuzzsoft.Driver.Campaign.{SameRun, capture-Reusable, inject_and_run-SameRun}
use fuzzsoft.Driver.Consoles.{WorkerReads, inject_and_run-WorkerReads}
use fuzzsoft.Driver.Restores.{ResetAfter, inject_and_run-ResetAfter}

-- `addi x1, x0, 1` and a jump to itself at 0x1000, in RAM that may be read, written and executed.
abbrev program : Mmu
program = record {
  base = 0x1000;
  mem = 0x93 ∷ 0x00 ∷ 0x10 ∷ 0x00 ∷ 0x6f ∷ 0x00 ∷ 0x00 ∷ 0x00 ∷ [];
  perms = 7 ∷ 7 ∷ 7 ∷ 7 ∷ 7 ∷ 7 ∷ 7 ∷ 7 ∷ [];
  track_dirty = false;
  dirty = record { blocks = []; bitmap = [] };
}

-- The machine that was booted, with two bytes on its console.
abbrev booted : Machine
booted = record {
  ram = program;
  ram_base = 0x1000;
  ram_end = 0x1008;
  clint = default_clint;
  uart = record { out = 79 ∷ 75 ∷ [] };
}

abbrev flat_side : Machine
flat_side = record booted { ram = enable_dirty_tracking program; uart = record { out = [] } }

abbrev cow_side : CowMachine
cow_side = record {
  ram = Cow.new (from_mmu program);
  ram_base = 0x1000;
  ram_end = 0x1008;
  clint = default_clint;
  uart = record { out = [] };
}

sides-Twins : Twins program [] [] flat_side cow_side
sides-Twins = twins _ _ 0x1000 0x1008 default_clint [] (Alike-start program refl (omega arith))

abbrev entry_hart : Cpu
entry_hart = new_hart 0x1000 0

entry_hart-Untracked : Untracked entry_hart
unfolding new_hart
entry_hart-Untracked = refl

machines-Related_example : Related (Twins program [] []) machine_bus cow_machine_bus
machines-Related_example = machines-Related program refl (omega arith) [] []

step_system-Matches_example :
    Matches
      (Twins program [] [])
      (step_system machine_bus entry_hart flat_side)
      (step_system cow_machine_bus entry_hart cow_side)
step_system-Matches_example =
    step_system-Matches machine_bus cow_machine_bus
      (machines-Related program refl (omega arith) [] []) entry_hart flat_side cow_side
      entry_hart-Untracked sides-Twins

run_case_bus-SameCase_example :
    SameCase program [] []
      (run_case_bus machine_guest 9 entry_hart flat_side new_bitmap 4)
      (run_case_bus cow_guest 9 entry_hart cow_side new_bitmap 4)
run_case_bus-SameCase_example =
    run_case_bus-SameCase program refl (omega arith) [] [] 9 entry_hart flat_side cow_side
      new_bitmap 4 entry_hart-Untracked sides-Twins

-- The program replaces its first instruction by `addi x2, x0, 2`.
abbrev injected : List ℕ
injected = 0x00200113 ∷ []

inject_and_run-SameRun_example :
    SameRun program
      (79 ∷ 75 ∷ [])
      (truncate (from_machine booted).uart.out 2)
      (inject_and_run machine_guest 9
        (reset (capture entry_hart booted).0)
        entry_hart
        (capture entry_hart booted).1
        injected
        []
        (0x1000 ∷ [])
        []
        4
        2
        new_bitmap)
      (inject_and_run cow_guest 9
        (reset_cow entry_hart default_clint 2)
        entry_hart
        (from_machine booted)
        injected
        []
        (0x1000 ∷ [])
        []
        4
        2
        new_bitmap)
inject_and_run-SameRun_example =
    inject_and_run-SameRun booted entry_hart refl (omega arith) 9 entry_hart entry_hart
      (capture entry_hart booted).1 (from_machine booted) injected [] (0x1000 ∷ []) [] 4 new_bitmap
      entry_hart-Untracked (capture-Reusable booted entry_hart refl (omega arith) refl)

inject_and_run-ResetAfter_example : ResetAfter booted entry_hart (
    inject_and_run machine_guest 9
      (reset (capture entry_hart booted).0)
      entry_hart
      (capture entry_hart booted).1
      injected
      []
      (0x1000 ∷ [])
      []
      4
      2
      new_bitmap)
inject_and_run-ResetAfter_example =
    inject_and_run-ResetAfter booted entry_hart refl (omega arith) 9 entry_hart
      (capture entry_hart booted).1 (from_machine booted) injected [] (0x1000 ∷ []) [] 4 new_bitmap
      entry_hart-Untracked (capture-Reusable booted entry_hart refl (omega arith) refl)

inject_and_run-WorkerReads_example :
    WorkerReads
      (79 ∷ 75 ∷ [])
      (truncate (from_machine booted).uart.out 2)
      (inject_and_run machine_guest 9
        (reset (capture entry_hart booted).0)
        entry_hart
        (capture entry_hart booted).1
        injected
        []
        (0x1000 ∷ [])
        []
        4
        2
        new_bitmap)
      (inject_and_run cow_guest 9
        (reset_cow entry_hart default_clint 2)
        entry_hart
        (from_machine booted)
        injected
        []
        (0x1000 ∷ [])
        []
        4
        2
        new_bitmap)
inject_and_run-WorkerReads_example =
    inject_and_run-WorkerReads booted entry_hart refl (omega arith) 9 entry_hart entry_hart
      (capture entry_hart booted).1 (from_machine booted) injected [] (0x1000 ∷ []) [] 4 new_bitmap
      entry_hart-Untracked (capture-Reusable booted entry_hart refl (omega arith) refl)

entry_hart-Sized : Sized entry_hart
unfolding new_hart empty_tlb
entry_hart-Sized = (length-replicate 32 0, length-replicate tlb_size empty_entry)

step-Stepped_example :
    Stepped entry_hart
      (step machine_bus entry_hart booted).0
      (step machine_bus entry_hart booted).1.0
step-Stepped_example = step-Stepped entry_hart entry_hart-Sized machine_bus booted

-- A hart at address 0, where there is no RAM, and whose trap vector is 0 too.
abbrev lost_hart : Cpu
lost_hart = new_hart 0 0

lost_hart-Stuck : Stuck booted lost_hart
unfolding new_hart default in_ram
lost_hart-Stuck = record {
  mode = refl;
  at_vector = refl;
  vector = refl;
  masked = refl;
  outside = refl;
}

lost_hart-masked : lost_hart.csr.mie ≡ 0
unfolding new_hart default
lost_hart-masked = refl

polled-Stuck : Stuck booted (update_timers lost_hart)
unfolding new_hart default in_ram update_timers
polled-Stuck = record {
  mode = refl;
  at_vector = refl;
  vector = refl;
  masked = refl;
  outside = refl;
}

fetch_fails :
    (step machine_bus (poll_interrupt lost_hart).1 booted).0 ≡ err (mem_trap (mmio_fault 0 2 exec))
fetch_fails =
    ap (λ p. (step machine_bus p.1 booted).0) (quiet lost_hart lost_hart-masked)
    ∙ ap (λ o. o.0) (step-Stuck booted (update_timers lost_hart) polled-Stuck)

step_system-finish_exit_example :
    ((step_system machine_bus lost_hart booted).0
      ≡ (finish_exit (poll_interrupt lost_hart).1 (err (mem_trap (mmio_fault 0 2 exec)))).0)
    × (arch (step_system machine_bus lost_hart booted).1.0
        ≡ arch (finish_exit (poll_interrupt lost_hart).1 (err (mem_trap (mmio_fault 0 2 exec)))).1)
step_system-finish_exit_example =
    step_system-finish_exit machine_bus lost_hart booted (mem_trap (mmio_fault 0 2 exec))
      (ap (λ p. p.0) (quiet lost_hart lost_hart-masked)) fetch_fails

lost_hart-early : lost_hart.insns_retired < 100
unfolding new_hart
lost_hart-early = omega arith

run_until-Stuck_example : run_until 1000 lost_hart booted 100 ≡ none
run_until-Stuck_example = run_until-Stuck 1000 lost_hart booted 100 lost_hart-Stuck lost_hart-early

run_smp-Holds_example :
    Holds (λ r. length r.0 ≡ 2) (run_smp 11 (entry_hart ∷ lost_hart ∷ []) booted 2 10 true)
run_smp-Holds_example =
    run_smp-Holds 11 (entry_hart ∷ lost_hart ∷ []) booted 2 10 true (omega arith)

-- `sw x2, 0(x1)` at 0x1000, with x1 at the word after it.
abbrev storing : Machine
storing = record booted {
  ram = record program { mem = 0x23 ∷ 0xa0 ∷ 0x20 ∷ 0x00 ∷ 0x6f ∷ 0x00 ∷ 0x00 ∷ 0x00 ∷ [] };
}

abbrev storing_hart : Cpu
storing_hart = record entry_hart { regs = 0 ∷ 0x1004 ∷ 9 ∷ replicate 29 0 }

storing_hart-Untracked : Untracked storing_hart
unfolding new_hart
storing_hart-Untracked = refl

-- Hart 1 has a reservation of the word that hart 0 stores to.
abbrev reserved : Smp
reserved = record {
  cpus = storing_hart ∷ record entry_hart { reservation = some 0x1004 } ∷ [];
  machine = storing;
  stops = none ∷ none ∷ [];
  tick = 0;
}

four : (k : ℕ) → k < 4 → permits perm_write (get_or program.perms (4 + k) 0) ≡ true
four zero lt = refl
four (suc zero) lt = refl
four (suc (suc zero)) lt = refl
four (suc (suc (suc zero))) lt = refl
four (suc (suc (suc (suc k)))) lt = absurd (omega arith)

reserved_word : Word storing.ram 4
reserved_word = record {
  planes = refl;
  fits = omega arith;
  aligned = refl;
  inside = omega arith;
  writable = four;
}

turn_of-guarded_example :
    Holds (λ t. guarded 1 4 reserved (after_turn 0 reserved t) ≡ true) (turn_of 5 3 5 0 reserved)
turn_of-guarded_example =
    turn_of-guarded 5 3 5 0 1 4 reserved (omega arith) (omega arith) (omega arith) refl
      storing_hart-Untracked (omega arith) reserved_word

-- A run that took one edge.
abbrev one_edge : CovBitmap
one_edge = record_edge new_bitmap 0x1000 0x2000

virgin_sized : length new_virgin.classes ≡ map_size
unfolding new_virgin
virgin_sized = length-replicate map_size 0

has_new_bits-seen_example :
    seen_class (has_new_bits new_virgin one_edge).1 0x2800
    ≡ max (seen_class new_virgin 0x2800) (run_class one_edge 0x2800)
has_new_bits-seen_example = has_new_bits-seen new_virgin one_edge virgin_sized 0x2800 (omega arith)

has_new_bits-advances_example :
    (has_new_bits new_virgin one_edge).0 ≡ advances one_edge new_virgin 0 map_size
has_new_bits-advances_example = has_new_bits-advances new_virgin one_edge virgin_sized
