-- ===== src/Driver/Consoles.antt =====
-- What the crash oracle reads of a worker of the parallel path, beside what the serial machine shows
-- for the same case (crates/fs-cli/src/main.rs).
use fuzzsoft.Base.{
  ℕ, ◌+◌, ◌^◌, ◌≤◌, ◌<◌, ◌≡◌, refl, inl, inr, none, some, List, [], ◌∷◌, ◌++◌, length, leb, arith,
  min, Bool-cases,
}
use fuzzsoft.Mmu.{Mmu}
use fuzzsoft.Riscv.Cpu.{Cpu}
use fuzzsoft.Riscv.Cpu.Agree.{Untracked}
use fuzzsoft.Platform.Machine.{Machine}
use fuzzsoft.Platform.CowMachine.{CowMachine}
use fuzzsoft.Platform.Run.{Stop}
use fuzzsoft.Platform.Snapshot.{capture, reset, truncate}
use fuzzsoft.Coverage.{CovBitmap}
use fuzzsoft.Driver.{machine_guest, cow_guest, Ended, drop, case_console, reset_cow, inject_and_run}
use fuzzsoft.Driver.Campaign.{SameRun, same_run, both_running, Reusable, inject_and_run-SameRun}

drop-all : (xs : List ℕ) → drop xs (length xs) ≡ []
unfolding drop
drop-all [] = refl
drop-all (x ∷ xs) = drop-all xs

length-joined : (xs ys : List ℕ) → length (xs ++ ys) ≡ length xs + length ys
length-joined [] ys = omega arith
length-joined (x ∷ xs) ys = omega (arith, length-joined xs ys)

-- A console no longer than the boot console reads as empty.
case_console-short :
    (base_uart : ℕ) (uart : List ℕ) → length uart ≤ base_uart → case_console base_uart uart ≡ []
unfolding case_console
case_console-short base_uart uart short =
    let same : min base_uart (length uart) ≡ length uart = omega arith in rw same (drop-all uart)

case_console-long :
    (base_uart : ℕ) (uart : List ℕ)
    → base_uart < length uart
    → case_console base_uart uart ≡ drop uart base_uart
unfolding case_console
case_console-long base_uart uart long =
    let same : min base_uart (length uart) ≡ base_uart = omega arith in rw same refl

-- One case on the serial machine and on a worker whose console began the case with `old`: the serial
-- oracle reads the bytes `sent`; the worker's console ends with them too, and its oracle reads
-- nothing, or what lies past the length of the boot console.
pub data WorkerReads (boot old : List ℕ) : Ended machine_guest → Ended cow_guest → Type 0 where
  misses :
      (stop : Stop) (used : ℕ) (cpu : Cpu) (m : Machine) (c : CowMachine) (cov : CovBitmap)
      (sent : List ℕ)
      → length old + length sent ≤ length boot
      → c.uart.out ≡ old ++ sent
      → WorkerReads boot old
          (some ((stop, (used, sent)), (cpu, (m, cov))))
          (some ((stop, (used, [])), (cpu, (c, cov))))
  reads_past :
      (stop : Stop) (used : ℕ) (cpu : Cpu) (m : Machine) (c : CowMachine) (cov : CovBitmap)
      (sent : List ℕ)
      → length boot < length old + length sent
      → c.uart.out ≡ old ++ sent
      → WorkerReads boot old
          (some ((stop, (used, sent)), (cpu, (m, cov))))
          (some ((stop, (used, drop (old ++ sent) (length boot))), (cpu, (c, cov))))
  unfinished : WorkerReads boot old none none

sent_on :
    (boot old : List ℕ) (stop : Stop) (used : ℕ) (cpu : Cpu) (m : Machine) (c : CowMachine)
    (cov : CovBitmap) (sent : List ℕ)
    → c.uart.out ≡ old ++ sent
    → WorkerReads boot old
        (some ((stop, (used, sent)), (cpu, (m, cov))))
        (some ((stop, (used, case_console (length boot) (old ++ sent))), (cpu, (c, cov))))
sent_on boot old stop used cpu m c cov sent on =
    let size = length-joined old sent in
    elim (Bool-cases (leb (length old + length sent) (length boot))) [
      | inl few ↦
          rw (case_console-short (length boot) (old ++ sent) (ground (arith, few, size)))
            (misses stop used cpu m c cov sent (ground (arith, few)) on)
      | inr many ↦
          rw (case_console-long (length boot) (old ++ sent) (ground (arith, many, size)))
            (reads_past stop used cpu m c cov sent (ground (arith, many)) on)
    ]

run-WorkerReads :
    (gold : Mmu) (boot old : List ℕ) (o : Ended machine_guest) (p : Ended cow_guest)
    → SameRun gold boot old o p
    → WorkerReads boot old o p
run-WorkerReads gold boot old _ _ (same_run stop used cpu m c cov sent u t serial worker) =
    sent_on boot old stop used cpu m c cov sent worker
run-WorkerReads gold boot old _ _ both_running = unfinished

module _ (golden : Machine) (golden_cpu : Cpu)
    (planes : length golden.ram.perms ≡ length golden.ram.mem)
    (fits : golden.ram.base + length golden.ram.mem ≤ 2 ^ 32) where
  abbrev boot_size : ℕ
  boot_size = length golden.uart.out

  -- One case on the serial machine and on a worker that has any console, for a golden machine whose
  -- two planes have one length and whose window ends by 2 ^ 32, a golden hart that tracks no taint,
  -- and RAMs that are alike: either neither case is over, or both are, the serial crash oracle
  -- reads exactly the bytes that the case sent, and the worker's console, truncated to the boot
  -- console's length at the reset, ends with the same bytes, but the worker's oracle reads nothing
  -- as long as its console is no longer than the boot console, and else only what lies past that
  -- length.
  pub inject_and_run-WorkerReads :
      (n : ℕ) (cpu other : Cpu) (m : Machine) (c : CowMachine)
      (words scratch prog_pas scratch_pas : List ℕ) (case_insns : ℕ) (run_map : CovBitmap)
      → Untracked golden_cpu
      → Reusable golden.ram golden.uart.out m c
      → WorkerReads golden.uart.out
          (truncate c.uart.out boot_size)
          (inject_and_run machine_guest n
            (reset (capture golden_cpu golden).0)
            cpu
            m
            words
            scratch
            prog_pas
            scratch_pas
            case_insns
            boot_size
            run_map)
          (inject_and_run cow_guest n
            (reset_cow golden_cpu golden.clint boot_size)
            other
            c
            words
            scratch
            prog_pas
            scratch_pas
            case_insns
            boot_size
            run_map)
  inject_and_run-WorkerReads n cpu other m c words scratch prog_pas scratch_pas case_insns run_map u
        h =
      run-WorkerReads golden.ram golden.uart.out _ _ _ (
        inject_and_run-SameRun golden golden_cpu planes fits n cpu other m c words scratch prog_pas
          scratch_pas case_insns run_map u h)
