-- ===== src/Driver.antt =====
-- The per-case driver of the fuzzer: `GuestBus` and the loop that runs one case and records its edges
-- (crates/fs-cli/src/main.rs).
pub mod Laws
pub mod Campaign
pub mod Consoles
pub mod Restores
pub mod Sanitize
pub mod Kmsan
pub mod RunCase
use fuzzsoft.Base.{
  ℕ, zero, suc, ◌+◌, ◌-◌, ◌*◌, ◌^◌, Bool, true, false, not, ◌&&◌, Option, none, some, List, [], ◌∷◌,
  length, min, get_or, ltb, ◌==◌, if◌then◌else◌,
}
use fuzzsoft.Fault.{u32, from_le_bytes}
use fuzzsoft.Bus.{Bus}
use fuzzsoft.Cow
use fuzzsoft.Riscv.Cpu.{Cpu}
use fuzzsoft.Riscv.Cpu.System.{SysExit, carry_on, halted, hypercall, step_system}
use fuzzsoft.Platform.Clint.{Clint}
use fuzzsoft.Platform.Machine.{Machine, machine_bus}
use fuzzsoft.Platform.CowMachine.{CowMachine, cow_machine_bus}
use fuzzsoft.Platform.Run.{Stop, halt_stop, hypercall_stop, budget, sync_timer, sync_timer_cow}
use fuzzsoft.Platform.Snapshot.{truncate}
use fuzzsoft.Coverage.{CovBitmap, record_edge, clear}

-- The trait `GuestBus`; `sync_timer` takes the hart last.
pub record GuestBus (M : Type 0) : Type 0 where
  pub bus : Bus M
  pub clint_mtime_set : M → ℕ → M
  pub sync_timer : M → Cpu → Cpu
  pub uart_out : M → List ℕ

-- `impl GuestBus for Machine` and `for CowMachine`.
unfoldable pub machine_guest : GuestBus Machine
machine_guest = record {
  bus = machine_bus;
  clint_mtime_set = λ m t. record m { clint = record m.clint { mtime = t } };
  sync_timer = λ m cpu. sync_timer cpu m;
  uart_out = λ m. m.uart.out;
}

unfoldable pub cow_guest : GuestBus CowMachine
cow_guest = record {
  bus = cow_machine_bus;
  clint_mtime_set = λ m t. record m { clint = record m.clint { mtime = t } };
  sync_timer = λ m cpu. sync_timer_cow cpu m;
  uart_out = λ m. m.uart.out;
}

-- Whether the transition is not to the instruction that follows.
abbrev pub jumped : ℕ → ℕ → Bool
jumped prev cur = not (cur == u32 (prev + 4)) && not (cur == u32 (prev + 2))

abbrev pub with_edge : ℕ → ℕ → CovBitmap → CovBitmap
with_edge prev cur cov = if jumped prev cur then record_edge cov prev cur else cov

unfoldable pub drop : {A : Type 0} → List A → ℕ → List A
drop [] n = []
drop (x ∷ xs) zero = x ∷ xs
drop (x ∷ xs) (suc n) = drop xs n

-- `&uart[base_uart.min(uart.len())..]`: what the crash oracle reads.
unfoldable pub case_console : ℕ → List ℕ → List ℕ
unfolding drop
case_console base_uart uart = drop uart (min base_uart (length uart))

-- The reset of a worker of the parallel path, which overwrites the hart.
unfoldable pub reset_cow : Cpu → Clint → ℕ → Cpu → CowMachine → Cpu × CowMachine
unfolding truncate
reset_cow golden_cpu golden_clint base_uart cpu m = (
  golden_cpu,
  record m {
    ram = Cow.reset m.ram;
    clint = golden_clint;
    uart = record { out = truncate m.uart.out base_uart };
  },
)

module _ {M : Type 0} (g : GuestBus M) where
  -- The body of the loop up to the step's exit.
  unfoldable pub case_step : Cpu → M → SysExit × (Cpu × M)
  case_step cpu m =
      let timed = g.clint_mtime_set m cpu.insns_retired in
      step_system g.bus (g.sync_timer timed cpu) timed

  abbrev pub Case : Type 0
  Case = Option (Stop × (Cpu × (M × CovBitmap)))

  abbrev pub case_exit : ℕ → CovBitmap → SysExit × (Cpu × M) → (Cpu → M → CovBitmap → Case) → Case
  case_exit prev cov (carry_on, (cpu, m)) again = again cpu m (with_edge prev cpu.pc cov)
  case_exit prev cov (halted code, (cpu, m)) again = some (halt_stop code, (cpu, (m, cov)))
  case_exit prev cov (hypercall code, (cpu, m)) again = some (hypercall_stop code, (cpu, (m, cov)))

  -- `none` is a case that is not over after that many steps.
  unfoldable pub run_case_bus : ℕ → Cpu → M → CovBitmap → ℕ → Case
  run_case_bus zero cpu m cov deadline = none
  run_case_bus (suc n) cpu m cov deadline =
      if ltb cpu.insns_retired deadline
      then case_exit cpu.pc cov (case_step cpu m) (λ d k cov'. run_case_bus n d k cov' deadline)
      else some (budget, (cpu, (m, cov)))

  -- `let _ = m.store(..)`: the result is dropped.
  unfoldable pub write_words : List ℕ → List ℕ → M → M
  write_words (pa ∷ pas) (w ∷ words) m = write_words pas words (g.bus.store m pa 4 w).1
  write_words [] words m = m
  write_words (pa ∷ pas) [] m = m

  -- The word of the image at `off`, zero-padded.
  abbrev pub image_word : List ℕ → ℕ → ℕ
  image_word bytes off = from_le_bytes (
      get_or bytes off 0
      ∷ get_or bytes (off + 1) 0
      ∷ get_or bytes (off + 2) 0
      ∷ get_or bytes (off + 3) 0
      ∷ [])

  unfoldable pub write_scratch_from : ℕ → List ℕ → List ℕ → M → M
  write_scratch_from i [] bytes m = m
  write_scratch_from i (pa ∷ pas) bytes m =
      write_scratch_from (i + 1) pas bytes (g.bus.store m pa 4 (image_word bytes (i * 4))).1

  unfoldable pub write_scratch_bytes : List ℕ → List ℕ → M → M
  unfolding write_scratch_from
  write_scratch_bytes pas bytes m = write_scratch_from 0 pas bytes m

  -- What a case comes to: the stop, the instructions it took and the console that the crash oracle
  -- reads, beside the state that the case leaves.
  abbrev pub Ended : Type 0
  Ended = Option ((Stop × (ℕ × List ℕ)) × (Cpu × (M × CovBitmap)))

  abbrev pub case_ended : ℕ → ℕ → Case → Ended
  case_ended start base_uart none = none
  case_ended start base_uart (some (stop, (cpu, (m, cov)))) =
      some (
        (stop, (cpu.insns_retired - start, case_console base_uart (g.uart_out m))),
        (cpu, (m, cov)),
      )

  -- `inject_and_run` from the lowered program on: `words` is its wire form and `scratch` its image.
  unfoldable pub inject_and_run :
      ℕ
      → (Cpu → M → Cpu × M)
      → Cpu
      → M
      → List ℕ
      → List ℕ
      → List ℕ
      → List ℕ
      → ℕ
      → ℕ
      → CovBitmap
      → Ended
  unfolding write_words write_scratch_bytes run_case_bus
  inject_and_run n reset cpu m words scratch prog_pas scratch_pas case_insns base_uart run_map =
      let (ready, clean) = reset cpu m in
      let loaded = write_scratch_bytes scratch_pas scratch (write_words prog_pas words clean) in
      case_ended ready.insns_retired base_uart
        (run_case_bus n ready loaded (clear run_map) (ready.insns_retired + case_insns))
