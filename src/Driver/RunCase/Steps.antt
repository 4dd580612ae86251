-- ===== src/Driver/RunCase/Steps.antt =====
-- A machine through the steps of a case and the injection of its program (crates/fs-cli/src/main.rs).
use fuzzsoft.Base.{
  ℕ, ◌+◌, ◌-◌, ◌%◌, ◌^◌, ◌≤◌, ◌≡◌, ap, ◌∙◌, Bool, inl, inr, List, [], ◌∷◌, ◌++◌, length, ◌==◌,
  Bool-cases,
}
use fuzzsoft.Fault.{Outcome, check_align, u8, u16}
use fuzzsoft.Mmu.{Mmu}
use fuzzsoft.Mmu.Bytes.{write_bytes, write_word}
use fuzzsoft.Mmu.Device
use fuzzsoft.Riscv.Cpu.{Cpu}
use fuzzsoft.Riscv.Cpu.Agree.{Untracked}
use fuzzsoft.Riscv.Cpu.Agree.Holds.{BusKeeps, Held, step_system-Held}
use fuzzsoft.Platform.{uart_base, in_ram, in_clint, in_uart}
use fuzzsoft.Platform.Machine
use fuzzsoft.Platform.Machine.{Machine, machine_bus}
use fuzzsoft.Platform.Uart
use fuzzsoft.Platform.Uart.{Uart}
use fuzzsoft.Platform.Run.{sync_timer, apply_clint}
use fuzzsoft.Platform.Twins.{store-appended}
use fuzzsoft.Driver.{machine_guest, case_step, write_words, write_scratch_from, write_scratch_bytes}
use fuzzsoft.Driver.Sanitize.Ranges.{Dirtied, write_bytes-Dirtied}
use fuzzsoft.Driver.Sanitize.Calls.{if-keeps}

word-writes :
    (P : Mmu → Type 0) (m : Mmu) (addr n val : ℕ)
    → P m
    → ((bs : List ℕ) → P (write_bytes m addr bs).1)
    → P (write_word m addr n val).1
unfolding write_word check_align
word-writes P m addr n val p w = elim (Bool-cases (addr % n == 0)) [
  | inl aligned ↦ rw (aligned, write_word) (w _)
  | inr crooked ↦ rw (crooked, write_word) p
]

-- A RAM that a write of bytes may change, through the device's store of a word.
store-writes :
    (P : Mmu → Type 0) (m : Mmu) (addr size val : ℕ)
    → P m
    → ((bs : List ℕ) → P (write_bytes m addr bs).1)
    → P (Device.store m addr size val).1
unfolding Device.store
store-writes P m addr size val p w =
    let Q = λ (o : Outcome Mmu (Unit {0})). P o.1 in
    if-keeps Q (size == 1) _ _ (word-writes P m addr 1 (u8 val) p w) (
      if-keeps Q (size == 2) _ _ (word-writes P m addr 2 (u16 val) p w)
        (word-writes P m addr 4 val p w))

-- What the permissions of a machine's RAM owe to the ranges, and the console to what was sent.
pub record Owes (golden : Machine) (Small : Type 0) (excused : ℕ → Bool) (m : Machine)
    : Type 0 where
  pub sent : List ℕ
  pub uart : m.uart ≡ record { out = golden.uart.out ++ sent }
  pub dirtied : Small → Dirtied golden.ram excused m.ram

module _ (golden : Machine) (fits : golden.ram.base + length golden.ram.mem ≤ 2 ^ 32)
    (Small : Type 0) (excused : ℕ → Bool) where
  abbrev Keeps : Machine → Type 0
  Keeps m = Owes golden Small excused m

  loads-Keeps : (m : Machine) (addr size : ℕ) → Keeps m → Keeps (Machine.load m addr size).1
  unfolding Machine.load
  loads-Keeps m addr size k =
      let Q = λ (o : Outcome Machine ℕ). Keeps o.1 in
      if-keeps Q (in_clint addr) _ _ k
        (if-keeps Q (in_uart addr) _ _ k (if-keeps Q (in_ram addr m.ram_base m.ram_end) _ _ k k))

  stores-Keeps :
      (m : Machine) (addr size val : ℕ) → Keeps m → Keeps (Machine.store m addr size val).1
  unfolding Machine.store
  stores-Keeps m addr size val k =
      let Q = λ (o : Outcome Machine (Unit {0})). Keeps o.1 in
      if-keeps Q (in_clint addr) _ _ (record { sent = k.sent; uart = k.uart; dirtied = k.dirtied })
        (if-keeps Q (in_uart addr) _ _
          (record {
            sent = (Uart.store (record { out = k.sent }) (addr - uart_base) val).out;
            uart =
                ap (λ u. Uart.store u (addr - uart_base) val) k.uart
                ∙ store-appended golden.uart.out k.sent (addr - uart_base) val;
            dirtied = k.dirtied;
          })
          (if-keeps Q (in_ram addr m.ram_base m.ram_end) _ _
            (record {
              sent = k.sent;
              uart = k.uart;
              dirtied = λ small.
                  store-writes (λ r. Dirtied golden.ram excused r) m.ram addr size val
                    (k.dirtied small)
                    λ bs.
                      write_bytes-Dirtied golden.ram excused m.ram addr bs fits (k.dirtied small);
            })
            k))

  machine-BusKeeps : BusKeeps Keeps machine_bus
  machine-BusKeeps = record {
    loads = loads-Keeps;
    stores = λ m addr size val some_byte k. stores-Keeps m addr size val k;
    fetches = λ m addr k. k;
  }

  pub case_step-Held :
      (cpu : Cpu) (m : Machine)
      → Untracked cpu
      → Keeps m
      → Held Keeps (case_step machine_guest cpu m)
  unfolding case_step machine_guest sync_timer apply_clint
  case_step-Held cpu m u k =
      step_system-Held Keeps machine_bus _ _ machine-BusKeeps u
        (record { sent = k.sent; uart = k.uart; dirtied = k.dirtied })

  -- The injection of a program.
  pub write_words-Keeps :
      (pas words : List ℕ) (m : Machine) → Keeps m → Keeps (write_words machine_guest pas words m)
  unfolding write_words machine_guest
  write_words-Keeps [] words m k = k
  write_words-Keeps (pa ∷ pas) [] m k = k
  write_words-Keeps (pa ∷ pas) (w ∷ words) m k =
      write_words-Keeps pas words _ (stores-Keeps m pa 4 w k)

  write_scratch_from-Keeps :
      (i : ℕ) (pas bytes : List ℕ) (m : Machine)
      → Keeps m
      → Keeps (write_scratch_from machine_guest i pas bytes m)
  unfolding write_scratch_from machine_guest
  write_scratch_from-Keeps i [] bytes m k = k
  write_scratch_from-Keeps i (pa ∷ pas) bytes m k =
      write_scratch_from-Keeps (i + 1) pas bytes _ (stores-Keeps m pa 4 _ k)

  pub write_scratch_bytes-Keeps :
      (pas bytes : List ℕ) (m : Machine)
      → Keeps m
      → Keeps (write_scratch_bytes machine_guest pas bytes m)
  unfolding write_scratch_bytes
  write_scratch_bytes-Keeps pas bytes m k = write_scratch_from-Keeps 0 pas bytes m k
