-- ===== src/Platform/CowMachine.antt =====
-- The machine over a copy-on-write view: `CowMachine` (crates/fs-platform/src/lib.rs).
use fuzzsoft.Base.{ℕ, ◌+◌, ◌-◌, [], Result, ok, err, if◌then◌else◌, length}
use fuzzsoft.Fault.{read, write, exec, Fault, Outcome, u32}
use fuzzsoft.Bus.{Bus}
use fuzzsoft.Cow.{CowRam}
use fuzzsoft.Cow
use fuzzsoft.Golden.{Golden, from_mmu}
use fuzzsoft.Platform.Machine.{Machine}
use fuzzsoft.Platform.{clint_base, uart_base, in_ram, in_clint, in_uart, mmio_fault}
use fuzzsoft.Platform.Clint
use fuzzsoft.Platform.Clint.{Clint, default_clint}
use fuzzsoft.Platform.Uart
use fuzzsoft.Platform.Uart.{Uart}

pub record CowMachine : Type 0 where
  pub ram : CowRam
  pub ram_base : ℕ
  pub ram_end : ℕ
  pub clint : Clint
  pub uart : Uart

-- The debug assertions on the base and the size are the caller's.
unfoldable pub from_golden : Golden → ℕ → ℕ → CowMachine
from_golden golden ram_base ram_size = record {
  ram = Cow.new golden;
  ram_base = ram_base;
  ram_end = u32 (ram_base + ram_size);
  clint = default_clint;
  uart = record { out = [] };
}

unfoldable pub from_machine : Machine → CowMachine
unfolding from_golden
from_machine m =
    let golden = from_mmu m.ram in from_golden golden m.ram_base (u32 (length golden.mem))

unfoldable pub reset_case : CowMachine → CowMachine
reset_case m = record m { ram = Cow.reset m.ram }

-- An answer of the RAM, inside the machine.
abbrev pub ram_answer : {A : Type 0} → CowMachine → Outcome CowRam A → Outcome CowMachine A
ram_answer m (r, ram) = (r, record m { ram = ram })

unfoldable pub load : CowMachine → ℕ → ℕ → Outcome CowMachine ℕ
load m addr size =
    if in_clint addr
    then (ok (Clint.load m.clint (addr - clint_base)), m)
    else if in_uart addr
    then (ok (Uart.load m.uart (addr - uart_base)), m)
    else if in_ram addr m.ram_base m.ram_end
    then (Cow.Device.load m.ram addr size, m)
    else (err (mmio_fault addr size read), m)

unfoldable pub store : CowMachine → ℕ → ℕ → ℕ → Outcome CowMachine (Unit {0})
store m addr size val =
    if in_clint addr
    then (ok tt, record m { clint = Clint.store m.clint (addr - clint_base) val })
    else if in_uart addr
    then (ok tt, record m { uart = Uart.store m.uart (addr - uart_base) val })
    else if in_ram addr m.ram_base m.ram_end
    then ram_answer m (Cow.Device.store m.ram addr size val)
    else (err (mmio_fault addr size write), m)

unfoldable pub ifetch16 : CowMachine → ℕ → Result ℕ Fault
ifetch16 m addr =
    if in_ram addr m.ram_base m.ram_end
    then Cow.Device.ifetch16 m.ram addr
    else err (mmio_fault addr 2 exec)

unfoldable pub read_raw_state : CowMachine → ℕ → ℕ → ℕ
read_raw_state m addr len =
    if in_ram addr m.ram_base m.ram_end then Cow.Device.read_raw_state m.ram addr len else 0

unfoldable pub write_shadow : CowMachine → ℕ → ℕ → ℕ → CowMachine
write_shadow m addr len mask =
    if in_ram addr m.ram_base m.ram_end
    then record m { ram = Cow.Device.write_shadow m.ram addr len mask }
    else m

-- `impl Bus for CowMachine`.
abbrev pub cow_machine_bus : Bus CowMachine
cow_machine_bus = record {
  load = load;
  store = store;
  ifetch16 = λ m addr. (ifetch16 m addr, m);
  read_raw_state = read_raw_state;
  write_shadow = write_shadow;
}
