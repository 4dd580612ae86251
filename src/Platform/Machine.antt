-- ===== src/Platform/Machine.antt =====
-- The machine over a flat RAM: `Machine` (crates/fs-platform/src/lib.rs).
use fuzzsoft.Base.{ℕ, ◌+◌, ◌-◌, [], Result, ok, err, if◌then◌else◌, replicate}
use fuzzsoft.Fault.{read, write, exec, Fault, Outcome, u32}
use fuzzsoft.Bus.{Bus}
use fuzzsoft.Mmu.{Mmu}
use fuzzsoft.Mmu
use fuzzsoft.Platform.{clint_base, uart_base, in_ram, in_clint, in_uart, mmio_fault}
use fuzzsoft.Platform.Clint
use fuzzsoft.Platform.Clint.{Clint, default_clint, no_deadline}
use fuzzsoft.Platform.Uart
use fuzzsoft.Platform.Uart.{Uart}

pub record Machine : Type 0 where
  pub ram : Mmu
  pub ram_base : ℕ
  pub ram_end : ℕ
  pub clint : Clint
  pub uart : Uart

unfoldable pub new : ℕ → ℕ → Machine
new ram_base ram_size = record {
  ram = Mmu.new ram_base ram_size;
  ram_base = ram_base;
  ram_end = u32 (ram_base + ram_size);
  clint = default_clint;
  uart = record { out = [] };
}

-- `nharts.saturating_sub(1)` is the subtraction of ℕ.
unfoldable pub new_smp : ℕ → ℕ → ℕ → Machine
unfolding new
new_smp ram_base ram_size nharts = record (new ram_base ram_size) {
  clint = record default_clint {
    msip_extra = replicate (nharts - 1) 0;
    mtimecmp_extra = replicate (nharts - 1) no_deadline;
  };
}

-- An answer of the RAM, inside the machine.
abbrev pub ram_answer : {A : Type 0} → Machine → Outcome Mmu A → Outcome Machine A
ram_answer m (r, ram) = (r, record m { ram = ram })

unfoldable pub load : Machine → ℕ → ℕ → Outcome Machine ℕ
load m addr size =
    if in_clint addr
    then (ok (Clint.load m.clint (addr - clint_base)), m)
    else if in_uart addr
    then (ok (Uart.load m.uart (addr - uart_base)), m)
    else if in_ram addr m.ram_base m.ram_end
    then (Mmu.Device.load m.ram addr size, m)
    else (err (mmio_fault addr size read), m)

unfoldable pub store : Machine → ℕ → ℕ → ℕ → Outcome Machine (Unit {0})
store m addr size val =
    if in_clint addr
    then (ok tt, record m { clint = Clint.store m.clint (addr - clint_base) val })
    else if in_uart addr
    then (ok tt, record m { uart = Uart.store m.uart (addr - uart_base) val })
    else if in_ram addr m.ram_base m.ram_end
    then ram_answer m (Mmu.Device.store m.ram addr size val)
    else (err (mmio_fault addr size write), m)

unfoldable pub ifetch16 : Machine → ℕ → Result ℕ Fault
ifetch16 m addr =
    if in_ram addr m.ram_base m.ram_end
    then Mmu.Device.ifetch16 m.ram addr
    else err (mmio_fault addr 2 exec)

unfoldable pub read_raw_state : Machine → ℕ → ℕ → ℕ
read_raw_state m addr len =
    if in_ram addr m.ram_base m.ram_end then Mmu.Device.read_raw_state m.ram addr len else 0

unfoldable pub write_shadow : Machine → ℕ → ℕ → ℕ → Machine
write_shadow m addr len mask =
    if in_ram addr m.ram_base m.ram_end
    then record m { ram = Mmu.Device.write_shadow m.ram addr len mask }
    else m

-- `impl Bus for Machine`.
abbrev pub machine_bus : Bus Machine
machine_bus = record {
  load = load;
  store = store;
  ifetch16 = λ m addr. (ifetch16 m addr, m);
  read_raw_state = read_raw_state;
  write_shadow = write_shadow;
}
