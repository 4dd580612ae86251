-- ===== src/Platform.antt =====
-- The machine around a hart: the CLINT and the UART, and the map of physical addresses
-- (crates/fs-platform/src/lib.rs).
pub mod Clint
pub mod Uart
pub mod Machine
pub mod CowMachine
pub mod Snapshot
pub mod Run
pub mod Smp
pub mod Twins
use fuzzsoft.Base.{ℕ, ◌+◌, Bool, ◌&&◌, ltb, leb}
use fuzzsoft.Fault.{Access, Fault, fault, unmapped}

abbrev pub clint_base : ℕ
clint_base = 0x02000000

abbrev pub clint_size : ℕ
clint_size = 0x00010000

abbrev pub uart_base : ℕ
uart_base = 0x10000000

abbrev pub uart_size : ℕ
uart_size = 0x100

unfoldable pub in_ram : ℕ → ℕ → ℕ → Bool
in_ram addr ram_base ram_end = leb ram_base addr && ltb addr ram_end

unfoldable pub in_clint : ℕ → Bool
in_clint addr = leb clint_base addr && ltb addr (clint_base + clint_size)

unfoldable pub in_uart : ℕ → Bool
in_uart addr = leb uart_base addr && ltb addr (uart_base + uart_size)

unfoldable pub mmio_fault : ℕ → ℕ → Access → Fault
mmio_fault addr size access = fault addr size access unmapped
