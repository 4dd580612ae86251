-- ===== src/Lib.antt =====
-- fuzzsoft: a snapshot fuzzer for RISC-V system software, in Rust. Its core is a software MMU with
-- a permission byte for each byte of guest RAM (crates/fs-mmu) and a cycle-free RV32IMAC hart that
-- runs on it (crates/fs-riscv). A campaign boots a guest once, freezes its RAM, and runs each fuzz
-- case on a private copy that is then thrown away.
--
-- The parts and their files:
--
-- - Base, Base/*: tests, lists, results and binary digits of the native numbers. A `Vec` is a list,
--   indexed by `get_or` with a default where the code would panic; the well-formedness predicates
--   say that the code does not get there.
-- - Perm, Fault (crates/fs-mmu/src/lib.rs): permission bytes, `Access`, `Fault`, alignment, bytes of
--   a word. A `u32` is a number below 2 ^ 32 and its wrap-around is written out (`u32`).
-- - Ram: the abstract RAM, a window of bytes with permissions and what a load and a store promise,
--   byte by byte. It is the specification that the two RAMs below refine.
-- - Mmu, Mmu/* (`Mmu`): the flat RAM: `read`, `write`, `fetch_bytes` with their fast paths and byte
--   loops, `map`, `protect`, `poison`, `set_vtaint`, dirty tracking and `reset_dirty`, and `impl
--   Bus for Mmu` in Mmu/Device. A call on `&mut self` takes the state and returns it beside its
--   result (`Outcome`), also where it fails halfway.
-- - Golden (`Golden`): the frozen RAM that the views share.
-- - Cow, Cow/* (`CowRam`): the private view that copies a 4 KiB page on its first write: its page
--   directory and pages, `resolve`, `ensure_page`, the byte paths, `reset`. Cow/Invariant has its
--   invariant, Cow/Session the runs of accesses that a
--   fuzz case makes, Cow/Device the bus-shaped operations.
-- - Bus (`trait Bus`): what the hart asks of a memory, as a record of operations on a state.
-- - Riscv, Riscv/Decode, Riscv/Compressed, Riscv/Asm, Riscv/Alu (crates/fs-riscv/src/lib.rs, asm.rs):
--   the instructions, `decode`, `decode_compressed`, the test assembler, `alu`, `muldiv` and taint.
-- - Riscv/Csr (crates/fs-riscv/src/sys.rs): `Priv`, `Csr` and its `read` and `write`.
-- - Riscv/Cpu, Riscv/Cpu/* (crates/fs-riscv/src/lib.rs): the hart's state, `take_trap`, interrupts and
--   timers, and sv32 translation with its software TLB (`xlate`, `fast_pa`, `xlate_golden_readonly`,
--   whose `page_overlaid` is a function of the address). Riscv/Cpu/Monad has the actions of a hart
--   over a memory, which give a value or a trap beside the hart and the memory; Memory the translated
--   loads and stores with their taint; Exec and Exec/Arms every arm of `exec_one`; System `step`,
--   `finish_exit` and `step_system`. Frames, Precise and Agree each have one rule per action, and
--   prove their statement for all arms: what an instruction leaves alone, what a trap leaves alone,
--   and one hart over two memories.
-- - Platform, Platform/* (crates/fs-platform/src/lib.rs): Clint, Uart, Machine and CowMachine with their
--   `impl Bus`, Snapshot and SnapshotSmp, Run (`run_until`, `run`, timer synchronisation) and Smp
--   (`RecordingBus`, `run_smp`). Platform/Twins relates the two machines, Platform/Smp/Guards follows one
--   byte of RAM through a turn of `run_smp`.
-- - Coverage (crates/fs-cov/src/lib.rs): `CovBitmap` and `VirginMap`.
-- - Driver, Driver/* (crates/fs-cli/src/main.rs): `GuestBus`, `run_case_bus`, the injection of a program,
--   `reset_cow` and `inject_and_run`, which takes the lowered program's words and bytes.
--   Driver/Consoles compares the consoles of the two paths.
-- - Mmu/Protect, Mmu/Protect/Poisoned, Mmu/Words: what `protect` and `poison` do byte by byte, what
--   becomes of a byte that no access may touch, and what a store does to an aligned word.
-- - San, San/* (crates/fs-san/src): `Sanitizer` (alloc.rs) and the hypercalls that reach it
--   (hypercall.rs) in Alloc, `PageSanitizer` (pages.rs) in Pages, the quarantine that both keep in San
--   and San/Quarantine, `PcHooks` (hooks.rs) in Hooks, `LinearMap` and `kmalloc_bucket` (linux.rs) in
--   Linux. A `HashMap` is a function from its keys; a `Vec` of pending calls, which is pushed and
--   popped at its end, is a list with that end first.
-- - Driver/Sanitize, Driver/Kmsan, Driver/RunCase (crates/fs-cli/src/main.rs): `SanCtx` and `KmsanCtx`
--   with the blocks of `run_case` that use them, `run_case` itself, and the reset before each case of
--   the serial path. The hooks are functions of the pc, of the registers, of the context and of the
--   RAM. Sanitize/Ranges has the invariant: the permissions differ from the snapshot's only in dirty
--   blocks and in recorded ranges. Riscv/Cpu/Agree/Holds carries it through a step of the hart.
-- - Examples, Examples/*: runs at concrete inputs.
--
-- How the parts interact: the driver resets the machine, writes the program through its bus, and steps
-- the hart over that bus until it halts, calls or reaches its deadline. The hart sees a memory only
-- through the record `Bus`, so what is shown for two related buses holds for the two machines. The
-- sanitizers see the hart's pc and registers before each step and change only permissions of its RAM.
--
-- Loops over a length are recursions on that length and loops over a slice recursions on the list;
-- the page-table walk is a recursion on its two levels. `run_until`, `run`, `run_case` and
-- `run_case_bus` are recursions on a number of steps and give `none` when it is used up: the code itself need not end,
-- since a hart can trap for ever. `run_smp` counts every step against its deadline, and a number of
-- passes above that deadline is enough for it. Counters of 64 bits (retired instructions, ticks) are
-- kept as numbers without wrap-around.
--
-- Not modelled: the JIT (crates/fs-jit), its counters and the operations of `Bus` that only it asks, the
-- vector engine, `run_smp_with_edges` (`run_smp` with a callback), the generator and mutators of
-- programs, the search of the console for a crash signature, ELF and disk images, and the
-- command-line tools; of fs-san the messages of its errors, the registration of hooks by kernel symbol
-- and the counts of pending calls. `next_power_of_two` is that of a build without overflow checks.
-- `virtual_time` is the count of retired instructions, as in the code. The switches that turn
-- taint tracking and the logs on are the caller's. `SharedDirty` is left out too.
pub mod Base
pub mod Fault
pub mod Bus
pub mod Perm
pub mod Ram
pub mod Mmu
pub mod Golden
pub mod Riscv
pub mod Cow
pub mod Coverage
pub mod Platform
pub mod San
pub mod Driver
pub mod Examples
