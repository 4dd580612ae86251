-- ===== src/Platform/Snapshot.antt =====
-- Golden snapshots of the whole machine, for one hart and for several
-- (crates/fs-platform/src/lib.rs).
use fuzzsoft.Base.{ℕ, zero, suc, List, [], ◌∷◌, length}
use fuzzsoft.Mmu.{enable_dirty_tracking, reset_dirty}
use fuzzsoft.Riscv.Cpu.{Cpu}
use fuzzsoft.Platform.Clint.{Clint}
use fuzzsoft.Platform.Machine.{Machine}

pub record Snapshot : Type 0 where
  pub gmem : List ℕ
  pub gperms : List ℕ
  pub cpu : Cpu
  pub clint : Clint
  pub uart_len : ℕ

-- `Vec::truncate`.
unfoldable pub truncate : {A : Type 0} → List A → ℕ → List A
truncate [] n = []
truncate (x ∷ xs) zero = []
truncate (x ∷ xs) (suc n) = x ∷ truncate xs n

abbrev pub tracking : Machine → Machine
tracking m = record m { ram = enable_dirty_tracking m.ram }

-- The devices and the RAM as a reset leaves them.
abbrev pub restored : List ℕ → List ℕ → Clint → ℕ → Machine → Machine
restored gmem gperms clint uart_len m = record m {
  ram = reset_dirty gmem gperms m.ram;
  clint = clint;
  uart = record { out = truncate m.uart.out uart_len };
}

-- `Snapshot::capture`, which also switches the RAM to dirty tracking.
unfoldable pub capture : Cpu → Machine → Snapshot × Machine
capture cpu m = (
  record {
    gmem = m.ram.mem;
    gperms = m.ram.perms;
    cpu = cpu;
    clint = m.clint;
    uart_len = length m.uart.out;
  },
  tracking m,
)

-- `Snapshot::reset`, which overwrites the hart.
unfoldable pub reset : Snapshot → Cpu → Machine → Cpu × Machine
unfolding truncate
reset snap cpu m = (snap.cpu, restored snap.gmem snap.gperms snap.clint snap.uart_len m)

pub record SnapshotSmp : Type 0 where
  pub gmem : List ℕ
  pub gperms : List ℕ
  pub cpus : List Cpu
  pub clint : Clint
  pub uart_len : ℕ

unfoldable pub capture_smp : List Cpu → Machine → SnapshotSmp × Machine
capture_smp cpus m = (
  record {
    gmem = m.ram.mem;
    gperms = m.ram.perms;
    cpus = cpus;
    clint = m.clint;
    uart_len = length m.uart.out;
  },
  tracking m,
)

unfoldable pub reset_smp : SnapshotSmp → List Cpu → Machine → List Cpu × Machine
unfolding truncate
reset_smp snap cpus m = (snap.cpus, restored snap.gmem snap.gperms snap.clint snap.uart_len m)
