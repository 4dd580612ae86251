-- ===== src/Platform/Run/Laws.antt =====
-- A hart that the loops never leave: in machine mode, at an address outside the RAM, with its trap vector
-- there too (crates/fs-platform/src/lib.rs).
use fuzzsoft.Base.{
  ℕ, zero, suc, ◌<◌, ◌≡◌, refl, ap, ◌∙◌, true, false, none, Result, err, bit_and, ltb, arith,
}
use fuzzsoft.Base.Bits.{bit_and-zero}
use fuzzsoft.Fault.{exec}
use fuzzsoft.Riscv.Csr.{machine}
use fuzzsoft.Riscv.Cpu.{
  Cpu, Trap, Exit, mem_cause, mem_trap, take_trap, poll_interrupt, pending_interrupt, update_timers,
  effective_priv,
}
use fuzzsoft.Riscv.Cpu.Memory.{translate, fetch16}
use fuzzsoft.Riscv.Cpu.Xlate.{xlate}
use fuzzsoft.Riscv.Cpu.Monad.{continue, ◌>>=◌}
use fuzzsoft.Riscv.Cpu.System.{carry_on, step, step_parcel, step_polled, step_system, finish_exit}
use fuzzsoft.Platform.{in_ram, mmio_fault}
use fuzzsoft.Platform.Machine
use fuzzsoft.Platform.Machine.{Machine, machine_bus}
use fuzzsoft.Platform.Run.{set_mtime, sync_timer, apply_clint, timed_step, run_until}

-- The hart executes at its own trap vector, which is outside the RAM, and takes no interrupt.
pub record Stuck (m : Machine) (c : Cpu) : Type 0 where
  pub mode : c.privilege ≡ machine
  pub at_vector : c.pc ≡ 0
  pub vector : c.csr.mtvec ≡ 0
  pub masked : c.csr.mie ≡ 0
  pub outside : in_ram 0 m.ram_base m.ram_end ≡ false

fetch16-Stuck :
    (m : Machine) (c : Cpu)
    → Stuck m c
    → fetch16 machine_bus 0 c m ≡ (err (mem_trap (mmio_fault 0 2 exec)), (c, m))
unfolding fetch16 translate xlate ◌>>=◌ effective_priv Machine.ifetch16
fetch16-Stuck m c k = rw (k.mode, k.outside) refl

pub step-Stuck :
    (m : Machine) (c : Cpu)
    → Stuck m c
    → step machine_bus c m ≡ (err (mem_trap (mmio_fault 0 2 exec)), (c, m))
unfolding step ◌>>=◌
step-Stuck m c k =
    ap (λ o. continue o (step_parcel machine_bus c.pc))
      (ap (λ pc. fetch16 machine_bus pc c m) k.at_vector ∙ fetch16-Stuck m c k)

pending_interrupt-masked : (d : Cpu) → d.csr.mie ≡ 0 → pending_interrupt d ≡ none
unfolding pending_interrupt
pending_interrupt-masked d masked =
    let idle : bit_and d.csr.mip d.csr.mie ≡ 0 =
      ap (bit_and d.csr.mip) masked ∙ bit_and-zero d.csr.mip in
    rw idle refl

pub quiet : (c : Cpu) → c.csr.mie ≡ 0 → poll_interrupt c ≡ (false, update_timers c)
unfolding poll_interrupt update_timers
quiet c masked = rw (pending_interrupt-masked (update_timers c) masked, poll_interrupt) refl

-- The trap of the fetch goes to the vector, where the hart already was.
trapped-Stuck : (m : Machine) (c : Cpu) → Stuck m c → Stuck m (take_trap c 1 0 false)
unfolding take_trap
trapped-Stuck m c k = rw (k.mode) (record {
  mode = refl;
  at_vector = rw (k.vector) refl;
  vector = k.vector;
  masked = k.masked;
  outside = k.outside;
})

module _ (c : Cpu) (m : Machine) (k : Stuck m c) where
  -- The hart as the step finds it.
  abbrev ready : Cpu
  ready = update_timers (sync_timer c (set_mtime c.insns_retired m))

  ready-Stuck : Stuck (set_mtime c.insns_retired m) ready
  unfolding update_timers sync_timer apply_clint
  ready-Stuck = record {
    mode = k.mode;
    at_vector = k.at_vector;
    vector = k.vector;
    masked = k.masked;
    outside = k.outside;
  }

  finished-Stuck :
      step_polled machine_bus (false, ready) (set_mtime c.insns_retired m)
      ≡ (carry_on, (take_trap ready 1 0 false, set_mtime c.insns_retired m))
  unfolding finish_exit mmio_fault mem_cause
  finished-Stuck =
      ap
        (λ (o : Result Exit Trap × (Cpu × Machine)).
          let done = finish_exit o.1.0 o.0 in (done.0, (done.1, o.1.1)))
        (step-Stuck (set_mtime c.insns_retired m) ready ready-Stuck)

  timed_step-Stuck :
      timed_step c m ≡ (carry_on, (take_trap ready 1 0 false, set_mtime c.insns_retired m))
  unfolding timed_step step_system sync_timer apply_clint
  timed_step-Stuck =
      let timed = set_mtime c.insns_retired m in
      ap (λ p. step_polled machine_bus p timed) (quiet (sync_timer c timed) k.masked)
      ∙ finished-Stuck

  after-retired : (take_trap ready 1 0 false).insns_retired ≡ c.insns_retired
  unfolding take_trap update_timers sync_timer apply_clint
  after-retired = rw (k.mode) refl

-- A hart in machine mode whose pc and trap vector are 0, where there is no RAM, and that has no
-- interrupt enabled never ends its run: before its deadline `run_until` is not over after any
-- number of steps, since a trap does not count as an instruction.
pub run_until-Stuck :
    (n : ℕ) (c : Cpu) (m : Machine) (deadline : ℕ)
    → Stuck m c
    → c.insns_retired < deadline
    → run_until n c m deadline ≡ none
unfolding run_until
run_until-Stuck zero c m deadline k early = refl
run_until-Stuck (suc n) c m deadline k early =
    let on : ltb c.insns_retired deadline ≡ true = ground (arith, early) in
    let d = take_trap (ready c m k) 1 0 false in
    let ih =
      run_until-Stuck n d (set_mtime c.insns_retired m) deadline
        (trapped-Stuck _ _ (ready-Stuck c m k)) (omega (arith, after-retired c m k, early)) in
    rw (on, timed_step-Stuck c m k) ih
