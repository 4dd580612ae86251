-- ===== src/Riscv/Cpu/System.antt =====
-- `step`, `finish_exit` and `step_system`: one instruction, what its outcome means to the guest and
-- to the driver, and a step of the full system (crates/fs-riscv/src/lib.rs).
use fuzzsoft.Base.{
  ℕ, true, false, ◌+◌, ◌*◌, ◌%◌, ◌^◌, Bool, some, Result, ok, err, get_or, bit_or, ◌==◌,
  if◌then◌else◌,
}
use fuzzsoft.Fault.{u32}
use fuzzsoft.Bus.{Bus}
use fuzzsoft.Riscv.Csr.{Priv, user, supervisor, machine}
use fuzzsoft.Riscv.Decode.{decode}
use fuzzsoft.Riscv.Compressed.{decode_compressed}
use fuzzsoft.Riscv.Cpu.{
  Cpu, Exit, go_on, ecall_exit, ebreak_exit, halt, Trap, mem_trap, illegal_trap, exception,
  kmsan_tainted, take_trap, poll_interrupt, mem_cause,
}
use fuzzsoft.Riscv.Cpu.Monad.{Hart, gets, ◌>>=◌}
use fuzzsoft.Riscv.Cpu.Memory.{fetch16}
use fuzzsoft.Riscv.Cpu.Exec.{is_some_of}
use fuzzsoft.Riscv.Cpu.Exec.Arms.{exec_one}

pub data SysExit : Type 0 where
  carry_on : SysExit
  halted hypercall : (code : ℕ) → SysExit

abbrev pub ecall_cause : Priv → ℕ
ecall_cause user = 8
ecall_cause supervisor = 9
ecall_cause machine = 11

-- An environment call is a hypercall where a7 holds the reserved number.
abbrev pub finish_ecall : Cpu → SysExit × Cpu
finish_ecall c =
    if is_some_of c.hypercall_eid (get_or c.regs 17 0)
    then (hypercall (get_or c.regs 10 0), record c { pc = u32 (c.pc + 4) })
    else (carry_on, take_trap c (ecall_cause c.privilege) 0 false)

unfoldable pub finish_exit : Cpu → Result Exit Trap → SysExit × Cpu
finish_exit c (ok go_on) = (carry_on, c)
finish_exit c (ok (halt code)) = (halted code, c)
finish_exit c (ok ecall_exit) = finish_ecall c
finish_exit c (ok ebreak_exit) = (carry_on, take_trap c 3 c.pc false)
finish_exit c (err (illegal_trap pc raw)) = (carry_on, take_trap c 2 raw false)
finish_exit c (err (mem_trap f)) = (carry_on, take_trap c (mem_cause f) f.addr false)
finish_exit c (err (exception cause tval)) = (carry_on, take_trap c cause tval false)
finish_exit c (err (kmsan_tainted pc rs1 rs2 taint_a taint_b)) = (
  halted pc,
  record c {
    kmsan_hit =
        some (record { pc = pc; rs1 = rs1; rs2 = rs2; taint_a = taint_a; taint_b = taint_b });
  },
)

module _ {S : Type 0} (bus : Bus S) where
  abbrev pub step_word : ℕ → ℕ → Hart S Exit
  step_word pc lo = do
    hi ← fetch16 bus (u32 (pc + 2))
    let w = bit_or lo (hi * 2 ^ 16)
    exec_one bus (decode w) pc 4 w

  -- A half-word whose low two bits are not both set is a compressed instruction.
  abbrev pub step_parcel : ℕ → ℕ → Hart S Exit
  step_parcel pc lo =
      if lo % 4 == 3 then step_word pc lo else exec_one bus (decode_compressed lo) pc 2 lo

  unfoldable pub step : Hart S Exit
  step = do pc ← gets (λ c. c.pc); lo ← fetch16 bus pc; step_parcel pc lo

  -- The rest of a step once the interrupts have been polled.
  abbrev pub step_polled : Bool × Cpu → S → SysExit × (Cpu × S)
  step_polled (true, c) s = (carry_on, (c, s))
  step_polled (false, c) s =
      let out = step c s in let done = finish_exit out.1.0 out.0 in (done.0, (done.1, out.1.1))

  unfoldable pub step_system : Cpu → S → SysExit × (Cpu × S)
  unfolding step
  step_system c s = step_polled (poll_interrupt c) s
