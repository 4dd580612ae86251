-- ===== src/Riscv/Cpu/Frames/Step.antt =====
-- A whole step: what retires, and what a trap leaves alone (crates/fs-riscv/src/lib.rs).
use fuzzsoft.Base.{
  ℕ, ◌+◌, ◌%◌, ◌≡◌, ap, ◌∙◌, true, false, Result, ok, err, ◌==◌, if◌then◌else◌, length, bit_or, ◌*◌,
  ◌^◌,
}
use fuzzsoft.Fault.{u32}
use fuzzsoft.Bus.{Bus}
use fuzzsoft.Riscv.{Inst}
use fuzzsoft.Riscv.Decode.{decode}
use fuzzsoft.Riscv.Compressed.{decode_compressed}
use fuzzsoft.Riscv.Cpu.{Cpu, Trap, Exit, tlb_size}
use fuzzsoft.Riscv.Cpu.Monad.{Hart, continue, ◌>>=◌}
use fuzzsoft.Riscv.Cpu.Memory.{fetch16}
use fuzzsoft.Riscv.Cpu.Exec.Arms.{retire, exec_one}
use fuzzsoft.Riscv.Cpu.System.{step, step_word, step_parcel}
use fuzzsoft.Riscv.Cpu.Frames.{Frame, Frame-trans}
use fuzzsoft.Riscv.Cpu.Frames.Arms.{execute-Frames, fetch16-Frames}

abbrev pub Sized : Cpu → Type 0
Sized c = (length c.regs ≡ 32) × (length c.tlb ≡ tlb_size)

-- What a step of `c` came to: an instruction retired, or a trap left the pc and the count.
pub data Stepped (c : Cpu) : Result Exit Trap → Cpu → Type 0 where
  retired :
      (exit : Exit) (d : Cpu)
      → d.insns_retired ≡ c.insns_retired + 1
      → Sized d
      → Stepped c (ok exit) d
  trapped :
      (t : Trap) (d : Cpu)
      → d.insns_retired ≡ c.insns_retired
      → d.pc ≡ c.pc
      → Sized d
      → Stepped c (err t) d

Sized-Frame : {c d : Cpu} → Frame c d → Sized c → Sized d
Sized-Frame f (r, t) = (f.regs ∙ r, f.tlb t)

module _ {S : Type 0} (c : Cpu) (sized : Sized c) where
  retire-Stepped :
      (o : Result (ℕ × Exit) Trap × (Cpu × S))
      → Frame c o.1.0
      → Stepped c (continue o retire).0 (continue o retire).1.0
  unfolding retire ◌>>=◌
  retire-Stepped (ok (next, exit), (d, s)) f =
      retired exit _ (ap (λ k. k + 1) f.retired) (Sized-Frame f sized)
  retire-Stepped (err t, (d, s)) f = trapped t d f.retired f.pc (Sized-Frame f sized)

  continue-Stepped :
      {A : Type 0} (o : Result A Trap × (Cpu × S)) (k : A → Hart S Exit)
      → Frame c o.1.0
      → ((a : A) (d : Cpu) (s : S) → Frame c d → Stepped c (k a d s).0 (k a d s).1.0)
      → Stepped c (continue o k).0 (continue o k).1.0
  continue-Stepped (ok a, (d, s)) k f h = h a d s f
  continue-Stepped (err t, (d, s)) k f h = trapped t d f.retired f.pc (Sized-Frame f sized)

  module _ (bus : Bus S) where
    exec_one-Stepped :
        (inst : Inst) (pc ilen iword : ℕ) (d : Cpu) (s : S)
        → Frame c d
        → Stepped c
            (exec_one bus inst pc ilen iword d s).0
            (exec_one bus inst pc ilen iword d s).1.0
    unfolding exec_one ◌>>=◌
    exec_one-Stepped inst pc ilen iword d s f =
        retire-Stepped _
          (Frame-trans f ((execute-Frames bus inst pc (u32 (pc + ilen)) iword).at d s))

    step_word-Stepped :
        (pc lo : ℕ) (d : Cpu) (s : S)
        → Frame c d
        → Stepped c (step_word bus pc lo d s).0 (step_word bus pc lo d s).1.0
    unfolding ◌>>=◌
    step_word-Stepped pc lo d s f =
        continue-Stepped _ _ (Frame-trans f ((fetch16-Frames bus _).at d s))
          (λ hi e t g. let w = bit_or lo (hi * 2 ^ 16) in exec_one-Stepped (decode w) pc 4 w e t g)

    step_parcel-Stepped :
        (pc lo : ℕ) (d : Cpu) (s : S)
        → Frame c d
        → Stepped c (step_parcel bus pc lo d s).0 (step_parcel bus pc lo d s).1.0
    step_parcel-Stepped pc lo d s f =
        elim (lo % 4 == 3)
          as (λ b.
            let m =
              (if b then step_word bus pc lo else exec_one bus (decode_compressed lo) pc 2 lo) in
            Stepped c (m d s).0 (m d s).1.0) [
              | true ↦ step_word-Stepped pc lo d s f
              | false ↦ exec_one-Stepped (decode_compressed lo) pc 2 lo d s f
            ]

    -- A `step` over any memory of a hart with 32 registers and 256 TLB entries either retires
    -- exactly one instruction, or traps and leaves the retired count and the pc as they were; the
    -- sizes of the register file and the TLB stay in both cases.
    pub step-Stepped : (s : S) → Stepped c (step bus c s).0 (step bus c s).1.0
    unfolding step ◌>>=◌
    step-Stepped s =
        continue-Stepped (fetch16 bus c.pc c s) (step_parcel bus c.pc)
          ((fetch16-Frames bus c.pc).at c s) (step_parcel-Stepped c.pc)
