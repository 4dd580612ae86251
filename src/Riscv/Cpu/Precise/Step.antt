-- ===== src/Riscv/Cpu/Precise/Step.antt =====
-- A step that traps, and the trap that the guest sees (crates/fs-riscv/src/lib.rs).
use fuzzsoft.Base.{
  ℕ, ◌≡◌, refl, sym, ap, ◌∙◌, Bool, false, Option, Result, ok, err, Bool-cases, inl, inr,
}
use fuzzsoft.Bus.{Bus}
use fuzzsoft.Riscv.{Inst}
use fuzzsoft.Riscv.Cpu.{
  Cpu, Trap, mem_trap, illegal_trap, exception, kmsan_tainted, Exit, KmsanReport, take_trap,
  poll_interrupt, mem_cause, delegated,
}
use fuzzsoft.Riscv.Cpu.Exec.Arms.{retire, exec_one}
use fuzzsoft.Riscv.Cpu.System.{step, step_word, step_parcel, step_system, finish_exit}
use fuzzsoft.Riscv.Cpu.Precise.{Arch, arch, Precise, Sure, Kept, precise_rules}
use fuzzsoft.Riscv.Cpu.Precise.Arms.{execute-Precise, fetch16-Quiet}

retire-Sure : {S : Type 0} (done : ℕ × Exit) → Sure {S = S} (retire done)
unfolding retire
retire-Sure done = search precise_rules

module _ {S : Type 0} (bus : Bus S) where
  exec_one-Precise : (inst : Inst) (pc ilen iword : ℕ) → Precise (exec_one bus inst pc ilen iword)
  unfolding exec_one
  exec_one-Precise inst pc ilen iword =
      search (precise_rules, execute-Precise, retire-Sure) depth 20

  step_word-Precise : (pc lo : ℕ) → Precise (step_word bus pc lo)
  step_word-Precise pc lo = search (precise_rules, exec_one-Precise, fetch16-Quiet) depth 20

  step_parcel-Precise : (pc lo : ℕ) → Precise (step_parcel bus pc lo)
  step_parcel-Precise pc lo = search (precise_rules, exec_one-Precise, step_word-Precise) depth 20

  step-Precise : Precise (step bus)
  unfolding step
  step-Precise = search (precise_rules, step_parcel-Precise, fetch16-Quiet) depth 20

-- A hart with this view of it.
unfoldable of_arch : Cpu → Arch → Cpu
of_arch c a = record c {
  regs = a.regs;
  pc = a.pc;
  csr = a.csr;
  privilege = a.privilege;
  reservation = a.reservation;
  insns_retired = a.insns_retired;
}

take_trap-of_arch :
    (c d : Cpu) (cause tval : ℕ) (interrupt : Bool)
    → arch (take_trap d cause tval interrupt)
      ≡ arch (take_trap (of_arch c (arch d)) cause tval interrupt)
unfolding arch take_trap of_arch
take_trap-of_arch c d cause tval interrupt = elim (Bool-cases (delegated d cause interrupt)) [
  | inl h ↦ rw h refl
  | inr h ↦ rw h refl
]

take_trap-arch :
    (c d : Cpu) (cause tval : ℕ) (interrupt : Bool)
    → arch d ≡ arch c
    → arch (take_trap d cause tval interrupt) ≡ arch (take_trap c cause tval interrupt)
take_trap-arch c d cause tval interrupt h =
    take_trap-of_arch c d cause tval interrupt
    ∙ ap (λ a. arch (take_trap (of_arch c a) cause tval interrupt)) h
    ∙ sym (take_trap-of_arch c c cause tval interrupt)

kmsan_arch :
    (c d : Cpu) (r : Option KmsanReport)
    → arch d ≡ arch c
    → arch (record d { kmsan_hit = r }) ≡ arch (record c { kmsan_hit = r })
unfolding arch
kmsan_arch c d r h = h

finish_exit-arch :
    (c d : Cpu) (t : Trap)
    → arch d ≡ arch c
    → ((finish_exit d (err t)).0 ≡ (finish_exit c (err t)).0)
      × (arch (finish_exit d (err t)).1 ≡ arch (finish_exit c (err t)).1)
unfolding finish_exit
finish_exit-arch c d (mem_trap f) h = (refl, take_trap-arch c d (mem_cause f) f.addr false h)
finish_exit-arch c d (illegal_trap pc raw) h = (refl, take_trap-arch c d 2 raw false h)
finish_exit-arch c d (exception cause tval) h = (refl, take_trap-arch c d cause tval false h)
finish_exit-arch c d (kmsan_tainted pc rs1 rs2 taint_a taint_b) h = (refl, kmsan_arch c d _ h)

Kept-err :
    {S A : Type 0} (c : Cpu) (o : Result A Trap × (Cpu × S)) (t : Trap)
    → o.0 ≡ err t
    → Kept c o
    → arch o.1.0 ≡ arch c
Kept-err c (ok a, _) t e k = cc
Kept-err c (err u, (d, s)) t e k = k

-- Traps are precise: where no interrupt is taken and `step` traps, `step_system` gives the exit of
-- that trap, and the registers, the pc, the status registers, the mode, the reservation and the
-- retired count are those of the trap taken from the hart as it stood before the instruction, over
-- any memory and for every instruction.
pub step_system-finish_exit :
    {S : Type 0} (bus : Bus S) (c : Cpu) (s : S) (t : Trap)
    → (poll_interrupt c).0 ≡ false
    → (step bus (poll_interrupt c).1 s).0 ≡ err t
    → ((step_system bus c s).0 ≡ (finish_exit (poll_interrupt c).1 (err t)).0)
      × (arch (step_system bus c s).1.0 ≡ arch (finish_exit (poll_interrupt c).1 (err t)).1)
unfolding step_system
step_system-finish_exit bus c s t quiet fails =
    let e = (poll_interrupt c).1 in
    let o = step bus e s in
    rw (quiet, fails)
      (finish_exit-arch e o.1.0 t (Kept-err e o t fails ((step-Precise bus).at e s)))
