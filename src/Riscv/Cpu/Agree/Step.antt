-- ===== src/Riscv/Cpu/Agree/Step.antt =====
-- A step of the full system over two memories that answer alike (crates/fs-riscv/src/lib.rs).
use fuzzsoft.Base.{
  ℕ, Bool, true, false, none, some, Result, ok, err, arith, Bool-cases, inl, inr, get_or,
}
use fuzzsoft.Bus.{Bus}
use fuzzsoft.Riscv.Cpu.{
  Cpu, Trap, mem_trap, illegal_trap, exception, kmsan_tainted, mem_cause, Exit, go_on, ecall_exit,
  ebreak_exit, halt, take_trap, poll_interrupt, pending_interrupt, update_timers,
}
use fuzzsoft.Riscv.Cpu.Exec.{is_some_of}
use fuzzsoft.Riscv.Cpu.System.{
  SysExit, carry_on, step_polled, finish_exit, finish_ecall, step, step_word, step_parcel,
  step_system,
}
use fuzzsoft.Riscv.Cpu.Agree.{Untracked, Related, Answers, Related-Answers, Agree, agree, Sim}
use fuzzsoft.Riscv.Cpu.Agree.Arms.{agree_rules, fetch16-Sim, exec_one-Sim}

module _ {S T : Type 0} (R : S → T → Type 0) where
  -- Two outcomes of a step of the system: one exit, one hart that tracks no taint, and memories
  -- that are related.
  pub data Matches : SysExit × (Cpu × S) → SysExit × (Cpu × T) → Type 0 where
    matches :
        (exit : SysExit) (c : Cpu) (s : S) (t : T)
        → Untracked c
        → R s t
        → Matches (exit, (c, s)) (exit, (c, t))

take_trap-Untracked :
    (c : Cpu) (cause tval : ℕ) (interrupt : Bool)
    → Untracked c
    → Untracked (take_trap c cause tval interrupt)
unfolding take_trap
take_trap-Untracked c cause tval interrupt u = ground arith

polled-Untracked : (c : Cpu) → Untracked c → Untracked (poll_interrupt c).1
unfolding poll_interrupt update_timers
polled-Untracked c u =
    let d = update_timers c in
    elim (pending_interrupt d)
      as (λ o.
        Untracked
          (elim o as (λ _. Bool × Cpu) [
            | none ↦ (false, d)
            | some code ↦ (true, take_trap d code 0 true)
          ]).1) [ none ↦ u | some code ↦ take_trap-Untracked d code 0 true u ]

finish_ecall-Untracked : (c : Cpu) → Untracked c → Untracked (finish_ecall c).1
finish_ecall-Untracked c u = elim (Bool-cases (is_some_of c.hypercall_eid (get_or c.regs 17 0))) [
  | inl h ↦ rw h u
  | inr h ↦ rw h (take_trap-Untracked c _ 0 false u)
]

finish_exit-Untracked :
    (c : Cpu) (r : Result Exit Trap) → Untracked c → Untracked (finish_exit c r).1
unfolding finish_exit
finish_exit-Untracked c (ok go_on) u = u
finish_exit-Untracked c (ok (halt code)) u = u
finish_exit-Untracked c (ok ecall_exit) u = finish_ecall-Untracked c u
finish_exit-Untracked c (ok ebreak_exit) u = take_trap-Untracked c 3 c.pc false u
finish_exit-Untracked c (err (illegal_trap pc raw)) u = take_trap-Untracked c 2 raw false u
finish_exit-Untracked c (err (mem_trap f)) u = take_trap-Untracked c (mem_cause f) f.addr false u
finish_exit-Untracked c (err (exception cause tval)) u = take_trap-Untracked c cause tval false u
finish_exit-Untracked c (err (kmsan_tainted pc rs1 rs2 a b)) u = u

module _ {S T : Type 0} {R : S → T → Type 0} (near : Bus S) (far : Bus T)
    (same : Answers R near far) where
  step_word-Sim : (pc lo : ℕ) → Sim R (step_word near pc lo) (step_word far pc lo)
  step_word-Sim pc lo =
      search (agree_rules, fetch16-Sim near far same, exec_one-Sim near far same) depth 20

  step_parcel-Sim : (pc lo : ℕ) → Sim R (step_parcel near pc lo) (step_parcel far pc lo)
  step_parcel-Sim pc lo = search (agree_rules, step_word-Sim, exec_one-Sim near far same) depth 20

  step-Sim : Sim R (step near) (step far)
  unfolding step
  step-Sim = search (agree_rules, step_parcel-Sim, fetch16-Sim near far same) depth 20

  finished :
      (o : Result Exit Trap × (Cpu × S)) (p : Result Exit Trap × (Cpu × T))
      → Agree R o p
      → let f = finish_exit o.1.0 o.0 in
        let g = finish_exit p.1.0 p.0 in Matches R (f.0, (f.1, o.1.1)) (g.0, (g.1, p.1.1))
  finished _ _ (agree r c s t u h) = matches _ _ s t (finish_exit-Untracked c r u) h

  stepped-Matches :
      (quiet : Bool) (c : Cpu) (s : S) (t : T)
      → Untracked c
      → R s t
      → Matches R (step_polled near (quiet, c) s) (step_polled far (quiet, c) t)
  stepped-Matches true c s t u h = matches carry_on c s t u h
  stepped-Matches false c s t u h = finished _ _ (step-Sim.at c s t u h)

  -- The same over memories that need not agree on stores of no byte.
  pub step_system-Answers :
      (c : Cpu) (s : S) (t : T)
      → Untracked c
      → R s t
      → Matches R (step_system near c s) (step_system far c t)
  unfolding step_system
  step_system-Answers c s t u h = stepped-Matches _ _ s t (polled-Untracked c u) h

module _ {S T : Type 0} {R : S → T → Type 0} (near : Bus S) (far : Bus T)
    (same : Related R near far) where
  -- Over two memories that answer loads, stores, fetches and reads of the raw state alike,
  -- `step_system` of a hart that tracks no taint gives the same exit and the same hart, and leaves
  -- memories that still do and a hart that still tracks none.
  pub step_system-Matches :
      (c : Cpu) (s : S) (t : T)
      → Untracked c
      → R s t
      → Matches R (step_system near c s) (step_system far c t)
  step_system-Matches c s t u h =
      step_system-Answers near far (Related-Answers R near far same) c s t u h
