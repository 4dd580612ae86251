-- ===== src/Riscv/Cpu/Frames/Arms.antt =====
-- The frame of every arm of `exec_one`, and the hart after an instruction that traps
-- (crates/fs-riscv/src/lib.rs).
use fuzzsoft.Base.{
  ℕ, zero, suc, ◌+◌, refl, Bool, true, false, Result, ok, err, map_ok, and_then, ltb, ◌==◌,
  if◌then◌else◌, length-replicate, Option,
}
use fuzzsoft.Bus.{Bus}
use fuzzsoft.Riscv.{
  AluOp, MulOp, AmoOp, BranchOp, LoadOp, StoreOp, CsrOp, Inst, lui, auipc, jal, jalr, branch, load,
  store, op_imm, op_reg, mul_reg, lr_w, sc_w, amo_w, fence, ecall, ebreak, csr_op, mret, sret, wfi,
  sfence_vma, illegal,
}
use fuzzsoft.Riscv.Csr.{Csr, Priv, level}
use fuzzsoft.Riscv.Cpu.Traps.{exec_mret, exec_sret}
use fuzzsoft.Riscv.Cpu.{Cpu, Trap, illegal_trap, empty_tlb, push_log, tlb_size, empty_entry}
use fuzzsoft.Riscv.Cpu.Memory.{
  fetch16, load_bytewise, load_impl, store_bytewise, store_impl, load_taint_bytewise, load_taint,
  store_taint_bytewise, store_taint,
}
use fuzzsoft.Riscv.Cpu.Exec.{
  log_cmp, csr_access, csr_update, csr_stored, csr_writes, csr_store, csr_new, csr_source, csr_old,
}
use fuzzsoft.Riscv.Cpu.Exec.Arms.{
  set_known, check_taint, exec_branch, exec_jalr, exec_op_imm, exec_op, exec_mul, exec_load,
  exec_store, exec_lr, exec_sc, exec_amo, exec_csr, execute,
}
use fuzzsoft.Riscv.Cpu.Frames.{
  Frame, Frame-trans, Leaves, Frames-pure, Frames-raise, Frames, Frame-refl, frames_rules,
}

pub log_cmp-Frame : (pair : ℕ × ℕ) (c : Cpu) → Frame c (log_cmp pair c)
log_cmp-Frame pair c = record {
  pc = refl;
  retired = refl;
  regs = refl;
  tlb = λ h. h;
  untracked = λ h. h;
}

pub if-Frame : (b : Bool) (c d e : Cpu) → Frame c d → Frame c e → Frame c (if b then d else e)
if-Frame true c d e f g = f
if-Frame false c d e f g = g

pub ubsan-Frame : (pc : ℕ) (c : Cpu) → Frame c (record c { ubsan = push_log c.ubsan pc })
ubsan-Frame pc c = record {
  pc = refl;
  retired = refl;
  regs = refl;
  tlb = λ h. h;
  untracked = λ h. h;
}

pub reservation-Frame : (r : Option ℕ) (c : Cpu) → Frame c (record c { reservation = r })
reservation-Frame r c = record {
  pc = refl;
  retired = refl;
  regs = refl;
  tlb = λ h. h;
  untracked = λ h. h;
}

pub flush-Frame : (c : Cpu) → Frame c (record c { tlb = empty_tlb })
unfolding empty_tlb
flush-Frame c = record {
  pc = refl;
  retired = refl;
  regs = refl;
  tlb = λ h. length-replicate tlb_size empty_entry;
  untracked = λ h. h;
}

pub ruleset changes_rules = (log_cmp-Frame, if-Frame, ubsan-Frame, reservation-Frame, flush-Frame)

ruleset arms_rules = (frames_rules, changes_rules)

module _ {S : Type 0} where
  check_taint-Frames : (pc a b : ℕ) → Frames {S = S} (check_taint pc a b)
  unfolding check_taint
  check_taint-Frames pc a b = search arms_rules depth 20

  set_known-Frames : (rd v : ℕ) → Frames {S = S} (set_known rd v)
  unfolding set_known
  set_known-Frames rd v = search arms_rules depth 20

  exec_branch-Frames :
      (op : BranchOp) (a b imm pc next : ℕ) → Frames {S = S} (exec_branch op a b imm pc next)
  unfolding exec_branch
  exec_branch-Frames op a b imm pc next = search (arms_rules, check_taint-Frames) depth 20

  exec_jalr-Frames : (rd a imm next : ℕ) → Frames {S = S} (exec_jalr rd a imm next)
  unfolding exec_jalr
  exec_jalr-Frames rd a imm next = search (arms_rules, set_known-Frames) depth 20

  exec_op_imm-Frames :
      (op : AluOp) (rd a imm next : ℕ) → Frames {S = S} (exec_op_imm op rd a imm next)
  unfolding exec_op_imm
  exec_op_imm-Frames op rd a imm next = search arms_rules depth 20

  exec_op-Frames : (op : AluOp) (rd a b next : ℕ) → Frames {S = S} (exec_op op rd a b next)
  unfolding exec_op
  exec_op-Frames op rd a b next = search arms_rules depth 20

  exec_mul-Frames : (op : MulOp) (rd a b pc next : ℕ) → Frames {S = S} (exec_mul op rd a b pc next)
  unfolding exec_mul
  exec_mul-Frames op rd a b pc next = search arms_rules depth 20

module _ {S : Type 0} (bus : Bus S) where
  pub fetch16-Frames : (va : ℕ) → Frames (fetch16 bus va)
  unfolding fetch16
  fetch16-Frames va = search arms_rules depth 20

  load_bytewise-Frames : (va i n acc : ℕ) → Frames (load_bytewise bus va i n acc)
  unfolding load_bytewise
  load_bytewise-Frames va i zero acc = search arms_rules
  load_bytewise-Frames va i (suc n) acc =
      search (arms_rules, load_bytewise-Frames va (i + 1) n) depth 20

  load_impl-Frames : (va size : ℕ) (signed : Bool) → Frames (load_impl bus va size signed)
  unfolding load_impl
  load_impl-Frames va size signed = search (arms_rules, load_bytewise-Frames) depth 20

  store_bytewise-Frames : (va i n val : ℕ) → Frames (store_bytewise bus va i n val)
  unfolding store_bytewise
  store_bytewise-Frames va i zero val = search arms_rules
  store_bytewise-Frames va i (suc n) val =
      search (arms_rules, store_bytewise-Frames va (i + 1) n) depth 20

  store_impl-Frames : (va size val : ℕ) → Frames (store_impl bus va size val)
  unfolding store_impl
  store_impl-Frames va size val = search (arms_rules, store_bytewise-Frames) depth 20

  load_taint_bytewise-Frames : (va i n mask : ℕ) → Frames (load_taint_bytewise bus va i n mask)
  unfolding load_taint_bytewise
  load_taint_bytewise-Frames va i zero mask = search arms_rules
  load_taint_bytewise-Frames va i (suc n) mask =
      search (arms_rules, load_taint_bytewise-Frames va (i + 1) n) depth 20

  load_taint-Frames : (va size : ℕ) → Frames (load_taint bus va size)
  unfolding load_taint
  load_taint-Frames va size = search (arms_rules, load_taint_bytewise-Frames) depth 20

  store_taint_bytewise-Frames : (va i n mask : ℕ) → Frames (store_taint_bytewise bus va i n mask)
  unfolding store_taint_bytewise
  store_taint_bytewise-Frames va i zero mask = search arms_rules
  store_taint_bytewise-Frames va i (suc n) mask =
      search (arms_rules, store_taint_bytewise-Frames va (i + 1) n) depth 20

  store_taint-Frames : (va size mask : ℕ) → Frames (store_taint bus va size mask)
  unfolding store_taint
  store_taint-Frames va size mask = search (arms_rules, store_taint_bytewise-Frames) depth 20

  exec_load-Frames : (op : LoadOp) (rd a imm next : ℕ) → Frames (exec_load bus op rd a imm next)
  unfolding exec_load
  exec_load-Frames op rd a imm next =
      search (arms_rules, load_impl-Frames, load_taint-Frames) depth 20

  exec_store-Frames : (op : StoreOp) (a b imm next : ℕ) → Frames (exec_store bus op a b imm next)
  unfolding exec_store
  exec_store-Frames op a b imm next =
      search (arms_rules, store_impl-Frames, store_taint-Frames) depth 20

  exec_lr-Frames : (rd a next : ℕ) → Frames (exec_lr bus rd a next)
  unfolding exec_lr
  exec_lr-Frames rd a next = search (arms_rules, load_impl-Frames, load_taint-Frames) depth 20

  exec_sc-Frames : (rd a b next : ℕ) → Frames (exec_sc bus rd a b next)
  unfolding exec_sc
  exec_sc-Frames rd a b next = search (arms_rules, store_impl-Frames) depth 20

  exec_amo-Frames : (op : AmoOp) (rd a b next : ℕ) → Frames (exec_amo bus op rd a b next)
  unfolding exec_amo
  exec_amo-Frames op rd a b next = search arms_rules depth 20

-- A hart that differs in its status registers and its mode.
csr-Frame : (c : Cpu) (k : Csr) (p : Priv) → Frame c (record c { csr = k; privilege = p })
csr-Frame c k p = record {
  pc = refl;
  retired = refl;
  regs = refl;
  tlb = λ h. h;
  untracked = λ h. h;
}

csr_flush-Frame : (c : Cpu) (k : Csr) → Frame c (record c { csr = k; tlb = empty_tlb })
csr_flush-Frame c k = Frame-trans (csr-Frame c k c.privilege) (flush-Frame (record c { csr = k }))

-- A write of a register is all that `csr_store` does, and a flush where it wrote satp.
csr_stored-Leaves :
    (csr : ℕ) (t : Trap) (c : Cpu) (old : ℕ) (r : Result Csr (Unit {0}))
    → Leaves c (map_ok (λ k. (old, k)) (csr_stored csr t c r))
csr_stored-Leaves csr t c old (err _) = tt
csr_stored-Leaves csr t c old (ok k) =
    elim (csr == 0x180)
      as (λ b.
        Frame c (if b then record c { csr = k; tlb = empty_tlb } else record c { csr = k })) [
          | true ↦ csr_flush-Frame c k
          | false ↦ csr-Frame c k c.privilege
        ]

csr_then-Leaves :
    (op : CsrOp) (src csr : ℕ) (t : Trap) (c : Cpu) (r : Result ℕ Trap)
    → Leaves c (and_then r (csr_update op src csr t c))
csr_then-Leaves op src csr t c (err _) = tt
csr_then-Leaves op src csr t c (ok old) =
    elim (csr_writes op src)
      as (λ b. Leaves c (
        if b
        then map_ok (λ k. (old, k)) (csr_store csr (csr_new op old (csr_source op src c)) t c)
        else ok (old, c))) [ true ↦ csr_stored-Leaves csr t c old _ | false ↦ Frame-refl c ]

pub csr_access-Leaves :
    (op : CsrOp) (src csr : ℕ) (t : Trap) (c : Cpu) → Leaves c (csr_access op src csr t c)
unfolding csr_access
csr_access-Leaves op src csr t c = csr_then-Leaves op src csr t c (csr_old csr t c)

guarded-Leaves :
    {A : Type 0} (b : Bool) (t : Trap) (a : A) (c d : Cpu)
    → Frame c d
    → Leaves c (if b then err t else ok (a, d))
guarded-Leaves true t a c d h = tt
guarded-Leaves false t a c d h = h

pub exec_mret-Leaves : (pc iword : ℕ) (c : Cpu) → Leaves c (exec_mret c pc iword)
unfolding exec_mret
exec_mret-Leaves pc iword c = guarded-Leaves (ltb (level c.privilege) 3) _ _ c _ (csr-Frame c _ _)

pub exec_sret-Leaves : (pc iword : ℕ) (c : Cpu) → Leaves c (exec_sret c pc iword)
unfolding exec_sret
exec_sret-Leaves pc iword c = guarded-Leaves (ltb (level c.privilege) 1) _ _ c _ (csr-Frame c _ _)

exec_csr-Frames :
    {S : Type 0} (op : CsrOp) (rd src csr : ℕ) (t : Trap) (next : ℕ)
    → Frames {S = S} (exec_csr op rd src csr t next)
unfolding exec_csr
exec_csr-Frames op rd src csr t next = search (arms_rules, csr_access-Leaves) depth 20

module _ {S : Type 0} (bus : Bus S) where
  pub execute-Frames : (inst : Inst) (pc next iword : ℕ) → Frames (execute bus inst pc next iword)
  unfolding execute
  execute-Frames (lui rd imm) pc next iword = search (arms_rules, set_known-Frames) depth 20
  execute-Frames (auipc rd imm) pc next iword = search (arms_rules, set_known-Frames) depth 20
  execute-Frames (jal rd imm) pc next iword = search (arms_rules, set_known-Frames) depth 20
  execute-Frames (jalr rd rs1 imm) pc next iword = exec_jalr-Frames rd rs1 imm next
  execute-Frames (branch op rs1 rs2 imm) pc next iword = exec_branch-Frames op rs1 rs2 imm pc next
  execute-Frames (load op rd rs1 imm) pc next iword = exec_load-Frames bus op rd rs1 imm next
  execute-Frames (store op rs1 rs2 imm) pc next iword = exec_store-Frames bus op rs1 rs2 imm next
  execute-Frames (op_imm op rd rs1 imm) pc next iword = exec_op_imm-Frames op rd rs1 imm next
  execute-Frames (op_reg op rd rs1 rs2) pc next iword = exec_op-Frames op rd rs1 rs2 next
  execute-Frames (mul_reg op rd rs1 rs2) pc next iword = exec_mul-Frames op rd rs1 rs2 pc next
  execute-Frames (lr_w rd rs1 aq rl) pc next iword = exec_lr-Frames bus rd rs1 next
  execute-Frames (sc_w rd rs1 rs2 aq rl) pc next iword = exec_sc-Frames bus rd rs1 rs2 next
  execute-Frames (amo_w op rd rs1 rs2 aq rl) pc next iword = exec_amo-Frames bus op rd rs1 rs2 next
  execute-Frames fence pc next iword = Frames-pure _
  execute-Frames ecall pc next iword = Frames-pure _
  execute-Frames ebreak pc next iword = Frames-pure _
  execute-Frames (csr_op op rd src csr) pc next iword =
      exec_csr-Frames op rd src csr (illegal_trap pc iword) next
  execute-Frames mret pc next iword = search (arms_rules, exec_mret-Leaves) depth 20
  execute-Frames sret pc next iword = search (arms_rules, exec_sret-Leaves) depth 20
  execute-Frames wfi pc next iword = Frames-pure _
  execute-Frames sfence_vma pc next iword = search arms_rules depth 20
  execute-Frames (illegal raw) pc next iword = Frames-raise _
