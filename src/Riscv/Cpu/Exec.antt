-- ===== src/Riscv/Cpu/Exec.antt =====
-- The parts that the arms of `exec_one` share (crates/fs-riscv/src/lib.rs).
pub mod Arms
use fuzzsoft.Base.{
  ℕ, ◌+◌, ◌-◌, ◌*◌, ◌/◌, ◌%◌, ◌^◌, Bool, true, false, ◌&&◌, ◌||◌, not, Option, none, some, Result,
  ok, err, map_ok, and_then, bit_and, bit_or, bit_xor, nonzero, ltb, leb, ◌==◌, if◌then◌else◌,
}
use fuzzsoft.Fault.{Access, write, u32}
use fuzzsoft.Bus.{Bus}
use fuzzsoft.Riscv.{
  AluOp, sub, xor, MulOp, div, divu, rem, remu, AmoOp, swap, BranchOp, LoadOp, lb, lh, lw, lbu, lhu,
  StoreOp, sb, sh, sw, CsrOp, rw_csr, rs_csr, rc_csr, rwi, rsi, rci, Inst,
}
use fuzzsoft.Riscv.Alu.{alu, muldiv, alu_taint, muldiv_taint, slt}
use fuzzsoft.Riscv.Csr.{Csr, not_u32, read_csr, write_csr}
use fuzzsoft.Riscv.Cpu.{
  Cpu, Exit, go_on, ecall_exit, ebreak_exit, halt, Trap, illegal_trap, kmsan_tainted, rd_reg,
  wr_reg, rd_taint, wr_taint, push_log, empty_tlb,
}
use fuzzsoft.Riscv.Cpu.Monad.{
  Hart, pure, raise, gets, modify, update, on_bus, peek, raise_if, when, ◌>>=◌, ◌>>◌,
}
use fuzzsoft.Riscv.Cpu.Memory.{
  translate, load_impl, store_impl, load_taint, store_taint, extend_load_taint,
}
use fuzzsoft.Riscv.Cpu.Traps.{exec_mret, exec_sret}

abbrev pub is_some : {A : Type 0} → Option A → Bool
is_some none = false
is_some (some _) = true

abbrev pub kmsan_enabled : Cpu → Bool
kmsan_enabled c = is_some c.regs_taint

-- `if self.kmsan_enabled() { self.wr_taint(rd, t) }`, where `t` may look at the hart.
abbrev pub taint_with : {S : Type 0} → ℕ → (Cpu → ℕ) → Hart S (Unit {0})
taint_with rd t = modify (λ c. if kmsan_enabled c then wr_taint c rd (t c) else c)

abbrev pub write_reg : {S : Type 0} → ℕ → ℕ → Hart S (Unit {0})
write_reg rd v = modify (λ c. wr_reg c rd v)

abbrev pub taken : BranchOp → ℕ → ℕ → Bool
taken BranchOp.eq a b = a == b
taken BranchOp.ne a b = not (a == b)
taken BranchOp.lt a b = slt a b
taken BranchOp.ge a b = not (slt a b)
taken BranchOp.ltu a b = ltb a b
taken BranchOp.geu a b = leb b a

abbrev pub log_cmp : ℕ × ℕ → Cpu → Cpu
log_cmp pair c = record c { cmplog = push_log c.cmplog pair }

abbrev pub load_shape : LoadOp → ℕ × Bool
load_shape lb = (1, true)
load_shape lbu = (1, false)
load_shape lh = (2, true)
load_shape lhu = (2, false)
load_shape lw = (4, false)

abbrev pub store_size : StoreOp → ℕ
store_size sb = 1
store_size sh = 2
store_size sw = 4

abbrev pub is_sw : StoreOp → Bool
is_sw sb = false
is_sw sh = false
is_sw sw = true

abbrev pub is_some_of : Option ℕ → ℕ → Bool
is_some_of none a = false
is_some_of (some b) a = b == a

-- `(a as i32).min(b as i32)` and `max`.
abbrev pub amo_result : AmoOp → ℕ → ℕ → ℕ
amo_result swap old src = src
amo_result AmoOp.add old src = u32 (old + src)
amo_result AmoOp.xor old src = bit_xor old src
amo_result AmoOp.and old src = bit_and old src
amo_result AmoOp.or old src = bit_or old src
amo_result AmoOp.min old src = if slt src old then src else old
amo_result AmoOp.max old src = if slt src old then old else src
amo_result AmoOp.minu old src = if ltb src old then src else old
amo_result AmoOp.maxu old src = if ltb src old then old else src

abbrev pub logs_compare : AluOp → Bool
logs_compare sub = true
logs_compare xor = true
logs_compare _ = false

abbrev pub is_division : MulOp → Bool
is_division div = true
is_division divu = true
is_division rem = true
is_division remu = true
is_division _ = false

abbrev pub csr_source : CsrOp → ℕ → Cpu → ℕ
csr_source rwi src c = src
csr_source rsi src c = src
csr_source rci src c = src
csr_source _ src c = rd_reg c src

abbrev pub csr_writes : CsrOp → ℕ → Bool
csr_writes rw_csr src = true
csr_writes rwi src = true
csr_writes _ src = not (src == 0)

abbrev pub csr_new : CsrOp → ℕ → ℕ → ℕ
csr_new rw_csr old val = val
csr_new rwi old val = val
csr_new rs_csr old val = bit_or old val
csr_new rsi old val = bit_or old val
csr_new rc_csr old val = bit_and old (not_u32 val)
csr_new rci old val = bit_and old (not_u32 val)

-- CYCLE, INSTRET and TIME with their upper halves are kept by the hart.
abbrev pub csr_old : ℕ → Trap → Cpu → Result ℕ Trap
csr_old csr illegal c =
    if (csr == 0xc00 || csr == 0xc02) || csr == 0xc01
    then ok (u32 c.insns_retired)
    else if (csr == 0xc80 || csr == 0xc82) || csr == 0xc81
    then ok (u32 (c.insns_retired / 2 ^ 32))
    else elim (read_csr c.csr csr c.privilege) [ ok v ↦ ok v | err _ ↦ err illegal ]

abbrev pub csr_stored : ℕ → Trap → Cpu → Result Csr (Unit {0}) → Result Cpu Trap
csr_stored csr illegal c (ok k) =
    ok (if csr == 0x180 then record c { csr = k; tlb = empty_tlb } else record c { csr = k })
csr_stored csr illegal c (err _) = err illegal

abbrev pub csr_store : ℕ → ℕ → Trap → Cpu → Result Cpu Trap
csr_store csr val illegal c = csr_stored csr illegal c (write_csr c.csr csr val c.privilege)

abbrev pub csr_update : CsrOp → ℕ → ℕ → Trap → Cpu → ℕ → Result (ℕ × Cpu) Trap
csr_update op src csr illegal c old =
    if csr_writes op src
    then map_ok (λ k. (old, k)) (csr_store csr (csr_new op old (csr_source op src c)) illegal c)
    else ok (old, c)

-- The CSR arm's read of the old value and its write, with the illegal-instruction trap that their
-- errors become.
unfoldable pub csr_access : CsrOp → ℕ → ℕ → Trap → Cpu → Result (ℕ × Cpu) Trap
csr_access op src csr illegal c = and_then (csr_old csr illegal c) (csr_update op src csr illegal c)
