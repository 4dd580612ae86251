-- ===== src/Riscv/Cpu.antt =====
-- The hart: its state, registers, software TLB, traps and interrupts (crates/fs-riscv/src/lib.rs).
pub mod Agree
pub mod Exec
pub mod Interrupts
pub mod Frames
pub mod Memory
pub mod Monad
pub mod Precise
pub mod System
pub mod Traps
pub mod Xlate
use fuzzsoft.Base.{
  ℕ, ◌+◌, ◌-◌, ◌*◌, ◌/◌, ◌%◌, ◌^◌, Bool, true, false, ◌&&◌, ◌||◌, not, Option, none, some, List, [],
  ◌∷◌, ◌++◌, Result, bit_and, bit_or, nonzero, length, get_or, set, replicate, ltb, leb, ◌==◌,
  if◌then◌else◌,
}
use fuzzsoft.Fault.{Access, read, write, exec, FaultKind, unaligned, Fault, u32}
use fuzzsoft.Riscv.Csr.{
  Priv, user, supervisor, machine, level, from_bits, Csr, default, not_u32, mstatus_sie,
  mstatus_mie, mstatus_spie, mstatus_mpie, mstatus_spp, mstatus_mpp, mstatus_mprv,
}

pub data Exit : Type 0 where
  go_on ecall_exit ebreak_exit : Exit
  halt : (code : ℕ) → Exit

pub data Trap : Type 0 where
  mem_trap : Fault → Trap
  illegal_trap : (pc raw : ℕ) → Trap
  exception : (cause tval : ℕ) → Trap
  kmsan_tainted : (pc rs1 rs2 taint_a taint_b : ℕ) → Trap

pub record KmsanReport : Type 0 where
  pub pc : ℕ
  pub rs1 : ℕ
  pub rs2 : ℕ
  pub taint_a : ℕ
  pub taint_b : ℕ

abbrev pub tlb_size : ℕ
tlb_size = 256

pub record TlbEntry : Type 0 where
  pub vpn : ℕ
  pub ppn : ℕ
  pub r : Bool
  pub w : Bool
  pub x : Bool
  pub u : Bool
  pub d_set : Bool

abbrev pub empty_entry : TlbEntry
empty_entry = record {
  vpn = 2 ^ 32 - 1;
  ppn = 0;
  r = false;
  w = false;
  x = false;
  u = false;
  d_set = false;
}

-- `Tlb::new` and `Tlb::flush`.
unfoldable pub empty_tlb : List TlbEntry
empty_tlb = replicate tlb_size empty_entry

abbrev pub tlb_slot : ℕ → ℕ
tlb_slot vpn = vpn % tlb_size

unfoldable pub tlb_get : List TlbEntry → ℕ → Option TlbEntry
tlb_get entries vpn =
    let e = get_or entries (tlb_slot vpn) empty_entry in if e.vpn == vpn then some e else none

unfoldable pub tlb_insert : List TlbEntry → TlbEntry → List TlbEntry
tlb_insert entries e = set entries (tlb_slot e.vpn) e

abbrev pub log_cap : ℕ
log_cap = 8192

-- `jit_pending_trap` and the fast-path counters are the JIT's and are left out.
pub record Cpu : Type 0 where
  pub regs : List ℕ
  pub pc : ℕ
  pub htif_tohost : Option ℕ
  pub insns_retired : ℕ
  pub reservation : Option ℕ
  pub privilege : Priv
  pub csr : Csr
  pub hypercall_eid : Option ℕ
  pub tlb : List TlbEntry
  pub cmplog : Option (List (ℕ × ℕ))
  pub ubsan : Option (List ℕ)
  pub regs_taint : Option (List ℕ)
  pub kmsan_hit : Option KmsanReport

unfoldable pub new_hart : ℕ → ℕ → Cpu
unfolding default empty_tlb
new_hart entry hartid = record {
  regs = replicate 32 0;
  pc = entry;
  htif_tohost = none;
  insns_retired = 0;
  reservation = none;
  privilege = machine;
  csr = record default { mhartid = hartid };
  hypercall_eid = none;
  tlb = empty_tlb;
  cmplog = none;
  ubsan = none;
  regs_taint = none;
  kmsan_hit = none;
}

unfoldable pub invalidate_reservation : Cpu → ℕ → ℕ → Cpu
invalidate_reservation c addr len = elim c.reservation [
  | none ↦ c
  | some r ↦ if leb addr r && ltb r (addr + len) then record c { reservation = none } else c
]

unfoldable pub rd_reg : Cpu → ℕ → ℕ
rd_reg c i = if i == 0 then 0 else get_or c.regs i 0

unfoldable pub wr_reg : Cpu → ℕ → ℕ → Cpu
wr_reg c i v = if i == 0 then c else record c { regs = set c.regs i v }

unfoldable pub rd_taint : Cpu → ℕ → ℕ
rd_taint c i = elim c.regs_taint [ none ↦ 0 | some t ↦ if i == 0 then 0 else get_or t i 0 ]

unfoldable pub wr_taint : Cpu → ℕ → ℕ → Cpu
wr_taint c i v = elim c.regs_taint [
  | none ↦ c
  | some t ↦ if i == 0 then c else record c { regs_taint = some (set t i v) }
]

-- `if log.len() < CAP { log.push(x) }`.
unfoldable pub push_log : {A : Type 0} → Option (List A) → A → Option (List A)
push_log none x = none
push_log (some log) x = if ltb (length log) log_cap then some (log ++ (x ∷ [])) else some log

abbrev pub is_exec : Access → Bool
is_exec read = false
is_exec write = false
is_exec exec = true

unfoldable pub effective_priv : Cpu → Access → Priv
effective_priv c access =
    if not (is_exec access) && nonzero (bit_and c.csr.mstatus mstatus_mprv)
    then from_bits (bit_and c.csr.mstatus mstatus_mpp / 2 ^ 11)
    else c.privilege

unfoldable pub trap_vector : ℕ → ℕ → Bool → ℕ
trap_vector tvec cause interrupt =
    let base = bit_and tvec (not_u32 3) in
    if (tvec % 4 == 1) && interrupt then u32 (base + 4 * cause) else base

-- `(s & !to) | if s & from != 0 { to } else { 0 }`, then `& !from`: the enable bit moves to its
-- stacked place.
abbrev pub stack_enable : ℕ → ℕ → ℕ → ℕ
stack_enable from to s =
    bit_and (bit_or (bit_and s (not_u32 to)) (if nonzero (bit_and s from) then to else 0))
      (not_u32 from)

-- Whether a trap goes to supervisor mode.
abbrev pub delegated : Cpu → ℕ → Bool → Bool
delegated c cause interrupt =
    let deleg = if interrupt then c.csr.mideleg else c.csr.medeleg in
    leb (level c.privilege) 1 && nonzero (deleg / 2 ^ cause % 2)

unfoldable pub take_trap : Cpu → ℕ → ℕ → Bool → Cpu
unfolding trap_vector
take_trap c cause tval interrupt =
    let code = bit_or (if interrupt then 2 ^ 31 else 0) cause in
    if delegated c cause interrupt
    then record c {
      csr = record c.csr {
        sepc = c.pc;
        scause = code;
        stval = tval;
        mstatus =
            bit_or
              (bit_and (stack_enable mstatus_sie mstatus_spie c.csr.mstatus) (not_u32 mstatus_spp))
              (level c.privilege % 2 * 2 ^ 8);
      };
      privilege = supervisor;
      pc = trap_vector c.csr.stvec cause interrupt;
    }
    else record c {
      csr = record c.csr {
        mepc = c.pc;
        mcause = code;
        mtval = tval;
        mstatus =
            bit_or
              (bit_and (stack_enable mstatus_mie mstatus_mpie c.csr.mstatus) (not_u32 mstatus_mpp))
              (level c.privilege * 2 ^ 11);
      };
      privilege = machine;
      pc = trap_vector c.csr.mtvec cause interrupt;
    }

abbrev pub is_user : Priv → Bool
is_user user = true
is_user supervisor = false
is_user machine = false

abbrev pub is_supervisor : Priv → Bool
is_supervisor user = false
is_supervisor supervisor = true
is_supervisor machine = false

abbrev pub is_machine : Priv → Bool
is_machine user = false
is_machine supervisor = false
is_machine machine = true

-- Whether the interrupt `code` is pending and may be taken now.
abbrev pub takes_interrupt : Cpu → ℕ → Bool
takes_interrupt c code =
    nonzero (bit_and (bit_and c.csr.mip c.csr.mie) (2 ^ code))
    && (if nonzero (c.csr.mideleg / 2 ^ code % 2)
        then is_user c.privilege
          || (is_supervisor c.privilege && nonzero (bit_and c.csr.mstatus mstatus_sie))
        else not (is_machine c.privilege) || nonzero (bit_and c.csr.mstatus mstatus_mie))

unfoldable pub first_taken : Cpu → List ℕ → Option ℕ
first_taken c [] = none
first_taken c (code ∷ codes) = if takes_interrupt c code then some code else first_taken c codes

unfoldable pub pending_interrupt : Cpu → Option ℕ
unfolding first_taken
pending_interrupt c =
    if bit_and c.csr.mip c.csr.mie == 0 then none else first_taken c (11 ∷ 3 ∷ 7 ∷ 9 ∷ 1 ∷ 5 ∷ [])

abbrev pub set_bit : Bool → ℕ → ℕ → ℕ
set_bit on bit_mask v = if on then bit_or v bit_mask else bit_and v (not_u32 bit_mask)

-- STIP is bit 5 and MTIP bit 7; the time is the count of retired instructions.
unfoldable pub update_timers : Cpu → Cpu
update_timers c = record c {
  csr = record c.csr {
    mip =
        set_bit (leb c.csr.mtimecmp c.insns_retired) 0x80
          (set_bit (leb c.csr.stimecmp c.insns_retired) 0x20 c.csr.mip);
  };
}

unfoldable pub poll_interrupt : Cpu → Bool × Cpu
poll_interrupt c = elim (pending_interrupt (update_timers c)) [
  | none ↦ (false, update_timers c)
  | some code ↦ (true, take_trap (update_timers c) code 0 true)
]

abbrev mem_cause_of : Access → FaultKind → ℕ
mem_cause_of exec unaligned = 0
mem_cause_of exec _ = 1
mem_cause_of read unaligned = 4
mem_cause_of read _ = 5
mem_cause_of write unaligned = 6
mem_cause_of write _ = 7

unfoldable pub mem_cause : Fault → ℕ
mem_cause f = mem_cause_of f.access f.kind
