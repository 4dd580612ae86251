-- ===== src/Riscv/Csr.antt =====
-- The control and status registers: `Priv` and `Csr` of crates/fs-riscv/src/sys.rs.
pub mod Laws
use fuzzsoft.Base.{
  ℕ, ◌+◌, ◌-◌, ◌*◌, ◌/◌, ◌%◌, ◌^◌, Bool, ◌&&◌, ◌||◌, List, Result, ok, err, bit_and, bit_or, get_or,
  set, replicate, ltb, leb, ◌==◌, if◌then◌else◌,
}

pub data Priv : Type 0 where
  user supervisor machine : Priv

abbrev pub level : Priv → ℕ
level user = 0
level supervisor = 1
level machine = 3

-- 2 is reserved and treated as machine mode.
abbrev pub from_bits : ℕ → Priv
from_bits b = if b % 4 == 0 then user else if b % 4 == 1 then supervisor else machine

-- `!m` on a `u32`.
abbrev pub not_u32 : ℕ → ℕ
not_u32 m = 2 ^ 32 - 1 - m

abbrev pub mstatus_sie : ℕ
mstatus_sie = 0x2

abbrev pub mstatus_mie : ℕ
mstatus_mie = 0x8

abbrev pub mstatus_spie : ℕ
mstatus_spie = 0x20

abbrev pub mstatus_mpie : ℕ
mstatus_mpie = 0x80

abbrev pub mstatus_spp : ℕ
mstatus_spp = 0x100

abbrev pub mstatus_mpp : ℕ
mstatus_mpp = 0x1800

abbrev pub mstatus_mprv : ℕ
mstatus_mprv = 0x20000

abbrev pub mstatus_sum : ℕ
mstatus_sum = 0x40000

abbrev pub mstatus_mxr : ℕ
mstatus_mxr = 0x80000

-- Every field above.
abbrev pub mstatus_wmask : ℕ
mstatus_wmask = 0xe19aa

-- SIE, SPIE, SPP, SUM and MXR.
abbrev pub sstatus_mask : ℕ
sstatus_mask = 0xc0122

-- SSIP, STIP and SEIP.
abbrev pub s_int_mask : ℕ
s_int_mask = 0x222

pub record Csr : Type 0 where
  pub mstatus : ℕ
  pub mtvec : ℕ
  pub mepc : ℕ
  pub mcause : ℕ
  pub mtval : ℕ
  pub mscratch : ℕ
  pub mie : ℕ
  pub mip : ℕ
  pub medeleg : ℕ
  pub mideleg : ℕ
  pub misa : ℕ
  pub mhartid : ℕ
  pub stvec : ℕ
  pub sepc : ℕ
  pub scause : ℕ
  pub stval : ℕ
  pub sscratch : ℕ
  pub satp : ℕ
  pub stimecmp : ℕ
  pub mtimecmp : ℕ
  pub pmpcfg : List ℕ
  pub pmpaddr : List ℕ
  pub mcounteren : ℕ
  pub scounteren : ℕ
  pub mcountinhibit : ℕ
  pub menvcfg : ℕ
  pub menvcfgh : ℕ
  pub senvcfg : ℕ

-- `Csr::default()`.
unfoldable pub default : Csr
default = record {
  mstatus = 0;
  mtvec = 0;
  mepc = 0;
  mcause = 0;
  mtval = 0;
  mscratch = 0;
  mie = 0;
  mip = 0;
  medeleg = 0;
  mideleg = 0;
  misa = 2 ^ 30 + 0x141105;
  mhartid = 0;
  stvec = 0;
  sepc = 0;
  scause = 0;
  stval = 0;
  sscratch = 0;
  satp = 0;
  stimecmp = 2 ^ 64 - 1;
  mtimecmp = 2 ^ 64 - 1;
  pmpcfg = replicate 4 0;
  pmpaddr = replicate 16 0;
  mcounteren = 0;
  scounteren = 0;
  mcountinhibit = 0;
  menvcfg = 0;
  menvcfgh = 0;
  senvcfg = 0;
}

-- The least privilege that an address asks for, in its bits 9:8.
abbrev pub min_level : ℕ → ℕ
min_level addr = addr / 2 ^ 8 % 4

-- `(addr >> 10) & 3 == 3`.
abbrev pub read_only : ℕ → Bool
read_only addr = addr / 2 ^ 10 % 4 == 3

-- The value of a register, whatever the privilege; an unknown address is an error.
unfoldable pub value : Csr → ℕ → Result ℕ (Unit {0})
value c addr =
    if addr == 0x300
    then ok c.mstatus
    else if addr == 0x301
    then ok c.misa
    else if addr == 0x302
    then ok c.medeleg
    else if addr == 0x303
    then ok c.mideleg
    else if addr == 0x304
    then ok c.mie
    else if addr == 0x305
    then ok c.mtvec
    else if addr == 0x340
    then ok c.mscratch
    else if addr == 0x341
    then ok c.mepc
    else if addr == 0x342
    then ok c.mcause
    else if addr == 0x343
    then ok c.mtval
    else if addr == 0x344
    then ok c.mip
    else if addr == 0xf14
    then ok c.mhartid
    else if addr == 0x100
    then ok (bit_and c.mstatus sstatus_mask)
    else if addr == 0x104
    then ok (bit_and c.mie s_int_mask)
    else if addr == 0x105
    then ok c.stvec
    else if addr == 0x140
    then ok c.sscratch
    else if addr == 0x141
    then ok c.sepc
    else if addr == 0x142
    then ok c.scause
    else if addr == 0x143
    then ok c.stval
    else if addr == 0x144
    then ok (bit_and c.mip s_int_mask)
    else if addr == 0x180
    then ok c.satp
    else if addr == 0x14d
    then ok (c.stimecmp % 2 ^ 32)
    else if addr == 0x15d
    then ok (c.stimecmp / 2 ^ 32)
    else if addr == 0xf11
    then ok 0
    else if addr == 0xf12
    then ok 0
    else if addr == 0xf13
    then ok 0
    else if addr == 0xf15
    then ok 0
    else if addr == 0x310
    then ok 0
    else if addr == 0x312
    then ok 0
    else if addr == 0x306
    then ok c.mcounteren
    else if addr == 0x106
    then ok c.scounteren
    else if addr == 0x320
    then ok c.mcountinhibit
    else if addr == 0x30a
    then ok c.menvcfg
    else if addr == 0x31a
    then ok c.menvcfgh
    else if addr == 0x10a
    then ok c.senvcfg
    else if leb 0x3a0 addr && leb addr 0x3a3
    then ok (get_or c.pmpcfg (addr - 0x3a0) 0)
    else if leb 0x3b0 addr && leb addr 0x3bf
    then ok (get_or c.pmpaddr (addr - 0x3b0) 0)
    else err tt

unfoldable pub read_csr : Csr → ℕ → Priv → Result ℕ (Unit {0})
unfolding value
read_csr c addr p = if ltb (level p) (min_level addr) then err tt else value c addr

-- The register after a write to an address that may be written, masked as the code masks it.
unfoldable pub written : Csr → ℕ → ℕ → Result Csr (Unit {0})
written c addr val =
    if addr == 0x300
    then ok (record c { mstatus = bit_and val mstatus_wmask })
    else if addr == 0x301
    then ok c
    else if addr == 0x302
    then ok (record c { medeleg = val })
    else if addr == 0x303
    then ok (record c { mideleg = val })
    else if addr == 0x304
    then ok (record c { mie = val })
    else if addr == 0x305
    then ok (record c { mtvec = bit_and val (not_u32 2) })
    else if addr == 0x340
    then ok (record c { mscratch = val })
    else if addr == 0x341
    then ok (record c { mepc = bit_and val (not_u32 1) })
    else if addr == 0x342
    then ok (record c { mcause = val })
    else if addr == 0x343
    then ok (record c { mtval = val })
    else if addr == 0x344
    then ok
        (record c { mip = bit_or (bit_and c.mip (not_u32 s_int_mask)) (bit_and val s_int_mask) })
    else if addr == 0x100
    then ok (record c {
      mstatus = bit_or (bit_and c.mstatus (not_u32 sstatus_mask)) (bit_and val sstatus_mask);
    })
    else if addr == 0x104
    then ok
        (record c { mie = bit_or (bit_and c.mie (not_u32 s_int_mask)) (bit_and val s_int_mask) })
    else if addr == 0x105
    then ok (record c { stvec = bit_and val (not_u32 2) })
    else if addr == 0x140
    then ok (record c { sscratch = val })
    else if addr == 0x141
    then ok (record c { sepc = bit_and val (not_u32 1) })
    else if addr == 0x142
    then ok (record c { scause = val })
    else if addr == 0x143
    then ok (record c { stval = val })
    else if addr == 0x144
    then ok
        (record c { mip = bit_or (bit_and c.mip (not_u32 s_int_mask)) (bit_and val s_int_mask) })
    else if addr == 0x180
    then ok (record c { satp = val })
    else if addr == 0x14d
    then ok (record c { stimecmp = bit_or (bit_and c.stimecmp 0xffff_ffff_0000_0000) val })
    else if addr == 0x15d
    then ok (record c { stimecmp = bit_or (bit_and c.stimecmp 0xffff_ffff) (val * 2 ^ 32) })
    else if addr == 0x310
    then ok c
    else if addr == 0x312
    then ok c
    else if addr == 0x306
    then ok (record c { mcounteren = val })
    else if addr == 0x106
    then ok (record c { scounteren = val })
    else if addr == 0x320
    then ok (record c { mcountinhibit = val })
    else if addr == 0x30a
    then ok (record c { menvcfg = val })
    else if addr == 0x31a
    then ok (record c { menvcfgh = val })
    else if addr == 0x10a
    then ok (record c { senvcfg = val })
    else if leb 0x3a0 addr && leb addr 0x3a3
    then ok (record c { pmpcfg = set c.pmpcfg (addr - 0x3a0) val })
    else if leb 0x3b0 addr && leb addr 0x3bf
    then ok (record c { pmpaddr = set c.pmpaddr (addr - 0x3b0) val })
    else err tt

unfoldable pub write_csr : Csr → ℕ → ℕ → Priv → Result Csr (Unit {0})
unfolding written
write_csr c addr val p =
    if ltb (level p) (min_level addr)
    then err tt
    else if read_only addr
    then err tt
    else written c addr val
