-- ===== src/Riscv/Cpu/Traps.antt =====
-- Trap return, the `Mret` and `Sret` arms of `exec_one` (crates/fs-riscv/src/lib.rs), and what a
-- trap and its return do together.
use native.Mathlib.Nat.{one-le-pow}
use fuzzsoft.Base.{
  ℕ, ◌+◌, ◌*◌, ◌/◌, ◌%◌, ◌^◌, ◌≤◌, ◌≡◌, refl, ◌∙◌, Bool, true, false, inl, inr, Result, ok, err,
  bit_and, bit_or, nonzero, ltb, ◌==◌, if◌then◌else◌, arith, Bool-cases,
}
use fuzzsoft.Base.Bits.{bit, bit-bit_or, bit-bit_and, bit-lt, bit_and-two_pow, bit-zero}
use fuzzsoft.Riscv.Csr.{
  Priv, user, supervisor, machine, level, from_bits, not_u32, mstatus_sie, mstatus_mie,
  mstatus_spie, mstatus_mpie, mstatus_spp, mstatus_mpp, mstatus_mprv,
}
use fuzzsoft.Riscv.Cpu.{Cpu, Trap, illegal_trap, take_trap, delegated, stack_enable, is_machine}

-- `s = (s & !to) | if s & from != 0 { to } else { 0 }; s |= from; s &= !previous`, then without
-- MPRV where the new mode is not machine mode.
abbrev pub unstack_enable : ℕ → ℕ → ℕ → Priv → ℕ → ℕ
unstack_enable from to previous p s =
    let t =
      bit_and
        (bit_or (bit_or (bit_and s (not_u32 to)) (if nonzero (bit_and s from) then to else 0)) from)
        (not_u32 previous) in
    if is_machine p then t else bit_and t (not_u32 mstatus_mprv)

-- The next pc and the hart, or the illegal instruction.
unfoldable pub exec_mret : Cpu → ℕ → ℕ → Result (ℕ × Cpu) Trap
exec_mret c pc iword =
    let p = from_bits (bit_and c.csr.mstatus mstatus_mpp / 2 ^ 11) in
    if ltb (level c.privilege) 3
    then err (illegal_trap pc iword)
    else ok (
      c.csr.mepc,
      record c {
        csr = record c.csr {
          mstatus = unstack_enable mstatus_mpie mstatus_mie mstatus_mpp p c.csr.mstatus;
        };
        privilege = p;
      },
    )

unfoldable pub exec_sret : Cpu → ℕ → ℕ → Result (ℕ × Cpu) Trap
exec_sret c pc iword =
    let p = from_bits (bit_and c.csr.mstatus mstatus_spp / 2 ^ 8) in
    if ltb (level c.privilege) 1
    then err (illegal_trap pc iword)
    else ok (
      c.csr.sepc,
      record c {
        csr = record c.csr {
          mstatus = unstack_enable mstatus_spie mstatus_sie mstatus_spp p c.csr.mstatus;
        };
        privilege = p;
      },
    )

-- The interrupt enable of machine mode and of supervisor mode.
abbrev pub mie_of : Cpu → ℕ
mie_of c = bit c.csr.mstatus 3

abbrev pub sie_of : Cpu → ℕ
sie_of c = bit c.csr.mstatus 1

-- A digit that was cleared, set from `l`, and is read under a mask.
bit-replaced :
    (k s l clear keep : ℕ)
    → bit clear k ≡ 0
    → bit keep k ≡ 1
    → bit (bit_and (bit_or (bit_and s clear) l) keep) k ≡ bit l k
bit-replaced k s l clear keep off on =
    let a = bit_and s clear in
    omega
      (arith, bit-bit_and k (bit_or a l) keep, bit-bit_or k a l, bit-bit_and k s clear, bit-lt k l)

two_digits : (v : ℕ) → v / 2 ^ 11 % 4 ≡ bit v 11 + 2 * bit v 12
two_digits v = omega arith

one_digit : (v : ℕ) → v / 2 ^ 8 % 4 ≡ bit v 8 + 2 * bit v 9
one_digit v = omega arith

-- The level that a trap to machine mode leaves in MPP.
mpp_level :
    (s l : ℕ)
    → bit_and (bit_or (bit_and s (not_u32 mstatus_mpp)) (l * 2 ^ 11)) mstatus_mpp / 2 ^ 11 % 4
      ≡ bit (l * 2 ^ 11) 11 + 2 * bit (l * 2 ^ 11) 12
mpp_level s l =
    two_digits _
    ∙ omega (
      arith,
      bit-replaced 11 s (l * 2 ^ 11) (not_u32 mstatus_mpp) mstatus_mpp refl refl,
      bit-replaced 12 s (l * 2 ^ 11) (not_u32 mstatus_mpp) mstatus_mpp refl refl,
    )

spp_level :
    (s l : ℕ)
    → bit_and (bit_or (bit_and s (not_u32 mstatus_spp)) (l * 2 ^ 8)) mstatus_spp / 2 ^ 8 % 4
      ≡ bit (l * 2 ^ 8) 8
spp_level s l =
    let w = bit_or (bit_and s (not_u32 mstatus_spp)) (l * 2 ^ 8) in
    let high : bit (bit_and w mstatus_spp) 9 ≡ 0 = omega (arith, bit-bit_and 9 w mstatus_spp) in
    one_digit _
    ∙ omega (arith, high, bit-replaced 8 s (l * 2 ^ 8) (not_u32 mstatus_spp) mstatus_spp refl refl)

pub tested : (s j : ℕ) → nonzero (bit_and s (2 ^ j)) ≡ bit s j == 1
tested s j = ground (arith, bit_and-two_pow j s, bit-lt j s, one-le-pow j 2)

-- A digit `k` that a word copies from its digit `j`.
bit-copied :
    (s j k to clear : ℕ)
    → bit clear k ≡ 0
    → bit to k ≡ 1
    → bit (bit_or (bit_and s clear) (if nonzero (bit_and s (2 ^ j)) then to else 0)) k ≡ bit s j
bit-copied s j k to clear off on = ground (
  arith,
  tested s j,
  bit-lt j s,
  bit-zero k,
  bit-bit_or k (bit_and s clear) to,
  bit-bit_or k (bit_and s clear) 0,
  bit-bit_and k s clear,
)

bit-kept : (k v keep : ℕ) → bit keep k ≡ 1 → bit (bit_and v keep) k ≡ bit v k
bit-kept k v keep on = omega (arith, bit-bit_and k v keep, bit-lt k v)

pub bit-beside : (k v w : ℕ) → bit w k ≡ 0 → bit (bit_or v w) k ≡ bit v k
bit-beside k v w off = omega (arith, bit-bit_or k v w)

-- The return's copy of the stacked enable, whatever the mode it returns to.
bit-unstacked :
    (from to previous : ℕ) (p : Priv) (s k j : ℕ)
    → from ≡ 2 ^ j
    → bit (not_u32 to) k ≡ 0
    → bit to k ≡ 1
    → bit from k ≡ 0
    → bit (not_u32 previous) k ≡ 1
    → bit (not_u32 mstatus_mprv) k ≡ 1
    → bit (unstack_enable from to previous p s) k ≡ bit s j
bit-unstacked from to previous p s k j e off on beside kept_prev kept_mprv =
    let a = bit_or (bit_and s (not_u32 to)) (if nonzero (bit_and s from) then to else 0) in
    let b = bit_or a from in
    let c = bit_and b (not_u32 previous) in
    let copied : bit a k ≡ bit s j = rw e (bit-copied s j k to (not_u32 to) off on) in
    let c_digit : bit c k ≡ bit s j =
      bit-kept k b (not_u32 previous) kept_prev ∙ bit-beside k a from beside ∙ copied in
    elim (Bool-cases (is_machine p)) [
      | inl m ↦ rw m c_digit
      | inr n ↦ rw n (bit-kept k c (not_u32 mstatus_mprv) kept_mprv ∙ c_digit)
    ]

-- The enable that a trap has stacked, beside the mode it came from.
bit-stacked :
    (s from to clear was k j : ℕ)
    → from ≡ 2 ^ j
    → bit (not_u32 to) k ≡ 0
    → bit to k ≡ 1
    → bit (not_u32 from) k ≡ 1
    → bit clear k ≡ 1
    → bit was k ≡ 0
    → bit (bit_or (bit_and (stack_enable from to s) clear) was) k ≡ bit s j
bit-stacked s from to clear was k j e off on kept keep beside =
    let a = bit_or (bit_and s (not_u32 to)) (if nonzero (bit_and s from) then to else 0) in
    bit-beside k (bit_and (stack_enable from to s) clear) was beside
    ∙ bit-kept k (stack_enable from to s) clear keep
    ∙ bit-kept k a (not_u32 from) kept
    ∙ rw e (bit-copied s j k to (not_u32 to) off on)

-- What a return gives that has undone a trap: execution resumes at the trapping pc, in the mode and
-- with the interrupt enable `enable` of before.
pub record Resumed (enable : Cpu → ℕ) (c : Cpu) (r : Result (ℕ × Cpu) Trap) : Type 0 where
  pub after : Cpu
  pub returns : r ≡ ok (c.pc, after)
  pub mode : after.privilege ≡ c.privilege
  pub enabled : enable after ≡ enable c

-- The mode that a return finds in MPP is the one that the trap left there.
mpp_mode :
    (s : ℕ) (p : Priv)
    → from_bits
        (bit_and (bit_or (bit_and s (not_u32 mstatus_mpp)) (level p * 2 ^ 11)) mstatus_mpp / 2 ^ 11)
      ≡ p
mpp_mode s user = rw (mpp_level s 0) refl
mpp_mode s supervisor = rw (mpp_level s 1) refl
mpp_mode s machine = rw (mpp_level s 3) refl

level_bit7 : (p : Priv) → bit (level p * 2 ^ 11) 7 ≡ 0
level_bit7 user = refl
level_bit7 supervisor = refl
level_bit7 machine = refl

-- For every cause, exception or interrupt, that is not delegated, `mret` after `take_trap`
-- succeeds, the next pc is the pc that trapped, and the privilege and the MIE bit are those of
-- before the trap.
pub take_trap-exec_mret :
    (c : Cpu) (cause tval : ℕ) (interrupt : Bool) (pc iword : ℕ)
    → delegated c cause interrupt ≡ false
    → Resumed mie_of c (exec_mret (take_trap c cause tval interrupt) pc iword)
unfolding take_trap exec_mret
take_trap-exec_mret c cause tval interrupt pc iword direct =
    let s = c.csr.mstatus in
    let p = c.privilege in
    let t = bit_and (stack_enable mstatus_mie mstatus_mpie s) (not_u32 mstatus_mpp) in
    rw (direct, mpp_mode (stack_enable mstatus_mie mstatus_mpie s) p)
      (record {
        after = _;
        returns = refl;
        mode = refl;
        enabled =
            bit-unstacked mstatus_mpie mstatus_mie mstatus_mpp p (bit_or t (level p * 2 ^ 11)) 3 7
              refl refl refl refl refl refl
            ∙ bit-stacked s mstatus_mie mstatus_mpie (not_u32 mstatus_mpp) (level p * 2 ^ 11) 7 3
                refl refl refl refl refl (level_bit7 p);
      })

spp_mode :
    (s : ℕ) (p : Priv)
    → level p ≤ 1
    → from_bits (
        bit_and (bit_or (bit_and s (not_u32 mstatus_spp)) (level p % 2 * 2 ^ 8)) mstatus_spp
        / 2 ^ 8)
      ≡ p
spp_mode s user low = rw (spp_level s 0) refl
spp_mode s supervisor low = rw (spp_level s 1) refl
spp_mode s machine low = absurd (omega arith)

spp_bit5 : (p : Priv) → bit (level p % 2 * 2 ^ 8) 5 ≡ 0
spp_bit5 user = refl
spp_bit5 supervisor = refl
spp_bit5 machine = refl

-- For every cause, exception or interrupt, that is delegated, `sret` after `take_trap` succeeds,
-- the next pc is the pc that trapped, and the privilege and the SIE bit are those of before the
-- trap.
pub take_trap-exec_sret :
    (c : Cpu) (cause tval : ℕ) (interrupt : Bool) (pc iword : ℕ)
    → delegated c cause interrupt ≡ true
    → Resumed sie_of c (exec_sret (take_trap c cause tval interrupt) pc iword)
unfolding take_trap exec_sret
take_trap-exec_sret c cause tval interrupt pc iword by_s =
    let s = c.csr.mstatus in
    let p = c.privilege in
    let low : level p ≤ 1 = ground arith in
    let t = bit_and (stack_enable mstatus_sie mstatus_spie s) (not_u32 mstatus_spp) in
    rw (by_s, spp_mode (stack_enable mstatus_sie mstatus_spie s) p low)
      (record {
        after = _;
        returns = refl;
        mode = refl;
        enabled =
            bit-unstacked mstatus_spie mstatus_sie mstatus_spp p (bit_or t (level p % 2 * 2 ^ 8)) 1
              5 refl refl refl refl refl refl
            ∙ bit-stacked s mstatus_sie mstatus_spie (not_u32 mstatus_spp) (level p % 2 * 2 ^ 8) 5 1
                refl refl refl refl refl (spp_bit5 p);
      })
