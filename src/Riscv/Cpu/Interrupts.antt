-- ===== src/Riscv/Cpu/Interrupts.antt =====
-- Which interrupts may be taken after a trap (crates/fs-riscv/src/lib.rs).
use fuzzsoft.Base.{
  ℕ, ◌*◌, ◌^◌, ◌≡◌, refl, ◌∙◌, Bool, false, none, List, [], ◌∷◌, bit_and, bit_or, nonzero,
  if◌then◌else◌, arith,
}
use fuzzsoft.Base.Bits.{bit, bit-bit_or, bit-bit_and}
use fuzzsoft.Riscv.Csr.{
  Priv, user, supervisor, machine, level, not_u32, mstatus_mie, mstatus_mpie, mstatus_mpp,
}
use fuzzsoft.Riscv.Cpu.{
  Cpu, take_trap, delegated, stack_enable, takes_interrupt, first_taken, pending_interrupt,
}
use fuzzsoft.Riscv.Cpu.Traps.{tested}

first_taken-none :
    (c : Cpu) (codes : List ℕ)
    → ((code : ℕ) → takes_interrupt c code ≡ false)
    → first_taken c codes ≡ none
unfolding first_taken
first_taken-none c [] quiet = refl
first_taken-none c (code ∷ codes) quiet = rw (quiet code) (first_taken-none c codes quiet)

level_bit3 : (p : Priv) → bit (level p * 2 ^ 11) 3 ≡ 0
level_bit3 user = refl
level_bit3 supervisor = refl
level_bit3 machine = refl

-- MIE is clear in the status word that a trap to machine mode leaves.
mie_cleared :
    (s : ℕ) (p : Priv)
    → nonzero (
        bit_and
          (bit_or
            (bit_and (stack_enable mstatus_mie mstatus_mpie s) (not_u32 mstatus_mpp))
            (level p * 2 ^ 11))
          mstatus_mie)
      ≡ false
mie_cleared s p =
    let moved =
      bit_or (bit_and s (not_u32 mstatus_mpie))
        (if nonzero (bit_and s mstatus_mie) then mstatus_mpie else 0) in
    let t = bit_and moved (not_u32 mstatus_mie) in
    let a = bit_and t (not_u32 mstatus_mpp) in
    let off : bit (not_u32 mstatus_mie) 3 ≡ 0 = refl in
    let zero_bit : bit (bit_or a (level p * 2 ^ 11)) 3 ≡ 0 = omega (
      arith,
      off,
      level_bit3 p,
      bit-bit_or 3 a (level p * 2 ^ 11),
      bit-bit_and 3 t (not_u32 mstatus_mpp),
      bit-bit_and 3 moved (not_u32 mstatus_mie),
    ) in
    tested (bit_or a (level p * 2 ^ 11)) 3 ∙ rw zero_bit refl

-- After a trap that is not delegated no interrupt is taken, whatever is pending:
-- `pending_interrupt` gives none.
pub take_trap-pending_interrupt :
    (c : Cpu) (cause tval : ℕ) (interrupt : Bool)
    → delegated c cause interrupt ≡ false
    → pending_interrupt (take_trap c cause tval interrupt) ≡ none
unfolding pending_interrupt take_trap
take_trap-pending_interrupt c cause tval interrupt direct =
    let k = take_trap c cause tval interrupt in
    let quiet : (code : ℕ) → takes_interrupt k code ≡ false =
      λ code. rw (direct, mie_cleared c.csr.mstatus c.privilege) (ground arith) in
    ground (arith, first_taken-none k (11 ∷ 3 ∷ 7 ∷ 9 ∷ 1 ∷ 5 ∷ []) quiet)
