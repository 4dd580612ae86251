-- ===== src/Riscv/Alu/Laws.antt =====
-- Wrapping multiplication and division: the high and low words make the product, and quotient and
-- remainder make the dividend, signed and unsigned, overflow and division by zero included.
use native.Mathlib.Nat.{div-add-mod, div-add-mod', div-le_self, mod-le}
use fuzzsoft.Base.{
  ℕ, ◌+◌, ◌*◌, ◌/◌, ◌%◌, ◌^◌, ◌≤◌, ◌<◌, ◌≡◌, ◌≢◌, refl, ap, arith, Bool-cases, inl, inr, ◌==◌, ◌&&◌,
}
use fuzzsoft.Fault.{u32}
use fuzzsoft.Riscv.{MulOp}
use fuzzsoft.Riscv.Alu.{muldiv, div_signed, rem_signed, negative, magnitude, neg_word}

-- MULHU and MUL of two words are the upper and the lower half of their product.
pub mulhu_mul :
    (a b : ℕ)
    → a < 2 ^ 32
    → b < 2 ^ 32
    → muldiv MulOp.mulhu a b * 2 ^ 32 + muldiv MulOp.mul a b ≡ a * b
unfolding muldiv
mulhu_mul a b ha hb = let small : a * b < 2 ^ 64 = grind arith in omega arith

-- DIVU and REMU of a word by any number give results that make the dividend modulo 2 ^ 32, division
-- by zero included.
divu_remu : (a b : ℕ) → a < 2 ^ 32 → u32 (muldiv MulOp.divu a b * b + muldiv MulOp.remu a b) ≡ a
unfolding muldiv
divu_remu a b ha = elim (Bool-cases (b == 0)) [
  | inl zero_divisor ↦ let e : b ≡ 0 = ground arith in rw (zero_divisor, e) (omega arith)
  | inr proper ↦ rw proper (omega (arith, div-add-mod a b))
]

-- The four sign patterns, for words `a` and `b` of magnitudes `A` and `B` with `A = q * B + r`.
module _ (a b A B q r : ℕ) (ha : a < 2 ^ 32) (hb : b < 2 ^ 32) (split : q * B + r ≡ A)
    (small : A ≤ 2 ^ 31) (qs : q ≤ 2 ^ 31) (rs : r ≤ 2 ^ 31) where
  both_positive : A ≡ a → B ≡ b → u32 (u32 q * b + u32 r) ≡ a
  both_positive ea eb =
      let e : u32 q * b ≡ q * B =
        omega (arith, ap (λ (t : ℕ). q * t) eb, ap (λ (t : ℕ). t * b) (q_word)) in
      omega arith
    where
      q_word : u32 q ≡ q
      q_word = omega arith

  both_negative : A + a ≡ 2 ^ 32 → B + b ≡ 2 ^ 32 → u32 (u32 q * b + neg_word r) ≡ a
  both_negative ea eb =
      let q_word : u32 q ≡ q = omega arith in
      let e : q * B + q * b ≡ q * 2 ^ 32 = omega (arith, ap (λ (t : ℕ). q * t) eb) in
      omega (arith, ap (λ (t : ℕ). t * b) q_word)

  -- The quotient is negated: `n` is its word.
  negated : (n : ℕ) → n ≡ neg_word q → (k : ℕ) × (n * b + q * b ≡ k * 2 ^ 32)
  negated n e = elim (Bool-cases (q == 0)) [
    | inl none_left ↦
        let z : q ≡ 0 = ground arith in let m : n ≡ 0 = omega arith in (0, rw (z, m) (omega arith))
    | inr some_left ↦
        let m : n + q ≡ 2 ^ 32 = ground arith in (b, omega (arith, ap (λ (t : ℕ). t * b) m))
  ]

  negative_dividend : A + a ≡ 2 ^ 32 → B ≡ b → u32 (neg_word q * b + neg_word r) ≡ a
  negative_dividend ea eb =
      let wrap = negated (neg_word q) refl in omega (arith, wrap.1, ap (λ (t : ℕ). q * t) eb)

  negative_divisor : A ≡ a → B + b ≡ 2 ^ 32 → u32 (neg_word q * b + u32 r) ≡ a
  negative_divisor ea eb =
      let wrap = negated (neg_word q) refl in omega (arith, wrap.1, ap (λ (t : ℕ). q * t) eb)

div_rem_proper :
    (a b : ℕ) → a < 2 ^ 32 → b < 2 ^ 32 → b ≢ 0 → u32 (div_signed a b * b + rem_signed a b) ≡ a
unfolding div_signed rem_signed
div_rem_proper a b ha hb proper =
    let A = magnitude a in
    let B = magnitude b in
    let q = A / B in
    let r = A % B in
    let split : q * B + r ≡ A = div-add-mod' A B in
    let small : A ≤ 2 ^ 31 = ground arith in
    let qs : q ≤ 2 ^ 31 = omega (arith, small, div-le_self A B) in
    let rs : r ≤ 2 ^ 31 = omega (arith, small, mod-le A B) in
    elim (Bool-cases (negative a)) [
      | inl minus_a ↦ elim (Bool-cases (negative b)) [
        | inl minus_b ↦
            let ea : A + a ≡ 2 ^ 32 = ground arith in
            let eb : B + b ≡ 2 ^ 32 = ground arith in
            let goal = both_negative a b A B q r ha hb split small qs rs ea eb in
            ground (arith, goal)
        | inr plus_b ↦
            let ea : A + a ≡ 2 ^ 32 = ground arith in
            let eb : B ≡ b = ground arith in
            let goal = negative_dividend a b A B q r ha hb split small qs rs ea eb in
            ground (arith, goal)
      ]
      | inr plus_a ↦ elim (Bool-cases (negative b)) [
        | inl minus_b ↦
            let ea : A ≡ a = ground arith in
            let eb : B + b ≡ 2 ^ 32 = ground arith in
            let goal = negative_divisor a b A B q r ha hb split small qs rs ea eb in
            ground (arith, goal)
        | inr plus_b ↦
            let ea : A ≡ a = ground arith in
            let eb : B ≡ b = ground arith in
            let goal = both_positive a b A B q r ha hb split small qs rs ea eb in
            ground (arith, goal)
      ]
    ]

-- DIV and REM of any two words give results that make the dividend modulo 2 ^ 32, division by zero
-- and the overflow of -2 ^ 31 by -1 included.
pub div_rem :
    (a b : ℕ) → a < 2 ^ 32 → b < 2 ^ 32 → u32 (muldiv MulOp.div a b * b + muldiv MulOp.rem a b) ≡ a
unfolding muldiv
div_rem a b ha hb = elim (Bool-cases (b == 0)) [
  | inl zero_divisor ↦ let e : b ≡ 0 = ground arith in rw (zero_divisor, e) (omega arith)
  | inr proper ↦ rw proper (elim (Bool-cases ((a == 0x8000_0000) && (b == 0xffff_ffff))) [
    | inl overflow ↦
        let ea : a ≡ 0x8000_0000 = ground arith in
        let eb : b ≡ 0xffff_ffff = ground arith in rw (overflow, ea, eb) refl
    | inr fits ↦ rw fits (div_rem_proper a b ha hb (ground arith))
  ])
]
