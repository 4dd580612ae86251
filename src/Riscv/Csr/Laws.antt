-- ===== src/Riscv/Csr/Laws.antt =====
-- The supervisor's view of machine registers, and which registers may be accessed
-- (crates/fs-riscv/src/sys.rs).
use native.Mathlib.Nat.{pow-succ'}
use fuzzsoft.Base.{
  ℕ, zero, suc, ◌+◌, ◌/◌, ◌%◌, ◌^◌, ◌≤◌, ◌<◌, ◌≡◌, refl, ap, Bool, true, false, ◌&&◌, Result, ok,
  err, bit_and, bit_or, ltb, leb, arith,
}
use fuzzsoft.Base.Bits.{bit, bit-bit_or, bit-bit_and, bit-lt, bit_ext, bit-zero}
use fuzzsoft.Riscv.Csr.{
  Priv, level, Csr, not_u32, sstatus_mask, s_int_mask, value, read_csr, written, write_csr,
}

-- A mask and its complement share no digit, and make every digit of a word.
abbrev Splits : ℕ → ℕ → Type 0
Splits m n = (k : ℕ) → bit m k + bit n k ≤ 1

-- The digits under the mask are the new ones, the others are kept.
module _ (old new m n : ℕ) (apart : Splits m n) where
  merged_under : bit_and (bit_or (bit_and old n) (bit_and new m)) m ≡ bit_and new m
  merged_under = bit_ext _ _ (λ k. omega (
    arith,
    apart k,
    bit-bit_and k (bit_or (bit_and old n) (bit_and new m)) m,
    bit-bit_or k (bit_and old n) (bit_and new m),
    bit-bit_and k old n,
    bit-bit_and k new m,
    bit-lt k old,
    bit-lt k new,
  ))

  merged_beside : bit_and (bit_or (bit_and old n) (bit_and new m)) n ≡ bit_and old n
  merged_beside = bit_ext _ _ (λ k. omega (
    arith,
    apart k,
    bit-bit_and k (bit_or (bit_and old n) (bit_and new m)) n,
    bit-bit_or k (bit_and old n) (bit_and new m),
    bit-bit_and k old n,
    bit-bit_and k new m,
    bit-lt k old,
    bit-lt k new,
  ))

-- Numbers that share no digit, tested digit by digit.
abbrev apart_below : ℕ → ℕ → ℕ → Bool
apart_below zero m n = true
apart_below (suc k) m n = leb (m % 2 + n % 2) 1 && apart_below k (m / 2) (n / 2)

apart_below_sound : (k m n : ℕ) → m < 2 ^ k → n < 2 ^ k → apart_below k m n ≡ true → Splits m n
apart_below_sound zero m n hm hn h j =
    let e : m ≡ 0 = omega arith in
    let f : n ≡ 0 = omega arith in
    omega (arith, bit-zero j, ap (λ t. bit t j) e, ap (λ t. bit t j) f)
apart_below_sound (suc k) m n hm hn h zero = ground arith
apart_below_sound (suc k) m n hm hn h (suc j) =
    apart_below_sound k (m / 2) (n / 2) (omega (arith, pow-succ' 2 k))
      (omega (arith, pow-succ' 2 k)) (ground arith) j

sstatus-Splits : Splits sstatus_mask (not_u32 sstatus_mask)
sstatus-Splits =
    apart_below_sound 32 sstatus_mask (not_u32 sstatus_mask) (omega arith) (omega arith) refl

s_int-Splits : Splits s_int_mask (not_u32 s_int_mask)
s_int-Splits = apart_below_sound 32 s_int_mask (not_u32 s_int_mask) (omega arith) (omega arith) refl

abbrev merged : ℕ → ℕ → ℕ → ℕ
merged old new m = bit_or (bit_and old (not_u32 m)) (bit_and new m)

-- What a write through a supervisor's view of a machine register does.
pub record Viewed (addr mask : ℕ) (register : Csr → ℕ) (c : Csr) (v : ℕ) (p : Priv) : Type 0 where
  pub after : Csr
  pub writes : write_csr c addr v p ≡ ok after
  pub reads : read_csr after addr p ≡ ok (bit_and v mask)
  pub kept : bit_and (register after) (not_u32 mask) ≡ bit_and (register c) (not_u32 mask)

-- In supervisor or machine mode a write of `v` to `sstatus`, `sie` or `sip` succeeds; the register
-- then reads as the bits of `v` that the view exposes, and the other bits of `mstatus`, `mie` or
-- `mip` are as they were.
pub write_csr-Viewed :
    (c : Csr) (v : ℕ) (p : Priv)
    → 1 ≤ level p
    → Viewed 0x100 sstatus_mask (λ k. k.mstatus) c v p
      × Viewed 0x104 s_int_mask (λ k. k.mie) c v p
      × Viewed 0x144 s_int_mask (λ k. k.mip) c v p
unfolding write_csr read_csr
write_csr-Viewed c v p low =
    let may : ltb (level p) 1 ≡ false = ground arith in
    (
      record {
        after = record c { mstatus = merged c.mstatus v sstatus_mask };
        writes = rw may refl;
        reads =
            rw may
              (ap ok (merged_under c.mstatus v sstatus_mask (not_u32 sstatus_mask) sstatus-Splits));
        kept = merged_beside c.mstatus v sstatus_mask (not_u32 sstatus_mask) sstatus-Splits;
      },
      record {
        after = record c { mie = merged c.mie v s_int_mask };
        writes = rw may refl;
        reads = rw may (ap ok (merged_under c.mie v s_int_mask (not_u32 s_int_mask) s_int-Splits));
        kept = merged_beside c.mie v s_int_mask (not_u32 s_int_mask) s_int-Splits;
      },
      record {
        after = record c { mip = merged c.mip v s_int_mask };
        writes = rw may refl;
        reads = rw may (ap ok (merged_under c.mip v s_int_mask (not_u32 s_int_mask) s_int-Splits));
        kept = merged_beside c.mip v s_int_mask (not_u32 s_int_mask) s_int-Splits;
      },
    )

-- Whether a result is not an error.
abbrev pub succeeds : {A : Type 0} → Result A (Unit {0}) → Bool
succeeds (ok _) = true
succeeds (err _) = false

-- Where a write to a CSR succeeds, a read of the same address at the same privilege succeeds before
-- and after it.
pub write_csr-read_csr :
    (c k : Csr) (addr v : ℕ) (p : Priv)
    → write_csr c addr v p ≡ ok k
    → (succeeds (read_csr c addr p) ≡ true) × (succeeds (read_csr k addr p) ≡ true)
unfolding write_csr read_csr written value
write_csr-read_csr c k addr v p h = (ground arith, ground arith)
