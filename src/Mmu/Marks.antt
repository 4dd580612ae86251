-- ===== src/Mmu/Marks.antt =====
-- Dirty-block marks: what the bitmap says, and that marking every byte of a range is marking its
-- blocks once each.
use native.Mathlib.Nat.{one-le-pow}
use fuzzsoft.Base.{
  ℕ, zero, suc, ◌+◌, ◌-◌, ◌/◌, ◌%◌, ◌^◌, ◌<◌, ◌≡◌, refl, ap, ◌∙◌, Bool, true, false, ◌||◌, inl, inr,
  length, get_or, ◌==◌, if◌then◌else◌, arith, Bool-cases, get_or-set, length-set, bit_and, bit_or,
}
use fuzzsoft.Base.Bits.{bit, bit-lt, bit_and-two_pow, bit-bit_or, bit-two_pow_self, bit-two_pow_ne}
use fuzzsoft.Mmu.{Dirty, mark_block, mark_dirty}
use fuzzsoft.Mmu.Bytes.{mark_blocks, mark_bytes}

-- Whether the bitmap lists a block.
abbrev pub marked : Dirty → ℕ → Bool
marked d blk = bit (get_or d.bitmap (blk / 64) 0) (blk % 64) == 1

-- The test of the code is that one.
pub test-marked : (w k : ℕ) → (bit_and w (2 ^ k) == 0) ≡ (if bit w k == 1 then false else true)
test-marked w k = ground (arith, bit_and-two_pow k w, bit-lt k w, one-le-pow k 2)

-- Setting one digit of a word.
bit-set_bit : (w j k : ℕ) → bit (bit_or w (2 ^ j)) k ≡ (if j == k then 1 else bit w k)
bit-set_bit w j k = elim (Bool-cases (j == k)) [
  | inl same ↦
      let e : j ≡ k = ground arith in
      rw same (
        bit-bit_or k w (2 ^ j)
        ∙ omega (arith, bit-lt k w, ap (λ t. bit (2 ^ t) k) e, bit-two_pow_self k))
  | inr other ↦ rw other (bit-bit_or k w (2 ^ j) ∙ omega (arith, bit-two_pow_ne j k (ground arith)))
]

-- Marking a block that the bitmap covers sets its bit, and leaves the bit of every other block as
-- it is.
pub marked-mark_block :
    (d : Dirty) (b c : ℕ)
    → b / 64 < length d.bitmap
    → marked (mark_block b d) c ≡ b == c || marked d c
unfolding mark_block
marked-mark_block d b c covered = ground (
  arith,
  test-marked (get_or d.bitmap (b / 64) 0) (b % 64),
  get_or-set d.bitmap (b / 64) (c / 64) (bit_or (get_or d.bitmap (b / 64) 0) (2 ^ (b % 64))) 0,
  bit-set_bit (get_or d.bitmap (b / 64) 0) (b % 64) (c % 64),
)

pub length-mark_block : (d : Dirty) (b : ℕ) → length (mark_block b d).bitmap ≡ length d.bitmap
unfolding mark_block
length-mark_block d b =
    ground
      (arith, length-set d.bitmap (b / 64) (bit_or (get_or d.bitmap (b / 64) 0) (2 ^ (b % 64))))

-- A block that is listed is not listed twice.
pub mark_block-marked : (d : Dirty) (b : ℕ) → marked d b ≡ true → mark_block b d ≡ d
unfolding mark_block
mark_block-marked d b h = ground (arith, test-marked (get_or d.bitmap (b / 64) 0) (b % 64))

pub mark_block_twice :
    (d : Dirty) (b : ℕ) → b / 64 < length d.bitmap → mark_block b (mark_block b d) ≡ mark_block b d
mark_block_twice d b covered =
    mark_block-marked (mark_block b d) b (ground (arith, marked-mark_block d b b covered))

-- The next byte lies in the block just marked, or in the one after it.
next_byte_same :
    (b c k count total : ℕ) (d : Dirty)
    → b / 64 < length d.bitmap
    → c ≡ b
    → count ≡ suc k
    → total ≡ suc k
    → mark_blocks c count (mark_block b d) ≡ mark_blocks b total d
unfolding mark_blocks
next_byte_same b c k count total d covered at more same =
    rw (at, more, same) (ap (mark_blocks (b + 1) k) (mark_block_twice d b covered))

next_byte_after :
    (b c count total : ℕ) (d : Dirty)
    → c ≡ b + 1
    → total ≡ suc count
    → mark_blocks c count (mark_block b d) ≡ mark_blocks b total d
unfolding mark_blocks
next_byte_after b c count total d at more = rw (at, more) refl

-- Where the bitmap covers the range, marking the `n + 1` bytes from `off` one by one leaves the
-- dirty list and the bitmap of marking the blocks of the range once each.
pub mark_bytes-mark_blocks :
    (n off : ℕ) (d : Dirty)
    → (off + n) / 4096 < length d.bitmap
    → mark_bytes off (suc n) d ≡ mark_blocks (off / 64) ((off + n) / 64 + 1 - off / 64) d
unfolding mark_bytes mark_blocks mark_dirty
mark_bytes-mark_blocks zero off d covered =
    let one : (off + 0) / 64 + 1 - off / 64 ≡ 1 = omega arith in rw one refl
mark_bytes-mark_blocks (suc n) off d covered =
    let b = off / 64 in
    let d' = mark_block b d in
    let count = (off + 1 + n) / 64 + 1 - (off + 1) / 64 in
    let ih = mark_bytes-mark_blocks n (off + 1) d' (rw length-mark_block (omega arith)) in
    ih ∙ elim (Bool-cases ((off + 1) / 64 == b)) [
      | inl same ↦
          next_byte_same b ((off + 1) / 64) (count - 1) count ((off + suc n) / 64 + 1 - b) d
            (omega arith) (ground arith) (omega arith) (ground arith)
      | inr after ↦
          next_byte_after b ((off + 1) / 64) count ((off + suc n) / 64 + 1 - b) d (ground arith)
            (ground arith)
    ]
