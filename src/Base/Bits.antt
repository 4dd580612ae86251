-- ===== src/Base/Bits.antt =====
-- `&`, `|` and `^` of machine words, one binary digit at a time. The native operations stand for
-- `bitwise`, a recursion on digits with fuel; the laws below drop the fuel.
use Prim.Native.Nat.{
  ℕ, zero, suc, ◌+◌, ◌*◌, ◌/◌, ◌%◌, ◌^◌, ◌≤◌, ◌<◌, min, max, bit_and, bit_or, digits, bitwise,
  bit_and-bitwise, bit_or-bitwise,
}
use mathlib.Core.Path.{◌≡◌, refl, sym, ap, ◌∙◌}
use mathlib.Core.Logic.{◌≢◌}
use native.Mathlib.Nat.{le_refl, pow-succ'}
use native.Mathlib.Omega.{arith}

-- Digit `k` of `a`.
abbrev pub bit : ℕ → ℕ → ℕ
bit a zero = a % 2
bit a (suc k) = bit (a / 2) k

module _ (z : ℕ → ℕ) (f : ℕ → ℕ → ℕ) where
  no_digits : (fuel b : ℕ) → digits z f fuel 0 b ≡ z b
  no_digits zero b = refl
  no_digits (suc fuel) b = refl

  -- Any two amounts of fuel that reach the last digit give the same.
  enough_fuel :
      (a b fuel more : ℕ) → a ≤ fuel → a ≤ more → digits z f fuel a b ≡ digits z f more a b
  enough_fuel zero b fuel more lo hi = no_digits fuel b ∙ sym (no_digits more b)
  enough_fuel (suc a) b zero more lo hi = absurd (omega arith)
  enough_fuel (suc a) b (suc fuel) zero lo hi = absurd (omega arith)
  enough_fuel (suc a) b (suc fuel) (suc more) lo hi =
      let half = suc a / 2 in rw (enough_fuel half (b / 2) fuel more (omega arith) (omega arith))

  bitwise_digit :
      (n w : ℕ)
      → bitwise z f (suc n) w ≡ bitwise z f (suc n / 2) (w / 2) * 2 + f (suc n % 2) (w % 2)
  bitwise_digit n w =
      let half = suc n / 2 in
      omega (arith, enough_fuel half (w / 2) n half (omega arith) (le_refl _))

pub bit_or_digit : (a b : ℕ) → bit_or a b ≡ bit_or (a / 2) (b / 2) * 2 + max (a % 2) (b % 2)
bit_or_digit zero b = simp bit_or-bitwise (omega arith)
bit_or_digit (suc a) b = simp bit_or-bitwise (bitwise_digit (λ y. y) max a b)

pub bit_and_digit : (a b : ℕ) → bit_and a b ≡ bit_and (a / 2) (b / 2) * 2 + min (a % 2) (b % 2)
bit_and_digit zero b = simp bit_and-bitwise (omega arith)
bit_and_digit (suc a) b = simp bit_and-bitwise (bitwise_digit (λ y. 0) min a b)

pub bit-bit_or : (k a b : ℕ) → bit (bit_or a b) k ≡ max (bit a k) (bit b k)
bit-bit_or zero a b = omega (arith, bit_or_digit a b)
bit-bit_or (suc k) a b =
    ap (λ t. bit t k) (omega (arith, bit_or_digit a b)) ∙ bit-bit_or k (a / 2) (b / 2)

pub bit-bit_and : (k a b : ℕ) → bit (bit_and a b) k ≡ min (bit a k) (bit b k)
bit-bit_and zero a b = omega (arith, bit_and_digit a b)
bit-bit_and (suc k) a b =
    ap (λ t. bit t k) (omega (arith, bit_and_digit a b)) ∙ bit-bit_and k (a / 2) (b / 2)

pub bit-lt : (k a : ℕ) → bit a k < 2
bit-lt zero a = omega arith
bit-lt (suc k) a = bit-lt k (a / 2)

-- Equal digits make equal numbers.
bit_ext_fuel : (n a b : ℕ) → a ≤ n → b ≤ n → ((k : ℕ) → bit a k ≡ bit b k) → a ≡ b
bit_ext_fuel zero a b p q h = omega arith
bit_ext_fuel (suc n) zero zero p q h = refl
bit_ext_fuel (suc n) (suc a) zero p q h =
    omega (arith, h 0, bit_ext_fuel n (suc a / 2) 0 (omega arith) (omega arith) (λ k. h (suc k)))
bit_ext_fuel (suc n) zero (suc b) p q h =
    omega (arith, h 0, bit_ext_fuel n 0 (suc b / 2) (omega arith) (omega arith) (λ k. h (suc k)))
bit_ext_fuel (suc n) (suc a) (suc b) p q h = omega (
  arith,
  h 0,
  bit_ext_fuel n (suc a / 2) (suc b / 2) (omega arith) (omega arith) (λ k. h (suc k)),
)

pub bit_ext : (a b : ℕ) → ((k : ℕ) → bit a k ≡ bit b k) → a ≡ b
bit_ext a b h = bit_ext_fuel (a + b) a b (omega arith) (omega arith) h

pub bit-zero : (k : ℕ) → bit 0 k ≡ 0
bit-zero zero = refl
bit-zero (suc k) = bit-zero k

pub bit_and-zero : (a : ℕ) → bit_and a 0 ≡ 0
bit_and-zero a = bit_ext _ _ (λ k. omega (arith, bit-bit_and k a 0, bit-zero k))

-- `a & (1 << k)`.
pub bit_and-two_pow : (k a : ℕ) → bit_and a (2 ^ k) ≡ bit a k * 2 ^ k
bit_and-two_pow zero a = omega (arith, bit_and_digit a 1, bit_and-zero (a / 2))
bit_and-two_pow (suc k) a = omega (
  arith,
  pow-succ' 2 k,
  bit_and_digit a (2 ^ suc k),
  ap (λ t. bit_and (a / 2) t) (let e : 2 ^ suc k / 2 ≡ 2 ^ k = omega (arith, pow-succ' 2 k) in e),
  bit_and-two_pow k (a / 2),
  ap (λ (t : ℕ). bit (a / 2) k * t) (pow-succ' 2 k),
)

pub bit_or_comm : (a b : ℕ) → bit_or a b ≡ bit_or b a
bit_or_comm a b = bit_ext _ _ (λ k. omega (arith, bit-bit_or k a b, bit-bit_or k b a))

pub bit_or_assoc : (a b c : ℕ) → bit_or (bit_or a b) c ≡ bit_or a (bit_or b c)
bit_or_assoc a b c = bit_ext _ _ λ k. omega (
  arith,
  bit-bit_or k (bit_or a b) c,
  bit-bit_or k a b,
  bit-bit_or k a (bit_or b c),
  bit-bit_or k b c,
)

pub bit-two_pow_self : (k : ℕ) → bit (2 ^ k) k ≡ 1
bit-two_pow_self zero = refl
bit-two_pow_self (suc k) = ap (λ t. bit t k) (half_pow k) ∙ bit-two_pow_self k
  where
    half_pow : (n : ℕ) → 2 ^ suc n / 2 ≡ 2 ^ n
    half_pow n = omega (arith, pow-succ' 2 n)

pub bit-two_pow_ne : (j k : ℕ) → j ≢ k → bit (2 ^ j) k ≡ 0
bit-two_pow_ne zero zero ne = absurd (ne refl)
bit-two_pow_ne zero (suc k) ne = bit-zero k
bit-two_pow_ne (suc j) zero ne = omega (arith, pow-succ' 2 j)
bit-two_pow_ne (suc j) (suc k) ne =
    ap (λ t. bit t k) (half_pow j) ∙ bit-two_pow_ne j k (λ e. ne (ap suc e))
  where
    half_pow : (n : ℕ) → 2 ^ suc n / 2 ≡ 2 ^ n
    half_pow n = omega (arith, pow-succ' 2 n)

pub bit_or-zero : (a : ℕ) → bit_or a 0 ≡ a
bit_or-zero a = bit_ext _ _ (λ k. omega (arith, bit-bit_or k a 0, bit-zero k))

-- `|` of a number shifted left and one that fits below the shift.
pub bit_or_fields : (k q r : ℕ) → r < 2 ^ k → bit_or (q * 2 ^ k) r ≡ q * 2 ^ k + r
bit_or_fields zero q r fits =
    omega (arith, bit_or-zero (q * 2 ^ 0), ap (λ t. bit_or (q * 2 ^ 0) t) (zero_of r fits))
  where
    zero_of : (n : ℕ) → n < 2 ^ 0 → n ≡ 0
    zero_of n h = omega arith
bit_or_fields (suc k) q r fits =
    let twice : q * 2 ^ suc k ≡ 2 * (q * 2 ^ k) =
      omega (arith, ap (λ (t : ℕ). q * t) (pow-succ' 2 k)) in
    let half : q * 2 ^ suc k / 2 ≡ q * 2 ^ k = omega (arith, twice) in
    omega (
      arith,
      twice,
      pow-succ' 2 k,
      bit_or_digit (q * 2 ^ suc k) r,
      ap (λ t. bit_or t (r / 2)) half,
      bit_or_fields k q (r / 2) (omega (arith, pow-succ' 2 k)),
    )
