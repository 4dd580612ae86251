-- ===== src/Perm/Laws.antt =====
-- What a store and a taint write do to each bit of a permission byte (crates/fs-mmu/src/lib.rs).
use fuzzsoft.Base.{ℕ, ◌^◌, ◌≡◌, ◌≢◌, Bool, true, false, arith, bit_and, bit_or, nonzero, ◌==◌}
use fuzzsoft.Base.Bits.{bit, bit_and-two_pow, bit-bit_or, bit-bit_and, bit-lt}
use fuzzsoft.Perm.{permits, stored_perm, with_vtaint, perm_read, perm_write, perm_raw, perm_vtaint}

permits_read_iff : (p : ℕ) → permits perm_read p ≡ (bit p 0 == 1)
permits_read_iff p = ground (arith, bit_and-two_pow 0 p, bit-lt 0 p)

permits_write_iff : (p : ℕ) → permits perm_write p ≡ (bit p 1 == 1)
permits_write_iff p = ground (arith, bit_and-two_pow 1 p, bit-lt 1 p)

permits_raw_iff : (p : ℕ) → permits perm_raw p ≡ (bit p 3 == 1)
permits_raw_iff p = ground (arith, bit_and-two_pow 3 p, bit-lt 3 p)

permits_vtaint_iff : (p : ℕ) → permits perm_vtaint p ≡ (bit p 5 == 1)
permits_vtaint_iff p = ground (arith, bit_and-two_pow 5 p, bit-lt 5 p)

bit-stored_perm :
    (k p : ℕ)
    → bit (stored_perm p) k ≡ fuzzsoft.Base.min (fuzzsoft.Base.max (bit p k) (bit 1 k)) (bit 247 k)
unfolding stored_perm
bit-stored_perm k p = omega (arith, bit-bit_and k (bit_or p 1) 247, bit-bit_or k p 1)

-- A stored byte can be read.
stored_perm_read : (p : ℕ) → permits perm_read (stored_perm p) ≡ true
stored_perm_read p =
    ground (arith, permits_read_iff (stored_perm p), bit-stored_perm 0 p, bit-lt 0 p)

-- A store leaves the write permission as it is.
stored_perm_write : (p : ℕ) → permits perm_write (stored_perm p) ≡ permits perm_write p
stored_perm_write p =
    ground (
      arith,
      permits_write_iff (stored_perm p),
      permits_write_iff p,
      bit-stored_perm 1 p,
      bit-lt 1 p,
    )

-- A stored byte is no longer uninitialised.
stored_perm_raw : (p : ℕ) → permits perm_raw (stored_perm p) ≡ false
stored_perm_raw p = ground (arith, permits_raw_iff (stored_perm p), bit-stored_perm 3 p, bit-lt 3 p)

-- A store keeps the taint bit.
stored_perm_vtaint : (p : ℕ) → permits perm_vtaint (stored_perm p) ≡ permits perm_vtaint p
stored_perm_vtaint p = ground (
  arith,
  permits_vtaint_iff (stored_perm p),
  permits_vtaint_iff p,
  bit-stored_perm 5 p,
  bit-lt 5 p,
)

-- A taint write sets the taint bit to what was asked for.
with_vtaint_vtaint : (t : Bool) (p : ℕ) → permits perm_vtaint (with_vtaint t p) ≡ t
unfolding with_vtaint
with_vtaint_vtaint true p =
    ground (arith, permits_vtaint_iff (bit_or p 32), bit-bit_or 5 p 32, bit-lt 5 p)
with_vtaint_vtaint false p =
    ground (arith, permits_vtaint_iff (bit_and p 223), bit-bit_and 5 p 223, bit-lt 5 p)

-- A taint write leaves read and write permission as they are.
with_vtaint_read : (t : Bool) (p : ℕ) → permits perm_read (with_vtaint t p) ≡ permits perm_read p
unfolding with_vtaint
with_vtaint_read true p =
    ground
      (arith, permits_read_iff (bit_or p 32), permits_read_iff p, bit-bit_or 0 p 32, bit-lt 0 p)
with_vtaint_read false p =
    ground
      (arith, permits_read_iff (bit_and p 223), permits_read_iff p, bit-bit_and 0 p 223, bit-lt 0 p)

with_vtaint_write : (t : Bool) (p : ℕ) → permits perm_write (with_vtaint t p) ≡ permits perm_write p
unfolding with_vtaint
with_vtaint_write true p =
    ground
      (arith, permits_write_iff (bit_or p 32), permits_write_iff p, bit-bit_or 1 p 32, bit-lt 1 p)
with_vtaint_write false p =
    ground (
      arith,
      permits_write_iff (bit_and p 223),
      permits_write_iff p,
      bit-bit_and 1 p 223,
      bit-lt 1 p,
    )

-- After a store a byte is readable and no longer uninitialised; its write permission and its taint
-- bit are those of before.
pub stored_perm_bits :
    (p : ℕ)
    → (permits perm_read (stored_perm p) ≡ true)
      × (permits perm_raw (stored_perm p) ≡ false)
      × (permits perm_write (stored_perm p) ≡ permits perm_write p)
      × (permits perm_vtaint (stored_perm p) ≡ permits perm_vtaint p)
stored_perm_bits p =
    (stored_perm_read p, stored_perm_raw p, stored_perm_write p, stored_perm_vtaint p)

-- A taint write sets the taint bit to what was asked for, and keeps read and write permission.
pub with_vtaint_bits :
    (t : Bool) (p : ℕ)
    → (permits perm_vtaint (with_vtaint t p) ≡ t)
      × (permits perm_read (with_vtaint t p) ≡ permits perm_read p)
      × (permits perm_write (with_vtaint t p) ≡ permits perm_write p)
with_vtaint_bits t p = (with_vtaint_vtaint t p, with_vtaint_read t p, with_vtaint_write t p)
