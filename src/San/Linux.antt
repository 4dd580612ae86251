-- ===== src/San/Linux.antt =====
-- What the sanitizer knows of the kernel: `LinearMap` and `kmalloc_bucket`
-- (crates/fs-san/src/linux.rs).
use native.Mathlib.Nat.{pow-succ'}
use fuzzsoft.Base.{
  ℕ, zero, suc, ◌+◌, ◌-◌, ◌*◌, ◌^◌, ◌≤◌, ◌≡◌, arith, ◌&&◌, Option, none, some, List, [], ◌∷◌, ltb,
  leb, if◌then◌else◌,
}
use fuzzsoft.Fault.{u32}

abbrev pub page_offset : ℕ
page_offset = 0xc0000000

pub record LinearMap : Type 0 where
  pub va_pa_offset : ℕ
  pub pa_lo : ℕ
  pub pa_hi : ℕ

unfoldable pub new : ℕ → ℕ → ℕ → LinearMap
new kernel_load_pa ram_base ram_size = record {
  va_pa_offset = u32 (page_offset + 2 ^ 32 - kernel_load_pa);
  pa_lo = ram_base;
  pa_hi = u32 (ram_base + ram_size);
}

unfoldable pub va_to_pa : LinearMap → ℕ → Option ℕ
va_to_pa lm va =
    if ltb va page_offset
    then none
    else let pa = u32 (va + 2 ^ 32 - lm.va_pa_offset) in
      if leb lm.pa_lo pa && ltb pa lm.pa_hi then some pa else none

abbrev pub kmem_cache_object_size_offset : ℕ
kmem_cache_object_size_offset = 16

abbrev pub kmem_cache_object_size_max : ℕ
kmem_cache_object_size_max = 0x00100000

abbrev pub kmem_cache_ctor_offset : ℕ
kmem_cache_ctor_offset = 52

abbrev pub gfp_zero : ℕ
gfp_zero = 0x100

-- `next_power_of_two` of a build that does not check overflow: 0 above 2 ^ 31.
unfoldable pub next_power_from : ℕ → ℕ → ℕ → ℕ
next_power_from size zero p = 0
next_power_from size (suc n) p = if leb size p then p else next_power_from size n (p * 2)

unfoldable pub next_power_of_two : ℕ → ℕ
unfolding next_power_from
next_power_of_two size = next_power_from size 32 1

abbrev pub buckets : List ℕ
buckets = 8 ∷ 16 ∷ 32 ∷ 64 ∷ 96 ∷ 128 ∷ 192 ∷ 256 ∷ 512 ∷ 1024 ∷ 2048 ∷ 4096 ∷ 8192 ∷ []

unfoldable pub bucket_from : List ℕ → ℕ → ℕ
bucket_from [] size = next_power_of_two size
bucket_from (b ∷ bs) size = if leb size b then b else bucket_from bs size

unfoldable pub kmalloc_bucket : ℕ → ℕ
unfolding bucket_from
kmalloc_bucket size = bucket_from buckets size

-- A power of two that 32 bits can hold is found.
next_power_from-le : (n size p : ℕ) → size ≤ p * 2 ^ n → size ≤ next_power_from size (suc n) p
unfolding next_power_from
next_power_from-le zero size p h = ground (arith, h)
next_power_from-le (suc n) size p h =
    let double : p * 2 ^ suc n ≡ p * 2 * 2 ^ n = grind (arith, pow-succ') in
    ground (arith, next_power_from-le n size (p * 2) (omega (arith, h, double)))

bucket_from-le : (bs : List ℕ) (size : ℕ) → size ≤ 2 ^ 31 → size ≤ bucket_from bs size
unfolding bucket_from next_power_of_two
bucket_from-le [] size h = next_power_from-le 31 size 1 (omega arith)
bucket_from-le (b ∷ bs) size h = ground (arith, bucket_from-le bs size h)

-- The bucket of a request holds it, up to the largest power of two of 32 bits.
pub kmalloc_bucket-le : (size : ℕ) → size ≤ 2 ^ 31 → size ≤ kmalloc_bucket size
unfolding kmalloc_bucket
kmalloc_bucket-le size h = bucket_from-le buckets size h
