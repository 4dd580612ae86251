-- ===== src/Driver/Kmsan.antt =====
-- The seeding of uninitialised memory: `KmsanCtx` and its block of `run_case`
-- (crates/fs-cli/src/main.rs).
pub mod Passes
use fuzzsoft.Base.{
  ℕ, ◌+◌, Bool, true, false, Option, none, some, List, [], Result, ok, err, nonzero, bit_and, leb,
  if◌then◌else◌,
}
use fuzzsoft.Fault.{Fault, Outcome, u32}
use fuzzsoft.Mmu.{Mmu, set_vtaint}
use fuzzsoft.Mmu.Bytes.{read_word}
use fuzzsoft.San.Hooks.{PcHooks, KmsanAllocEvent, sized, cache, on_kmsan_alloc_pc}
use fuzzsoft.San.Linux.{LinearMap, va_to_pa, kmem_cache_ctor_offset, gfp_zero, page_offset}
use fuzzsoft.Driver.Sanitize.{with_range, restore_ranges, object_size}

pub record KmsanCtx : Type 0 where
  pub hooks : PcHooks
  pub lm : LinearMap
  pub golden_perms : List ℕ
  pub ram_base : ℕ
  pub dirtied : List (ℕ × ℕ)
  pub tainted_allocs : ℕ
  pub tainted_bytes : ℕ
  pub zeroed_skipped : ℕ
  pub cache_size_unavailable : ℕ
  pub ctor_skipped : ℕ

unfoldable pub restore_tainted_perms : KmsanCtx → Mmu → KmsanCtx × Mmu
restore_tainted_perms ctx m =
    (record ctx { dirtied = [] }, restore_ranges ctx.golden_perms ctx.ram_base ctx.dirtied m)

-- A seeding that fails halfway is listed all the same, and is not counted.
unfoldable pub seeded : KmsanCtx → ℕ → Outcome Mmu (Unit {0}) → KmsanCtx × Mmu
seeded ctx size (ok u, m) = (
  record ctx { tainted_allocs = ctx.tainted_allocs + 1; tainted_bytes = ctx.tainted_bytes + size },
  m,
)
seeded ctx size (err f, m) = (ctx, m)

unfoldable pub seed : ℕ → ℕ → KmsanCtx → Mmu → KmsanCtx × Mmu
unfolding seeded
seed pa size ctx m =
    seeded (record ctx { dirtied = with_range pa size ctx.dirtied }) size
      (set_vtaint m pa size true)

abbrev pub zeroed : ℕ → Bool
zeroed gfp_flags = nonzero (bit_and gfp_flags gfp_zero)

unfoldable pub on_sized : ℕ → ℕ → ℕ → KmsanCtx → Mmu → KmsanCtx × Mmu
unfolding seed
on_sized pa size gfp_flags ctx m =
    if zeroed gfp_flags
    then (record ctx { zeroed_skipped = ctx.zeroed_skipped + 1 }, m)
    else seed pa size ctx m

-- `map(|ctor| ctor >= PAGE_OFFSET).unwrap_or(false)`.
abbrev pub points_into_kernel : Result ℕ Fault → Bool
points_into_kernel (ok ctor) = leb page_offset ctor
points_into_kernel (err f) = false

unfoldable pub has_ctor : Mmu → ℕ → Bool
has_ctor m cache_pa = points_into_kernel (read_word m (u32 (cache_pa + kmem_cache_ctor_offset)) 4)

unfoldable pub on_cache : ℕ → ℕ → ℕ → Option ℕ → KmsanCtx → Mmu → KmsanCtx × Mmu
unfolding seed has_ctor
on_cache pa cache_pa gfp_flags none ctx m =
    (record ctx { cache_size_unavailable = ctx.cache_size_unavailable + 1 }, m)
on_cache pa cache_pa gfp_flags (some size) ctx m =
    if zeroed gfp_flags
    then (record ctx { zeroed_skipped = ctx.zeroed_skipped + 1 }, m)
    else if has_ctor m cache_pa
    then (record ctx { ctor_skipped = ctx.ctor_skipped + 1 }, m)
    else seed pa size ctx m

abbrev pub at_pa : Option ℕ → KmsanCtx → Mmu → (ℕ → KmsanCtx × Mmu) → KmsanCtx × Mmu
at_pa none ctx m f = (ctx, m)
at_pa (some pa) ctx m f = f pa

unfoldable pub on_event : Option KmsanAllocEvent → KmsanCtx → Mmu → KmsanCtx × Mmu
unfolding on_sized on_cache
on_event none ctx m = (ctx, m)
on_event (some (sized addr size gfp_flags)) ctx m =
    at_pa (va_to_pa ctx.lm addr) ctx m (λ pa. on_sized pa size gfp_flags ctx m)
on_event (some (cache addr cache_ptr gfp_flags)) ctx m = at_pa (va_to_pa ctx.lm addr) ctx m (λ pa.
    at_pa (va_to_pa ctx.lm cache_ptr) ctx m
      (λ cache_pa. on_cache pa cache_pa gfp_flags (object_size m cache_pa) ctx m))

unfoldable pub kmsan_hooks : ℕ → (ℕ → ℕ) → KmsanCtx → Mmu → KmsanCtx × Mmu
unfolding on_event
kmsan_hooks pc regs ctx m =
    let (event, hooks) = on_kmsan_alloc_pc ctx.hooks pc regs in
    on_event event (record ctx { hooks = hooks }) m
