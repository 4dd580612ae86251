-- ===== src/Driver/Kmsan/Passes.antt =====
-- What a pass of the seeding hooks keeps: `KmsanCtx` in `run_case` (crates/fs-cli/src/main.rs).
use fuzzsoft.Base.{
  ℕ, ◌+◌, ◌^◌, ◌≤◌, ◌≡◌, refl, ◌∙◌, Bool, true, ◌||◌, Option, none, some, ok, err, length, arith,
}
use fuzzsoft.Fault.{Outcome}
use fuzzsoft.Mmu.{Mmu, set_vtaint}
use fuzzsoft.San.Hooks.{KmsanAllocEvent, sized, cache, on_kmsan_alloc_pc}
use fuzzsoft.San.Linux.{va_to_pa}
use fuzzsoft.Driver.Sanitize.{with_range, object_size}
use fuzzsoft.Driver.Sanitize.Ranges.{
  in_ranges, in_ranges-with_range, Dirtied, Dirtied-mono, set_vtaint-Dirtied,
}
use fuzzsoft.Driver.Sanitize.Calls.{if-keeps}
use fuzzsoft.Driver.Kmsan.{
  KmsanCtx, seeded, seed, zeroed, on_sized, has_ctor, on_cache, at_pa, on_event, kmsan_hooks,
}

-- Under a condition that the context does not touch, all permission changes are in recorded ranges
-- or accounted for by another context.
pub record KmsanKeeps (gold : Mmu) (Small : Type 0) (rest : ℕ → Bool) (s : KmsanCtx × Mmu)
    : Type 0 where
  pub golden : s.0.golden_perms ≡ gold.perms
  pub base : s.0.ram_base ≡ gold.base
  pub dirtied : Small → Dirtied gold (λ j. rest j || in_ranges gold s.0.dirtied j) s.1

module _ (gold : Mmu) (fits : gold.base + length gold.mem ≤ 2 ^ 32) (Small : Type 0)
    (rest : ℕ → Bool) where
  abbrev Keeps : KmsanCtx × Mmu → Type 0
  Keeps s = KmsanKeeps gold Small rest s

  seeded-Keeps :
      (ctx : KmsanCtx) (size : ℕ) (o : Outcome Mmu (Unit {0}))
      → Keeps (ctx, o.1)
      → Keeps (seeded ctx size o)
  unfolding seeded
  seeded-Keeps ctx size (ok u, m) k = record {
    golden = k.golden;
    base = k.base;
    dirtied = k.dirtied;
  }
  seeded-Keeps ctx size (err f, m) k = k

  seed-Keeps :
      (pa size : ℕ) (ctx : KmsanCtx) (m : Mmu) → Keeps (ctx, m) → Keeps (seed pa size ctx m)
  unfolding seed
  seed-Keeps pa size ctx m k =
      let ranges = with_range pa size ctx.dirtied in
      let more = λ (j : ℕ). rest j || in_ranges gold ranges j in
      seeded-Keeps (record ctx { dirtied = ranges }) size (set_vtaint m pa size true)
        (record {
          golden = k.golden;
          base = k.base;
          dirtied = λ small.
              set_vtaint-Dirtied gold more m pa size fits
                (λ j inside h. ground (arith, in_ranges-with_range gold ctx.dirtied pa size j, h))
                (Dirtied-mono gold (λ j. rest j || in_ranges gold ctx.dirtied j) more m
                  (λ j h. ground (arith, in_ranges-with_range gold ctx.dirtied pa size j, h))
                  (k.dirtied small))
                true;
        })

  -- The counters are no part of the invariant.
  SameCore-Keeps :
      (c d : KmsanCtx) (m : Mmu)
      → (d.golden_perms ≡ c.golden_perms) × (d.ram_base ≡ c.ram_base) × (d.dirtied ≡ c.dirtied)
      → Keeps (c, m)
      → Keeps (d, m)
  SameCore-Keeps c d m same k = record {
    golden = same.0 ∙ k.golden;
    base = same.1 ∙ k.base;
    dirtied = rw (same.2) (k.dirtied);
  }

  on_sized-Keeps :
      (pa size gfp_flags : ℕ) (ctx : KmsanCtx) (m : Mmu)
      → Keeps (ctx, m)
      → Keeps (on_sized pa size gfp_flags ctx m)
  unfolding on_sized
  on_sized-Keeps pa size gfp_flags ctx m k =
      if-keeps Keeps (zeroed gfp_flags) _ _ (SameCore-Keeps ctx _ m (refl, refl, refl) k)
        (seed-Keeps pa size ctx m k)

  on_cache-Keeps :
      (pa cache_pa gfp_flags : ℕ) (size : Option ℕ) (ctx : KmsanCtx) (m : Mmu)
      → Keeps (ctx, m)
      → Keeps (on_cache pa cache_pa gfp_flags size ctx m)
  unfolding on_cache
  on_cache-Keeps pa cache_pa gfp_flags none ctx m k = SameCore-Keeps ctx _ m (refl, refl, refl) k
  on_cache-Keeps pa cache_pa gfp_flags (some size) ctx m k =
      if-keeps Keeps (zeroed gfp_flags) _ _ (SameCore-Keeps ctx _ m (refl, refl, refl) k) (
        if-keeps Keeps (has_ctor m cache_pa) _ _ (SameCore-Keeps ctx _ m (refl, refl, refl) k)
          (seed-Keeps pa size ctx m k))

  at_pa-Keeps :
      (o : Option ℕ) (ctx : KmsanCtx) (m : Mmu) (f : ℕ → KmsanCtx × Mmu)
      → Keeps (ctx, m)
      → ((pa : ℕ) → Keeps (f pa))
      → Keeps (at_pa o ctx m f)
  at_pa-Keeps none ctx m f k h = k
  at_pa-Keeps (some pa) ctx m f k h = h pa

  on_event-Keeps :
      (ev : Option KmsanAllocEvent) (ctx : KmsanCtx) (m : Mmu)
      → Keeps (ctx, m)
      → Keeps (on_event ev ctx m)
  unfolding on_event
  on_event-Keeps none ctx m k = k
  on_event-Keeps (some (sized addr size gfp_flags)) ctx m k =
      at_pa-Keeps (va_to_pa ctx.lm addr) ctx m _ k λ pa. on_sized-Keeps pa size gfp_flags ctx m k
  on_event-Keeps (some (cache addr cache_ptr gfp_flags)) ctx m k =
      at_pa-Keeps (va_to_pa ctx.lm addr) ctx m _ k λ pa.
        at_pa-Keeps (va_to_pa ctx.lm cache_ptr) ctx m _ k
          λ cache_pa. on_cache-Keeps pa cache_pa gfp_flags (object_size m cache_pa) ctx m k

  pub kmsan_hooks-Keeps :
      (pc : ℕ) (regs : ℕ → ℕ) (ctx : KmsanCtx) (m : Mmu)
      → Keeps (ctx, m)
      → Keeps (kmsan_hooks pc regs ctx m)
  unfolding kmsan_hooks
  kmsan_hooks-Keeps pc regs ctx m k =
      let e = on_kmsan_alloc_pc ctx.hooks pc regs in
      on_event-Keeps e.0 _ m
        (SameCore-Keeps ctx (record ctx { hooks = e.1 }) m (refl, refl, refl) k)
