-- ===== src/Driver/Sanitize/Passes/Events.antt =====
-- What a pass of the sanitizer's hooks keeps, event by event (crates/fs-cli/src/main.rs).
use fuzzsoft.Base.{ℕ, ◌+◌, ◌^◌, ◌≤◌, ◌≡◌, refl, ◌∙◌, Bool, Option, none, some, length, arith}
use fuzzsoft.Mmu.{Mmu}
use fuzzsoft.San.Hooks.{
  HookEvent, alloc_event, free_event, PageHookEvent, page_alloc_event, page_free_event,
  CacheAllocEvent, cache_alloc_event, on_pc, on_page_pc, on_cache_alloc_pc, ksize_hit, PcHooks,
}
use fuzzsoft.San.Linux.{va_to_pa}
use fuzzsoft.Driver.Sanitize.{
  SanCtx, on_alloc, on_free, on_ksize, on_page_alloc, on_page_free, at_pa, on_event, on_ksize_hit,
  on_cache_event, on_page_event, kmalloc_block, ksize_block, cache_block, page_block, san_hooks,
  object_size,
}
use fuzzsoft.Driver.Sanitize.Passes.{
  SanKeeps, on_alloc-Keeps, on_free-Keeps, on_ksize-Keeps, on_cache_alloc-Keeps,
  on_page_alloc-Keeps, on_page_free-Keeps,
}

module _ (gold : Mmu) (fits : gold.base + length gold.mem ≤ 2 ^ 32) (start : ℕ)
    (rest : ℕ → Bool) where
  abbrev Keeps : SanCtx × Mmu → Type 0
  Keeps s = SanKeeps gold start rest s

  at_pa-Keeps :
      (o : Option ℕ) (ctx : SanCtx) (m : Mmu) (f : ℕ → SanCtx → Mmu → SanCtx × Mmu)
      → Keeps (ctx, m)
      → ((pa : ℕ) → Keeps (f pa ctx m))
      → Keeps (at_pa o ctx m f)
  at_pa-Keeps none ctx m f k h = k
  at_pa-Keeps (some pa) ctx m f k h = h pa

  -- Counters other than the bytes are no part of the invariant.
  abbrev SameCore : SanCtx → SanCtx → Type 0
  SameCore c d =
      (d.golden_perms ≡ c.golden_perms)
      × (d.ram_base ≡ c.ram_base)
      × (d.san ≡ c.san)
      × (c.bytes ≤ d.bytes)
      × (d.dirtied ≡ c.dirtied)

  SameCore-Keeps : (c d : SanCtx) (m : Mmu) → SameCore c d → Keeps (c, m) → Keeps (d, m)
  SameCore-Keeps c d m same k = record {
    golden = same.0 ∙ k.golden;
    base = same.1 ∙ k.base;
    tracked = rw (same.2) (k.tracked);
    grows = omega (arith, k.grows);
    dirtied = λ small. rw (same.4) (k.dirtied (omega arith));
  }

  on_event-Keeps :
      (ev : Option HookEvent) (ctx : SanCtx) (m : Mmu) → Keeps (ctx, m) → Keeps (on_event ev ctx m)
  unfolding on_event
  on_event-Keeps none ctx m k = k
  on_event-Keeps (some (alloc_event addr size)) ctx m k =
      let c = record ctx { allocs = ctx.allocs + 1; bytes = ctx.bytes + size } in
      let k' = SameCore-Keeps ctx c m (refl, refl, refl, omega arith, refl) k in
      at_pa-Keeps (va_to_pa ctx.lm addr) c m (λ pa. on_alloc pa size) k'
        λ pa. on_alloc-Keeps gold fits start rest pa size c m (omega (arith, k.grows)) k'
  on_event-Keeps (some (free_event addr)) ctx m k =
      let c = record ctx { frees = ctx.frees + 1 } in
      let k' = SameCore-Keeps ctx c m (refl, refl, refl, omega arith, refl) k in
      at_pa-Keeps (va_to_pa ctx.lm addr) c m on_free k'
        λ pa. on_free-Keeps gold fits start rest pa c m k'

  on_ksize_hit-Keeps :
      (hit : Option ℕ) (ctx : SanCtx) (m : Mmu) → Keeps (ctx, m) → Keeps (on_ksize_hit hit ctx m)
  unfolding on_ksize_hit
  on_ksize_hit-Keeps none ctx m k = k
  on_ksize_hit-Keeps (some va) ctx m k =
      at_pa-Keeps (va_to_pa ctx.lm va) ctx m on_ksize k
        λ pa. on_ksize-Keeps gold fits start rest pa ctx m k

  on_cache_event-Keeps :
      (ev : Option CacheAllocEvent) (ctx : SanCtx) (m : Mmu)
      → Keeps (ctx, m)
      → Keeps (on_cache_event ev ctx m)
  unfolding on_cache_event
  on_cache_event-Keeps none ctx m k = k
  on_cache_event-Keeps (some (cache_alloc_event addr cache_ptr)) ctx m k =
      at_pa-Keeps (va_to_pa ctx.lm addr) ctx m _ k λ pa.
        at_pa-Keeps (va_to_pa ctx.lm cache_ptr) ctx m _ k
          λ cache_pa. on_cache_alloc-Keeps gold fits start rest pa (object_size m cache_pa) ctx m k

  on_page_event-Keeps :
      (ev : Option PageHookEvent) (ctx : SanCtx) (m : Mmu)
      → Keeps (ctx, m)
      → Keeps (on_page_event ev ctx m)
  unfolding on_page_event
  on_page_event-Keeps none ctx m k = k
  on_page_event-Keeps (some (page_alloc_event addr order)) ctx m k =
      let c = record ctx { page_allocs = ctx.page_allocs + 1 } in
      let k' = SameCore-Keeps ctx c m (refl, refl, refl, omega arith, refl) k in
      at_pa-Keeps (va_to_pa ctx.lm addr) c m (λ pa. on_page_alloc pa order) k'
        λ pa. on_page_alloc-Keeps gold fits start rest pa order c m k'
  on_page_event-Keeps (some (page_free_event addr order)) ctx m k =
      let c = record ctx { page_frees = ctx.page_frees + 1 } in
      let k' = SameCore-Keeps ctx c m (refl, refl, refl, omega arith, refl) k in
      at_pa-Keeps (va_to_pa ctx.lm addr) c m (λ pa. on_page_free pa order) k'
        λ pa. on_page_free-Keeps gold fits start rest pa order c m k'

  with_hooks-Keeps :
      (hooks : PcHooks) (ctx : SanCtx) (m : Mmu)
      → Keeps (ctx, m)
      → Keeps (record ctx { hooks = hooks }, m)
  with_hooks-Keeps hooks ctx m k =
      SameCore-Keeps ctx (record ctx { hooks = hooks }) m (refl, refl, refl, omega arith, refl) k

  -- A pass of all four blocks.
  pub san_hooks-Keeps :
      (pc : ℕ) (regs : ℕ → ℕ) (ctx : SanCtx) (m : Mmu)
      → Keeps (ctx, m)
      → Keeps (san_hooks pc regs ctx m)
  unfolding san_hooks kmalloc_block ksize_block cache_block page_block
  san_hooks-Keeps pc regs ctx m k =
      let e1 = on_pc ctx.hooks pc regs in
      let s1 = on_event e1.0 (record ctx { hooks = e1.1 }) m in
      let k1 = on_event-Keeps e1.0 _ m (with_hooks-Keeps e1.1 ctx m k) in
      let s2 = on_ksize_hit (ksize_hit s1.0.hooks pc regs) s1.0 s1.1 in
      let k2 = on_ksize_hit-Keeps (ksize_hit s1.0.hooks pc regs) s1.0 s1.1 k1 in
      let e3 = on_cache_alloc_pc s2.0.hooks pc regs in
      let s3 = on_cache_event e3.0 (record s2.0 { hooks = e3.1 }) s2.1 in
      let k3 = on_cache_event-Keeps e3.0 _ s2.1 (with_hooks-Keeps e3.1 s2.0 s2.1 k2) in
      let e4 = on_page_pc s3.0.hooks pc regs in
      on_page_event-Keeps e4.0 _ s3.1 (with_hooks-Keeps e4.1 s3.0 s3.1 k3)
