-- ===== src/Driver/Sanitize.antt =====
-- The sanitizer in a fuzz case: `SanCtx` and the blocks of `run_case` that use it
-- (crates/fs-cli/src/main.rs). What the hooks do before each step is a function of the pc, of the
-- register file, of the context and of the RAM.
pub mod Ranges
pub mod Calls
pub mod Passes
use fuzzsoft.Base.{
  ℕ, zero, suc, ◌+◌, ◌-◌, ◌&&◌, Option, none, some, List, [], ◌∷◌, ◌++◌, Result, ok, err, length,
  get_or, ltb, leb, if◌then◌else◌,
}
use fuzzsoft.Fault.{Fault, u32}
use fuzzsoft.Mmu.{Mmu, protect}
use fuzzsoft.Mmu.Bytes.{read_word}
use fuzzsoft.San.{Done}
use fuzzsoft.San.Alloc.{
  Sanitizer, alloc_with_slack, alloc_exact_no_uaf_guard, reopen_slack, free, live_size,
}
use fuzzsoft.San.Pages.{PageSanitizer, alloc_pages, free_pages, page_range_len}
use fuzzsoft.San.Hooks.{
  PcHooks, HookEvent, alloc_event, free_event, PageHookEvent, page_alloc_event, page_free_event,
  CacheAllocEvent, cache_alloc_event, on_pc, on_page_pc, on_cache_alloc_pc, ksize_hit,
}
use fuzzsoft.San.Linux.{
  LinearMap, va_to_pa, kmalloc_bucket, kmem_cache_object_size_offset, kmem_cache_object_size_max,
}

pub record SanCtx : Type 0 where
  pub hooks : PcHooks
  pub san : Sanitizer
  pub page_san : PageSanitizer
  pub lm : LinearMap
  pub golden_perms : List ℕ
  pub ram_base : ℕ
  pub dirtied : List (ℕ × ℕ)
  pub allocs : ℕ
  pub frees : ℕ
  pub bytes : ℕ
  pub page_allocs : ℕ
  pub page_frees : ℕ
  pub san_errors : ℕ
  pub cache_allocs : ℕ
  pub cache_bytes : ℕ
  pub cache_alloc_size_unavailable : ℕ

-- An empty range is not listed.
unfoldable pub with_range : ℕ → ℕ → List (ℕ × ℕ) → List (ℕ × ℕ)
with_range addr len dirtied = if ltb 0 len then dirtied ++ ((addr, len) ∷ []) else dirtied

abbrev pub mark_dirtied : ℕ → ℕ → SanCtx → SanCtx
mark_dirtied addr len ctx = record ctx { dirtied = with_range addr len ctx.dirtied }

-- The bytes `i .. i + n` of a range, as `restore_dirtied_perms` puts them back.
unfoldable pub restore_range : List ℕ → ℕ → ℕ → ℕ → ℕ → Mmu → Mmu
restore_range golden_perms ram_base addr i zero m = m
restore_range golden_perms ram_base addr i (suc n) m =
    let a = u32 (addr + i) in
    restore_range golden_perms ram_base addr (i + 1) n (
      if leb ram_base a && ltb (a - ram_base) (length golden_perms)
      then (protect m a 1 (get_or golden_perms (a - ram_base) 0)).1
      else m)

unfoldable pub restore_ranges : List ℕ → ℕ → List (ℕ × ℕ) → Mmu → Mmu
unfolding restore_range
restore_ranges golden_perms ram_base [] m = m
restore_ranges golden_perms ram_base ((addr, len) ∷ ranges) m =
    restore_ranges golden_perms ram_base ranges (restore_range golden_perms ram_base addr 0 len m)

unfoldable pub restore_dirtied_perms : SanCtx → Mmu → SanCtx × Mmu
unfolding restore_ranges
restore_dirtied_perms ctx m =
    (record ctx { dirtied = [] }, restore_ranges ctx.golden_perms ctx.ram_base ctx.dirtied m)

-- `if r.is_err() { ctx.san_errors += 1 }`.
abbrev pub errors_after : {A E : Type 0} → Result A E → ℕ → ℕ
errors_after (ok a) n = n
errors_after (err e) n = n + 1

-- A call of the byte sanitizer that is allowed to drop the uninitialised-read oracle where it
-- succeeds: `len` bytes from `pa` are then readable.
unfoldable pub opened : SanCtx → ℕ → ℕ → Done Sanitizer → SanCtx × Mmu
opened ctx pa len (ok u, (san, m)) = (record ctx { san = san }, (protect m pa len 3).1)
opened ctx pa len (err e, (san, m)) = (record ctx { san = san; san_errors = ctx.san_errors + 1 }, m)

abbrev pub counted : SanCtx → Done Sanitizer → SanCtx × Mmu
counted ctx (r, (san, m)) =
    (record ctx { san = san; san_errors = errors_after r ctx.san_errors }, m)

abbrev pub counted_pages : SanCtx → Done PageSanitizer → SanCtx × Mmu
counted_pages ctx (r, (page_san, m)) =
    (record ctx { page_san = page_san; san_errors = errors_after r ctx.san_errors }, m)

-- `if let Some(len) = len { ctx.mark_dirtied(pa, len) }`.
abbrev pub mark_known : ℕ → Option ℕ → SanCtx → SanCtx
mark_known pa none ctx = ctx
mark_known pa (some len) ctx = mark_dirtied pa len ctx

-- The four blocks of `run_case`, each once its event and its physical address are known.
unfoldable pub on_alloc : ℕ → ℕ → SanCtx → Mmu → SanCtx × Mmu
unfolding opened
on_alloc pa size ctx m =
    let bucket = kmalloc_bucket size in
    opened (mark_dirtied pa bucket ctx) pa size (alloc_with_slack ctx.san m pa size bucket)

unfoldable pub on_free : ℕ → SanCtx → Mmu → SanCtx × Mmu
on_free pa ctx m = counted (mark_known pa (live_size ctx.san pa) ctx) (free ctx.san m pa)

-- The bucket that `ksize` opens is the live size, which the call does not change.
unfoldable pub open_bucket : SanCtx → ℕ → Option ℕ → Done Sanitizer → SanCtx × Mmu
unfolding opened
open_bucket ctx pa (some bucket) d = opened ctx pa bucket d
open_bucket ctx pa none d = counted ctx d

unfoldable pub on_ksize : ℕ → SanCtx → Mmu → SanCtx × Mmu
unfolding open_bucket
on_ksize pa ctx m =
    let d = reopen_slack ctx.san m pa in
    open_bucket (mark_known pa (live_size ctx.san pa) ctx) pa (live_size d.1.0 pa) d

-- The size that the kernel's cache descriptor names, where it is plausible.
abbrev pub plausible_size : Result ℕ Fault → Option ℕ
plausible_size (ok n) = if ltb 0 n && ltb n kmem_cache_object_size_max then some n else none
plausible_size (err f) = none

unfoldable pub object_size : Mmu → ℕ → Option ℕ
object_size m cache_pa =
    plausible_size (read_word m (u32 (cache_pa + kmem_cache_object_size_offset)) 4)

unfoldable pub on_cache_alloc : ℕ → Option ℕ → SanCtx → Mmu → SanCtx × Mmu
unfolding opened
on_cache_alloc pa none ctx m =
    (record ctx { cache_alloc_size_unavailable = ctx.cache_alloc_size_unavailable + 1 }, m)
on_cache_alloc pa (some size) ctx m =
    opened
      (mark_dirtied pa size
        (record ctx { cache_allocs = ctx.cache_allocs + 1; cache_bytes = ctx.cache_bytes + size }))
      pa size (alloc_exact_no_uaf_guard ctx.san m pa size)

unfoldable pub on_page_alloc : ℕ → ℕ → SanCtx → Mmu → SanCtx × Mmu
on_page_alloc pa order ctx m =
    counted_pages (mark_known pa (page_range_len order) ctx) (alloc_pages ctx.page_san m pa order)

unfoldable pub on_page_free : ℕ → ℕ → SanCtx → Mmu → SanCtx × Mmu
on_page_free pa order ctx m =
    counted_pages (mark_known pa (page_range_len order) ctx) (free_pages ctx.page_san m pa order)

-- `if let Some(pa) = ctx.lm.va_to_pa(va)`.
abbrev pub at_pa : Option ℕ → SanCtx → Mmu → (ℕ → SanCtx → Mmu → SanCtx × Mmu) → SanCtx × Mmu
at_pa none ctx m f = (ctx, m)
at_pa (some pa) ctx m f = f pa ctx m

unfoldable pub on_event : Option HookEvent → SanCtx → Mmu → SanCtx × Mmu
unfolding on_alloc on_free
on_event none ctx m = (ctx, m)
on_event (some (alloc_event addr size)) ctx m =
    at_pa (va_to_pa ctx.lm addr) (record ctx { allocs = ctx.allocs + 1; bytes = ctx.bytes + size })
      m (λ pa. on_alloc pa size)
on_event (some (free_event addr)) ctx m =
    at_pa (va_to_pa ctx.lm addr) (record ctx { frees = ctx.frees + 1 }) m on_free

unfoldable pub on_ksize_hit : Option ℕ → SanCtx → Mmu → SanCtx × Mmu
unfolding on_ksize
on_ksize_hit none ctx m = (ctx, m)
on_ksize_hit (some va) ctx m = at_pa (va_to_pa ctx.lm va) ctx m on_ksize

unfoldable pub on_cache_event : Option CacheAllocEvent → SanCtx → Mmu → SanCtx × Mmu
unfolding on_cache_alloc object_size
on_cache_event none ctx m = (ctx, m)
on_cache_event (some (cache_alloc_event addr cache_ptr)) ctx m =
    at_pa (va_to_pa ctx.lm addr) ctx m (λ pa c n.
      at_pa (va_to_pa ctx.lm cache_ptr) c n
        (λ cache_pa d k. on_cache_alloc pa (object_size k cache_pa) d k))

unfoldable pub on_page_event : Option PageHookEvent → SanCtx → Mmu → SanCtx × Mmu
unfolding on_page_alloc on_page_free
on_page_event none ctx m = (ctx, m)
on_page_event (some (page_alloc_event addr order)) ctx m =
    at_pa (va_to_pa ctx.lm addr) (record ctx { page_allocs = ctx.page_allocs + 1 }) m
      (λ pa. on_page_alloc pa order)
on_page_event (some (page_free_event addr order)) ctx m =
    at_pa (va_to_pa ctx.lm addr) (record ctx { page_frees = ctx.page_frees + 1 }) m
      (λ pa. on_page_free pa order)

-- The four queries, in their order.
unfoldable pub kmalloc_block : ℕ → (ℕ → ℕ) → SanCtx → Mmu → SanCtx × Mmu
unfolding on_event
kmalloc_block pc regs ctx m =
    let (event, hooks) = on_pc ctx.hooks pc regs in on_event event (record ctx { hooks = hooks }) m

unfoldable pub ksize_block : ℕ → (ℕ → ℕ) → SanCtx → Mmu → SanCtx × Mmu
unfolding on_ksize_hit
ksize_block pc regs ctx m = on_ksize_hit (ksize_hit ctx.hooks pc regs) ctx m

unfoldable pub cache_block : ℕ → (ℕ → ℕ) → SanCtx → Mmu → SanCtx × Mmu
unfolding on_cache_event
cache_block pc regs ctx m =
    let (event, hooks) = on_cache_alloc_pc ctx.hooks pc regs in
    on_cache_event event (record ctx { hooks = hooks }) m

unfoldable pub page_block : ℕ → (ℕ → ℕ) → SanCtx → Mmu → SanCtx × Mmu
unfolding on_page_event
page_block pc regs ctx m =
    let (event, hooks) = on_page_pc ctx.hooks pc regs in
    on_page_event event (record ctx { hooks = hooks }) m

unfoldable pub san_hooks : ℕ → (ℕ → ℕ) → SanCtx → Mmu → SanCtx × Mmu
unfolding kmalloc_block ksize_block cache_block page_block
san_hooks pc regs ctx m =
    let (ctx1, m1) = kmalloc_block pc regs ctx m in
    let (ctx2, m2) = ksize_block pc regs ctx1 m1 in
    let (ctx3, m3) = cache_block pc regs ctx2 m2 in page_block pc regs ctx3 m3
