-- ===== src/Driver/Sanitize/Passes.antt =====
-- What the blocks of the sanitizer's hooks keep: `SanCtx` in `run_case` (crates/fs-cli/src/main.rs).
pub mod Events
use fuzzsoft.Base.{
  ℕ, ◌+◌, ◌-◌, ◌^◌, ◌≤◌, max, ◌≡◌, refl, Bool, ◌||◌, Option, none, some, List, ok, err, length,
  arith,
}
use fuzzsoft.Mmu.{Mmu}
use fuzzsoft.San.{Done}
use fuzzsoft.San.Alloc.{
  Sanitizer, LiveAlloc, live_size, size_of, alloc_with_slack, alloc_exact_no_uaf_guard,
  reopen_slack, free,
}
use fuzzsoft.San.Alloc.Laws.{
  Tracked, alloc_with_slack-Tracked, alloc_exact_no_uaf_guard-Tracked, reopen_slack_same,
  free-Tracked,
}
use fuzzsoft.San.Pages.{PageSanitizer, alloc_pages, free_pages, page_range_len}
use fuzzsoft.San.Linux.{kmalloc_bucket, kmalloc_bucket-le}
use fuzzsoft.Driver.Sanitize.{
  SanCtx, with_range, mark_dirtied, mark_known, opened, counted, counted_pages, on_alloc, on_free,
  on_ksize, open_bucket, on_cache_alloc, on_page_alloc, on_page_free,
}
use fuzzsoft.Driver.Sanitize.Ranges.{
  in_ranges, in_ranges-with_range, Dirtied, Dirtied-mono, Excused, protect-Dirtied,
}
use fuzzsoft.Driver.Sanitize.Calls.{
  Kept, alloc_with_slack-Dirtied, alloc_exact_no_uaf_guard-Dirtied, reopen_slack-Dirtied,
  free-Dirtied, alloc_pages-Dirtied, free_pages-Dirtied, MayChange, RangeMayChange,
}

-- The permissions that may differ: those of the ranges, and those that another context accounts for.
abbrev pub excuses : Mmu → List (ℕ × ℕ) → (ℕ → Bool) → ℕ → Bool
excuses gold ranges rest j = in_ranges gold ranges j || rest j

-- Since the case began, at `start` bytes: while no more than 2 ^ 31 bytes have been allocated, all
-- permission changes are in recorded ranges.
pub record SanKeeps (gold : Mmu) (start : ℕ) (rest : ℕ → Bool) (s : SanCtx × Mmu) : Type 0 where
  pub golden : s.0.golden_perms ≡ gold.perms
  pub base : s.0.ram_base ≡ gold.base
  pub tracked : Tracked s.0.san
  pub grows : start ≤ s.0.bytes
  pub dirtied : s.0.bytes ≤ start + 2 ^ 31 → Dirtied gold (excuses gold s.0.dirtied rest) s.1

module _ (gold : Mmu) (fits : gold.base + length gold.mem ≤ 2 ^ 32) (start : ℕ)
    (rest : ℕ → Bool) where
  abbrev Keeps : SanCtx × Mmu → Type 0
  Keeps s = SanKeeps gold start rest s

  abbrev may_at : SanCtx → ℕ → Bool
  may_at ctx j = excuses gold ctx.dirtied rest j

  -- A range that has just been recorded.
  Excused-marked :
      (ranges : List (ℕ × ℕ)) (pa len : ℕ)
      → Excused gold (excuses gold (with_range pa len ranges) rest) pa len
  Excused-marked ranges pa len j inside h =
      ground (arith, in_ranges-with_range gold ranges pa len j, h)

  mark_dirtied-Keeps :
      (pa len : ℕ) (ctx : SanCtx) (m : Mmu) → Keeps (ctx, m) → Keeps (mark_dirtied pa len ctx, m)
  mark_dirtied-Keeps pa len ctx m k = record {
    golden = k.golden;
    base = k.base;
    tracked = k.tracked;
    grows = k.grows;
    dirtied = λ small.
        Dirtied-mono gold (may_at ctx) (excuses gold (with_range pa len ctx.dirtied) rest) m
          (λ j h. ground (arith, in_ranges-with_range gold ctx.dirtied pa len j, h))
          (k.dirtied small);
  }

  -- A call of the sanitizer that changes excused permissions only.
  opened-Keeps :
      (ctx : SanCtx) (m : Mmu) (pa len : ℕ) (d : Done Sanitizer)
      → Keeps (ctx, m)
      → Tracked d.1.0
      → (ctx.bytes ≤ start + 2 ^ 31 → Kept gold (may_at ctx) d × Excused gold (may_at ctx) pa len)
      → Keeps (opened ctx pa len d)
  unfolding opened
  opened-Keeps ctx m pa len (ok u, (san, m1)) k t h = record {
    golden = k.golden;
    base = k.base;
    tracked = t;
    grows = k.grows;
    dirtied = λ small.
        let (kept, may) = h small in
        protect-Dirtied gold (may_at ctx) m1 pa len fits may kept.memory 3;
  }
  opened-Keeps ctx m pa len (err f, (san, m1)) k t h = record {
    golden = k.golden;
    base = k.base;
    tracked = t;
    grows = k.grows;
    dirtied = λ small. (h small).0.memory;
  }

  counted-Keeps :
      (ctx : SanCtx) (m : Mmu) (d : Done Sanitizer)
      → Keeps (ctx, m)
      → Tracked d.1.0
      → (ctx.bytes ≤ start + 2 ^ 31 → Kept gold (may_at ctx) d)
      → Keeps (counted ctx d)
  counted-Keeps ctx m d k t h = record {
    golden = k.golden;
    base = k.base;
    tracked = t;
    grows = k.grows;
    dirtied = λ small. (h small).memory;
  }

  counted_pages-Keeps :
      (ctx : SanCtx) (m : Mmu) (d : Done PageSanitizer)
      → Keeps (ctx, m)
      → (ctx.bytes ≤ start + 2 ^ 31 → Kept gold (may_at ctx) d)
      → Keeps (counted_pages ctx d)
  counted_pages-Keeps ctx m d k h = record {
    golden = k.golden;
    base = k.base;
    tracked = k.tracked;
    grows = k.grows;
    dirtied = λ small. (h small).memory;
  }

  pub on_alloc-Keeps :
      (pa size : ℕ) (ctx : SanCtx) (m : Mmu)
      → start + size ≤ ctx.bytes
      → Keeps (ctx, m)
      → Keeps (on_alloc pa size ctx m)
  unfolding on_alloc
  on_alloc-Keeps pa size ctx m counts k =
      let bucket = kmalloc_bucket size in
      let marked = mark_dirtied pa bucket ctx in
      let may = Excused-marked ctx.dirtied pa bucket in
      opened-Keeps marked m pa size (alloc_with_slack ctx.san m pa size bucket)
        (mark_dirtied-Keeps pa bucket ctx m k)
        (alloc_with_slack-Tracked ctx.san m pa size bucket k.tracked)
        λ small.
          let le = kmalloc_bucket-le size (omega arith) in
          let same : max bucket size ≡ bucket = omega arith in
          (
            alloc_with_slack-Dirtied gold fits (may_at marked) ctx.san m pa size bucket
                (rw same may) ((mark_dirtied-Keeps pa bucket ctx m k).dirtied small),
            λ j inside h. may j inside (ground (arith, h)),
          )

  mark_known-Keeps :
      (pa : ℕ) (len : Option ℕ) (ctx : SanCtx) (m : Mmu)
      → Keeps (ctx, m)
      → Keeps (mark_known pa len ctx, m)
  mark_known-Keeps pa none ctx m k = k
  mark_known-Keeps pa (some len) ctx m k = mark_dirtied-Keeps pa len ctx m k

  live-MayChange :
      (pa : ℕ) (a : Option LiveAlloc) (ctx : SanCtx)
      → MayChange gold fits (may_at (mark_known pa (size_of a) ctx)) pa a
  live-MayChange pa none ctx = tt
  live-MayChange pa (some a) ctx = Excused-marked ctx.dirtied pa a.size

  pages-RangeMayChange :
      (pa : ℕ) (len : Option ℕ) (ctx : SanCtx)
      → RangeMayChange gold fits (may_at (mark_known pa len ctx)) pa len
  pages-RangeMayChange pa none ctx = tt
  pages-RangeMayChange pa (some len) ctx = Excused-marked ctx.dirtied pa len

  -- Recording a range leaves the sanitizers alone.
  mark_known-san : (pa : ℕ) (len : Option ℕ) (ctx : SanCtx) → (mark_known pa len ctx).san ≡ ctx.san
  mark_known-san pa none ctx = refl
  mark_known-san pa (some len) ctx = refl

  pub on_free-Keeps : (pa : ℕ) (ctx : SanCtx) (m : Mmu) → Keeps (ctx, m) → Keeps (on_free pa ctx m)
  unfolding on_free live_size
  on_free-Keeps pa ctx m k =
      let a = ctx.san.live pa in
      let marked = mark_known pa (size_of a) ctx in
      let k' = mark_known-Keeps pa (size_of a) ctx m k in
      counted-Keeps marked m (free ctx.san m pa) k' (free-Tracked ctx.san m pa k.tracked) λ small.
        free-Dirtied gold fits (may_at marked) ctx.san m pa (live-MayChange pa a ctx)
          (k'.dirtied small)

  open_bucket-Keeps :
      (pa : ℕ) (a : Option LiveAlloc) (ctx : SanCtx) (m : Mmu) (d : Done Sanitizer)
      → Keeps (mark_known pa (size_of a) ctx, m)
      → Tracked d.1.0
      → ((mark_known pa (size_of a) ctx).bytes ≤ start + 2 ^ 31
          → Kept gold (may_at (mark_known pa (size_of a) ctx)) d)
      → Keeps (open_bucket (mark_known pa (size_of a) ctx) pa (size_of a) d)
  unfolding open_bucket
  open_bucket-Keeps pa none ctx m d k t h = counted-Keeps ctx m d k t h
  open_bucket-Keeps pa (some a) ctx m d k t h =
      opened-Keeps (mark_dirtied pa a.size ctx) m pa a.size d k t
        λ small. (h small, Excused-marked ctx.dirtied pa a.size)

  pub on_ksize-Keeps :
      (pa : ℕ) (ctx : SanCtx) (m : Mmu) → Keeps (ctx, m) → Keeps (on_ksize pa ctx m)
  unfolding on_ksize live_size reopen_slack
  on_ksize-Keeps pa ctx m k =
      let a = ctx.san.live pa in
      let marked = mark_known pa (size_of a) ctx in
      let k' = mark_known-Keeps pa (size_of a) ctx m k in
      let same = reopen_slack_same ctx.san m pa in
      rw same (
        open_bucket-Keeps pa a ctx m (reopen_slack ctx.san m pa) k' (rw same (k.tracked)) λ small.
          reopen_slack-Dirtied gold fits (may_at marked) ctx.san m pa (k.tracked.slack pa)
            (live-MayChange pa a ctx) (k'.dirtied small))

  pub on_cache_alloc-Keeps :
      (pa : ℕ) (size : Option ℕ) (ctx : SanCtx) (m : Mmu)
      → Keeps (ctx, m)
      → Keeps (on_cache_alloc pa size ctx m)
  unfolding on_cache_alloc
  on_cache_alloc-Keeps pa none ctx m k = record {
    golden = k.golden;
    base = k.base;
    tracked = k.tracked;
    grows = k.grows;
    dirtied = k.dirtied;
  }
  on_cache_alloc-Keeps pa (some size) ctx m k =
      let counts = record ctx {
        cache_allocs = ctx.cache_allocs + 1;
        cache_bytes = ctx.cache_bytes + size;
      } in
      let counted_keeps : Keeps (counts, m) = record {
        golden = k.golden;
        base = k.base;
        tracked = k.tracked;
        grows = k.grows;
        dirtied = k.dirtied;
      } in
      let marked = mark_dirtied pa size counts in
      let k' = mark_dirtied-Keeps pa size counts m counted_keeps in
      let may = Excused-marked ctx.dirtied pa size in
      opened-Keeps marked m pa size (alloc_exact_no_uaf_guard ctx.san m pa size) k'
        (alloc_exact_no_uaf_guard-Tracked ctx.san m pa size k.tracked)
        λ small. (
          alloc_exact_no_uaf_guard-Dirtied gold fits (may_at marked) ctx.san m pa size may
              (k'.dirtied small),
          may,
        )

  pub on_page_alloc-Keeps :
      (pa order : ℕ) (ctx : SanCtx) (m : Mmu)
      → Keeps (ctx, m)
      → Keeps (on_page_alloc pa order ctx m)
  unfolding on_page_alloc
  on_page_alloc-Keeps pa order ctx m k =
      let len = page_range_len order in
      let k' = mark_known-Keeps pa len ctx m k in
      counted_pages-Keeps (mark_known pa len ctx) m (alloc_pages ctx.page_san m pa order) k'
        λ small.
          alloc_pages-Dirtied gold fits (may_at (mark_known pa len ctx)) ctx.page_san m pa order
            (pages-RangeMayChange pa len ctx) (k'.dirtied small)

  pub on_page_free-Keeps :
      (pa order : ℕ) (ctx : SanCtx) (m : Mmu) → Keeps (ctx, m) → Keeps (on_page_free pa order ctx m)
  unfolding on_page_free
  on_page_free-Keeps pa order ctx m k =
      let len = page_range_len order in
      let k' = mark_known-Keeps pa len ctx m k in
      counted_pages-Keeps (mark_known pa len ctx) m (free_pages ctx.page_san m pa order) k' λ small.
        free_pages-Dirtied gold fits (may_at (mark_known pa len ctx)) ctx.page_san m pa order
          (pages-RangeMayChange pa len ctx) (k'.dirtied small)
