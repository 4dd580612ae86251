-- ===== src/Examples/Sanitizers.antt =====
-- The sanitizers, their hooks and a case with both at concrete inputs.
use fuzzsoft.Base.{
  ℕ, ◌+◌, ◌≡◌, refl, true, false, some, [], ◌∷◌, ok, err, arith, replicate, ◌==◌, if◌then◌else◌,
  none,
}
use fuzzsoft.Fault.{u32}
use fuzzsoft.Mmu.{Mmu, poison}
use fuzzsoft.Mmu.Protect.Poisoned.{Faults}
use fuzzsoft.Mmu.Reset.{stores}
use fuzzsoft.Riscv.Cpu.{Cpu, new_hart}
use fuzzsoft.Riscv.Cpu.Agree.{Untracked}
use fuzzsoft.Platform.Clint.{default_clint}
use fuzzsoft.Platform.Machine.{Machine}
use fuzzsoft.Platform.Snapshot.{capture}
use fuzzsoft.Coverage.{new_bitmap}
use fuzzsoft.San.{insert, empty_map, invalid_free, invalid_page_order}
use fuzzsoft.San.Alloc.{Sanitizer, LiveAlloc, with_quarantine_cap, alloc_with_slack, free}
use fuzzsoft.San.Alloc.Laws.{
  malloc, malloc_with_slack, mfree, Tracked, calls, calls-new-Tracked, with_quarantine_cap-Tracked,
}
use fuzzsoft.San.Alloc.Effects.{free-Faults, Fenced, alloc_with_slack-Fenced}
use fuzzsoft.San.Pages
use fuzzsoft.San.Pages.{PageSanitizer, free_pages}
use fuzzsoft.San.Pages.Laws.{free_pages_bad_order}
use fuzzsoft.San.Linux.{LinearMap}
use fuzzsoft.San.Hooks.{PcHooks, AllocHook, FreeHook}
use fuzzsoft.San.Hooks.Nesting.{
  Calls, no_calls, alloc_call, free_call, visits, expected, run_hooks, Clean, run_hooks-expected,
}
use fuzzsoft.Driver.{machine_guest, write_words, write_scratch_bytes}
use fuzzsoft.Driver.Restores.{Restored}
use fuzzsoft.Driver.RunCase.{Contexts, run_case}
use fuzzsoft.Driver.RunCase.Restores.{Fit, CaseRenewed, run_case-CaseRenewed}

-- Sixteen bytes at 0x1000 that may be read, written and executed: `addi x5, x0, 1` and a jump to
-- itself.
abbrev ram : Mmu
ram = record {
  base = 0x1000;
  mem = 0x93 ∷ 0x02 ∷ 0x10 ∷ 0x00 ∷ 0x6f ∷ 0 ∷ 0 ∷ 0 ∷ 0 ∷ 0 ∷ 0 ∷ 0 ∷ 0 ∷ 0 ∷ 0 ∷ 0 ∷ [];
  perms = 7 ∷ 7 ∷ 7 ∷ 7 ∷ 7 ∷ 7 ∷ 7 ∷ 7 ∷ 7 ∷ 7 ∷ 7 ∷ 7 ∷ 7 ∷ 7 ∷ 7 ∷ 7 ∷ [];
  track_dirty = false;
  dirty = record { blocks = []; bitmap = [] };
}

-- Two bytes at 0x1008 are allocated in a bucket of eight.
alloc_with_slack-Fenced_example :
    Fenced ram 0x1008 2 8 (alloc_with_slack (with_quarantine_cap 16 4) ram 0x1008 2 8)
unfolding with_quarantine_cap
alloc_with_slack-Fenced_example =
    alloc_with_slack-Fenced (with_quarantine_cap 16 4) ram 0x1008 2 8 refl (omega arith)
      (omega arith) (omega arith) refl

calls-new-Tracked_example : Tracked (
    calls
      ((malloc 0x1008 4, ram)
        ∷ (mfree 0x1008, ram)
        ∷ (malloc_with_slack 0x1008 2 8, ram)
        ∷ (mfree 0x1008, ram)
        ∷ [])
      (with_quarantine_cap 16 1))
calls-new-Tracked_example = calls-new-Tracked 16 1 (
    (malloc 0x1008 4, ram)
    ∷ (mfree 0x1008, ram)
    ∷ (malloc_with_slack 0x1008 2 8, ram)
    ∷ (mfree 0x1008, ram)
    ∷ [])

abbrev block : LiveAlloc
block = record { size = 4; redzone = 0; slack = none; free_poisons = true }

abbrev holding : Sanitizer
holding = record {
  redzone = 16;
  quarantine_cap = 4;
  live = insert 0x1008 block empty_map;
  quarantine = record { order = []; quarantined = empty_map };
}

freed : (free holding ram 0x1008).0 ≡ ok tt
unfolding free poison
freed = refl

free-Faults_example :
    Faults
      (stores (free holding ram 0x1008).1.1 ((0x1000, 1 ∷ 2 ∷ []) ∷ (0x100c, 9 ∷ []) ∷ []))
      (u32 (0x1008 + 3))
free-Faults_example =
    free-Faults holding ram 0x1008 block 3 ((0x1000, 1 ∷ 2 ∷ []) ∷ (0x100c, 9 ∷ []) ∷ []) refl refl
      refl freed (omega arith)

abbrev page_held : PageSanitizer
page_held = record {
  quarantine_cap = 4;
  live = insert 0x1000 (record { order = 0 }) empty_map;
  quarantine = record { order = []; quarantined = empty_map };
}

free_pages_bad_order_example :
    let refused = free_pages page_held ram 0x1000 20 in
    (refused.0 ≡ err (invalid_page_order 0x1000 20))
    × (refused.1.1 ≡ ram)
    × ((free_pages refused.1.0 ram 0x1000 0).0 ≡ err (invalid_free 0x1000))
free_pages_bad_order_example = free_pages_bad_order page_held ram 0x1000 20 0 refl (omega arith)

-- An allocator at 0x1000 whose size is in x11, and a free at 0x1008 whose pointer is in x10.
abbrev alloc_hook : AllocHook
alloc_hook = record { entry_pc = 0x1000; size_reg = 11 }

abbrev free_hook : FreeHook
free_hook = record { entry_pc = 0x1008; ptr_reg = 10 }

abbrev hooked : PcHooks
hooked = record {
  allocs = insert 0x1000 alloc_hook empty_map;
  frees = insert 0x1008 free_hook empty_map;
  ksizes = empty_map;
  pending = empty_map;
  pending_frees = empty_map;
  page_allocs = empty_map;
  page_frees = empty_map;
  page_pending = empty_map;
  cache_allocs = empty_map;
  cache_pending = empty_map;
  kmsan_alloc_pending = empty_map;
  kmsan_cache_pending = empty_map;
}

abbrev regs_of : ℕ → ℕ → ℕ → ℕ → ℕ
regs_of ra a0 a1 r = if r == 1 then ra else if r == 10 then a0 else if r == 11 then a1 else 0

-- An allocation that calls the allocator again, from a site with the same return address, and a free.
abbrev some_calls : Calls
some_calls =
    alloc_call 0x1000 (regs_of 0x2000 0 24) (regs_of 0 0x8000 0) alloc_hook
      (alloc_call 0x1000 (regs_of 0x2000 0 64) (regs_of 0 0x9000 0) alloc_hook no_calls no_calls)
      (free_call 0x1008 (regs_of 0x2010 0x8000 0) (regs_of 0 0 0) free_hook no_calls no_calls)

hooked-Clean : Clean (λ pc. pc == 0x2000) hooked
hooked-Clean = record {
  no_empty = λ pc e. cc;
  no_empty_free = λ pc e. cc;
  frees_apart = λ pc off. refl;
}

run_hooks-expected_example : run_hooks hooked (visits some_calls) ≡ (expected some_calls, hooked)
run_hooks-expected_example =
    run_hooks-expected some_calls (λ pc. pc == 0x2000) hooked
      (
        refl,
        refl,
        refl,
        refl,
        (refl, refl, refl, refl, tt, tt),
        ((refl, refl), refl, refl, refl, tt, tt),
      )
      hooked-Clean

-- A hart about to call the allocator, with the return at the instruction that follows.
abbrev calling_hart : Cpu
calling_hart = record (new_hart 0x1000 0) {
  regs = 0 ∷ 0x1004 ∷ 0 ∷ 0 ∷ 0 ∷ 0 ∷ 0 ∷ 0 ∷ 0 ∷ 0 ∷ 0xc0001008 ∷ 2 ∷ replicate 20 0;
}

calling_hart-Untracked : Untracked calling_hart
unfolding new_hart
calling_hart-Untracked = refl

abbrev booted : Machine
booted = record {
  ram = ram;
  ram_base = 0x1000;
  ram_end = 0x1010;
  clint = default_clint;
  uart = record { out = 79 ∷ 75 ∷ [] };
}

abbrev linear : LinearMap
linear = record { va_pa_offset = 0xc0000000; pa_lo = 0x1000; pa_hi = 0x1010 }

abbrev both_contexts : Contexts
both_contexts = record {
  san = some (record {
    hooks = hooked;
    san = with_quarantine_cap 16 4096;
    page_san = Pages.new;
    lm = linear;
    golden_perms = ram.perms;
    ram_base = 0x1000;
    dirtied = [];
    allocs = 0;
    frees = 0;
    bytes = 0;
    page_allocs = 0;
    page_frees = 0;
    san_errors = 0;
    cache_allocs = 0;
    cache_bytes = 0;
    cache_alloc_size_unavailable = 0;
  });
  kmsan = some (record {
    hooks = hooked;
    lm = linear;
    golden_perms = ram.perms;
    ram_base = 0x1000;
    dirtied = [];
    tainted_allocs = 0;
    tainted_bytes = 0;
    zeroed_skipped = 0;
    cache_size_unavailable = 0;
    ctor_skipped = 0;
  });
}

both_contexts-Fit : Fit booted calling_hart refl (omega arith) both_contexts
both_contexts-Fit = record {
  san = (refl, refl, with_quarantine_cap-Tracked 16 4096);
  kmsan = (refl, refl);
}

abbrev captured : Machine
captured = (capture calling_hart booted).1

captured-Restored : Restored booted calling_hart (calling_hart, captured)
unfolding capture
captured-Restored = record { cpu = refl; ram = refl; clint = refl; uart = refl }

run_case-CaseRenewed_example : CaseRenewed booted calling_hart refl (omega arith) 0 (
    run_case 9 calling_hart
      (write_scratch_bytes machine_guest
        (0x100c ∷ [])
        (1 ∷ 2 ∷ [])
        (write_words machine_guest (0x1000 ∷ []) (0x00200293 ∷ []) captured))
      new_bitmap
      4
      both_contexts)
run_case-CaseRenewed_example =
    run_case-CaseRenewed booted calling_hart refl (omega arith) 9 calling_hart captured
      both_contexts (0x00200293 ∷ []) (1 ∷ 2 ∷ []) (0x1000 ∷ []) (0x100c ∷ []) new_bitmap 4
      calling_hart-Untracked captured-Restored both_contexts-Fit
