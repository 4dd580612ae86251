-- ===== src/San/Hooks/Nesting.antt =====
-- Nested calls of hooked functions, and the events that `on_pc` gives for them
-- (crates/fs-san/src/hooks.rs).
use mathlib.Core.Path.{fun_ext}
use fuzzsoft.Base.{
  ℕ, ◌≡◌, ◌≢◌, refl, sym, ap, ◌∙◌, Bool, true, false, inl, inr, Option, none, some, List, [], ◌∷◌,
  ◌++◌, ◌==◌, arith, Bool-cases,
}
use fuzzsoft.San.{HashMap, insert}
use fuzzsoft.San.Hooks.{
  PcHooks, AllocHook, FreeHook, HookEvent, alloc_event, free_event, Pending, push_pending,
  pop_pending, popped, or_default, on_pc, reg_return_addr, reg_return_value,
}

-- What a hart runs of hooked functions: calls that return, with the calls inside them and those that
-- follow. The two register files are those at the entry and at the return.
pub data Calls : Type 0 where
  no_calls : Calls
  alloc_call :
      (entry : ℕ) (at_entry at_return : ℕ → ℕ) (hook : AllocHook) (inner rest : Calls) → Calls
  free_call :
      (entry : ℕ) (at_entry at_return : ℕ → ℕ) (hook : FreeHook) (inner rest : Calls) → Calls

-- The pcs that the hooks see, in order.
unfoldable pub visits : Calls → List (ℕ × (ℕ → ℕ))
visits no_calls = []
visits (alloc_call entry at_entry at_return hook inner rest) =
    (entry, at_entry) ∷ (visits inner ++ ((at_entry reg_return_addr, at_return) ∷ visits rest))
visits (free_call entry at_entry at_return hook inner rest) =
    (entry, at_entry) ∷ (visits inner ++ ((at_entry reg_return_addr, at_return) ∷ visits rest))

-- Each call's event, at its return: the size or the pointer of its own entry.
unfoldable pub expected : Calls → List HookEvent
expected no_calls = []
expected (alloc_call entry at_entry at_return hook inner rest) =
    expected inner
    ++ (alloc_event (at_return reg_return_value) (at_entry hook.size_reg) ∷ expected rest)
expected (free_call entry at_entry at_return hook inner rest) =
    expected inner ++ (free_event (at_entry hook.ptr_reg) ∷ expected rest)

-- The functions are hooked, their returns are not hooked entries, and allocations return to other
-- addresses than frees do.
abbrev pub Hooked : HashMap AllocHook → HashMap FreeHook → (ℕ → Bool) → Calls → Type 0
Hooked allocs frees alloc_site no_calls = Unit {0}
Hooked allocs frees alloc_site (alloc_call entry at_entry at_return hook inner rest) =
    (allocs entry ≡ some hook)
    × (allocs (at_entry reg_return_addr) ≡ none)
    × (frees (at_entry reg_return_addr) ≡ none)
    × (alloc_site (at_entry reg_return_addr) ≡ true)
    × Hooked allocs frees alloc_site inner
    × Hooked allocs frees alloc_site rest
Hooked allocs frees alloc_site (free_call entry at_entry at_return hook inner rest) =
    ((allocs entry ≡ none) × (frees entry ≡ some hook))
    × (allocs (at_entry reg_return_addr) ≡ none)
    × (frees (at_entry reg_return_addr) ≡ none)
    × (alloc_site (at_entry reg_return_addr) ≡ false)
    × Hooked allocs frees alloc_site inner
    × Hooked allocs frees alloc_site rest

-- No emptied entry is kept, and no allocation waits for the return of a free.
pub record Clean (alloc_site : ℕ → Bool) (h : PcHooks) : Type 0 where
  pub no_empty : (pc : ℕ) → h.pending pc ≢ some []
  pub no_empty_free : (pc : ℕ) → h.pending_frees pc ≢ some []
  pub frees_apart : (pc : ℕ) → alloc_site pc ≡ false → h.pending pc ≡ none

abbrev pub listed : Option HookEvent → List HookEvent → List HookEvent
listed none evs = evs
listed (some ev) evs = ev ∷ evs

-- `on_pc` at each pc in turn.
unfoldable pub run_hooks : PcHooks → List (ℕ × (ℕ → ℕ)) → List HookEvent × PcHooks
run_hooks h [] = ([], h)
run_hooks h ((pc, regs) ∷ vs) =
    let (ev, h1) = on_pc h pc regs in let (evs, h2) = run_hooks h1 vs in (listed ev evs, h2)

listed-append :
    (ev : Option HookEvent) (xs ys : List HookEvent) → listed ev (xs ++ ys) ≡ listed ev xs ++ ys
listed-append none xs ys = refl
listed-append (some ev) xs ys = refl

run_hooks-append :
    (vs ws : List (ℕ × (ℕ → ℕ))) (h : PcHooks)
    → let first = run_hooks h vs in
      let second = run_hooks first.1 ws in run_hooks h (vs ++ ws) ≡ (first.0 ++ second.0, second.1)
unfolding run_hooks
run_hooks-append [] ws h = refl
run_hooks-append ((pc, regs) ∷ vs) ws h =
    let o = on_pc h pc regs in
    let first = run_hooks o.1 vs in
    let second = run_hooks first.1 ws in
    rw (run_hooks-append vs ws o.1)
      (ap (λ evs. (evs, second.1)) (listed-append o.0 first.0 second.0))

popped-pushed :
    {A : Type 0} (ret : ℕ) (x : A) (p : Pending A) (o : Option (List A))
    → p ret ≡ o
    → o ≢ some []
    → popped ret (insert ret (x ∷ or_default o) p) (some (x ∷ or_default o)) ≡ some (x, p)
popped-pushed ret x p none at full =
    ap (λ q. some (x, q))
      (fun_ext λ j. elim (Bool-cases (j == ret)) [
        | inl here ↦ let e : j ≡ ret = ground arith in rw here (sym (ap p e ∙ at))
        | inr there ↦ rw there refl
      ])
popped-pushed ret x p (some []) at full = absurd (full refl)
popped-pushed ret x p (some (y ∷ ys)) at full =
    ap (λ q. some (x, q))
      (fun_ext λ j. elim (Bool-cases (j == ret)) [
        | inl here ↦ let e : j ≡ ret = ground arith in rw here (sym (ap p e ∙ at))
        | inr there ↦ rw there refl
      ])

-- What is popped is what was pushed, and the table is as before.
pop-push :
    {A : Type 0} (ret : ℕ) (x : A) (p : Pending A)
    → p ret ≢ some []
    → pop_pending ret (push_pending ret x p) ≡ some (x, p)
unfolding pop_pending push_pending
pop-push ret x p full =
    let same : (ret == ret) ≡ true = ground arith in
    rw same (popped-pushed ret x p (p ret) refl full)

module _ (h : PcHooks) (entry : ℕ) (at_entry at_return : ℕ → ℕ) where
  abbrev ret : ℕ
  ret = at_entry reg_return_addr

  alloc-entry :
      (hook : AllocHook)
      → h.allocs entry ≡ some hook
      → on_pc h entry at_entry
        ≡ (none, record h { pending = push_pending ret (at_entry hook.size_reg) h.pending })
  unfolding on_pc
  alloc-entry hook e = rw (e, on_pc) refl

  free-entry :
      (hook : FreeHook)
      → h.allocs entry ≡ none
      → h.frees entry ≡ some hook
      → on_pc h entry at_entry ≡ (
        none,
        record h { pending_frees = push_pending ret (at_entry hook.ptr_reg) h.pending_frees },
      )
  unfolding on_pc
  free-entry hook e f = rw (e, f, on_pc) refl

alloc-return :
    (h : PcHooks) (pc size : ℕ) (regs : ℕ → ℕ)
    → h.allocs pc ≡ none
    → h.frees pc ≡ none
    → h.pending pc ≢ some []
    → on_pc (record h { pending = push_pending pc size h.pending }) pc regs
      ≡ (some (alloc_event (regs reg_return_value) size), h)
unfolding on_pc
alloc-return h pc size regs e f full = rw (e, f, pop-push pc size h.pending full, on_pc) refl

free-return :
    (h : PcHooks) (pc addr : ℕ) (regs : ℕ → ℕ)
    → h.allocs pc ≡ none
    → h.frees pc ≡ none
    → h.pending pc ≡ none
    → h.pending_frees pc ≢ some []
    → on_pc (record h { pending_frees = push_pending pc addr h.pending_frees }) pc regs
      ≡ (some (free_event addr), h)
unfolding on_pc
free-return h pc addr regs e f clear full =
    let nothing : pop_pending pc h.pending ≡ none = unfold pop_pending in rw clear refl in
    rw (e, f, nothing, pop-push pc addr h.pending_frees full, on_pc) refl

pushed_full :
    {A : Type 0} (ret pc : ℕ) (x : A) (p : Pending A)
    → p pc ≢ some []
    → push_pending ret x p pc ≢ some []
unfolding push_pending
pushed_full ret pc x p full = elim (Bool-cases (pc == ret)) [
  | inl here ↦ rw here (λ e. cc)
  | inr there ↦ rw there full
]

module _ (site : ℕ → Bool) (h : PcHooks) (c : Clean site h) where
  alloc-Clean :
      (ret size : ℕ)
      → site ret ≡ true
      → Clean site (record h { pending = push_pending ret size h.pending })
  alloc-Clean ret size at = record {
    no_empty = λ pc. pushed_full ret pc size h.pending (c.no_empty pc);
    no_empty_free = c.no_empty_free;
    frees_apart = λ pc off.
        unfold push_pending in
        elim (Bool-cases (pc == ret)) [
          | inl here ↦ let e : pc ≡ ret = ground arith in absurd (cc (ap site e))
          | inr there ↦ rw there (c.frees_apart pc off)
        ];
  }

  free-Clean :
      (ret addr : ℕ)
      → Clean site (record h { pending_frees = push_pending ret addr h.pending_frees })
  free-Clean ret addr = record {
    no_empty = c.no_empty;
    no_empty_free = λ pc. pushed_full ret pc addr h.pending_frees (c.no_empty_free pc);
    frees_apart = c.frees_apart;
  }

run_hooks-cons :
    (h h1 : PcHooks) (ev : Option HookEvent) (pc : ℕ) (regs : ℕ → ℕ) (vs : List (ℕ × (ℕ → ℕ)))
    → on_pc h pc regs ≡ (ev, h1)
    → run_hooks h ((pc, regs) ∷ vs) ≡ (listed ev (run_hooks h1 vs).0, (run_hooks h1 vs).1)
unfolding run_hooks
run_hooks-cons h h1 ev pc regs vs e =
    ap (λ (o : Option HookEvent × PcHooks). (listed o.0 (run_hooks o.1 vs).0, (run_hooks o.1 vs).1))
      e

-- A call between its entry and its return.
run_hooks-call :
    (h h1 : PcHooks) (ev : HookEvent) (pc ret : ℕ) (at_entry at_return : ℕ → ℕ)
    (vs ws : List (ℕ × (ℕ → ℕ))) (es fs : List HookEvent)
    → on_pc h pc at_entry ≡ (none, h1)
    → run_hooks h1 vs ≡ (es, h1)
    → on_pc h1 ret at_return ≡ (some ev, h)
    → run_hooks h ws ≡ (fs, h)
    → run_hooks h ((pc, at_entry) ∷ (vs ++ ((ret, at_return) ∷ ws))) ≡ (es ++ (ev ∷ fs), h)
run_hooks-call h h1 ev pc ret at_entry at_return vs ws es fs enter inside leave rest =
    let last = run_hooks-cons h1 h (some ev) ret at_return ws leave in
    let last' : run_hooks h1 ((ret, at_return) ∷ ws) ≡ (ev ∷ fs, h) = rw (last, rest) refl in
    let join = run_hooks-append vs ((ret, at_return) ∷ ws) h1 in
    let both : run_hooks h1 (vs ++ ((ret, at_return) ∷ ws)) ≡ (es ++ (ev ∷ fs), h) =
      rw (join, inside, last') refl in
    run_hooks-cons h h1 none pc at_entry (vs ++ ((ret, at_return) ∷ ws)) enter ∙ rw both refl

-- Calls of hooked functions that nest and follow each other in any way, recursive calls through one
-- return address included, give each allocation its own size and each free its own pointer at its
-- return, in the order of the returns, and leave the tables as they were. The functions called are
-- hooked, their return addresses are not hooked entries, allocations return to other addresses than
-- frees do, and no entry of the tables is an empty list.
pub run_hooks-expected :
    (calls : Calls) (site : ℕ → Bool) (h : PcHooks)
    → Hooked h.allocs h.frees site calls
    → Clean site h
    → run_hooks h (visits calls) ≡ (expected calls, h)
unfolding visits expected
run_hooks-expected no_calls site h k c = unfold run_hooks in refl
run_hooks-expected (alloc_call entry at_entry at_return hook inner rest) site h k c =
    let ret = at_entry reg_return_addr in
    let size = at_entry hook.size_reg in
    let h1 = record h { pending = push_pending ret size h.pending } in
    run_hooks-call h h1 (alloc_event (at_return reg_return_value) size) entry ret at_entry at_return
      (visits inner) (visits rest) (expected inner) (expected rest)
      (alloc-entry h entry at_entry at_return hook (k.0))
      (run_hooks-expected inner site h1 (k.4) (alloc-Clean site h c ret size (k.3)))
      (alloc-return h ret size at_return (k.1) (k.2) (c.no_empty ret))
      (run_hooks-expected rest site h (k.5) c)
run_hooks-expected (free_call entry at_entry at_return hook inner rest) site h k c =
    let ret = at_entry reg_return_addr in
    let addr = at_entry hook.ptr_reg in
    let h1 = record h { pending_frees = push_pending ret addr h.pending_frees } in
    run_hooks-call h h1 (free_event addr) entry ret at_entry at_return (visits inner) (visits rest)
      (expected inner) (expected rest) (free-entry h entry at_entry at_return hook (k.0.0) (k.0.1))
      (run_hooks-expected inner site h1 (k.4) (free-Clean site h c ret addr))
      (free-return h ret addr at_return (k.1) (k.2) (c.frees_apart ret (k.3)) (c.no_empty_free ret))
      (run_hooks-expected rest site h (k.5) c)
