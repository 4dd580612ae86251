-- ===== src/San/Hooks.antt =====
-- The PC hooks: `PcHooks` (crates/fs-san/src/hooks.rs). A `Vec` that is pushed and popped at its end
-- is a list with the last element first; `regs` is the register file as a function.
pub mod Nesting
use fuzzsoft.Base.{ℕ, Option, none, some, List, [], ◌∷◌}
use fuzzsoft.San.{HashMap, empty_map, insert, remove}

abbrev pub reg_return_addr : ℕ
reg_return_addr = 1

abbrev pub reg_return_value : ℕ
reg_return_value = 10

abbrev pub gfp_flags_reg : ℕ
gfp_flags_reg = 11

pub record AllocHook : Type 0 where
  pub entry_pc : ℕ
  pub size_reg : ℕ

pub record FreeHook : Type 0 where
  pub entry_pc : ℕ
  pub ptr_reg : ℕ

pub record KsizeHook : Type 0 where
  pub entry_pc : ℕ
  pub ptr_reg : ℕ

pub record PageAllocHook : Type 0 where
  pub entry_pc : ℕ
  pub order_reg : Option ℕ

pub record PageFreeHook : Type 0 where
  pub entry_pc : ℕ
  pub addr_reg : ℕ
  pub order_reg : Option ℕ

pub record CacheAllocHook : Type 0 where
  pub entry_pc : ℕ
  pub cache_reg : ℕ

pub data HookEvent : Type 0 where
  alloc_event : (addr size : ℕ) → HookEvent
  free_event : (addr : ℕ) → HookEvent

pub data PageHookEvent : Type 0 where
  page_alloc_event : (addr order : ℕ) → PageHookEvent
  page_free_event : (addr order : ℕ) → PageHookEvent

pub data CacheAllocEvent : Type 0 where
  cache_alloc_event : (addr cache_ptr : ℕ) → CacheAllocEvent

pub data KmsanAllocEvent : Type 0 where
  sized : (addr size gfp_flags : ℕ) → KmsanAllocEvent
  cache : (addr cache_ptr gfp_flags : ℕ) → KmsanAllocEvent

-- What waits for a return, by the address of the return.
abbrev pub Pending : Type 0 → Type 0
Pending A = HashMap (List A)

pub record PcHooks : Type 0 where
  pub allocs : HashMap AllocHook
  pub frees : HashMap FreeHook
  pub ksizes : HashMap KsizeHook
  pub pending : Pending ℕ
  pub pending_frees : Pending ℕ
  pub page_allocs : HashMap PageAllocHook
  pub page_frees : HashMap PageFreeHook
  pub page_pending : Pending ℕ
  pub cache_allocs : HashMap CacheAllocHook
  pub cache_pending : Pending ℕ
  pub kmsan_alloc_pending : Pending (ℕ × ℕ)
  pub kmsan_cache_pending : Pending (ℕ × ℕ)

unfoldable pub new : PcHooks
new = record {
  allocs = empty_map;
  frees = empty_map;
  ksizes = empty_map;
  pending = empty_map;
  pending_frees = empty_map;
  page_allocs = empty_map;
  page_frees = empty_map;
  page_pending = empty_map;
  cache_allocs = empty_map;
  cache_pending = empty_map;
  kmsan_alloc_pending = empty_map;
  kmsan_cache_pending = empty_map;
}

unfoldable pub hook_alloc : AllocHook → PcHooks → PcHooks
hook_alloc hook h = record h { allocs = insert hook.entry_pc hook h.allocs }

unfoldable pub hook_free : FreeHook → PcHooks → PcHooks
hook_free hook h = record h { frees = insert hook.entry_pc hook h.frees }

unfoldable pub hook_ksize : KsizeHook → PcHooks → PcHooks
hook_ksize hook h = record h { ksizes = insert hook.entry_pc hook h.ksizes }

unfoldable pub hook_page_alloc : PageAllocHook → PcHooks → PcHooks
hook_page_alloc hook h = record h { page_allocs = insert hook.entry_pc hook h.page_allocs }

unfoldable pub hook_page_free : PageFreeHook → PcHooks → PcHooks
hook_page_free hook h = record h { page_frees = insert hook.entry_pc hook h.page_frees }

unfoldable pub hook_cache_alloc : CacheAllocHook → PcHooks → PcHooks
hook_cache_alloc hook h = record h { cache_allocs = insert hook.entry_pc hook h.cache_allocs }

abbrev pub or_default : {A : Type 0} → Option (List A) → List A
or_default none = []
or_default (some xs) = xs

-- `pending.entry(ret_pc).or_default().push(x)`.
unfoldable pub push_pending : {A : Type 0} → ℕ → A → Pending A → Pending A
push_pending ret_pc x p = insert ret_pc (x ∷ or_default (p ret_pc)) p

abbrev pub keep_rest : {A : Type 0} → ℕ → List A → Pending A → Pending A
keep_rest pc [] p = remove pc p
keep_rest pc (x ∷ xs) p = insert pc (x ∷ xs) p

abbrev pub popped : {A : Type 0} → ℕ → Pending A → Option (List A) → Option (A × Pending A)
popped pc p none = none
popped pc p (some []) = none
popped pc p (some (x ∷ xs)) = some (x, keep_rest pc xs p)

-- `get_mut` and `pop`, with the removal of an emptied entry.
unfoldable pub pop_pending : {A : Type 0} → ℕ → Pending A → Option (A × Pending A)
pop_pending pc p = popped pc p (p pc)

unfoldable pub on_pc : PcHooks → ℕ → (ℕ → ℕ) → Option HookEvent × PcHooks
unfolding push_pending pop_pending
on_pc h pc regs = elim (h.allocs pc) [
  | some hook ↦ (
    none,
    record h { pending = push_pending (regs reg_return_addr) (regs hook.size_reg) h.pending },
  )
  | none ↦ elim (h.frees pc) [
    | some hook ↦ (
      none,
      record h {
        pending_frees = push_pending (regs reg_return_addr) (regs hook.ptr_reg) h.pending_frees;
      },
    )
    | none ↦ elim (pop_pending pc h.pending) [
      | some (size, rest) ↦
          (some (alloc_event (regs reg_return_value) size), record h { pending = rest })
      | none ↦ elim (pop_pending pc h.pending_frees) [
        | some (addr, rest) ↦ (some (free_event addr), record h { pending_frees = rest })
        | none ↦ (none, h)
      ]
    ]
  ]
]

-- `map_or(0, |r| regs[r])`.
abbrev pub order_in : (ℕ → ℕ) → Option ℕ → ℕ
order_in regs none = 0
order_in regs (some r) = regs r

unfoldable pub on_page_pc : PcHooks → ℕ → (ℕ → ℕ) → Option PageHookEvent × PcHooks
unfolding push_pending pop_pending
on_page_pc h pc regs = elim (h.page_allocs pc) [
  | some hook ↦ (
    none,
    record h {
      page_pending =
          push_pending (regs reg_return_addr) (order_in regs hook.order_reg) h.page_pending;
    },
  )
  | none ↦ elim (h.page_frees pc) [
    | some hook ↦ (some (page_free_event (regs hook.addr_reg) (order_in regs hook.order_reg)), h)
    | none ↦ elim (pop_pending pc h.page_pending) [
      | some (order, rest) ↦
          (some (page_alloc_event (regs reg_return_value) order), record h { page_pending = rest })
      | none ↦ (none, h)
    ]
  ]
]

unfoldable pub on_cache_alloc_pc : PcHooks → ℕ → (ℕ → ℕ) → Option CacheAllocEvent × PcHooks
unfolding push_pending pop_pending
on_cache_alloc_pc h pc regs = elim (h.cache_allocs pc) [
  | some hook ↦ (
    none,
    record h {
      cache_pending = push_pending (regs reg_return_addr) (regs hook.cache_reg) h.cache_pending;
    },
  )
  | none ↦ elim (pop_pending pc h.cache_pending) [
    | some (cache_ptr, rest) ↦ (
      some (cache_alloc_event (regs reg_return_value) cache_ptr),
      record h { cache_pending = rest },
    )
    | none ↦ (none, h)
  ]
]

unfoldable pub on_kmsan_alloc_pc : PcHooks → ℕ → (ℕ → ℕ) → Option KmsanAllocEvent × PcHooks
unfolding push_pending pop_pending
on_kmsan_alloc_pc h pc regs = elim (h.allocs pc) [
  | some hook ↦ (
    none,
    record h {
      kmsan_alloc_pending =
          push_pending (regs reg_return_addr) (regs hook.size_reg, regs gfp_flags_reg)
            h.kmsan_alloc_pending;
    },
  )
  | none ↦ elim (h.cache_allocs pc) [
    | some hook ↦ (
      none,
      record h {
        kmsan_cache_pending =
            push_pending (regs reg_return_addr) (regs hook.cache_reg, regs gfp_flags_reg)
              h.kmsan_cache_pending;
      },
    )
    | none ↦ elim (pop_pending pc h.kmsan_alloc_pending) [
      | some ((size, gfp_flags), rest) ↦ (
        some (sized (regs reg_return_value) size gfp_flags),
        record h { kmsan_alloc_pending = rest },
      )
      | none ↦ elim (pop_pending pc h.kmsan_cache_pending) [
        | some ((cache_ptr, gfp_flags), rest) ↦ (
          some (cache (regs reg_return_value) cache_ptr gfp_flags),
          record h { kmsan_cache_pending = rest },
        )
        | none ↦ (none, h)
      ]
    ]
  ]
]

abbrev pub hit_ptr : (ℕ → ℕ) → Option KsizeHook → Option ℕ
hit_ptr regs none = none
hit_ptr regs (some hook) = some (regs hook.ptr_reg)

unfoldable pub ksize_hit : PcHooks → ℕ → (ℕ → ℕ) → Option ℕ
ksize_hit h pc regs = hit_ptr regs (h.ksizes pc)

unfoldable pub clear_pending : PcHooks → PcHooks
clear_pending h = record h {
  pending = empty_map;
  pending_frees = empty_map;
  page_pending = empty_map;
  cache_pending = empty_map;
  kmsan_alloc_pending = empty_map;
  kmsan_cache_pending = empty_map;
}
