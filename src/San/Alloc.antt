-- ===== src/San/Alloc.antt =====
-- The byte-granular sanitizer: `Sanitizer` (crates/fs-san/src/alloc.rs) and the hypercalls that reach
-- it (crates/fs-san/src/hypercall.rs).
pub mod Effects
pub mod Laws
use fuzzsoft.Base.{
  ℕ, ◌+◌, ◌-◌, ◌^◌, max, Bool, true, false, ◌&&◌, Option, none, some, ok, err, ltb, leb, ◌==◌,
  if◌then◌else◌,
}
use fuzzsoft.Fault.{Outcome, u32}
use fuzzsoft.Mmu.{Mmu, protect, poison, in_bounds}
use fuzzsoft.San.{
  double_alloc, invalid_free, unknown_pointer, HashMap, empty_map, insert, remove, contains_key,
  Done, then_with, Quarantined, no_quarantine, evict_quarantine, enter_quarantine,
}

abbrev pub default_redzone : ℕ
default_redzone = 16

abbrev pub default_quarantine_cap : ℕ
default_quarantine_cap = 4096

pub record LiveAlloc : Type 0 where
  pub size : ℕ
  pub redzone : ℕ
  pub slack : Option (ℕ × ℕ)
  pub free_poisons : Bool

pub record Sanitizer : Type 0 where
  pub redzone : ℕ
  pub quarantine_cap : ℕ
  pub live : HashMap LiveAlloc
  pub quarantine : Quarantined LiveAlloc

unfoldable pub with_quarantine_cap : ℕ → ℕ → Sanitizer
with_quarantine_cap redzone quarantine_cap = record {
  redzone = redzone;
  quarantine_cap = quarantine_cap;
  live = empty_map;
  quarantine = no_quarantine;
}

unfoldable pub new : ℕ → Sanitizer
unfolding with_quarantine_cap
new redzone = with_quarantine_cap redzone default_quarantine_cap

abbrev pub size_of : Option LiveAlloc → Option ℕ
size_of none = none
size_of (some a) = some a.size

unfoldable pub live_size : Sanitizer → ℕ → Option ℕ
live_size s addr = size_of (s.live addr)

-- `PERM_WRITE | PERM_RAW`.
abbrev pub uninit_perm : ℕ
uninit_perm = 10

unfoldable pub poison_guard_before : Sanitizer → Mmu → ℕ → Outcome Mmu (Unit {0})
poison_guard_before s m addr =
    if s.redzone == 0
    then (ok tt, m)
    else let start = u32 (addr + 2 ^ 32 - s.redzone) in
      if leb start addr && in_bounds m start s.redzone then poison m start s.redzone else (ok tt, m)

-- `checked_add` stops at 2 ^ 32.
unfoldable pub poison_guard_after : Sanitizer → Mmu → ℕ → ℕ → Outcome Mmu (Unit {0})
poison_guard_after s m addr size =
    if s.redzone == 0
    then (ok tt, m)
    else if ltb (addr + size) (2 ^ 32) && in_bounds m (addr + size) s.redzone
    then poison m (addr + size) s.redzone
    else (ok tt, m)

unfoldable pub poison_slack : Mmu → ℕ → ℕ → ℕ → Outcome Mmu (Unit {0})
poison_slack m addr req_size bucket_size =
    if bucket_size - req_size == 0
    then (ok tt, m)
    else if ltb (addr + req_size) (2 ^ 32) && in_bounds m (addr + req_size) (bucket_size - req_size)
    then poison m (addr + req_size) (bucket_size - req_size)
    else (ok tt, m)

-- The end of every `alloc`: the address leaves the quarantine and is live.
unfoldable pub record_live : Sanitizer → ℕ → LiveAlloc → Sanitizer
record_live s addr a = record s {
  live = insert addr a s.live;
  quarantine = evict_quarantine addr s.quarantine;
}

unfoldable pub alloc : Sanitizer → Mmu → ℕ → ℕ → Done Sanitizer
unfolding poison_guard_before poison_guard_after record_live
alloc s m addr size =
    if contains_key s.live addr
    then (err (double_alloc addr), (s, m))
    else then_with s (poison_guard_before s m addr) λ m1.
      then_with s (poison_guard_after s m1 addr size) λ m2.
        then_with s (protect m2 addr size uninit_perm) λ m3. (
          ok tt,
          (
            record_live s addr
                (record { size = size; redzone = s.redzone; slack = none; free_poisons = true }),
            m3,
          ),
        )

unfoldable pub alloc_with_slack : Sanitizer → Mmu → ℕ → ℕ → ℕ → Done Sanitizer
unfolding poison_slack record_live
alloc_with_slack s m addr req_size asked =
    let bucket_size = max asked req_size in
    if contains_key s.live addr
    then (err (double_alloc addr), (s, m))
    else then_with s (protect m addr req_size uninit_perm) λ m1.
      then_with s (poison_slack m1 addr req_size bucket_size) λ m2. (
        ok tt,
        (
          record_live s addr (record {
            size = bucket_size;
            redzone = 0;
            slack = some (req_size, bucket_size);
            free_poisons = true;
          }),
          m2,
        ),
      )

unfoldable pub alloc_exact_no_uaf_guard : Sanitizer → Mmu → ℕ → ℕ → Done Sanitizer
unfolding record_live
alloc_exact_no_uaf_guard s m addr size =
    if contains_key s.live addr
    then (err (double_alloc addr), (s, m))
    else then_with s (protect m addr size uninit_perm) λ m1. (
      ok tt,
      (
        record_live s addr
            (record { size = size; redzone = 0; slack = none; free_poisons = false }),
        m1,
      ),
    )

-- The rest of `reopen_slack` once the allocation is known.
unfoldable pub reopen : Sanitizer → Mmu → ℕ → Option (ℕ × ℕ) → Done Sanitizer
reopen s m addr none = (ok tt, (s, m))
reopen s m addr (some (req_size, bucket_size)) =
    if bucket_size - req_size == 0
    then (ok tt, (s, m))
    else if ltb (addr + req_size) (2 ^ 32)
    then then_with s (protect m (addr + req_size) (bucket_size - req_size) uninit_perm)
        (λ m1. (ok tt, (s, m1)))
    else (ok tt, (s, m))

unfoldable pub reopen_slack : Sanitizer → Mmu → ℕ → Done Sanitizer
unfolding reopen
reopen_slack s m addr = elim (s.live addr) [
  | none ↦ (err (unknown_pointer addr), (s, m))
  | some a ↦ reopen s m addr a.slack
]

abbrev pub forget_live : Sanitizer → ℕ → Sanitizer
forget_live s addr = record s { live = remove addr s.live }

-- The rest of `free` once the allocation is known. It is no longer live, also where the poisoning
-- fails.
unfoldable pub free_live : Sanitizer → Mmu → ℕ → LiveAlloc → Done Sanitizer
free_live s m addr a =
    if a.free_poisons
    then then_with (forget_live s addr) (poison m addr a.size) (λ m1. (
      ok tt,
      (
        record (forget_live s addr) {
          quarantine = enter_quarantine s.quarantine_cap addr a s.quarantine;
        },
        m1,
      ),
    ))
    else (ok tt, (forget_live s addr, m))

unfoldable pub free : Sanitizer → Mmu → ℕ → Done Sanitizer
unfolding free_live
free s m addr = elim (s.live addr) [
  | none ↦ (err (invalid_free addr), (s, m))
  | some a ↦ free_live s m addr a
]

abbrev pub cmd_malloc : ℕ
cmd_malloc = 0x5A4E0001

abbrev pub cmd_free : ℕ
cmd_free = 0x5A4E0002

unfoldable pub dispatch : Sanitizer → Mmu → ℕ → ℕ → ℕ → Option (Done Sanitizer)
unfolding alloc free
dispatch s m cmd a1 a2 =
    if cmd == cmd_malloc
    then some (alloc s m a1 a2)
    else if cmd == cmd_free
    then some (free s m a1)
    else none
