-- ===== src/Driver/Sanitize/Calls.antt =====
-- The sanitizers' calls change only permissions of the range that was recorded for them
-- (crates/fs-san/src/alloc.rs, pages.rs and crates/fs-cli/src/main.rs).
use fuzzsoft.Base.{
  ℕ, ◌+◌, ◌-◌, ◌^◌, ◌≤◌, max, Bool, true, false, ◌&&◌, inl, inr, Option, none, some, ok, err,
  length, ltb, ◌==◌, if◌then◌else◌, arith, Option-cases,
}
use fuzzsoft.Fault.{Outcome}
use fuzzsoft.Mmu.{Mmu, protect, poison, in_bounds}
use fuzzsoft.San.{Done, then_with, contains_key}
use fuzzsoft.San.Alloc.{
  Sanitizer, LiveAlloc, alloc_with_slack, alloc_exact_no_uaf_guard, poison_slack, reopen_slack,
  reopen, free, free_live, forget_live, uninit_perm,
}
use fuzzsoft.San.Alloc.Laws.{SlackFits, FitsAt}
use fuzzsoft.San.Pages
use fuzzsoft.San.Pages.{PageSanitizer, alloc_pages, free_pages, page_range_len, mapped_perm}
use fuzzsoft.Driver.Sanitize.Ranges.{
  Dirtied, Excused, Excused-part, protect-Dirtied, poison-Dirtied,
}

pub if-keeps :
    {X : Type 0} (P : X → Type 0) (b : Bool) (x y : X) → P x → P y → P (if b then x else y)
if-keeps P true x y p q = p
if-keeps P false x y p q = q

-- A call has changed permissions at excused bytes only.
pub record Kept (gold : Mmu) (e : ℕ → Bool) {S : Type 0} (d : Done S) : Type 0 where
  pub memory : Dirtied gold e d.1.1

then_with-Kept :
    {S : Type 0} (gold : Mmu) (e : ℕ → Bool) (s : S) (o : Outcome Mmu (Unit {0})) (k : Mmu → Done S)
    → Dirtied gold e o.1
    → ((m : Mmu) → Dirtied gold e m → Kept gold e (k m))
    → Kept gold e (then_with s o k)
then_with-Kept gold e s (ok u, m) k d h = h m d
then_with-Kept gold e s (err f, m) k d h = record { memory = d }

module _ (gold : Mmu) (fits : gold.base + length gold.mem ≤ 2 ^ 32) (e : ℕ → Bool) where
  poison_slack-Dirtied :
      (m : Mmu) (addr req_size bucket_size : ℕ)
      → req_size ≤ bucket_size
      → Excused gold e addr bucket_size
      → Dirtied gold e m
      → Dirtied gold e (poison_slack m addr req_size bucket_size).1
  unfolding poison_slack
  poison_slack-Dirtied m addr req_size bucket_size le may d =
      let rest =
        Excused-part gold e addr bucket_size req_size (bucket_size - req_size) fits (omega arith)
          may in
      let kept = λ (o : Outcome Mmu (Unit {0})). Dirtied gold e o.1 in
      if-keeps kept (bucket_size - req_size == 0) _ _ d (
        if-keeps kept
          (ltb (addr + req_size) (2 ^ 32) && in_bounds m (addr + req_size) (bucket_size - req_size))
          _ _ (poison-Dirtied gold e m (addr + req_size) (bucket_size - req_size) fits rest d) d)

  first_part : (addr len part : ℕ) → part ≤ len → Excused gold e addr len → Excused gold e addr part
  first_part addr len part le may j inside h = may j inside (ground (arith, h))

  pub alloc_with_slack-Dirtied :
      (s : Sanitizer) (m : Mmu) (addr req_size asked : ℕ)
      → Excused gold e addr (max asked req_size)
      → Dirtied gold e m
      → Kept gold e (alloc_with_slack s m addr req_size asked)
  unfolding alloc_with_slack
  alloc_with_slack-Dirtied s m addr req_size asked may d =
      let bucket = max asked req_size in
      if-keeps (Kept gold e) (contains_key s.live addr) _ _ (record { memory = d })
        (then_with-Kept gold e s (protect m addr req_size uninit_perm) _
          (protect-Dirtied gold e m addr req_size fits
            (first_part addr bucket req_size (omega arith) may) d uninit_perm)
          λ m1 d1.
            then_with-Kept gold e s (poison_slack m1 addr req_size bucket) _
              (poison_slack-Dirtied m1 addr req_size bucket (omega arith) may d1)
              λ m2 d2. record { memory = d2 })

  pub alloc_exact_no_uaf_guard-Dirtied :
      (s : Sanitizer) (m : Mmu) (addr size : ℕ)
      → Excused gold e addr size
      → Dirtied gold e m
      → Kept gold e (alloc_exact_no_uaf_guard s m addr size)
  unfolding alloc_exact_no_uaf_guard
  alloc_exact_no_uaf_guard-Dirtied s m addr size may d =
      if-keeps (Kept gold e) (contains_key s.live addr) _ _ (record { memory = d })
        (then_with-Kept gold e s (protect m addr size uninit_perm) _
          (protect-Dirtied gold e m addr size fits may d uninit_perm)
          λ m1 d1. record { memory = d1 })

  reopen-Dirtied :
      (s : Sanitizer) (m : Mmu) (addr size : ℕ) (slack : Option (ℕ × ℕ))
      → SlackFits size slack
      → Excused gold e addr size
      → Dirtied gold e m
      → Kept gold e (reopen s m addr slack)
  unfolding reopen
  reopen-Dirtied s m addr size none slack may d = record { memory = d }
  reopen-Dirtied s m addr size (some (req_size, bucket_size)) slack may d =
      let rest =
        Excused-part gold e addr size req_size (bucket_size - req_size) fits (omega arith) may in
      if-keeps (Kept gold e) (bucket_size - req_size == 0) _ _ (record { memory = d })
        (if-keeps (Kept gold e) (ltb (addr + req_size) (2 ^ 32)) _ _
          (then_with-Kept gold e s
            (protect m (addr + req_size) (bucket_size - req_size) uninit_perm) _
            (protect-Dirtied gold e m (addr + req_size) (bucket_size - req_size) fits rest d
              uninit_perm)
            λ m1 d1. record { memory = d1 })
          (record { memory = d }))

  -- What is recorded before a call on a live allocation.
  abbrev pub MayChange : ℕ → Option LiveAlloc → Type 0
  MayChange addr none = Unit {0}
  MayChange addr (some a) = Excused gold e addr a.size

  pub reopen_slack-Dirtied :
      (s : Sanitizer) (m : Mmu) (addr : ℕ)
      → FitsAt (s.live addr)
      → MayChange addr (s.live addr)
      → Dirtied gold e m
      → Kept gold e (reopen_slack s m addr)
  unfolding reopen_slack
  reopen_slack-Dirtied s m addr slack may d = elim (Option-cases (s.live addr)) [
    | inl gone ↦ rw (gone, reopen_slack) (record { memory = d })
    | inr (a, live) ↦
        rw (live, reopen_slack)
          (reopen-Dirtied s m addr a.size a.slack (rw live at slack) (rw live at may) d)
  ]

  free_live-Dirtied :
      (s : Sanitizer) (m : Mmu) (addr : ℕ) (a : LiveAlloc)
      → Excused gold e addr a.size
      → Dirtied gold e m
      → Kept gold e (free_live s m addr a)
  unfolding free_live
  free_live-Dirtied s m addr a may d =
      if-keeps (Kept gold e) a.free_poisons _ _
        (then_with-Kept gold e (forget_live s addr) (poison m addr a.size) _
          (poison-Dirtied gold e m addr a.size fits may d) λ m1 d1. record { memory = d1 })
        (record { memory = d })

  pub free-Dirtied :
      (s : Sanitizer) (m : Mmu) (addr : ℕ)
      → MayChange addr (s.live addr)
      → Dirtied gold e m
      → Kept gold e (free s m addr)
  unfolding free
  free-Dirtied s m addr may d = elim (Option-cases (s.live addr)) [
    | inl gone ↦ rw (gone, free) (record { memory = d })
    | inr (a, live) ↦ rw (live, free) (free_live-Dirtied s m addr a (rw live at may) d)
  ]

  abbrev pub RangeMayChange : ℕ → Option ℕ → Type 0
  RangeMayChange addr none = Unit {0}
  RangeMayChange addr (some len) = Excused gold e addr len

  pub alloc_pages-Dirtied :
      (s : PageSanitizer) (m : Mmu) (base_pa order : ℕ)
      → RangeMayChange base_pa (page_range_len order)
      → Dirtied gold e m
      → Kept gold e (alloc_pages s m base_pa order)
  unfolding alloc_pages
  alloc_pages-Dirtied s m base_pa order may d =
      if-keeps (Kept gold e) (contains_key s.live base_pa) _ _ (record { memory = d })
        (elim (Option-cases (page_range_len order)) [
          | inl bad ↦ rw bad (record { memory = d })
          | inr (len, at) ↦ rw at (
              then_with-Kept gold e s (protect m base_pa len mapped_perm) _
                (protect-Dirtied gold e m base_pa len fits (rw at at may) d mapped_perm)
                λ m1 d1. record { memory = d1 })
        ])

  pub free_pages-Dirtied :
      (s : PageSanitizer) (m : Mmu) (base_pa order : ℕ)
      → RangeMayChange base_pa (page_range_len order)
      → Dirtied gold e m
      → Kept gold e (free_pages s m base_pa order)
  unfolding free_pages
  free_pages-Dirtied s m base_pa order may d =
      if-keeps (Kept gold e) (contains_key s.live base_pa) _ _
        (elim (Option-cases (page_range_len order)) [
          | inl bad ↦ rw bad (record { memory = d })
          | inr (len, at) ↦ rw at (
              then_with-Kept gold e (Pages.forget_live s base_pa) (poison m base_pa len) _
                (poison-Dirtied gold e m base_pa len fits (rw at at may) d)
                λ m1 d1. record { memory = d1 })
        ])
        (record { memory = d })
