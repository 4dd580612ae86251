-- ===== src/San/Pages/Laws.antt =====
-- The bookkeeping of `PageSanitizer` through both operations, and its refusals
-- (crates/fs-san/src/pages.rs).
use fuzzsoft.Base.{ℕ, ◌<◌, ◌≡◌, true, inl, inr, ok, err, arith, Bool-cases, Option-cases}
use fuzzsoft.Fault.{Outcome}
use fuzzsoft.Mmu.{Mmu, protect, poison}
use fuzzsoft.San.{invalid_free, invalid_page_order, contains_key, Done, then_with}
use fuzzsoft.San.Quarantine.{Keeps, evict_quarantine-Keeps, enter_quarantine-Keeps, remove-Keeps}
use fuzzsoft.San.Pages.{
  PageSanitizer, page_range_len, mapped_perm, alloc_pages, free_pages, forget_live,
}

-- No page range is both live and in the quarantine, and the quarantine lists each range once and
-- stays within its bound.
abbrev pub Tracked : PageSanitizer → Type 0
Tracked s = Keeps s.quarantine_cap s.live s.quarantine

abbrev pub left : Done PageSanitizer → PageSanitizer
left d = d.1.0

then_with-Tracked :
    (s : PageSanitizer) (o : Outcome Mmu (Unit {0})) (k : Mmu → Done PageSanitizer)
    → Tracked s
    → ((m : Mmu) → Tracked (left (k m)))
    → Tracked (left (then_with s o k))
then_with-Tracked s (ok u, m) k t h = h m
then_with-Tracked s (err f, m) k t h = t

pub alloc_pages-Tracked :
    (s : PageSanitizer) (m : Mmu) (base_pa order : ℕ)
    → Tracked s
    → Tracked (left (alloc_pages s m base_pa order))
unfolding alloc_pages
alloc_pages-Tracked s m base_pa order t = elim (Bool-cases (contains_key s.live base_pa)) [
  | inl live ↦ rw (live, alloc_pages) t
  | inr new ↦ elim (Option-cases (page_range_len order)) [
    | inl bad ↦ rw (new, bad, alloc_pages) t
    | inr (len, at) ↦
        rw (new, at, alloc_pages)
          (then_with-Tracked s (protect m base_pa len mapped_perm) _ t
            λ m1. evict_quarantine-Keeps s.quarantine_cap s.live s.quarantine base_pa _ t)
  ]
]

pub free_pages-Tracked :
    (s : PageSanitizer) (m : Mmu) (base_pa order : ℕ)
    → Tracked s
    → Tracked (left (free_pages s m base_pa order))
unfolding free_pages
free_pages-Tracked s m base_pa order t =
    let gone = remove-Keeps s.quarantine_cap s.live s.quarantine base_pa t in
    elim (Bool-cases (contains_key s.live base_pa)) [
      | inr wild ↦ rw (wild, free_pages) t
      | inl live ↦ elim (Option-cases (page_range_len order)) [
        | inl bad ↦ rw (live, bad, free_pages) gone
        | inr (len, at) ↦
            rw (live, at, free_pages)
              (then_with-Tracked (forget_live s base_pa) (poison m base_pa len) _ gone
                λ m1. enter_quarantine-Keeps s.quarantine_cap s.live s.quarantine base_pa _ live t)
      ]
    ]

-- A free of a live page range with an order above 19 is refused and leaves the memory alone, but
-- the range is forgotten: the next free of it, with whatever order, is reported as a free of a
-- range that is not live.
pub free_pages_bad_order :
    (s : PageSanitizer) (m : Mmu) (base_pa order again : ℕ)
    → contains_key s.live base_pa ≡ true
    → 19 < order
    → let refused = free_pages s m base_pa order in
      (refused.0 ≡ err (invalid_page_order base_pa order))
      × (refused.1.1 ≡ m)
      × ((free_pages refused.1.0 m base_pa again).0 ≡ err (invalid_free base_pa))
unfolding free_pages page_range_len
free_pages_bad_order s m base_pa order again live big = ground arith
