-- ===== src/San/Pages.antt =====
-- The page-granular sanitizer: `PageSanitizer` (crates/fs-san/src/pages.rs).
pub mod Laws
use fuzzsoft.Base.{ℕ, ◌*◌, ◌^◌, Option, none, some, ok, err, ltb, if◌then◌else◌}
use fuzzsoft.Mmu.{Mmu, protect, poison}
use fuzzsoft.San.{
  double_alloc, invalid_free, invalid_page_order, HashMap, empty_map, insert, remove, contains_key,
  Done, then_with, Quarantined, no_quarantine, evict_quarantine, enter_quarantine,
}

abbrev pub page : ℕ
page = 4096

abbrev pub default_page_quarantine_cap : ℕ
default_page_quarantine_cap = 4096

pub record LivePageRange : Type 0 where
  pub order : ℕ

pub record PageSanitizer : Type 0 where
  pub quarantine_cap : ℕ
  pub live : HashMap LivePageRange
  pub quarantine : Quarantined LivePageRange

unfoldable pub with_quarantine_cap : ℕ → PageSanitizer
with_quarantine_cap cap = record {
  quarantine_cap = cap;
  live = empty_map;
  quarantine = no_quarantine;
}

unfoldable pub new : PageSanitizer
unfolding with_quarantine_cap
new = with_quarantine_cap default_page_quarantine_cap

abbrev pub order_of : Option LivePageRange → Option ℕ
order_of none = none
order_of (some r) = some r.order

unfoldable pub live_order : PageSanitizer → ℕ → Option ℕ
live_order s base_pa = order_of (s.live base_pa)

unfoldable pub page_range_len : ℕ → Option ℕ
page_range_len order = if ltb 19 order then none else some (page * 2 ^ order)

-- `PERM_READ | PERM_WRITE`.
abbrev pub mapped_perm : ℕ
mapped_perm = 3

unfoldable pub alloc_pages : PageSanitizer → Mmu → ℕ → ℕ → Done PageSanitizer
alloc_pages s m base_pa order =
    if contains_key s.live base_pa
    then (err (double_alloc base_pa), (s, m))
    else elim (page_range_len order) [
      | none ↦ (err (invalid_page_order base_pa order), (s, m))
      | some len ↦ then_with s (protect m base_pa len mapped_perm) λ m1. (
        ok tt,
        (
          record s {
            live = insert base_pa (record { order = order }) s.live;
            quarantine = evict_quarantine base_pa s.quarantine;
          },
          m1,
        ),
      )
    ]

abbrev pub forget_live : PageSanitizer → ℕ → PageSanitizer
forget_live s base_pa = record s { live = remove base_pa s.live }

-- The range is no longer live, also where the order is refused or the poisoning fails.
unfoldable pub free_pages : PageSanitizer → Mmu → ℕ → ℕ → Done PageSanitizer
free_pages s m base_pa order =
    if contains_key s.live base_pa
    then elim (page_range_len order) [
      | none ↦ (err (invalid_page_order base_pa order), (forget_live s base_pa, m))
      | some len ↦ then_with (forget_live s base_pa) (poison m base_pa len) λ m1. (
        ok tt,
        (
          record (forget_live s base_pa) {
            quarantine =
                enter_quarantine s.quarantine_cap base_pa (record { order = order }) s.quarantine;
          },
          m1,
        ),
      )
    ]
    else (err (invalid_free base_pa), (s, m))
