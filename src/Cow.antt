-- ===== src/Cow.antt =====
-- `CowRam`: a private view over a shared `Golden`, which copies a 4 KiB page on its first write
-- (crates/fs-mmu/src/lib.rs).
pub mod Bytes
pub mod Device
pub mod Invariant
pub mod Refines
pub mod Writes
pub mod Simulates
pub mod Reset
pub mod Session
use fuzzsoft.Base.{
  ℕ, zero, suc, ◌+◌, ◌-◌, ◌*◌, ◌/◌, ◌%◌, ◌^◌, ◌≤◌, ◌<◌, ◌≡◌, ◌≢◌, Bool, true, false, ◌&&◌, not,
  Option, none, some, List, [], ◌∷◌, ◌++◌, length, get_or, set, replicate, splice, ltb, ◌==◌,
  if◌then◌else◌,
}
use fuzzsoft.Fault.{u32, window_offset}
use fuzzsoft.Ram.{Ram}
use fuzzsoft.Golden
use fuzzsoft.Golden.{Golden, page_size, page_mem, page_perms, num_pages}

abbrev pub sentinel : ℕ
sentinel = 2 ^ 32 - 1

pub record CowPage : Type 0 where
  pub mem : List ℕ
  pub perms : List ℕ

-- A zeroed page.
unfoldable pub blank_page : CowPage
blank_page = record { mem = replicate page_size 0; perms = replicate page_size 0 }

pub record CowRam : Type 0 where
  pub golden : Golden
  pub dir : List ℕ
  pub pages : List CowPage
  pub dirty : List ℕ

unfoldable pub new : Golden → CowRam
new g = record { golden = g; dir = replicate (num_pages g) sentinel; pages = []; dirty = [] }

abbrev pub offset : CowRam → ℕ → Option ℕ
offset c addr = window_offset c.golden.base (length c.golden.mem) addr

abbrev pub slot : CowRam → ℕ → ℕ
slot c pn = get_or c.dir pn sentinel

-- The two planes that page `pn` resolves to.
unfoldable pub resolve : CowRam → ℕ → CowPage
resolve c pn =
    if slot c pn == sentinel
    then record { mem = page_mem c.golden pn; perms = page_perms c.golden pn }
    else get_or c.pages (slot c pn) blank_page

-- The page that `ensure_page` copies from the snapshot.
unfoldable pub golden_page : Golden → ℕ → CowPage
golden_page g pn = record {
  mem = splice (blank_page.mem) 0 (page_mem g pn);
  perms = splice (blank_page.perms) 0 (page_perms g pn);
}

-- The index of the page's overlay, which is made first if there is none.
unfoldable pub ensure_page : CowRam → ℕ → ℕ × CowRam
unfolding golden_page
ensure_page c pn =
    if slot c pn == sentinel
    then (
      length c.pages,
      record c {
        dir = set c.dir pn (u32 (length c.pages));
        pages = c.pages ++ (golden_page c.golden pn ∷ []);
        dirty = c.dirty ++ (u32 pn ∷ []);
      },
    )
    else (slot c pn, c)

unfoldable pub perm_at : CowRam → ℕ → Option ℕ
perm_at c addr = elim (offset c addr) [
  | none ↦ none
  | some off ↦ some (get_or (resolve c (off / page_size)).perms (off % page_size) 0)
]

-- `for &pn in &self.dirty { self.dir[pn] = SENTINEL }`.
unfoldable pub forget : List ℕ → List ℕ → List ℕ
forget [] dir = dir
forget (pn ∷ pns) dir = forget pns (set dir pn sentinel)

unfoldable pub reset : CowRam → CowRam
unfolding forget
reset c = record c { dir = forget c.dirty c.dir; pages = []; dirty = [] }

unfoldable pub is_overlaid : CowRam → ℕ → Bool
is_overlaid c pn = ltb pn (length c.dir) && not (slot c pn == sentinel)

-- The RAM that the view shows.
abbrev pub contents : CowRam → Ram
contents c = record {
  base = c.golden.base;
  size = length c.golden.mem;
  mem = λ off. get_or (resolve c (off / page_size)).mem (off % page_size) 0;
  perms = λ off. get_or (resolve c (off / page_size)).perms (off % page_size) 0;
}
