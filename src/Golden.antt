-- ===== src/Golden.antt =====
-- `Golden`, the immutable snapshot that every copy-on-write view shares
-- (crates/fs-mmu/src/lib.rs).
pub mod Laws
use fuzzsoft.Base.{
  ℕ, ◌+◌, ◌-◌, ◌*◌, ◌/◌, ◌%◌, Bool, ◌&&◌, Option, none, some, List, [], ◌∷◌, length, get_or, slice,
  min, all, leb, ◌==◌, if◌then◌else◌,
}
use fuzzsoft.Perm.{permits, perm_read, perm_exec}
use fuzzsoft.Fault.{window_offset, from_le_bytes}
use fuzzsoft.Mmu.{Mmu, div_ceil}
use fuzzsoft.Ram.{Ram}

abbrev pub page_size : ℕ
page_size = 4096

pub record Golden : Type 0 where
  pub base : ℕ
  pub mem : List ℕ
  pub perms : List ℕ

unfoldable pub from_mmu : Mmu → Golden
from_mmu m = record { base = m.base; mem = m.mem; perms = m.perms }

abbrev pub num_pages : Golden → ℕ
num_pages g = div_ceil (length g.mem) page_size

unfoldable pub page_mem : Golden → ℕ → List ℕ
page_mem g pn =
    let start = pn * page_size in
    let end = min (start + page_size) (length g.mem) in slice g.mem start (end - start) 0

unfoldable pub page_perms : Golden → ℕ → List ℕ
page_perms g pn =
    let start = pn * page_size in
    let end = min (start + page_size) (length g.perms) in slice g.perms start (end - start) 0

abbrev pub offset : Golden → ℕ → Option ℕ
offset g addr = window_offset g.base (length g.mem) addr

unfoldable pub read_u8 : Golden → ℕ → Option ℕ
read_u8 g addr = elim (offset g addr) [
  | none ↦ none
  | some off ↦ if permits perm_read (get_or g.perms off 0) then some (get_or g.mem off 0) else none
]

-- `read_u16`, `read_u32` and `fetch_u16`, which differ in the width and the permission.
unfoldable pub access_word : ℕ → Golden → ℕ → ℕ → Option ℕ
access_word need g addr n =
    if addr % n == 0
    then elim (offset g addr) [
      | none ↦ none
      | some off ↦
          if leb (off + n) (length g.mem) && all (permits need) (slice g.perms off n 0)
          then some (from_le_bytes (slice g.mem off n 0))
          else none
    ]
    else none

unfoldable pub read_sized : Golden → ℕ → ℕ → Option ℕ
read_sized g addr size =
    if size == 1
    then read_u8 g addr
    else (if size == 2 then access_word perm_read g addr 2 else access_word perm_read g addr 4)

unfoldable pub fetch_u16 : Golden → ℕ → Option ℕ
fetch_u16 g addr = access_word perm_exec g addr 2

-- The RAM of the snapshot.
abbrev pub contents : Golden → Ram
contents g = record {
  base = g.base;
  size = length g.mem;
  mem = λ off. get_or g.mem off 0;
  perms = λ off. get_or g.perms off 0;
}
