-- ===== src/Cow/Device.antt =====
-- The bus-shaped operations of a copy-on-write view (crates/fs-mmu/src/lib.rs), which the machine
-- over it forwards to.
pub mod Laws
use fuzzsoft.Base.{
  ℕ, zero, suc, ◌+◌, ◌*◌, ◌/◌, ◌%◌, ◌^◌, min, Option, none, some, List, Result, bit_and, bit_or,
  nonzero, get_or, set, leb, ◌==◌, if◌then◌else◌,
}
use fuzzsoft.Perm.{permits, with_vtaint}
use fuzzsoft.Fault.{Fault, Outcome, u8, u16, u32}
use fuzzsoft.Golden.{page_size}
use fuzzsoft.Cow.{CowRam, offset, resolve, ensure_page}
use fuzzsoft.Cow.Bytes.{read_word, write_word, fetch_word, edit_page}

unfoldable pub load : CowRam → ℕ → ℕ → Result ℕ Fault
load c addr size =
    if size == 1
    then read_word c addr 1
    else (if size == 2 then read_word c addr 2 else read_word c addr 4)

unfoldable pub store : CowRam → ℕ → ℕ → ℕ → Outcome CowRam (Unit {0})
store c addr size val =
    if size == 1
    then write_word c addr 1 (u8 val)
    else (if size == 2 then write_word c addr 2 (u16 val) else write_word c addr 4 val)

unfoldable pub ifetch16 : CowRam → ℕ → Result ℕ Fault
ifetch16 c addr = fetch_word c addr 2

-- The bytes `i .. i + n` of `read_raw_state`; 40 is `PERM_RAW | PERM_VTAINT`.
unfoldable pub raw_state_from : CowRam → ℕ → ℕ → ℕ → ℕ → ℕ
raw_state_from c addr i zero mask = mask
raw_state_from c addr i (suc n) mask =
    raw_state_from c addr (i + 1) n (elim (offset c (u32 (addr + i))) [
      | none ↦ mask
      | some off ↦
          if permits 40 (get_or (resolve c (off / page_size)).perms (off % page_size) 0)
          then bit_or mask (2 ^ (8 * i))
          else mask
    ])

unfoldable pub read_raw_state : CowRam → ℕ → ℕ → ℕ
unfolding raw_state_from
read_raw_state c addr len = raw_state_from c addr 0 (min len 4) 0

-- The permission bytes `po + i .. po + i + n` of a page, tainted as the mask says.
unfoldable pub taint_from : List ℕ → ℕ → ℕ → ℕ → ℕ → List ℕ
taint_from perms po i zero mask = perms
taint_from perms po i (suc n) mask =
    taint_from
      (set perms (po + i)
        (with_vtaint (nonzero (bit_and (mask / 2 ^ (8 * i)) 1)) (get_or perms (po + i) 0)))
      po (i + 1) n mask

unfoldable pub write_shadow : CowRam → ℕ → ℕ → ℕ → CowRam
unfolding taint_from
write_shadow c addr len mask = elim (offset c addr) [
  | none ↦ c
  | some off ↦
      if leb (off % page_size + min len 4) page_size
      then edit_page
          (λ page. record page {
            perms = taint_from page.perms (off % page_size) 0 (min len 4) mask;
          })
          (ensure_page c (off / page_size))
      else c
]
