-- ===== src/Cow/Bytes.antt =====
-- The byte paths of the copy-on-write view (crates/fs-mmu/src/lib.rs). The fast path serves a span
-- inside one page, the loop resolves each byte by its own page.
use fuzzsoft.Base.{
  ℕ, zero, suc, ◌+◌, ◌/◌, ◌%◌, Bool, ◌&&◌, none, some, List, [], ◌∷◌, Result, ok, err, map_ok,
  and_then, length, get_or, set, slice, splice, update_range, all, leb, if◌then◌else◌,
}
use fuzzsoft.Perm.{permits, perm_read, perm_write, perm_exec, stored_perm}
use fuzzsoft.Fault.{
  Access, read, write, exec, unmapped, permission, Fault, fault, Outcome, u32, check_align,
  to_le_bytes, from_le_bytes,
}
use fuzzsoft.Golden.{page_size}
use fuzzsoft.Cow.{CowRam, CowPage, offset, resolve, ensure_page, blank_page}

-- `off + len <= size && po + len <= PAGE_SIZE`, and every byte of the span has `need`.
abbrev pub span_permits : ℕ → CowRam → ℕ → ℕ → Bool
span_permits need c off len =
    (leb (off + len) (length c.golden.mem) && leb (off % page_size + len) page_size)
    && all (permits need) (slice (resolve c (off / page_size)).perms (off % page_size) len 0)

-- The loop of `read_bytewise` (and of `fetch_bytes`), from byte `i` on.
unfoldable pub read_from : ℕ → Access → CowRam → ℕ → ℕ → ℕ → ℕ → Result (List ℕ) Fault
read_from need access c addr len i zero = ok []
read_from need access c addr len i (suc n) = elim (offset c (u32 (addr + i))) [
  | none ↦ err (fault (u32 (addr + i)) len access unmapped)
  | some off ↦
      if permits need (get_or (resolve c (off / page_size)).perms (off % page_size) 0)
      then map_ok (λ bs. get_or (resolve c (off / page_size)).mem (off % page_size) 0 ∷ bs)
          (read_from need access c addr len (i + 1) n)
      else err (fault (u32 (addr + i)) len access permission)
]

unfoldable pub read_bytewise : CowRam → ℕ → ℕ → Result (List ℕ) Fault
unfolding read_from
read_bytewise c addr len = read_from perm_read read c addr len 0 len

unfoldable pub read_bytes : CowRam → ℕ → ℕ → Result (List ℕ) Fault
read_bytes c addr len = elim (offset c addr) [
  | none ↦ read_bytewise c addr len
  | some off ↦
      if span_permits perm_read c off len
      then ok (slice (resolve c (off / page_size)).mem (off % page_size) len 0)
      else read_bytewise c addr len
]

unfoldable pub fetch_bytes : CowRam → ℕ → ℕ → Result (List ℕ) Fault
fetch_bytes c addr len = elim (offset c addr) [
  | none ↦ read_from perm_exec exec c addr len 0 len
  | some off ↦
      if span_permits perm_exec c off len
      then ok (slice (resolve c (off / page_size)).mem (off % page_size) len 0)
      else read_from perm_exec exec c addr len 0 len
]

-- `self.pages[idx] = f(self.pages[idx])`.
abbrev pub edit_page : (CowPage → CowPage) → ℕ × CowRam → CowRam
edit_page f (idx, c) = record c { pages = set c.pages idx (f (get_or c.pages idx blank_page)) }

-- One byte of `write_bytewise`, after the permission test.
unfoldable pub write_byte : CowRam → ℕ → ℕ → CowRam
write_byte c off b =
    edit_page
      (λ page. record page {
        mem = set page.mem (off % page_size) b;
        perms =
            set page.perms (off % page_size) (stored_perm (get_or page.perms (off % page_size) 0));
      })
      (ensure_page c (off / page_size))

unfoldable pub write_from : CowRam → ℕ → ℕ → ℕ → List ℕ → Outcome CowRam (Unit {0})
write_from c addr len i [] = (ok tt, c)
write_from c addr len i (b ∷ bs) = elim (offset c (u32 (addr + i))) [
  | none ↦ (err (fault (u32 (addr + i)) len write unmapped), c)
  | some off ↦
      if permits perm_write (get_or (resolve c (off / page_size)).perms (off % page_size) 0)
      then write_from (write_byte c off b) addr len (i + 1) bs
      else (err (fault (u32 (addr + i)) len write permission), c)
]

unfoldable pub write_bytewise : CowRam → ℕ → List ℕ → Outcome CowRam (Unit {0})
write_bytewise c addr bytes = write_from c addr (length bytes) 0 bytes

-- The fast path of `write`.
unfoldable pub write_span : CowRam → ℕ → List ℕ → CowRam
write_span c off bytes =
    edit_page
      (λ page. record page {
        mem = splice page.mem (off % page_size) bytes;
        perms = update_range stored_perm page.perms (off % page_size) (length bytes) 0;
      })
      (ensure_page c (off / page_size))

unfoldable pub write_bytes : CowRam → ℕ → List ℕ → Outcome CowRam (Unit {0})
write_bytes c addr bytes = elim (offset c addr) [
  | none ↦ write_bytewise c addr bytes
  | some off ↦
      if span_permits perm_write c off (length bytes)
      then (ok tt, write_span c off bytes)
      else write_bytewise c addr bytes
]

-- `read_u8`, `read_u16` and `read_u32`: `n` is 1, 2 or 4.
unfoldable pub read_word : CowRam → ℕ → ℕ → Result ℕ Fault
read_word c addr n =
    and_then (check_align addr n read) (λ _. map_ok from_le_bytes (read_bytes c addr n))

unfoldable pub write_word : CowRam → ℕ → ℕ → ℕ → Outcome CowRam (Unit {0})
write_word c addr n v = elim (check_align addr n write) [
  | ok _ ↦ write_bytes c addr (to_le_bytes n v)
  | err e ↦ (err e, c)
]

unfoldable pub fetch_word : CowRam → ℕ → ℕ → Result ℕ Fault
fetch_word c addr n =
    and_then (check_align addr n exec) (λ _. map_ok from_le_bytes (fetch_bytes c addr n))
