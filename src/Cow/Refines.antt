-- ===== src/Cow/Refines.antt =====
-- Reads and fetches through a copy-on-write view, beside `Ram` (crates/fs-mmu/src/lib.rs).

use fuzzsoft.Base.{
  ℕ, zero, suc, ◌+◌, ◌-◌, ◌*◌, ◌/◌, ◌%◌, ◌^◌, ◌≤◌, ◌<◌, ◌≡◌, refl, true, some, ok, length, slice,
  all, arith,
}
use fuzzsoft.Perm.{permits, perm_read, perm_exec}
use fuzzsoft.Fault.{Access, read, exec, u32}
use fuzzsoft.Ram.{load_from, load_bytes}
use fuzzsoft.Cow.{CowRam, contents, offset, resolve}
use fuzzsoft.Cow.Bytes.{read_from, read_bytewise, read_bytes, fetch_bytes, span_permits}
use fuzzsoft.Cow.Invariant.{WellFormed}

pub read_from-load_from :
    (need : ℕ) (access : Access) (c : CowRam) (addr len i n : ℕ)
    → read_from need access c addr len i n ≡ load_from need access (contents c) addr len i n
unfolding read_from load_from
read_from-load_from need access c addr len i zero = refl
read_from-load_from need access c addr len i (suc n) =
    ground (arith, read_from-load_from need access c addr len (i + 1) n)

-- The byte at place `po` of page `pn`.
byte_at-contents :
    (c : CowRam) (addr i pn po : ℕ)
    → c.golden.base ≤ addr
    → c.golden.base + length c.golden.mem ≤ 2 ^ 32
    → addr - c.golden.base + i ≡ pn * 4096 + po
    → pn * 4096 + po < length c.golden.mem
    → po < 4096
    → (offset c (u32 (addr + i)) ≡ some (pn * 4096 + po))
      × ((pn * 4096 + po) / 4096 ≡ pn)
      × ((pn * 4096 + po) % 4096 ≡ po)
byte_at-contents c addr i pn po lo fits at inside small = (ground arith, omega arith, omega arith)

-- Where a span inside one page is permitted, the byte loop reads that span.
load_from-page :
    (need : ℕ) (access : Access) (c : CowRam) (addr len i n pn po : ℕ)
    → c.golden.base ≤ addr
    → c.golden.base + length c.golden.mem ≤ 2 ^ 32
    → addr - c.golden.base + i ≡ pn * 4096 + po
    → pn * 4096 + po + n ≤ length c.golden.mem
    → po + n ≤ 4096
    → all (permits need) (slice (resolve c pn).perms po n 0) ≡ true
    → load_from need access (contents c) addr len i n ≡ ok (slice (resolve c pn).mem po n 0)
unfolding load_from slice
load_from-page need access c addr len i zero pn po lo fits at room fit perms = refl
load_from-page need access c addr len i (suc n) pn po lo fits at room fit perms =
    let here = byte_at-contents c addr i pn po lo fits at (omega arith) (omega arith) in
    let rest =
      load_from-page need access c addr len (i + 1) n pn (po + 1) lo fits (omega arith)
        (omega arith) (omega arith) (ground arith) in
    rw (here.0, load_from, here.1, here.2) (ground (arith, rest))

span-contents :
    (need : ℕ) (access : Access) (c : CowRam) (addr off len : ℕ)
    → WellFormed c
    → offset c addr ≡ some off
    → span_permits need c off len ≡ true
    → load_bytes need access (contents c) addr len
      ≡ ok (slice (resolve c (off / 4096)).mem (off % 4096) len 0)
span-contents need access c addr off len w at permitted =
    let place : (c.golden.base ≤ addr) × (off ≡ addr - c.golden.base) = ground arith in
    let parts : (off + len ≤ length c.golden.mem) × (off % 4096 + len ≤ 4096) = ground arith in
    load_from-page need access c addr len 0 len (off / 4096) (off % 4096) (place.0) (w.fits)
      (omega arith) (omega arith) (omega arith) (ground arith)

-- A read through a well-formed copy-on-write view returns the bytes that the view shows, as `Ram`
-- promises, or its fault at the first byte that is outside the window or not readable.
pub read_bytes-contents :
    (c : CowRam) (addr len : ℕ)
    → WellFormed c
    → read_bytes c addr len ≡ load_bytes perm_read read (contents c) addr len
unfolding read_bytes read_bytewise
read_bytes-contents c addr len w = ground (
  arith,
  read_from-load_from perm_read read c addr len 0 len,
  span-contents perm_read read c addr (addr - c.golden.base) len w,
)

-- An instruction fetch through a well-formed copy-on-write view returns the bytes that the view
-- shows, as `Ram` promises with the execute permission, or its fault at the first byte without it.
pub fetch_bytes-contents :
    (c : CowRam) (addr len : ℕ)
    → WellFormed c
    → fetch_bytes c addr len ≡ load_bytes perm_exec exec (contents c) addr len
unfolding fetch_bytes
fetch_bytes-contents c addr len w = ground (
  arith,
  read_from-load_from perm_exec exec c addr len 0 len,
  span-contents perm_exec exec c addr (addr - c.golden.base) len w,
)
