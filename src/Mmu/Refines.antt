-- ===== src/Mmu/Refines.antt =====
-- The byte loops of the flat RAM, beside `Ram` (crates/fs-mmu/src/lib.rs).
use mathlib.Core.Path.{fun_ext}
use fuzzsoft.Base.{
  ℕ, zero, suc, ◌+◌, ◌-◌, ◌^◌, ◌≤◌, ◌<◌, ◌≡◌, refl, ap, true, some, List, [], ◌∷◌, ok, length,
  get_or, set, slice, all, arith, get_or-set, length-set,
}
use fuzzsoft.Perm.{permits, perm_read, perm_exec, stored_perm}
use fuzzsoft.Fault.{Access, read, exec, u32, window_offset}
use fuzzsoft.Ram.{load_from, store_from, load_bytes, put_byte, update}
use fuzzsoft.Mmu.{Mmu, WellFormed, contents, offset}
use fuzzsoft.Mmu.Bytes.{
  read_from, read_bytewise, read_bytes, fetch_bytes, write_byte, write_from, span_permits,
}

pub read_from-load_from :
    (need : ℕ) (access : Access) (m : Mmu) (addr len i n : ℕ)
    → read_from need access m addr len i n ≡ load_from need access (contents m) addr len i n
unfolding read_from load_from
read_from-load_from need access m addr len i zero = refl
read_from-load_from need access m addr len i (suc n) =
    ground (arith, read_from-load_from need access m addr len (i + 1) n)

-- Where a whole slice is permitted, the byte loop reads that slice.
pub load_from-span :
    (need : ℕ) (access : Access) (m : Mmu) (addr len i n : ℕ)
    → m.base ≤ addr
    → m.base + length m.mem ≤ 2 ^ 32
    → addr - m.base + i + n ≤ length m.mem
    → all (permits need) (slice m.perms (addr - m.base + i) n 0) ≡ true
    → load_from need access (contents m) addr len i n ≡ ok (slice m.mem (addr - m.base + i) n 0)
unfolding load_from slice
load_from-span need access m addr len i zero lo fits room perms = refl
load_from-span need access m addr len i (suc n) lo fits room perms =
    let at : window_offset m.base (length m.mem) (u32 (addr + i)) ≡ some (addr - m.base + i) =
      ground arith in
    let next : addr - m.base + i + 1 ≡ addr - m.base + (i + 1) = omega arith in
    let rest = load_from-span need access m addr len (i + 1) n lo fits (omega arith) in
    rw (at, load_from) (ground (arith, rest, ap (λ k. get_or m.mem k 0) next))

window_offset_eq :
    (base size addr off : ℕ)
    → window_offset base size addr ≡ some off
    → (base ≤ addr) × (off ≡ addr - base) × (off < size)
window_offset_eq base size addr off h = ground arith

span_permits_parts :
    (need : ℕ) (m : Mmu) (off len : ℕ)
    → span_permits need m off len ≡ true
    → (off + len ≤ length m.mem) × (all (permits need) (slice m.perms off len 0) ≡ true)
span_permits_parts need m off len h = ground arith

-- The fast path and the loop read the same bytes.
pub span-load_bytes :
    (need : ℕ) (access : Access) (m : Mmu) (addr off len : ℕ)
    → WellFormed m
    → offset m addr ≡ some off
    → span_permits need m off len ≡ true
    → load_bytes need access (contents m) addr len ≡ ok (slice m.mem off len 0)
span-load_bytes need access m addr off len w at permitted =
    let place = window_offset_eq m.base (length m.mem) addr off at in
    let parts = span_permits_parts need m off len permitted in
    let here : addr - m.base + 0 ≡ off = omega arith in
    rw (← here) (
      load_from-span need access m addr len 0 len (place.0) (w.fits) (omega arith)
        (rw here (parts.1)))

-- A read of a well-formed flat RAM returns the bytes that `Ram` promises, or its fault at the first
-- byte that is outside the window or not readable.
pub read_bytes-load_bytes :
    (m : Mmu) (addr len : ℕ)
    → WellFormed m
    → read_bytes m addr len ≡ load_bytes perm_read read (contents m) addr len
unfolding read_bytes read_bytewise
read_bytes-load_bytes m addr len w = ground (
  arith,
  read_from-load_from perm_read read m addr len 0 len,
  span-load_bytes perm_read read m addr (addr - m.base) len w,
)

-- An instruction fetch from a well-formed flat RAM returns the bytes that `Ram` promises with the
-- execute permission, or its fault at the first byte without it.
pub fetch_bytes-load_bytes :
    (m : Mmu) (addr len : ℕ)
    → WellFormed m
    → fetch_bytes m addr len ≡ load_bytes perm_exec exec (contents m) addr len
unfolding fetch_bytes
fetch_bytes-load_bytes m addr len w = ground (
  arith,
  read_from-load_from perm_exec exec m addr len 0 len,
  span-load_bytes perm_exec exec m addr (addr - m.base) len w,
)

contents-write_byte :
    (m : Mmu) (off b : ℕ)
    → length m.perms ≡ length m.mem
    → off < length m.mem
    → contents (write_byte m off b) ≡ put_byte (contents m) off b
unfolding write_byte
contents-write_byte m off b planes lt = λ i. record {
  base = m.base;
  size = length-set m.mem off b i;
  mem = fun_ext (λ j. at_mem j) i;
  perms = fun_ext (λ j. at_perms j) i;
}
  where
    at_mem : (j : ℕ) → get_or (set m.mem off b) j 0 ≡ update (λ k. get_or m.mem k 0) off b j
    at_mem j = ground (arith, get_or-set m.mem off j b 0)

    at_perms :
        (j : ℕ)
        → get_or (set m.perms off (stored_perm (get_or m.perms off 0))) j 0
          ≡ update (λ k. get_or m.perms k 0) off (stored_perm (get_or m.perms off 0)) j
    at_perms j = ground (arith, get_or-set m.perms off j (stored_perm (get_or m.perms off 0)) 0)

planes-write_byte :
    (m : Mmu) (off b : ℕ)
    → length m.perms ≡ length m.mem
    → length (write_byte m off b).perms ≡ length (write_byte m off b).mem
unfolding write_byte
planes-write_byte m off b planes = omega (
  arith,
  length-set {0} m.mem off b,
  length-set {0} m.perms off (stored_perm (get_or m.perms off 0)),
)

-- `write_bytewise` gives the same result and leaves the same RAM as the promise, also where it
-- stops at a fault after some bytes were stored.
pub write_from-store_from :
    (m : Mmu) (addr len i : ℕ) (bs : List ℕ)
    → length m.perms ≡ length m.mem
    → ((write_from m addr len i bs).0 ≡ (store_from (contents m) addr len i bs).0)
      × (contents (write_from m addr len i bs).1 ≡ (store_from (contents m) addr len i bs).1)
unfolding write_from store_from
write_from-store_from m addr len i [] planes = (refl, refl)
write_from-store_from m addr len i (b ∷ bs) planes =
    let off = u32 (addr + i) - m.base in
    ground (
      arith,
      contents-write_byte m off b,
      planes-write_byte m off b,
      write_from-store_from (write_byte m off b) addr len (i + 1) bs,
    )
