-- ===== src/Cow/Simulates.antt =====
-- The copy-on-write view beside `Ram` and beside the flat RAM: reads, fetches and writes
-- (crates/fs-mmu/src/lib.rs).
use fuzzsoft.Base.{
  ℕ, ◌+◌, ◌-◌, ◌/◌, ◌%◌, ◌≤◌, ◌<◌, ◌≡◌, refl, sym, ap, ◌∙◌, Bool, true, false, inl, inr, none, some,
  List, [], ◌∷◌, ok, length, get_or, slice, all, arith, Bool-cases, Option-cases, get_or-slice,
  length-slice, all-get_or,
}
use fuzzsoft.Perm.{permits, perm_read, perm_write, perm_exec}
use fuzzsoft.Fault.{Outcome, read, exec, u32}
use fuzzsoft.Ram.{Ram, store_from, load_bytes}
use fuzzsoft.Ram.Laws.{put_bytes, Writable, store_from-put_bytes}
use fuzzsoft.Mmu
use fuzzsoft.Mmu.{Mmu}
use fuzzsoft.Cow.{CowRam, contents, offset, resolve}
use fuzzsoft.Cow.Bytes.{
  write_byte, write_from, write_bytewise, write_span, write_bytes, span_permits, read_bytes,
  fetch_bytes,
}
use fuzzsoft.Cow.Invariant.{WellFormed}
use fuzzsoft.Cow.Writes.{write_byte-Stored, write_span-Stored}
use fuzzsoft.Cow.Refines.{read_bytes-contents, fetch_bytes-contents}

-- What a store returns and leaves, as `Ram` has it.
pub record Refines (out : Outcome CowRam (Unit {0})) (promised : Outcome Ram (Unit {0}))
    : Type 0 where
  pub result : out.0 ≡ promised.0
  pub shows : contents out.1 ≡ promised.1
  pub valid : WellFormed out.1

write_from-step :
    (c : CowRam) (addr len i off b : ℕ) (bs : List ℕ)
    → offset c (u32 (addr + i)) ≡ some off
    → permits perm_write ((contents c).perms off) ≡ true
    → (write_from c addr len i (b ∷ bs) ≡ write_from (write_byte c off b) addr len (i + 1) bs)
      × (store_from (contents c) addr len i (b ∷ bs)
          ≡ store_from (put_bytes (contents c) off (b ∷ [])) addr len (i + 1) bs)
unfolding write_from store_from put_bytes
write_from-step c addr len i off b bs at may = (ground arith, ground arith)

-- Where a byte is refused, both stop with the same fault and leave the state as it is.
write_from-stop :
    (c : CowRam) (addr len i b : ℕ) (bs : List ℕ)
    → ((off : ℕ)
        → offset c (u32 (addr + i)) ≡ some off
        → permits perm_write ((contents c).perms off) ≡ false)
    → ((write_from c addr len i (b ∷ bs)).0 ≡ (store_from (contents c) addr len i (b ∷ bs)).0)
      × ((write_from c addr len i (b ∷ bs)).1 ≡ c)
      × ((store_from (contents c) addr len i (b ∷ bs)).1 ≡ contents c)
unfolding write_from store_from
write_from-stop c addr len i b bs h = elim (Option-cases (offset c (u32 (addr + i)))) [
  | inl out ↦ (ground arith, ground arith, ground arith)
  | inr (off, at) ↦ let refused = h off at in (ground arith, ground arith, ground arith)
]

Refines-stop :
    (c : CowRam) (addr len i b : ℕ) (bs : List ℕ)
    → WellFormed c
    → ((off : ℕ)
        → offset c (u32 (addr + i)) ≡ some off
        → permits perm_write ((contents c).perms off) ≡ false)
    → Refines (write_from c addr len i (b ∷ bs)) (store_from (contents c) addr len i (b ∷ bs))
Refines-stop c addr len i b bs w h =
    let stop = write_from-stop c addr len i b bs h in
    record { result = stop.0; shows = ap contents (stop.1) ∙ sym (stop.2); valid = rw (stop.1) w }

pub write_from-Refines :
    (bs : List ℕ) (c : CowRam) (addr len i : ℕ)
    → WellFormed c
    → Refines (write_from c addr len i bs) (store_from (contents c) addr len i bs)
write_from-Refines [] c addr len i w =
    unfold write_from store_from in record { result = refl; shows = refl; valid = w }
write_from-Refines (b ∷ bs) c addr len i w = elim (Option-cases (offset c (u32 (addr + i)))) [
  | inl out ↦ Refines-stop c addr len i b bs w (λ off at. cc)
  | inr (off, at) ↦ elim (Bool-cases (permits perm_write ((contents c).perms off))) [
    | inl may ↦
        let step = write_from-step c addr len i off b bs at may in
        let stored = write_byte-Stored w off b (ground arith) in
        rw (step.0, step.1, ← stored.shows)
          (write_from-Refines bs (write_byte c off b) addr len (i + 1) (stored.valid))
    | inr may_not ↦ Refines-stop c addr len i b bs w (λ off' at'. ground arith)
  ]
]

-- The permissions that the fast path tests are those of the bytes that it stores.
span_permits-Writable :
    (c : CowRam) (off len : ℕ)
    → off % 4096 + len ≤ 4096
    → all (permits perm_write) (slice (resolve c (off / 4096)).perms (off % 4096) len 0) ≡ true
    → Writable (contents c) off len
span_permits-Writable c off len fit h k lo hi =
    let page : k / 4096 ≡ off / 4096 = omega arith in
    let place : k % 4096 ≡ off % 4096 + (k - off) = omega arith in
    rw (page, place) (all_slice len (off % 4096) (k - off) h (omega arith))
  where
    all_slice :
        (n po i : ℕ)
        → all (permits perm_write) (slice (resolve c (off / 4096)).perms po n 0) ≡ true
        → i < n
        → permits perm_write (get_or (resolve c (off / 4096)).perms (po + i) 0) ≡ true
    all_slice n po i allowed lt = rw (← get_or-slice n (resolve c (off / 4096)).perms po i 0 lt) (
        all-get_or (permits perm_write) (slice (resolve c (off / 4096)).perms po n 0) i 0 allowed
          (rw length-slice lt))

-- Which path `write` takes.
abbrev fast : CowRam → ℕ → List ℕ → Bool
fast c addr bs = elim (offset c addr) [
  | none ↦ false
  | some off ↦ span_permits perm_write c off (length bs)
]

write_bytes-slow :
    (c : CowRam) (addr : ℕ) (bs : List ℕ)
    → fast c addr bs ≡ false
    → write_bytes c addr bs ≡ write_from c addr (length bs) 0 bs
unfolding write_bytes write_bytewise
write_bytes-slow c addr bs h = ground arith

write_bytes-fast :
    (c : CowRam) (addr : ℕ) (bs : List ℕ)
    → fast c addr bs ≡ true
    → let off = addr - c.golden.base in
      (write_bytes c addr bs ≡ (ok tt, write_span c off bs))
      × (c.golden.base ≤ addr)
      × (off < length c.golden.mem)
      × (off + length bs ≤ length c.golden.mem)
      × (off % 4096 + length bs ≤ 4096)
      × (all (permits perm_write) (slice (resolve c (off / 4096)).perms (off % 4096) (length bs) 0)
          ≡ true)
unfolding write_bytes
write_bytes-fast c addr bs h =
    (ground arith, ground arith, ground arith, ground arith, ground arith, ground arith)

-- A write through a well-formed copy-on-write view returns what `Ram` promises, leaves a view that
-- shows the RAM that `Ram` promises, and keeps the view well-formed, on the fast path, on the
-- bytewise path and where the write faults after some bytes.
pub write_bytes-Refines :
    (c : CowRam) (addr : ℕ) (bs : List ℕ)
    → WellFormed c
    → Refines (write_bytes c addr bs) (store_from (contents c) addr (length bs) 0 bs)
write_bytes-Refines c addr bs w = elim (Bool-cases (fast c addr bs)) [
  | inl quick ↦
      let off = addr - c.golden.base in
      let path = write_bytes-fast c addr bs quick in
      let stored = write_span-Stored w off bs (path.2) (path.4) in
      let promise =
        store_from-put_bytes bs (contents c) addr (length bs) 0 off (path.1) (w.fits) (omega arith)
          (path.3) (span_permits-Writable c off (length bs) (path.4) (path.5)) in
      rw (path.0, promise) (record { result = refl; shows = stored.shows; valid = stored.valid })
  | inr slow ↦ rw (write_bytes-slow c addr bs slow) (write_from-Refines bs c addr (length bs) 0 w)
]

-- Two RAMs that show the same bytes and permissions answer a read, a fetch and a write alike, and
-- still show the same afterwards, whatever pages the one has copied and whatever blocks the other
-- has marked.
module _ (c : CowRam) (m : Mmu) (w : WellFormed c) (v : Mmu.WellFormed m)
    (same : contents c ≡ Mmu.contents m) where
  pub read_bytes-Mmu : (addr len : ℕ) → read_bytes c addr len ≡ Mmu.Bytes.read_bytes m addr len
  read_bytes-Mmu addr len =
      read_bytes-contents c addr len w
      ∙ ap (λ r. load_bytes perm_read read r addr len) same
      ∙ sym (Mmu.Refines.read_bytes-load_bytes m addr len v)

  pub fetch_bytes-Mmu : (addr len : ℕ) → fetch_bytes c addr len ≡ Mmu.Bytes.fetch_bytes m addr len
  fetch_bytes-Mmu addr len =
      fetch_bytes-contents c addr len w
      ∙ ap (λ r. load_bytes perm_exec exec r addr len) same
      ∙ sym (Mmu.Refines.fetch_bytes-load_bytes m addr len v)

  pub write_bytes-Mmu :
      (addr : ℕ) (bs : List ℕ)
      → ((write_bytes c addr bs).0 ≡ (Mmu.Bytes.write_bytes m addr bs).0)
        × (contents (write_bytes c addr bs).1 ≡ Mmu.contents (Mmu.Bytes.write_bytes m addr bs).1)
  write_bytes-Mmu addr bs =
      let mine = write_bytes-Refines c addr bs w in
      let flat = Mmu.Spans.write_bytes-store_from m addr bs v in
      let promise = λ (r : Ram). store_from r addr (length bs) 0 bs in
      (
        mine.result ∙ ap (λ r. (promise r).0) same ∙ sym (flat.0),
        mine.shows ∙ ap (λ r. (promise r).1) same ∙ sym (flat.1),
      )
