-- ===== src/San/Alloc/Effects.antt =====
-- What the sanitizer's calls do to the guest's memory (crates/fs-san/src/alloc.rs).
use fuzzsoft.Base.{
  ℕ, ◌+◌, ◌-◌, ◌^◌, ◌≤◌, ◌<◌, max, ◌≡◌, refl, sym, ap, ◌∙◌, true, false, ◌&&◌, inl, inr, some, List,
  ok, err, length, get_or, ltb, leb, ◌==◌, if◌then◌else◌, arith, Bool-cases,
}
use fuzzsoft.Fault.{Outcome, u32}
use fuzzsoft.Mmu.{Mmu, offset, protect, poison, in_bounds}
use fuzzsoft.Mmu.Reset.{stores}
use fuzzsoft.Mmu.Protect.{protect-stamps, protect-window, stamped_at, protect-SameBut}
use fuzzsoft.Mmu.Protect.Poisoned.{Poisoned, Faults, Poisoned-Faults, stores-Poisoned}
use fuzzsoft.San.{Done, then_with, contains_key, enter_quarantine}
use fuzzsoft.San.Alloc.{
  Sanitizer, LiveAlloc, alloc_with_slack, poison_slack, free, free_live, forget_live, uninit_perm,
}

-- A call of the memory in a chain that succeeds has succeeded.
then_with-done :
    {S : Type 0} (s : S) (o : Outcome Mmu (Unit {0})) (k : Mmu → Done S)
    → (then_with s o k).0 ≡ ok tt
    → (o.0 ≡ ok tt) × (then_with s o k ≡ k o.1)
then_with-done s (ok u, m) k h = (refl, refl)
then_with-done s (err f, m) k h = cc

then_with-memory :
    {S : Type 0} (s : S) (o : Outcome Mmu (Unit {0})) (k : Mmu → Done S)
    → ((m : Mmu) → (k m).1.1 ≡ m)
    → (then_with s o k).0 ≡ ok tt
    → (o.0 ≡ ok tt) × ((then_with s o k).1.1 ≡ o.1)
then_with-memory s (ok u, m) k same h = (refl, same m)
then_with-memory s (err f, m) k same h = cc

poison-Poisoned :
    (m : Mmu) (addr len k : ℕ)
    → length m.perms ≡ length m.mem
    → (poison m addr len).0 ≡ ok tt
    → k < len
    → Poisoned (poison m addr len).1 (u32 (addr + k))
unfolding poison
poison-Poisoned m addr len k planes done lt =
    let (off, at, bare) = protect-stamps m addr len 0 k planes done lt in
    let same = protect-SameBut m addr len 0 in
    record {
      planes = same.perms_size ∙ planes ∙ sym (ap length same.mem);
      off = off;
      at = rw (same.base, same.mem) at;
      none_left = bare;
    }

free-poison :
    (s : Sanitizer) (m : Mmu) (addr : ℕ) (a : LiveAlloc)
    → s.live addr ≡ some a
    → a.free_poisons ≡ true
    → (free s m addr).0 ≡ ok tt
    → ((poison m addr a.size).0 ≡ ok tt) × ((free s m addr).1.1 ≡ (poison m addr a.size).1)
unfolding free free_live
free-poison s m addr a live poisons done =
    let step =
      then_with-memory (forget_live s addr) (poison m addr a.size)
        (λ m1. (
          ok tt,
          (
            record (forget_live s addr) {
              quarantine = enter_quarantine s.quarantine_cap addr a s.quarantine;
            },
            m1,
          ),
        ))
        (λ m1. refl) in
    ground (arith, step)

-- A use after free is caught: where `free` succeeds on a live allocation that poisons, in a RAM
-- whose planes have one length, then after any list of stores, those that fault included, a read, a
-- fetch and a write of any length that start at a byte of the freed range fault at it, and the
-- write changes nothing.
pub free-Faults :
    (s : Sanitizer) (m : Mmu) (addr : ℕ) (a : LiveAlloc) (k : ℕ) (ws : List (ℕ × List ℕ))
    → length m.perms ≡ length m.mem
    → s.live addr ≡ some a
    → a.free_poisons ≡ true
    → (free s m addr).0 ≡ ok tt
    → k < a.size
    → Faults (stores (free s m addr).1.1 ws) (u32 (addr + k))
free-Faults s m addr a k ws planes live poisons done lt =
    let (fine, same) = free-poison s m addr a live poisons done in
    Poisoned-Faults _ _ (omega arith)
      (stores-Poisoned ws _ _ (rw same (poison-Poisoned m addr a.size k planes fine lt)))

-- The permission of each byte of the window after an allocation of `req_size` bytes in a bucket.
abbrev pub fenced_at : Mmu → ℕ → ℕ → ℕ → ℕ → ℕ
fenced_at m addr req_size bucket_size j =
    if leb addr (m.base + j) && ltb (m.base + j) (addr + req_size)
    then uninit_perm
    else if leb (addr + req_size) (m.base + j) && ltb (m.base + j) (addr + bucket_size)
    then 0
    else get_or m.perms j 0

pub record Fenced (m : Mmu) (addr req_size bucket_size : ℕ) (d : Done Sanitizer) : Type 0 where
  pub done : d.0 ≡ ok tt
  pub perms :
      (j : ℕ) → j < length m.mem → get_or d.1.1.perms j 0 ≡ fenced_at m addr req_size bucket_size j
  pub mem : d.1.1.mem ≡ m.mem

in_bounds-window :
    (m : Mmu) (addr len : ℕ)
    → m.base + length m.mem ≤ 2 ^ 32
    → m.base ≤ addr
    → 0 < len
    → addr + len ≤ m.base + length m.mem
    → in_bounds m addr len ≡ true
unfolding in_bounds
in_bounds-window m addr len fits lo pos hi =
    let first : offset m addr ≡ some (addr - m.base) = ground arith in
    let last : offset m (addr + (len - 1)) ≡ some (addr + (len - 1) - m.base) = ground arith in
    ground arith

-- Inside the window the slack is poisoned, whatever its length.
poison_slack-window :
    (m : Mmu) (addr req_size bucket_size : ℕ)
    → length m.perms ≡ length m.mem
    → m.base + length m.mem ≤ 2 ^ 32
    → m.base ≤ addr
    → req_size ≤ bucket_size
    → addr + bucket_size ≤ m.base + length m.mem
    → ((poison_slack m addr req_size bucket_size).0 ≡ ok tt)
      × ((j : ℕ)
          → j < length m.mem
          → get_or (poison_slack m addr req_size bucket_size).1.perms j 0
            ≡ stamped_at m (addr + req_size) (bucket_size - req_size) 0 j)
      × ((poison_slack m addr req_size bucket_size).1.mem ≡ m.mem)
unfolding poison_slack
poison_slack-window m addr req_size bucket_size planes fits lo le hi =
    elim (Bool-cases (bucket_size - req_size == 0)) [
      | inl empty ↦ rw empty (refl, λ j inside. ground arith, refl)
      | inr some_slack ↦
          let start = addr + req_size in
          let len = bucket_size - req_size in
          let (done, stamps) =
            protect-window m start len 0 planes fits (omega arith) (omega arith) in
          let tests : (ltb start (2 ^ 32) && in_bounds m start len) ≡ true =
            ground (
              arith,
              in_bounds-window m start len fits (omega arith) (ground arith) (omega arith),
            ) in
          rw (some_slack, tests)
            (unfold poison in (done, stamps, (protect-SameBut m start len 0).mem))
    ]

then_with-ok :
    {S : Type 0} (s : S) (o : Outcome Mmu (Unit {0})) (k : Mmu → Done S)
    → o.0 ≡ ok tt
    → then_with s o k ≡ k o.1
then_with-ok s (ok u, m) k h = refl
then_with-ok s (err f, m) k h = cc

-- For an address that is not live and a bucket inside the window, in a RAM whose planes have one
-- length and whose window ends by 2 ^ 32, `alloc_with_slack` succeeds, makes the requested bytes
-- writable and unreadable until they are written, takes every permission off the rest of the
-- bucket, leaves the permission of every other byte of the RAM as it was, and leaves all contents.
pub alloc_with_slack-Fenced :
    (s : Sanitizer) (m : Mmu) (addr req_size asked : ℕ)
    → length m.perms ≡ length m.mem
    → m.base + length m.mem ≤ 2 ^ 32
    → m.base ≤ addr
    → addr + max asked req_size ≤ m.base + length m.mem
    → contains_key s.live addr ≡ false
    → Fenced m addr req_size (max asked req_size) (alloc_with_slack s m addr req_size asked)
unfolding alloc_with_slack
alloc_with_slack-Fenced s m addr req_size asked planes fits lo hi new =
    let bucket = max asked req_size in
    let (fine, stamped) = protect-window m addr req_size uninit_perm planes fits lo (omega arith) in
    let m1 = (protect m addr req_size uninit_perm).1 in
    let same = protect-SameBut m addr req_size uninit_perm in
    let base : m1.base ≡ m.base = same.base in
    let size : length m1.mem ≡ length m.mem = ap length same.mem in
    let (slack_fine, slack_stamped, slack_mem) =
      poison_slack-window m1 addr req_size bucket (same.perms_size ∙ planes ∙ sym size)
        (omega arith) (omega arith) (omega arith) (omega arith) in
    rw (new, then_with-ok, then_with-ok)
      (record {
        done = refl;
        perms = λ j inside. slack_stamped j (omega arith) ∙ ground (arith, stamped j inside);
        mem = slack_mem ∙ same.mem;
      })
