-- ===== src/San/Alloc/Laws.antt =====
-- The bookkeeping of `Sanitizer` through every operation (crates/fs-san/src/alloc.rs).
use fuzzsoft.Base.{
  ℕ, ◌+◌, ◌-◌, ◌≤◌, max, ◌≡◌, refl, Bool, true, false, inl, inr, Option, none, some, List, [], ◌∷◌,
  ok, err, ◌==◌, if◌then◌else◌, arith, Bool-cases, Option-cases,
}
use fuzzsoft.Fault.{Outcome}
use fuzzsoft.Mmu.{Mmu, protect, poison}
use fuzzsoft.San.{HashMap, insert, remove, contains_key, Done, then_with}
use fuzzsoft.San.Quarantine.{
  Keeps, no_quarantine-Keeps, evict_quarantine-Keeps, enter_quarantine-Keeps, remove-Keeps,
}
use fuzzsoft.San.Alloc.{
  Sanitizer, LiveAlloc, with_quarantine_cap, alloc, alloc_with_slack, alloc_exact_no_uaf_guard,
  reopen_slack, reopen, free, free_live, forget_live, record_live, poison_slack,
  poison_guard_before, poison_guard_after,
}

-- A slack lies inside the bytes that `free` poisons.
abbrev pub SlackFits : ℕ → Option (ℕ × ℕ) → Type 0
SlackFits size none = Unit {0}
SlackFits size (some (req_size, bucket_size)) = (req_size ≤ bucket_size) × (bucket_size ≡ size)

abbrev pub FitsAt : Option LiveAlloc → Type 0
FitsAt none = Unit {0}
FitsAt (some a) = SlackFits a.size a.slack

-- No address is both live and in the quarantine, the quarantine lists each of its addresses once
-- and stays within its bound, and every slack lies inside its allocation.
pub record Tracked (s : Sanitizer) : Type 0 where
  pub keeps : Keeps s.quarantine_cap s.live s.quarantine
  pub slack : (a : ℕ) → FitsAt (s.live a)

-- What a call leaves of the sanitizer.
abbrev pub left : Done Sanitizer → Sanitizer
left d = d.1.0

pub with_quarantine_cap-Tracked : (redzone cap : ℕ) → Tracked (with_quarantine_cap redzone cap)
unfolding with_quarantine_cap
with_quarantine_cap-Tracked redzone cap = record {
  keeps = no_quarantine-Keeps cap;
  slack = λ a. tt;
}

-- A call of the memory that fails leaves the sanitizer that it was given.
then_with-Tracked :
    (s : Sanitizer) (o : Outcome Mmu (Unit {0})) (k : Mmu → Done Sanitizer)
    → Tracked s
    → ((m : Mmu) → Tracked (left (k m)))
    → Tracked (left (then_with s o k))
then_with-Tracked s (ok u, m) k t h = h m
then_with-Tracked s (err f, m) k t h = t

if-Tracked :
    (b : Bool) (x y : Done Sanitizer)
    → Tracked (left x)
    → Tracked (left y)
    → Tracked (left (if b then x else y))
if-Tracked true x y t u = t
if-Tracked false x y t u = u

then_with_same :
    (s : Sanitizer) (o : Outcome Mmu (Unit {0})) (k : Mmu → Done Sanitizer)
    → ((m : Mmu) → left (k m) ≡ s)
    → left (then_with s o k) ≡ s
then_with_same s (ok u, m) k h = h m
then_with_same s (err f, m) k h = refl

FitsAt-insert :
    (addr : ℕ) (a : LiveAlloc) (live : HashMap LiveAlloc)
    → SlackFits a.size a.slack
    → ((b : ℕ) → FitsAt (live b))
    → (b : ℕ) → FitsAt (insert addr a live b)
FitsAt-insert addr a live fits h b = elim (Bool-cases (b == addr)) [
  | inl same ↦ rw same fits
  | inr other ↦ rw other (h b)
]

FitsAt-remove :
    (addr : ℕ) (live : HashMap LiveAlloc)
    → ((b : ℕ) → FitsAt (live b))
    → (b : ℕ) → FitsAt (remove addr live b)
FitsAt-remove addr live h b = elim (Bool-cases (b == addr)) [
  | inl same ↦ rw same tt
  | inr other ↦ rw other (h b)
]

record_live-Tracked :
    (s : Sanitizer) (addr : ℕ) (a : LiveAlloc)
    → Tracked s
    → SlackFits a.size a.slack
    → Tracked (record_live s addr a)
unfolding record_live
record_live-Tracked s addr a t fits = record {
  keeps = evict_quarantine-Keeps s.quarantine_cap s.live s.quarantine addr a t.keeps;
  slack = FitsAt-insert addr a s.live fits t.slack;
}

forget_live-Tracked : (s : Sanitizer) (addr : ℕ) → Tracked s → Tracked (forget_live s addr)
forget_live-Tracked s addr t = record {
  keeps = remove-Keeps s.quarantine_cap s.live s.quarantine addr t.keeps;
  slack = FitsAt-remove addr s.live t.slack;
}

alloc-Tracked :
    (s : Sanitizer) (m : Mmu) (addr size : ℕ) → Tracked s → Tracked (left (alloc s m addr size))
unfolding alloc
alloc-Tracked s m addr size t = elim (Bool-cases (contains_key s.live addr)) [
  | inl live ↦ rw live t
  | inr new ↦ rw new (
      then_with-Tracked s (poison_guard_before s m addr) _ t λ m1.
        then_with-Tracked s (poison_guard_after s m1 addr size) _ t λ m2.
          then_with-Tracked s (protect m2 addr size 10) _ t λ m3. record_live-Tracked s addr _ t tt)
]

pub alloc_with_slack-Tracked :
    (s : Sanitizer) (m : Mmu) (addr req_size asked : ℕ)
    → Tracked s
    → Tracked (left (alloc_with_slack s m addr req_size asked))
unfolding alloc_with_slack
alloc_with_slack-Tracked s m addr req_size asked t = elim (Bool-cases (contains_key s.live addr)) [
  | inl live ↦ rw live t
  | inr new ↦ rw new (
      then_with-Tracked s (protect m addr req_size 10) _ t λ m1.
        then_with-Tracked s (poison_slack m1 addr req_size (max asked req_size)) _ t
          λ m2. record_live-Tracked s addr _ t (omega arith, refl))
]

pub alloc_exact_no_uaf_guard-Tracked :
    (s : Sanitizer) (m : Mmu) (addr size : ℕ)
    → Tracked s
    → Tracked (left (alloc_exact_no_uaf_guard s m addr size))
unfolding alloc_exact_no_uaf_guard
alloc_exact_no_uaf_guard-Tracked s m addr size t = elim (Bool-cases (contains_key s.live addr)) [
  | inl live ↦ rw live t
  | inr new ↦
      rw new
        (then_with-Tracked s (protect m addr size 10) _ t λ m1. record_live-Tracked s addr _ t tt)
]

-- `reopen_slack` changes no bookkeeping.
reopen_same :
    (s : Sanitizer) (m : Mmu) (addr : ℕ) (slack : Option (ℕ × ℕ)) → left (reopen s m addr slack) ≡ s
unfolding reopen
reopen_same s m addr none = refl
reopen_same s m addr (some (req_size, bucket_size)) =
    let done =
      then_with_same s (protect m (addr + req_size) (bucket_size - req_size) 10)
        (λ m1. (ok tt, (s, m1))) (λ m1. refl) in
    ground (arith, done)

pub reopen_slack_same : (s : Sanitizer) (m : Mmu) (addr : ℕ) → left (reopen_slack s m addr) ≡ s
unfolding reopen_slack
reopen_slack_same s m addr = elim (Option-cases (s.live addr)) [
  | inl gone ↦ rw (gone, reopen_slack) refl
  | inr (a, live) ↦ rw (live, reopen_slack) (reopen_same s m addr a.slack)
]

free_live-Tracked :
    (s : Sanitizer) (m : Mmu) (addr : ℕ) (a : LiveAlloc)
    → s.live addr ≡ some a
    → Tracked s
    → Tracked (left (free_live s m addr a))
unfolding free_live
free_live-Tracked s m addr a live t =
    if-Tracked a.free_poisons _ _
      (then_with-Tracked (forget_live s addr) (poison m addr a.size) _
        (forget_live-Tracked s addr t)
        λ m1. record {
          keeps =
              enter_quarantine-Keeps s.quarantine_cap s.live s.quarantine addr a (ground arith)
                t.keeps;
          slack = FitsAt-remove addr s.live t.slack;
        })
      (forget_live-Tracked s addr t)

pub free-Tracked : (s : Sanitizer) (m : Mmu) (addr : ℕ) → Tracked s → Tracked (left (free s m addr))
unfolding free
free-Tracked s m addr t = elim (Option-cases (s.live addr)) [
  | inl gone ↦ rw (gone, free) t
  | inr (a, live) ↦ rw (live, free) (free_live-Tracked s m addr a live t)
]

-- A call of the sanitizer.
pub data Op : Type 0 where
  malloc : (addr size : ℕ) → Op
  malloc_with_slack : (addr req_size bucket_size : ℕ) → Op
  malloc_exact : (addr size : ℕ) → Op
  ksize : (addr : ℕ) → Op
  mfree : (addr : ℕ) → Op

abbrev pub call : Op → Sanitizer → Mmu → Done Sanitizer
call (malloc addr size) s m = alloc s m addr size
call (malloc_with_slack addr req_size bucket_size) s m =
    alloc_with_slack s m addr req_size bucket_size
call (malloc_exact addr size) s m = alloc_exact_no_uaf_guard s m addr size
call (ksize addr) s m = reopen_slack s m addr
call (mfree addr) s m = free s m addr

call-Tracked : (op : Op) (s : Sanitizer) (m : Mmu) → Tracked s → Tracked (left (call op s m))
call-Tracked (malloc addr size) s m t = alloc-Tracked s m addr size t
call-Tracked (malloc_with_slack addr req_size bucket_size) s m t =
    alloc_with_slack-Tracked s m addr req_size bucket_size t
call-Tracked (malloc_exact addr size) s m t = alloc_exact_no_uaf_guard-Tracked s m addr size t
call-Tracked (ksize addr) s m t = rw (reopen_slack_same s m addr) t
call-Tracked (mfree addr) s m t = free-Tracked s m addr t

-- A run of calls, whatever each returns, with the memory as other code has left it before each call.
unfoldable pub calls : List (Op × Mmu) → Sanitizer → Sanitizer
calls [] s = s
calls ((op, m) ∷ ops) s = calls ops (left (call op s m))

calls-Tracked : (ops : List (Op × Mmu)) (s : Sanitizer) → Tracked s → Tracked (calls ops s)
unfolding calls
calls-Tracked [] s t = t
calls-Tracked ((op, m) ∷ ops) s t = calls-Tracked ops (left (call op s m)) (call-Tracked op s m t)

-- From a new sanitizer of any redzone and quarantine bound, after any calls of its five operations,
-- each over any memory and whatever it returned: the quarantine lists each of its addresses once
-- and agrees with the map, no live address is in it, its length is at most the larger of the bound
-- and 1, and each live slack lies in its allocation.
pub calls-new-Tracked :
    (redzone cap : ℕ) (ops : List (Op × Mmu))
    → Tracked (calls ops (with_quarantine_cap redzone cap))
calls-new-Tracked redzone cap ops =
    calls-Tracked ops (with_quarantine_cap redzone cap) (with_quarantine_cap-Tracked redzone cap)
