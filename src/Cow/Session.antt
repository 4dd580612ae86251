-- ===== src/Cow/Session.antt =====
-- A fuzz worker's accesses to guest RAM: the same sequence of reads, fetches, stores and resets on
-- a private view over a shared snapshot, and on a flat RAM that restores dirty blocks
-- (crates/fs-mmu/src/lib.rs).
use mathlib.Core.Path.{fun_ext}
use fuzzsoft.Base.{
  ℕ, ◌+◌, ◌-◌, ◌*◌, ◌/◌, ◌%◌, ◌^◌, ◌≤◌, ◌≡◌, refl, ap, ◌∙◌, List, [], ◌∷◌, Result, length, get_or,
  slice, min, arith, get_or-slice, get_or-replicate, get_or_outside, length-slice,
}
use fuzzsoft.Fault.{Fault, u32}
use fuzzsoft.Golden.{Golden, from_mmu, page_mem, page_perms, num_pages}
use fuzzsoft.Mmu
use fuzzsoft.Mmu.{Mmu, enable_dirty_tracking, reset_dirty}
use fuzzsoft.Mmu.Reset.{
  Since, words_of, Since-enable, reset_dirty-Since, write_bytes-Since, Since-WellFormed,
}
use fuzzsoft.Cow.{CowRam, contents, new, reset, sentinel, slot, resolve, ensure_page}
use fuzzsoft.Cow.Bytes.{
  read_bytes, fetch_bytes, write_bytes, write_byte, write_from, write_bytewise, write_span,
}
use fuzzsoft.Cow.Invariant.{WellFormed}
use fuzzsoft.Cow.Reset.{new-WellFormed, reset-new}
use fuzzsoft.Cow.Simulates.{write_bytes-Refines, read_bytes-Mmu, fetch_bytes-Mmu, write_bytes-Mmu}

-- A byte of a page of the snapshot.
page_byte :
    (xs : List ℕ) (off : ℕ)
    → get_or
        (slice xs
          (off / 4096 * 4096)
          (min (off / 4096 * 4096 + 4096) (length xs) - off / 4096 * 4096)
          0)
        (off % 4096)
        0
      ≡ get_or xs off 0
page_byte xs off =
    let start = off / 4096 * 4096 in
    let n = min (start + 4096) (length xs) - start in
    let at : start + off % 4096 ≡ off = omega arith in
    ground (
      arith,
      get_or-slice n xs start (off % 4096) 0,
      get_or_outside (slice xs start n 0) (off % 4096) 0,
      length-slice {0} xs start n 0,
      get_or_outside xs off 0,
      ap (λ k. get_or xs k 0) at,
    )

-- A fresh view over the snapshot of a RAM shows the bytes and the permissions of that RAM.
pub contents-new : (m : Mmu) → contents (new (from_mmu m)) ≡ Mmu.contents m
unfolding new from_mmu resolve page_mem page_perms
contents-new m = λ i. record {
  base = m.base;
  size = length m.mem;
  mem = fun_ext (λ off. mem_byte off) i;
  perms = fun_ext (λ off. perms_byte off) i;
}
  where
    g : Golden
    g = from_mmu m

    unmade : (p : ℕ) → slot (new g) p ≡ sentinel
    unmade p = get_or-replicate (num_pages g) p sentinel

    mem_byte : (off : ℕ) → (contents (new g)).mem off ≡ get_or m.mem off 0
    mem_byte off = rw (unmade (off / 4096)) (page_byte m.mem off)

    perms_byte : (off : ℕ) → (contents (new g)).perms off ≡ get_or m.perms off 0
    perms_byte off = rw (unmade (off / 4096)) (page_byte m.perms off)

golden-write_byte : (c : CowRam) (off b : ℕ) → (write_byte c off b).golden ≡ c.golden
unfolding write_byte ensure_page
golden-write_byte c off b = ground arith

golden-write_from :
    (bs : List ℕ) (c : CowRam) (addr len i : ℕ) → (write_from c addr len i bs).1.golden ≡ c.golden
unfolding write_from
golden-write_from [] c addr len i = refl
golden-write_from (b ∷ bs) c addr len i =
    let off = u32 (addr + i) - c.golden.base in
    ground
      (arith, golden-write_byte c off b, golden-write_from bs (write_byte c off b) addr len (i + 1))

-- A store never changes the snapshot.
golden-write_bytes :
    (c : CowRam) (addr : ℕ) (bs : List ℕ) → (write_bytes c addr bs).1.golden ≡ c.golden
unfolding write_bytes write_bytewise write_span ensure_page
golden-write_bytes c addr bs = ground (arith, golden-write_from bs c addr (length bs) 0)

pub data Op : Type 0 where
  read_op fetch_op : (addr len : ℕ) → Op
  write_op : (addr : ℕ) (bytes : List ℕ) → Op
  reset_op : Op

pub data Answer : Type 0 where
  bytes : Result (List ℕ) Fault → Answer
  stored : Result (Unit {0}) Fault → Answer
  done : Answer

-- What an access answers, and the RAM after it.
abbrev pub cow_step : Op → CowRam → Answer × CowRam
cow_step (read_op addr len) c = (bytes (read_bytes c addr len), c)
cow_step (fetch_op addr len) c = (bytes (fetch_bytes c addr len), c)
cow_step (write_op addr bs) c = let o = write_bytes c addr bs in (stored (o.0), o.1)
cow_step reset_op c = (done, reset c)

-- The same on the flat RAM, which resets to the planes of `gold`.
abbrev pub flat_step : Mmu → Op → Mmu → Answer × Mmu
flat_step gold (read_op addr len) m = (bytes (Mmu.Bytes.read_bytes m addr len), m)
flat_step gold (fetch_op addr len) m = (bytes (Mmu.Bytes.fetch_bytes m addr len), m)
flat_step gold (write_op addr bs) m = let o = Mmu.Bytes.write_bytes m addr bs in (stored (o.0), o.1)
flat_step gold reset_op m = (done, reset_dirty gold.mem gold.perms m)

-- The answers of a run of accesses.
abbrev pub answers : {S : Type 0} → (Op → S → Answer × S) → List Op → S → List Answer
answers step [] s = []
answers step (op ∷ ops) s = let o = step op s in o.0 ∷ answers step ops (o.1)

-- A view and a flat RAM that show the same and hold their invariants.
pub record Alike (gold : Mmu) (c : CowRam) (m : Mmu) : Type 0 where
  pub view : WellFormed c
  pub since : Since (enable_dirty_tracking gold) (words_of gold) m
  pub same : contents c ≡ Mmu.contents m
  pub frozen : c.golden ≡ from_mmu gold

module _ (gold : Mmu) (planes : length gold.perms ≡ length gold.mem)
    (fits : gold.base + length gold.mem ≤ 2 ^ 32) where
  pub room : (enable_dirty_tracking gold).base + length (enable_dirty_tracking gold).mem ≤ 2 ^ 32
  unfolding enable_dirty_tracking
  room = fits

  pub flat_valid :
      {m : Mmu} → Since (enable_dirty_tracking gold) (words_of gold) m → Mmu.WellFormed m
  flat_valid s = Since-WellFormed (enable_dirty_tracking gold) (words_of gold) room s

  -- The two RAMs as they start.
  pub Alike-start : Alike gold (new (from_mmu gold)) (enable_dirty_tracking gold)
  unfolding new from_mmu
  Alike-start = record {
    view = new-WellFormed (from_mmu gold) planes fits;
    since = Since-enable gold planes;
    same = contents-new gold ∙ (unfold enable_dirty_tracking in refl);
    frozen = refl;
  }

  pub Alike-write :
      (c : CowRam) (m : Mmu) (addr : ℕ) (bs : List ℕ)
      → Alike gold c m
      → ((write_bytes c addr bs).0 ≡ (Mmu.Bytes.write_bytes m addr bs).0)
        × Alike gold (write_bytes c addr bs).1 (Mmu.Bytes.write_bytes m addr bs).1
  Alike-write c m addr bs a =
      let both = write_bytes-Mmu c m a.view (flat_valid a.since) a.same addr bs in
      (
        both.0,
        record {
          view = (write_bytes-Refines c addr bs a.view).valid;
          since =
              write_bytes-Since (enable_dirty_tracking gold) (words_of gold) m addr bs room a.since;
          same = both.1;
          frozen = golden-write_bytes c addr bs ∙ a.frozen;
        },
      )

  pub Alike-reset :
      (c : CowRam) (m : Mmu)
      → Alike gold c m
      → Alike gold (reset c) (reset_dirty gold.mem gold.perms m)
  Alike-reset c m a =
      rw (reset-new c a.view, a.frozen, reset_dirty-Since gold m planes a.since) Alike-start

  Alike-step :
      (op : Op) (c : CowRam) (m : Mmu)
      → Alike gold c m
      → ((cow_step op c).0 ≡ (flat_step gold op m).0)
        × Alike gold (cow_step op c).1 (flat_step gold op m).1
  Alike-step (read_op addr len) c m a =
      (ap bytes (read_bytes-Mmu c m a.view (flat_valid a.since) a.same addr len), a)
  Alike-step (fetch_op addr len) c m a =
      (ap bytes (fetch_bytes-Mmu c m a.view (flat_valid a.since) a.same addr len), a)
  Alike-step (write_op addr bs) c m a = let o = Alike-write c m addr bs a in (ap stored (o.0), o.1)
  Alike-step reset_op c m a = (refl, Alike-reset c m a)

  answers-Alike :
      (ops : List Op) (c : CowRam) (m : Mmu)
      → Alike gold c m
      → answers cow_step ops c ≡ answers (flat_step gold) ops m
  answers-Alike [] c m a = refl
  answers-Alike (op ∷ ops) c m a =
      let s = Alike-step op c m a in
      λ i. s.0 i ∷ answers-Alike ops (cow_step op c).1 (flat_step gold op m).1 (s.1) i

  -- Over a snapshot whose two planes have one length and whose window ends by 2 ^ 32, a run of
  -- reads, fetches, stores and resets in any order gives the same answers, bytes and faults, on a
  -- fresh copy-on-write view as on the flat RAM with dirty tracking that resets to the snapshot.
  pub answers-cow_flat :
      (ops : List Op)
      → answers cow_step ops (new (from_mmu gold))
        ≡ answers (flat_step gold) ops (enable_dirty_tracking gold)
  answers-cow_flat ops =
      answers-Alike ops (new (from_mmu gold)) (enable_dirty_tracking gold) Alike-start
