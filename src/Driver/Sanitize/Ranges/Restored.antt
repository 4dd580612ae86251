-- ===== src/Driver/Sanitize/Ranges/Restored.antt =====
-- Putting the recorded ranges back: `restore_dirtied_perms` after the dirty reset
-- (crates/fs-cli/src/main.rs).
use fuzzsoft.Base.{
  ℕ, zero, suc, ◌+◌, ◌-◌, ◌^◌, ◌≤◌, ◌<◌, ◌≡◌, sym, ap, ◌∙◌, Bool, true, false, ◌&&◌, not, inl, inr,
  List, [], ◌∷◌, length, get_or, set, ltb, leb, ◌==◌, if◌then◌else◌, arith, Bool-cases, length-set,
  get_or-set, get_or_ext,
}
use fuzzsoft.Fault.{u32}
use fuzzsoft.Mmu.{Mmu, protect, adjust_from, enable_dirty_tracking, reset_dirty}
use fuzzsoft.Mmu.Reset.{
  words_of, reset_dirty-Since, Within, get_or-restore_blocks, length-restore_blocks,
}
use fuzzsoft.Driver.Sanitize.{restore_range, restore_ranges}
use fuzzsoft.Driver.Sanitize.Ranges.{in_ranges, Dirtied}

-- A RAM that is the golden one but for some permissions.
pub record Mostly (gold : Mmu) (excused : ℕ → Bool) (m : Mmu) : Type 0 where
  pub base : m.base ≡ gold.base
  pub mem : m.mem ≡ gold.mem
  pub tracking : m.track_dirty ≡ true
  pub dirty : m.dirty ≡ (enable_dirty_tracking gold).dirty
  pub perms_size : length m.perms ≡ length gold.mem
  pub agrees :
      (j : ℕ) → j < length gold.mem → excused j ≡ false → get_or m.perms j 0 ≡ get_or gold.perms j 0

module _ (gold : Mmu) (planes : length gold.perms ≡ length gold.mem)
    (fits : gold.base + length gold.mem ≤ 2 ^ 32) where
  -- One byte that is put back.
  abbrev put_back : Mmu → ℕ → Mmu
  put_back m a =
      if leb gold.base a && ltb (a - gold.base) (length gold.perms)
      then (protect m a 1 (get_or gold.perms (a - gold.base) 0)).1
      else m

  put_back_lem :
      (m : Mmu) (a : ℕ)
      → m.base ≡ gold.base
      → length m.mem ≡ length gold.mem
      → a < 2 ^ 32
      → put_back m a ≡ (
          if leb gold.base a && ltb (a - gold.base) (length gold.perms)
          then record m {
            perms = set m.perms (a - gold.base) (get_or gold.perms (a - gold.base) 0);
          }
          else m)
  unfolding protect adjust_from
  put_back_lem m a base size small = let same : u32 (a + 0) ≡ a = omega arith in ground arith

  put_back-Mostly :
      (e : ℕ → Bool) (m : Mmu) (a : ℕ) → a < 2 ^ 32 → Mostly gold e m → Mostly gold e (put_back m a)
  put_back-Mostly e m a small k =
      rw (put_back_lem m a k.base (ap length k.mem) small)
        (elim (Bool-cases (leb gold.base a && ltb (a - gold.base) (length gold.perms))) [
          | inr out ↦ rw out k
          | inl inside ↦
              let off = a - gold.base in
              let v = get_or gold.perms off 0 in
              rw inside (record {
                base = k.base;
                mem = k.mem;
                tracking = k.tracking;
                dirty = k.dirty;
                perms_size = length-set m.perms off v ∙ k.perms_size;
                agrees = λ j within h. ground (
                  arith,
                  k.agrees j within h,
                  get_or-set m.perms off j v 0,
                  ap (λ t. get_or gold.perms t 0),
                );
              })
        ])

  pub Mostly-mono :
      (e f : ℕ → Bool) (m : Mmu)
      → ((j : ℕ) → j < length gold.mem → e j ≡ true → f j ≡ true)
      → Mostly gold e m
      → Mostly gold f m
  Mostly-mono e f m more k = record {
    base = k.base;
    mem = k.mem;
    tracking = k.tracking;
    dirty = k.dirty;
    perms_size = k.perms_size;
    agrees = λ j within h. k.agrees j within (ground (arith, more j within));
  }

  -- The byte that is put back agrees.
  put_back-byte :
      (e : ℕ → Bool) (m : Mmu) (a j : ℕ)
      → a < 2 ^ 32
      → Mostly gold e m
      → j < length gold.mem
      → gold.base + j ≡ a
      → get_or (put_back m a).perms j 0 ≡ get_or gold.perms j 0
  put_back-byte e m a j small k within at =
      let here : a - gold.base ≡ j = omega arith in
      rw (put_back_lem m a k.base (ap length k.mem) small) (
        ground (
          arith,
          k.perms_size,
          get_or-set m.perms (a - gold.base) j (get_or gold.perms (a - gold.base) 0) 0,
          ap (λ t. get_or gold.perms t 0) here,
        ))

  abbrev except : ℕ → (ℕ → Bool) → ℕ → Bool
  except a e j = e j && not (gold.base + j == a)

  put_back-except :
      (e : ℕ → Bool) (m : Mmu) (a : ℕ)
      → a < 2 ^ 32
      → Mostly gold e m
      → Mostly gold (except a e) (put_back m a)
  put_back-except e m a small k =
      let p = put_back-Mostly e m a small k in
      record {
        base = p.base;
        mem = p.mem;
        tracking = p.tracking;
        dirty = p.dirty;
        perms_size = p.perms_size;
        agrees = λ j within h. elim (Bool-cases (gold.base + j == a)) [
          | inl here ↦ put_back-byte e m a j small k within (ground arith)
          | inr there ↦ p.agrees j within (ground arith)
        ];
      }

  -- The place of a byte in a range.
  abbrev place : ℕ → ℕ → ℕ
  place addr j = u32 (gold.base + j + 2 ^ 32 - u32 addr)

  abbrev left_over : ℕ → ℕ → ℕ → (ℕ → Bool) → ℕ → Bool
  left_over addr i n e j = e j && not (leb i (place addr j) && ltb (place addr j) (i + n))

  restore_range-Mostly :
      (addr i n : ℕ) (e : ℕ → Bool) (m : Mmu)
      → Mostly gold e m
      → Mostly gold (left_over addr i n e) (restore_range gold.perms gold.base addr i n m)
  unfolding restore_range
  restore_range-Mostly addr i zero e m k =
      Mostly-mono e (left_over addr i 0 e) m (λ j within h. ground arith) k
  restore_range-Mostly addr i (suc n) e m k =
      let a = u32 (addr + i) in
      Mostly-mono (left_over addr (i + 1) n (except a e)) (left_over addr i (suc n) e) _
        (λ j within h. ground arith)
        (restore_range-Mostly addr (i + 1) n (except a e) (put_back m a)
          (put_back-except e m a (omega arith) k))

  abbrev not_in : List (ℕ × ℕ) → (ℕ → Bool) → ℕ → Bool
  not_in ranges e j = e j && not (in_ranges gold ranges j)

  pub restore_ranges-Mostly :
      (ranges : List (ℕ × ℕ)) (e : ℕ → Bool) (m : Mmu)
      → Mostly gold e m
      → Mostly gold (not_in ranges e) (restore_ranges gold.perms gold.base ranges m)
  unfolding restore_ranges
  restore_ranges-Mostly [] e m k = Mostly-mono e (not_in [] e) m (λ j within h. ground arith) k
  restore_ranges-Mostly ((addr, len) ∷ ranges) e m k =
      Mostly-mono (not_in ranges (left_over addr 0 len e)) (not_in ((addr, len) ∷ ranges) e) _
        (λ j within h. ground arith)
        (restore_ranges-Mostly ranges (left_over addr 0 len e) _
          (restore_range-Mostly addr 0 len e m k))

  -- After the dirty reset only the recorded permissions differ.
  pub reset_dirty-Mostly :
      (e : ℕ → Bool) (m : Mmu)
      → Dirtied gold e m
      → Mostly gold e (reset_dirty gold.mem gold.perms m)
  unfolding reset_dirty enable_dirty_tracking words_of
  reset_dirty-Mostly e m d =
      let s = d.since in
      let back = reset_dirty-Since (record gold { perms = d.perms }) m d.size s in
      record {
        base = s.base;
        mem = ap (λ (r : Mmu). r.mem) back;
        tracking = s.tracking;
        dirty = ap (λ (r : Mmu). r.dirty) back;
        perms_size = length-restore_blocks gold.perms m.dirty.blocks m.perms ∙ s.perms_size;
        agrees = λ j within h.
            let within' : Within (length m.perms) m.dirty.blocks = rw (s.perms_size) (s.within) in
            ground (
              arith,
              get_or-restore_blocks gold.perms m.dirty.blocks m.perms j within'
                  (omega (arith, s.perms_size)),
              s.perms_agrees j within,
              d.outside j within h,
            );
      }

  -- A RAM that differs nowhere is the golden one, under dirty tracking.
  pub Mostly-none :
      (e : ℕ → Bool) (m : Mmu)
      → ((j : ℕ) → e j ≡ false)
      → Mostly gold e m
      → m ≡ enable_dirty_tracking gold
  unfolding enable_dirty_tracking
  Mostly-none e m never k = λ i. record {
    base = k.base i;
    mem = k.mem i;
    perms =
        get_or_ext 0 m.perms gold.perms (k.perms_size ∙ sym planes)
          (λ j within. k.agrees j (omega (arith, k.perms_size)) (never j)) i;
    track_dirty = k.tracking i;
    dirty = k.dirty i;
  }
