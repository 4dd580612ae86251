-- ===== src/Driver/Sanitize/Ranges.antt =====
-- Permission changes beside dirty tracking (crates/fs-mmu/src/lib.rs, crates/fs-cli/src/main.rs): a
-- RAM that differs from a golden one in listed blocks, and in permissions in recorded ranges.
pub mod Restored
use fuzzsoft.Base.{
  ℕ, zero, suc, ◌+◌, ◌-◌, ◌^◌, ◌≤◌, ◌<◌, ◌≡◌, refl, ◌∙◌, Bool, true, false, ◌||◌, some, List, [],
  ◌∷◌, ◌++◌, length, get_or, set, arith, length-set, get_or-set,
}
use fuzzsoft.Fault.{u32}
use fuzzsoft.Perm.{with_vtaint}
use fuzzsoft.Mmu.{Mmu, offset, adjust_from, protect, poison, set_vtaint, enable_dirty_tracking}
use fuzzsoft.Mmu.Bytes.{write_bytes}
use fuzzsoft.Mmu.Reset.{Since, words_of, Since-enable, write_bytes-Since}
use fuzzsoft.Mmu.Protect.{covers, adjust_from-cases}
use fuzzsoft.Driver.Sanitize.{with_range}

abbrev pub in_ranges : Mmu → List (ℕ × ℕ) → ℕ → Bool
in_ranges gold [] j = false
in_ranges gold ((addr, len) ∷ ranges) j = covers gold addr len j || in_ranges gold ranges j

-- Permissions that differ from the golden ones where `excused` says so, and no others.
pub record Dirtied (gold : Mmu) (excused : ℕ → Bool) (m : Mmu) : Type 0 where
  pub perms : List ℕ
  pub size : length perms ≡ length gold.mem
  pub outside :
      (j : ℕ) → j < length gold.mem → excused j ≡ false → get_or perms j 0 ≡ get_or gold.perms j 0
  pub since :
      Since
        (enable_dirty_tracking (record gold { perms = perms }))
        (words_of (record gold { perms = perms }))
        m

-- A range whose bytes may all be changed.
abbrev pub Excused : Mmu → (ℕ → Bool) → ℕ → ℕ → Type 0
Excused gold excused addr len =
    (j : ℕ) → j < length gold.mem → covers gold addr len j ≡ true → excused j ≡ true

module _ (gold : Mmu) where
  pub Dirtied-start :
      (excused : ℕ → Bool)
      → length gold.perms ≡ length gold.mem
      → Dirtied gold excused (enable_dirty_tracking gold)
  Dirtied-start excused planes = record {
    perms = gold.perms;
    size = planes;
    outside = λ j inside h. refl;
    since = Since-enable gold planes;
  }

  pub Dirtied-mono :
      (e f : ℕ → Bool) (m : Mmu)
      → ((j : ℕ) → e j ≡ true → f j ≡ true)
      → Dirtied gold e m
      → Dirtied gold f m
  Dirtied-mono e f m more d = record {
    perms = d.perms;
    size = d.size;
    outside = λ j inside h. d.outside j inside (ground (arith, more j));
    since = d.since;
  }

  pub write_bytes-Dirtied :
      (e : ℕ → Bool) (m : Mmu) (addr : ℕ) (bs : List ℕ)
      → gold.base + length gold.mem ≤ 2 ^ 32
      → Dirtied gold e m
      → Dirtied gold e (write_bytes m addr bs).1
  write_bytes-Dirtied e m addr bs fits d = record {
    perms = d.perms;
    size = d.size;
    outside = d.outside;
    since = write_bytes-Since _ _ m addr bs (unfold enable_dirty_tracking in fits) d.since;
  }

  -- One byte whose permission may change.
  set-Dirtied :
      (e : ℕ → Bool) (m : Mmu) (off v : ℕ)
      → off < length gold.mem
      → e off ≡ true
      → Dirtied gold e m
      → Dirtied gold e (record m { perms = set m.perms off v })
  unfolding enable_dirty_tracking words_of
  set-Dirtied e m off v inside may d =
      let s = d.since in
      record {
        perms = set d.perms off v;
        size = length-set d.perms off v ∙ d.size;
        outside = λ j within h. ground (arith, d.outside j within h, get_or-set d.perms off j v 0);
        since = record {
          base = s.base;
          tracking = s.tracking;
          mem_size = s.mem_size;
          perms_size = length-set m.perms off v ∙ s.perms_size;
          within = s.within;
          bitmap_size = s.bitmap_size;
          clears = s.clears;
          mem_agrees = s.mem_agrees;
          perms_agrees = λ j within h. ground (
            arith,
            s.perms_agrees j within h,
            get_or-set m.perms off j v 0,
            get_or-set d.perms off j v 0,
            d.size,
            s.perms_size,
          );
          in_sync = s.in_sync;
        };
      }

  covered_byte :
      (m : Mmu) (addr len i n off : ℕ)
      → m.base ≡ gold.base
      → length m.mem ≡ length gold.mem
      → gold.base + length gold.mem ≤ 2 ^ 32
      → offset m (u32 (addr + i)) ≡ some off
      → i + suc n ≤ len
      → (off < length gold.mem) × (covers gold addr len off ≡ true)
  covered_byte m addr len i n off base size fits at room = ground arith

  -- A loop over the permissions of a range that may be changed, also where it fails halfway.
  adjust_from-Dirtied :
      (e : ℕ → Bool) (f : ℕ → ℕ) (m : Mmu) (addr total len i n : ℕ)
      → gold.base + length gold.mem ≤ 2 ^ 32
      → i + n ≤ len
      → Excused gold e addr len
      → Dirtied gold e m
      → Dirtied gold e (adjust_from f m addr total i n).1
  unfolding enable_dirty_tracking
  adjust_from-Dirtied e f m addr total len i zero fits room may d = unfold adjust_from in d
  adjust_from-Dirtied e f m addr total len i (suc n) fits room may d =
      adjust_from-cases f m addr total i n (λ o. Dirtied gold e o.1) (λ _. d)
        λ off at.
          let s = d.since in
          let (inside, covered) = covered_byte m addr len i n off s.base s.mem_size fits at room in
          adjust_from-Dirtied e f (record m { perms = set m.perms off (f (get_or m.perms off 0)) })
            addr total len (i + 1) n fits (omega arith) may
            (set-Dirtied e m off (f (get_or m.perms off 0)) inside (may off inside covered) d)

  module _ (e : ℕ → Bool) (m : Mmu) (addr len : ℕ) (fits : gold.base + length gold.mem ≤ 2 ^ 32)
      (may : Excused gold e addr len) (d : Dirtied gold e m) where
    pub protect-Dirtied : (v : ℕ) → Dirtied gold e (protect m addr len v).1
    unfolding protect
    protect-Dirtied v = adjust_from-Dirtied e (λ _. v) m addr len len 0 len fits (omega arith) may d

    pub poison-Dirtied : Dirtied gold e (poison m addr len).1
    unfolding poison
    poison-Dirtied = protect-Dirtied 0

    pub set_vtaint-Dirtied : (tainted : Bool) → Dirtied gold e (set_vtaint m addr len tainted).1
    unfolding set_vtaint
    set_vtaint-Dirtied tainted =
        adjust_from-Dirtied e (with_vtaint tainted) m addr len len 0 len fits (omega arith) may d

  -- A part of a range that may be changed.
  pub Excused-part :
      (e : ℕ → Bool) (addr len skip part : ℕ)
      → gold.base + length gold.mem ≤ 2 ^ 32
      → skip + part ≤ len
      → Excused gold e addr len
      → Excused gold e (addr + skip) part
  Excused-part e addr len skip part fits room may j inside h = may j inside (ground (arith, h))

  pub in_ranges-append :
      (ranges : List (ℕ × ℕ)) (addr len j : ℕ)
      → in_ranges gold (ranges ++ ((addr, len) ∷ [])) j
        ≡ in_ranges gold ranges j || covers gold addr len j
  in_ranges-append [] addr len j = ground arith
  in_ranges-append ((a, l) ∷ ranges) addr len j = ground (arith, in_ranges-append ranges addr len j)

  pub in_ranges-with_range :
      (ranges : List (ℕ × ℕ)) (addr len j : ℕ)
      → in_ranges gold (with_range addr len ranges) j
        ≡ in_ranges gold ranges j || covers gold addr len j
  unfolding with_range
  in_ranges-with_range ranges addr len j = ground (arith, in_ranges-append ranges addr len j)
