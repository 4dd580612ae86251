-- ===== src/Cow/Reset.antt =====
-- `CowRam::new` and `CowRam::reset` (crates/fs-mmu/src/lib.rs).
use fuzzsoft.Base.{
  ℕ, zero, suc, ◌+◌, ◌^◌, ◌≤◌, ◌≡◌, refl, sym, ◌∙◌, List, [], ◌∷◌, length, get_or, set, replicate,
  if◌then◌else◌, arith, get_or-set, length-set, length-replicate, get_or-replicate, get_or_outside,
  get_or_ext,
}
use fuzzsoft.Golden.{Golden, num_pages}
use fuzzsoft.Cow.{CowRam, sentinel, slot, new, forget, reset}
use fuzzsoft.Cow.Invariant.{WellFormed, listed, overlays}

overlays-replicate : (n : ℕ) → overlays (replicate n sentinel) ≡ 0
unfolding replicate
overlays-replicate zero = refl
overlays-replicate (suc n) = overlays-replicate n

-- A directory of sentinels is no overlay anywhere.
slot-new : (g : Golden) (p : ℕ) → slot (new g) p ≡ sentinel
unfolding new
slot-new g p = get_or-replicate (num_pages g) p sentinel

pub new-WellFormed :
    (g : Golden)
    → length g.perms ≡ length g.mem
    → g.base + length g.mem ≤ 2 ^ 32
    → WellFormed (new g)
unfolding new
new-WellFormed g planes fits = record {
  planes = planes;
  fits = fits;
  dir_size = length-replicate (num_pages g) sentinel;
  slots = λ p over. absurd (over (slot-new g p));
  distinct = λ p q over same. absurd (over (slot-new g p));
  mem_sizes = λ i lt. absurd (omega arith);
  perms_sizes = λ i lt. absurd (omega arith);
  counted = sym (overlays-replicate (num_pages g));
  dirty_listed = λ p over. absurd (over (slot-new g p));
}

get_or-forget :
    (pns dir : List ℕ) (p : ℕ)
    → get_or (forget pns dir) p sentinel
      ≡ (if listed pns p then sentinel else get_or dir p sentinel)
unfolding forget
get_or-forget [] dir p = refl
get_or-forget (q ∷ pns) dir p =
    get_or-forget pns (set dir q sentinel) p
    ∙ ground (arith, get_or-set dir q p sentinel sentinel, get_or_outside dir p sentinel)

length-forget : (pns dir : List ℕ) → length (forget pns dir) ≡ length dir
unfolding forget
length-forget [] dir = refl
length-forget (q ∷ pns) dir = length-forget pns (set dir q sentinel) ∙ length-set dir q sentinel

-- On a well-formed copy-on-write view `reset` gives the view that `new` makes over the same
-- snapshot: no page has an overlay.
pub reset-new : (c : CowRam) → WellFormed c → reset c ≡ new c.golden
unfolding reset new
reset-new c w = λ i. record { golden = c.golden; dir = all_golden i; pages = []; dirty = [] }
  where
    all_golden : forget c.dirty c.dir ≡ replicate (num_pages c.golden) sentinel
    all_golden =
        get_or_ext sentinel (forget c.dirty c.dir) (replicate (num_pages c.golden) sentinel)
          (length-forget c.dirty c.dir
            ∙ w.dir_size
            ∙ sym (length-replicate (num_pages c.golden) sentinel))
          (λ p inside.
            get_or-forget c.dirty c.dir p
            ∙ ground (arith, w.dirty_listed p, get_or-replicate (num_pages c.golden) p sentinel))
