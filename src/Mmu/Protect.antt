-- ===== src/Mmu/Protect.antt =====
-- What `protect` and its kin do to the permission plane, byte by byte (crates/fs-mmu/src/lib.rs).
pub mod Poisoned
use fuzzsoft.Base.{
  ℕ, zero, suc, ◌+◌, ◌-◌, ◌^◌, ◌≤◌, ◌<◌, ◌≡◌, refl, ◌∙◌, Bool, false, ◌&&◌, inl, inr, some, ok, err,
  length, get_or, set, ltb, leb, ◌==◌, if◌then◌else◌, arith, Bool-cases, Option-cases, length-set,
  get_or-set,
}
use fuzzsoft.Fault.{Fault, Outcome, u32}
use fuzzsoft.Mmu.{Mmu, offset, adjust_from, protect}

-- Whether the byte at `off` of the window is one of the `len` bytes from `addr` on.
abbrev pub covers : Mmu → ℕ → ℕ → ℕ → Bool
covers m addr len off = ltb (u32 (m.base + off + 2 ^ 32 - u32 addr)) len

-- The two planes but for the permissions.
pub record SameBut (m m' : Mmu) : Type 0 where
  pub base : m'.base ≡ m.base
  pub mem : m'.mem ≡ m.mem
  pub tracking : m'.track_dirty ≡ m.track_dirty
  pub dirty : m'.dirty ≡ m.dirty
  pub perms_size : length m'.perms ≡ length m.perms

-- A byte of the loop is outside the window, or it is adjusted and the loop goes on.
pub adjust_from-cases :
    (f : ℕ → ℕ) (m : Mmu) (addr len i n : ℕ) (P : Outcome Mmu (Unit {0}) → Type 0)
    → ((e : Fault) → P (err e, m))
    → ((off : ℕ)
        → offset m (u32 (addr + i)) ≡ some off
        → P (
            adjust_from f
              (record m { perms = set m.perms off (f (get_or m.perms off 0)) })
              addr
              len
              (i + 1)
              n))
    → P (adjust_from f m addr len i (suc n))
unfolding adjust_from
adjust_from-cases f m addr len i n P out next = elim (Option-cases (offset m (u32 (addr + i)))) [
  | inl gone ↦ rw (gone, adjust_from) (out _)
  | inr (off, at) ↦ rw (at, adjust_from) (next off at)
]

pub adjust_from-SameBut :
    (f : ℕ → ℕ) (m : Mmu) (addr len i n : ℕ) → SameBut m (adjust_from f m addr len i n).1
adjust_from-SameBut f m addr len i zero =
    unfold adjust_from in
    record { base = refl; mem = refl; tracking = refl; dirty = refl; perms_size = refl }
adjust_from-SameBut f m addr len i (suc n) =
    adjust_from-cases f m addr len i n (λ o. SameBut m (o.1))
      (λ _. record { base = refl; mem = refl; tracking = refl; dirty = refl; perms_size = refl })
      λ off at.
        let v = f (get_or m.perms off 0) in
        let ih =
          adjust_from-SameBut f (record m { perms = set m.perms off v }) addr len (i + 1) n in
        record {
          base = ih.base;
          mem = ih.mem;
          tracking = ih.tracking;
          dirty = ih.dirty;
          perms_size = ih.perms_size ∙ length-set m.perms off v;
        }

-- A byte that the loop does not come to keeps its permission, also where the loop fails.
pub adjust_from-outside :
    (f : ℕ → ℕ) (m : Mmu) (addr len i n j : ℕ)
    → m.base + length m.mem ≤ 2 ^ 32
    → j < length m.mem
    → covers m addr (i + n) j ≡ false
    → get_or (adjust_from f m addr len i n).1.perms j 0 ≡ get_or m.perms j 0
adjust_from-outside f m addr len i zero j fits inside h = unfold adjust_from in refl
adjust_from-outside f m addr len i (suc n) j fits inside h =
    adjust_from-cases f m addr len i n (λ o. get_or o.1.perms j 0 ≡ get_or m.perms j 0) (λ _. refl)
      λ off at.
        let v = f (get_or m.perms off 0) in
        adjust_from-outside f (record m { perms = set m.perms off v }) addr len (i + 1) n j fits
          inside (ground arith)
        ∙ ground (arith, get_or-set m.perms off j v 0)

-- A permission that `protect` stamps stays as the loop goes on.
stamped-stays :
    (v : ℕ) (m : Mmu) (addr len i n j : ℕ)
    → j < length m.perms
    → get_or m.perms j 0 ≡ v
    → get_or (adjust_from (λ _. v) m addr len i n).1.perms j 0 ≡ v
stamped-stays v m addr len i zero j inside h = unfold adjust_from in h
stamped-stays v m addr len i (suc n) j inside h =
    adjust_from-cases (λ _. v) m addr len i n (λ o. get_or o.1.perms j 0 ≡ v) (λ _. h)
      λ off at.
        stamped-stays v (record m { perms = set m.perms off v }) addr len (i + 1) n j
          (omega (arith, length-set {0} m.perms off v))
          (ground (arith, get_or-set m.perms off j v 0))

-- A loop that succeeds has stamped each byte of the range, which is in the window.
abbrev Stamped : ℕ → Mmu → ℕ → Outcome Mmu (Unit {0}) → Type 0
Stamped v m a o = o.0 ≡ ok tt → (off : ℕ) × (offset m a ≡ some off) × (get_or o.1.perms off 0 ≡ v)

adjust_from-Stamped :
    (v : ℕ) (m : Mmu) (addr len i n k : ℕ)
    → length m.perms ≡ length m.mem
    → i ≤ k
    → k < i + n
    → Stamped v m (u32 (addr + k)) (adjust_from (λ _. v) m addr len i n)
adjust_from-Stamped v m addr len i zero k planes lo hi = absurd (omega arith)
adjust_from-Stamped v m addr len i (suc n) k planes lo hi =
    adjust_from-cases (λ _. v) m addr len i n (Stamped v m (u32 (addr + k))) (λ e bad. cc)
      λ off at.
        let m1 = record m { perms = set m.perms off v } in
        let same = length-set {0} m.perms off v in
        let inside : off < length m.mem = ground arith in
        elim (Bool-cases (k == i)) [
          | inl here ↦ λ done.
              let e : k ≡ i = ground arith in
              (
                off,
                rw e at,
                stamped-stays v m1 addr len (i + 1) n off (omega (arith, same))
                    (ground (arith, get_or-set m.perms off off v 0)),
              )
          | inr later ↦
              adjust_from-Stamped v m1 addr len (i + 1) n k (same ∙ planes) (ground arith)
                (omega arith)
        ]

-- Where `protect` succeeds, each byte of the range is in the window and has the new permission.
pub protect-stamps :
    (m : Mmu) (addr len v k : ℕ)
    → length m.perms ≡ length m.mem
    → (protect m addr len v).0 ≡ ok tt
    → k < len
    → (off : ℕ) × (offset m (u32 (addr + k)) ≡ some off)
      × (get_or (protect m addr len v).1.perms off 0 ≡ v)
unfolding protect
protect-stamps m addr len v k planes done lt =
    adjust_from-Stamped v m addr len 0 len k planes (omega arith) (omega arith) done

pub protect-SameBut : (m : Mmu) (addr len v : ℕ) → SameBut m (protect m addr len v).1
unfolding protect
protect-SameBut m addr len v = adjust_from-SameBut (λ _. v) m addr len 0 len

pub protect_outside :
    (m : Mmu) (addr len v j : ℕ)
    → m.base + length m.mem ≤ 2 ^ 32
    → j < length m.mem
    → covers m addr len j ≡ false
    → get_or (protect m addr len v).1.perms j 0 ≡ get_or m.perms j 0
unfolding protect
protect_outside m addr len v j fits inside h =
    let all_of : 0 + len ≡ len = omega arith in
    adjust_from-outside (λ _. v) m addr len 0 len j fits inside (rw all_of h)

-- The permission of a byte after `protect` of a range.
abbrev pub stamped_at : Mmu → ℕ → ℕ → ℕ → ℕ → ℕ
stamped_at m addr len v j =
    if leb addr (m.base + j) && ltb (m.base + j) (addr + len) then v else get_or m.perms j 0

abbrev StampsAll : ℕ → Mmu → ℕ → ℕ → Outcome Mmu (Unit {0}) → Type 0
StampsAll v m addr len o =
    (o.0 ≡ ok tt) × ((j : ℕ) → j < length m.mem → get_or o.1.perms j 0 ≡ stamped_at m addr len v j)

adjust_from-step :
    (f : ℕ → ℕ) (m : Mmu) (addr len i n off : ℕ)
    → offset m (u32 (addr + i)) ≡ some off
    → adjust_from f m addr len i (suc n)
      ≡ adjust_from f
          (record m { perms = set m.perms off (f (get_or m.perms off 0)) })
          addr
          len
          (i + 1)
          n
unfolding adjust_from
adjust_from-step f m addr len i n off at = rw (at, adjust_from) refl

adjust_from-window :
    (v : ℕ) (m : Mmu) (addr len i n : ℕ)
    → length m.perms ≡ length m.mem
    → m.base + length m.mem ≤ 2 ^ 32
    → m.base ≤ addr
    → addr + i + n ≤ m.base + length m.mem
    → StampsAll v m (addr + i) n (adjust_from (λ _. v) m addr len i n)
adjust_from-window v m addr len i zero planes fits lo hi =
    unfold adjust_from in (refl, λ j inside. ground arith)
adjust_from-window v m addr len i (suc n) planes fits lo hi =
    let off = addr + i - m.base in
    let at : offset m (u32 (addr + i)) ≡ some off = ground arith in
    let m1 = record m { perms = set m.perms off v } in
    let same = length-set {0} m.perms off v in
    let (done, rest) =
      adjust_from-window v m1 addr len (i + 1) n (same ∙ planes) fits lo (omega arith) in
    rw (adjust_from-step (λ _. v) m addr len i n off at)
      (done, λ j inside. rest j inside ∙ ground (arith, get_or-set m.perms off j v 0))

-- Inside the window `protect` succeeds and stamps exactly its range.
pub protect-window :
    (m : Mmu) (addr len v : ℕ)
    → length m.perms ≡ length m.mem
    → m.base + length m.mem ≤ 2 ^ 32
    → m.base ≤ addr
    → addr + len ≤ m.base + length m.mem
    → ((protect m addr len v).0 ≡ ok tt)
      × ((j : ℕ)
          → j < length m.mem
          → get_or (protect m addr len v).1.perms j 0 ≡ stamped_at m addr len v j)
unfolding protect
protect-window m addr len v planes fits lo hi =
    let here : addr + 0 ≡ addr = omega arith in
    rw here at (adjust_from-window v m addr len 0 len planes fits lo (omega arith))
