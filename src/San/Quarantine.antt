-- ===== src/San/Quarantine.antt =====
-- The bookkeeping that both sanitizers of crates/fs-san/src keep: what is live and what waits in the
-- quarantine.
use fuzzsoft.Base.{
  ℕ, ◌+◌, ◌≤◌, max, ◌≡◌, refl, Bool, true, false, ◌||◌, inl, inr, List, [], ◌∷◌, ◌++◌, length, leb,
  ◌==◌, if◌then◌else◌, arith, Bool-cases, length-append_one,
}
use fuzzsoft.San.{
  HashMap, insert, remove, is_some, contains_key, Quarantined, no_quarantine, retain_ne,
  evict_quarantine, forget_oldest, enter_quarantine, empty_map,
}

abbrev pub mem : ℕ → List ℕ → Bool
mem a [] = false
mem a (x ∷ xs) = x == a || mem a xs

abbrev pub Distinct : List ℕ → Type 0
Distinct [] = Unit {0}
Distinct (x ∷ xs) = (mem x xs ≡ false) × Distinct xs

-- The quarantine lists each of its addresses once, no live address is in it, and its length stays
-- within the bound.
pub record Keeps {V W : Type 0} (cap : ℕ) (live : HashMap W) (q : Quarantined V) : Type 0 where
  pub listed : (a : ℕ) → contains_key q.quarantined a ≡ mem a q.order
  pub distinct : Distinct q.order
  pub bounded : length q.order ≤ max cap 1
  pub apart : (a : ℕ) → contains_key live a ≡ true → mem a q.order ≡ false

mem-append_one : (a x : ℕ) (xs : List ℕ) → mem a (xs ++ (x ∷ [])) ≡ x == a || mem a xs
mem-append_one a x [] = refl
mem-append_one a x (y ∷ xs) = ground (arith, mem-append_one a x xs)

Distinct-append_one :
    (x : ℕ) (xs : List ℕ) → mem x xs ≡ false → Distinct xs → Distinct (xs ++ (x ∷ []))
Distinct-append_one x [] h d = (refl, tt)
Distinct-append_one x (y ∷ xs) h d =
    (ground (arith, mem-append_one y x xs), Distinct-append_one x xs (ground arith) d.1)

mem-retain_ne :
    (a x : ℕ) (xs : List ℕ) → mem a (retain_ne x xs) ≡ (if a == x then false else mem a xs)
unfolding retain_ne
mem-retain_ne a x [] = ground arith
mem-retain_ne a x (y ∷ xs) = ground (arith, mem-retain_ne a x xs)

Distinct-retain_ne : (x : ℕ) (xs : List ℕ) → Distinct xs → Distinct (retain_ne x xs)
unfolding retain_ne
Distinct-retain_ne x [] d = tt
Distinct-retain_ne x (y ∷ xs) d = elim (Bool-cases (y == x)) [
  | inl same ↦ rw same (Distinct-retain_ne x xs d.1)
  | inr other ↦ rw other (ground (arith, mem-retain_ne y x xs, d.0), Distinct-retain_ne x xs d.1)
]

length-retain_ne-le : (x : ℕ) (xs : List ℕ) → length (retain_ne x xs) ≤ length xs
unfolding retain_ne
length-retain_ne-le x [] = omega arith
length-retain_ne-le x (y ∷ xs) = ground (arith, length-retain_ne-le x xs)

-- Where the quarantine was full, its oldest entry has made room.
length-room :
    {V : Type 0} (cap : ℕ) (order : List ℕ) (m : HashMap V)
    → length order ≤ max cap 1
    → length
          (if leb cap (length order)
            then forget_oldest order m
            else record { order = order; quarantined = m }).order
        + 1
      ≤ max cap 1
length-room cap [] m h = ground arith
length-room cap (x ∷ xs) m h = ground arith

module _ {V W : Type 0} (cap : ℕ) where
  pub no_quarantine-Keeps : Keeps {V = V} {W = W} cap empty_map no_quarantine
  no_quarantine-Keeps = record {
    listed = λ a. refl;
    distinct = tt;
    bounded = omega arith;
    apart = λ a h. refl;
  }

  -- An address that leaves the quarantine may be live.
  pub evict_quarantine-Keeps :
      (live : HashMap W) (q : Quarantined V) (addr : ℕ) (w : W)
      → Keeps cap live q
      → Keeps cap (insert addr w live) (evict_quarantine addr q)
  unfolding evict_quarantine
  evict_quarantine-Keeps live q addr w k = elim (Bool-cases (is_some (q.quarantined addr))) [
    | inl held ↦ rw held (record {
      listed = λ a. ground (arith, k.listed a, mem-retain_ne a addr q.order);
      distinct = Distinct-retain_ne addr q.order k.distinct;
      bounded = omega (arith, k.bounded, length-retain_ne-le addr q.order);
      apart = λ a h. ground (arith, k.apart a, mem-retain_ne a addr q.order);
    })
    | inr free ↦ rw free (record {
      listed = k.listed;
      distinct = k.distinct;
      bounded = k.bounded;
      apart = λ a h. ground (arith, k.apart a, k.listed addr, k.listed a);
    })
  ]

  forget_oldest-Keeps :
      (live : HashMap W) (order : List ℕ) (m : HashMap V)
      → Keeps cap live (record { order = order; quarantined = m })
      → Keeps cap live (forget_oldest order m)
  forget_oldest-Keeps live [] m k = k
  forget_oldest-Keeps live (x ∷ xs) m k = record {
    listed = λ a. ground (arith, k.listed a, k.distinct);
    distinct = k.distinct.1;
    bounded = omega (arith, k.bounded);
    apart = λ a h. ground (arith, k.apart a h);
  }

  enter-Keeps :
      (live : HashMap W) (rest : Quarantined V) (addr : ℕ) (v : V)
      → contains_key live addr ≡ true
      → length rest.order + 1 ≤ max cap 1
      → Keeps cap live rest
      → Keeps cap (remove addr live) (record {
        order = rest.order ++ (addr ∷ []);
        quarantined = insert addr v rest.quarantined;
      })
  enter-Keeps live rest addr v was room k = record {
    listed = λ a. ground (arith, k.listed a, mem-append_one a addr rest.order);
    distinct = Distinct-append_one addr rest.order (k.apart addr was) k.distinct;
    bounded = omega (arith, length-append_one rest.order addr);
    apart = λ a h. ground (arith, k.apart a, mem-append_one a addr rest.order);
  }

  pub enter_quarantine-Keeps :
      (live : HashMap W) (q : Quarantined V) (addr : ℕ) (v : V)
      → contains_key live addr ≡ true
      → Keeps cap live q
      → Keeps cap (remove addr live) (enter_quarantine cap addr v q)
  unfolding enter_quarantine
  enter_quarantine-Keeps live q addr v was k =
      let room = length-room cap q.order q.quarantined k.bounded in
      elim (Bool-cases (leb cap (length q.order))) [
        | inl full ↦ rw full (
            enter-Keeps live (forget_oldest q.order q.quarantined) addr v was (rw full at room)
              (forget_oldest-Keeps live q.order q.quarantined k))
        | inr space ↦ rw space (enter-Keeps live q addr v was (rw space at room) k)
      ]

  pub remove-Keeps :
      (live : HashMap W) (q : Quarantined V) (addr : ℕ)
      → Keeps cap live q
      → Keeps cap (remove addr live) q
  remove-Keeps live q addr k = record {
    listed = k.listed;
    distinct = k.distinct;
    bounded = k.bounded;
    apart = λ a h. ground (arith, k.apart a);
  }
