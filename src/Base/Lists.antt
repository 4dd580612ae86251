-- ===== src/Base/Lists.antt =====
-- `Vec<T>` and slices as lists, indexed by native numbers, with the loops over an index range that
-- `copy_from_slice`, `iter().all` and `iter_mut` stand for.
use Prim.Native.Nat.{ℕ, zero, suc, ◌+◌, ◌-◌, ◌≤◌, ◌<◌}
use mathlib.Core.Path.{◌≡◌, refl, ap, ap₂, ◌∙◌}
use mathlib.Core.Bool.{Bool, true, ◌&&◌}
use mathlib.Core.Logic.{◌≢◌, inl, inr}
use mathlib.Core.List.{List, [], ◌∷◌, ◌++◌}
use native.Mathlib.Omega.{arith}
use fuzzsoft.Base.Tests.{ltb, leb, ◌==◌, if◌then◌else◌, Bool-cases}

module _ {ℓ} {A : Type ℓ} where
  abbrev pub length : List A → ℕ
  length [] = 0
  length (x ∷ xs) = suc (length xs)

  abbrev pub get_or : List A → ℕ → A → A
  get_or [] i d = d
  get_or (x ∷ xs) zero d = x
  get_or (x ∷ xs) (suc i) d = get_or xs i d

  -- A write out of bounds changes nothing; the code that is modelled makes none.
  unfoldable pub set : List A → ℕ → A → List A
  set [] i v = []
  set (x ∷ xs) zero v = v ∷ xs
  set (x ∷ xs) (suc i) v = x ∷ set xs i v

  -- `vec![v; n]`.
  unfoldable pub replicate : ℕ → A → List A
  replicate zero v = []
  replicate (suc n) v = v ∷ replicate n v

  abbrev pub all : (A → Bool) → List A → Bool
  all p [] = true
  all p (x ∷ xs) = p x && all p xs

  pub length-set : (xs : List A) (i : ℕ) (v : A) → length (set xs i v) ≡ length xs
  unfolding set
  length-set [] i v = refl
  length-set (x ∷ xs) zero v = refl
  length-set (x ∷ xs) (suc i) v = ap suc (length-set xs i v)

  pub get_or-set :
      (xs : List A) (i j : ℕ) (v d : A)
      → get_or (set xs i v) j d ≡ (if i == j && ltb i (length xs) then v else get_or xs j d)
  unfolding set
  get_or-set [] i j v d = ground arith
  get_or-set (x ∷ xs) zero zero v d = ground arith
  get_or-set (x ∷ xs) zero (suc j) v d = ground arith
  get_or-set (x ∷ xs) (suc i) zero v d = ground arith
  get_or-set (x ∷ xs) (suc i) (suc j) v d = ground (arith, get_or-set xs i j v d)

  pub get_or-set_ne :
      (xs : List A) (i j : ℕ) (v d : A) → i ≢ j → get_or (set xs i v) j d ≡ get_or xs j d
  get_or-set_ne xs i j v d ne = ground (arith, get_or-set xs i j v d)

  pub get_or-set_self :
      (xs : List A) (i : ℕ) (v d : A) → i < length xs → get_or (set xs i v) i d ≡ v
  get_or-set_self xs i v d h = ground (arith, get_or-set xs i i v d)

  pub length-replicate : (n : ℕ) (v : A) → length (replicate n v) ≡ n
  unfolding replicate
  length-replicate zero v = refl
  length-replicate (suc n) v = ap suc (length-replicate n v)

  pub get_or-replicate : (n i : ℕ) (v : A) → get_or (replicate n v) i v ≡ v
  unfolding replicate
  get_or-replicate zero i v = refl
  get_or-replicate (suc n) zero v = refl
  get_or-replicate (suc n) (suc i) v = get_or-replicate n i v

  -- Two lists of one length with the same elements are equal.
  pub get_or_ext :
      (d : A) (xs ys : List A)
      → length xs ≡ length ys
      → ((i : ℕ) → i < length xs → get_or xs i d ≡ get_or ys i d)
      → xs ≡ ys
  get_or_ext d [] [] e h = refl
  get_or_ext d [] (y ∷ ys) e h = absurd (omega arith)
  get_or_ext d (x ∷ xs) [] e h = absurd (omega arith)
  get_or_ext d (x ∷ xs) (y ∷ ys) e h =
      ap₂ ◌∷◌ (h 0 (omega arith))
        (get_or_ext d xs ys (omega arith) (λ i lt. h (suc i) (omega arith)))

  -- `xs[off..off + n]`.
  unfoldable pub slice : List A → ℕ → ℕ → A → List A
  slice xs off zero d = []
  slice xs off (suc n) d = get_or xs off d ∷ slice xs (off + 1) n d

  -- `xs[off..off + ys.len()].copy_from_slice(ys)`.
  unfoldable pub splice : List A → ℕ → List A → List A
  splice xs off [] = xs
  splice xs off (y ∷ ys) = splice (set xs off y) (off + 1) ys

  -- `for x in &mut xs[off..off + n] { *x = f(*x) }`.
  unfoldable pub update_range : (A → A) → List A → ℕ → ℕ → A → List A
  update_range f xs off zero d = xs
  update_range f xs off (suc n) d = update_range f (set xs off (f (get_or xs off d))) (off + 1) n d

  pub length-slice : (xs : List A) (off n : ℕ) (d : A) → length (slice xs off n d) ≡ n
  unfolding slice
  length-slice xs off zero d = refl
  length-slice xs off (suc n) d = ap suc (length-slice xs (off + 1) n d)

  pub length-splice : (ys xs : List A) (off : ℕ) → length (splice xs off ys) ≡ length xs
  unfolding splice
  length-splice [] xs off = refl
  length-splice (y ∷ ys) xs off = length-splice ys (set xs off y) (off + 1) ∙ length-set xs off y

  pub length-update_range :
      (f : A → A) (n : ℕ) (xs : List A) (off : ℕ) (d : A)
      → length (update_range f xs off n d) ≡ length xs
  unfolding update_range
  length-update_range f zero xs off d = refl
  length-update_range f (suc n) xs off d =
      length-update_range f n (set xs off (f (get_or xs off d))) (off + 1) d
      ∙ length-set xs off (f (get_or xs off d))

  pub get_or-slice :
      (n : ℕ) (xs : List A) (off i : ℕ) (d : A)
      → i < n
      → get_or (slice xs off n d) i d ≡ get_or xs (off + i) d
  unfolding slice
  get_or-slice zero xs off i d h = absurd (omega arith)
  get_or-slice (suc n) xs off zero d h = ap (λ k. get_or xs k d) (omega arith)
  get_or-slice (suc n) xs off (suc i) d h =
      get_or-slice n xs (off + 1) i d (omega arith) ∙ ap (λ k. get_or xs k d) (omega arith)

  -- What a write before the slice leaves alone.
  pub slice-set :
      (n : ℕ) (xs : List A) (i off : ℕ) (v d : A)
      → i < off
      → slice (set xs i v) off n d ≡ slice xs off n d
  unfolding slice
  slice-set zero xs i off v d h = refl
  slice-set (suc n) xs i off v d h =
      ap₂ ◌∷◌ (get_or-set_ne xs i off v d (omega arith))
        (slice-set n xs i (off + 1) v d (omega arith))

module _ {A : Type 0} where
  pub get_or-splice :
      (ys xs : List A) (off j : ℕ) (d : A)
      → off + length ys ≤ length xs
      → get_or (splice xs off ys) j d
        ≡ (if leb off j && ltb j (off + length ys) then get_or ys (j - off) d else get_or xs j d)
  unfolding splice
  get_or-splice [] xs off j d room = ground arith
  get_or-splice (y ∷ ys) xs off j d room = elim (Bool-cases (off == j)) [
    | inl here ↦
        let e : off ≡ j = ground arith in
        let none_before : j - off ≡ 0 = omega arith in
        rw
          (get_or-splice ys (set xs off y) (off + 1) j d (rw length-set (omega arith)), none_before)
          (ground (arith, get_or-set xs off j y d))
    | inr there ↦
        rw (get_or-splice ys (set xs off y) (off + 1) j d (rw length-set (omega arith)))
          (elim (Bool-cases (ltb off j)) [
            | inl past ↦
                let next : j - off ≡ suc (j - (off + 1)) = ground arith in
                rw next (ground (arith, get_or-set xs off j y d))
            | inr before ↦ ground (arith, get_or-set xs off j y d)
          ])
  ]

  pub get_or-update_range :
      (f : A → A) (n : ℕ) (xs : List A) (off j : ℕ) (d : A)
      → off + n ≤ length xs
      → get_or (update_range f xs off n d) j d
        ≡ (if leb off j && ltb j (off + n) then f (get_or xs j d) else get_or xs j d)
  unfolding update_range
  get_or-update_range f zero xs off j d room = ground arith
  get_or-update_range f (suc n) xs off j d room =
      let v = f (get_or xs off d) in
      get_or-update_range f n (set xs off v) (off + 1) j d (rw length-set (omega arith))
      ∙ rw get_or-set (elim (Bool-cases (off == j)) [
        | inl here ↦ let e : off ≡ j = ground arith in rw e (ground arith)
        | inr there ↦ ground arith
      ])

module _ {ℓ} {A : Type ℓ} where
  pub length-append_one : (xs : List A) (y : A) → length (xs ++ (y ∷ [])) ≡ suc (length xs)
  length-append_one [] y = refl
  length-append_one (x ∷ xs) y = ap suc (length-append_one xs y)

  pub get_or-append_one :
      (xs : List A) (y : A) (i : ℕ) (d : A)
      → get_or (xs ++ (y ∷ [])) i d ≡ (if i == length xs then y else get_or xs i d)
  get_or-append_one [] y zero d = refl
  get_or-append_one [] y (suc i) d = ground arith
  get_or-append_one (x ∷ xs) y zero d = ground arith
  get_or-append_one (x ∷ xs) y (suc i) d = ground (arith, get_or-append_one xs y i d)

  pub get_or_outside : (xs : List A) (i : ℕ) (d : A) → length xs ≤ i → get_or xs i d ≡ d
  get_or_outside [] i d h = refl
  get_or_outside (x ∷ xs) zero d h = absurd (omega arith)
  get_or_outside (x ∷ xs) (suc i) d h = get_or_outside xs i d (omega arith)

  pub all-get_or :
      (p : A → Bool) (xs : List A) (i : ℕ) (d : A)
      → all p xs ≡ true
      → i < length xs
      → p (get_or xs i d) ≡ true
  all-get_or p [] i d h lt = absurd (omega arith)
  all-get_or p (x ∷ xs) zero d h lt = ground arith
  all-get_or p (x ∷ xs) (suc i) d h lt = all-get_or p xs i d (ground arith) (omega arith)
