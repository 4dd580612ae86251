-- ===== src/San.antt =====
-- The sanitizers of crates/fs-san/src: what they share. A `HashMap` is a function, and a freed range
-- waits in a quarantine that forgets its oldest entry when it is full.
pub mod Alloc
pub mod Hooks
pub mod Linux
pub mod Pages
pub mod Quarantine
use fuzzsoft.Base.{
  ℕ, ◌+◌, Bool, true, false, Option, none, some, List, [], ◌∷◌, ◌++◌, Result, ok, err, length, leb,
  ◌==◌, if◌then◌else◌,
}
use fuzzsoft.Fault.{Fault, Outcome}
use fuzzsoft.Mmu.{Mmu}

pub data SanError : Type 0 where
  double_alloc : ℕ → SanError
  invalid_free : ℕ → SanError
  unknown_pointer : ℕ → SanError
  mmu_fault : Fault → SanError
  invalid_page_order : ℕ → ℕ → SanError

-- `std::collections::HashMap` with keys of 32 bits.
abbrev pub HashMap : Type 0 → Type 0
HashMap V = ℕ → Option V

abbrev pub empty_map : {V : Type 0} → HashMap V
empty_map k = none

abbrev pub insert : {V : Type 0} → ℕ → V → HashMap V → HashMap V
insert k v m j = if j == k then some v else m j

abbrev pub remove : {V : Type 0} → ℕ → HashMap V → HashMap V
remove k m j = if j == k then none else m j

abbrev pub is_some : {V : Type 0} → Option V → Bool
is_some none = false
is_some (some v) = true

abbrev pub contains_key : {V : Type 0} → HashMap V → ℕ → Bool
contains_key m k = is_some (m k)

-- What a method leaves: the sanitizer and the memory, beside its result.
abbrev pub Done : Type 0 → Type 0
Done S = Result (Unit {0}) SanError × (S × Mmu)

-- `?` on a call of the memory.
abbrev pub then_with : {S : Type 0} → S → Outcome Mmu (Unit {0}) → (Mmu → Done S) → Done S
then_with s (ok u, m) k = k m
then_with s (err f, m) k = (err (mmu_fault f), (s, m))

-- The fields `quarantine_order`, the oldest first, and `quarantined`.
pub record Quarantined (V : Type 0) : Type 0 where
  pub order : List ℕ
  pub quarantined : HashMap V

abbrev pub no_quarantine : {V : Type 0} → Quarantined V
no_quarantine = record { order = []; quarantined = empty_map }

-- `retain(|a| a != addr)`.
unfoldable pub retain_ne : ℕ → List ℕ → List ℕ
retain_ne addr [] = []
retain_ne addr (x ∷ xs) = if x == addr then retain_ne addr xs else x ∷ retain_ne addr xs

unfoldable pub evict_quarantine : {V : Type 0} → ℕ → Quarantined V → Quarantined V
unfolding retain_ne
evict_quarantine addr q =
    if is_some (q.quarantined addr)
    then record { order = retain_ne addr q.order; quarantined = remove addr q.quarantined }
    else q

-- `pop_front` with the removal of what it gives.
abbrev pub forget_oldest : {V : Type 0} → List ℕ → HashMap V → Quarantined V
forget_oldest [] m = record { order = []; quarantined = m }
forget_oldest (oldest ∷ order) m = record { order = order; quarantined = remove oldest m }

-- The end of `free`: a full quarantine forgets its oldest entry, and the freed one is appended.
unfoldable pub enter_quarantine : {V : Type 0} → ℕ → ℕ → V → Quarantined V → Quarantined V
enter_quarantine cap addr v q =
    let rest = if leb cap (length q.order) then forget_oldest q.order q.quarantined else q in
    record { order = rest.order ++ (addr ∷ []); quarantined = insert addr v rest.quarantined }
