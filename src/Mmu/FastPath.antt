-- ===== src/Mmu/FastPath.antt =====
-- `fast_ptr` of the flat RAM, beside the checked write (crates/fs-mmu/src/lib.rs).
use fuzzsoft.Base.{
  ℕ, zero, suc, ◌+◌, ◌-◌, ◌≤◌, ◌<◌, ◌≡◌, ◌≢◌, refl, sym, ap, ◌∙◌, Bool, true, ◌&&◌, none, some,
  List, [], ◌∷◌, ok, length, get_or, set, slice, splice, update_range, all, ◌==◌, if◌then◌else◌,
  arith,
}
use fuzzsoft.Perm.{permits, perm_write, stored_perm, is_trivial}
use fuzzsoft.Mmu.{Mmu, WellFormed}
use fuzzsoft.Mmu.Bytes.{write_bytes, write_bytewise, mark_bytes}
use fuzzsoft.Mmu.Device.{fast_ptr}
use fuzzsoft.Mmu.Spans.{stored_bytes, write_from-stored_bytes, write_bytes-write_bytewise}

-- Every permission byte is a byte.
abbrev pub IsBytes : List ℕ → Type 0
IsBytes xs = (i : ℕ) → get_or xs i 0 < 256

-- A test of every number below a bound.
every : (ℕ → Bool) → ℕ → Bool
every test zero = true
every test (suc bound) = every test bound && test bound

every_holds : (test : ℕ → Bool) (bound k : ℕ) → k < bound → every test bound ≡ true → test k ≡ true
unfolding every
every_holds test zero k below passed = absurd (omega arith)
every_holds test (suc bound) k below passed = ground (arith, every_holds test bound k)

-- A byte that is readable and writable and that no oracle watches is left as it is by a store.
abbrev stays : ℕ → Bool
stays p = if is_trivial 3 p then permits perm_write p && stored_perm p == p else true

stays_table : every stays 256 ≡ true
unfolding every stored_perm
stays_table = refl

trivial_stays :
    (p : ℕ) → p < 256 → is_trivial 3 p ≡ true → (permits perm_write p ≡ true) × (stored_perm p ≡ p)
trivial_stays p small h =
    let row = every_holds stays 256 p small stays_table in (ground arith, ground arith)

set-get_or : (xs : List ℕ) (i : ℕ) → set xs i (get_or xs i 0) ≡ xs
unfolding set
set-get_or [] i = refl
set-get_or (x ∷ xs) zero = refl
set-get_or (x ∷ xs) (suc i) = ap (λ t. x ∷ t) (set-get_or xs i)

trivial_span :
    (n : ℕ) (perms : List ℕ) (off : ℕ)
    → IsBytes perms
    → all (is_trivial 3) (slice perms off n 0) ≡ true
    → (all (permits perm_write) (slice perms off n 0) ≡ true)
      × (update_range stored_perm perms off n 0 ≡ perms)
unfolding slice update_range
trivial_span zero perms off bytes h = (refl, refl)
trivial_span (suc n) perms off bytes h =
    let p = get_or perms off 0 in
    let first = trivial_stays p (bytes off) (ground arith) in
    let rest = trivial_span n perms (off + 1) bytes (ground arith) in
    (ground (arith, first, rest), rw (first.1, set-get_or perms off) (rest.1))

-- What `fast_ptr` has checked when it hands out a pointer for a store.
fast_ptr-some :
    (m : Mmu) (addr len need : ℕ)
    → (fast_ptr m addr len need).0 ≢ none
    → let off = addr - m.base in
      (m.base ≤ addr)
      × (off < length m.mem)
      × (off + len ≤ length m.mem)
      × (all (is_trivial need) (slice m.perms off len 0) ≡ true)
      × ((fast_ptr m addr len need).0 ≡ some off)
      × ((fast_ptr m addr len need).1 ≡ (
          if permits perm_write need && m.track_dirty
          then record m { dirty = mark_bytes off len m.dirty }
          else m))
unfolding fast_ptr
fast_ptr-some m addr len need h =
    (ground arith, ground arith, ground arith, ground arith, ground arith, ground arith)

-- A store of `bs` at the offset that a pointer stands for.
abbrev pub store_direct : Mmu → ℕ → List ℕ → Mmu
store_direct m off bs = record m { mem = splice m.mem off bs }

stored_bytes_direct :
    (m : Mmu) (off : ℕ) (bs : List ℕ)
    → update_range stored_perm m.perms off (length bs) 0 ≡ m.perms
    → stored_bytes m off bs
      ≡ store_direct
          (if m.track_dirty then record m { dirty = mark_bytes off (length bs) m.dirty } else m)
          off
          bs
stored_bytes_direct m off bs same = ground (arith, same)

-- On a well-formed flat RAM whose permission bytes are below 256: where `fast_ptr` gives a pointer
-- for a store (`PERM_READ | PERM_WRITE`), the checked write of as many bytes succeeds, and leaves
-- the RAM that a direct store through the pointer leaves, the dirty list that `fast_ptr` has marked
-- included.
pub fast_ptr-write_bytes :
    (m : Mmu) (addr : ℕ) (bs : List ℕ)
    → WellFormed m
    → IsBytes m.perms
    → (fast_ptr m addr (length bs) 3).0 ≢ none
    → write_bytes m addr bs
      ≡ (ok tt, store_direct (fast_ptr m addr (length bs) 3).1 (addr - m.base) bs)
unfolding write_bytewise
fast_ptr-write_bytes m addr bs w bytes h =
    let off = addr - m.base in
    let given = fast_ptr-some m addr (length bs) 3 h in
    let span = trivial_span (length bs) m.perms off bytes (given.3) in
    write_bytes-write_bytewise m addr bs w
    ∙ write_from-stored_bytes bs m addr (length bs) 0 off (given.0) (w.fits) (omega arith) (given.2)
        (span.0)
    ∙ ap (λ k. (ok tt, k))
        (stored_bytes_direct m off bs (span.1) ∙ ap (λ k. store_direct k off bs) (sym (given.5)))
