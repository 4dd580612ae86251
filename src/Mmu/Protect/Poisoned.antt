-- ===== src/Mmu/Protect/Poisoned.antt =====
-- A byte without permissions stays so through writes, and every access at it faults
-- (crates/fs-mmu/src/lib.rs).
use fuzzsoft.Base.{
  ℕ, suc, ◌+◌, ◌-◌, ◌^◌, ◌≤◌, ◌<◌, ◌≡◌, refl, sym, ap, ◌∙◌, Bool, true, false, ◌&&◌, inl, inr, some,
  List, [], ◌∷◌, err, length, get_or, slice, all, ltb, leb, arith, Bool-cases, Option-cases,
  length-set, get_or-set_ne, length-splice, length-update_range, get_or-update_range, get_or-slice,
  all-get_or, ◌≢◌, length-slice,
}
use fuzzsoft.Perm.{permits, perm_read, perm_write, perm_exec, stored_perm}
use fuzzsoft.Fault.{Access, read, write, exec, permission, fault, u32}
use fuzzsoft.Mmu.{Mmu, offset}
use fuzzsoft.Mmu.Bytes.{
  read_bytes, read_bytewise, read_from, fetch_bytes, write_byte, write_from, write_bytewise,
  write_bytes, write_span, span_permits,
}
use fuzzsoft.Mmu.Reset.{write_from-cases, stores}

-- A byte of the window that no access may touch.
pub record Poisoned (m : Mmu) (a : ℕ) : Type 0 where
  pub planes : length m.perms ≡ length m.mem
  pub off : ℕ
  pub at : offset m a ≡ some off
  pub none_left : get_or m.perms off 0 ≡ 0

-- A read, a fetch and a write that start at it fault there, and the write changes nothing.
pub record Faults (m : Mmu) (a : ℕ) : Type 0 where
  pub on_read : (n : ℕ) → read_bytes m a (suc n) ≡ err (fault a (suc n) read permission)
  pub on_fetch : (n : ℕ) → fetch_bytes m a (suc n) ≡ err (fault a (suc n) exec permission)
  pub on_write :
      (b : ℕ) (bs : List ℕ)
      → write_bytes m a (b ∷ bs) ≡ (err (fault a (length (b ∷ bs)) write permission), m)

read_from-poisoned :
    (need : ℕ) (access : Access) (m : Mmu) (a len n off : ℕ)
    → a < 2 ^ 32
    → offset m a ≡ some off
    → permits need (get_or m.perms off 0) ≡ false
    → read_from need access m a len 0 (suc n) ≡ err (fault a len access permission)
unfolding read_from
read_from-poisoned need access m a len n off small at refused =
    let here : u32 (a + 0) ≡ a = omega arith in ground arith

write_from-poisoned :
    (m : Mmu) (a len b : ℕ) (bs : List ℕ) (off : ℕ)
    → a < 2 ^ 32
    → offset m a ≡ some off
    → get_or m.perms off 0 ≡ 0
    → write_from m a len 0 (b ∷ bs) ≡ (err (fault a len write permission), m)
unfolding write_from
write_from-poisoned m a len b bs off small at bare =
    let here : u32 (a + 0) ≡ a = omega arith in ground arith

no_span :
    (need : ℕ) (m : Mmu) (off n : ℕ)
    → permits need (get_or m.perms off 0) ≡ false
    → span_permits need m off (suc n) ≡ false
unfolding slice
no_span need m off n refused = ground arith

pub Poisoned-Faults : (m : Mmu) (a : ℕ) → a < 2 ^ 32 → Poisoned m a → Faults m a
unfolding read_bytes read_bytewise fetch_bytes write_bytes write_bytewise
Poisoned-Faults m a small p =
    let refused : (need : ℕ)
        → permits need 0 ≡ false
        → permits need (get_or m.perms p.off 0) ≡ false =
      λ need h. rw (p.none_left) h in
    record {
      on_read = λ n.
          rw (p.at, no_span perm_read m p.off n (refused perm_read refl), read_bytes)
            (read_from-poisoned perm_read read m a (suc n) n p.off small p.at
              (refused perm_read refl));
      on_fetch = λ n.
          rw (p.at, no_span perm_exec m p.off n (refused perm_exec refl), fetch_bytes)
            (read_from-poisoned perm_exec exec m a (suc n) n p.off small p.at
              (refused perm_exec refl));
      on_write = λ b bs.
          rw (p.at, no_span perm_write m p.off (length bs) (refused perm_write refl), write_bytes)
            (write_from-poisoned m a (length (b ∷ bs)) b bs p.off small p.at p.none_left);
    }

write_byte-Poisoned :
    (m : Mmu) (a off b : ℕ)
    → permits perm_write (get_or m.perms off 0) ≡ true
    → Poisoned m a
    → Poisoned (write_byte m off b) a
unfolding write_byte
write_byte-Poisoned m a off b may p =
    let v = stored_perm (get_or m.perms off 0) in
    let same = length-set {0} m.mem off b in
    let shut : permits perm_write (get_or m.perms p.off 0) ≡ false = rw (p.none_left) refl in
    let elsewhere : off ≢ p.off = λ e. cc (ap (λ t. permits perm_write (get_or m.perms t 0)) e) in
    record {
      planes = length-set m.perms off v ∙ p.planes ∙ sym same;
      off = p.off;
      at = rw same (p.at);
      none_left = get_or-set_ne m.perms off p.off v 0 elsewhere ∙ p.none_left;
    }

write_from-Poisoned :
    (bs : List ℕ) (m : Mmu) (a addr len i : ℕ)
    → Poisoned m a
    → Poisoned (write_from m addr len i bs).1 a
write_from-Poisoned [] m a addr len i p = unfold write_from in p
write_from-Poisoned (b ∷ bs) m a addr len i p =
    write_from-cases m addr len i b bs (λ o. Poisoned o.1 a) (λ _. p)
      λ off at inside may.
        write_from-Poisoned bs (write_byte m off b) a addr len (i + 1)
          (write_byte-Poisoned m a off b may p)

-- A byte that fails the test of a whole span is not one of it.
span-outside :
    (test : ℕ → Bool) (xs : List ℕ) (off n j : ℕ)
    → all test (slice xs off n 0) ≡ true
    → test (get_or xs j 0) ≡ false
    → leb off j && ltb j (off + n) ≡ false
span-outside test xs off n j each fails = elim (Bool-cases (leb off j && ltb j (off + n))) [
  | inl inside ↦
      let at : off + (j - off) ≡ j = ground arith in
      let len = length-slice {A = ℕ} xs off n 0 in
      let here = all-get_or test (slice xs off n 0) (j - off) 0 each (ground (arith, len)) in
      let same = get_or-slice n xs off (j - off) 0 (ground arith) in cc (ap (λ t. get_or xs t 0) at)
  | inr outside ↦ outside
]

-- A write over a span that may be written leaves a poisoned byte as it is.
write_span-Poisoned :
    (m : Mmu) (a off : ℕ) (bs : List ℕ)
    → span_permits perm_write m off (length bs) ≡ true
    → Poisoned m a
    → Poisoned (write_span m off bs) a
unfolding write_span
write_span-Poisoned m a off bs may p =
    let n = length bs in
    let same = length-splice {0} bs m.mem off in
    let shut : permits perm_write (get_or m.perms p.off 0) ≡ false = rw (p.none_left) refl in
    let room : off + n ≤ length m.mem = ground arith in
    let each : all (permits perm_write) (slice m.perms off n 0) ≡ true = ground arith in
    let spread = get_or-update_range stored_perm n m.perms off p.off 0 (omega (arith, p.planes)) in
    let outside = span-outside (permits perm_write) m.perms off n p.off each shut in
    record {
      planes = length-update_range stored_perm n m.perms off 0 ∙ p.planes ∙ sym same;
      off = p.off;
      at = rw same (p.at);
      none_left = spread ∙ rw outside (p.none_left);
    }

-- A write leaves a poisoned byte as it is, also where it faults.
pub write_bytes-Poisoned :
    (m : Mmu) (a addr : ℕ) (bs : List ℕ) → Poisoned m a → Poisoned (write_bytes m addr bs).1 a
unfolding write_bytes
write_bytes-Poisoned m a addr bs p =
    let slow : Poisoned (write_bytewise m addr bs).1 a =
      unfold write_bytewise in write_from-Poisoned bs m a addr (length bs) 0 p in
    elim (Option-cases (offset m addr)) [
      | inl gone ↦ rw (gone, write_bytes) slow
      | inr (off, at) ↦
          rw (at, write_bytes)
            (elim (Bool-cases (span_permits perm_write m off (length bs))) [
              | inl may ↦ rw may (write_span-Poisoned m a off bs may p)
              | inr may_not ↦ rw may_not slow
            ])
    ]

pub stores-Poisoned :
    (ws : List (ℕ × List ℕ)) (m : Mmu) (a : ℕ) → Poisoned m a → Poisoned (stores m ws) a
unfolding stores
stores-Poisoned [] m a p = p
stores-Poisoned ((addr, bs) ∷ ws) m a p =
    stores-Poisoned ws (write_bytes m addr bs).1 a (write_bytes-Poisoned m a addr bs p)
