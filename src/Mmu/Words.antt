-- ===== src/Mmu/Words.antt =====
-- What a store of a word does to the first byte of an aligned word that may be written
-- (crates/fs-mmu/src/lib.rs).
use fuzzsoft.Base.{
  ℕ, zero, suc, ◌+◌, ◌/◌, ◌%◌, ◌^◌, ◌≤◌, ◌<◌, ◌≡◌, refl, sym, ap, ◌∙◌, Bool, true, false, ◌&&◌, inl,
  inr, some, List, [], ◌∷◌, Result, ok, err, length, get_or, slice, all, leb, ◌==◌, arith,
  Bool-cases, Option-cases, length-set, get_or-set, length-splice, get_or-splice,
  length-update_range, get_or-update_range,
}
use fuzzsoft.Perm.{permits, perm_write, stored_perm}
use fuzzsoft.Perm.Laws.{stored_perm_bits}
use fuzzsoft.Fault.{Outcome, u8, u16, check_align, to_le_bytes}
use fuzzsoft.Mmu.{Mmu, offset}
use fuzzsoft.Mmu.Bytes.{
  write_byte, write_from, write_bytewise, write_bytes, write_span, write_word, span_permits,
}
use fuzzsoft.Mmu.Device.{store}
use fuzzsoft.Mmu.Protect.{covers}
use fuzzsoft.Mmu.Reset.{write_from-cases}

-- The four bytes from `j` on are an aligned word inside the window, and each may be written.
pub record Word (m : Mmu) (j : ℕ) : Type 0 where
  pub planes : length m.perms ≡ length m.mem
  pub fits : m.base + length m.mem ≤ 2 ^ 32
  pub aligned : (m.base + j) % 4 ≡ 0
  pub inside : j + 4 ≤ length m.mem
  pub writable : (k : ℕ) → k < 4 → permits perm_write (get_or m.perms (j + k) 0) ≡ true

abbrev pub is_ok : {A E : Type 0} → Result A E → Bool
is_ok (ok a) = true
is_ok (err e) = false

-- What is left of a word by a store at `addr`: it may still be written, and its first byte changes
-- only where the store is at that byte and succeeds.
pub record Left (m : Mmu) (j addr : ℕ) (o : Outcome Mmu (Unit {0})) : Type 0 where
  pub word : Word o.1 j
  pub base : o.1.base ≡ m.base
  pub byte : (addr == m.base + j) && is_ok o.0 ≡ false → get_or o.1.mem j 0 ≡ get_or m.mem j 0

length-to_le_bytes : (n v : ℕ) → length (to_le_bytes n v) ≡ n
unfolding to_le_bytes
length-to_le_bytes zero v = refl
length-to_le_bytes (suc n) v = ap suc (length-to_le_bytes n (v / 2 ^ 8))

module _ (j : ℕ) where
  write_byte-Word : (m : Mmu) (off b : ℕ) → Word m j → Word (write_byte m off b) j
  unfolding write_byte
  write_byte-Word m off b w =
      let v = stored_perm (get_or m.perms off 0) in
      let mem_size = length-set m.mem off b in
      let perms_size = length-set m.perms off v in
      record {
        planes = perms_size ∙ w.planes ∙ sym mem_size;
        fits = omega (arith, w.fits, mem_size);
        aligned = w.aligned;
        inside = omega (arith, w.inside, mem_size);
        writable = λ k lt.
            let same = (stored_perm_bits (get_or m.perms off 0)).2 in
            ground (arith, get_or-set m.perms off (j + k) v 0, w.writable k lt, same);
      }

  -- A byte loop that does not come to the byte leaves it.
  write_from-Left :
      (bs : List ℕ) (m : Mmu) (addr len i : ℕ)
      → covers m addr (i + length bs) j ≡ false
      → Word m j
      → let o = write_from m addr len i bs in
        Word o.1 j × (o.1.base ≡ m.base) × (get_or o.1.mem j 0 ≡ get_or m.mem j 0)
  write_from-Left [] m addr len i apart w = unfold write_from in (w, refl, refl)
  write_from-Left (b ∷ bs) m addr len i apart w =
      write_from-cases m addr len i b bs
        (λ o. Word o.1 j × (o.1.base ≡ m.base) × (get_or o.1.mem j 0 ≡ get_or m.mem j 0))
        (λ _. (w, refl, refl))
        λ off at inside may.
          let w1 = write_byte-Word m off b w in
          let base : (write_byte m off b).base ≡ m.base = unfold write_byte in refl in
          let size = i + 1 + length bs in
          let apart1 : covers (write_byte m off b) addr (i + 1 + length bs) j ≡ false =
            ground (arith, apart, base) in
          let kept : get_or (write_byte m off b).mem j 0 ≡ get_or m.mem j 0 =
            unfold write_byte in ground (arith, get_or-set m.mem off j b 0, w.fits, w.inside) in
          let rest = write_from-Left bs (write_byte m off b) addr len (i + 1) apart1 w1 in
          (rest.0, rest.1 ∙ base, rest.2 ∙ kept)

  write_span-Word :
      (m : Mmu) (off : ℕ) (bs : List ℕ)
      → off + length bs ≤ length m.mem
      → Word m j
      → Word (write_span m off bs) j
  unfolding write_span
  write_span-Word m off bs room w =
      let n = length bs in
      let mem_size = length-splice {0} bs m.mem off in
      let perms_size = length-update_range stored_perm n m.perms off 0 in
      record {
        planes = perms_size ∙ w.planes ∙ sym mem_size;
        fits = omega (arith, w.fits, mem_size);
        aligned = w.aligned;
        inside = omega (arith, w.inside, mem_size);
        writable = λ k lt.
            let spread =
              get_or-update_range stored_perm n m.perms off (j + k) 0 (omega (arith, w.planes)) in
            let same = (stored_perm_bits (get_or m.perms (j + k) 0)).2 in
            ground (arith, spread, w.writable k lt, same);
      }

  -- A byte outside the range of a store keeps its contents, on both paths of `write`.
  write_bytes-apart :
      (m : Mmu) (addr : ℕ) (bs : List ℕ)
      → covers m addr (length bs) j ≡ false
      → addr < 2 ^ 32
      → Word m j
      → let o = write_bytes m addr bs in
        Word o.1 j × (o.1.base ≡ m.base) × (get_or o.1.mem j 0 ≡ get_or m.mem j 0)
  unfolding write_bytes write_bytewise
  write_bytes-apart m addr bs apart small w =
      let all_of : 0 + length bs ≡ length bs = omega arith in
      let slow = write_from-Left bs m addr (length bs) 0 (rw all_of apart) w in
      elim (Option-cases (offset m addr)) [
        | inl gone ↦ rw (gone, write_bytes) slow
        | inr (off, at) ↦
            rw (at, write_bytes)
              (elim (Bool-cases (span_permits perm_write m off (length bs))) [
                | inl may ↦
                    let room : off + length bs ≤ length m.mem = ground arith in
                    rw may (
                      write_span-Word m off bs room w,
                      unfold write_span in refl,
                      unfold write_span in
                          ground (arith, get_or-splice bs m.mem off j 0 room, w.fits, w.inside),
                    )
                | inr may_not ↦ rw may_not slow
              ])
      ]

  all-writable :
      (m : Mmu) (off n : ℕ)
      → ((k : ℕ) → k < n → permits perm_write (get_or m.perms (off + k) 0) ≡ true)
      → all (permits perm_write) (slice m.perms off n 0) ≡ true
  unfolding slice
  all-writable m off zero each = refl
  all-writable m off (suc n) each =
      let first = each 0 (omega arith) in
      let here : off + 0 ≡ off = omega arith in
      let now : permits perm_write (get_or m.perms off 0) ≡ true = rw here at first in
      rw now (
        all-writable m (off + 1) n λ k lt.
          let next : off + 1 + k ≡ off + suc k = omega arith in
          rw next (each (suc k) (omega arith)))

  -- A store at the byte, of no more than the word, takes the fast path.
  write_bytes-here :
      (m : Mmu) (bs : List ℕ)
      → length bs ≤ 4
      → Word m j
      → write_bytes m (m.base + j) bs ≡ (ok tt, write_span m j bs)
  unfolding write_bytes
  write_bytes-here m bs short w =
      let at : offset m (m.base + j) ≡ some j = ground (arith, w.inside) in
      let each = all-writable m j (length bs) (λ k lt. w.writable k (omega arith)) in
      let room : leb (j + length bs) (length m.mem) ≡ true = ground (arith, w.inside) in
      rw (at, each, room, write_bytes) refl

  -- A store of an aligned word, half or byte.
  write_word-Left :
      (m : Mmu) (addr n v : ℕ)
      → n ≤ 4
      → ((addr == m.base + j) ≡ false → addr % n ≡ 0 → covers m addr n j ≡ false)
      → addr < 2 ^ 32
      → Word m j
      → Left m j addr (write_word m addr n v)
  unfolding write_word check_align
  write_word-Left m addr n v short apart small w = elim (Bool-cases (addr % n == 0)) [
    | inr crooked ↦ rw (crooked, write_word) (record { word = w; base = refl; byte = λ _. refl })
    | inl straight ↦
        rw (straight, write_word)
          (let bs = to_le_bytes n v in
            let size = length-to_le_bytes n v in
            elim (Bool-cases (addr == m.base + j)) [
              | inl here ↦
                  let e : addr ≡ m.base + j = ground arith in
                  let stored = write_bytes-here m bs (omega (arith, size)) w in
                  let room : j + length bs ≤ length m.mem = omega (arith, size, w.inside) in
                  rw (e, stored)
                    (record {
                      word = write_span-Word m j bs room w;
                      base = unfold write_span in refl;
                      byte = λ off. absurd (ground (arith, off));
                    })
              | inr there ↦
                  let away : covers m addr (length bs) j ≡ false =
                    rw size (apart there (ground (arith, straight))) in
                  let kept = write_bytes-apart m addr bs away small w in
                  record { word = kept.0; base = kept.1; byte = λ _. kept.2 }
            ])
  ]

  pub store-Left :
      (m : Mmu) (addr size val : ℕ)
      → addr < 2 ^ 32
      → Word m j
      → Left m j addr (store m addr size val)
  unfolding store
  store-Left m addr size val small w = elim (Bool-cases (size == 1)) [
    | inl one ↦ rw one (
        write_word-Left m addr 1 (u8 val) (omega arith)
          (λ there straight. ground (arith, there, w.aligned, w.fits, w.inside)) small w)
    | inr more ↦ elim (Bool-cases (size == 2)) [
      | inl two ↦
          rw (more, two)
            (write_word-Left m addr 2 (u16 val) (omega arith)
              (λ there straight. ground (arith, there, straight, w.aligned, w.fits, w.inside)) small
              w)
      | inr four ↦
          rw (more, four)
            (write_word-Left m addr 4 val (omega arith)
              (λ there straight. ground (arith, there, straight, w.aligned, w.fits, w.inside)) small
              w)
    ]
  ]
