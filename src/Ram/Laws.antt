-- ===== src/Ram/Laws.antt =====
-- A store whose span is permitted byte by byte, as one change of the RAM.
use mathlib.Core.Path.{fun_ext}
use fuzzsoft.Base.{
  ℕ, suc, ◌+◌, ◌-◌, ◌^◌, ◌≤◌, ◌<◌, ◌≡◌, refl, ◌∙◌, true, ◌&&◌, inl, inr, some, List, [], ◌∷◌, ok,
  length, get_or, ltb, leb, ◌==◌, if◌then◌else◌, arith, Bool-cases,
}
use fuzzsoft.Perm.{permits, perm_write, stored_perm}
use fuzzsoft.Fault.{u32}
use fuzzsoft.Ram.{Ram, offset, put_byte, store_from}

unfoldable pub put_bytes : Ram → ℕ → List ℕ → Ram
put_bytes r off [] = r
put_bytes r off (b ∷ bs) = put_bytes (put_byte r off b) (off + 1) bs

-- Every byte of `off .. off + n` is writable.
abbrev pub Writable : Ram → ℕ → ℕ → Type 0
Writable r off n = (k : ℕ) → off ≤ k → k < off + n → permits perm_write (r.perms k) ≡ true

pub put_bytes_base : (bs : List ℕ) (r : Ram) (off : ℕ) → (put_bytes r off bs).base ≡ r.base
unfolding put_bytes
put_bytes_base [] r off = refl
put_bytes_base (b ∷ bs) r off = put_bytes_base bs (put_byte r off b) (off + 1)

pub put_bytes_size : (bs : List ℕ) (r : Ram) (off : ℕ) → (put_bytes r off bs).size ≡ r.size
unfolding put_bytes
put_bytes_size [] r off = refl
put_bytes_size (b ∷ bs) r off = put_bytes_size bs (put_byte r off b) (off + 1)

pub put_bytes_mem :
    (bs : List ℕ) (r : Ram) (off j : ℕ)
    → (put_bytes r off bs).mem j
      ≡ (if leb off j && ltb j (off + length bs) then get_or bs (j - off) 0 else r.mem j)
unfolding put_bytes
put_bytes_mem [] r off j = ground arith
put_bytes_mem (b ∷ bs) r off j =
    put_bytes_mem bs (put_byte r off b) (off + 1) j ∙ elim (Bool-cases (off == j)) [
      | inl here ↦ let first : j - off ≡ 0 = ground arith in rw first (ground arith)
      | inr there ↦ elim (Bool-cases (ltb off j)) [
        | inl past ↦
            let next : j - off ≡ suc (j - (off + 1)) = ground arith in rw next (ground arith)
        | inr before ↦ ground arith
      ]
    ]

pub put_bytes_perms :
    (bs : List ℕ) (r : Ram) (off j : ℕ)
    → (put_bytes r off bs).perms j
      ≡ (if leb off j && ltb j (off + length bs) then stored_perm (r.perms j) else r.perms j)
unfolding put_bytes
put_bytes_perms [] r off j = ground arith
put_bytes_perms (b ∷ bs) r off j =
    put_bytes_perms bs (put_byte r off b) (off + 1) j ∙ elim (Bool-cases (off == j)) [
      | inl here ↦ let e : off ≡ j = ground arith in rw e (ground arith)
      | inr there ↦ ground arith
    ]

pub store_from-put_bytes :
    (bs : List ℕ) (r : Ram) (addr len i off : ℕ)
    → r.base ≤ addr
    → r.base + r.size ≤ 2 ^ 32
    → addr - r.base + i ≡ off
    → off + length bs ≤ r.size
    → Writable r off (length bs)
    → store_from r addr len i bs ≡ (ok tt, put_bytes r off bs)
unfolding store_from put_bytes
store_from-put_bytes [] r addr len i off lo fits at room may = refl
store_from-put_bytes (b ∷ bs) r addr len i off lo fits at room may =
    let here : offset r (u32 (addr + i)) ≡ some off = ground arith in
    let rest =
      store_from-put_bytes bs (put_byte r off b) addr len (i + 1) (off + 1) lo fits (omega arith)
        (omega arith) (λ k p q. ground (arith, may k)) in
    ground (arith, here, may off, rest)

pub Ram_ext :
    (r s : Ram)
    → r.base ≡ s.base
    → r.size ≡ s.size
    → ((j : ℕ) → r.mem j ≡ s.mem j)
    → ((j : ℕ) → r.perms j ≡ s.perms j)
    → r ≡ s
Ram_ext r s b n m p = λ i. record { base = b i; size = n i; mem = fun_ext m i; perms = fun_ext p i }
