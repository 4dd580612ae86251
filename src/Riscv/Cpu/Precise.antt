-- ===== src/Riscv/Cpu/Precise.antt =====
-- The state that a program can see, and which actions leave it alone when they trap
-- (crates/fs-riscv/src/lib.rs).
pub mod Arms
pub mod Step
use fuzzsoft.Base.{
  ℕ, zero, suc, ◌≡◌, refl, ap, ◌∙◌, Bool, true, false, Option, none, some, List, Result, ok, err,
  if◌then◌else◌, arith, ◌==◌,
}
use fuzzsoft.Fault.{Access, Outcome}
use fuzzsoft.Bus.{Bus}
use fuzzsoft.Riscv.Csr.{Csr, Priv}
use fuzzsoft.Riscv.Cpu.{Cpu, Trap, wr_taint, push_log}
use fuzzsoft.Riscv.Cpu.Monad.{
  Hart, pure, raise, gets, update, updated, on_bus, on_memory, peek, modify, poke, continue, ◌>>=◌,
}
use fuzzsoft.Riscv.Cpu.Memory.{translate}
use fuzzsoft.Riscv.Cpu.Exec.{kmsan_enabled, log_cmp}
use fuzzsoft.Riscv.Cpu.Frames.{xlate-Retlb}

-- The registers, the pc, the status registers, the mode, the reservation and the retired count.
pub record Arch : Type 0 where
  pub regs : List ℕ
  pub pc : ℕ
  pub csr : Csr
  pub privilege : Priv
  pub reservation : Option ℕ
  pub insns_retired : ℕ

unfoldable pub arch : Cpu → Arch
arch c = record {
  regs = c.regs;
  pc = c.pc;
  csr = c.csr;
  privilege = c.privilege;
  reservation = c.reservation;
  insns_retired = c.insns_retired;
}

-- `m` leaves what a program can see.
pub record Quiet {S A : Type 0} (m : Hart S A) : Type 0 where
  pub at : (c : Cpu) (s : S) → arch (m c s).1.0 ≡ arch c

-- What a program can see after a trap.
abbrev pub Kept : {S A : Type 0} → Cpu → Result A Trap × (Cpu × S) → Type 0
Kept c (ok a, _) = Unit {0}
Kept c (err t, (d, s)) = arch d ≡ arch c

-- `m` leaves what a program can see when it traps.
pub record Precise {S A : Type 0} (m : Hart S A) : Type 0 where
  pub at : (c : Cpu) (s : S) → Kept c (m c s)

abbrev pub IsOk : {S A : Type 0} → Result A Trap × (Cpu × S) → Type 0
IsOk (ok a, _) = Unit {0}
IsOk (err t, _) = ⊥

-- `m` does not trap.
pub record Sure {S A : Type 0} (m : Hart S A) : Type 0 where
  pub at : (c : Cpu) (s : S) → IsOk (m c s)

module _ {S A : Type 0} where
  pub Quiet-pure : (a : A) → Quiet {S = S} (pure a)
  unfolding pure
  Quiet-pure a = record { at = λ c s. refl }

  pub Quiet-raise : (t : Trap) → Quiet {S = S} {A = A} (raise t)
  unfolding raise
  Quiet-raise t = record { at = λ c s. refl }

  pub Quiet-gets : (f : Cpu → A) → Quiet {S = S} (gets f)
  unfolding gets
  Quiet-gets f = record { at = λ c s. refl }

  pub Quiet-peek : (f : S → A) → Quiet (peek f)
  unfolding peek
  Quiet-peek f = record { at = λ c s. refl }

  on_memory-arch : (c : Cpu) (o : Outcome S A) → arch (on_memory c o).1.0 ≡ arch c
  on_memory-arch c (ok a, s) = refl
  on_memory-arch c (err f, s) = refl

  pub Quiet-on_bus : (call : S → Outcome S A) → Quiet (on_bus call)
  unfolding on_bus
  Quiet-on_bus call = record { at = λ c s. on_memory-arch c (call s) }

  pub Quiet-if : (b : Bool) (m n : Hart S A) → Quiet m → Quiet n → Quiet (if b then m else n)
  Quiet-if true m n f g = f
  Quiet-if false m n f g = g

  pub Sure-pure : (a : A) → Sure {S = S} (pure a)
  unfolding pure
  Sure-pure a = record { at = λ c s. tt }

  pub Sure-gets : (f : Cpu → A) → Sure {S = S} (gets f)
  unfolding gets
  Sure-gets f = record { at = λ c s. tt }

  Kept-arch : (c : Cpu) (o : Result A Trap × (Cpu × S)) → arch o.1.0 ≡ arch c → Kept c o
  Kept-arch c (ok a, (d, s)) h = tt
  Kept-arch c (err t, (d, s)) h = h

  pub Precise-Quiet : (m : Hart S A) → Quiet m → Precise m
  Precise-Quiet m q = record { at = λ c s. Kept-arch c (m c s) (q.at c s) }

  updated-Kept : (c : Cpu) (s : S) (r : Result (A × Cpu) Trap) → Kept c (updated c s r)
  updated-Kept c s (ok (a, d)) = tt
  updated-Kept c s (err t) = refl

  pub Precise-update : (f : Cpu → Result (A × Cpu) Trap) → Precise {S = S} (update f)
  unfolding update
  Precise-update f = record { at = λ c s. updated-Kept c s (f c) }

  pub Precise-if :
      (b : Bool) (m n : Hart S A) → Precise m → Precise n → Precise (if b then m else n)
  Precise-if true m n f g = f
  Precise-if false m n f g = g

module _ {S : Type 0} where
  pub Quiet-modify : (f : Cpu → Cpu) → ((c : Cpu) → arch (f c) ≡ arch c) → Quiet {S = S} (modify f)
  unfolding modify
  Quiet-modify f h = record { at = λ c s. h c }

  pub Quiet-poke : (f : S → S) → Quiet (poke f)
  unfolding poke
  Quiet-poke f = record { at = λ c s. refl }

  pub Sure-modify : (f : Cpu → Cpu) → Sure {S = S} (modify f)
  unfolding modify
  Sure-modify f = record { at = λ c s. tt }

module _ {S B : Type 0} where
  Kept-moved : (c d : Cpu) (o : Result B Trap × (Cpu × S)) → arch d ≡ arch c → Kept d o → Kept c o
  Kept-moved c d (ok b, _) h k = tt
  Kept-moved c d (err t, (e, s)) h k = k ∙ h

  IsOk-Kept : (c : Cpu) (o : Result B Trap × (Cpu × S)) → IsOk o → Kept c o
  IsOk-Kept c (ok b, _) h = tt
  IsOk-Kept c (err t, _) h = elim h [ ]

  pub Precise-certain : (m : Hart S B) → Sure m → Precise m
  Precise-certain m q = record { at = λ c s. IsOk-Kept c (m c s) (q.at c s) }

module _ {S A B : Type 0} where
  continue-arch :
      (c : Cpu) (o : Result A Trap × (Cpu × S)) (f : A → Hart S B)
      → arch o.1.0 ≡ arch c
      → ((a : A) → Quiet (f a))
      → arch (continue o f).1.0 ≡ arch c
  continue-arch c (ok a, (d, s)) f h k = (k a).at d s ∙ h
  continue-arch c (err t, (d, s)) f h k = h

  pub Quiet-bind :
      (m : Hart S A) (f : A → Hart S B) → Quiet m → ((a : A) → Quiet (f a)) → Quiet (m >>= f)
  unfolding ◌>>=◌
  Quiet-bind m f h k = record { at = λ c s. continue-arch c (m c s) f (h.at c s) k }

  continue-Kept :
      (c : Cpu) (o : Result A Trap × (Cpu × S)) (f : A → Hart S B)
      → arch o.1.0 ≡ arch c
      → ((a : A) → Precise (f a))
      → Kept c (continue o f)
  continue-Kept c (ok a, (d, s)) f h k = Kept-moved c d (f a d s) h ((k a).at d s)
  continue-Kept c (err t, (d, s)) f h k = h

  pub Precise-bind :
      (m : Hart S A) (f : A → Hart S B) → Quiet m → ((a : A) → Precise (f a)) → Precise (m >>= f)
  unfolding ◌>>=◌
  Precise-bind m f h k = record { at = λ c s. continue-Kept c (m c s) f (h.at c s) k }

  continue-Sure :
      (c : Cpu) (o : Result A Trap × (Cpu × S)) (f : A → Hart S B)
      → Kept c o
      → ((a : A) → Sure (f a))
      → Kept c (continue o f)
  continue-Sure c (ok a, (d, s)) f h k = IsOk-Kept c (f a d s) ((k a).at d s)
  continue-Sure c (err t, (d, s)) f h k = h

  -- What follows the last part that may trap may change anything.
  pub Precise-Sure :
      (m : Hart S A) (f : A → Hart S B) → Precise m → ((a : A) → Sure (f a)) → Precise (m >>= f)
  unfolding ◌>>=◌
  Precise-Sure m f h k = record { at = λ c s. continue-Sure c (m c s) f (h.at c s) k }

  continue-IsOk :
      (o : Result A Trap × (Cpu × S)) (f : A → Hart S B)
      → IsOk o
      → ((a : A) → Sure (f a))
      → IsOk (continue o f)
  continue-IsOk (ok a, (d, s)) f h k = (k a).at d s
  continue-IsOk (err t, _) f h k = elim h [ ]

  pub Sure-bind :
      (m : Hart S A) (f : A → Hart S B) → Sure m → ((a : A) → Sure (f a)) → Sure (m >>= f)
  unfolding ◌>>=◌
  Sure-bind m f h k = record { at = λ c s. continue-IsOk (m c s) f (h.at c s) k }

module _ {S : Type 0} (bus : Bus S) where
  pub Quiet-translate : (va : ℕ) (access : Access) → Quiet (translate bus va access)
  unfolding translate arch
  Quiet-translate va access = record { at = λ c s. ap arch (xlate-Retlb bus access va c s).rest }

pub wr_taint-arch : (c : Cpu) (i v : ℕ) → arch (wr_taint c i v) ≡ arch c
unfolding arch wr_taint
wr_taint-arch c i v = ground arith

pub taint-arch : (c : Cpu) (i v : ℕ) → arch (if kmsan_enabled c then wr_taint c i v else c) ≡ arch c
taint-arch c i v = ground (arith, wr_taint-arch c i v)

pub log_cmp-arch : (pair : ℕ × ℕ) (c : Cpu) → arch (log_cmp pair c) ≡ arch c
unfolding arch
log_cmp-arch pair c = refl

pub ubsan-arch : (pc : ℕ) (c : Cpu) → arch (record c { ubsan = push_log c.ubsan pc }) ≡ arch c
unfolding arch
ubsan-arch pc c = refl

pub if-arch :
    (b : Bool) (c d e : Cpu)
    → arch d ≡ arch c
    → arch e ≡ arch c
    → arch (if b then d else e) ≡ arch c
if-arch true c d e f g = f
if-arch false c d e f g = g

pub ruleset precise_rules = (
  Quiet-pure, Quiet-raise, Quiet-gets, Quiet-peek, Quiet-on_bus, Quiet-if, Quiet-modify, Quiet-poke,
  Quiet-bind, Quiet-translate, Precise-Quiet, Precise-certain, Precise-update, Precise-if,
  Precise-bind, Precise-Sure, Sure-pure, Sure-gets, Sure-modify, Sure-bind, wr_taint-arch,
  taint-arch, log_cmp-arch, ubsan-arch, if-arch,
)
