-- ===== src/Riscv/Cpu/Monad.antt =====
-- What a hart does over a memory: it changes the hart and the memory, and gives a value or a trap.
-- Both come back after a trap too, since what was written through `&mut` stays written
-- (crates/fs-riscv/src/lib.rs).
use fuzzsoft.Base.{Bool, Result, ok, err, if◌then◌else◌}
use fuzzsoft.Fault.{Outcome}
use fuzzsoft.Riscv.Cpu.{Cpu, Trap, mem_trap}

abbrev pub Hart : Type 0 → Type 0 → Type 0
Hart S A = Cpu → S → Result A Trap × (Cpu × S)

module _ {S A : Type 0} where
  unfoldable pub pure : A → Hart S A
  pure a c s = (ok a, (c, s))

  unfoldable pub raise : Trap → Hart S A
  raise t c s = (err t, (c, s))

  unfoldable pub gets : (Cpu → A) → Hart S A
  gets f c s = (ok (f c), (c, s))

  abbrev pub updated : Cpu → S → Result (A × Cpu) Trap → Result A Trap × (Cpu × S)
  updated c s (ok (a, d)) = (ok a, (d, s))
  updated c s (err t) = (err t, (c, s))

  -- A step of the hart alone, which may trap.
  unfoldable pub update : (Cpu → Result (A × Cpu) Trap) → Hart S A
  update f c s = updated c s (f c)

  abbrev pub on_memory : Cpu → Outcome S A → Result A Trap × (Cpu × S)
  on_memory c (ok a, s) = (ok a, (c, s))
  on_memory c (err f, s) = (err (mem_trap f), (c, s))

  -- `bus.call(..).map_err(Trap::Mem)`.
  unfoldable pub on_bus : (S → Outcome S A) → Hart S A
  on_bus call c s = on_memory c (call s)

  -- A call of the bus that only looks.
  unfoldable pub peek : (S → A) → Hart S A
  peek f c s = (ok (f s), (c, s))

module _ {S : Type 0} where
  unfoldable pub modify : (Cpu → Cpu) → Hart S (Unit {0})
  modify f c s = (ok tt, (f c, s))

  -- A call of the bus that cannot fail.
  unfoldable pub poke : (S → S) → Hart S (Unit {0})
  poke f c s = (ok tt, (c, f s))

module _ {S A B : Type 0} where
  abbrev pub continue : Result A Trap × (Cpu × S) → (A → Hart S B) → Result B Trap × (Cpu × S)
  continue (ok a, (c, s)) f = f a c s
  continue (err t, (c, s)) f = (err t, (c, s))

  infixl 5 ◌>>=◌ ◌>>◌
  -- Opening this opens the actions above too.
  unfoldable pub ◌>>=◌ : Hart S A → (A → Hart S B) → Hart S B
  unfolding pure raise gets update on_bus peek modify poke
  ◌>>=◌ m f c s = continue (m c s) f

  abbrev pub ◌>>◌ : Hart S A → Hart S B → Hart S B
  m >> k = m >>= λ _. k

abbrev pub raise_if : {S : Type 0} → Bool → Trap → Hart S (Unit {0})
raise_if b t = if b then raise t else pure tt

abbrev pub when : {S : Type 0} → Bool → Hart S (Unit {0}) → Hart S (Unit {0})
when b m = if b then m else pure tt
