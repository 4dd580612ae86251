-- ===== src/Riscv/Cpu/Agree.antt =====
-- One hart over two memories that answer alike (crates/fs-riscv/src/lib.rs): actions that give the
-- same value or trap and the same hart, with a rule for each way to build an action. The hart does
-- not track taint.
pub mod Arms
pub mod Holds
pub mod Step
use fuzzsoft.Base.{
  ℕ, ◌<◌, ◌/◌, ◌^◌, ◌&&◌, not, zero, suc, ◌≡◌, refl, sym, ap, ◌∙◌, Bool, true, false, Option, none,
  some, Result, ok, err, if◌then◌else◌, arith, Bool-cases, inl, inr,
}
use fuzzsoft.Fault.{Access, Fault, Outcome}
use fuzzsoft.Bus.{Bus}
use fuzzsoft.Riscv.Cpu.{Cpu, Trap, TlbEntry, mem_trap, tlb_get}
use fuzzsoft.Riscv.Cpu.Monad.{
  Hart, pure, raise, gets, update, updated, on_bus, on_memory, peek, modify, continue, ◌>>=◌,
}
use fuzzsoft.Riscv.Cpu.Memory.{translate}
use fuzzsoft.Riscv.Cpu.Exec.{is_some, kmsan_enabled}
use fuzzsoft.Riscv.Cpu.Xlate.{
  EntryKind, refused, leaf, table, entry_kind, walk_entry, walk_loaded, Xlated, refill, take_leaf,
  walk, xlate, pte_target, root_table, ad_unset, leaf_pa, leaf_stored, page_fault, xlate_entry,
  untranslated, may_access, is_write, entry_leaf, entry_pa,
}

abbrev pub Untracked : Cpu → Type 0
Untracked c = c.regs_taint ≡ none

module _ {S T : Type 0} (R : S → T → Type 0) where
  -- Two outcomes of a call of the bus: one result, and memories that are related.
  pub data Concord {A : Type 0} : Outcome S A → Outcome T A → Type 0 where
    concord : (r : Result A Fault) (s : S) (t : T) → R s t → Concord (r, s) (r, t)

  -- Two memories that answer a hart alike.
  pub record Related (near : Bus S) (far : Bus T) : Type 0 where
    pub loads :
        (s : S) (t : T)
        → R s t
        → (addr size : ℕ) → Concord (near.load s addr size) (far.load t addr size)
    pub stores :
        (s : S) (t : T)
        → R s t
        → (addr size val : ℕ) → Concord (near.store s addr size val) (far.store t addr size val)
    pub fetches :
        (s : S) (t : T) → R s t → (addr : ℕ) → Concord (near.ifetch16 s addr) (far.ifetch16 t addr)
    pub raw_states :
        (s : S) (t : T)
        → R s t
        → (addr len : ℕ) → near.read_raw_state s addr len ≡ far.read_raw_state t addr len

  -- Two memories that answer the stores of one byte or more, and all else, alike.
  pub record Answers (near : Bus S) (far : Bus T) : Type 0 where
    pub loads :
        (s : S) (t : T)
        → R s t
        → (addr size : ℕ) → Concord (near.load s addr size) (far.load t addr size)
    pub stores :
        (s : S) (t : T)
        → R s t
        → (addr size val : ℕ) → 0 < size
        → Concord (near.store s addr size val) (far.store t addr size val)
    pub fetches :
        (s : S) (t : T) → R s t → (addr : ℕ) → Concord (near.ifetch16 s addr) (far.ifetch16 t addr)
    pub raw_states :
        (s : S) (t : T)
        → R s t
        → (addr len : ℕ) → near.read_raw_state s addr len ≡ far.read_raw_state t addr len

  pub Related-Answers : (near : Bus S) (far : Bus T) → Related near far → Answers near far
  Related-Answers near far same = record {
    loads = same.loads;
    stores = λ s t h addr size val some_byte. same.stores s t h addr size val;
    fetches = same.fetches;
    raw_states = same.raw_states;
  }

  -- Two outcomes of an action: one result and one hart.
  pub data Agree {A : Type 0} : Result A Trap × (Cpu × S) → Result A Trap × (Cpu × T) → Type 0 where
    agree :
        (r : Result A Trap) (c : Cpu) (s : S) (t : T)
        → Untracked c
        → R s t
        → Agree (r, (c, s)) (r, (c, t))

  pub record Sim {A : Type 0} (m : Hart S A) (n : Hart T A) : Type 0 where
    pub at : (c : Cpu) (s : S) (t : T) → Untracked c → R s t → Agree (m c s) (n c t)

-- A change of a hart turns no tracking on.
abbrev pub KeepsUntracked : (Cpu → Cpu) → Type 0
KeepsUntracked f = (c : Cpu) → Untracked c → Untracked (f c)

abbrev pub StaysUntracked : {A : Type 0} → Result (A × Cpu) Trap → Type 0
StaysUntracked (ok (a, d)) = Untracked d
StaysUntracked (err t) = Unit {0}

module _ {S T : Type 0} {R : S → T → Type 0} where
  pub Concord-equal :
      {A : Type 0} (o : Outcome S A) (p : Outcome T A) → o.0 ≡ p.0 → R o.1 p.1 → Concord R o p
  Concord-equal (r, s) (q, t) e h = rw e (concord q s t h)

  module _ {A : Type 0} where
    pub Sim-pure : (a : A) → Sim R (pure a) (pure a)
    unfolding pure
    Sim-pure a = record { at = λ c s t u h. agree (ok a) c s t u h }

    pub Sim-raise : (e : Trap) → Sim R {A = A} (raise e) (raise e)
    unfolding raise
    Sim-raise e = record { at = λ c s t u h. agree (err e) c s t u h }

    pub Sim-gets : (f : Cpu → A) → Sim R (gets f) (gets f)
    unfolding gets
    Sim-gets f = record { at = λ c s t u h. agree (ok (f c)) c s t u h }

    pub Sim-peek :
        (f : S → A) (g : T → A) → ((s : S) (t : T) → R s t → f s ≡ g t) → Sim R (peek f) (peek g)
    unfolding peek
    Sim-peek f g k = record { at = λ c s t u h. rw (k s t h) (agree (ok (g t)) c s t u h) }

    on_memory-Agree :
        (c : Cpu) (o : Outcome S A) (p : Outcome T A)
        → Untracked c
        → Concord R o p
        → Agree R (on_memory c o) (on_memory c p)
    on_memory-Agree c _ _ u (concord (ok a) s t h) = agree (ok a) c s t u h
    on_memory-Agree c _ _ u (concord (err f) s t h) = agree (err (mem_trap f)) c s t u h

    pub Sim-on_bus :
        (call : S → Outcome S A) (other : T → Outcome T A)
        → ((s : S) (t : T) → R s t → Concord R (call s) (other t))
        → Sim R (on_bus call) (on_bus other)
    unfolding on_bus
    Sim-on_bus call other k = record {
      at = λ c s t u h. on_memory-Agree c (call s) (other t) u (k s t h);
    }

    updated-Agree :
        (c : Cpu) (s : S) (t : T) (r : Result (A × Cpu) Trap)
        → Untracked c
        → R s t
        → StaysUntracked r
        → Agree R (updated c s r) (updated c t r)
    updated-Agree c s t (ok (a, d)) u h k = agree (ok a) d s t k h
    updated-Agree c s t (err e) u h k = agree (err e) c s t u h

    pub Sim-update :
        (f : Cpu → Result (A × Cpu) Trap)
        → ((c : Cpu) → Untracked c → StaysUntracked (f c))
        → Sim R (update f) (update f)
    unfolding update
    Sim-update f k = record { at = λ c s t u h. updated-Agree c s t (f c) u h (k c u) }

    pub Sim-if :
        (b : Bool) (m n : Hart S A) (x y : Hart T A)
        → Sim R m x
        → Sim R n y
        → Sim R (if b then m else n) (if b then x else y)
    Sim-if true m n x y f g = f
    Sim-if false m n x y f g = g

  if-Agree :
      {A : Type 0} (b : Bool) (o x : Result A Trap × (Cpu × S)) (p y : Result A Trap × (Cpu × T))
      → Agree R o p
      → Agree R x y
      → Agree R (if b then o else x) (if b then p else y)
  if-Agree true o x p y f g = f
  if-Agree false o x p y f g = g

  pub Sim-modify : (f : Cpu → Cpu) → KeepsUntracked f → Sim R (modify f) (modify f)
  unfolding modify
  Sim-modify f k = record { at = λ c s t u h. agree (ok tt) (f c) s t (k c u) h }

  module _ {A B : Type 0} where
    continue-Agree :
        (o : Result A Trap × (Cpu × S)) (p : Result A Trap × (Cpu × T)) (f : A → Hart S B)
        (g : A → Hart T B)
        → Agree R o p
        → ((a : A) → Sim R (f a) (g a))
        → Agree R (continue o f) (continue p g)
    continue-Agree _ _ f g (agree (ok a) c s t u h) k = (k a).at c s t u h
    continue-Agree _ _ f g (agree (err e) c s t u h) k = agree (err e) c s t u h

    pub Sim-bind :
        (m : Hart S A) (n : Hart T A) (f : A → Hart S B) (g : A → Hart T B)
        → Sim R m n
        → ((a : A) → Sim R (f a) (g a))
        → Sim R (m >>= f) (n >>= g)
    unfolding ◌>>=◌
    Sim-bind m n f g x k = record {
      at = λ c s t u h. continue-Agree (m c s) (n c t) f g (x.at c s t u h) k;
    }

  off-Agree :
      {B : Type 0} (b : Bool) (f : Bool → Hart S B) (g : Bool → Hart T B) (c : Cpu) (s : S) (t : T)
      → b ≡ false
      → Agree R (f false c s) (g false c t)
      → Agree R (f b c s) (g b c t)
  off-Agree b f g c s t e h = rw e h

  -- The hart does not track taint, so its check reads false.
  pub Sim-kmsan :
      {B : Type 0} (f : Bool → Hart S B) (g : Bool → Hart T B)
      → Sim R (f false) (g false)
      → Sim R (gets kmsan_enabled >>= f) (gets kmsan_enabled >>= g)
  unfolding ◌>>=◌
  Sim-kmsan f g k = record {
    at = λ c s t u h. off-Agree (kmsan_enabled c) f g c s t (ap is_some u) (k.at c s t u h);
  }

  module _ (near : Bus S) (far : Bus T) (same : Answers R near far) (access : Access) (va : ℕ) where
    leaf_stored-Agree :
        (pa : ℕ) (c d : Cpu) (o : Outcome S (Unit {0})) (p : Outcome T (Unit {0}))
        → Untracked c
        → Untracked d
        → Concord R o p
        → Agree R (leaf_stored access va pa d c o) (leaf_stored access va pa d c p)
    leaf_stored-Agree pa c d _ _ u v (concord (ok _) s t h) = agree (ok pa) d s t v h
    leaf_stored-Agree pa c d _ _ u v (concord (err _) s t h) =
        agree (err (page_fault access va)) c s t u h

    take_leaf-Agree :
        (level addr pte : ℕ) (c : Cpu) (s : S) (t : T)
        → Untracked c
        → R s t
        → Agree R
            (take_leaf near access va level addr pte c s)
            (take_leaf far access va level addr pte c t)
    unfolding take_leaf
    take_leaf-Agree level addr pte c s t u h =
        let pa = leaf_pa level pte va in
        let filled = refill access va pte pa c in
        elim (Bool-cases (ad_unset access pte)) [
          | inl unset ↦
              rw unset
                (leaf_stored-Agree pa c filled _ _ u u (same.stores s t h _ _ _ (omega arith)))
          | inr already ↦ rw already (agree (ok pa) filled s t u h)
        ]

    walk_loaded-Agree :
        (level addr : ℕ) (deep : ℕ → S → Xlated S) (deeper : ℕ → T → Xlated T) (c : Cpu)
        (o : Outcome S ℕ) (p : Outcome T ℕ)
        → Untracked c
        → Concord R o p
        → ((pte : ℕ) (s : S) (t : T) → R s t → Agree R (deep pte s) (deeper pte t))
        → Agree R
            (walk_loaded near access va level addr deep c o)
            (walk_loaded far access va level addr deeper c p)
    walk_loaded-Agree level addr deep deeper c _ _ u (concord (err f) s t h) k =
        agree (err (page_fault access va)) c s t u h
    walk_loaded-Agree level addr deep deeper c _ _ u (concord (ok pte) s t h) k =
        elim (entry_kind c access level pte)
          as (λ kind.
            Agree R (walk_entry kind near access va level addr pte (deep pte) c s)
              (walk_entry kind far access va level addr pte (deeper pte) c t)) [
                | refused ↦ agree (err (page_fault access va)) c s t u h
                | leaf ↦ take_leaf-Agree level addr pte c s t u h
                | table ↦ k pte s t h
              ]

    walk-Agree :
        (n a : ℕ) (c : Cpu) (s : S) (t : T)
        → Untracked c
        → R s t
        → Agree R (walk near access va n a c s) (walk far access va n a c t)
    unfolding walk
    walk-Agree zero a c s t u h = agree (err (page_fault access va)) c s t u h
    walk-Agree (suc level) a c s t u h =
        walk_loaded-Agree level _ _ _ c _ _ u (same.loads s t h _ _)
          (λ pte x y r. walk-Agree level (pte_target pte) c x y u r)

    xlate_entry-Agree :
        (e : Option TlbEntry) (o : Xlated S) (p : Xlated T) (c : Cpu) (s : S) (t : T)
        → Untracked c
        → R s t
        → Agree R o p
        → Agree R (xlate_entry e o c s va access) (xlate_entry e p c t va access)
    xlate_entry-Agree none o p c s t u h k = k
    xlate_entry-Agree (some e) o p c s t u h k =
        if-Agree (not (may_access c access (entry_leaf e))) _ _ _ _
          (agree (err (page_fault access va)) c s t u h)
          (if-Agree (not (is_write access && not (e.d_set))) _ _ _ _
            (agree (ok (entry_pa e va)) c s t u h) k)

    xlate-Agree :
        (c : Cpu) (s : S) (t : T)
        → Untracked c
        → R s t
        → Agree R (xlate near c s va access) (xlate far c t va access)
    unfolding xlate
    xlate-Agree c s t u h = if-Agree (untranslated c access) _ _ _ _ (agree (ok va) c s t u h) (
        xlate_entry-Agree (tlb_get c.tlb (va / 2 ^ 12)) _ _ c s t u h
          (walk-Agree 2 (root_table c) c s t u h))

    pub Sim-translate : Sim R (translate near va access) (translate far va access)
    unfolding translate
    Sim-translate = record { at = xlate-Agree }
