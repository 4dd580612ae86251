-- ===== src/Platform/Smp/Guards.antt =====
-- What a reservation of another hart guards through a turn: `RecordingBus`, the turn's loop and the
-- invalidation after it (crates/fs-platform/src/lib.rs).
use fuzzsoft.Base.{
  ℕ, zero, suc, ◌+◌, ◌^◌, ◌≤◌, ◌<◌, ◌≡◌, refl, ap, ◌∙◌, Bool, true, false, not, ◌&&◌, ◌||◌, inl,
  inr, Option, none, some, List, [], ◌∷◌, ◌++◌, Result, ok, err, length, get_or, all, leb, ◌==◌,
  arith, Bool-cases, Option-cases,
}
use fuzzsoft.Fault.{Outcome}
use fuzzsoft.Mmu.{Mmu}
use fuzzsoft.Mmu.Words.{Word, Left, store-Left}
use fuzzsoft.Riscv.Cpu.{Cpu}
use fuzzsoft.Riscv.Cpu.Agree.{Untracked}
use fuzzsoft.Riscv.Cpu.Agree.Holds.{BusKeeps, step_system-Held}
use fuzzsoft.Platform.{in_ram, in_clint, in_uart}
use fuzzsoft.Platform.Machine
use fuzzsoft.Platform.Machine.{Machine, machine_bus}
use fuzzsoft.Platform.Clint.{Clint}
use fuzzsoft.Platform.Run.{set_mtime}
use fuzzsoft.Platform.Smp.{
  Recording, seen, recorded, recording_bus, apply_clint_hart, Turn, turn_step, turn, stopped, Smp,
  hart, after_turn, turn_of,
}
use fuzzsoft.Platform.Smp.Ends.{Holds, holds, turn_step-tick}
use fuzzsoft.Platform.Smp.Reservations.{overlaps, after_turn-reservations}

-- No recorded span holds the address.
abbrev missed : ℕ → List (ℕ × ℕ) → Bool
missed r ws = all (λ w. not (overlaps (some r) w)) ws

missed-append_one :
    (r addr len : ℕ) (ws : List (ℕ × ℕ))
    → missed r (ws ++ ((addr, len) ∷ [])) ≡ missed r ws && not (overlaps (some r) (addr, len))
missed-append_one r addr len [] = ground arith
missed-append_one r addr len ((a, l) ∷ ws) = ground (arith, missed-append_one r addr len ws)

in_ram-small : (addr base end : ℕ) → in_ram addr base end ≡ true → end ≤ 2 ^ 32 → addr < 2 ^ 32
unfolding in_ram
in_ram-small addr base end h fits = ground arith

-- A load leaves the machine.
loaded : (m : Machine) (addr size : ℕ) → (Machine.load m addr size).1 ≡ m
unfolding Machine.load
loaded m addr size = ground arith

clinted-Untracked : (h : ℕ) (c : Cpu) (k : Clint) → Untracked c → Untracked (apply_clint_hart c k h)
unfolding apply_clint_hart
clinted-Untracked zero c k u = u
clinted-Untracked (suc h) c k u = u

Holds-map :
    {A : Type 0} {P Q : A → Type 0} {o : Option A} → ((a : A) → P a → Q a) → Holds P o → Holds Q o
Holds-map f (holds a p) = holds a (f a p)

abbrev pub is_reserved : Option ℕ → ℕ → Bool
is_reserved none a = false
is_reserved (some r) a = r == a

module _ (start : Mmu) (j : ℕ) where
  abbrev place : ℕ
  place = start.base + j

  -- Since the turn began with the RAM `start`: where no recorded span holds the address of the byte
  -- `j`, the byte is as it was.
  record Watched (rec : Recording) : Type 0 where
    word : Word rec.machine.ram j
    base : rec.machine.ram.base ≡ start.base
    ends : rec.machine.ram_end ≤ 2 ^ 32
    byte : missed place rec.writes ≡ true → get_or rec.machine.ram.mem j 0 ≡ get_or start.mem j 0

  -- A call that leaves the RAM alone.
  seen-Watched :
      {A : Type 0} (rec : Recording) (o : Outcome Machine A)
      → o.1 ≡ rec.machine
      → Watched rec
      → Watched (seen rec.writes o).1
  seen-Watched rec (r, m) same w = record {
    word = rw same (w.word);
    base = rw same (w.base);
    ends = rw same (w.ends);
    byte = λ h. rw same (w.byte h);
  }

  -- What a store of the machine leaves.
  record Stored (m : Machine) (addr : ℕ) (o : Outcome Machine (Unit {0})) : Type 0 where
    left : Left m.ram j addr (o.0, o.1.ram)
    ends : o.1.ram_end ≡ m.ram_end

  store-Stored :
      (m : Machine) (addr size val : ℕ)
      → m.ram_end ≤ 2 ^ 32
      → Word m.ram j
      → Stored m addr (Machine.store m addr size val)
  unfolding Machine.store
  store-Stored m addr size val fits w =
      let same : (r : Result (Unit {0}) _) (k : Machine)
          → k.ram ≡ m.ram
          → k.ram_end ≡ m.ram_end
          → Stored m addr (r, k) =
        λ r k e f. record {
          left = record {
            word = rw e w;
            base = ap (λ x. x.base) e;
            byte = λ _. ap (λ x. get_or x.mem j 0) e;
          };
          ends = f;
        } in
      elim (Bool-cases (in_clint addr)) [
        | inl clint ↦ rw clint (same _ _ refl refl)
        | inr _1 ↦ elim (Bool-cases (in_uart addr)) [
          | inl uart ↦ rw (_1, uart) (same _ _ refl refl)
          | inr _2 ↦ elim (Bool-cases (in_ram addr m.ram_base m.ram_end)) [
            | inl ram ↦
                let small = in_ram-small addr m.ram_base m.ram_end ram fits in
                rw (_1, _2, ram)
                  (record { left = store-Left j m.ram addr size val small w; ends = refl })
            | inr _3 ↦ rw (_1, _2, _3) (same _ _ refl refl)
          ]
        ]
      ]

  recorded-Watched :
      (rec : Recording) (addr size : ℕ) (o : Outcome Machine (Unit {0}))
      → 0 < size
      → Stored rec.machine addr o
      → Watched rec
      → Watched (recorded rec.writes addr size o).1
  recorded-Watched rec addr size (ok u, m) some_byte s w = record {
    word = s.left.word;
    base = s.left.base ∙ w.base;
    ends = rw (s.ends) (w.ends);
    byte = λ h.
        let split = missed-append_one place addr size rec.writes in
        let before : missed place rec.writes ≡ true = ground (arith, h, split) in
        let elsewhere : (addr == rec.machine.ram.base + j) ≡ false =
          ground (arith, h, split, w.base) in
        s.left.byte (rw elsewhere refl) ∙ w.byte before;
  }
  recorded-Watched rec addr size (err f, m) some_byte s w = record {
    word = s.left.word;
    base = s.left.base ∙ w.base;
    ends = rw (s.ends) (w.ends);
    byte = λ h. s.left.byte (ground arith) ∙ w.byte h;
  }

  -- Through every call of the recording bus.
  recording_bus-BusKeeps : BusKeeps Watched recording_bus
  unfolding recording_bus
  recording_bus-BusKeeps = record {
    loads = λ rec addr size w.
        seen-Watched rec (Machine.load rec.machine addr size) (loaded rec.machine addr size) w;
    stores = λ rec addr size val some_byte w.
        recorded-Watched rec addr size (Machine.store rec.machine addr size val) some_byte
          (store-Stored rec.machine addr size val w.ends w.word) w;
    fetches = λ rec addr w. w;
  }

  -- A turn of a hart that tracks no taint, and what it has recorded.
  record Going (t : Turn) : Type 0 where
    untracked : Untracked t.cpu
    watched : Watched t.rec

  turn_step-Going : (h : ℕ) (t : Turn) → Going t → Going (turn_step h t)
  unfolding turn_step apply_clint_hart
  turn_step-Going h t g =
      let machine = set_mtime t.tick t.rec.machine in
      let w = g.watched in
      let held =
        step_system-Held Watched recording_bus (apply_clint_hart t.cpu machine.clint h)
          (record t.rec { machine = machine }) recording_bus-BusKeeps
          (clinted-Untracked h t.cpu machine.clint g.untracked)
          (record { word = w.word; base = w.base; ends = w.ends; byte = w.byte }) in
      record { untracked = held.0; watched = held.1 }

  turn-Going :
      (n h turn_deadline deadline_ticks : ℕ) (t : Turn)
      → 1 ≤ n
      → deadline_ticks ≤ t.tick + n
      → Going t
      → Holds Going (turn n h turn_deadline deadline_ticks t)
  unfolding turn
  turn-Going zero h turn_deadline deadline_ticks t some_left enough g = absurd (omega arith)
  turn-Going (suc n) h turn_deadline deadline_ticks t some_left enough g =
      let next = turn_step h t in
      let ticked = turn_step-tick h t in
      let going = turn_step-Going h t g in
      let over =
        (stopped next.stop || leb turn_deadline next.cpu.insns_retired)
        || leb deadline_ticks next.tick in
      elim (Bool-cases over) [
        | inl ends ↦ rw ends (holds next going)
        | inr goes ↦
            let early : next.tick < deadline_ticks = ground (arith, goes) in
            rw goes (
              turn-Going n h turn_deadline deadline_ticks next (omega (arith, ticked))
                (omega (arith, ticked)) going)
      ]

-- The hart `i` has lost its reservation of the byte `j`, or the byte is as it was.
abbrev pub guarded : ℕ → ℕ → Smp → Smp → Bool
guarded i j before after =
    not (is_reserved (hart after i).reservation (before.machine.ram.base + j))
    || get_or after.machine.ram.mem j 0 == get_or before.machine.ram.mem j 0

guards :
    (i j h : ℕ) (s : Smp) (t : Turn)
    → all (λ w. not (overlaps (hart (after_turn h s t) i).reservation w)) t.rec.writes ≡ true
    → Going s.machine.ram j t
    → guarded i j s (after_turn h s t) ≡ true
guards i j h s t clear g = elim (Option-cases (hart (after_turn h s t) i).reservation) [
  | inl gone ↦ rw gone refl
  | inr (r, held) ↦ elim (Bool-cases (r == s.machine.ram.base + j)) [
    | inr other ↦ rw (held, other) refl
    | inl here ↦
        let e : r ≡ s.machine.ram.base + j = ground arith in
        let unseen : missed (s.machine.ram.base + j) t.rec.writes ≡ true = rw (held, e) at clear in
        let same = g.watched.byte unseen in rw same (ground arith)
  ]
]

-- A reservation guards its byte through the turn of another hart: for a running hart that tracks no
-- taint, a machine whose RAM ends by 2 ^ 32 and has two planes of one length, and an aligned word
-- inside the RAM each of whose bytes may be written, with as many passes allowed as ticks are left
-- before the deadline and at least one, the turn ends, and after the invalidation that follows it
-- each other hart no longer holds a reservation at the word's address, or the word's first byte is
-- as it was before the turn.
pub turn_of-guarded :
    (n quantum deadline_ticks h i j : ℕ) (s : Smp)
    → 1 ≤ n
    → deadline_ticks ≤ s.tick + n
    → i < length s.cpus
    → (i == h) ≡ false
    → Untracked (hart s h)
    → s.machine.ram_end ≤ 2 ^ 32
    → Word s.machine.ram j
    → Holds (λ t. guarded i j s (after_turn h s t) ≡ true) (turn_of n quantum deadline_ticks h s)
turn_of-guarded n quantum deadline_ticks h i j s some_left enough inside other u ends w =
    Holds-map (λ t g. guards i j h s t (after_turn-reservations h i s t inside other) g)
      (turn-Going s.machine.ram j n h _ deadline_ticks _ some_left enough (record {
        untracked = u;
        watched = record { word = w; base = refl; ends = ends; byte = λ _. refl };
      }))
