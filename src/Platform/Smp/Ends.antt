-- ===== src/Platform/Smp/Ends.antt =====
-- The scheduler ends: a turn takes at most the ticks up to the deadline, and every round runs a turn
-- (crates/fs-platform/src/lib.rs).
use fuzzsoft.Base.{
  ℕ, zero, suc, ◌+◌, ◌≤◌, ◌<◌, ◌≡◌, refl, ap, ◌∙◌, Bool, true, false, ◌||◌, Option, none, some,
  List, [], ◌∷◌, length, get_or, replicate, leb, ◌==◌, arith, length-set, length-replicate,
  Bool-cases, inl, inr,
}
use fuzzsoft.Riscv.Cpu.{Cpu}
use fuzzsoft.Platform.Machine.{Machine}
use fuzzsoft.Platform.Run.{Stop}
use fuzzsoft.Platform.Smp.{
  Turn, turn_step, turn, stopped, all_stopped, Smp, after_turn, ends_after, after_or, round,
  until_broken, rounds, smp_start, smp_result, final_stops, run_smp,
}

-- An option that holds a value with the property.
pub data Holds {A : Type 0} (P : A → Type 0) : Option A → Type 0 where
  holds : (a : A) → P a → Holds P (some a)

pub turn_step-tick : (h : ℕ) (t : Turn) → (turn_step h t).tick ≡ t.tick + 1
unfolding turn_step
turn_step-tick h t = refl

weaken :
    {t u : ℕ} {o : Option Turn} → u ≡ t + 1 → Holds (λ v. u < v.tick) o → Holds (λ v. t < v.tick) o
weaken e (holds v later) = holds v (omega arith)

-- Where the ticks up to the deadline are given, the turn ends, later than it began.
turn-Holds :
    (n h turn_deadline deadline_ticks : ℕ) (t : Turn)
    → 1 ≤ n
    → deadline_ticks ≤ t.tick + n
    → Holds (λ u. t.tick < u.tick) (turn n h turn_deadline deadline_ticks t)
unfolding turn
turn-Holds zero h turn_deadline deadline_ticks t some_left enough = absurd (omega arith)
turn-Holds (suc n) h turn_deadline deadline_ticks t some_left enough =
    let next = turn_step h t in
    let ticked = turn_step-tick h t in
    let over =
      (stopped next.stop || leb turn_deadline next.cpu.insns_retired)
      || leb deadline_ticks next.tick in
    elim (Bool-cases over) [
      | inl ends ↦ rw ends (holds next (omega (arith, ticked)))
      | inr goes ↦
          let early : next.tick < deadline_ticks = ground (arith, goes) in
          rw goes (
            weaken ticked (
              turn-Holds n h turn_deadline deadline_ticks next (omega (arith, ticked))
                (omega (arith, ticked))))
    ]

-- What a round of the harts `h .. h + k` comes to: the scheduler ends, or the ticks went on and are
-- still before the deadline, or all those harts had stopped.
data RoundOf (deadline_ticks h k : ℕ) (s : Smp) : Bool × Smp → Type 0 where
  broke : (e : Smp) → length e.stops ≡ length s.stops → RoundOf deadline_ticks h k s (true, e)
  moved :
      (e : Smp)
      → length e.stops ≡ length s.stops
      → s.tick < e.tick
      → e.tick < deadline_ticks
      → all_stopped e.stops ≡ false
      → RoundOf deadline_ticks h k s (false, e)
  idle :
      ((i : ℕ) → h ≤ i → i < h + k → stopped (get_or s.stops i none) ≡ true)
      → RoundOf deadline_ticks h k s (false, s)

-- A round after its first hart had stopped already.
idle_first :
    (deadline_ticks h k : ℕ) (s : Smp) (o : Option (Bool × Smp))
    → stopped (get_or s.stops h none) ≡ true
    → Holds (RoundOf deadline_ticks (h + 1) k s) o
    → Holds (RoundOf deadline_ticks h (suc k) s) o
idle_first deadline_ticks h k s _ first (holds _ (broke e size)) = holds _ (broke e size)
idle_first deadline_ticks h k s _ first (holds _ (moved e size later early left)) =
    holds _ (moved e size later early left)
idle_first deadline_ticks h k s _ first (holds _ (idle rest)) = holds _ (
    idle (λ i from to. elim (Bool-cases (h == i)) [
      | inl at ↦ ground (arith, first, at)
      | inr past ↦ rest i (ground (arith, past, from)) (omega arith)
    ]))

-- A round after a turn that has moved on.
after_moved :
    (deadline_ticks h k : ℕ) (s e : Smp) (o : Option (Bool × Smp))
    → length e.stops ≡ length s.stops
    → s.tick < e.tick
    → e.tick < deadline_ticks
    → all_stopped e.stops ≡ false
    → Holds (RoundOf deadline_ticks (h + 1) k e) o
    → Holds (RoundOf deadline_ticks h (suc k) s) o
after_moved deadline_ticks h k s e _ same later early left (holds _ (broke f size)) =
    holds _ (broke f (size ∙ same))
after_moved deadline_ticks h k s e _ same later early left
      (holds _ (moved f size later2 early2 left2)) =
    holds _ (moved f (size ∙ same) (omega arith) early2 left2)
after_moved deadline_ticks h k s e _ same later early left (holds _ (idle rest)) =
    holds _ (moved e same later early left)

clash : {b : Bool} → b ≡ true → b ≡ false → ⊥
clash on off = cc

resized :
    {k l : ℕ} {o : Option Smp}
    → k ≡ l
    → Holds (λ f. length f.stops ≡ k) o
    → Holds (λ f. length f.stops ≡ l) o
resized same (holds f size) = holds f (size ∙ same)

module _ (n quantum deadline_ticks : ℕ) (stop_on_hypercall : Bool) (some_left : 1 ≤ n) where
  after_or-Holds :
      (h k : ℕ) (s : Smp) (o : Option Turn) (again : Smp → Option (Bool × Smp))
      → Holds (λ u. s.tick < u.tick) o
      → ((e : Smp) → s.tick < e.tick → Holds (RoundOf deadline_ticks (h + 1) k e) (again e))
      → Holds
          (RoundOf deadline_ticks h (suc k) s)
          (after_or stop_on_hypercall deadline_ticks h s o again)
  after_or-Holds h k s _ again (holds t later) rest =
      let next = after_turn h s t in
      let size : length next.stops ≡ length s.stops = length-set s.stops h t.stop in
      elim (Bool-cases (ends_after stop_on_hypercall deadline_ticks t next)) [
        | inl ends ↦ rw ends (holds _ (broke next size))
        | inr goes ↦
            let early : next.tick < deadline_ticks = ground (arith, goes) in
            let left : all_stopped next.stops ≡ false = ground (arith, goes) in
            rw goes
              (after_moved deadline_ticks h k s next _ size later early left (rest next later))
      ]

  round-Holds :
      (k h : ℕ) (s : Smp)
      → deadline_ticks ≤ s.tick + n
      → Holds
          (RoundOf deadline_ticks h k s)
          (round n quantum deadline_ticks stop_on_hypercall h k s)
  unfolding round
  round-Holds zero h s enough = holds _ (idle (λ i from to. absurd (omega arith)))
  round-Holds (suc k) h s enough = elim (Bool-cases (stopped (get_or s.stops h none))) [
    | inl first ↦
        rw first (idle_first deadline_ticks h k s _ first (round-Holds k (h + 1) s enough))
    | inr runs ↦ rw runs (
        after_or-Holds h k s _ _ (turn-Holds n h _ deadline_ticks _ some_left enough)
          (λ e later. round-Holds k (h + 1) e (omega arith)))
  ]

  all_stopped-idle :
      (ss : List (Option Stop))
      → ((i : ℕ) → i < length ss → stopped (get_or ss i none) ≡ true)
      → all_stopped ss ≡ true
  unfolding all_stopped
  all_stopped-idle [] each = refl
  all_stopped-idle (s ∷ ss) each =
      let first : stopped s ≡ true = each 0 (omega arith) in
      rw first (all_stopped-idle ss (λ i inside. each (suc i) (omega arith)))

  until_broken-Holds :
      (fuel : ℕ) (s : Smp) (o : Option (Bool × Smp)) (again : Smp → Option Smp)
      → all_stopped s.stops ≡ false
      → Holds (RoundOf deadline_ticks 0 (length s.stops) s) o
      → ((e : Smp)
          → s.tick < e.tick
          → e.tick < deadline_ticks
          → all_stopped e.stops ≡ false
          → Holds (λ f. length f.stops ≡ length e.stops) (again e))
      → Holds (λ f. length f.stops ≡ length s.stops) (until_broken o again)
  until_broken-Holds fuel s _ again left (holds _ (broke e size)) rest = holds e size
  until_broken-Holds fuel s _ again left (holds _ (moved e size later early still)) rest =
      resized size (rest e later early still)
  until_broken-Holds fuel s _ again left (holds _ (idle each)) rest =
      absurd
        (clash (all_stopped-idle s.stops (λ i inside. each i (omega arith) (omega arith))) left)

  rounds-Holds :
      (fuel : ℕ) (s : Smp)
      → 1 ≤ fuel
      → deadline_ticks ≤ s.tick + fuel
      → deadline_ticks ≤ s.tick + n
      → all_stopped s.stops ≡ false
      → Holds
          (λ f. length f.stops ≡ length s.stops)
          (rounds fuel n quantum deadline_ticks stop_on_hypercall s)
  unfolding rounds
  rounds-Holds zero s more reach enough left = absurd (omega arith)
  rounds-Holds (suc fuel) s more reach enough left =
      until_broken-Holds fuel s _ _ left (round-Holds (length s.stops) 0 s enough)
        (λ e later early still. rounds-Holds fuel e (omega arith) (omega arith) (omega arith) still)

length-final_stops : (ss : List (Option Stop)) → length (final_stops ss) ≡ length ss
unfolding final_stops
length-final_stops [] = refl
length-final_stops (none ∷ ss) = ap suc (length-final_stops ss)
length-final_stops (some s ∷ ss) = ap suc (length-final_stops ss)

smp_result-Holds :
    (k : ℕ) (o : Option Smp)
    → Holds (λ f. length f.stops ≡ k) o
    → Holds (λ r. length r.0 ≡ k) (smp_result o)
smp_result-Holds k _ (holds f size) = holds _ (length-final_stops f.stops ∙ size)

none_stopped : (k : ℕ) → all_stopped (replicate (suc k) none) ≡ false
unfolding all_stopped replicate
none_stopped k = refl

-- The scheduler of several harts ends: with more passes than ticks before the deadline allowed to
-- the rounds and to each turn, `run_smp` returns, whatever the harts do, and gives one stop for
-- each hart.
pub run_smp-Holds :
    (n : ℕ) (cpus : List Cpu) (machine : Machine) (quantum deadline_ticks : ℕ)
    (stop_on_hypercall : Bool)
    → deadline_ticks < n
    → Holds
        (λ r. length r.0 ≡ length cpus)
        (run_smp n cpus machine quantum deadline_ticks stop_on_hypercall)
unfolding run_smp
run_smp-Holds n [] machine quantum deadline_ticks stop_on_hypercall enough = holds _ refl
run_smp-Holds n (c ∷ cpus) machine quantum deadline_ticks stop_on_hypercall enough =
    let s = smp_start (c ∷ cpus) machine in
    let size : length s.stops ≡ suc (length cpus) = length-replicate (suc (length cpus)) none in
    let nonempty : (suc (length cpus) == 0) ≡ false = ground arith in
    rw nonempty (
      smp_result-Holds (suc (length cpus)) _ (
        resized size (
          rounds-Holds n quantum deadline_ticks stop_on_hypercall (omega arith) n s (omega arith)
            (omega arith) (omega arith) (none_stopped (length cpus)))))
