-- ===== src/Platform/Smp.antt =====
-- The round-robin scheduler of several harts over one machine: `RecordingBus`, `run_smp`
-- (crates/fs-platform/src/lib.rs).
pub mod Ends
pub mod Guards
pub mod Reservations
use fuzzsoft.Base.{
  ℕ, zero, suc, ◌+◌, ◌-◌, ◌^◌, Bool, true, false, not, ◌&&◌, ◌||◌, Option, none, some, List, [],
  ◌∷◌, ◌++◌, Result, ok, err, length, get_or, set, replicate, leb, ◌==◌, if◌then◌else◌,
}
use fuzzsoft.Fault.{Outcome, u32}
use fuzzsoft.Bus.{Bus}
use fuzzsoft.Riscv.Cpu.{Cpu, new_hart, invalidate_reservation}
use fuzzsoft.Riscv.Cpu.System.{SysExit, carry_on, halted, hypercall, step_system}
use fuzzsoft.Platform.Clint.{Clint, no_deadline}
use fuzzsoft.Platform.Machine.{Machine, machine_bus}
use fuzzsoft.Platform.Run.{Stop, halt_stop, hypercall_stop, budget, with_clint, set_mtime}

-- Hart 0 has the scalar registers.
unfoldable pub apply_clint_hart : Cpu → Clint → ℕ → Cpu
apply_clint_hart cpu clint zero = with_clint clint.msip clint.mtimecmp cpu
apply_clint_hart cpu clint (suc h) =
    with_clint (get_or clint.msip_extra h 0) (get_or clint.mtimecmp_extra h no_deadline) cpu

-- The machine and the spans of the successful stores.
pub record Recording : Type 0 where
  pub machine : Machine
  pub writes : List (ℕ × ℕ)

abbrev pub seen : {A : Type 0} → List (ℕ × ℕ) → Outcome Machine A → Outcome Recording A
seen writes (r, m) = (r, record { machine = m; writes = writes })

-- A store is recorded where it succeeds.
abbrev pub recorded :
    List (ℕ × ℕ) → ℕ → ℕ → Outcome Machine (Unit {0}) → Outcome Recording (Unit {0})
recorded writes addr size (ok u, m) =
    (ok u, record { machine = m; writes = writes ++ ((addr, size) ∷ []) })
recorded writes addr size (err f, m) = (err f, record { machine = m; writes = writes })

-- `impl Bus for RecordingBus`.
unfoldable pub recording_bus : Bus Recording
recording_bus = record {
  load = λ r addr size. seen r.writes (machine_bus.load r.machine addr size);
  store =
      λ r addr size val. recorded r.writes addr size (machine_bus.store r.machine addr size val);
  ifetch16 = λ r addr. seen r.writes (machine_bus.ifetch16 r.machine addr);
  read_raw_state = λ r addr len. machine_bus.read_raw_state r.machine addr len;
  write_shadow =
      λ r addr len mask. record r { machine = machine_bus.write_shadow r.machine addr len mask };
}

abbrev pub stop_of : SysExit → Option Stop
stop_of carry_on = none
stop_of (halted code) = some (halt_stop code)
stop_of (hypercall code) = some (hypercall_stop code)

abbrev pub stopped : Option Stop → Bool
stopped none = false
stopped (some _) = true

abbrev pub hypercalled : Option Stop → Bool
hypercalled none = false
hypercalled (some (halt_stop _)) = false
hypercalled (some (hypercall_stop _)) = true
hypercalled (some budget) = false

-- A hart in its turn, the bus that records its stores, and the scheduler's tick.
pub record Turn : Type 0 where
  pub stop : Option Stop
  pub cpu : Cpu
  pub rec : Recording
  pub tick : ℕ

-- One pass of the turn's loop.
unfoldable pub turn_step : ℕ → Turn → Turn
unfolding apply_clint_hart
turn_step h t =
    let machine = set_mtime t.tick t.rec.machine in
    let (exit, (cpu, rec)) =
      step_system recording_bus (apply_clint_hart t.cpu machine.clint h)
        (record t.rec { machine = machine }) in
    record { stop = stop_of exit; cpu = cpu; rec = rec; tick = t.tick + 1 }

-- The loop runs its body before it tests; `none` is a turn that is not over after that many steps.
unfoldable pub turn : ℕ → ℕ → ℕ → ℕ → Turn → Option Turn
turn zero h turn_deadline deadline_ticks t = none
turn (suc n) h turn_deadline deadline_ticks t =
    let next = turn_step h t in
    if (stopped next.stop || leb turn_deadline next.cpu.insns_retired)
      || leb deadline_ticks next.tick
    then some next
    else turn n h turn_deadline deadline_ticks next

-- Every hart but `h`, from the hart `i` on, loses a reservation inside the span.
unfoldable pub invalidate_others : ℕ → ℕ → ℕ → ℕ → List Cpu → List Cpu
invalidate_others h addr len i [] = []
invalidate_others h addr len i (c ∷ cs) =
    (if i == h then c else invalidate_reservation c addr len)
    ∷ invalidate_others h addr len (i + 1) cs

unfoldable pub invalidate_all : ℕ → List (ℕ × ℕ) → List Cpu → List Cpu
unfolding invalidate_others
invalidate_all h [] cpus = cpus
invalidate_all h ((addr, len) ∷ writes) cpus =
    invalidate_all h writes (invalidate_others h addr len 0 cpus)

-- `stops.iter().all(|s| s.is_some())`.
unfoldable pub all_stopped : List (Option Stop) → Bool
all_stopped [] = true
all_stopped (s ∷ ss) = stopped s && all_stopped ss

pub record Smp : Type 0 where
  pub cpus : List Cpu
  pub machine : Machine
  pub stops : List (Option Stop)
  pub tick : ℕ

-- The state after the turn of the hart `h`.
abbrev pub after_turn : ℕ → Smp → Turn → Smp
after_turn h s t = record {
  cpus = invalidate_all h t.rec.writes (set s.cpus h t.cpu);
  machine = t.rec.machine;
  stops = set s.stops h t.stop;
  tick = t.tick;
}

-- Whether the scheduler ends after that turn.
abbrev pub ends_after : Bool → ℕ → Turn → Smp → Bool
ends_after stop_on_hypercall deadline_ticks t s =
    ((stop_on_hypercall && hypercalled t.stop) || all_stopped s.stops) || leb deadline_ticks s.tick

abbrev pub hart : Smp → ℕ → Cpu
hart s h = get_or s.cpus h (new_hart 0 0)

abbrev pub turn_of : ℕ → ℕ → ℕ → ℕ → Smp → Option Turn
turn_of n quantum deadline_ticks h s =
    turn n h ((hart s h).insns_retired + quantum) deadline_ticks (record {
      stop = none;
      cpu = hart s h;
      rec = record { machine = s.machine; writes = [] };
      tick = s.tick;
    })

-- The rest of a round after a turn, with the flag of `break 'outer`.
abbrev pub after_or :
    Bool → ℕ → ℕ → Smp → Option Turn → (Smp → Option (Bool × Smp)) → Option (Bool × Smp)
after_or stop_on_hypercall deadline_ticks h s none again = none
after_or stop_on_hypercall deadline_ticks h s (some t) again =
    let next = after_turn h s t in
    if ends_after stop_on_hypercall deadline_ticks t next then some (true, next) else again next

-- The turns of the harts `h .. h + k`.
unfoldable pub round : ℕ → ℕ → ℕ → Bool → ℕ → ℕ → Smp → Option (Bool × Smp)
round n quantum deadline_ticks stop_on_hypercall h zero s = some (false, s)
round n quantum deadline_ticks stop_on_hypercall h (suc k) s =
    let again : Smp → Option (Bool × Smp) =
      λ next. round n quantum deadline_ticks stop_on_hypercall (h + 1) k next in
    if stopped (get_or s.stops h none)
    then again s
    else after_or stop_on_hypercall deadline_ticks h s (turn_of n quantum deadline_ticks h s) again

abbrev pub until_broken : Option (Bool × Smp) → (Smp → Option Smp) → Option Smp
until_broken none again = none
until_broken (some (true, s)) again = some s
until_broken (some (false, s)) again = again s

-- `'outer: loop`, with at most `fuel` rounds and at most `n` passes in a turn.
unfoldable pub rounds : ℕ → ℕ → ℕ → ℕ → Bool → Smp → Option Smp
rounds zero n quantum deadline_ticks stop_on_hypercall s = none
rounds (suc fuel) n quantum deadline_ticks stop_on_hypercall s =
    until_broken (round n quantum deadline_ticks stop_on_hypercall 0 (length s.stops) s)
      (rounds fuel n quantum deadline_ticks stop_on_hypercall)

-- `unwrap_or(Stop::Budget)`.
unfoldable pub final_stops : List (Option Stop) → List Stop
final_stops [] = []
final_stops (none ∷ ss) = budget ∷ final_stops ss
final_stops (some s ∷ ss) = s ∷ final_stops ss

abbrev pub smp_start : List Cpu → Machine → Smp
smp_start cpus machine = record {
  cpus = cpus;
  machine = machine;
  stops = replicate (length cpus) none;
  tick = 0;
}

abbrev pub smp_result : Option Smp → Option (List Stop × (List Cpu × Machine))
smp_result none = none
smp_result (some s) = some (final_stops s.stops, (s.cpus, s.machine))

unfoldable pub run_smp :
    ℕ → List Cpu → Machine → ℕ → ℕ → Bool → Option (List Stop × (List Cpu × Machine))
run_smp n cpus machine quantum deadline_ticks stop_on_hypercall =
    if length cpus == 0
    then some ([], (cpus, machine))
    else smp_result (rounds n n quantum deadline_ticks stop_on_hypercall (smp_start cpus machine))
