-- ===== src/Driver/Campaign.antt =====
-- One program of the fuzzer, from the reset to the end of the case, on the serial machine and on a
-- worker of the parallel path (crates/fs-cli/src/main.rs).
use mathlib.Core.List.{append-nil}
use mathlib.Core.Path.{subst}
use fuzzsoft.Base.{
  ℕ, ◌+◌, ◌^◌, ◌≤◌, ◌≡◌, refl, ap, none, some, List, [], ◌∷◌, ◌++◌, length, arith, min,
}
use fuzzsoft.Fault.{Outcome, u32}
use fuzzsoft.Golden.{from_mmu}
use fuzzsoft.Mmu.{Mmu, enable_dirty_tracking}
use fuzzsoft.Cow
use fuzzsoft.Cow.{CowRam}
use fuzzsoft.Cow.Session.{Alike, Alike-reset, Alike-start}
use fuzzsoft.Riscv.Cpu.{Cpu}
use fuzzsoft.Riscv.Cpu.Agree.{Untracked, Concord, concord}
use fuzzsoft.Platform.Clint.{Clint, default_clint}
use fuzzsoft.Platform.Machine.{Machine}
use fuzzsoft.Platform.CowMachine.{CowMachine, from_golden, from_machine}
use fuzzsoft.Platform.Run.{Stop}
use fuzzsoft.Platform.Snapshot.{Snapshot, capture, reset, truncate}
use fuzzsoft.Platform.Twins.{Twins, twins, stores-Twins}
use fuzzsoft.Coverage.{CovBitmap}
use fuzzsoft.Driver.{
  machine_guest, cow_guest, Case, Ended, drop, case_console, case_ended, reset_cow, write_words,
  write_scratch_from, inject_and_run,
}
use fuzzsoft.Driver.Laws.{SameCase, ended, running, run_case_bus-SameCase}

pub truncate-append : (xs ys : List ℕ) → truncate (xs ++ ys) (length xs) ≡ xs
unfolding truncate
truncate-append [] [] = refl
truncate-append [] (y ∷ ys) = refl
truncate-append (x ∷ xs) ys = ap (λ r. x ∷ r) (truncate-append xs ys)

drop-append : (xs ys : List ℕ) → drop (xs ++ ys) (length xs) ≡ ys
unfolding drop
drop-append [] [] = refl
drop-append [] (y ∷ ys) = refl
drop-append (x ∷ xs) ys = drop-append xs ys

length-prefix : (xs ys : List ℕ) → length xs ≤ length (xs ++ ys)
length-prefix [] ys = omega arith
length-prefix (x ∷ xs) ys = omega (arith, length-prefix xs ys)

-- Behind the boot console the crash oracle reads exactly what the case sent.
console-appended : (boot sent : List ℕ) → case_console (length boot) (boot ++ sent) ≡ sent
unfolding case_console
console-appended boot sent =
    let same : min (length boot) (length (boot ++ sent)) ≡ length boot =
      omega (arith, length-prefix boot sent) in
    rw same (drop-append boot sent)

-- One program on the two machines: the same stop, instructions, hart and coverage, and the consoles
-- that the crash oracle reads behind a boot console of the length of `boot`, where the worker's console
-- began with `y` and both consoles end with what was sent; or both cases are not over.
pub data SameRun (gold : Mmu) (boot y : List ℕ)
    : Ended machine_guest → Ended cow_guest → Type 0 where
  same_run :
      (stop : Stop) (used : ℕ) (cpu : Cpu) (m : Machine) (c : CowMachine) (cov : CovBitmap)
      (sent : List ℕ)
      → Untracked cpu
      → Twins gold boot y m c
      → m.uart.out ≡ boot ++ sent
      → c.uart.out ≡ y ++ sent
      → SameRun gold boot y
          (some ((stop, (used, sent)), (cpu, (m, cov))))
          (some ((stop, (used, case_console (length boot) (y ++ sent))), (cpu, (c, cov))))
  both_running : SameRun gold boot y none none

module _ (gold : Mmu) (planes : length gold.perms ≡ length gold.mem)
    (fits : gold.base + length gold.mem ≤ 2 ^ 32) (x y : List ℕ) where
  stored-Twins :
      {o : Outcome Machine (Unit {0})} {p : Outcome CowMachine (Unit {0})}
      → Concord (Twins gold x y) o p
      → Twins gold x y o.1 p.1
  stored-Twins (concord r m c h) = h

  write_words-Twins :
      (pas words : List ℕ) (m : Machine) (c : CowMachine)
      → Twins gold x y m c
      → Twins gold x y (write_words machine_guest pas words m) (write_words cow_guest pas words c)
  unfolding write_words machine_guest cow_guest
  write_words-Twins [] words m c h = h
  write_words-Twins (pa ∷ pas) [] m c h = h
  write_words-Twins (pa ∷ pas) (w ∷ words) m c h =
      write_words-Twins pas words _ _
        (stored-Twins (stores-Twins gold planes fits x y m c h pa 4 w))

  write_scratch-Twins :
      (i : ℕ) (pas bytes : List ℕ) (m : Machine) (c : CowMachine)
      → Twins gold x y m c
      → Twins gold x y
          (write_scratch_from machine_guest i pas bytes m)
          (write_scratch_from cow_guest i pas bytes c)
  unfolding write_scratch_from machine_guest cow_guest
  write_scratch-Twins i [] bytes m c h = h
  write_scratch-Twins i (pa ∷ pas) bytes m c h =
      write_scratch-Twins (i + 1) pas bytes _ _
        (stored-Twins (stores-Twins gold planes fits x y m c h pa 4 _))

  ended-SameRun :
      (start : ℕ) (o : Case machine_guest) (p : Case cow_guest)
      → SameCase gold x y o p
      → SameRun gold x y
          (case_ended machine_guest start (length x) o)
          (case_ended cow_guest start (length x) p)
  unfolding machine_guest cow_guest
  ended-SameRun start _ _ (ended stop cpu _ _ cov u (twins m c b e k sent a)) =
      rw (console-appended x sent)
        (same_run stop _ cpu _ _ cov sent u (twins m c b e k sent a) refl refl)
  ended-SameRun start _ _ running = both_running

-- Twins that have sent nothing yet.
fresh-Twins :
    (gold : Mmu) (x y : List ℕ) (m : Mmu) (c : CowRam) (b e : ℕ) (k : Clint)
    → Alike gold c m
    → Twins gold x y
        (record { ram = m; ram_base = b; ram_end = e; clint = k; uart = record { out = x } })
        (record { ram = c; ram_base = b; ram_end = e; clint = k; uart = record { out = y } })
fresh-Twins gold x y m c b e k a =
    subst
      (λ (p : List ℕ × List ℕ).
        Twins gold x y
          (record { ram = m; ram_base = b; ram_end = e; clint = k; uart = record { out = p.0 } })
          (record { ram = c; ram_base = b; ram_end = e; clint = k; uart = record { out = p.1 } }))
      (λ i. (append-nil x i, append-nil y i)) (twins m c b e k [] a)

-- A machine and a worker that a reset makes twins: the RAMs are alike, and the machine still has its
-- boot console.
pub data Reusable (gold : Mmu) (boot : List ℕ) : Machine → CowMachine → Type 0 where
  reusable :
      (flat : Mmu) (cow : CowRam) (ram_base ram_end : ℕ) (clint other : Clint) (sent old : List ℕ)
      → Alike gold cow flat
      → Reusable gold boot
          (record {
            ram = flat;
            ram_base = ram_base;
            ram_end = ram_end;
            clint = clint;
            uart = record { out = boot ++ sent };
          })
          (record {
            ram = cow;
            ram_base = ram_base;
            ram_end = ram_end;
            clint = other;
            uart = record { out = old };
          })

-- After a case the two may be reset again.
pub Twins-Reusable :
    (gold : Mmu) (boot y : List ℕ) (m : Machine) (c : CowMachine)
    → Twins gold boot y m c
    → Reusable gold boot m c
Twins-Reusable gold boot y _ _ (twins m c b e k sent a) = reusable m c b e k k sent (y ++ sent) a

module _ (golden : Machine) (golden_cpu : Cpu)
    (planes : length golden.ram.perms ≡ length golden.ram.mem)
    (fits : golden.ram.base + length golden.ram.mem ≤ 2 ^ 32) where
  abbrev boot : List ℕ
  boot = golden.uart.out

  abbrev snap : Snapshot
  snap = (capture golden_cpu golden).0

  -- The machine that was captured and a fresh worker.
  pub capture-Reusable :
      golden.ram_end ≡ u32 (golden.ram_base + u32 (length golden.ram.mem))
      → Reusable golden.ram boot (capture golden_cpu golden).1 (from_machine golden)
  unfolding capture from_machine from_golden from_mmu
  capture-Reusable ends =
      subst
        (λ (p : List ℕ × ℕ).
          Reusable golden.ram boot
            (record (capture golden_cpu golden).1 { uart = record { out = p.0 } })
            (record (from_machine golden) { ram_end = p.1 }))
        (λ i. (append-nil boot i, ends i))
        (reusable (enable_dirty_tracking golden.ram) (Cow.new (from_mmu golden.ram)) golden.ram_base
          golden.ram_end golden.clint default_clint [] [] (Alike-start golden.ram planes fits))

  reset-Twins :
      (cpu : Cpu) (m : Machine) (c : CowMachine)
      → Reusable golden.ram boot m c
      → Twins golden.ram boot
          (truncate c.uart.out (length boot))
          (reset snap cpu m).1
          (reset_cow golden_cpu golden.clint (length boot) cpu c).1
  unfolding reset reset_cow capture
  reset-Twins cpu _ _ (reusable m c b e k j sent old a) =
      let rest = truncate old (length boot) in
      rw (truncate-append boot sent) (
        fresh-Twins golden.ram boot rest _ _ b e golden.clint
          (Alike-reset golden.ram planes fits c m a))

  -- One program gives the same stop, the same count of instructions, the same hart and the same
  -- coverage on the serial machine as on a worker over the shared snapshot, or neither case is
  -- over: for a golden machine whose two planes have one length and whose window ends by 2 ^ 32, a
  -- golden hart that tracks no taint, and a machine and a worker whose RAMs are alike, with any
  -- CLINT, any earlier case and any worker console. Both send the same bytes, the serial crash
  -- oracle reads exactly those, and the worker's reads its own console past the length of the boot
  -- console.
  pub inject_and_run-SameRun :
      (n : ℕ) (cpu other : Cpu) (m : Machine) (c : CowMachine)
      (words scratch prog_pas scratch_pas : List ℕ) (case_insns : ℕ) (run_map : CovBitmap)
      → Untracked golden_cpu
      → Reusable golden.ram boot m c
      → SameRun golden.ram boot
          (truncate c.uart.out (length boot))
          (inject_and_run machine_guest n
            (reset snap)
            cpu
            m
            words
            scratch
            prog_pas
            scratch_pas
            case_insns
            (length boot)
            run_map)
          (inject_and_run cow_guest n
            (reset_cow golden_cpu golden.clint (length boot))
            other
            c
            words
            scratch
            prog_pas
            scratch_pas
            case_insns
            (length boot)
            run_map)
  unfolding inject_and_run reset reset_cow capture
  inject_and_run-SameRun n cpu other m c words scratch prog_pas scratch_pas case_insns run_map u h =
      let y1 = truncate c.uart.out (length boot) in
      let clean = reset-Twins cpu m c h in
      let loaded =
        write_scratch-Twins golden.ram planes fits boot y1 0 scratch_pas scratch _ _
          (write_words-Twins golden.ram planes fits boot y1 prog_pas words _ _ clean) in
      ended-SameRun golden.ram planes fits boot y1 _ _ _
        (run_case_bus-SameCase golden.ram planes fits boot y1 n golden_cpu _ _ _ _ u loaded)
