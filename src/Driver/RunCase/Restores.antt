-- ===== src/Driver/RunCase/Restores.antt =====
-- A case with the sanitizers on, and the reset after it (crates/fs-cli/src/main.rs).
use mathlib.Core.List.{append-nil}
use fuzzsoft.Base.{
  ℕ, zero, suc, ◌+◌, ◌^◌, ◌≤◌, ◌≡◌, refl, sym, ap, ◌∙◌, Bool, inl, inr, Option, none, some, List,
  [], length, ltb, leb, leb→le, Bool-cases, ◌<◌, arith, not, ◌&&◌,
}
use fuzzsoft.Mmu.{Mmu, reset_dirty}
use fuzzsoft.Riscv.Cpu.{Cpu}
use fuzzsoft.Riscv.Cpu.System.{SysExit, carry_on, halted, hypercall}
use fuzzsoft.Riscv.Cpu.Agree.{Untracked}
use fuzzsoft.Platform.Machine.{Machine}
use fuzzsoft.Platform.Run.{Stop, halt_stop, hypercall_stop, budget}
use fuzzsoft.Platform.Snapshot
use fuzzsoft.Platform.Uart.{Uart}
use fuzzsoft.Platform.Snapshot.{capture, truncate}
use fuzzsoft.Coverage.{CovBitmap}
use fuzzsoft.San.Alloc
use fuzzsoft.San.Alloc.Laws.{with_quarantine_cap-Tracked}
use fuzzsoft.Driver.{machine_guest, case_step, write_words, write_scratch_bytes}
use fuzzsoft.Driver.Campaign.{truncate-append}
use fuzzsoft.Driver.Restores.{Restored}
use fuzzsoft.Driver.Sanitize.{SanCtx, restore_dirtied_perms}
use fuzzsoft.Driver.Sanitize.Ranges.{Dirtied-start}
use fuzzsoft.Driver.Sanitize.Ranges.Restored.{
  Mostly, Mostly-mono, restore_ranges-Mostly, reset_dirty-Mostly, Mostly-none,
}
use fuzzsoft.Driver.Sanitize.Calls.{if-keeps}
use fuzzsoft.Driver.Kmsan.{KmsanCtx, restore_tainted_perms}
use fuzzsoft.Driver.RunCase.{
  Contexts, hooks_pass, HookedCase, hooked_exit, run_case, renew_san, renew_kmsan, reset_case,
}
use fuzzsoft.Driver.RunCase.Steps.{
  Owes, case_step-Held, write_words-Keeps, write_scratch_bytes-Keeps,
}
use fuzzsoft.Driver.RunCase.Going.{
  SanFits, KmsanFits, bytes_of, san_ranges, kmsan_ranges, Small, excused_by, Going,
  hooks_pass-Going,
}

module _ (golden : Machine) (golden_cpu : Cpu)
    (planes : length golden.ram.perms ≡ length golden.ram.mem)
    (fits : golden.ram.base + length golden.ram.mem ≤ 2 ^ 32) where
  abbrev InCase : ℕ → Contexts → Machine → Type 0
  InCase start ctxs m = Going golden fits start ctxs m

  abbrev after_reset : Cpu → Machine → Contexts → Cpu × (Machine × Contexts)
  after_reset cpu m ctxs = reset_case (capture golden_cpu golden).0 cpu m ctxs

  -- Contexts that are fit for the next case.
  pub record Fit (ctxs : Contexts) : Type 0 where
    pub san : SanFits golden.ram ctxs.san
    pub kmsan : KmsanFits golden.ram ctxs.kmsan

  -- The captured state, and contexts that are fit for the next case.
  pub record Renewed (after : Cpu × (Machine × Contexts)) : Type 0 where
    pub state : Restored golden golden_cpu (after.0, after.1.0)
    pub fit : Fit after.1.1

  -- What a reset makes of the state that a case left, where the case is over; the case may have
  -- allocated more than 2 ^ 31 bytes by its counter.
  pub data CaseRenewed (start : ℕ) : HookedCase → Type 0 where
    renewed :
        (stop : Stop) (cpu : Cpu) (m : Machine) (cov : CovBitmap) (ctxs : Contexts)
        → Renewed (reset_case (capture golden_cpu golden).0 cpu m ctxs)
        → CaseRenewed start (some (stop, (cpu, (m, (cov, ctxs)))))
    too_large :
        (stop : Stop) (cpu : Cpu) (m : Machine) (cov : CovBitmap) (ctxs : Contexts)
        → start + 2 ^ 31 < bytes_of ctxs.san
        → CaseRenewed start (some (stop, (cpu, (m, (cov, ctxs)))))
    unfinished : CaseRenewed start none

  -- What is left to put back after each context.
  abbrev but : (ℕ → Bool) → (ℕ → Bool) → ℕ → Bool
  but r e j = e j && not (r j)

  renew_san-Mostly :
      (san : Option SanCtx) (e : ℕ → Bool) (m : Mmu)
      → SanFits golden.ram san
      → Mostly golden.ram e m
      → Mostly golden.ram (but (san_ranges golden.ram san) e) (renew_san san m).1
  unfolding renew_san restore_dirtied_perms
  renew_san-Mostly none e m f k =
      Mostly-mono golden.ram planes fits e _ m (λ j inside h. ground arith) k
  renew_san-Mostly (some ctx) e m f k =
      rw (f.0, f.1) (restore_ranges-Mostly golden.ram planes fits ctx.dirtied e m k)

  renew_kmsan-Mostly :
      (kmsan : Option KmsanCtx) (e : ℕ → Bool) (m : Mmu)
      → KmsanFits golden.ram kmsan
      → Mostly golden.ram e m
      → Mostly golden.ram (but (kmsan_ranges golden.ram kmsan) e) (renew_kmsan kmsan m).1
  unfolding renew_kmsan restore_tainted_perms
  renew_kmsan-Mostly none e m f k =
      Mostly-mono golden.ram planes fits e _ m (λ j inside h. ground arith) k
  renew_kmsan-Mostly (some ctx) e m f k =
      rw (f.0, f.1) (restore_ranges-Mostly golden.ram planes fits ctx.dirtied e m k)

  renew_san-SanFits :
      (san : Option SanCtx) (m : Mmu)
      → SanFits golden.ram san
      → SanFits golden.ram (renew_san san m).0
  unfolding renew_san restore_dirtied_perms Alloc.new
  renew_san-SanFits none m f = tt
  renew_san-SanFits (some ctx) m f = (f.0, f.1, with_quarantine_cap-Tracked 16 4096)

  renew_kmsan-KmsanFits :
      (kmsan : Option KmsanCtx) (m : Mmu)
      → KmsanFits golden.ram kmsan
      → KmsanFits golden.ram (renew_kmsan kmsan m).0
  unfolding renew_kmsan restore_tainted_perms
  renew_kmsan-KmsanFits none m f = tt
  renew_kmsan-KmsanFits (some ctx) m f = f

  Going-Renewed :
      (start : ℕ) (cpu : Cpu) (m : Machine) (ctxs : Contexts)
      → InCase start ctxs m
      → Small start ctxs
      → Renewed (after_reset cpu m ctxs)
  unfolding reset_case capture Snapshot.reset
  Going-Renewed start cpu m ctxs g small =
      let e = excused_by golden.ram ctxs in
      let clean = reset_dirty golden.ram.mem golden.ram.perms m.ram in
      let after_san = (renew_san ctxs.san clean).1 in
      let k1 =
        renew_san-Mostly ctxs.san e clean g.san
          (reset_dirty-Mostly golden.ram planes fits e m.ram (g.owes.dirtied small)) in
      let k2 = renew_kmsan-Mostly ctxs.kmsan _ after_san g.kmsan k1 in
      record {
        state = record {
          cpu = refl;
          ram = Mostly-none golden.ram planes fits _ _ (λ j. ground arith) k2;
          clint = refl;
          uart =
              ap (λ (u : Uart). record { out = truncate u.out (length golden.uart.out) })
                g.owes.uart
              ∙ (λ i. record { out = truncate-append golden.uart.out g.owes.sent i });
        };
        fit = record {
          san = renew_san-SanFits ctxs.san clean g.san;
          kmsan = renew_kmsan-KmsanFits ctxs.kmsan after_san g.kmsan;
        };
      }

  ended-CaseRenewed :
      (start : ℕ) (stop : Stop) (cpu : Cpu) (m : Machine) (cov : CovBitmap) (ctxs : Contexts)
      → InCase start ctxs m
      → CaseRenewed start (some (stop, (cpu, (m, (cov, ctxs)))))
  ended-CaseRenewed start stop cpu m cov ctxs g =
      elim (Bool-cases (leb (bytes_of ctxs.san) (start + 2 ^ 31))) [
        | inl small ↦
            renewed stop cpu m cov ctxs (Going-Renewed start cpu m ctxs g (leb→le _ _ small))
        | inr large ↦ too_large stop cpu m cov ctxs (ground arith)
      ]

  hooked_exit-CaseRenewed :
      (start prev : ℕ) (cov : CovBitmap) (ctxs : Contexts) (o : SysExit × (Cpu × Machine))
      (again : Cpu → Machine → CovBitmap → HookedCase)
      → Untracked o.1.0
      → InCase start ctxs o.1.1
      → ((cov' : CovBitmap) → CaseRenewed start (again o.1.0 o.1.1 cov'))
      → CaseRenewed start (hooked_exit prev cov ctxs o again)
  hooked_exit-CaseRenewed start prev cov ctxs (carry_on, (cpu, m)) again u g h = h _
  hooked_exit-CaseRenewed start prev cov ctxs (halted code, (cpu, m)) again u g h =
      ended-CaseRenewed start (halt_stop code) cpu m cov ctxs g
  hooked_exit-CaseRenewed start prev cov ctxs (hypercall code, (cpu, m)) again u g h =
      ended-CaseRenewed start (hypercall_stop code) cpu m cov ctxs g

  step-Going :
      (start : ℕ) (cpu : Cpu) (m : Machine) (ctxs : Contexts)
      → Untracked cpu
      → InCase start ctxs m
      → let o = case_step machine_guest cpu m in Untracked o.1.0 × InCase start ctxs o.1.1
  step-Going start cpu m ctxs u g =
      let held =
        case_step-Held golden fits (Small start ctxs) (excused_by golden.ram ctxs) cpu m u g.owes in
      (held.0, record { san = g.san; kmsan = g.kmsan; grows = g.grows; owes = held.1 })

  run_case-Going :
      (n : ℕ) (start : ℕ) (cpu : Cpu) (m : Machine) (cov : CovBitmap) (deadline : ℕ)
      (ctxs : Contexts)
      → Untracked cpu
      → InCase start ctxs m
      → CaseRenewed start (run_case n cpu m cov deadline ctxs)
  unfolding run_case
  run_case-Going zero start cpu m cov deadline ctxs u g = unfinished
  run_case-Going (suc n) start cpu m cov deadline ctxs u g =
      let s = hooks_pass cpu ctxs m in
      let (still, going) =
        step-Going start cpu s.1 s.0 u (hooks_pass-Going golden fits start cpu ctxs m g) in
      if-keeps (CaseRenewed start) (ltb cpu.insns_retired deadline) _ _
        (hooked_exit-CaseRenewed start cpu.pc cov s.0 (case_step machine_guest cpu s.1) _ still
          going λ cov'. run_case-Going n start _ _ cov' deadline s.0 still going)
        (ended-CaseRenewed start budget cpu m cov ctxs g)

  -- The captured state, with any contexts that fit.
  Restored-Owes :
      (cpu : Cpu) (m : Machine) (P : Type 0) (e : ℕ → Bool)
      → Restored golden golden_cpu (cpu, m)
      → Owes golden P e m
  Restored-Owes cpu m P e r = record {
    sent = [];
    uart = r.uart ∙ (λ i. record { out = sym (append-nil golden.uart.out) i });
    dirtied = λ _. rw (r.ram) (Dirtied-start golden.ram e planes);
  }

  -- From the state that a snapshot captured, on a hart with taint tracking off, with contexts of
  -- the sanitizers and of KMSAN that hold the golden permissions and a bookkeeping in order, each
  -- of them on or off: after a program is injected and `run_case` has run it with the hooks before
  -- every step, the reset before the next case gives back the captured hart, RAM with all its
  -- permissions, CLINT and console, and contexts fit for the next case. The two other outcomes are
  -- a case whose byte counter has grown by more than 2 ^ 31, and a case that is not over.
  pub run_case-CaseRenewed :
      (n : ℕ) (cpu : Cpu) (m : Machine) (ctxs : Contexts)
      (words scratch prog_pas scratch_pas : List ℕ) (cov : CovBitmap) (deadline : ℕ)
      → Untracked golden_cpu
      → Restored golden golden_cpu (cpu, m)
      → Fit ctxs
      → CaseRenewed (bytes_of ctxs.san) (
          run_case n cpu
            (write_scratch_bytes machine_guest scratch_pas scratch
              (write_words machine_guest prog_pas words m))
            cov
            deadline
            ctxs)
  run_case-CaseRenewed n cpu m ctxs words scratch prog_pas scratch_pas cov deadline u r fit =
      let start = bytes_of ctxs.san in
      let e = excused_by golden.ram ctxs in
      let owes = Restored-Owes cpu m (Small start ctxs) e r in
      let loaded =
        write_scratch_bytes-Keeps golden fits (Small start ctxs) e scratch_pas scratch _
          (write_words-Keeps golden fits (Small start ctxs) e prog_pas words m owes) in
      run_case-Going n start cpu _ cov deadline ctxs (rw (r.cpu) u)
        (record { san = fit.san; kmsan = fit.kmsan; grows = omega arith; owes = loaded })
