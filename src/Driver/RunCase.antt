-- ===== src/Driver/RunCase.antt =====
-- `run_case`, and the reset before each case (crates/fs-cli/src/main.rs).
pub mod Going
pub mod Restores
pub mod Steps
use fuzzsoft.Base.{ℕ, zero, suc, Option, none, some, ltb, get_or, if◌then◌else◌}
use fuzzsoft.Mmu.{Mmu}
use fuzzsoft.Riscv.Cpu.{Cpu}
use fuzzsoft.Riscv.Cpu.System.{SysExit, carry_on, halted, hypercall}
use fuzzsoft.Platform.Machine.{Machine}
use fuzzsoft.Platform.Run.{Stop, halt_stop, hypercall_stop, budget}
use fuzzsoft.Platform.Snapshot
use fuzzsoft.Platform.Snapshot.{Snapshot}
use fuzzsoft.Coverage.{CovBitmap}
use fuzzsoft.San.Alloc
use fuzzsoft.San.Pages
use fuzzsoft.San.Hooks.{clear_pending}
use fuzzsoft.Driver.{machine_guest, case_step, with_edge}
use fuzzsoft.Driver.Sanitize.{SanCtx, san_hooks, restore_dirtied_perms}
use fuzzsoft.Driver.Kmsan.{KmsanCtx, kmsan_hooks, restore_tainted_perms}

-- `san` and `kmsan`, each where its switch is on.
pub record Contexts : Type 0 where
  pub san : Option SanCtx
  pub kmsan : Option KmsanCtx

unfoldable pub san_pass : Option SanCtx → ℕ → (ℕ → ℕ) → Mmu → Option SanCtx × Mmu
san_pass none pc regs m = (none, m)
san_pass (some ctx) pc regs m = let (ctx', m') = san_hooks pc regs ctx m in (some ctx', m')

unfoldable pub kmsan_pass : Option KmsanCtx → ℕ → (ℕ → ℕ) → Mmu → Option KmsanCtx × Mmu
kmsan_pass none pc regs m = (none, m)
kmsan_pass (some ctx) pc regs m = let (ctx', m') = kmsan_hooks pc regs ctx m in (some ctx', m')

-- What the hooks do before a step.
unfoldable pub hooks_pass : Cpu → Contexts → Machine → Contexts × Machine
unfolding san_pass kmsan_pass
hooks_pass cpu ctxs m =
    let regs = λ (r : ℕ). get_or cpu.regs r 0 in
    let (san, ram1) = san_pass ctxs.san cpu.pc regs m.ram in
    let (kmsan, ram2) = kmsan_pass ctxs.kmsan cpu.pc regs ram1 in
    (record { san = san; kmsan = kmsan }, record m { ram = ram2 })

-- A case that is over: its stop, its hart, its machine, its coverage and the two contexts.
abbrev pub HookedCase : Type 0
HookedCase = Option (Stop × (Cpu × (Machine × (CovBitmap × Contexts))))

abbrev pub hooked_exit :
    ℕ
    → CovBitmap
    → Contexts
    → SysExit × (Cpu × Machine)
    → (Cpu → Machine → CovBitmap → HookedCase)
    → HookedCase
hooked_exit prev cov ctxs (carry_on, (cpu, m)) again = again cpu m (with_edge prev cpu.pc cov)
hooked_exit prev cov ctxs (halted code, (cpu, m)) again =
    some (halt_stop code, (cpu, (m, (cov, ctxs))))
hooked_exit prev cov ctxs (hypercall code, (cpu, m)) again =
    some (hypercall_stop code, (cpu, (m, (cov, ctxs))))

-- `none` is a case that is not over after that many steps.
unfoldable pub run_case : ℕ → Cpu → Machine → CovBitmap → ℕ → Contexts → HookedCase
unfolding hooks_pass
run_case zero cpu m cov deadline ctxs = none
run_case (suc n) cpu m cov deadline ctxs =
    if ltb cpu.insns_retired deadline
    then (let (ctxs', hooked) = hooks_pass cpu ctxs m in
        hooked_exit cpu.pc cov ctxs' (case_step machine_guest cpu hooked)
          (λ d k cov'. run_case n d k cov' deadline ctxs'))
    else some (budget, (cpu, (m, (cov, ctxs))))

unfoldable pub renew_san : Option SanCtx → Mmu → Option SanCtx × Mmu
renew_san none m = (none, m)
renew_san (some ctx) m =
    let (restored, m') = restore_dirtied_perms ctx m in
    (
      some (record restored {
        san = Alloc.new Alloc.default_redzone;
        page_san = Pages.new;
        hooks = clear_pending restored.hooks;
      }),
      m',
    )

unfoldable pub renew_kmsan : Option KmsanCtx → Mmu → Option KmsanCtx × Mmu
renew_kmsan none m = (none, m)
renew_kmsan (some ctx) m =
    let (restored, m') = restore_tainted_perms ctx m in
    (some (record restored { hooks = clear_pending restored.hooks }), m')

-- The reset before a case, on the serial path.
unfoldable pub reset_case : Snapshot → Cpu → Machine → Contexts → Cpu × (Machine × Contexts)
unfolding renew_san renew_kmsan
reset_case snap cpu m ctxs =
    let (cpu', clean) = Snapshot.reset snap cpu m in
    let (san, ram1) = renew_san ctxs.san clean.ram in
    let (kmsan, ram2) = renew_kmsan ctxs.kmsan ram1 in
    (cpu', (record clean { ram = ram2 }, record { san = san; kmsan = kmsan }))
