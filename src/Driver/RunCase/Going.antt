-- ===== src/Driver/RunCase/Going.antt =====
-- The invariant of a case through its hooks (crates/fs-cli/src/main.rs).
use fuzzsoft.Base.{ℕ, ◌+◌, ◌^◌, ◌≤◌, ◌≡◌, Bool, false, ◌||◌, Option, none, some, length, get_or}
use fuzzsoft.Mmu.{Mmu}
use fuzzsoft.Riscv.Cpu.{Cpu}
use fuzzsoft.Platform.Machine.{Machine}
use fuzzsoft.San.Alloc.Laws.{Tracked}
use fuzzsoft.Driver.Sanitize.{SanCtx}
use fuzzsoft.Driver.Sanitize.Ranges.{in_ranges}
use fuzzsoft.Driver.Sanitize.Passes.Events.{san_hooks-Keeps}
use fuzzsoft.Driver.Kmsan.{KmsanCtx}
use fuzzsoft.Driver.Kmsan.Passes.{kmsan_hooks-Keeps}
use fuzzsoft.Driver.RunCase.{Contexts, san_pass, kmsan_pass, hooks_pass}
use fuzzsoft.Driver.RunCase.Steps.{Owes}

-- A context that restores from the golden permissions, and whose bookkeeping is in order.
abbrev pub SanFits : Mmu → Option SanCtx → Type 0
SanFits gold none = Unit {0}
SanFits gold (some ctx) =
    (ctx.golden_perms ≡ gold.perms) × (ctx.ram_base ≡ gold.base) × Tracked ctx.san

abbrev pub KmsanFits : Mmu → Option KmsanCtx → Type 0
KmsanFits gold none = Unit {0}
KmsanFits gold (some ctx) = (ctx.golden_perms ≡ gold.perms) × (ctx.ram_base ≡ gold.base)

-- The byte counter of a context.
abbrev pub bytes_of : Option SanCtx → ℕ
bytes_of none = 0
bytes_of (some ctx) = ctx.bytes

abbrev pub san_ranges : Mmu → Option SanCtx → ℕ → Bool
san_ranges gold none j = false
san_ranges gold (some ctx) j = in_ranges gold ctx.dirtied j

abbrev pub kmsan_ranges : Mmu → Option KmsanCtx → ℕ → Bool
kmsan_ranges gold none j = false
kmsan_ranges gold (some ctx) j = in_ranges gold ctx.dirtied j

-- While the case has allocated at most 2 ^ 31 bytes.
abbrev pub Small : ℕ → Contexts → Type 0
Small start ctxs = bytes_of ctxs.san ≤ start + 2 ^ 31

abbrev pub excused_by : Mmu → Contexts → ℕ → Bool
excused_by gold ctxs j = san_ranges gold ctxs.san j || kmsan_ranges gold ctxs.kmsan j

module _ (golden : Machine) (fits : golden.ram.base + length golden.ram.mem ≤ 2 ^ 32) where
  -- The invariant of a case.
  pub record Going (start : ℕ) (ctxs : Contexts) (m : Machine) : Type 0 where
    pub san : SanFits golden.ram ctxs.san
    pub kmsan : KmsanFits golden.ram ctxs.kmsan
    pub grows : start ≤ bytes_of ctxs.san
    pub owes : Owes golden (Small start ctxs) (excused_by golden.ram ctxs) m

  san_pass-Going :
      (start : ℕ) (san : Option SanCtx) (kmsan : Option KmsanCtx) (pc : ℕ) (regs : ℕ → ℕ)
      (m : Machine)
      → Going start (record { san = san; kmsan = kmsan }) m
      → let s = san_pass san pc regs m.ram in
        Going start (record { san = s.0; kmsan = kmsan }) (record m { ram = s.1 })
  unfolding san_pass
  san_pass-Going start none kmsan pc regs m g = record {
    san = g.san;
    kmsan = g.kmsan;
    grows = g.grows;
    owes = record { sent = g.owes.sent; uart = g.owes.uart; dirtied = g.owes.dirtied };
  }
  san_pass-Going start (some ctx) kmsan pc regs m g =
      let k =
        san_hooks-Keeps golden.ram fits start (kmsan_ranges golden.ram kmsan) pc regs ctx m.ram
          (record {
            golden = g.san.0;
            base = g.san.1;
            tracked = g.san.2;
            grows = g.grows;
            dirtied = g.owes.dirtied;
          }) in
      record {
        san = (k.golden, k.base, k.tracked);
        kmsan = g.kmsan;
        grows = k.grows;
        owes = record { sent = g.owes.sent; uart = g.owes.uart; dirtied = k.dirtied };
      }

  kmsan_pass-Going :
      (start : ℕ) (san : Option SanCtx) (kmsan : Option KmsanCtx) (pc : ℕ) (regs : ℕ → ℕ)
      (m : Machine)
      → Going start (record { san = san; kmsan = kmsan }) m
      → let s = kmsan_pass kmsan pc regs m.ram in
        Going start (record { san = san; kmsan = s.0 }) (record m { ram = s.1 })
  unfolding kmsan_pass
  kmsan_pass-Going start san none pc regs m g = record {
    san = g.san;
    kmsan = g.kmsan;
    grows = g.grows;
    owes = record { sent = g.owes.sent; uart = g.owes.uart; dirtied = g.owes.dirtied };
  }
  kmsan_pass-Going start san (some ctx) pc regs m g =
      let k =
        kmsan_hooks-Keeps golden.ram fits (bytes_of san ≤ start + 2 ^ 31)
          (san_ranges golden.ram san) pc regs ctx m.ram
          (record { golden = g.kmsan.0; base = g.kmsan.1; dirtied = g.owes.dirtied }) in
      record {
        san = g.san;
        kmsan = (k.golden, k.base);
        grows = g.grows;
        owes = record { sent = g.owes.sent; uart = g.owes.uart; dirtied = k.dirtied };
      }

  pub hooks_pass-Going :
      (start : ℕ) (cpu : Cpu) (ctxs : Contexts) (m : Machine)
      → Going start ctxs m
      → let s = hooks_pass cpu ctxs m in Going start s.0 s.1
  unfolding hooks_pass
  hooks_pass-Going start cpu ctxs m g =
      let regs = λ (r : ℕ). get_or cpu.regs r 0 in
      let s = san_pass ctxs.san cpu.pc regs m.ram in
      kmsan_pass-Going start s.0 ctxs.kmsan cpu.pc regs (record m { ram = s.1 })
        (san_pass-Going start ctxs.san ctxs.kmsan cpu.pc regs m g)
