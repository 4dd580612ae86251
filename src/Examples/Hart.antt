-- ===== src/Examples/Hart.antt =====
-- Runs of the hart's models (crates/fs-riscv/src) at concrete inputs.
use fuzzsoft.Base.{
  ℕ, ◌+◌, ◌*◌, ◌^◌, ◌≡◌, refl, Bool, true, false, none, some, [], ◌∷◌, ok, arith, ap, length, slice,
  replicate,
}
use fuzzsoft.Perm.{perm_read}
use fuzzsoft.Fault.{read, u32, check_align, from_le_bytes}
use fuzzsoft.Mmu.Bytes.{read_word, read_bytes}
use fuzzsoft.Mmu.{Mmu}
use fuzzsoft.Mmu.Device.{mmu_bus}
use fuzzsoft.Golden.{from_mmu, access_word}
use fuzzsoft.Golden.Laws.{access_word-read_word}
use fuzzsoft.Riscv.{MulOp, BranchOp, sext, branch}
use fuzzsoft.Riscv.Alu.{muldiv}
use fuzzsoft.Riscv.Alu.Laws.{div_rem}
use fuzzsoft.Riscv.Asm.{b_type}
use fuzzsoft.Riscv.Asm.Roundtrip.{decode-branch}
use fuzzsoft.Riscv.Decode.{decode, branch_op}
use fuzzsoft.Riscv.Csr.{supervisor, machine, default, sstatus_mask, s_int_mask, write_csr}
use fuzzsoft.Riscv.Csr.Laws.{Viewed, write_csr-Viewed}
use fuzzsoft.Riscv.Cpu.{
  Cpu, new_hart, delegated, take_trap, tlb_get, tlb_size, empty_tlb, effective_priv,
}
use fuzzsoft.Riscv.Cpu.{pending_interrupt}
use fuzzsoft.Riscv.Cpu.Interrupts.{take_trap-pending_interrupt}
use fuzzsoft.Riscv.Cpu.Traps.{
  Resumed, mie_of, sie_of, exec_mret, exec_sret, take_trap-exec_mret, take_trap-exec_sret,
}
use fuzzsoft.Riscv.Cpu.Xlate.{
  xlate, fast_pa, xlate_golden_readonly, walk, take_leaf, entry_kind, leaf_perm_priv_ok,
}
use fuzzsoft.Riscv.Cpu.Xlate.Laws.{fast_pa-xlate, xlate-fast_pa, xlate_golden_readonly-xlate}

div_rem_example :
    u32 (
      muldiv MulOp.div 0x8000_0000 0xffff_ffff * 0xffff_ffff
      + muldiv MulOp.rem 0x8000_0000 0xffff_ffff)
    ≡ 0x8000_0000
div_rem_example = div_rem 0x8000_0000 0xffff_ffff (omega arith) (omega arith)

bne_found : branch_op 1 ≡ some BranchOp.ne
unfolding branch_op
bne_found = refl

decode-branch_example :
    decode (b_type 0x63 1 8 9 0xffff_fff0) ≡ branch BranchOp.ne 8 9 (sext 0xffff_fff0 13)
decode-branch_example =
    decode-branch 1 8 9 0xffff_fff0 bne_found (omega arith) (omega arith) (omega arith)
      (omega arith)

write_csr-Viewed_example :
    Viewed 0x100 sstatus_mask (λ k. k.mstatus) default 0x1_8888 supervisor
    × Viewed 0x104 s_int_mask (λ k. k.mie) default 0x1_8888 supervisor
    × Viewed 0x144 s_int_mask (λ k. k.mip) default 0x1_8888 supervisor
write_csr-Viewed_example = write_csr-Viewed default 0x1_8888 supervisor (omega arith)

written_mtvec :
    write_csr default 0x305 0x8000_0003 machine ≡ ok (record default { mtvec = 0x8000_0001 })
unfolding write_csr
written_mtvec = refl

direct_trap : delegated (new_hart 0x8000_0000 0) 11 false ≡ false
unfolding new_hart
direct_trap = refl

take_trap-exec_mret_example :
    Resumed mie_of
      (new_hart 0x8000_0000 0)
      (exec_mret (take_trap (new_hart 0x8000_0000 0) 11 0 false) 0x8000_1000 0x3020_0073)
take_trap-exec_mret_example =
    take_trap-exec_mret (new_hart 0x8000_0000 0) 11 0 false 0x8000_1000 0x3020_0073 direct_trap

abbrev s_hart : Cpu
s_hart = record (new_hart 0x8000_0000 0) {
  privilege = supervisor;
  csr = record default { medeleg = 0xb1ff; satp = 2 ^ 31 + 1; mstatus = 2 };
}

by_supervisor : delegated s_hart 8 false ≡ true
by_supervisor = refl

take_trap-exec_sret_example :
    Resumed sie_of s_hart (exec_sret (take_trap s_hart 8 0 false) 0x8000_1000 0x1020_0073)
take_trap-exec_sret_example =
    take_trap-exec_sret s_hart 8 0 false 0x8000_1000 0x1020_0073 by_supervisor

-- A root table of one entry, a superpage at 0x0080_0000 that supervisor mode may read and write.
abbrev tables : Mmu
tables = record {
  base = 0x1000;
  mem = 0xcf ∷ 0 ∷ 0x20 ∷ 0 ∷ [];
  perms = 1 ∷ 1 ∷ 1 ∷ 1 ∷ [];
  track_dirty = false;
  dirty = record { blocks = []; bitmap = [] };
}

found_superpage : (xlate mmu_bus s_hart tables 0x123 read).0 ≡ ok 0x80_0123
unfolding xlate walk take_leaf entry_kind leaf_perm_priv_ok effective_priv tlb_get new_hart default
    empty_tlb replicate fuzzsoft.Mmu.Device.load read_word read_bytes check_align slice
    from_le_bytes
found_superpage = refl

tlb_full : length s_hart.tlb ≡ tlb_size
unfolding new_hart empty_tlb replicate
tlb_full = refl

xlate-fast_pa_example :
    fast_pa (xlate mmu_bus s_hart tables 0x123 read).1.0 0x123 read ≡ some 0x80_0123
xlate-fast_pa_example =
    xlate-fast_pa mmu_bus s_hart tables 0x123 0x80_0123 read tlb_full found_superpage

abbrev warm_hart : Cpu
warm_hart = (xlate mmu_bus s_hart tables 0x123 read).1.0

xlate-fast_pa_hit : fast_pa warm_hart 0x123 read ≡ some 0x80_0123
xlate-fast_pa_hit =
    xlate-fast_pa mmu_bus s_hart tables 0x123 0x80_0123 read tlb_full found_superpage

fast_pa-xlate_example :
    xlate mmu_bus warm_hart tables 0x123 read ≡ (ok 0x80_0123, (warm_hart, tables))
fast_pa-xlate_example =
    fast_pa-xlate mmu_bus warm_hart tables 0x123 0x80_0123 read xlate-fast_pa_hit

abbrev overlaid_nowhere : ℕ → Bool
overlaid_nowhere addr = false

tables_agree :
    (addr word : ℕ)
    → overlaid_nowhere addr ≡ false
    → access_word perm_read (from_mmu tables) addr 4 ≡ some word
    → mmu_bus.load tables addr 4 ≡ (ok word, tables)
unfolding fuzzsoft.Mmu.Device.load
tables_agree addr word free found =
    ap (λ r. (r, tables)) (access_word-read_word tables addr 4 word found)

missed : tlb_get s_hart.tlb 0 ≡ none
unfolding tlb_get new_hart empty_tlb replicate
missed = refl

found_golden :
    xlate_golden_readonly s_hart (from_mmu tables) 0x123 read overlaid_nowhere ≡ ok 0x80_0123
unfolding xlate_golden_readonly entry_kind leaf_perm_priv_ok effective_priv new_hart default
    from_mmu access_word slice from_le_bytes
found_golden = refl

xlate_golden_readonly-xlate_example :
    ((xlate mmu_bus s_hart tables 0x123 read).0 ≡ ok 0x80_0123)
    × ((xlate mmu_bus s_hart tables 0x123 read).1.1 ≡ tables)
xlate_golden_readonly-xlate_example =
    xlate_golden_readonly-xlate mmu_bus tables (from_mmu tables) overlaid_nowhere tables_agree
      s_hart 0x123 0x80_0123 read missed found_golden

-- A hart in machine mode with a timer interrupt pending and enabled.
abbrev pending_hart : Cpu
pending_hart = record (new_hart 0x8000_0000 0) {
  csr = record default { mie = 0x80; mip = 0x80; mstatus = 8 };
}

direct_pending : delegated pending_hart 11 false ≡ false
unfolding new_hart default
direct_pending = refl

take_trap-pending_interrupt_example : pending_interrupt (take_trap pending_hart 11 0 false) ≡ none
take_trap-pending_interrupt_example =
    take_trap-pending_interrupt pending_hart 11 0 false direct_pending
