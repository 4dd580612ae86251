-- ===== src/Platform/Twins.antt =====
-- The machine over a flat RAM beside the machine over a copy-on-write view
-- (crates/fs-platform/src/lib.rs).
use mathlib.Core.List.{append_assoc}
use fuzzsoft.Base.{
  ℕ, zero, suc, ◌+◌, ◌-◌, ◌*◌, ◌^◌, ◌≤◌, ◌≡◌, List, [], ◌∷◌, ◌++◌, refl, sym, ap, ◌∙◌, min, Bool,
  true, false, inl, inr, none, some, ok, err, length, bit_or, ◌==◌, if◌then◌else◌, Bool-cases,
}
use fuzzsoft.Perm.{permits}
use fuzzsoft.Fault.{window_offset, Outcome, check_align, to_le_bytes, write, exec, u8, u16, u32}
use fuzzsoft.Ram.{Ram}
use fuzzsoft.Mmu
use fuzzsoft.Mmu.{Mmu}
use fuzzsoft.Cow
use fuzzsoft.Cow.{CowRam}
use fuzzsoft.Cow.Session.{Alike, flat_valid, Alike-write}
use fuzzsoft.Cow.Device.Laws.{load-Mmu, ifetch16-Mmu}
use fuzzsoft.Riscv.Cpu.Agree.{Concord, concord, Related, Concord-equal}
use fuzzsoft.Platform.{in_ram, in_clint, in_uart, mmio_fault, uart_base}
use fuzzsoft.Platform.Clint.{Clint}
use fuzzsoft.Platform.Uart
use fuzzsoft.Platform.Uart.{Uart}
use fuzzsoft.Platform.Machine
use fuzzsoft.Platform.Machine.{Machine, machine_bus}
use fuzzsoft.Platform.CowMachine
use fuzzsoft.Platform.CowMachine.{CowMachine, cow_machine_bus}

-- The state mask after the byte `i` of a RAM.
abbrev raw_mask : Ram → ℕ → ℕ → ℕ → ℕ
raw_mask r addr i mask = elim (window_offset r.base r.size (u32 (addr + i))) [
  | none ↦ mask
  | some off ↦ if permits 40 (r.perms off) then bit_or mask (2 ^ (8 * i)) else mask
]

-- The two machines over one snapshot: RAMs that are alike, the same CLINT, and the same bytes
-- sent since the consoles held `x` and `y`.
pub data Twins (gold : Mmu) (x y : List ℕ) : Machine → CowMachine → Type 0 where
  twins :
      (flat : Mmu) (cow : CowRam) (ram_base ram_end : ℕ) (clint : Clint) (sent : List ℕ)
      → Alike gold cow flat
      → Twins gold x y
          (record {
            ram = flat;
            ram_base = ram_base;
            ram_end = ram_end;
            clint = clint;
            uart = record { out = x ++ sent };
          })
          (record {
            ram = cow;
            ram_base = ram_base;
            ram_end = ram_end;
            clint = clint;
            uart = record { out = y ++ sent };
          })

-- A byte sent after what was there already.
pub store-appended :
    (x sent : List ℕ) (off val : ℕ)
    → Uart.store (record { out = x ++ sent }) off val
      ≡ record { out = x ++ (Uart.store (record { out = sent }) off val).out }
unfolding Uart.store
store-appended x sent off val = elim (Bool-cases (off == 0)) [
  | inl h ↦ rw h (λ i. record { out = append_assoc x sent (u8 val ∷ []) i })
  | inr h ↦ rw h refl
]

module _ {S T : Type 0} {R : S → T → Type 0} {A : Type 0} where
  if-Concord :
      (b : Bool) (o x : Outcome S A) (p y : Outcome T A)
      → Concord R o p
      → Concord R x y
      → Concord R (if b then o else x) (if b then p else y)
  if-Concord true o x p y f g = f
  if-Concord false o x p y f g = g

module _ (gold : Mmu) (planes : length gold.perms ≡ length gold.mem)
    (fits : gold.base + length gold.mem ≤ 2 ^ 32) (x y : List ℕ) where
  -- The relation of the two RAMs, with the flat one first.
  abbrev Rams : Mmu → CowRam → Type 0
  Rams m c = Alike gold c m

  module _ (m : Mmu) (c : CowRam) (a : Alike gold c m) where
    write_bytes-Concord :
        (addr : ℕ) (bs : List ℕ)
        → Concord Rams (Mmu.Bytes.write_bytes m addr bs) (Cow.Bytes.write_bytes c addr bs)
    write_bytes-Concord addr bs =
        let o = Alike-write gold planes fits c m addr bs a in Concord-equal _ _ (sym (o.0)) (o.1)

    write_word-Concord :
        (addr n val : ℕ)
        → Concord Rams (Mmu.Bytes.write_word m addr n val) (Cow.Bytes.write_word c addr n val)
    unfolding Mmu.Bytes.write_word Cow.Bytes.write_word
    write_word-Concord addr n val =
        elim (check_align addr n write)
          as (λ r.
            Concord Rams
              (elim r as (λ _. Outcome Mmu (Unit {0})) [
                | ok _ ↦ Mmu.Bytes.write_bytes m addr (to_le_bytes n val)
                | err e ↦ (err e, m)
              ])
              (elim r as (λ _. Outcome CowRam (Unit {0})) [
                | ok _ ↦ Cow.Bytes.write_bytes c addr (to_le_bytes n val)
                | err e ↦ (err e, c)
              ])) [
                | ok _ ↦ write_bytes-Concord addr (to_le_bytes n val)
                | err e ↦ concord (err e) m c a
              ]

    store-Concord :
        (addr size val : ℕ)
        → Concord Rams (Mmu.Device.store m addr size val) (Cow.Device.store c addr size val)
    unfolding Mmu.Device.store Cow.Device.store
    store-Concord addr size val =
        if-Concord (size == 1) _ _ _ _ (write_word-Concord addr 1 (u8 val)) (
          if-Concord (size == 2) _ _ _ _ (write_word-Concord addr 2 (u16 val))
            (write_word-Concord addr 4 val))

    raw_state_from-Alike :
        (n addr i mask : ℕ)
        → Mmu.Device.raw_state_from m addr i n mask ≡ Cow.Device.raw_state_from c addr i n mask
    unfolding Mmu.Device.raw_state_from Cow.Device.raw_state_from
    raw_state_from-Alike zero addr i mask = refl
    raw_state_from-Alike (suc n) addr i mask =
        ap (λ r. Mmu.Device.raw_state_from m addr (i + 1) n (raw_mask r addr i mask)) (sym a.same)
        ∙ raw_state_from-Alike n addr (i + 1) (raw_mask (Cow.contents c) addr i mask)

    read_raw_state-Alike :
        (addr len : ℕ) → Mmu.Device.read_raw_state m addr len ≡ Cow.Device.read_raw_state c addr len
    unfolding Mmu.Device.read_raw_state Cow.Device.read_raw_state
    read_raw_state-Alike addr len = raw_state_from-Alike (min len 4) addr 0 0

  ram_answer-Concord :
      {A : Type 0} (b e : ℕ) (k : Clint) (u : List ℕ) (m : Mmu) (c : CowRam) (o : Outcome Mmu A)
      (p : Outcome CowRam A)
      → Concord Rams o p
      → Concord
          (Twins gold x y)
          (Machine.ram_answer
            (record {
              ram = m;
              ram_base = b;
              ram_end = e;
              clint = k;
              uart = record { out = x ++ u };
            })
            o)
          (CowMachine.ram_answer
            (record {
              ram = c;
              ram_base = b;
              ram_end = e;
              clint = k;
              uart = record { out = y ++ u };
            })
            p)
  ram_answer-Concord b e k u m c _ _ (concord r s t h) = concord r _ _ (twins s t b e k u h)

  sent-Concord :
      (b e : ℕ) (k : Clint) (u : List ℕ) (m : Mmu) (c : CowRam) (a : Alike gold c m) (off val : ℕ)
      → Concord
          (Twins gold x y)
          {A = Unit {0}}
          (
            ok tt,
            record {
              ram = m;
              ram_base = b;
              ram_end = e;
              clint = k;
              uart = Uart.store (record { out = x ++ u }) off val;
            },
          )
          (
            ok tt,
            record {
              ram = c;
              ram_base = b;
              ram_end = e;
              clint = k;
              uart = Uart.store (record { out = y ++ u }) off val;
            },
          )
  sent-Concord b e k u m c a off val =
      rw (store-appended x u off val, store-appended y u off val)
        (concord _ _ _ (twins m c b e k _ a))

  loads-Twins :
      (m : Machine) (c : CowMachine)
      → Twins gold x y m c
      → (addr size : ℕ)
      → Concord (Twins gold x y) (Machine.load m addr size) (CowMachine.load c addr size)
  unfolding Machine.load CowMachine.load Uart.load
  loads-Twins _ _ (twins m c b e k u a) addr size =
      let both = twins m c b e k u a in
      if-Concord (in_clint addr) _ _ _ _ (concord _ _ _ both) (
        if-Concord (in_uart addr) _ _ _ _ (concord _ _ _ both) (
          if-Concord (in_ram addr b e) _ _ _ _
            (Concord-equal _ _
              (sym (load-Mmu c m a.view (flat_valid gold planes fits a.since) a.same addr size))
              both)
            (concord _ _ _ both)))

  pub stores-Twins :
      (m : Machine) (c : CowMachine)
      → Twins gold x y m c
      → (addr size val : ℕ)
      → Concord (Twins gold x y) (Machine.store m addr size val) (CowMachine.store c addr size val)
  unfolding Machine.store CowMachine.store
  stores-Twins _ _ (twins m c b e k u a) addr size val =
      if-Concord (in_clint addr) _ _ _ _ (concord _ _ _ (twins m c b e _ u a)) (
        if-Concord (in_uart addr) _ _ _ _ (sent-Concord b e k u m c a (addr - uart_base) val) (
          if-Concord (in_ram addr b e) _ _ _ _
            (ram_answer-Concord b e k u m c _ _ (store-Concord m c a addr size val))
            (concord _ _ _ (twins m c b e k u a))))

  fetches-Twins :
      (m : Machine) (c : CowMachine)
      → Twins gold x y m c
      → (addr : ℕ)
      → Concord (Twins gold x y) (machine_bus.ifetch16 m addr) (cow_machine_bus.ifetch16 c addr)
  unfolding Machine.ifetch16 CowMachine.ifetch16
  fetches-Twins _ _ (twins m c b e k u a) addr =
      Concord-equal _ _
        (ap (λ r. if in_ram addr b e then r else err (mmio_fault addr 2 exec))
          (sym (ifetch16-Mmu c m a.view (flat_valid gold planes fits a.since) a.same addr)))
        (twins m c b e k u a)

  raw_states-Twins :
      (m : Machine) (c : CowMachine)
      → Twins gold x y m c
      → (addr len : ℕ) → Machine.read_raw_state m addr len ≡ CowMachine.read_raw_state c addr len
  unfolding Machine.read_raw_state CowMachine.read_raw_state
  raw_states-Twins _ _ (twins m c b e k u a) addr len =
      ap (λ r. if in_ram addr b e then r else 0) (read_raw_state-Alike m c a addr len)

  -- The machine over a copy-on-write view answers a hart as the machine over a flat RAM: loads,
  -- stores, fetches and raw states of RAM, CLINT, UART and unmapped addresses agree, and the two
  -- stay twins, for a snapshot whose two planes have one length and whose window ends by 2 ^ 32.
  pub machines-Related : Related (Twins gold x y) machine_bus cow_machine_bus
  machines-Related = record {
    loads = loads-Twins;
    stores = stores-Twins;
    fetches = fetches-Twins;
    raw_states = raw_states-Twins;
  }
