-- ===== src/Cow/Device/Laws.antt =====
-- The bus-shaped operations of a copy-on-write view beside those of a flat RAM
-- (crates/fs-mmu/src/lib.rs).
use fuzzsoft.Base.{ℕ, ◌%◌, ◌≡◌, refl, ap, inl, inr, map_ok, and_then, ◌==◌, Bool-cases}
use fuzzsoft.Fault.{read, exec, check_align, to_le_bytes, from_le_bytes, u8, u16}
use fuzzsoft.Mmu
use fuzzsoft.Mmu.{Mmu}
use fuzzsoft.Cow.{CowRam, contents}
use fuzzsoft.Cow.Bytes.{read_word, write_word, fetch_word}
use fuzzsoft.Cow.Device.{load, store, ifetch16}
use fuzzsoft.Cow.Invariant.{WellFormed}
use fuzzsoft.Cow.Simulates.{read_bytes-Mmu, fetch_bytes-Mmu, write_bytes-Mmu}

module _ (c : CowRam) (m : Mmu) (w : WellFormed c) (v : Mmu.WellFormed m)
    (same : contents c ≡ Mmu.contents m) where
  read_word-Mmu : (addr n : ℕ) → read_word c addr n ≡ Mmu.Bytes.read_word m addr n
  unfolding read_word Mmu.Bytes.read_word
  read_word-Mmu addr n =
      ap (λ r. and_then (check_align addr n read) (λ _. map_ok from_le_bytes r))
        (read_bytes-Mmu c m w v same addr n)

  write_word-Mmu :
      (addr n x : ℕ)
      → ((write_word c addr n x).0 ≡ (Mmu.Bytes.write_word m addr n x).0)
        × (contents (write_word c addr n x).1 ≡ Mmu.contents (Mmu.Bytes.write_word m addr n x).1)
  unfolding write_word Mmu.Bytes.write_word check_align
  write_word-Mmu addr n x = elim (Bool-cases (addr % n == 0)) [
    | inl aligned ↦
        rw (aligned, write_word, Mmu.Bytes.write_word)
          (write_bytes-Mmu c m w v same addr (to_le_bytes n x))
    | inr not_aligned ↦ rw (not_aligned, write_word, Mmu.Bytes.write_word) (refl, same)
  ]

  -- A bus load of any size from a well-formed copy-on-write view returns the value or the fault of
  -- the same load from a well-formed flat RAM that shows the same.
  pub load-Mmu : (addr size : ℕ) → load c addr size ≡ Mmu.Device.load m addr size
  unfolding load Mmu.Device.load
  load-Mmu addr size = rw (read_word-Mmu addr 1, read_word-Mmu addr 2, read_word-Mmu addr 4) refl

  -- An instruction fetch from a well-formed copy-on-write view returns the half-word or the fault
  -- of the same fetch from a well-formed flat RAM that shows the same.
  pub ifetch16-Mmu : (addr : ℕ) → ifetch16 c addr ≡ Mmu.Device.ifetch16 m addr
  unfolding ifetch16 Mmu.Device.ifetch16 fetch_word Mmu.Bytes.fetch_word
  ifetch16-Mmu addr =
      ap (λ r. and_then (check_align addr 2 exec) (λ _. map_ok from_le_bytes r))
        (fetch_bytes-Mmu c m w v same addr 2)

  -- A bus store of any size to a well-formed copy-on-write view returns what the same store to a
  -- well-formed flat RAM returns that shows the same, the misaligned and the faulting store
  -- included, and the two still show the same afterwards.
  pub store-Mmu :
      (addr size x : ℕ)
      → ((store c addr size x).0 ≡ (Mmu.Device.store m addr size x).0)
        × (contents (store c addr size x).1 ≡ Mmu.contents (Mmu.Device.store m addr size x).1)
  unfolding store Mmu.Device.store
  store-Mmu addr size x = elim (Bool-cases (size == 1)) [
    | inl one ↦ rw one (write_word-Mmu addr 1 (u8 x))
    | inr more ↦ rw more (elim (Bool-cases (size == 2)) [
      | inl two ↦ rw two (write_word-Mmu addr 2 (u16 x))
      | inr four ↦ rw four (write_word-Mmu addr 4 x)
    ])
  ]
