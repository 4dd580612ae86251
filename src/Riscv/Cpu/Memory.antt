-- ===== src/Riscv/Cpu/Memory.antt =====
-- Translated memory accesses: `fetch16`, `load_impl`, `store_impl` and the taint that goes with
-- them (crates/fs-riscv/src/lib.rs).
use fuzzsoft.Base.{
  ℕ, zero, suc, ◌+◌, ◌-◌, ◌*◌, ◌/◌, ◌%◌, ◌^◌, Bool, ◌||◌, not, bit_and, bit_or, nonzero, ltb, leb,
  ◌==◌, if◌then◌else◌,
}
use fuzzsoft.Fault.{Access, read, write, exec, u8, u16, u32}
use fuzzsoft.Bus.{Bus}
use fuzzsoft.Riscv.Cpu.Monad.{Hart, pure, on_bus, peek, poke, ◌>>=◌, ◌>>◌}
use fuzzsoft.Riscv.Cpu.Xlate.{xlate}

abbrev pub crosses_page : ℕ → ℕ → Bool
crosses_page va size = ltb 0x1000 (va % 2 ^ 12 + size)

-- `va & (size - 1) != 0`.
abbrev pub misaligned : ℕ → ℕ → Bool
misaligned va size = nonzero (bit_and va (size - 1))

abbrev pub bytewise : ℕ → ℕ → Bool
bytewise va size = misaligned va size || crosses_page va size

-- `v as u8 as i8 as i32 as u32` and `v as u16 as i16 as i32 as u32`.
abbrev pub sign_extend : Bool → ℕ → ℕ → ℕ
sign_extend signed size v =
    if signed
    then (if size == 1
        then (if ltb (u8 v) (2 ^ 7) then u8 v else u8 v + 2 ^ 32 - 2 ^ 8)
        else (if size == 2
            then (if ltb (u16 v) (2 ^ 15) then u16 v else u16 v + 2 ^ 32 - 2 ^ 16)
            else v))
    else v

module _ {S : Type 0} (bus : Bus S) where
  unfoldable pub translate : ℕ → Access → Hart S ℕ
  translate va access c s = xlate bus c s va access

  unfoldable pub fetch16 : ℕ → Hart S ℕ
  fetch16 va = translate va exec >>= λ pa. on_bus (λ s. bus.ifetch16 s pa)

  -- The bytes `i .. i + n` of a bytewise load, after `acc`.
  unfoldable pub load_bytewise : ℕ → ℕ → ℕ → ℕ → Hart S ℕ
  load_bytewise va i zero acc = pure acc
  load_bytewise va i (suc n) acc = translate (u32 (va + i)) read >>= λ pa.
      on_bus (λ s. bus.load s pa 1) >>= λ b.
      load_bytewise va (i + 1) n (bit_or acc (u8 b * 2 ^ (8 * i)))

  unfoldable pub load_impl : ℕ → ℕ → Bool → Hart S ℕ
  load_impl va size signed =
      (if bytewise va size
        then load_bytewise va 0 size 0
        else (translate va read >>= λ pa. on_bus (λ s. bus.load s pa size)))
      >>= λ v. pure (sign_extend signed size v)

  unfoldable pub store_bytewise : ℕ → ℕ → ℕ → ℕ → Hart S (Unit {0})
  store_bytewise va i zero val = pure tt
  store_bytewise va i (suc n) val = translate (u32 (va + i)) write >>= λ pa.
      on_bus (λ s. bus.store s pa 1 (u8 (val / 2 ^ (8 * i)))) >> store_bytewise va (i + 1) n val

  unfoldable pub store_impl : ℕ → ℕ → ℕ → Hart S (Unit {0})
  store_impl va size val =
      if bytewise va size
      then store_bytewise va 0 size val
      else (translate va write >>= λ pa. on_bus (λ s. bus.store s pa size val))

  unfoldable pub load_taint_bytewise : ℕ → ℕ → ℕ → ℕ → Hart S ℕ
  load_taint_bytewise va i zero mask = pure mask
  load_taint_bytewise va i (suc n) mask = translate (u32 (va + i)) read >>= λ pa.
      peek (λ s. bus.read_raw_state s pa 1) >>= λ b.
      load_taint_bytewise va (i + 1) n (bit_or mask (u32 (b * 2 ^ (8 * i))))

  unfoldable pub load_taint : ℕ → ℕ → Hart S ℕ
  load_taint va size =
      if bytewise va size
      then load_taint_bytewise va 0 size 0
      else (translate va read >>= λ pa. peek (λ s. bus.read_raw_state s pa size))

  unfoldable pub store_taint_bytewise : ℕ → ℕ → ℕ → ℕ → Hart S (Unit {0})
  store_taint_bytewise va i zero mask = pure tt
  store_taint_bytewise va i (suc n) mask = translate (u32 (va + i)) write >>= λ pa.
      poke (λ s. bus.write_shadow s pa 1 (mask / 2 ^ (8 * i) % 2))
      >> store_taint_bytewise va (i + 1) n mask

  unfoldable pub store_taint : ℕ → ℕ → ℕ → Hart S (Unit {0})
  store_taint va size mask =
      if bytewise va size
      then store_taint_bytewise va 0 size mask
      else (translate va write >>= λ pa. poke (λ s. bus.write_shadow s pa size mask))

-- The bits that `extend_load_taint` fills, for the byte positions `pos .. pos + n`.
abbrev pub fill_taint : ℕ → ℕ → ℕ → ℕ
fill_taint pos zero m = m
fill_taint pos (suc n) m = fill_taint (pos + 1) n (bit_or m (2 ^ (8 * pos)))

unfoldable pub extend_load_taint : ℕ → ℕ → Bool → ℕ
extend_load_taint mask size signed =
    if leb 4 size || not signed
    then mask
    else if bit_and mask (2 ^ (8 * (size - 1))) == 0
    then mask
    else fill_taint size (4 - size) mask
