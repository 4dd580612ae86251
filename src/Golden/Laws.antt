-- ===== src/Golden/Laws.antt =====
-- Reads of the snapshot beside reads of the RAM that was frozen (crates/fs-mmu/src/lib.rs).
use fuzzsoft.Base.{ℕ, ◌-◌, ◌≡◌, some, List, ok, get_or, slice, arith}
use fuzzsoft.Perm.{perm_read}
use fuzzsoft.Fault.{check_align, from_le_bytes}
use fuzzsoft.Golden.{from_mmu, read_u8, access_word, read_sized, fetch_u16}
use fuzzsoft.Mmu.{Mmu}
use fuzzsoft.Mmu.Bytes.{read_bytes, fetch_bytes, read_word, fetch_word}
use fuzzsoft.Mmu.Device.{load, ifetch16}

pub access_word-read_word :
    (m : Mmu) (addr n w : ℕ)
    → access_word perm_read (from_mmu m) addr n ≡ some w
    → read_word m addr n ≡ ok w
unfolding access_word from_mmu read_word read_bytes check_align
access_word-read_word m addr n w h = ground arith

one_byte : (xs : List ℕ) (off : ℕ) → from_le_bytes (slice xs off 1 0) ≡ get_or xs off 0
unfolding from_le_bytes slice
one_byte xs off = omega arith

read_u8-read_word :
    (m : Mmu) (addr w : ℕ) → read_u8 (from_mmu m) addr ≡ some w → read_word m addr 1 ≡ ok w
unfolding read_u8 from_mmu read_word read_bytes check_align slice
read_u8-read_word m addr w h = ground (arith, one_byte m.mem (addr - m.base))

-- Where `read_sized` of a RAM's snapshot gives a value, the `load` of that size from the RAM itself
-- gives the same one.
pub read_sized-load :
    (m : Mmu) (addr size w : ℕ)
    → read_sized (from_mmu m) addr size ≡ some w
    → load m addr size ≡ ok w
unfolding read_sized load
read_sized-load m addr size w h = ground (
  arith,
  read_u8-read_word m addr w,
  access_word-read_word m addr 2 w,
  access_word-read_word m addr 4 w,
)

-- Where `fetch_u16` of a RAM's snapshot gives a half-word, the `ifetch16` of the RAM itself gives
-- the same one.
pub fetch_u16-ifetch16 :
    (m : Mmu) (addr w : ℕ) → fetch_u16 (from_mmu m) addr ≡ some w → ifetch16 m addr ≡ ok w
unfolding fetch_u16 access_word from_mmu ifetch16 fetch_word fetch_bytes check_align
fetch_u16-ifetch16 m addr w h = ground arith
