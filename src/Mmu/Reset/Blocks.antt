-- ===== src/Mmu/Reset/Blocks.antt =====
-- Restoring and clearing a list of blocks: `reset_dirty` and `clear_dirty` on one plane and on the
-- bitmap (crates/fs-mmu/src/lib.rs).
use fuzzsoft.Base.{
  ℕ, zero, suc, ◌+◌, ◌-◌, ◌*◌, ◌/◌, ◌%◌, ◌^◌, ◌≤◌, ◌<◌, ◌≡◌, refl, ap, ◌∙◌, Bool, false, ◌||◌, inl,
  inr, List, [], ◌∷◌, ◌++◌, length, get_or, set, slice, replicate, min, ◌==◌, if◌then◌else◌, arith,
  Bool-cases, get_or_ext, get_or-splice, get_or-slice, length-slice, length-splice, bit_or,
}
use fuzzsoft.Mmu.{Dirty, mark_block, clear_bitmap, restore_block, restore_blocks}

abbrev pub listed : List ℕ → ℕ → Bool
listed [] c = false
listed (b ∷ bs) c = b == c || listed bs c

pub listed-append : (bs : List ℕ) (b c : ℕ) → listed (bs ++ (b ∷ [])) c ≡ b == c || listed bs c
listed-append [] b c = refl
listed-append (x ∷ bs) b c = ground (arith, listed-append bs b c)

get_or-restore_block :
    (gold xs : List ℕ) (b j : ℕ)
    → b * 64 ≤ length xs
    → j < length xs
    → get_or (restore_block gold xs b) j 0
      ≡ (if b == j / 64 then get_or gold j 0 else get_or xs j 0)
unfolding restore_block
get_or-restore_block gold xs b j covered inside =
    let stop = min (b * 64 + 64) (length xs) in
    let fill = slice gold (b * 64) (stop - b * 64) 0 in
    let len : length fill ≡ stop - b * 64 = length-slice gold (b * 64) (stop - b * 64) 0 in
    get_or-splice fill xs (b * 64) j 0 (omega (arith, len))
    ∙ ground (arith, len, get_or-slice (stop - b * 64) gold (b * 64) (j - b * 64) 0)

length-restore_block : (gold xs : List ℕ) (b : ℕ) → length (restore_block gold xs b) ≡ length xs
unfolding restore_block
length-restore_block gold xs b =
    let stop = min (b * 64 + 64) (length xs) in
    length-splice (slice gold (b * 64) (stop - b * 64) 0) xs (b * 64)

pub length-restore_blocks :
    (gold : List ℕ) (bs xs : List ℕ) → length (restore_blocks gold bs xs) ≡ length xs
unfolding restore_blocks
length-restore_blocks gold [] xs = refl
length-restore_blocks gold (b ∷ bs) xs =
    length-restore_blocks gold bs (restore_block gold xs b) ∙ length-restore_block gold xs b

-- Every block of a list starts inside a window of `len` bytes.
abbrev pub Within : ℕ → List ℕ → Type 0
Within len [] = Unit {0}
Within len (b ∷ bs) = (b * 64 < len) × Within len bs

pub get_or-restore_blocks :
    (gold : List ℕ) (bs xs : List ℕ) (j : ℕ)
    → Within (length xs) bs
    → j < length xs
    → get_or (restore_blocks gold bs xs) j 0
      ≡ (if listed bs (j / 64) then get_or gold j 0 else get_or xs j 0)
unfolding restore_blocks
get_or-restore_blocks gold [] xs j within inside = refl
get_or-restore_blocks gold (b ∷ bs) xs j within inside =
    let len = length-restore_block gold xs b in
    get_or-restore_blocks gold bs (restore_block gold xs b) j (rw len (within.1)) (rw len inside)
    ∙ ground (arith, get_or-restore_block gold xs b j)

-- Restoring the listed blocks of a plane that differs from the golden one in those only.
pub restore_blocks-eq :
    (gold bs xs : List ℕ)
    → Within (length xs) bs
    → length xs ≡ length gold
    → ((j : ℕ) → j < length xs → listed bs (j / 64) ≡ false → get_or xs j 0 ≡ get_or gold j 0)
    → restore_blocks gold bs xs ≡ gold
restore_blocks-eq gold bs xs within same agrees =
    let len = length-restore_blocks gold bs xs in
    get_or_ext 0 (restore_blocks gold bs xs) gold (len ∙ same) λ j inside.
      let below : j < length xs = omega (arith, len) in
      get_or-restore_blocks gold bs xs j within below ∙ ground (arith, agrees j)

set-set_comm :
    (xs : List ℕ) (i j v : ℕ)
    → set (set xs i v) j 0 ≡ (if i == j then set xs j 0 else set (set xs j 0) i v)
unfolding set
set-set_comm [] i j v = ground arith
set-set_comm (x ∷ xs) zero zero v = refl
set-set_comm (x ∷ xs) zero (suc j) v = ground arith
set-set_comm (x ∷ xs) (suc i) zero v = ground arith
set-set_comm (x ∷ xs) (suc i) (suc j) v = ground (arith, set-set_comm xs i j v)

clear_bitmap-append :
    (bs bitmap : List ℕ) (b : ℕ)
    → clear_bitmap (bs ++ (b ∷ [])) bitmap ≡ set (clear_bitmap bs bitmap) (b / 64) 0
unfolding clear_bitmap
clear_bitmap-append [] bitmap b = refl
clear_bitmap-append (c ∷ bs) bitmap b = clear_bitmap-append bs (set bitmap (c / 64) 0) b

-- A word that is cleared in the end may be set before.
clear_bitmap-set :
    (bs bitmap : List ℕ) (i v : ℕ)
    → set (clear_bitmap bs (set bitmap i v)) i 0 ≡ set (clear_bitmap bs bitmap) i 0
unfolding clear_bitmap
clear_bitmap-set [] bitmap i v = ground (arith, set-set_comm bitmap i i v)
clear_bitmap-set (c ∷ bs) bitmap i v = elim (Bool-cases (i == c / 64)) [
  | inl same ↦ rw (set-set_comm bitmap i (c / 64) v, same) refl
  | inr other ↦
      rw (set-set_comm bitmap i (c / 64) v, other) (clear_bitmap-set bs (set bitmap (c / 64) 0) i v)
]

set-replicate : (n i : ℕ) → set {A = ℕ} (replicate n 0) i 0 ≡ replicate n 0
unfolding set replicate
set-replicate zero i = refl
set-replicate (suc n) zero = refl
set-replicate (suc n) (suc i) = ap (λ t. 0 ∷ t) (set-replicate n i)

-- Clearing takes back a mark.
pub clear_bitmap-mark_block :
    (d : Dirty) (b n : ℕ)
    → clear_bitmap d.blocks d.bitmap ≡ replicate n 0
    → clear_bitmap (mark_block b d).blocks (mark_block b d).bitmap ≡ replicate n 0
unfolding mark_block
clear_bitmap-mark_block d b n h =
    let w = b / 64 in
    let v = bit_or (get_or d.bitmap w 0) (2 ^ (b % 64)) in
    let pushed : clear_bitmap (d.blocks ++ (b ∷ [])) (set d.bitmap w v) ≡ replicate n 0 =
      clear_bitmap-append d.blocks (set d.bitmap w v) b
      ∙ clear_bitmap-set d.blocks d.bitmap w v
      ∙ ap (λ (t : List ℕ). set t w 0) h
      ∙ set-replicate n w in
    ground (arith, pushed, h)
