-- ===== src/Coverage.antt =====
-- The edge-coverage bitmap of a run and the map of all that was seen (crates/fs-cov/src/lib.rs).
pub mod Laws
use fuzzsoft.Base.{
  ℕ, zero, suc, ◌+◌, ◌/◌, ◌%◌, Bool, true, false, not, List, [], ◌∷◌, length, get_or, set,
  replicate, bit_xor, ltb, leb, ◌==◌, if◌then◌else◌,
}

abbrev pub map_size : ℕ
map_size = 65536

-- `& (MAP_SIZE - 1)` is the remainder, since the size is a power of two.
unfoldable pub hash_edge : ℕ → ℕ → ℕ
hash_edge prev_pc cur_pc = bit_xor (prev_pc / 2) cur_pc % map_size

unfoldable pub classify_count : ℕ → ℕ
classify_count count =
    if leb count 3
    then count
    else if leb count 7
    then 4
    else if leb count 15
    then 5
    else if leb count 31
    then 6
    else if leb count 127
    then 7
    else 8

pub record CovBitmap : Type 0 where
  pub hits : List ℕ

unfoldable pub new_bitmap : CovBitmap
new_bitmap = record { hits = replicate map_size 0 }

-- `u8::saturating_add(1)`.
abbrev pub bump : ℕ → ℕ
bump h = if ltb h 255 then h + 1 else 255

unfoldable pub record_edge : CovBitmap → ℕ → ℕ → CovBitmap
record_edge map prev_pc cur_pc =
    let idx = hash_edge prev_pc cur_pc in
    record { hits = set map.hits idx (bump (get_or map.hits idx 0)) }

abbrev pub hit : CovBitmap → ℕ → ℕ
hit map idx = get_or map.hits idx 0

-- How many entries are not zero.
unfoldable pub count_nonzero : List ℕ → ℕ
count_nonzero [] = 0
count_nonzero (h ∷ hs) = let rest = count_nonzero hs in if h == 0 then rest else rest + 1

unfoldable pub covered_buckets : CovBitmap → ℕ
unfolding count_nonzero
covered_buckets map = count_nonzero map.hits

-- `clear`, which zeroes every bucket.
unfoldable pub clear : CovBitmap → CovBitmap
clear map = record { hits = replicate (length map.hits) 0 }

pub record VirginMap : Type 0 where
  pub classes : List ℕ

unfoldable pub new_virgin : VirginMap
new_virgin = record { classes = replicate map_size 0 }

-- The body of the loop of `has_new_bits` for the bucket `i`.
abbrev pub fold_bucket : ℕ → ℕ → Bool × VirginMap → Bool × VirginMap
fold_bucket run_class i (found, v) =
    if ltb (get_or v.classes i 0) run_class
    then (true, record { classes = set v.classes i run_class })
    else (found, v)

-- The buckets `i .. i + n`.
unfoldable pub fold_buckets : CovBitmap → ℕ → ℕ → Bool × VirginMap → Bool × VirginMap
fold_buckets run i zero acc = acc
fold_buckets run i (suc n) acc =
    fold_buckets run (i + 1) n (fold_bucket (classify_count (hit run i)) i acc)

unfoldable pub has_new_bits : VirginMap → CovBitmap → Bool × VirginMap
unfolding fold_buckets
has_new_bits v run = fold_buckets run 0 map_size (false, v)

unfoldable pub virgin_covered : VirginMap → ℕ
unfolding count_nonzero
virgin_covered v = count_nonzero v.classes
