-- ===== src/Coverage/Laws.antt =====
-- What a fold into the virgin map records (crates/fs-cov/src/lib.rs).
use fuzzsoft.Base.{
  ℕ, zero, suc, ◌+◌, ◌≤◌, ◌<◌, ◌≡◌, refl, ap, max, Bool, true, false, ◌&&◌, ◌||◌, length, get_or,
  ltb, leb, ◌==◌, if◌then◌else◌, arith, get_or-set, length-set,
}
use fuzzsoft.Coverage.{
  CovBitmap, VirginMap, hit, classify_count, fold_bucket, fold_buckets, has_new_bits, map_size,
}

-- The class of a bucket in a run, and the best class seen.
abbrev pub run_class : CovBitmap → ℕ → ℕ
run_class run j = classify_count (hit run j)

abbrev pub seen_class : VirginMap → ℕ → ℕ
seen_class v j = get_or v.classes j 0

fold_bucket-seen :
    (k i j : ℕ) (acc : Bool × VirginMap)
    → i < length acc.1.classes
    → seen_class (fold_bucket k i acc).1 j
      ≡ (if i == j then max (seen_class acc.1 j) k else seen_class acc.1 j)
fold_bucket-seen k i j (found, v) room = ground (arith, get_or-set v.classes i j k 0)

fold_bucket-size :
    (k i : ℕ) (acc : Bool × VirginMap)
    → length (fold_bucket k i acc).1.classes ≡ length acc.1.classes
fold_bucket-size k i (found, v) = ground (arith, length-set v.classes i k)

fold_bucket-found :
    (k i : ℕ) (acc : Bool × VirginMap)
    → (fold_bucket k i acc).0 ≡ (if ltb (seen_class acc.1 i) k then true else acc.0)
fold_bucket-found k i (found, v) = ground arith

module _ (run : CovBitmap) where
  fold_buckets-seen :
      (n i j : ℕ) (acc : Bool × VirginMap)
      → i + n ≤ length acc.1.classes
      → seen_class (fold_buckets run i n acc).1 j ≡ (
          if leb i j && ltb j (i + n)
          then max (seen_class acc.1 j) (run_class run j)
          else seen_class acc.1 j)
  unfolding fold_buckets
  fold_buckets-seen zero i j acc room = ground arith
  fold_buckets-seen (suc n) i j acc room =
      let k = run_class run i in
      let size = fold_bucket-size k i acc in
      ground (
        arith,
        fold_buckets-seen n (i + 1) j (fold_bucket k i acc) (omega (arith, size)),
        fold_bucket-seen k i j acc (omega arith),
      )

  -- Where no bucket advances, nothing is found and nothing changes.
  fold_buckets-still :
      (n i : ℕ) (acc : Bool × VirginMap)
      → ((j : ℕ) → i ≤ j → j < i + n → run_class run j ≤ seen_class acc.1 j)
      → fold_buckets run i n acc ≡ acc
  unfolding fold_buckets
  fold_buckets-still zero i acc low = refl
  fold_buckets-still (suc n) i (found, v) low =
      let here : ltb (seen_class v i) (run_class run i) ≡ false =
        ground (arith, low i (omega arith) (omega arith)) in
      rw here
        (fold_buckets-still n (i + 1) (found, v) (λ j from to. low j (omega arith) (omega arith)))

  -- Some bucket of `i .. i + n` is of a higher class in the run than in the map.
  unfoldable pub advances : VirginMap → ℕ → ℕ → Bool
  advances v i zero = false
  advances v i (suc n) = ltb (seen_class v i) (run_class run i) || advances v (i + 1) n

  advances-same :
      (n i : ℕ) (v w : VirginMap)
      → ((j : ℕ) → i ≤ j → seen_class w j ≡ seen_class v j)
      → advances w i n ≡ advances v i n
  unfolding advances
  advances-same zero i v w same = refl
  advances-same (suc n) i v w same = rw (same i (omega arith)) (
      ap (λ b. ltb (seen_class v i) (run_class run i) || b)
        (advances-same n (i + 1) v w (λ j from. same j (omega arith))))

  fold_buckets-advances :
      (n i : ℕ) (acc : Bool × VirginMap)
      → i + n ≤ length acc.1.classes
      → (fold_buckets run i n acc).0 ≡ (acc.0 || advances acc.1 i n)
  unfolding fold_buckets advances
  fold_buckets-advances zero i acc room = ground arith
  fold_buckets-advances (suc n) i acc room =
      let k = run_class run i in
      let size = fold_bucket-size k i acc in
      let same : (j : ℕ) → i + 1 ≤ j → seen_class (fold_bucket k i acc).1 j ≡ seen_class acc.1 j =
        λ j from. ground (arith, fold_bucket-seen k i j acc (omega arith), from) in
      ground (
        arith,
        fold_buckets-advances n (i + 1) (fold_bucket k i acc) (omega (arith, size)),
        fold_bucket-found k i acc,
        advances-same n (i + 1) acc.1 (fold_bucket k i acc).1 same,
      )

  all-seen :
      (n j : ℕ) (acc : Bool × VirginMap)
      → n ≤ length acc.1.classes
      → j < n
      → seen_class (fold_buckets run 0 n acc).1 j ≡ max (seen_class acc.1 j) (run_class run j)
  all-seen n j acc room inside = ground (arith, fold_buckets-seen n 0 j acc (omega arith))

  all-again :
      (n : ℕ) (acc : Bool × VirginMap)
      → n ≤ length acc.1.classes
      → let w = (fold_buckets run 0 n acc).1 in fold_buckets run 0 n (false, w) ≡ (false, w)
  all-again n acc room =
      let w = (fold_buckets run 0 n acc).1 in
      fold_buckets-still n 0 (false, w)
        (λ j from to. omega (arith, all-seen n j acc room (omega arith)))

module _ (v : VirginMap) (run : CovBitmap) (sized : length v.classes ≡ map_size) where
  room : map_size ≤ length v.classes
  room = omega (arith, sized)

  -- For maps of full size, after `has_new_bits` the class of every bucket is the larger of the
  -- class seen before and the class of the run.
  pub has_new_bits-seen :
      (j : ℕ)
      → j < map_size
      → seen_class (has_new_bits v run).1 j ≡ max (seen_class v j) (run_class run j)
  unfolding has_new_bits
  has_new_bits-seen j inside = all-seen run map_size j (false, v) room inside

  -- For a map of full size `has_new_bits` says true exactly where some bucket of the run is of a
  -- higher class than was seen before the fold.
  pub has_new_bits-advances : (has_new_bits v run).0 ≡ advances run v 0 map_size
  unfolding has_new_bits
  has_new_bits-advances = fold_buckets-advances run map_size 0 (false, v) (omega (arith, sized))

  -- For a map of full size a second fold of the same run finds nothing and changes nothing.
  has_new_bits-again : has_new_bits (has_new_bits v run).1 run ≡ (false, (has_new_bits v run).1)
  unfolding has_new_bits
  has_new_bits-again = all-again run map_size (false, v) room
