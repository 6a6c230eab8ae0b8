-- ===== src/Kernel/Tiled/Pipeline.antt =====
-- The device loops of `CcuTiledPartialReduceKernel` as a pipeline over the tiles of the chunk.
pub mod Tiles
pub mod Rest
use native.Mathlib.Nat.{mul-le-mul_left}
use hccl_reduce_scatter.Prelude.{
  ℕ, zero, suc, ◌+◌, ◌-◌, ◌*◌, ◌/◌, ◌%◌, ◌≤◌, ◌<◌, ◌≡◌, refl, ◌∙◌, sym, ap, Bool, true, false, List,
  [], ◌∷◌, ◌++◌, map, arith, inl, inr, Bool-cases, ltb, range_from, ◌==◌, if◌then◌else◌,
  append_assoc, append-nil, add64, add64_small, word64,
}
use hccl_reduce_scatter.Ccu.{Call, Inputs}
use hccl_reduce_scatter.Kernel.Args.{CcuTiledPartialReduceKernelArg}
use hccl_reduce_scatter.Kernel.Common.{exchange}
use hccl_reduce_scatter.Kernel.Tiled.{
  fetch, await_fetch, reduce_tiled_partial, tile_capacity, pair_count, has_odd_tile, tail_bytes,
  tiled_pair, tiled_pairs, tiled_odd, tiled_tail, tiled_rest, tiled_calls, has_more_pairs,
  is_included, tiled_input, uint64_max,
}
use hccl_reduce_scatter.Kernel.Tiled.Fetch.{Tile}
use hccl_reduce_scatter.Kernel.Tiled.Pipeline.Tiles.{
  Entry, fetch_tile, reduce_tile, pipeline, from_start, tile_at, entry_at, tile_count, entries,
  entries_from, IsCut,
}
use hccl_reduce_scatter.Kernel.Tiled.Pipeline.Rest.{next_lem, rest_lem}

last_shape :
    (f r w s t : List Call)
    → (f ++ (r ++ (w ++ ([] ++ (s ++ []))))) ++ t ≡ (f ++ r) ++ (w ++ (s ++ t))
last_shape f r w s t = simp (append_assoc, append-nil)

step_shape :
    (f r w g s t : List Call)
    → (f ++ (r ++ (w ++ (g ++ (s ++ w))))) ++ t ≡ (f ++ r) ++ (w ++ ((g ++ s) ++ (w ++ t)))
step_shape f r w g s t = simp append_assoc

module _ (k : CcuTiledPartialReduceKernelArg) (i : Inputs) (full : ℕ) (cut : IsCut k i full) where
  entries_step :
      (t : ℕ)
      → t < full
      → entries_from k i full t ≡ entry_at k i full t ∷ entries_from k i full (t + 1)
  entries_step t h =
      let left : tile_count k i full - t ≡ suc (tile_count k i full - (t + 1)) = omega arith in
      ap (λ n. map (entry_at k i full) (range_from t n)) left

  abbrev IsStopped : List Entry → Type 0
  IsStopped [] = Unit
  IsStopped (e ∷ es) = e.is_overlapped ≡ false

  pipeline_stop :
      (j : Tile) (es : List Entry)
      → IsStopped es
      → pipeline k i j es ≡ reduce_tile k i j ++ from_start k i es
  unfolding pipeline
  pipeline_stop j [] h = sym (append-nil (reduce_tile k i j))
  pipeline_stop j (e ∷ es) h = rw h (
      append_assoc (reduce_tile k i j) (fetch_tile k i e.tile)
        (await_fetch k i ++ pipeline k i e.tile es))

  rest-IsStopped : (n : ℕ) → IsStopped (map (entry_at k i full) (range_from (2 * (full / 2)) n))
  rest-IsStopped zero = tt
  rest-IsStopped (suc n) = ground arith

  few_pairs : full / 2 ≤ uint64_max
  few_pairs =
      omega (arith, cut.in_space, mul-le-mul_left {m = 1} {n = tile_capacity k i} full (cut.some))

  abbrev are_left : ℕ → Bool
  are_left zero = false
  are_left (suc q) = true

  more_lem : (q : ℕ) → q ≤ full / 2 → has_more_pairs k i (uint64_max - q) ≡ are_left q
  more_lem zero h = ground arith
  more_lem (suc q) h = let few = few_pairs in ground arith

  count_lem : (q : ℕ) → suc q ≤ full / 2 → add64 (uint64_max - suc q) 1 ≡ uint64_max - q
  count_lem q h =
      let few = few_pairs in add64_small (uint64_max - suc q) 1 (omega arith) ∙ omega arith

  abbrev whole : ℕ → Tile
  whole t = record { offset = t * tile_capacity k i; bytes = tile_capacity k i; bank = t % 2 }

  pair_lem :
      (q p : ℕ)
      → p + suc q ≡ full / 2
      → tiled_pair k i (uint64_max - suc q) (2 * p * tile_capacity k i)
        ≡ fetch_tile k i (whole (2 * p + 1))
          ++ (reduce_tile k i (whole (2 * p))
              ++ (await_fetch k i
                  ++ ((if are_left q then fetch_tile k i (whole (2 * (p + 1))) else [])
                      ++ (reduce_tile k i (whole (2 * p + 1))
                          ++ (if are_left q then await_fetch k i else [])))))
  unfolding tiled_pair
  pair_lem q p h =
      let even : 2 * p % 2 ≡ 0 = omega arith in
      let odd : (2 * p + 1) % 2 ≡ 1 = omega arith in
      let even' : 2 * (p + 1) % 2 ≡ 0 = omega arith in
      let step : (2 * p + 1 + 1) * tile_capacity k i ≡ 2 * (p + 1) * tile_capacity k i =
        omega arith in
      rw
        (
          even,
          odd,
          even',
          next_lem k i full cut (2 * p) (omega arith),
          next_lem k i full cut (2 * p + 1) (omega arith),
          step,
          count_lem q (omega arith),
          more_lem q (omega arith),
        )
        refl

  pairs_step :
      (fuel q p : ℕ)
      → p + suc q ≡ full / 2
      → tiled_pairs k i (suc fuel) (uint64_max - suc q) (2 * p * tile_capacity k i) (tiled_rest k i)
        ≡ tiled_pair k i (uint64_max - suc q) (2 * p * tile_capacity k i)
          ++ tiled_pairs k i fuel
              (uint64_max - q)
              (2 * (p + 1) * tile_capacity k i)
              (tiled_rest k i)
  unfolding tiled_pairs
  pairs_step fuel q p h =
      let step : (2 * p + 1 + 1) * tile_capacity k i ≡ 2 * (p + 1) * tile_capacity k i =
        omega arith in
      rw
        (
          more_lem (suc q) (omega arith),
          next_lem k i full cut (2 * p) (omega arith),
          next_lem k i full cut (2 * p + 1) (omega arith),
          step,
          count_lem q (omega arith),
        )
        refl

  abbrev overlap : ℕ → List Call → List Call
  overlap t rest =
      (fetch_tile k i (whole (t + 1)) ++ reduce_tile k i (whole t)) ++ (await_fetch k i ++ rest)

  pipeline_step :
      (t : ℕ)
      → t + 1 < 2 * (full / 2)
      → pipeline k i (whole t) (entries_from k i full (t + 1))
        ≡ overlap t (pipeline k i (whole (t + 1)) (entries_from k i full (t + 1 + 1)))
  unfolding pipeline
  pipeline_step t h =
      let away : (t + 1 == full) ≡ false = ground arith in
      let flag : ltb (t + 1) (2 * (full / 2)) ≡ true = ground arith in
      ap (pipeline k i (whole t)) (entries_step (t + 1) (omega arith)) ∙ rw (away, flag) refl

  pairs_lem :
      (q p : ℕ)
      → p + suc q ≡ full / 2
      → tiled_pairs k i (suc q) (uint64_max - suc q) (2 * p * tile_capacity k i) (tiled_rest k i)
        ≡ pipeline k i (whole (2 * p)) (entries_from k i full (2 * p + 1))
  unfolding tiled_pairs
  pairs_lem zero p h =
      let end : 2 * (p + 1) ≡ 2 * (full / 2) = omega arith in
      let end' : 2 * (full / 2) ≡ 2 * p + 1 + 1 = omega arith in
      pairs_step 0 0 p h
      ∙ ap (λ l. l ++ tiled_rest k i (2 * (p + 1) * tile_capacity k i)) (pair_lem 0 p h)
      ∙ last_shape (fetch_tile k i (whole (2 * p + 1))) (reduce_tile k i (whole (2 * p)))
          (await_fetch k i) (reduce_tile k i (whole (2 * p + 1)))
          (tiled_rest k i (2 * (p + 1) * tile_capacity k i))
      ∙ ap (λ l. overlap (2 * p) (reduce_tile k i (whole (2 * p + 1)) ++ l))
          (ap (λ t. tiled_rest k i (t * tile_capacity k i)) end ∙ rest_lem k i full cut)
      ∙ ap (overlap (2 * p)) (
          sym (
            pipeline_stop (whole (2 * p + 1)) (entries_from k i full (2 * (full / 2)))
              (rest-IsStopped (tile_count k i full - 2 * (full / 2)))))
      ∙ ap (λ t. overlap (2 * p) (pipeline k i (whole (2 * p + 1)) (entries_from k i full t))) end'
      ∙ sym (pipeline_step (2 * p) (omega arith))
  pairs_lem (suc q) p h =
      let next : 2 * p + 1 + 1 ≡ 2 * (p + 1) = omega arith in
      pairs_step (suc q) (suc q) p h
      ∙ ap
          (λ l.
            l
            ++ tiled_pairs k i (suc q) (uint64_max - suc q) (2 * (p + 1) * tile_capacity k i)
                (tiled_rest k i))
          (pair_lem (suc q) p h)
      ∙ step_shape (fetch_tile k i (whole (2 * p + 1))) (reduce_tile k i (whole (2 * p)))
          (await_fetch k i) (fetch_tile k i (whole (2 * (p + 1))))
          (reduce_tile k i (whole (2 * p + 1))) _
      ∙ ap
          (λ l. overlap (2 * p) (
            (fetch_tile k i (whole (2 * (p + 1))) ++ reduce_tile k i (whole (2 * p + 1)))
            ++ (await_fetch k i ++ l)))
          (pairs_lem q (p + 1) (omega arith))
      ∙ ap
          (λ t. overlap (2 * p) (
            (fetch_tile k i (whole t) ++ reduce_tile k i (whole (2 * p + 1)))
            ++ (await_fetch k i ++ pipeline k i (whole t) (entries_from k i full (t + 1)))))
          (sym next)
      ∙ ap (overlap (2 * p)) (sym (pipeline_step (2 * p + 1) (omega arith)))
      ∙ sym (pipeline_step (2 * p) (omega arith))

  pairs_done :
      (pair offset : ℕ) → tiled_pairs k i 0 pair offset (tiled_rest k i) ≡ tiled_rest k i offset
  unfolding tiled_pairs
  pairs_done pair offset = refl

  begin_lem :
      (q : ℕ)
      → q ≡ full / 2
      → (if has_more_pairs k i (uint64_max - q)
            then fetch k i 0 (tile_capacity k i) 0 ++ await_fetch k i
            else [])
          ++ tiled_pairs k i q (uint64_max - q) 0 (tiled_rest k i)
        ≡ from_start k i (entries k i full)
  begin_lem zero h =
      let none_left : 0 ≡ 2 * (full / 2) = omega arith in
      let at_start : 0 ≡ 2 * (full / 2) * tile_capacity k i = rw (← h) (omega arith) in
      pairs_done uint64_max 0
      ∙ ap (tiled_rest k i) at_start
      ∙ rest_lem k i full cut
      ∙ ap (λ t. from_start k i (entries_from k i full t)) (sym none_left)
      ∙ ap (λ n. from_start k i (map (entry_at k i full) (range_from 0 n))) (omega arith)
  begin_lem (suc q) h =
      let at_start : 0 ≡ 2 * 0 * tile_capacity k i = omega arith in
      let away : (0 == full) ≡ false = ground arith in
      rw (more_lem (suc q) (omega arith)) (
        append_assoc (fetch k i 0 (tile_capacity k i) 0) (await_fetch k i)
          (tiled_pairs k i (suc q) (uint64_max - suc q) 0 (tiled_rest k i))
        ∙ ap
            (λ o.
              fetch k i o (tile_capacity k i) 0
              ++ (await_fetch k i
                  ++ tiled_pairs k i (suc q) (uint64_max - suc q) o (tiled_rest k i)))
            at_start
        ∙ ap (λ l. fetch_tile k i (whole 0) ++ (await_fetch k i ++ l)) (pairs_lem q 0 (omega arith))
        ∙ rw away refl
        ∙ ap (from_start k i) (sym (entries_step 0 (omega arith)))
        ∙ ap (λ n. from_start k i (map (entry_at k i full) (range_from 0 n))) (omega arith))

  -- The device loops, for launch arguments that cut the chunk into `full` full tiles and a tail,
  -- make the pipeline over the tiles in order: each tile is fetched and awaited before it is
  -- reduced, and it is fetched while the tile before it is reduced, except the first tile, an odd
  -- last full tile, and a tail behind an even number of full tiles.
  pub tiled_calls-pipeline :
      tiled_calls k i
      ≡ exchange k.base (is_included k i) (tiled_input k i) (10 + 2 * k.source_count) k.source_count
        ++ from_start k i (entries k i full)
  unfolding tiled_calls tiled_pairs
  tiled_calls-pipeline =
      let few = few_pairs in
      let fuel : uint64_max - (uint64_max - full / 2) ≡ full / 2 = omega arith in
      rw (cut.pairs_left, fuel)
        (ap
          (λ l.
            exchange k.base (is_included k i) (tiled_input k i) (10 + 2 * k.source_count)
              k.source_count
            ++ l)
          (begin_lem (full / 2) refl))
