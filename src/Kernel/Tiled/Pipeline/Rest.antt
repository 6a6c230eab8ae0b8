-- ===== src/Kernel/Tiled/Pipeline/Rest.antt =====
-- The tiles behind the pairs of `CcuTiledPartialReduceKernel`: an odd full tile, and the tail.
use native.Mathlib.Nat.{mul-le-mul_left}
use hccl_reduce_scatter.Prelude.{
  ℕ, ◌+◌, ◌-◌, ◌*◌, ◌/◌, ◌%◌, ◌≤◌, ◌<◌, ◌≡◌, refl, ◌∙◌, ap, true, false, List, [], ◌++◌, arith, inl,
  inr, Bool-cases, ◌==◌, append_assoc, append-nil, add64, add64_small,
}
use hccl_reduce_scatter.Ccu.{Call, Inputs}
use hccl_reduce_scatter.Kernel.Args.{CcuTiledPartialReduceKernelArg}
use hccl_reduce_scatter.Kernel.Tiled.{
  fetch, await_fetch, reduce_tiled_partial, tile_capacity, has_odd_tile, tail_bytes, tiled_odd,
  tiled_tail, tiled_rest,
}
use hccl_reduce_scatter.Kernel.Tiled.Fetch.{Tile}
use hccl_reduce_scatter.Kernel.Tiled.Pipeline.Tiles.{
  fetch_tile, reduce_tile, pipeline, from_start, tile_count, entries_from, IsCut,
}

odd_shape : (f w r : List Call) → (f ++ (w ++ (r ++ []))) ++ [] ≡ f ++ (w ++ r)
odd_shape f w r = simp (append_assoc, append-nil)

odd_tail_shape :
    (f w g r s : List Call)
    → (f ++ (w ++ (g ++ (r ++ w)))) ++ s ≡ f ++ (w ++ ((g ++ r) ++ (w ++ s)))
odd_tail_shape f w g r s = simp append_assoc

module _ (k : CcuTiledPartialReduceKernelArg) (i : Inputs) (full : ℕ) (cut : IsCut k i full) where
  pub next_lem :
      (t : ℕ)
      → t < full
      → add64 (t * tile_capacity k i) (tile_capacity k i) ≡ (t + 1) * tile_capacity k i
  next_lem t h =
      let steps : (t + 1) * tile_capacity k i ≤ full * tile_capacity k i =
        omega (arith, mul-le-mul_left {m = t + 1} {n = full} (tile_capacity k i) (omega arith)) in
      add64_small (t * tile_capacity k i) (tile_capacity k i) (omega (arith, steps, cut.in_space))
      ∙ omega arith

  abbrev odd_tile : Tile
  odd_tile = record {
    offset = 2 * (full / 2) * tile_capacity k i;
    bytes = tile_capacity k i;
    bank = 0;
  }

  abbrev last_tile : Tile
  last_tile = record { offset = full * tile_capacity k i; bytes = tail_bytes k i; bank = 1 }

  even_lem :
      (full % 2 == 1) ≡ false
      → tiled_rest k i (2 * (full / 2) * tile_capacity k i)
        ≡ from_start k i (entries_from k i full (2 * (full / 2)))
  unfolding tiled_rest tiled_tail pipeline
  even_lem even = elim (Bool-cases (tail_bytes k i == 0)) [
    | inl no_tail ↦
        let left : tile_count k i full - 2 * (full / 2) ≡ 0 = rw no_tail (ground arith) in
        let flag : (has_odd_tile k i == 0) ≡ true = rw (cut.odd) (ground arith) in
        rw (flag, left, no_tail) refl
    | inr tail ↦
        let left : tile_count k i full - 2 * (full / 2) ≡ 1 = rw tail (ground arith) in
        let flag : (has_odd_tile k i == 0) ≡ true = rw (cut.odd) (ground arith) in
        let last : (2 * (full / 2) == full) ≡ true = ground arith in
        let start : 2 * (full / 2) ≡ full = ground arith in
        rw (flag, left, last, start, tail)
          (append_assoc (fetch k i (full * tile_capacity k i) (tail_bytes k i) 1) (await_fetch k i)
            (reduce_tiled_partial k i (full * tile_capacity k i) (tail_bytes k i) 1))
  ]

  odd_lem :
      (full % 2 == 1) ≡ true
      → tiled_rest k i (2 * (full / 2) * tile_capacity k i)
        ≡ from_start k i (entries_from k i full (2 * (full / 2)))
  unfolding tiled_rest tiled_odd tiled_tail pipeline
  odd_lem odd = elim (Bool-cases (tail_bytes k i == 0)) [
    | inl no_tail ↦
        let left : tile_count k i full - 2 * (full / 2) ≡ 1 = rw no_tail (ground arith) in
        let flag : (has_odd_tile k i == 0) ≡ false = rw (cut.odd) (ground arith) in
        let away : (2 * (full / 2) == full) ≡ false = ground arith in
        let bank : 2 * (full / 2) % 2 ≡ 0 = omega arith in
        rw (flag, left, away, bank, no_tail)
          (odd_shape (fetch_tile k i odd_tile) (await_fetch k i) (reduce_tile k i odd_tile))
    | inr tail ↦
        let left : tile_count k i full - 2 * (full / 2) ≡ 2 = rw tail (ground arith) in
        let flag : (has_odd_tile k i == 0) ≡ false = rw (cut.odd) (ground arith) in
        let away : (2 * (full / 2) == full) ≡ false = ground arith in
        let bank : 2 * (full / 2) % 2 ≡ 0 = omega arith in
        let last : (2 * (full / 2) + 1 == full) ≡ true = ground arith in
        let next : add64 (2 * (full / 2) * tile_capacity k i) (tile_capacity k i)
            ≡ full * tile_capacity k i =
          next_lem (2 * (full / 2)) (ground arith)
          ∙ ap (λ n. n * tile_capacity k i) (ground arith) in
        rw (flag, left, away, bank, last, next, odd, tail)
          (odd_tail_shape (fetch_tile k i odd_tile) (await_fetch k i) (fetch_tile k i last_tile)
            (reduce_tile k i odd_tile) (reduce_tile k i last_tile))
  ]

  pub rest_lem :
      tiled_rest k i (2 * (full / 2) * tile_capacity k i)
      ≡ from_start k i (entries_from k i full (2 * (full / 2)))
  rest_lem = elim (Bool-cases (full % 2 == 1)) [ inl odd ↦ odd_lem odd | inr even ↦ even_lem even ]
