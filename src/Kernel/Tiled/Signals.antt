-- ===== src/Kernel/Tiled/Signals.antt =====
-- `CcuTiledPartialReduceKernel` does not hang at an `EventWait`.
use mathlib.Core.Path.{subst}
use hccl_reduce_scatter.Prelude.{
  ℕ, zero, suc, ◌+◌, ◌*◌, ◌≡◌, refl, sym, false, List, [], ◌++◌, arith, inl, inr, Bool-cases, ◌==◌,
  range_from, low_mask16, All, All-map_range,
}
use hccl_reduce_scatter.Ccu.{Flight, Call, Inputs, Mask, bits}
use hccl_reduce_scatter.Ccu.Race.Waits.{
  IsSignalled, AllSignalled, AllSignalled-after_control, AllSignalled-starts, AllSignalled-batch,
  low_mask-IsSignalled, AllSignalled-wait,
}
use hccl_reduce_scatter.Kernel.Args.{CcuTiledPartialReduceKernelArg}
use hccl_reduce_scatter.Kernel.Common.Laws.{exchange-IsControl}
use hccl_reduce_scatter.Kernel.Tree.Signals.{rounds-AllSignalled}
use hccl_reduce_scatter.Kernel.Tiled.{tiled_calls, tiled_input, reduce_tiled_partial}
use hccl_reduce_scatter.Kernel.Tiled.Fetch.{pull_of}
use hccl_reduce_scatter.Kernel.Tiled.Pipeline.Tiles.{entry_at}
use hccl_reduce_scatter.Kernel.Tiled.Places.{IsPlaced, tile, count}
use hccl_reduce_scatter.Kernel.Tiled.Leaves.{
  channels, work, bytes_of, pulls, reduction, starts, waiting, tiles_from, tiles_last,
  tiles_overlapped, tiles_alone, tiled_calls_tiles,
}

module _ (k : CcuTiledPartialReduceKernelArg) (i : Inputs) {full : ℕ}
    (placed : IsPlaced k i full) where
  abbrev wait_mask : Mask
  wait_mask = bits (low_mask16 (channels k i placed))

  pulls-IsSignalled : (t : ℕ) → IsSignalled 0 wait_mask (pulls k i placed t)
  pulls-IsSignalled t =
      let each = placed.channeled.one_channel_each in
      let few = placed.few_sources in
      low_mask-IsSignalled 0 (channels k i placed) (pull_of k i (tile k i placed t)) (ground arith)
        (λ c. refl) (λ c. refl)

  reduction-AllSignalled :
      (t : ℕ) (cs : List Call) (bs : List Flight)
      → All (λ g. (1 == g.event) ≡ false) bs
      → AllSignalled cs bs
      → AllSignalled (reduction k i placed t ++ cs) bs
  unfolding reduce_tiled_partial
  reduction-AllSignalled t cs bs others behind =
      rounds-AllSignalled (work k i placed t) (bytes_of k i placed t) k.data_type k.reduce_op 1 cs
        bs others behind k.source_count k.source_count placed.few_sources

  fetch-AllSignalled :
      (t : ℕ) (cs : List Call)
      → AllSignalled cs []
      → AllSignalled (starts k i placed t ++ waiting k i placed cs) []
  fetch-AllSignalled t cs behind =
      AllSignalled-batch (pull_of k i (tile k i placed t)) (range_from 0 (channels k i placed)) 0
        wait_mask cs [] (pulls-IsSignalled t) tt behind

  tiles-AllSignalled : (t r : ℕ) → AllSignalled (tiles_from k i placed t r) []
  tiles-AllSignalled t zero =
      subst (λ l. AllSignalled l []) (tiles_last k i placed t)
        (reduction-AllSignalled t [] [] tt tt)
  tiles-AllSignalled t (suc r) =
      let behind = tiles-AllSignalled (t + 1) r in
      elim (Bool-cases (entry_at k i full (t + 1)).is_overlapped) [
        | inl flag ↦
            subst (λ l. AllSignalled l []) (sym (tiles_overlapped k i placed t r flag))
              (AllSignalled-starts (pull_of k i (tile k i placed (t + 1)))
                (range_from 0 (channels k i placed))
                (reduction k i placed t ++ waiting k i placed (tiles_from k i placed (t + 1) r)) []
                (reduction-AllSignalled t (waiting k i placed (tiles_from k i placed (t + 1) r))
                  (pulls k i placed (t + 1))
                  (All-map_range (λ g. (1 == g.event) ≡ false)
                    (pull_of k i (tile k i placed (t + 1))) 0 (channels k i placed)
                    (λ c lo hi. refl))
                  (AllSignalled-wait 0 wait_mask (tiles_from k i placed (t + 1) r)
                    (pulls k i placed (t + 1)) (pulls-IsSignalled (t + 1)) behind)))
        | inr flag ↦
            subst (λ l. AllSignalled l []) (sym (tiles_alone k i placed t r flag))
              (reduction-AllSignalled t
                (starts k i placed (t + 1) ++ waiting k i placed (tiles_from k i placed (t + 1) r))
                [] tt (fetch-AllSignalled (t + 1) (tiles_from k i placed (t + 1) r) behind))
      ]

  -- For a chunk cut into at least one tile, with places for the tiles and at most 16 sources, every
  -- `EventWait` of the tiled kernel is for bits that transfers started in front of it, and not
  -- taken by an earlier wait, signal.
  pub tiled_calls-AllSignalled :
      (r : ℕ) → suc r ≡ count k i placed → AllSignalled (tiled_calls k i) []
  tiled_calls-AllSignalled r h =
      subst (λ l. AllSignalled l []) (sym (tiled_calls_tiles k i placed r h))
        (AllSignalled-after_control _ _ []
          (exchange-IsControl k.base _ (tiled_input k i) (10 + 2 * k.source_count) k.source_count)
          (fetch-AllSignalled 0 (tiles_from k i placed 0 r) (tiles-AllSignalled 0 r)))
