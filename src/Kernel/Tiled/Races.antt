-- ===== src/Kernel/Tiled/Races.antt =====
-- `CcuTiledPartialReduceKernel` has no race, though a tile is fetched while another is reduced.
use mathlib.Core.Path.{subst}
use hccl_reduce_scatter.Prelude.{
  ℕ, zero, suc, ◌+◌, ◌*◌, ◌<◌, ◌≡◌, ◌≢◌, refl, sym, true, List, [], ◌++◌, arith, inl, inr,
  Bool-cases, range_from, low_mask16, All, All-map_range,
}
use hccl_reduce_scatter.Ccu.{Mask, Flight, Call, Inputs, bits}
use hccl_reduce_scatter.Ccu.Device.{Device, IsLawful, is_awaited}
use hccl_reduce_scatter.Ccu.Race.{IsRaceFree, AllCommute, Commutes, unawaited}
use hccl_reduce_scatter.Ccu.Disjoint.{Spares-Commutes}
use hccl_reduce_scatter.Ccu.Batch.{IsRaceFree-batch, AllCommute-range}
use hccl_reduce_scatter.Ccu.Overlap.{unawaited-append, IsRaceFree-starts}
use hccl_reduce_scatter.Ccu.Program.{IsRaceFree-after_control}
use hccl_reduce_scatter.Kernel.Args.{CcuTiledPartialReduceKernelArg}
use hccl_reduce_scatter.Kernel.Common.Laws.{exchange-IsControl}
use hccl_reduce_scatter.Kernel.Tree.Waits.{reduce_piece, awaited_bit}
use hccl_reduce_scatter.Kernel.Tree.Rounds.{rounds-IsRaceFree_beside}
use hccl_reduce_scatter.Kernel.Tiled.{tiled_calls, tiled_input, reduce_tiled_partial}
use hccl_reduce_scatter.Kernel.Tiled.Fetch.{pull_of, slot_of}
use hccl_reduce_scatter.Kernel.Tiled.Pipeline.Tiles.{entry_at}
use hccl_reduce_scatter.Kernel.Tiled.Places.{Apart, IsPlaced, tile, count, slot_addr, lands-Apart}
use hccl_reduce_scatter.Kernel.Tiled.Leaves.{
  Apart-inside, Apart-inside_back, channels, work, leaf_at, bytes_of, leaf-Apart, tile-LeavesApart,
  overlap-banks, pulls, reduction, starts, waiting, tiles_last, tiles_overlapped, tiles_alone,
  tiled_calls_tiles, tiles_from,
}

module _ (k : CcuTiledPartialReduceKernelArg) (i : Inputs) {full : ℕ} (placed : IsPlaced k i full)
    {V : Type 0} (D : Device V) (lawful : IsLawful D) where
  AllCommute-pulls : (t : ℕ) → t < count k i placed → AllCommute D (pulls k i placed t)
  AllCommute-pulls t h =
      AllCommute-range D (pull_of k i (tile k i placed t)) 0 (channels k i placed) (λ s c lo lt hi.
        Spares-Commutes D lawful (pull_of k i (tile k i placed t) s)
          (pull_of k i (tile k i placed t) c)
          (
            λ a.
                Apart-inside (slot_of k i (tile k i placed t) s) (slot_of k i (tile k i placed t) c)
                  (bytes_of k i placed t) (bytes_of k i placed t) a
                  (lands-Apart k i placed t t s c h h (omega arith) (omega arith)
                    (inl (omega arith))),
            λ a l. refl,
          )
          (
            λ a.
                Apart-inside_back (slot_of k i (tile k i placed t) s)
                  (slot_of k i (tile k i placed t) c) (bytes_of k i placed t)
                  (bytes_of k i placed t) a
                  (lands-Apart k i placed t t s c h h (omega arith) (omega arith)
                    (inl (omega arith))),
            λ a l. refl,
          ))

  pulls-awaited :
      (t : ℕ)
      → All
          (λ g. is_awaited 0 (bits (low_mask16 (channels k i placed))) g ≡ true)
          (pulls k i placed t)
  pulls-awaited t =
      let each = placed.channeled.one_channel_each in
      let few = placed.few_sources in
      All-map_range (λ g. is_awaited 0 (bits (low_mask16 (channels k i placed))) g ≡ true)
        (pull_of k i (tile k i placed t)) 0 (channels k i placed)
        (λ c lo hi.
          awaited_bit 0 (channels k i placed) c (pull_of k i (tile k i placed t) c) refl refl
            (omega arith) (omega arith))

  abbrev piece : ℕ → ℕ → ℕ → Flight
  piece t base p =
      reduce_piece (work k i placed t) (bytes_of k i placed t) k.data_type k.reduce_op 1 base p

  -- A pull for the next tile beside a reduction of this one.
  pull_beside :
      (t c base p : ℕ)
      → t + 1 < count k i placed
      → (tile k i placed t).bank ≢ (tile k i placed (t + 1)).bank
      → c < (channels k i placed)
      → p < base
      → base + p < k.source_count
      → Commutes D (pull_of k i (tile k i placed (t + 1)) c) (piece t base p)
  pull_beside t c base p h banks hc lo hi =
      let apart : (q : ℕ)
          → q < k.source_count
          → Apart (slot_addr k i placed (t + 1) c) (bytes_of k i placed (t + 1))
              (leaf_at k i placed t q).addr (bytes_of k i placed t) =
        (λ q hq.
          leaf-Apart k i placed (t + 1) t c q h (omega arith) hc hq
            (inr (omega arith, inr (λ e. banks (sym e))))) in
      Spares-Commutes D lawful (pull_of k i (tile k i placed (t + 1)) c) (piece t base p)
        (
          λ a.
              Apart-inside (slot_of k i (tile k i placed (t + 1)) c) (leaf_at k i placed t p)
                (bytes_of k i placed (t + 1)) (bytes_of k i placed t) a (apart p (omega arith)),
          λ a.
              Apart-inside (slot_of k i (tile k i placed (t + 1)) c)
                (leaf_at k i placed t (base + p)) (bytes_of k i placed (t + 1))
                (bytes_of k i placed t) a (apart (base + p) hi),
        )
        (
          λ a.
              Apart-inside_back (slot_of k i (tile k i placed (t + 1)) c) (leaf_at k i placed t p)
                (bytes_of k i placed (t + 1)) (bytes_of k i placed t) a (apart p (omega arith)),
          λ a l. refl,
        )

  abbrev wait_mask : Mask
  wait_mask = bits (low_mask16 (channels k i placed))

  all_awaited : (t : ℕ) → unawaited 0 wait_mask (pulls k i placed t) ≡ []
  all_awaited t = unawaited-append 0 wait_mask [] (pulls k i placed t) tt (pulls-awaited t)

  -- A reduction beside the pulls of the next tile.
  reduction-IsRaceFree_overlapped :
      (t : ℕ) (cs : List Call)
      → t + 1 < count k i placed
      → (tile k i placed t).bank ≢ (tile k i placed (t + 1)).bank
      → IsRaceFree D cs (pulls k i placed (t + 1))
      → IsRaceFree D (reduction k i placed t ++ cs) (pulls k i placed (t + 1))
  unfolding reduce_tiled_partial
  reduction-IsRaceFree_overlapped t cs h banks r =
      rounds-IsRaceFree_beside D lawful (work k i placed t) (bytes_of k i placed t) k.data_type
        k.reduce_op 1 k.source_count k.source_count cs (pulls k i placed (t + 1)) placed.few_sources
        (tile-LeavesApart k i placed t (omega arith)) (AllCommute-pulls (t + 1) h)
        (All-map_range (λ b. 1 ≢ b.event) (pull_of k i (tile k i placed (t + 1))) 0
          (channels k i placed) (λ c lo hi e. cc e))
        (λ base p some lo hi.
          All-map_range (λ b. Commutes D b (piece t base p)) (pull_of k i (tile k i placed (t + 1)))
            0 (channels k i placed)
            (λ c lo' hi'. pull_beside t c base p h banks (omega arith) lo hi))
        r

  reduction-IsRaceFree :
      (t : ℕ) (cs : List Call)
      → t < count k i placed
      → IsRaceFree D cs []
      → IsRaceFree D (reduction k i placed t ++ cs) []
  unfolding reduce_tiled_partial
  reduction-IsRaceFree t cs h r =
      rounds-IsRaceFree_beside D lawful (work k i placed t) (bytes_of k i placed t) k.data_type
        k.reduce_op 1 k.source_count k.source_count cs [] placed.few_sources
        (tile-LeavesApart k i placed t h) tt tt (λ base p some lo hi. tt) r

  fetch-IsRaceFree :
      (t : ℕ) (cs : List Call)
      → t < count k i placed
      → IsRaceFree D cs []
      → IsRaceFree D (starts k i placed t ++ waiting k i placed cs) []
  fetch-IsRaceFree t cs h r =
      IsRaceFree-batch D (pull_of k i (tile k i placed t)) (range_from 0 (channels k i placed)) 0
        wait_mask cs [] (AllCommute-pulls t h) (pulls-awaited t) r

  tiles-IsRaceFree :
      (t r : ℕ) → t + 1 + r ≡ count k i placed → IsRaceFree D (tiles_from k i placed t r) []
  tiles-IsRaceFree t zero h =
      subst (λ l. IsRaceFree D l []) (tiles_last k i placed t)
        (reduction-IsRaceFree t [] (omega arith) refl)
  tiles-IsRaceFree t (suc r) h =
      let behind = tiles-IsRaceFree (t + 1) r (omega arith) in
      elim (Bool-cases (entry_at k i full (t + 1)).is_overlapped) [
        | inl flag ↦
            subst (λ l. IsRaceFree D l []) (sym (tiles_overlapped k i placed t r flag))
              (IsRaceFree-starts D (pull_of k i (tile k i placed (t + 1)))
                (range_from 0 (channels k i placed))
                (reduction k i placed t ++ waiting k i placed (tiles_from k i placed (t + 1) r)) []
                (AllCommute-pulls (t + 1) (omega arith))
                (reduction-IsRaceFree_overlapped t
                  (waiting k i placed (tiles_from k i placed (t + 1) r)) (omega arith)
                  (overlap-banks k i placed t (omega arith) flag)
                  (subst (IsRaceFree D (tiles_from k i placed (t + 1) r))
                    (sym (all_awaited (t + 1))) behind)))
        | inr flag ↦
            subst (λ l. IsRaceFree D l []) (sym (tiles_alone k i placed t r flag))
              (reduction-IsRaceFree t
                (starts k i placed (t + 1) ++ waiting k i placed (tiles_from k i placed (t + 1) r))
                (omega arith)
                (fetch-IsRaceFree (t + 1) (tiles_from k i placed (t + 1) r) (omega arith) behind))
      ]

  -- For a chunk cut into at least one tile, with the output, the own contribution and the scratch
  -- slots of both banks in ranges of their own, each transfer that the kernel starts commutes with
  -- those that may still be in flight, and none is in flight at its end.
  pub tiled_calls-IsRaceFree :
      (r : ℕ) → suc r ≡ count k i placed → IsRaceFree D (tiled_calls k i) []
  tiled_calls-IsRaceFree r h =
      subst (λ l. IsRaceFree D l []) (sym (tiled_calls_tiles k i placed r h))
        (IsRaceFree-after_control D _ _ []
          (exchange-IsControl k.base _ (tiled_input k i) (10 + 2 * k.source_count) k.source_count)
          (fetch-IsRaceFree 0 (tiles_from k i placed 0 r) (omega arith)
            (tiles-IsRaceFree 0 r (omega arith))))
