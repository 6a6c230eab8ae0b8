-- ===== src/Kernel/Tiled/Outputs.antt =====
-- What the pipeline over the tiles leaves in the output.
use mathlib.Core.Path.{subst}
use hccl_reduce_scatter.Prelude.{
  ℕ, zero, suc, ◌+◌, ◌≤◌, ◌<◌, ◌≡◌, ◌∙◌, sym, ap, true, false, List, ◌++◌, arith, inl, inr,
  Bool-cases, ◌==◌, ==_iff, range_from, append-nil,
}
use hccl_reduce_scatter.Ccu.{Call, Inputs}
use hccl_reduce_scatter.Ccu.Device.{Device, IsLawful, perform_all, flights}
use hccl_reduce_scatter.Ccu.Program.{flights-append, perform_all_append}
use hccl_reduce_scatter.Kernel.Args.{CcuTiledPartialReduceKernelArg}
use hccl_reduce_scatter.Kernel.Tree.Values.{tree_value-eq}
use hccl_reduce_scatter.Kernel.Tiled.Fetch.{pull_of}
use hccl_reduce_scatter.Kernel.Tiled.Pipeline.Tiles.{entry_at}
use hccl_reduce_scatter.Kernel.Tiled.Places.{IsPlaced, tile, count, slot_addr}
use hccl_reduce_scatter.Kernel.Tiled.Leaves.{
  channels, leaf_at, bytes_of, overlap-banks, pulls, reduction, starts, waiting, tiles_from,
  tiles_last, tiles_overlapped, tiles_alone,
}
use hccl_reduce_scatter.Kernel.Tiled.Values.{
  flights_starts, after_fetch, after_reduction, fetch_slot, fetch_frame, reduction_frame,
  reduction_value, reduced, output-IsKept, leaf-IsKept, slot-IsKept, contribution, HasOwn, IsReady,
  IsReady_lem, HasOwn-fetch, HasOwn-reduction,
}

module _ (k : CcuTiledPartialReduceKernelArg) (i : Inputs) {full : ℕ} (placed : IsPlaced k i full)
    {V : Type 0} (D : Device V) (lawful : IsLawful D) where
  overlapped_effect :
      (t r : ℕ) (m : ℕ → V)
      → (entry_at k i full (t + 1)).is_overlapped ≡ true
      → perform_all D (flights (tiles_from k i placed t (suc r))) m
        ≡ perform_all D
            (flights (tiles_from k i placed (t + 1) r))
            (after_reduction k i placed D lawful t (after_fetch k i placed D lawful (t + 1) m))
  overlapped_effect t r m flag =
      let rest = tiles_from k i placed (t + 1) r in
      ap (λ cs. perform_all D (flights cs) m) (tiles_overlapped k i placed t r flag)
      ∙ ap (λ fs. perform_all D fs m)
          (flights-append (starts k i placed (t + 1))
              (reduction k i placed t ++ waiting k i placed rest)
            ∙ ap (λ fs. fs ++ flights (reduction k i placed t ++ waiting k i placed rest))
                (flights_starts (pull_of k i (tile k i placed (t + 1)))
                  (range_from 0 (channels k i placed)))
            ∙ ap (λ fs. pulls k i placed (t + 1) ++ fs)
                (flights-append (reduction k i placed t) (waiting k i placed rest)))
      ∙ perform_all_append D (pulls k i placed (t + 1))
          (flights (reduction k i placed t) ++ flights rest) m
      ∙ perform_all_append D (flights (reduction k i placed t)) (flights rest)
          (after_fetch k i placed D lawful (t + 1) m)

  fetch_effect :
      (t : ℕ) (cs : List Call) (m : ℕ → V)
      → perform_all D (flights (starts k i placed t ++ waiting k i placed cs)) m
        ≡ perform_all D (flights cs) (after_fetch k i placed D lawful t m)
  fetch_effect t cs m =
      ap (λ fs. perform_all D fs m)
        (flights-append (starts k i placed t) (waiting k i placed cs)
          ∙ ap (λ fs. fs ++ flights cs)
              (flights_starts (pull_of k i (tile k i placed t))
                (range_from 0 (channels k i placed))))
      ∙ perform_all_append D (pulls k i placed t) (flights cs) m

  alone_effect :
      (t r : ℕ) (m : ℕ → V)
      → (entry_at k i full (t + 1)).is_overlapped ≡ false
      → perform_all D (flights (tiles_from k i placed t (suc r))) m
        ≡ perform_all D
            (flights (tiles_from k i placed (t + 1) r))
            (after_fetch k i placed D lawful (t + 1) (after_reduction k i placed D lawful t m))
  alone_effect t r m flag =
      let behind =
        starts k i placed (t + 1) ++ waiting k i placed (tiles_from k i placed (t + 1) r) in
      ap (λ cs. perform_all D (flights cs) m) (tiles_alone k i placed t r flag)
      ∙ ap (λ fs. perform_all D fs m) (flights-append (reduction k i placed t) behind)
      ∙ perform_all_append D (flights (reduction k i placed t)) (flights behind) m
      ∙ fetch_effect (t + 1) (tiles_from k i placed (t + 1) r)
          (after_reduction k i placed D lawful t m)

  module _ (own : ℕ → ℕ → V) where
    abbrev pub result : ℕ → ℕ → V
    result s x =
        reduced k i placed D lawful k.source_count (contribution k i placed D lawful own s x)

    -- What is true between a tile and the next: the tile is done, and the next is ready.
    record IsStepped (t : ℕ) (m : ℕ → V) : Type 0 where
      done : (x : ℕ) → x < bytes_of k i placed t → m (slot_addr k i placed t 0 + x) ≡ result t x
      ready : IsReady k i placed D lawful own (t + 1) m
      has_own : HasOwn k i placed D lawful own m

    tile_done :
        (t x : ℕ) (m : ℕ → V)
        → t < count k i placed
        → IsReady k i placed D lawful own t m
        → x < bytes_of k i placed t
        → after_reduction k i placed D lawful t m (slot_addr k i placed t 0 + x) ≡ result t x
    tile_done t x m h ready within =
        let each = placed.channeled.one_channel_each in
        let some = placed.some_channel in
        reduction_value k i placed D lawful t x m h within
        ∙ tree_value-eq (D.combine k.data_type k.reduce_op) k.source_count k.source_count _ _
            (omega arith) (λ p below. ready p x below within)

    overlapped-IsStepped :
        (t : ℕ) (m : ℕ → V)
        → t + 1 < count k i placed
        → (entry_at k i full (t + 1)).is_overlapped ≡ true
        → IsReady k i placed D lawful own t m
        → HasOwn k i placed D lawful own m
        → IsStepped t
            (after_reduction k i placed D lawful t (after_fetch k i placed D lawful (t + 1) m))
    overlapped-IsStepped t m h flag ready has =
        let m1 = after_fetch k i placed D lawful (t + 1) m in
        let banks = overlap-banks k i placed t h flag in
        let has1 = HasOwn-fetch k i placed D lawful own (t + 1) m h has in
        let has2 = HasOwn-reduction k i placed D lawful own t m1 (omega arith) has1 in
        record {
          done = λ x within.
              tile_done t x m1 (omega arith)
                (λ p y below inner.
                  fetch_frame k i placed D lawful (t + 1) ((leaf_at k i placed t p).addr + y) m (
                    leaf-IsKept k i placed D lawful t (t + 1) p y (omega arith) h
                      (λ e. banks (sym e)) below inner)
                  ∙ ready p y below inner)
                within;
          ready =
              IsReady_lem k i placed D lawful own (t + 1) (after_reduction k i placed D lawful t m1)
                h has2
                (λ c x below within.
                  reduction_frame k i placed D lawful t (slot_addr k i placed (t + 1) c + x) m1 (
                    slot-IsKept k i placed D lawful (t + 1) t c x h (omega arith) banks below
                      within)
                  ∙ fetch_slot k i placed D lawful (t + 1) c x m h below within);
          has_own = has2;
        }

    alone-IsStepped :
        (t : ℕ) (m : ℕ → V)
        → t + 1 < count k i placed
        → IsReady k i placed D lawful own t m
        → HasOwn k i placed D lawful own m
        → IsStepped t
            (after_fetch k i placed D lawful (t + 1) (after_reduction k i placed D lawful t m))
    alone-IsStepped t m h ready has =
        let m1 = after_reduction k i placed D lawful t m in
        let has1 = HasOwn-reduction k i placed D lawful own t m (omega arith) has in
        let has2 = HasOwn-fetch k i placed D lawful own (t + 1) m1 h has1 in
        record {
          done = λ x within.
              fetch_frame k i placed D lawful (t + 1) (slot_addr k i placed t 0 + x) m1
                (output-IsKept k i placed D lawful t (t + 1) x (omega arith) h (omega arith) within)
              ∙ tile_done t x m (omega arith) ready within;
          ready =
              IsReady_lem k i placed D lawful own (t + 1)
                (after_fetch k i placed D lawful (t + 1) m1) h has2
                (λ c x below within. fetch_slot k i placed D lawful (t + 1) c x m1 h below within);
          has_own = has2;
        }

    -- The tiles behind a tile keep its output.
    tiles_keep :
        (t r s x : ℕ) (m : ℕ → V)
        → t + 1 + r ≡ count k i placed
        → s < t
        → x < bytes_of k i placed s
        → perform_all D (flights (tiles_from k i placed t r)) m (slot_addr k i placed s 0 + x)
          ≡ m (slot_addr k i placed s 0 + x)
    tiles_keep t zero s x m h before within =
        ap (λ cs. perform_all D (flights cs) m (slot_addr k i placed s 0 + x))
          (sym (tiles_last k i placed t) ∙ append-nil (reduction k i placed t))
        ∙ reduction_frame k i placed D lawful t (slot_addr k i placed s 0 + x) m (
            output-IsKept k i placed D lawful s t x (omega arith) (omega arith) (omega arith)
              within)
    tiles_keep t (suc r) s x m h before within =
        let cell = slot_addr k i placed s 0 + x in
        let by_reduction : (m : ℕ → V) → after_reduction k i placed D lawful t m cell ≡ m cell =
          (λ m. reduction_frame k i placed D lawful t cell m (
            output-IsKept k i placed D lawful s t x (omega arith) (omega arith) (omega arith)
              within)) in
        let by_fetch : (m : ℕ → V) → after_fetch k i placed D lawful (t + 1) m cell ≡ m cell = (λ m.
          fetch_frame k i placed D lawful (t + 1) cell m (
            output-IsKept k i placed D lawful s (t + 1) x (omega arith) (omega arith) (omega arith)
              within)) in
        elim (Bool-cases (entry_at k i full (t + 1)).is_overlapped) [
          | inl flag ↦
              ap (λ f. f cell) (overlapped_effect t r m flag)
              ∙ tiles_keep (t + 1) r s x _ (omega arith) (omega arith) within
              ∙ by_reduction _
              ∙ by_fetch m
          | inr flag ↦
              ap (λ f. f cell) (alone_effect t r m flag)
              ∙ tiles_keep (t + 1) r s x _ (omega arith) (omega arith) within
              ∙ by_fetch _
              ∙ by_reduction m
        ]

    -- The output of a tile, or of one behind it.
    tile_or_behind :
        (t r s x : ℕ) (m : ℕ → V)
        → t + 1 + suc r ≡ count k i placed
        → t ≤ s
        → x < bytes_of k i placed s
        → IsStepped t m
        → (t + 1 ≤ s
            → perform_all D
                (flights (tiles_from k i placed (t + 1) r))
                m
                (slot_addr k i placed s 0 + x)
              ≡ result s x)
        → perform_all D (flights (tiles_from k i placed (t + 1) r)) m (slot_addr k i placed s 0 + x)
          ≡ result s x
    tile_or_behind t r s x m h lo within stepped behind = elim (Bool-cases (t == s)) [
      | inl same ↦
          let here = (==_iff t s).0 same in
          subst
            (λ n.
              x < bytes_of k i placed n
              → perform_all D (flights (tiles_from k i placed (t + 1) r)) m
                  (slot_addr k i placed n 0 + x)
                ≡ result n x)
            here
            (λ inner.
              tiles_keep (t + 1) r t x m (omega arith) (omega arith) inner ∙ stepped.done x inner)
            within
      | inr away ↦ behind (ground arith)
    ]

    tiles_output :
        (t r s x : ℕ) (m : ℕ → V)
        → t + 1 + r ≡ count k i placed
        → t ≤ s
        → s < count k i placed
        → x < bytes_of k i placed s
        → IsReady k i placed D lawful own t m
        → HasOwn k i placed D lawful own m
        → perform_all D (flights (tiles_from k i placed t r)) m (slot_addr k i placed s 0 + x)
          ≡ result s x
    tiles_output t zero s x m h lo hi within ready has =
        let here : t ≡ s = omega arith in
        ap (λ cs. perform_all D (flights cs) m (slot_addr k i placed s 0 + x))
          (sym (tiles_last k i placed t) ∙ append-nil (reduction k i placed t))
        ∙ subst
            (λ n.
              x < bytes_of k i placed n
              → after_reduction k i placed D lawful t m (slot_addr k i placed n 0 + x) ≡ result n x)
            here (λ inner. tile_done t x m (omega arith) ready inner) within
    tiles_output t (suc r) s x m h lo hi within ready has =
        elim (Bool-cases (entry_at k i full (t + 1)).is_overlapped) [
          | inl flag ↦
              let m2 =
                after_reduction k i placed D lawful t (after_fetch k i placed D lawful (t + 1) m) in
              let stepped = overlapped-IsStepped t m (omega arith) flag ready has in
              ap (λ f. f (slot_addr k i placed s 0 + x)) (overlapped_effect t r m flag)
              ∙ tile_or_behind t r s x m2 h lo within stepped (λ later.
                tiles_output (t + 1) r s x m2 (omega arith) later hi within stepped.ready
                  stepped.has_own)
          | inr flag ↦
              let m2 =
                after_fetch k i placed D lawful (t + 1) (after_reduction k i placed D lawful t m) in
              let stepped = alone-IsStepped t m (omega arith) ready has in
              ap (λ f. f (slot_addr k i placed s 0 + x)) (alone_effect t r m flag)
              ∙ tile_or_behind t r s x m2 h lo within stepped (λ later.
                tiles_output (t + 1) r s x m2 (omega arith) later hi within stepped.ready
                  stepped.has_own)
        ]

    -- The output of each tile behind the exchange of addresses.
    pub pipeline_output :
        (r s x : ℕ) (m : ℕ → V)
        → suc r ≡ count k i placed
        → s < count k i placed
        → x < bytes_of k i placed s
        → HasOwn k i placed D lawful own m
        → perform_all D
            (flights (starts k i placed 0 ++ waiting k i placed (tiles_from k i placed 0 r)))
            m
            (slot_addr k i placed s 0 + x)
          ≡ result s x
    pipeline_output r s x m h hs within has =
        let has1 = HasOwn-fetch k i placed D lawful own 0 m (omega arith) has in
        ap (λ f. f (slot_addr k i placed s 0 + x)) (fetch_effect 0 (tiles_from k i placed 0 r) m)
        ∙ tiles_output 0 r s x (after_fetch k i placed D lawful 0 m) (omega arith) (omega arith) hs
            within
            (IsReady_lem k i placed D lawful own 0 (after_fetch k i placed D lawful 0 m)
              (omega arith) has1
              (λ c y below inner. fetch_slot k i placed D lawful 0 c y m (omega arith) below inner))
            has1
