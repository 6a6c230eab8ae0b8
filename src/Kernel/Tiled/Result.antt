-- ===== src/Kernel/Tiled/Result.antt =====
-- The result of `CcuTiledPartialReduceKernel`: each cell of the chunk is the combination of the
-- contributions by the reduction tree.
use hccl_reduce_scatter.Prelude.{
  ℕ, suc, ◌+◌, ◌-◌, ◌*◌, ◌<◌, ◌≡◌, refl, ◌∙◌, sym, ap, true, [], ◌++◌, arith, inl, inr, Bool-cases,
  ltb, ltb→lt, if◌then◌else◌, add64, add64_small, word64,
}
use hccl_reduce_scatter.Ccu.{Inputs}
use hccl_reduce_scatter.Ccu.Device.{Device, IsLawful, Run, perform_all, flights}
use hccl_reduce_scatter.Ccu.Race.{Run-eq}
use hccl_reduce_scatter.Ccu.Program.{flights_after_control}
use hccl_reduce_scatter.Kernel.Args.{CcuTiledPartialReduceKernelArg, channel_at}
use hccl_reduce_scatter.Kernel.Common.{remote_addr_id}
use hccl_reduce_scatter.Kernel.Common.Laws.{exchange-IsControl}
use hccl_reduce_scatter.Kernel.Tree.Values.{tree_value, tree_value-eq}
use hccl_reduce_scatter.Kernel.Tiled.{tiled_calls, tiled_output, tiled_input, tiled_offset}
use hccl_reduce_scatter.Kernel.Tiled.Fetch.{remote_source}
use hccl_reduce_scatter.Kernel.Tiled.Places.{
  IsPlaced, tile, count, slot_output, own_addr, own_chunk, chunk_bytes, tile_bounds, cell_tile,
}
use hccl_reduce_scatter.Kernel.Tiled.Leaves.{starts, waiting, tiles_from, tiled_calls_tiles}
use hccl_reduce_scatter.Kernel.Tiled.Values.{HasOwn, pulled, source_at}
use hccl_reduce_scatter.Kernel.Tiled.Outputs.{result, pipeline_output}
use hccl_reduce_scatter.Kernel.Tiled.Races.{tiled_calls-IsRaceFree}
use hccl_reduce_scatter.Kernel.Tiled.Remotes.{tiled_remotes_at}

module _ {V : Type 0} (D : Device V) (k : CcuTiledPartialReduceKernelArg) (i : Inputs) where
  -- What the kernel finds behind its channels: the memory of each source, and the address that
  -- this source has written there, which is in the address space.
  pub record IsWired (memory : ℕ → ℕ → V) (input_addr : ℕ → ℕ) (full : ℕ) : Type 0 where
    pub source_memory :
        (c a : ℕ)
        → c < k.base.channel_count
        → D.remote (channel_at k.base c) a ≡ memory (remote_source k i c) a
    pub source_addr :
        (c : ℕ)
        → c < k.base.channel_count
        → i.res_by_channel (channel_at k.base c) remote_addr_id ≡ input_addr (remote_source k i c)
    pub source_space :
        (c : ℕ)
        → c < k.base.channel_count
        → input_addr (remote_source k i c) + tiled_offset k i + chunk_bytes k i full < word64

  -- The source at a leaf: those behind the channels in their order, then the own one.
  abbrev pub source_order : ℕ → ℕ
  source_order p = if ltb p k.base.channel_count then remote_source k i p else k.local_source_index

  abbrev pub share : (ℕ → ℕ → V) → (ℕ → ℕ) → ℕ → ℕ → V
  share memory input_addr j r = memory r (input_addr r + tiled_offset k i + j)

  module _ (lawful : IsLawful D) {full : ℕ} (placed : IsPlaced k i full) {memory : ℕ → ℕ → V}
      {input_addr : ℕ → ℕ} (wired : IsWired memory input_addr full) where
    pulled-share :
        (t c x : ℕ)
        → t < count k i placed
        → c < k.base.channel_count
        → pulled k i placed D lawful t c x
          ≡ share memory input_addr ((tile k i placed t).offset + x) (remote_source k i c)
    pulled-share t c x h below =
        let bounds = tile_bounds k i placed t h in
        let space = wired.source_space c below in
        let r = remote_source k i c in
        wired.source_memory c ((source_at k i placed D lawful t c).addr + x) below
        ∙ ap (λ a. memory r (add64 (add64 a (tiled_offset k i)) (tile k i placed t).offset + x))
            (tiled_remotes_at k i placed.channeled c below ∙ wired.source_addr c below)
        ∙ ap (λ a. memory r (add64 a (tile k i placed t).offset + x))
            (add64_small (input_addr r) (tiled_offset k i) (omega arith))
        ∙ ap (λ a. memory r (a + x))
            (add64_small (input_addr r + tiled_offset k i) (tile k i placed t).offset (omega arith))
        ∙ ap (memory r) (omega arith)

    -- The combination of all contributions to a cell by the reduction tree.
    abbrev pub tiled_reduction : ℕ → V
    tiled_reduction j =
        tree_value (D.combine k.data_type k.reduce_op) k.source_count k.source_count
          (λ p. share memory input_addr j (source_order p))

    abbrev own_value : ℕ → ℕ → V
    own_value t x = share memory input_addr ((tile k i placed t).offset + x) k.local_source_index

    abbrev IsOwnThere : (ℕ → V) → Type 0
    IsOwnThere m =
        k.include_local_source ≡ true
        → (j : ℕ) → j < chunk_bytes k i full
        → m (own_chunk k i + j) ≡ share memory input_addr j k.local_source_index

    module _ (m : ℕ → V) (own_there : IsOwnThere m) where
      own_in_place : HasOwn k i placed D lawful own_value m
      own_in_place included s x hs within =
          let bounds = tile_bounds k i placed s hs in
          let assoc : own_chunk k i + (tile k i placed s).offset + x
              ≡ own_chunk k i + ((tile k i placed s).offset + x) =
            omega arith in
          ap (λ a. m (a + x)) (own_addr k i placed s included hs)
          ∙ ap m assoc
          ∙ own_there included ((tile k i placed s).offset + x) (omega arith)

      tile_result :
          (s x : ℕ)
          → s < count k i placed
          → result k i placed D lawful own_value s x
            ≡ tiled_reduction ((tile k i placed s).offset + x)
      tile_result s x hs =
          let each = placed.channeled.one_channel_each in
          let some = placed.some_channel in
          tree_value-eq (D.combine k.data_type k.reduce_op) k.source_count k.source_count _ _
            (omega arith)
            (λ p below. elim (Bool-cases (ltb p k.base.channel_count)) [
              | inl remote ↦
                  rw remote (pulled-share s p x hs (ltb→lt p k.base.channel_count remote))
              | inr own ↦ rw own refl
            ])

      output_cell :
          (r s x : ℕ)
          → suc r ≡ count k i placed
          → s < count k i placed
          → x < (tile k i placed s).bytes
          → perform_all D
              (flights (tiled_calls k i))
              m
              ((tiled_output k i).addr + ((tile k i placed s).offset + x))
            ≡ tiled_reduction ((tile k i placed s).offset + x)
      output_cell r s x h hs within =
          let behind = starts k i placed 0 ++ waiting k i placed (tiles_from k i placed 0 r) in
          let cell : (tiled_output k i).addr + ((tile k i placed s).offset + x)
              ≡ (tiled_output k i).addr + (tile k i placed s).offset + x =
            omega arith in
          ap (perform_all D (flights (tiled_calls k i)) m) cell
          ∙ ap
              (λ cs.
                perform_all D (flights cs) m
                  ((tiled_output k i).addr + (tile k i placed s).offset + x))
              (tiled_calls_tiles k i placed r h)
          ∙ ap (λ fs. perform_all D fs m ((tiled_output k i).addr + (tile k i placed s).offset + x))
              (flights_after_control _ behind (
                exchange-IsControl k.base _ (tiled_input k i) (10 + 2 * k.source_count)
                  k.source_count))
          ∙ ap (λ a. perform_all D (flights behind) m (a + x)) (sym (slot_output k i placed s hs))
          ∙ pipeline_output k i placed D lawful own_value r s x m h hs within own_in_place
          ∙ tile_result s x hs

      -- On a lawful device, for a chunk that the launch arguments cut into tiles, with the output,
      -- the own contribution and the scratch slots in ranges of their own, and with a source behind
      -- each channel: however the transfers of the kernel land in a run, each cell of the output is
      -- then the combination of the contributions of all sources by the reduction tree.
      pub tiled_calls-reduces :
          {m' : ℕ → V}
          → Run D (tiled_calls k i) m [] m'
          → (j : ℕ) → j < chunk_bytes k i full
          → m' ((tiled_output k i).addr + j) ≡ tiled_reduction j
      tiled_calls-reduces run j h =
          let (s, x, hs, within, here) = cell_tile k i placed j h in
          let r = count k i placed - 1 in
          let whole : suc r ≡ count k i placed = omega arith in
          ap (λ f. f ((tiled_output k i).addr + j))
            (Run-eq D (tiled_calls-IsRaceFree k i placed D lawful r whole) run)
          ∙ ap (λ n. perform_all D (flights (tiled_calls k i)) m ((tiled_output k i).addr + n))
              (sym here)
          ∙ output_cell r s x whole hs within
          ∙ ap tiled_reduction here
