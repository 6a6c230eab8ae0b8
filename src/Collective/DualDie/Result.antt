-- ===== src/Collective/DualDie/Result.antt =====
-- The result of `DUAL_DIE_PARTIAL` on a rank, however its two kernels interleave.
use hccl_reduce_scatter.Prelude.{
  ℕ, suc, ◌+◌, ◌-◌, ◌*◌, ◌<◌, ◌≡◌, sym, ◌∙◌, ap, true, List, [], arith, inl, inr, get_or, length,
}
use hccl_reduce_scatter.Ccu.Device.{Device, IsLawful, Run, perform_all, flights}
use hccl_reduce_scatter.Ccu.Race.{Run_total}
use hccl_reduce_scatter.Ccu.Race.Parallel.{RunBoth, RunBoth-eq}
use hccl_reduce_scatter.Kernel.Tiled.Places.{count, cell_tile}
use hccl_reduce_scatter.Kernel.Tiled.Races.{tiled_calls-IsRaceFree}
use hccl_reduce_scatter.Kernel.Tiled.Footprint.{Stays, Stays-Commutes, Stays-frame}
use hccl_reduce_scatter.Kernel.Tiled.Result.{IsWired, tiled_reduction, tiled_calls-reduces}
use hccl_reduce_scatter.Kernel.Merge.Result.{merge_calls-combines}
use hccl_reduce_scatter.Host.Resources.Groups.{index_of}
use hccl_reduce_scatter.Host.Exec.Context.{Task, rank_offset}
use hccl_reduce_scatter.Host.Exec.Partial.{full_tile_count, cross_partial_addr}
use hccl_reduce_scatter.Collective.Slots.{chunk_lem, offset_lem}
use hccl_reduce_scatter.Collective.DualDie.{
  local_arg, cross_arg, local_inputs, cross_inputs, chunk_at, IsTwoDies, local_laid,
}
use hccl_reduce_scatter.Collective.DualDie.Cells.{
  local_program, cross_program, merge_program, local_placed, cross_placed, LocalFills, LocalReads,
  CrossCells, apart_lem, local-Stays, cross-Stays,
}

module _ {V : Type 0} (D : Device V) (c : Task) (local_channels cross_channels : List ℕ)
    (vars : ℕ → ℕ → ℕ) where
  -- What the kernels of both dies find behind their channels: the memories of the ranks of their
  -- groups, and the addresses of their inputs.
  pub record IsDualWired (memory : ℕ → ℕ → V) (input_addr : ℕ → ℕ) : Type 0 where
    pub local_wired :
        IsWired D
          (local_arg D c local_channels cross_channels vars)
          (local_inputs D c local_channels cross_channels vars)
          (λ s. memory (get_or c.ctx.local_ranks s 0))
          (λ s. input_addr (get_or c.ctx.local_ranks s 0))
          (full_tile_count true c)
    pub cross_wired :
        IsWired D
          (cross_arg D c local_channels cross_channels vars)
          (cross_inputs D c local_channels cross_channels vars)
          (λ s. memory (get_or c.ctx.cross_peers s 0))
          (λ s. input_addr (get_or c.ctx.cross_peers s 0))
          (full_tile_count true c)
    pub own_place :
        get_or c.ctx.local_ranks (index_of c.param.my_rank c.ctx.local_ranks) 0 ≡ c.param.my_rank
    pub own_input : c.param.input_ptr ≡ input_addr c.param.my_rank

  module _ (lawful : IsLawful D) (dies : IsTwoDies D c local_channels cross_channels vars)
      (kernels : length c.ctx.ccu_kernels ≡ 3) (threads : length c.ctx.threads ≡ 2) where
    module _ {memory : ℕ → ℕ → V} {input_addr : ℕ → ℕ} (wired : IsDualWired memory input_addr)
        (m : ℕ → V) (own : (a : ℕ) → m a ≡ memory c.param.my_rank a) where
      -- The contributions of the ranks of a die to an element, combined by its tree.
      abbrev pub local_partial : ℕ → V
      local_partial =
          tiled_reduction D _ _ lawful
            (local_placed D c local_channels cross_channels vars lawful dies kernels threads)
            wired.local_wired

      abbrev pub cross_partial : ℕ → V
      cross_partial =
          tiled_reduction D _ _ lawful
            (cross_placed D c local_channels cross_channels vars lawful dies kernels threads)
            wired.cross_wired

      abbrev crossed : ℕ → V
      crossed = perform_all D (flights (cross_program D c local_channels cross_channels vars)) m

      own_kept :
          (r j : ℕ)
          → suc r
            ≡ count
                (cross_arg D c local_channels cross_channels vars)
                (cross_inputs D c local_channels cross_channels vars)
                (cross_placed D c local_channels cross_channels vars lawful dies kernels threads)
          → j < c.recv_bytes
          → crossed (chunk_at D c local_channels cross_channels vars + j)
            ≡ m (chunk_at D c local_channels cross_channels vars + j)
      own_kept r j h within =
          Stays-frame D lawful
            (CrossCells D c local_channels cross_channels vars lawful dies kernels threads)
            (CrossCells D c local_channels cross_channels vars lawful dies kernels threads)
            (flights (cross_program D c local_channels cross_channels vars)) m
            (chunk_at D c local_channels cross_channels vars + j)
            (cross-Stays D c local_channels cross_channels vars lawful dies kernels threads r h)
            (λ hit.
              apart_lem D c local_channels cross_channels vars lawful dies kernels threads
                (chunk_at D c local_channels cross_channels vars + j)
                (inr (omega arith, omega arith)) hit)

      cross_value :
          (e : ℕ) → e < c.recv_bytes → crossed (cross_partial_addr true c + e) ≡ cross_partial e
      cross_value e h =
          let chunk =
            chunk_lem true c (cross_arg D c local_channels cross_channels vars) vars 0 0 0 in
          (tiled_calls-reduces D _ _ lawful
            (cross_placed D c local_channels cross_channels vars lawful dies kernels threads)
            wired.cross_wired m (λ i j l. cc i)
            (Run_total D (cross_program D c local_channels cross_channels vars) m) e (omega arith))

      local_value :
          (r e : ℕ)
          → suc r
            ≡ count
                (cross_arg D c local_channels cross_channels vars)
                (cross_inputs D c local_channels cross_channels vars)
                (cross_placed D c local_channels cross_channels vars lawful dies kernels threads)
          → e < c.recv_bytes
          → perform_all D
              (flights (local_program D c local_channels cross_channels vars))
              crossed
              (c.param.output_ptr + e)
            ≡ local_partial e
      local_value r e whole h =
          let chunk =
            chunk_lem true c (local_arg D c local_channels cross_channels vars) vars 0 0 0 in
          let laid = local_laid D c local_channels cross_channels vars dies kernels threads in
          let offset = offset_lem true c _ vars _ _ _ laid in
          (tiled_calls-reduces D _ _ lawful
            (local_placed D c local_channels cross_channels vars lawful dies kernels threads)
            wired.local_wired crossed
            (λ i j l.
              ap (λ o. crossed (c.param.input_ptr + o + j)) offset
              ∙ own_kept r j whole (omega arith)
              ∙ own _
              ∙ ap (λ b. memory c.param.my_rank (b + c.param.my_rank * c.recv_bytes + j))
                  wired.own_input
              ∙ ap (λ o. memory c.param.my_rank (input_addr c.param.my_rank + o + j)) (sym offset)
              ∙ ap (λ r. memory r (input_addr r + rank_offset c + j)) (sym wired.own_place))
            (Run_total D (local_program D c local_channels cross_channels vars) crossed) e
            (omega arith))

      -- What the two kernels leave, however they interleave.
      both_lem :
          (r s : ℕ)
          → suc r
            ≡ count
                (local_arg D c local_channels cross_channels vars)
                (local_inputs D c local_channels cross_channels vars)
                (local_placed D c local_channels cross_channels vars lawful dies kernels threads)
          → suc s
            ≡ count
                (cross_arg D c local_channels cross_channels vars)
                (cross_inputs D c local_channels cross_channels vars)
                (cross_placed D c local_channels cross_channels vars lawful dies kernels threads)
          → {m1 : ℕ → V}
          → RunBoth D
              (local_program D c local_channels cross_channels vars)
              []
              (cross_program D c local_channels cross_channels vars)
              []
              m
              m1
          → m1
            ≡ perform_all D (flights (local_program D c local_channels cross_channels vars)) crossed
      both_lem r s h l run =
          RunBoth-eq D
            (Stays (LocalFills D c local_channels cross_channels vars lawful dies kernels threads)
              (LocalReads D c local_channels cross_channels vars lawful dies kernels threads))
            (Stays (CrossCells D c local_channels cross_channels vars lawful dies kernels threads)
              (CrossCells D c local_channels cross_channels vars lawful dies kernels threads))
            (Stays-Commutes D lawful
              (λ a x y.
                apart_lem D c local_channels cross_channels vars lawful dies kernels threads a
                  (inl x) y)
              (λ a x y.
                apart_lem D c local_channels cross_channels vars lawful dies kernels threads a
                  (inl x) y)
              (λ a x y.
                apart_lem D c local_channels cross_channels vars lawful dies kernels threads a y x))
            (local_program D c local_channels cross_channels vars)
            (cross_program D c local_channels cross_channels vars)
            (tiled_calls-IsRaceFree _ _
              (local_placed D c local_channels cross_channels vars lawful dies kernels threads) D
              lawful r h)
            (tiled_calls-IsRaceFree _ _
              (cross_placed D c local_channels cross_channels vars lawful dies kernels threads) D
              lawful s l)
            (local-Stays D c local_channels cross_channels vars lawful dies kernels threads r h)
            (cross-Stays D c local_channels cross_channels vars lawful dies kernels threads s l) run

      partial_kept :
          (r e : ℕ)
          → suc r
            ≡ count
                (local_arg D c local_channels cross_channels vars)
                (local_inputs D c local_channels cross_channels vars)
                (local_placed D c local_channels cross_channels vars lawful dies kernels threads)
          → e < c.recv_bytes
          → perform_all D
              (flights (local_program D c local_channels cross_channels vars))
              crossed
              (cross_partial_addr true c + e)
            ≡ crossed (cross_partial_addr true c + e)
      partial_kept r e h within =
          Stays-frame D lawful
            (LocalFills D c local_channels cross_channels vars lawful dies kernels threads)
            (LocalReads D c local_channels cross_channels vars lawful dies kernels threads)
            (flights (local_program D c local_channels cross_channels vars)) crossed
            (cross_partial_addr true c + e)
            (local-Stays D c local_channels cross_channels vars lawful dies kernels threads r h)
            (λ hit.
              apart_lem D c local_channels cross_channels vars lawful dies kernels threads
                (cross_partial_addr true c + e) (inl hit) (inl (omega arith, omega arith)))

      -- However the calls and transfers of the two kernels interleave, after the merge each element
      -- of the chunk is in the output the combination of the two dies' partials.
      pub dual_die-reduces :
          {m1 m2 : ℕ → V}
          → RunBoth D
              (local_program D c local_channels cross_channels vars)
              []
              (cross_program D c local_channels cross_channels vars)
              []
              m
              m1
          → Run D (merge_program D c local_channels cross_channels vars) m1 [] m2
          → (e : ℕ) → e < c.recv_bytes
          → m2 (c.param.output_ptr + e)
            ≡ D.combine c.param.data_type c.param.reduce_type (local_partial e) (cross_partial e)
      dual_die-reduces {m1} both merge e h =
          let local_chunk =
            chunk_lem true c (local_arg D c local_channels cross_channels vars) vars 0 0 0 in
          let (s, x, hs, within, here) =
            cell_tile _ _
              (local_placed D c local_channels cross_channels vars lawful dies kernels threads) e
              (omega arith) in
          let (t, y, ht, within', here') =
            cell_tile _ _
              (cross_placed D c local_channels cross_channels vars lawful dies kernels threads) e
              (omega arith) in
          let r =
            count _ _
              (local_placed D c local_channels cross_channels vars lawful dies kernels threads)
            - 1 in
          let q =
            count _ _
              (cross_placed D c local_channels cross_channels vars lawful dies kernels threads)
            - 1 in
          let r_lem : suc r
              ≡ count _ _ (
                  local_placed D c local_channels cross_channels vars lawful dies kernels threads) =
            omega arith in
          let q_lem : suc q
              ≡ count _ _ (
                  cross_placed D c local_channels cross_channels vars lawful dies kernels threads) =
            omega arith in
          let same = both_lem r q r_lem q_lem both in
          merge_calls-combines D _ _ lawful merge e h
          ∙ ap
              (λ v.
                D.combine c.param.data_type c.param.reduce_type v
                  (m1 (cross_partial_addr true c + e)))
              (ap (λ f. f (c.param.output_ptr + e)) same ∙ local_value q e q_lem h)
          ∙ ap (λ v. D.combine c.param.data_type c.param.reduce_type (local_partial e) v)
              (ap (λ f. f (cross_partial_addr true c + e)) same
                ∙ partial_kept r e r_lem h
                ∙ cross_value e h)
