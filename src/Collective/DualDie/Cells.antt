-- ===== src/Collective/DualDie/Cells.antt =====
-- The kernels of `DUAL_DIE_PARTIAL` on a rank, and the cells that each of them fills and reads.
use hccl_reduce_scatter.Prelude.{ℕ, suc, ◌*◌, ◌≡◌, ◌⊎◌, true, List, arith, inl, inr, length, All}
use hccl_reduce_scatter.Ccu.{Call}
use hccl_reduce_scatter.Ccu.Device.{Device, IsLawful, flights}
use hccl_reduce_scatter.Kernel.Tiled.{tiled_calls}
use hccl_reduce_scatter.Kernel.Tiled.Places.{IsPlaced, count}
use hccl_reduce_scatter.Kernel.Tiled.Footprint.{Stays, tiled_calls-Stays}
use hccl_reduce_scatter.Kernel.Merge.{merge_calls}
use hccl_reduce_scatter.Host.Exec.Context.{Task, ccl_addr}
use hccl_reduce_scatter.Host.Exec.Partial.{
  partial_tile, full_tile_count, cross_scratch_addr, cross_partial_addr,
}
use hccl_reduce_scatter.Collective.Slots.{In, laid-IsPlaced, slot_region, leaf_region}
use hccl_reduce_scatter.Collective.DualDie.{
  local_arg, cross_arg, merge_arg, local_inputs, cross_inputs, merge_inputs, chunk_at, IsTwoDies,
  local_laid, cross_laid, plan,
}

module _ {V : Type 0} (D : Device V) (c : Task) (local_channels cross_channels : List ℕ)
    (vars : ℕ → ℕ → ℕ) where
  abbrev pub local_program : List Call
  local_program =
      tiled_calls (local_arg D c local_channels cross_channels vars)
        (local_inputs D c local_channels cross_channels vars)

  abbrev pub cross_program : List Call
  cross_program =
      tiled_calls (cross_arg D c local_channels cross_channels vars)
        (cross_inputs D c local_channels cross_channels vars)

  abbrev pub merge_program : List Call
  merge_program =
      merge_calls (merge_arg D c local_channels cross_channels vars)
        (merge_inputs D c local_channels cross_channels vars)

  module _ (lawful : IsLawful D) (dies : IsTwoDies D c local_channels cross_channels vars)
      (kernels : length c.ctx.ccu_kernels ≡ 3) (threads : length c.ctx.threads ≡ 2) where
    abbrev pub local_placed :
        IsPlaced
          (local_arg D c local_channels cross_channels vars)
          (local_inputs D c local_channels cross_channels vars)
          (full_tile_count true c)
    local_placed =
        laid-IsPlaced true c _ vars _ _ _
          (local_laid D c local_channels cross_channels vars dies kernels threads)

    abbrev pub cross_placed :
        IsPlaced
          (cross_arg D c local_channels cross_channels vars)
          (cross_inputs D c local_channels cross_channels vars)
          (full_tile_count true c)
    cross_placed =
        laid-IsPlaced true c _ vars _ _ _
          (cross_laid D c local_channels cross_channels vars dies kernels threads)

    -- The cells that the local kernel fills, and those that it reads.
    abbrev pub LocalFills : ℕ → Type 0
    LocalFills a =
        In c.param.output_ptr c.recv_bytes a
        ⊎ In (ccl_addr c) (2 * length c.ctx.local_ranks * partial_tile true c) a

    abbrev pub LocalReads : ℕ → Type 0
    LocalReads a =
        LocalFills a ⊎ In (chunk_at D c local_channels cross_channels vars) c.recv_bytes a

    -- The cells that the cross kernel fills or reads.
    abbrev pub CrossCells : ℕ → Type 0
    CrossCells a =
        In (cross_partial_addr true c) c.recv_bytes a
        ⊎ In (cross_scratch_addr true c) (2 * length c.ctx.cross_peers * partial_tile true c) a

    pub apart_lem : (a : ℕ) → LocalReads a → CrossCells a → ⊥
    apart_lem a l r =
        let (made, local_end, cross_end, room) =
          plan D c local_channels cross_channels vars dies kernels threads in
        let output = dies.off_output in let chunk = dies.off_chunk in ground arith

    pub local-Stays :
        (r : ℕ)
        → suc r
          ≡ count
              (local_arg D c local_channels cross_channels vars)
              (local_inputs D c local_channels cross_channels vars)
              local_placed
        → All (Stays LocalFills LocalReads) (flights local_program)
    local-Stays r h =
        tiled_calls-Stays D lawful _ _ local_placed LocalFills LocalReads
          (slot_region true c _ vars _ _ _
            (local_laid D c local_channels cross_channels vars dies kernels threads))
          (λ t p a ht hp l.
            elim (leaf_region true c _ vars _ _ _
              (local_laid D c local_channels cross_channels vars dies kernels threads) t p a ht hp
              l) [ inl slot ↦ inl slot | inr (included, own) ↦ inr own ])
          r h

    pub cross-Stays :
        (r : ℕ)
        → suc r
          ≡ count
              (cross_arg D c local_channels cross_channels vars)
              (cross_inputs D c local_channels cross_channels vars)
              cross_placed
        → All (Stays CrossCells CrossCells) (flights cross_program)
    cross-Stays r h =
        tiled_calls-Stays D lawful _ _ cross_placed CrossCells CrossCells
          (slot_region true c _ vars _ _ _
            (cross_laid D c local_channels cross_channels vars dies kernels threads))
          (λ t p a ht hp l.
            elim (leaf_region true c _ vars _ _ _
              (cross_laid D c local_channels cross_channels vars dies kernels threads) t p a ht hp
              l) [ inl slot ↦ slot | inr (included, own) ↦ cc included ])
          r h
