-- ===== src/Host/Exec/Small.antt =====
-- The branch `SMALL_STAGING_TREE` of `ExecOp`.
use hccl_reduce_scatter.Prelude.{
  ℕ, ◌/◌, ◌||◌, not, List, [], ◌∷◌, map, ltb, ◌==◌, if◌then◌else◌, length, range_from, add64, mul64,
}
use hccl_reduce_scatter.Status.{hccl_success}
use hccl_reduce_scatter.Host.Types.{Plan}
use hccl_reduce_scatter.Host.Exec.Context.{
  Task, input_addr, output_addr, ccl_addr, ccl_size, launch, rank_offset, incomplete,
}

module _ (c : Task) where
  abbrev pub tree_slot_addr : ℕ → ℕ
  tree_slot_addr source = add64 (ccl_addr c) (mul64 source c.recv_bytes)

  abbrev pub small_tree_args : List ℕ
  small_tree_args =
      output_addr c
      ∷ c.output_token
      ∷ input_addr c
      ∷ c.input_token
      ∷ c.ccl_token
      ∷ rank_offset c
      ∷ c.recv_bytes
      ∷ map tree_slot_addr (range_from 0 c.param.rank_size)

  unfoldable pub exec_small_staging_tree : Plan
  exec_small_staging_tree =
      if not (length c.ctx.ccu_kernels == 1) || not (length c.ctx.threads == 1)
      then incomplete
      else if ltb (ccl_size c / c.param.rank_size) c.recv_bytes
      then incomplete
      else record { calls = launch c 0 0 small_tree_args ∷ []; result = hccl_success }
