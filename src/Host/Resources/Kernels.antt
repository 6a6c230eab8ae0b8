-- ===== src/Host/Resources/Kernels.antt =====
-- The `Register` functions: the kernels of an algorithm with their arguments, registered between
-- a start and an end.
use hccl_reduce_scatter.Prelude.{
  ℕ, Bool, true, false, not, List, [], ◌∷◌, ◌==◌, if◌then◌else◌, length,
}
use hccl_reduce_scatter.Status.{hccl_e_internal}
use hccl_reduce_scatter.Host.Sdk.{
  CcuKernelInfo, direct_kernel, striped_kernel, small_tree_kernel, tiled_kernel, merge_kernel,
  query_ccu_ins, kernel_register_start, kernel_register, kernel_register_end, staging_kernel, Act,
  ◌>>=◌, ◌>>◌, pure, ask, call, refuse,
}
use hccl_reduce_scatter.Host.Types.{
  ReduceScatterAlgorithm, direct_mesh, staging_mesh, dual_die_partial, striped_single_die,
  small_staging_tree, small_clos_parallel, OpParam, AlgResourceCtx,
}
use hccl_reduce_scatter.Host.Register.{
  mesh_kernel_arg, striped_kernel_arg, small_tree_kernel_arg, small_clos_kernel_arg,
  merge_kernel_arg, make_tiled_partial_kernel_arg,
}
use hccl_reduce_scatter.Host.Resources.Channels.{
  acquire_channels_at_layer, acquire_mesh_channels, other_ranks,
}
use hccl_reduce_scatter.Host.Resources.Groups.{index_of}

unfoldable pub register_each : ℕ → List CcuKernelInfo → Act (List ℕ)
register_each ins [] = pure []
register_each ins (k ∷ ks) = do
  call (kernel_register ins k)
  handle ← ask (λ api. api.kernel_handle)
  rest ← register_each ins ks
  pure (handle ∷ rest)

-- The registration on an instance, given with the number of instances.
unfoldable pub register_on :
    ReduceScatterAlgorithm → List CcuKernelInfo → AlgResourceCtx → ℕ × ℕ → Act AlgResourceCtx
register_on algorithm kernels ctx (ins, ins_num) = do
  refuse (not (ins_num == 1)) hccl_e_internal
  call (kernel_register_start ins)
  handles ← register_each ins kernels
  call (kernel_register_end ins)
  pure (record ctx { algorithm = algorithm; ccu_kernels = handles })

-- The end of every `Register` function.
unfoldable pub register_kernels :
    ReduceScatterAlgorithm → List CcuKernelInfo → AlgResourceCtx → Act AlgResourceCtx
register_kernels algorithm kernels ctx = do
  call query_ccu_ins
  ins ← ask (λ api. api.ccu_ins)
  register_on algorithm kernels ctx ins

-- `RegisterMeshKernel`; the first argument says whether the algorithm is `DIRECT_MESH`.
abbrev pub register_mesh_kernel : Bool → OpParam → List ℕ → AlgResourceCtx → Act AlgResourceCtx
register_mesh_kernel direct param channels ctx =
    register_kernels (if direct then direct_mesh else staging_mesh)
      ((if direct then direct_kernel else staging_kernel) (mesh_kernel_arg param channels) ∷ []) ctx

unfoldable pub register_striped_single_die_kernel : OpParam → AlgResourceCtx → Act AlgResourceCtx
register_striped_single_die_kernel param ctx = do
  channels ← acquire_mesh_channels param
  register_kernels striped_single_die (striped_kernel (striped_kernel_arg param channels) ∷ []) ctx

unfoldable pub register_small_staging_tree_kernel : OpParam → AlgResourceCtx → Act AlgResourceCtx
register_small_staging_tree_kernel param ctx = do
  channels ← acquire_mesh_channels param
  register_kernels small_staging_tree
      (small_tree_kernel (small_tree_kernel_arg param channels) ∷ []) ctx

unfoldable pub register_small_clos_parallel_kernel : OpParam → AlgResourceCtx → Act AlgResourceCtx
register_small_clos_parallel_kernel param ctx = do
  channels ← acquire_mesh_channels param
  register_kernels small_clos_parallel (tiled_kernel (small_clos_kernel_arg param channels) ∷ [])
      ctx

unfoldable pub register_dual_die_partial_kernels : OpParam → AlgResourceCtx → Act AlgResourceCtx
register_dual_die_partial_kernels param ctx = do
  local_channels ←
      acquire_channels_at_layer param.my_rank 0 (other_ranks param.my_rank ctx.local_ranks)
  cross_channels ← acquire_channels_at_layer param.my_rank 1 ctx.cross_peers
  register_kernels dual_die_partial
      (tiled_kernel (
          make_tiled_partial_kernel_arg param local_channels (length ctx.local_ranks) true
            (index_of param.my_rank ctx.local_ranks))
        ∷ tiled_kernel
            (make_tiled_partial_kernel_arg param cross_channels (length ctx.cross_peers) false 0)
        ∷ merge_kernel (merge_kernel_arg param)
        ∷ [])
      ctx
