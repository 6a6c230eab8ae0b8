-- ===== src/Host/Exec.antt =====
-- `ExecOp` (op_host/exec_op.cc): the guards, the tokens of the three buffers, and the launches
-- of the algorithm that the resources were built for. The child modules hold the algorithms.
pub mod Context
pub mod Laws
pub mod Small
pub mod Partial
pub mod Striped
pub mod Mesh
pub mod Hierarchical
use hccl_reduce_scatter.Prelude.{
  ℕ, true, false, none, some, List, [], ◌∷◌, ◌||◌, ◌==◌, get_or, if◌then◌else◌, mul64, is_empty,
}
use hccl_reduce_scatter.Status.{HcclResult, hccl_success, hccl_e_internal, hccl_e_not_support}
use hccl_reduce_scatter.Host.Types.{
  ReduceScatterAlgorithm, direct_mesh, staging_mesh, hierarchical, hierarchical_staging,
  dual_die_partial, striped_single_die, small_staging_tree, small_clos_parallel, AlgResourceCtx,
  OpParam, size_of, HostCall, local_copy_on_thread, get_mem_token, Hcomm, Plan, run_plan,
}
use Context.{Task}
use Small.{exec_small_staging_tree}
use Partial.{exec_partial}
use Striped.{exec_striped}
use Mesh.{exec_direct, exec_staging}
use Hierarchical.{exec_hierarchical}

abbrev pub fail : HcclResult → Plan
fail code = record { calls = []; result = code }

-- The branch of the algorithm.
unfoldable pub dispatch : ReduceScatterAlgorithm → Task → Plan
dispatch small_staging_tree c = exec_small_staging_tree c
dispatch dual_die_partial c = exec_partial true c
dispatch small_clos_parallel c = exec_partial false c
dispatch striped_single_die c = exec_striped c
dispatch direct_mesh c = exec_direct c
dispatch staging_mesh c = exec_staging c
dispatch hierarchical c = exec_hierarchical false c
dispatch hierarchical_staging c = exec_hierarchical true c

-- The tokens, and the algorithm with them.
unfoldable pub exec_collective : Hcomm → OpParam → AlgResourceCtx → ℕ → ℕ → Plan
exec_collective api p ctx size recv_bytes =
    let input_bytes = mul64 recv_bytes p.rank_size in
    let plan = dispatch ctx.algorithm (record {
      param = p;
      ctx = ctx;
      data_type_size = size;
      recv_bytes = recv_bytes;
      input_token = api.token p.input_ptr input_bytes;
      output_token = api.token p.output_ptr recv_bytes;
      ccl_token = api.token ctx.local_buffer.addr ctx.local_buffer.size;
    }) in
    record {
      calls =
          get_mem_token p.input_ptr input_bytes
          ∷ get_mem_token p.output_ptr recv_bytes
          ∷ get_mem_token ctx.local_buffer.addr ctx.local_buffer.size
          ∷ plan.calls;
      result = plan.result;
    }

unfoldable pub exec_plan : Hcomm → OpParam → AlgResourceCtx → Plan
exec_plan api p ctx = elim (size_of p.data_type) [
  | none ↦ fail hccl_e_not_support
  | some size ↦
      let recv_bytes = mul64 p.count size in
      if recv_bytes == 0
      then fail hccl_success
      else if p.rank_size == 1
      then record {
        calls =
            local_copy_on_thread (get_or ctx.threads 0 0) p.output_ptr p.input_ptr recv_bytes ∷ [];
        result = hccl_success;
      }
      else if is_empty ctx.ccu_kernels || is_empty ctx.threads
      then fail hccl_e_internal
      else exec_collective api p ctx size recv_bytes
]

unfoldable pub exec_op : Hcomm → OpParam → AlgResourceCtx → HcclResult × List HostCall
exec_op api p ctx = run_plan api (exec_plan api p ctx)
