-- ===== src/Host/Entry.antt =====
-- `HcclReduceScatter` (op_host/reduce_scatter.cc).
pub mod Laws
pub mod Refusals
pub mod Resources
use hccl_reduce_scatter.Prelude.{
  ℕ, ◌||◌, Bool, true, false, not, Option, none, some, List, [], ◌∷◌, ◌++◌, ltb, ◌==◌,
  if◌then◌else◌, length,
}
use hccl_reduce_scatter.Status.{HcclResult, hccl_e_ptr, hccl_e_not_support, chk_ret}
use hccl_reduce_scatter.Ccu.{HcclDataType, fp32, other, HcclReduceOp, sum}
use hccl_reduce_scatter.Kernel.Args.{max_rank_size}
use hccl_reduce_scatter.Host.Types.{
  direct_mesh, dual_die_partial, small_staging_tree, small_clos_parallel, striped_single_die,
  CommBuffer, ReduceScatterAlgorithm, AlgResourceCtx, OpParam, Hcomm, HostCall,
}
use hccl_reduce_scatter.Host.Exec.{exec_op}
use hccl_reduce_scatter.Host.Select.{
  AlgorithmTag, use_dual_die, use_small_staging_tree, use_small_clos_parallel,
  use_striped_single_die, algorithm_tag,
}
use hccl_reduce_scatter.Host.Sdk.{
  Sdk, SdkCall, get_comm_name, reg_op_info, get_rank_id, get_rank_size, get_hccl_buffer,
  thread_acquire_with_stream, thread_acquire, engine_ctx_get, engine_ctx_create, engine_ctx_copy,
  Step, go, stop, Act, ◌>>=◌, ◌>>◌, pure, ask, call, refuse,
}
use hccl_reduce_scatter.Host.Resources.Channels.{acquire_mesh_channels}
use hccl_reduce_scatter.Host.Resources.Groups.{build_own_target_plan}
use hccl_reduce_scatter.Host.Resources.Kernels.{
  register_mesh_kernel, register_striped_single_die_kernel, register_small_staging_tree_kernel,
  register_small_clos_parallel_kernel, register_dual_die_partial_kernels,
}
use hccl_reduce_scatter.Stream.Context.{serialize, deserialize}

-- The arguments of the collective; a null pointer is 0.
pub record Request : Type 0 where
  pub send_buf : ℕ
  pub recv_buf : ℕ
  pub recv_count : ℕ
  pub data_type : HcclDataType
  pub op : HcclReduceOp
  pub comm : ℕ
  pub stream : ℕ

abbrev pub is_fp32 : HcclDataType → Bool
is_fp32 fp32 = true
is_fp32 (other _) = false

abbrev pub is_sum : HcclReduceOp → Bool
is_sum sum = true
is_sum (other _) = false

-- The resources before any kernel is registered.
abbrev pub initial_ctx : AlgResourceCtx
initial_ctx = record {
  algorithm = direct_mesh;
  ccu_thread = 0;
  local_buffer = record { addr = 0; size = 0 };
  threads = [];
  ccu_kernels = [];
  local_ranks = [];
  target_ranks = [];
  cross_peers = [];
  cross_send_target_indices = [];
}

-- The branches of step 2.2.
unfoldable pub register_chosen : OpParam → AlgResourceCtx → Act AlgResourceCtx
register_chosen param ctx =
    if use_dual_die param.count param.rank_size
    then (build_own_target_plan param ctx >>= register_dual_die_partial_kernels param)
    else if use_small_staging_tree param.count param.rank_size
    then register_small_staging_tree_kernel param ctx
    else if use_small_clos_parallel param.count param.rank_size
    then register_small_clos_parallel_kernel param ctx
    else if use_striped_single_die param.count param.rank_size
    then register_striped_single_die_kernel param ctx
    else (acquire_mesh_channels param >>= λ channels. register_mesh_kernel true param channels ctx)

-- The second thread, for the second die.
abbrev pub slave_threads : Bool → Act (List ℕ)
slave_threads true = do
  call (thread_acquire 1 1)
  slave ← ask (λ api. api.thread_handle)
  pure (slave ∷ [])
slave_threads false = pure []

-- The resources with a buffer and the threads besides that of the stream.
abbrev pub threaded_ctx : OpParam → CommBuffer → List ℕ → AlgResourceCtx
threaded_ctx param buffer slaves = record initial_ctx {
  local_buffer = buffer;
  threads = param.cpu_thread ∷ slaves;
  ccu_thread = param.cpu_thread;
}

abbrev pub complete_ctx : OpParam → AlgResourceCtx → Act AlgResourceCtx
complete_ctx param ctx = if ltb 1 param.rank_size then register_chosen param ctx else pure ctx

abbrev pub build_on_buffer : OpParam → CommBuffer → Act AlgResourceCtx
build_on_buffer param buffer = do
  slaves ← slave_threads (use_dual_die param.count param.rank_size)
  complete_ctx param (threaded_ctx param buffer slaves)

unfoldable pub build_resources : OpParam → Act AlgResourceCtx
build_resources param = do
  call get_hccl_buffer
  buffer ← ask (λ api. api.buffer)
  build_on_buffer param buffer

-- A new context: the memory of the SDK holds the bytes that are copied to it.
unfoldable pub create_context : AlgorithmTag → OpParam → Act (List ℕ)
create_context tag param = do
  ctx ← build_resources param
  let seq = serialize ctx
  call (engine_ctx_create tag (length seq))
  call (engine_ctx_copy tag seq)
  pure seq

-- The context that is kept under the tag, or a new one where `HcclEngineCtxGet` fails.
unfoldable pub engine_context : AlgorithmTag → OpParam → Act (List ℕ)
engine_context tag param api h =
    let asked = h ++ (engine_ctx_get tag ∷ []) in
    elim (chk_ret (api.hccl_code h (engine_ctx_get tag))) [
      | none ↦ (go (api.engine_ctx asked), asked)
      | some code ↦ create_context tag param api asked
    ]

abbrev pub param_of : Request → ℕ → ℕ → ℕ → OpParam
param_of q my_rank rank_size thread = record {
  input_ptr = q.send_buf;
  output_ptr = q.recv_buf;
  count = q.recv_count;
  my_rank = my_rank;
  rank_size = rank_size;
  data_type = q.data_type;
  reduce_type = q.op;
  cpu_thread = thread;
}

-- The thread of the stream, and the context: the resources of a supported call.
abbrev pub acquire : Request → ℕ → ℕ → Act (OpParam × List ℕ)
acquire q my_rank rank_size = do
  call (thread_acquire_with_stream q.stream 1)
  thread ← ask (λ api. api.thread_handle)
  seq ← engine_context (algorithm_tag q.recv_count rank_size) (param_of q my_rank rank_size thread)
  pure (param_of q my_rank rank_size thread, seq)

-- Everything before `ExecOp`: its parameters, and the bytes of the context.
unfoldable pub prepare : Request → Act (OpParam × List ℕ)
prepare q = do
  refuse (q.send_buf == 0) hccl_e_ptr
  refuse (q.recv_buf == 0) hccl_e_ptr
  refuse (q.comm == 0) hccl_e_ptr
  refuse (q.stream == 0) hccl_e_ptr
  call get_comm_name
  call reg_op_info
  call get_rank_id
  my_rank ← ask (λ api. api.rank_id)
  call get_rank_size
  rank_size ← ask (λ api. api.rank_count)
  refuse (rank_size == 0 || ltb max_rank_size rank_size) hccl_e_not_support
  refuse (not (is_fp32 q.data_type)) hccl_e_not_support
  refuse (not (is_sum q.op)) hccl_e_not_support
  acquire q my_rank rank_size

-- `ExecOp` on the bytes of a context; `none` where the bytes are none, so that what it reads is
-- unspecified.
abbrev pub exec_bytes : Hcomm → OpParam → List ℕ → Option (HcclResult × List HostCall)
exec_bytes hcomm param seq = elim (deserialize seq) [
  | none ↦ none
  | some ctx ↦ some (exec_op hcomm param ctx)
]

abbrev pub finish_with : Hcomm → Step (OpParam × List ℕ) → Option (HcclResult × List HostCall)
finish_with hcomm (stop code) = some (code, [])
finish_with hcomm (go (param, seq)) = exec_bytes hcomm param seq

unfoldable pub run_reduce_scatter :
    Sdk → Hcomm → Request → Option (HcclResult × List HostCall) × List SdkCall
run_reduce_scatter sdk hcomm q =
    let (outcome, made) = prepare q sdk [] in (finish_with hcomm outcome, made)
