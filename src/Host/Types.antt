-- ===== src/Host/Types.antt =====
-- The data of the host side (include/common.h, include/custom.h), and the calls of the SDK that
-- `ExecOp` makes.
use hccl_reduce_scatter.Prelude.{ℕ, ◌*◌, Option, none, some, List, []}
use hccl_reduce_scatter.Status.{CcuResult, HcclResult, chk_ret, chk_ret_ccu}
use hccl_reduce_scatter.Issue.{issue}
use hccl_reduce_scatter.Ccu.{HcclDataType, fp32, other, HcclReduceOp}

pub data ReduceScatterAlgorithm : Type 0 where
  direct_mesh staging_mesh hierarchical hierarchical_staging : ReduceScatterAlgorithm
  dual_die_partial striped_single_die small_staging_tree : ReduceScatterAlgorithm
  small_clos_parallel : ReduceScatterAlgorithm

pub record CommBuffer : Type 0 where
  pub addr : ℕ
  pub size : ℕ

pub record AlgResourceCtx : Type 0 where
  pub algorithm : ReduceScatterAlgorithm
  pub ccu_thread : ℕ
  pub local_buffer : CommBuffer
  pub threads : List ℕ
  pub ccu_kernels : List ℕ
  pub local_ranks : List ℕ
  pub target_ranks : List ℕ
  pub cross_peers : List ℕ
  pub cross_send_target_indices : List ℕ

-- `OpParam`, less the fields that `ExecOp` does not read; pointers are addresses.
pub record OpParam : Type 0 where
  pub input_ptr : ℕ
  pub output_ptr : ℕ
  pub count : ℕ
  pub my_rank : ℕ
  pub rank_size : ℕ
  pub data_type : HcclDataType
  pub reduce_type : HcclReduceOp
  pub cpu_thread : ℕ

abbrev pub max_data_size : ℕ
max_data_size = 256 * 1024 * 1024

-- `SIZE_TABLE`
abbrev pub size_of : HcclDataType → Option ℕ
size_of fp32 = some 4
size_of (other code) = none

pub data HostCall : Type 0 where
  -- `HcommLocalCopyOnThread(thread, dst, src, bytes)`
  local_copy_on_thread : ℕ → ℕ → ℕ → ℕ → HostCall
  -- `HcommCcuGetMemToken(addr, size, &token)`
  get_mem_token : ℕ → ℕ → HostCall
  -- `HcommCcuKernelLaunch(thread, kernel, args, count)`
  kernel_launch : ℕ → ℕ → List ℕ → HostCall
  -- `HcommThreadNotifyRecordOnThread(thread, target thread, index)`
  notify_record_on_thread : ℕ → ℕ → ℕ → HostCall
  -- `HcommThreadNotifyWaitOnThreadWithDefaultTimeout(thread, index)`
  notify_wait_on_thread : ℕ → ℕ → HostCall

-- The SDK below `ExecOp`: the status of each call, which may depend on the calls before it, and
-- the token of a memory range.
pub record Hcomm : Type 0 where
  pub ccu_status : List HostCall → HostCall → CcuResult
  pub hccl_status : List HostCall → HostCall → HcclResult
  pub token : ℕ → ℕ → ℕ

-- What `CHK_RET_CCU` or `CHK_RET` around the call returns.
abbrev pub host_reply : Hcomm → List HostCall → HostCall → Option HcclResult
host_reply api h (local_copy_on_thread t d s b) =
    chk_ret (api.hccl_status h (local_copy_on_thread t d s b))
host_reply api h (get_mem_token a s) = chk_ret_ccu (api.ccu_status h (get_mem_token a s))
host_reply api h (kernel_launch t k args) = chk_ret_ccu (api.ccu_status h (kernel_launch t k args))
host_reply api h (notify_record_on_thread t u n) =
    chk_ret (api.hccl_status h (notify_record_on_thread t u n))
host_reply api h (notify_wait_on_thread t n) =
    chk_ret (api.hccl_status h (notify_wait_on_thread t n))

-- The calls that a function makes while all of them succeed, and what it returns after the last.
pub record Plan : Type 0 where
  pub calls : List HostCall
  pub result : HcclResult

unfoldable pub run_plan : Hcomm → Plan → HcclResult × List HostCall
unfolding issue
run_plan api p =
    let (e, made) = issue (host_reply api) [] p.calls in
    (elim e [ none ↦ p.result | some code ↦ code ], made)
