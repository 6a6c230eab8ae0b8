-- ===== src/Host/Exec/Context.antt =====
-- What `ExecOp` has computed when it comes to the algorithms.
use hccl_reduce_scatter.Prelude.{ℕ, List, [], get_or, mul64}
use hccl_reduce_scatter.Status.{hccl_e_internal}
use hccl_reduce_scatter.Host.Types.{AlgResourceCtx, OpParam, HostCall, kernel_launch, Plan}

pub record Task : Type 0 where
  pub param : OpParam
  pub ctx : AlgResourceCtx
  pub data_type_size : ℕ
  pub recv_bytes : ℕ
  pub input_token : ℕ
  pub output_token : ℕ
  pub ccl_token : ℕ

module _ (c : Task) where
  abbrev pub input_addr : ℕ
  input_addr = c.param.input_ptr

  abbrev pub output_addr : ℕ
  output_addr = c.param.output_ptr

  abbrev pub ccl_addr : ℕ
  ccl_addr = c.ctx.local_buffer.addr

  abbrev pub ccl_size : ℕ
  ccl_size = c.ctx.local_buffer.size

  abbrev pub thread : ℕ → ℕ
  thread n = get_or c.ctx.threads n 0

  abbrev pub launch : ℕ → ℕ → List ℕ → HostCall
  launch t n args = kernel_launch (thread t) (get_or c.ctx.ccu_kernels n 0) args

  -- `param.myRank * recvBytes`
  abbrev pub rank_offset : ℕ
  rank_offset = mul64 c.param.my_rank c.recv_bytes

abbrev pub incomplete : Plan
incomplete = record { calls = []; result = hccl_e_internal }
