-- ===== src/Tests/Host.antt =====
-- `ExecOp` on concrete tasks.
use hccl_reduce_scatter.Prelude.{
  ℕ, ◌+◌, ◌*◌, ◌≤◌, ◌≡◌, ◌≢◌, refl, true, none, some, List, [], ◌∷◌, ◌++◌, ◌⊎◌, ◌↔◌, arith, get_or,
  add64, mul64,
}
use hccl_reduce_scatter.Status.{
  hccl_success, CcuResult, ccu_success, ccu_e_ptr, convert_ccu_to_hccl, chk_ret_ccu,
}
use hccl_reduce_scatter.Status.Laws.{chk_ret_ccu-reports}
use hccl_reduce_scatter.Ccu.{fp32, sum, Call, load_arg}
use hccl_reduce_scatter.Kernel.Common.{run_calls}
use hccl_reduce_scatter.Kernel.Outcome.{run_calls-outcome}
use hccl_reduce_scatter.Host.Types.{
  ReduceScatterAlgorithm, direct_mesh, striped_single_die, dual_die_partial, AlgResourceCtx,
  OpParam, HostCall, Hcomm, max_data_size,
}
use hccl_reduce_scatter.Host.Exec.{exec_plan, exec_op}
use hccl_reduce_scatter.Host.Exec.Laws.{code_of, Succeeds, exec_op-outcome}
use hccl_reduce_scatter.Issue.Laws.{AllAfter}
use hccl_reduce_scatter.Host.Exec.Context.{Task, launch}
use hccl_reduce_scatter.Host.Exec.Mesh.{exec_direct, direct_args}
use hccl_reduce_scatter.Host.Exec.Mesh.Laws.{chunk_count, chunk_calls, exec_direct-covers}
use hccl_reduce_scatter.Host.Exec.Partial.{
  exec_partial, dual_die_calls, partial_tile, cross_scratch_addr, cross_partial_addr,
}
use hccl_reduce_scatter.Host.Exec.Partial.Laws.{IsDualDie, exec_partial-fits}
use hccl_reduce_scatter.Host.Exec.Striped.{exec_striped, striped_args}
use hccl_reduce_scatter.Host.Exec.Striped.Laws.{IsSized, elements_before, exec_striped-partitions}

abbrev resources : ReduceScatterAlgorithm → List ℕ → List ℕ → AlgResourceCtx
resources algorithm kernels threads = record {
  algorithm = algorithm;
  ccu_thread = 1;
  local_buffer = record { addr = 5000; size = 4096 };
  threads = threads;
  ccu_kernels = kernels;
  local_ranks = 0 ∷ 1 ∷ [];
  target_ranks = 0 ∷ [];
  cross_peers = 2 ∷ 3 ∷ [];
  cross_send_target_indices = [];
}

-- Rank 1 of 4, with 10 elements in a chunk.
abbrev call_param : OpParam
call_param = record {
  input_ptr = 1000;
  output_ptr = 2000;
  count = 10;
  my_rank = 1;
  rank_size = 4;
  data_type = fp32;
  reduce_type = sum;
  cpu_thread = 1;
}

abbrev task_of : AlgResourceCtx → Task
task_of ctx = record {
  param = call_param;
  ctx = ctx;
  data_type_size = 4;
  recv_bytes = 40;
  input_token = 7;
  output_token = 8;
  ccl_token = 9;
}

abbrev one_kernel : ReduceScatterAlgorithm → Task
one_kernel algorithm = task_of (resources algorithm (11 ∷ []) (1 ∷ []))

abbrev dual_task : Task
dual_task = task_of (resources dual_die_partial (11 ∷ 12 ∷ 13 ∷ []) (1 ∷ 2 ∷ []))

exec_direct-covers_example : exec_direct (one_kernel direct_mesh) ≡ record {
  calls =
      chunk_calls max_data_size 40
        (λ offset bytes.
          launch (one_kernel direct_mesh) 0 0 (direct_args (one_kernel direct_mesh) offset bytes))
        0
        (chunk_count max_data_size 40);
  result = hccl_success;
}
exec_direct-covers_example = exec_direct-covers (one_kernel direct_mesh) refl (omega arith)

dual-IsDualDie : IsDualDie dual_task
dual-IsDualDie = record {
  local_some = omega arith;
  cross_some = omega arith;
  few = omega arith;
  room = omega arith;
  in_space = omega arith;
}

some_tile : 1 ≤ partial_tile true dual_task
unfolding add64 mul64
some_tile = omega arith

exec_partial-fits_example :
    (exec_partial true dual_task
      ≡ record { calls = dual_die_calls true dual_task; result = hccl_success })
    × (5000 + 2 * 2 * partial_tile true dual_task ≡ cross_scratch_addr true dual_task)
    × (cross_scratch_addr true dual_task + 2 * 2 * partial_tile true dual_task
        ≡ cross_partial_addr true dual_task)
    × (cross_partial_addr true dual_task + 40 ≤ 5000 + 4096)
exec_partial-fits_example = exec_partial-fits dual_task dual-IsDualDie refl refl some_tile

ten-IsSized : IsSized (one_kernel striped_single_die)
ten-IsSized = record {
  float_size = refl;
  some_rank = omega arith;
  chunk_bytes = refl;
  chunk_fits = omega arith;
}

exec_striped-partitions_example :
    (exec_striped (one_kernel striped_single_die) ≡ record {
      calls =
          launch (one_kernel striped_single_die) 0 0 (striped_args (one_kernel striped_single_die))
          ∷ [];
      result = hccl_success;
    })
    × (get_or (striped_args (one_kernel striped_single_die)) 9 0 ≡ 24)
    × (get_or (striped_args (one_kernel striped_single_die)) 9 0
          + get_or (striped_args (one_kernel striped_single_die)) 10 0
        ≡ 32)
    × (elements_before (one_kernel striped_single_die) ten-IsSized 0 ≡ 0)
    × (elements_before (one_kernel striped_single_die) ten-IsSized 4 * 4 ≡ 40)
exec_striped-partitions_example =
    exec_striped-partitions (one_kernel striped_single_die) ten-IsSized refl refl 2 (omega arith)

chk_ret_ccu-reports_example :
    ((chk_ret_ccu ccu_e_ptr ≡ none) ↔ (ccu_e_ptr ≡ ccu_success))
    × ((ccu_e_ptr ≢ ccu_success)
        → (chk_ret_ccu ccu_e_ptr ≡ some (convert_ccu_to_hccl ccu_e_ptr))
          × (convert_ccu_to_hccl ccu_e_ptr ≢ hccl_success))
chk_ret_ccu-reports_example = chk_ret_ccu-reports ccu_e_ptr

-- An SDK whose launches fail.
abbrev broken : Hcomm
broken = record {
  ccu_status = λ h c. elim c [ HostCall.kernel_launch _ _ _ ↦ ccu_e_ptr | _ ↦ ccu_success ];
  hccl_status = λ h c. hccl_success;
  token = λ a s. 7;
}

abbrev ctx_direct : AlgResourceCtx
ctx_direct = resources direct_mesh (11 ∷ []) (1 ∷ [])

exec_op-outcome_example :
    ((exec_op broken call_param ctx_direct ≡ (
      (exec_plan broken call_param ctx_direct).result,
      (exec_plan broken call_param ctx_direct).calls,
    ))
      × AllAfter (Succeeds broken) [] (exec_plan broken call_param ctx_direct).calls)
    ⊎ ((before : List HostCall) × (c : HostCall) × (after : List HostCall) × ((exec_plan broken
            call_param ctx_direct).calls
          ≡ before ++ (c ∷ after))
        × AllAfter (Succeeds broken) [] before
        × (code_of broken before c ≢ hccl_success)
        × (exec_op broken call_param ctx_direct ≡ (code_of broken before c, before ++ (c ∷ []))))
exec_op-outcome_example = exec_op-outcome broken call_param ctx_direct

abbrev refuses_all : List Call → Call → CcuResult
refuses_all h c = ccu_e_ptr

run_calls-outcome_example :
    ((run_calls refuses_all (load_arg 0 ∷ []) ≡ (ccu_success, load_arg 0 ∷ []))
      × AllAfter (λ h c. refuses_all h c ≡ ccu_success) [] (load_arg 0 ∷ []))
    ⊎ ((before : List Call) × (c : Call) × (after : List Call) × ((load_arg 0 ∷ [])
          ≡ before ++ (c ∷ after))
        × AllAfter (λ h d. refuses_all h d ≡ ccu_success) [] before
        × (refuses_all before c ≢ ccu_success)
        × (run_calls refuses_all (load_arg 0 ∷ []) ≡ (refuses_all before c, before ++ (c ∷ []))))
run_calls-outcome_example = run_calls-outcome refuses_all (load_arg 0 ∷ [])
