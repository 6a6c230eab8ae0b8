-- ===== src/Tests/Entry.antt =====
-- Selection, resources and entry on concrete inputs.
use hccl_reduce_scatter.Prelude.{
  ℕ, ◌+◌, ◌≤◌, ◌≡◌, refl, true, false, some, [], ◌∷◌, arith, length, get_or, mul64,
}
use hccl_reduce_scatter.Status.{hccl_success, hccl_e_ptr, hccl_e_not_support, ccu_success, chk_ret}
use hccl_reduce_scatter.Ccu.{fp32, sum}
use hccl_reduce_scatter.Kernel.Direct.{direct_refuses}
use hccl_reduce_scatter.Kernel.Striped.{striped_refuses}
use hccl_reduce_scatter.Kernel.Tree.{tree_refuses}
use hccl_reduce_scatter.Kernel.Tiled.{tiled_refuses}
use hccl_reduce_scatter.Host.Types.{direct_mesh, AlgResourceCtx, OpParam, Hcomm}
use hccl_reduce_scatter.Host.Exec.Context.{Task, launch}
use hccl_reduce_scatter.Host.Exec.Small.{exec_small_staging_tree, small_tree_args}
use hccl_reduce_scatter.Host.Exec.Partial.{
  exec_partial, partial_tile, local_scratch_bytes, local_args,
}
use hccl_reduce_scatter.Host.Select.{
  use_dual_die, use_small_staging_tree, use_small_clos_parallel, use_direct, use_striped_single_die,
  algorithm_tag, built_algorithm, algorithm_of,
}
use hccl_reduce_scatter.Host.Select.Laws.{count_true, selection-decides}
use hccl_reduce_scatter.Host.Select.Scratch.{
  IsSmallTask, small_staging_tree-fits, small_clos_parallel-fits,
}
use hccl_reduce_scatter.Host.Sdk.{Sdk}
use hccl_reduce_scatter.Host.Sdk.Laws.{Ensures}
use hccl_reduce_scatter.Host.Register.{
  mesh_kernel_arg, striped_kernel_arg, small_tree_kernel_arg, small_clos_kernel_arg,
}
use hccl_reduce_scatter.Host.Resources.Channels.{acquire_mesh_channels}
use hccl_reduce_scatter.Host.Resources.Channels.Laws.{mesh_arguments-accepted}
use hccl_reduce_scatter.Host.Entry.{Request, build_resources, run_reduce_scatter}
use hccl_reduce_scatter.Host.Entry.Resources.{kernels_of, threads_of, build_resources_complete}
use hccl_reduce_scatter.Host.Entry.Refusals.{IsAnswering, queries, unsupported-refused}
use hccl_reduce_scatter.Host.Entry.Laws.{null_pointers-refused}

selection-decides_example :
    (count_true (use_dual_die 100000 16)
        + count_true (use_small_staging_tree 100000 16)
        + count_true (use_small_clos_parallel 100000 16)
        + count_true (use_direct 100000 16)
        + count_true (use_striped_single_die 100000 16)
      ≡ 1)
    × (built_algorithm 100000 16 ≡ algorithm_of (algorithm_tag 100000 16))
selection-decides_example = selection-decides 100000 16 (omega arith) (omega arith)

abbrev pub param_with : ℕ → ℕ → OpParam
param_with ranks my = record {
  input_ptr = 1000;
  output_ptr = 2000;
  count = 32;
  my_rank = my;
  rank_size = ranks;
  data_type = fp32;
  reduce_type = sum;
  cpu_thread = 1;
}

abbrev pub plain_ctx : AlgResourceCtx
plain_ctx = record {
  algorithm = direct_mesh;
  ccu_thread = 1;
  local_buffer = record { addr = 5000; size = 1048576 };
  threads = 1 ∷ [];
  ccu_kernels = 11 ∷ [];
  local_ranks = [];
  target_ranks = [];
  cross_peers = [];
  cross_send_target_indices = [];
}

abbrev small_task : ℕ → Task
small_task ranks = record {
  param = param_with ranks 1;
  ctx = plain_ctx;
  data_type_size = 4;
  recv_bytes = 128;
  input_token = 7;
  output_token = 8;
  ccl_token = 9;
}

sixteen-IsSmallTask : IsSmallTask (small_task 16)
sixteen-IsSmallTask = record {
  float_size = refl;
  chunk_bytes = refl;
  input_fits = omega arith;
  some_buffer = omega arith;
}

twelve-IsSmallTask : IsSmallTask (small_task 12)
twelve-IsSmallTask = record {
  float_size = refl;
  chunk_bytes = refl;
  input_fits = omega arith;
  some_buffer = omega arith;
}

tree_chosen : use_small_staging_tree 32 16 ≡ true
unfolding mul64
tree_chosen = refl

clos_chosen : use_small_clos_parallel 32 12 ≡ true
unfolding mul64
clos_chosen = refl

small_staging_tree-fits_example : exec_small_staging_tree (small_task 16) ≡ record {
  calls = launch (small_task 16) 0 0 (small_tree_args (small_task 16)) ∷ [];
  result = hccl_success;
}
small_staging_tree-fits_example =
    small_staging_tree-fits (small_task 16) sixteen-IsSmallTask tree_chosen refl refl

small_clos_parallel-fits_example :
    (exec_partial false (small_task 12) ≡ record {
      calls = launch (small_task 12) 0 0 (local_args false (small_task 12)) ∷ [];
      result = hccl_success;
    })
    × (partial_tile false (small_task 12) ≡ 128)
    × (local_scratch_bytes false (small_task 12) ≤ 1048576)
small_clos_parallel-fits_example =
    small_clos_parallel-fits (small_task 12) twelve-IsSmallTask clos_chosen refl refl

mesh_arguments-accepted_example : Ensures (acquire_mesh_channels (param_with 4 1)) (λ channels.
    (length channels ≡ 3)
    × (direct_refuses (mesh_kernel_arg (param_with 4 1) channels) ≡ false)
    × (striped_refuses (striped_kernel_arg (param_with 4 1) channels) ≡ false)
    × (tree_refuses (small_tree_kernel_arg (param_with 4 1) channels) ≡ false)
    × (tiled_refuses (small_clos_kernel_arg (param_with 4 1) channels) ≡ false))
mesh_arguments-accepted_example =
    mesh_arguments-accepted (param_with 4 1) (omega arith) (omega arith) (omega arith)

build_resources_complete_example : Ensures (build_resources (param_with 16 1)) (λ ctx.
    (ctx.algorithm ≡ built_algorithm 32 16)
    × (length ctx.ccu_kernels ≡ kernels_of (param_with 16 1))
    × (length ctx.threads ≡ threads_of (param_with 16 1))
    × (get_or ctx.threads 0 0 ≡ 1))
build_resources_complete_example = build_resources_complete (param_with 16 1) (omega arith)

-- An SDK whose calls succeed, for rank 1 of 4.
abbrev pub smooth_sdk : Sdk
smooth_sdk = record {
  hccl_code = λ h c. hccl_success;
  ccu_code = λ h c. ccu_success;
  links = λ h. record { is_ubc_ctp = true; src_endpoint = 1; dst_endpoint = 2 } ∷ [];
  layers = λ h. 0 ∷ 1 ∷ [];
  ranks = λ h. 0 ∷ 1 ∷ 2 ∷ 3 ∷ [];
  channel = λ h n. 100 + n;
  ccu_ins = λ h. (5, 1);
  kernel_handle = λ h. 11;
  rank_id = λ h. 1;
  rank_count = λ h. 4;
  thread_handle = λ h. 1;
  buffer = λ h. record { addr = 5000; size = 1048576 };
  engine_ctx = λ h. [];
}

abbrev smooth_hcomm : Hcomm
smooth_hcomm = record {
  ccu_status = λ h c. ccu_success;
  hccl_status = λ h c. hccl_success;
  token = λ a s. 7;
}

abbrev null_request : Request
null_request = record {
  send_buf = 1000;
  recv_buf = 0;
  recv_count = 32;
  data_type = fp32;
  op = sum;
  comm = 1;
  stream = 1;
}

null_pointers-refused_example :
    run_reduce_scatter smooth_sdk smooth_hcomm null_request ≡ (some (hccl_e_ptr, []), [])
null_pointers-refused_example = null_pointers-refused smooth_sdk smooth_hcomm null_request refl

-- A call of the collective on 33 ranks.
abbrev crowded_sdk : Sdk
crowded_sdk = record smooth_sdk { rank_count = λ h. 33 }

abbrev sound_request : Request
sound_request = record null_request { recv_buf = 2000 }

crowded-IsAnswering : IsAnswering crowded_sdk
unfolding chk_ret
crowded-IsAnswering = record { name = refl; registration = refl; rank = refl; ranks = refl }

unsupported-refused_example :
    run_reduce_scatter crowded_sdk smooth_hcomm sound_request
    ≡ (some (hccl_e_not_support, []), queries)
unsupported-refused_example =
    unsupported-refused crowded_sdk smooth_hcomm sound_request refl crowded-IsAnswering refl
