-- ===== src/Tests/Collective.antt =====
-- A striped reduce-scatter of two ranks, seen from rank 1.
use hccl_reduce_scatter.Prelude.{
  ℕ, zero, suc, ◌+◌, ◌<◌, ◌≡◌, ◌≢◌, refl, List, map, [], ◌∷◌, if◌then◌else◌, ◌==◌, arith, inl,
  get_or,
}
use hccl_reduce_scatter.Ccu.{fp32, sum}
use hccl_reduce_scatter.Ccu.Device.{perform_all, flights}
use hccl_reduce_scatter.Ccu.Race.{Run_total}
use hccl_reduce_scatter.Kernel.Common.{channel_of}
use hccl_reduce_scatter.Kernel.Striped.{striped_calls}
use hccl_reduce_scatter.Ccu.{Call}
use hccl_reduce_scatter.Host.Exec.Mesh.{exec_direct}
use hccl_reduce_scatter.Host.Types.{striped_single_die}
use hccl_reduce_scatter.Host.Exec.Context.{Task}
use hccl_reduce_scatter.Host.Exec.Striped.Laws.{IsSized}
use hccl_reduce_scatter.Collective.Joined.{IsJoined}
use hccl_reduce_scatter.Collective.Runs.{last_memory, RunAll-total}
use hccl_reduce_scatter.Collective.Direct as Direct
use hccl_reduce_scatter.Collective.Direct.{direct-reduce_scatters}
use hccl_reduce_scatter.Collective.Striped as Striped
use hccl_reduce_scatter.Collective.Striped.{launch_inputs, reduction_from, striped-reduce_scatters}
use hccl_reduce_scatter.Tests.Bench.{memory, bench, bench-IsLawful}

abbrev pub pair_task : Task
pair_task = record {
  param = record {
    input_ptr = 1000;
    output_ptr = 500;
    count = 10;
    my_rank = 1;
    rank_size = 2;
    data_type = fp32;
    reduce_type = sum;
    cpu_thread = 1;
  };
  ctx = record {
    algorithm = striped_single_die;
    ccu_thread = 1;
    local_buffer = record { addr = 9000; size = 4096 };
    threads = 1 ∷ [];
    ccu_kernels = 11 ∷ [];
    local_ranks = [];
    target_ranks = [];
    cross_peers = [];
    cross_send_target_indices = [];
  };
  data_type_size = 4;
  recv_bytes = 40;
  input_token = 7;
  output_token = 8;
  ccl_token = 9;
}

abbrev pub peer_vars : ℕ → ℕ → ℕ
peer_vars channel id = 20

abbrev pub input_at : ℕ → ℕ
input_at r = if r == 1 then 1000 else 20

pub pair-IsSized : IsSized pair_task
pair-IsSized = record {
  float_size = refl;
  some_rank = omega arith;
  chunk_bytes = refl;
  chunk_fits = omega arith;
}

peer_memory_lem :
    (r a : ℕ) → r < 2 → r ≢ 1 → bench.remote (get_or (0 ∷ []) (channel_of 1 r) 0) a ≡ memory r a
peer_memory_lem zero a h ne = refl
peer_memory_lem (suc zero) a h ne = absurd (ne refl)
peer_memory_lem (suc (suc r)) a h ne = absurd (omega (arith, h))

pub pair-IsJoined : IsJoined bench pair_task (0 ∷ []) peer_vars memory input_at
pair-IsJoined = record {
  two_ranks = omega arith;
  few_ranks = omega arith;
  own_rank = omega arith;
  own_input = refl;
  peer_memory = peer_memory_lem;
  peer_addr = λ r h ne. ground arith;
  output_room = omega arith;
  input_room = λ r h. ground arith;
  apart = inl (omega arith);
}

abbrev outcome : ℕ → ℕ
outcome =
    perform_all bench
      (flights (
        striped_calls (Striped.arg bench pair_task (0 ∷ []) peer_vars)
          (launch_inputs pair_task peer_vars)))
      (memory 1)

striped-reduce_scatters_example :
    (s : ℕ) × (s < 2)
    × (outcome (500 + 24)
        ≡ reduction_from bench pair_task (0 ∷ []) peer_vars pair-IsSized pair-IsJoined s 24)
striped-reduce_scatters_example =
    striped-reduce_scatters bench pair_task (0 ∷ []) peer_vars pair-IsSized pair-IsJoined refl
      (memory 1) (λ a. refl) bench-IsLawful
      (Run_total bench
        (striped_calls (Striped.arg bench pair_task (0 ∷ []) peer_vars)
          (launch_inputs pair_task peer_vars))
        (memory 1))
      24 (omega arith)

abbrev pub direct_programs : List (List Call)
direct_programs =
    map (Direct.program_of bench pair_task (0 ∷ []) peer_vars) (exec_direct pair_task).calls

direct-reduce_scatters_example :
    last_memory bench direct_programs (memory 1) (500 + 24)
    ≡ Direct.reduction bench pair_task (0 ∷ []) peer_vars pair-IsJoined 24
direct-reduce_scatters_example =
    direct-reduce_scatters bench pair_task (0 ∷ []) peer_vars pair-IsJoined bench-IsLawful refl refl
      (omega arith) (memory 1) (λ a. refl) (RunAll-total bench direct_programs (memory 1)) 24
      (omega arith)
