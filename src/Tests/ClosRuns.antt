-- ===== src/Tests/ClosRuns.antt =====
-- The collective on twelve ranks.
use hccl_reduce_scatter.Prelude.{
  ℕ, ◌<◌, ◌≡◌, ◌≢◌, ◌∙◌, ap, refl, true, false, List, map, [], ◌∷◌, if◌then◌else◌, ◌==◌, arith, inl,
  inr, get_or, lt→ltb, range_from, mul64,
}
use hccl_reduce_scatter.Ccu.{fp32, sum, Call}
use hccl_reduce_scatter.Kernel.Common.{channel_of}
use hccl_reduce_scatter.Host.Types.{small_clos_parallel}
use hccl_reduce_scatter.Host.Exec.Context.{Task}
use hccl_reduce_scatter.Host.Exec.Partial.{exec_partial}
use hccl_reduce_scatter.Host.Select.{use_small_clos_parallel}
use hccl_reduce_scatter.Host.Select.Scratch.{IsSmallTask}
use hccl_reduce_scatter.Collective.Joined.{IsJoined}
use hccl_reduce_scatter.Collective.Runs.{last_memory, RunAll-total}
use hccl_reduce_scatter.Collective.Clos as Clos
use hccl_reduce_scatter.Collective.Clos.{HasBanks, clos-reduce_scatters}
use hccl_reduce_scatter.Collective.Refines.{ReduceScattered, clos-refines}
use hccl_reduce_scatter.Tests.Bench.{memory, bench, bench-IsLawful}
use hccl_reduce_scatter.Tests.TreeRuns.{get_or-range_from}

-- Rank 11 of 12 with 12 elements for each.
abbrev twelve_task : Task
twelve_task = record {
  param = record {
    input_ptr = 10000;
    output_ptr = 500;
    count = 12;
    my_rank = 11;
    rank_size = 12;
    data_type = fp32;
    reduce_type = sum;
    cpu_thread = 1;
  };
  ctx = record {
    algorithm = small_clos_parallel;
    ccu_thread = 1;
    local_buffer = record { addr = 900000; size = 1048576 };
    threads = 1 ∷ [];
    ccu_kernels = 11 ∷ [];
    local_ranks = [];
    target_ranks = [];
    cross_peers = [];
    cross_send_target_indices = [];
  };
  data_type_size = 4;
  recv_bytes = 48;
  input_token = 7;
  output_token = 8;
  ccl_token = 9;
}

abbrev twelve_vars : ℕ → ℕ → ℕ
twelve_vars channel id = 20

abbrev twelve_input_at : ℕ → ℕ
twelve_input_at r = if r == 11 then 10000 else 20

abbrev eleven_channels : List ℕ
eleven_channels = range_from 0 11

eleven_lem : (r : ℕ) → r < 12 → r ≢ 11 → get_or eleven_channels (channel_of 11 r) 0 ≡ r
eleven_lem r h away =
    rw (lt→ltb r 11 (omega arith)) (get_or-range_from 0 11 r (omega arith) ∙ omega arith)

twelve-IsJoined : IsJoined bench twelve_task eleven_channels twelve_vars memory twelve_input_at
twelve-IsJoined = record {
  two_ranks = omega arith;
  few_ranks = omega arith;
  own_rank = omega arith;
  own_input = refl;
  peer_memory = λ r a h away. ap (λ n. memory n a) (eleven_lem r h away);
  peer_addr = λ r h away. ground arith;
  output_room = omega arith;
  input_room = λ r h. ground arith;
  apart = inl (omega arith);
}

twelve-HasBanks : HasBanks twelve_task
twelve-HasBanks = record {
  banks_room = omega arith;
  off_output = inr (omega arith);
  off_chunk = inr (omega arith);
}

twelve-IsSmallTask : IsSmallTask twelve_task
twelve-IsSmallTask = record {
  float_size = refl;
  chunk_bytes = refl;
  input_fits = omega arith;
  some_buffer = omega arith;
}

twelve_chosen : use_small_clos_parallel 12 12 ≡ true
unfolding mul64
twelve_chosen = refl

abbrev twelve_programs : List (List Call)
twelve_programs =
    map (Clos.program_of bench twelve_task eleven_channels twelve_vars)
      (exec_partial false twelve_task).calls

clos-reduce_scatters_example :
    last_memory bench twelve_programs (memory 11) 524
    ≡ Clos.reduction bench twelve_task eleven_channels twelve_vars twelve-IsJoined twelve-HasBanks
        refl 24
clos-reduce_scatters_example =
    clos-reduce_scatters bench twelve_task eleven_channels twelve_vars twelve-IsJoined
      twelve-HasBanks refl bench-IsLawful twelve-IsSmallTask twelve_chosen refl refl (memory 11)
      (λ a. refl) (RunAll-total bench twelve_programs (memory 11)) 24 (omega arith)

clos-refines_example :
    ReduceScattered bench twelve_task memory twelve_input_at
      (last_memory bench twelve_programs (memory 11))
clos-refines_example =
    clos-refines bench twelve_task eleven_channels twelve_vars twelve-IsJoined bench-IsLawful refl
      (memory 11) (λ a. refl) twelve-HasBanks twelve-IsSmallTask twelve_chosen refl refl
      (RunAll-total bench twelve_programs (memory 11))
