-- ===== src/Tests/DualDieTask.antt =====
-- Rank 1 of four ranks on two dies, with two full tiles and a tail on each die.
use hccl_reduce_scatter.Prelude.{
  ℕ, suc, zero, ◌<◌, ◌≡◌, refl, true, List, [], ◌∷◌, if◌then◌else◌, ◌==◌, arith, inl, inr, mul64,
  add64, get_or,
}
use hccl_reduce_scatter.Ccu.{fp32, sum, Inputs}
use hccl_reduce_scatter.Kernel.Tiled.Fetch.{remote_source}
use hccl_reduce_scatter.Kernel.Args.{CcuTiledPartialReduceKernelArg}
use hccl_reduce_scatter.Kernel.Tiled.Result.{IsWired}
use hccl_reduce_scatter.Host.Types.{dual_die_partial}
use hccl_reduce_scatter.Host.Exec.Context.{Task}
use hccl_reduce_scatter.Host.Exec.Partial.{full_tile_count, partial_tile}
use hccl_reduce_scatter.Collective.DualDie.{
  IsTwoDies, local_arg, local_inputs, cross_arg, cross_inputs,
}
use hccl_reduce_scatter.Collective.DualDie.Result.{IsDualWired}
use hccl_reduce_scatter.Collective.DualDie.Threads.{HasHandles}
use hccl_reduce_scatter.Tests.Bench.{memory, bench}

abbrev pub two_die_task : Task
two_die_task = record {
  param = record {
    input_ptr = 10000;
    output_ptr = 500;
    count = 12;
    my_rank = 1;
    rank_size = 4;
    data_type = fp32;
    reduce_type = sum;
    cpu_thread = 1;
  };
  ctx = record {
    algorithm = dual_die_partial;
    ccu_thread = 1;
    local_buffer = record { addr = 900000; size = 208 };
    threads = 1 ∷ 2 ∷ [];
    ccu_kernels = 11 ∷ 12 ∷ 13 ∷ [];
    local_ranks = 0 ∷ 1 ∷ [];
    target_ranks = [];
    cross_peers = 2 ∷ 3 ∷ [];
    cross_send_target_indices = [];
  };
  data_type_size = 4;
  recv_bytes = 48;
  input_token = 7;
  output_token = 8;
  ccl_token = 9;
}

abbrev pub one_channel : List ℕ
one_channel = 0 ∷ []

abbrev pub two_channels : List ℕ
two_channels = 2 ∷ 3 ∷ []

abbrev pub two_die_vars : ℕ → ℕ → ℕ
two_die_vars channel id = 20

abbrev pub two_die_input_at : ℕ → ℕ
two_die_input_at r = if r == 1 then 10000 else 20

pub tile_lem : partial_tile true two_die_task ≡ 20
unfolding mul64 add64
tile_lem = refl

pub two_dies-IsTwoDies : IsTwoDies bench two_die_task one_channel two_channels two_die_vars
two_dies-IsTwoDies = record {
  dual = record {
    local_some = omega arith;
    cross_some = omega arith;
    few = omega arith;
    room = omega arith;
    in_space = omega arith;
  };
  some_tile = omega (arith, tile_lem);
  in_group = omega arith;
  local_count = refl;
  cross_count = refl;
  some_peer = omega arith;
  offset_space = omega arith;
  output_space = omega arith;
  chunk_space = omega arith;
  off_output = inr (omega arith);
  off_chunk = inr (omega arith);
  output_off_chunk = inl (omega arith);
}

abbrev local_half : CcuTiledPartialReduceKernelArg
local_half = local_arg bench two_die_task one_channel two_channels two_die_vars

abbrev local_half_inputs : Inputs
local_half_inputs = local_inputs bench two_die_task one_channel two_channels two_die_vars

abbrev pub cross_half : CcuTiledPartialReduceKernelArg
cross_half = cross_arg bench two_die_task one_channel two_channels two_die_vars

abbrev cross_half_inputs : Inputs
cross_half_inputs = cross_inputs bench two_die_task one_channel two_channels two_die_vars

local_source_lem : (c : ℕ) → c < 1 → remote_source local_half local_half_inputs c ≡ 0
local_source_lem zero h = refl
local_source_lem (suc c) h = absurd (omega (arith, h))

local_channel_lem : (c : ℕ) → c < 1 → get_or one_channel c 0 ≡ 0
local_channel_lem zero h = refl
local_channel_lem (suc c) h = absurd (omega (arith, h))

local-IsWired :
    IsWired bench local_half local_half_inputs
      (λ s. memory (get_or (0 ∷ 1 ∷ []) s 0))
      (λ s. two_die_input_at (get_or (0 ∷ 1 ∷ []) s 0))
      (full_tile_count true two_die_task)
unfolding mul64 add64
local-IsWired = record {
  source_memory = λ c a h. rw (local_source_lem c h, local_channel_lem c h) refl;
  source_addr = λ c h. rw (local_source_lem c h) refl;
  source_space = λ c h. rw (local_source_lem c h) (omega arith);
}

cross_addr_lem : (c : ℕ) → c < 2 → two_die_input_at (get_or (2 ∷ 3 ∷ []) c 0) ≡ 20
cross_addr_lem zero h = refl
cross_addr_lem (suc zero) h = refl
cross_addr_lem (suc (suc c)) h = absurd (omega (arith, h))

cross-IsWired :
    IsWired bench cross_half cross_half_inputs
      (λ s. memory (get_or (2 ∷ 3 ∷ []) s 0))
      (λ s. two_die_input_at (get_or (2 ∷ 3 ∷ []) s 0))
      (full_tile_count true two_die_task)
unfolding mul64 add64
cross-IsWired = record {
  source_memory = λ c a h. refl;
  source_addr = λ c h. rw (cross_addr_lem c h) refl;
  source_space = λ c h. rw (cross_addr_lem c h) (omega arith);
}

pub two_dies-IsDualWired :
    IsDualWired bench two_die_task one_channel two_channels two_die_vars memory two_die_input_at
two_dies-IsDualWired = record {
  local_wired = local-IsWired;
  cross_wired = cross-IsWired;
  own_place = refl;
  own_input = refl;
}

pub two_dies-HasHandles : HasHandles bench two_die_task one_channel two_channels two_die_vars
two_dies-HasHandles = record {
  threads_apart = λ e. cc e;
  local_cross = λ e. cc e;
  local_merge = λ e. cc e;
  cross_merge = λ e. cc e;
}
