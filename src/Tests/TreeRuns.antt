-- ===== src/Tests/TreeRuns.antt =====
-- `CcuSmallStagingTreeKernel` on two ranks, and the collective on sixteen.
use hccl_reduce_scatter.Ccu.Race.Waits.{AllSignalled}
use hccl_reduce_scatter.Kernel.Tree.Signals.{tree_calls-AllSignalled}
use hccl_reduce_scatter.Prelude.{
  ℕ, zero, suc, ◌+◌, ◌<◌, ◌≡◌, ◌≢◌, ◌∙◌, ap, refl, true, List, map, [], ◌∷◌, if◌then◌else◌, ◌==◌,
  arith, inl, inr, get_or, lt→ltb, range_from, mul64, add64, sub32,
}
use hccl_reduce_scatter.Ccu.{fp32, sum, Call, Inputs}
use hccl_reduce_scatter.Ccu.Device.{perform_all, flights}
use hccl_reduce_scatter.Ccu.Race.{Run_total}
use hccl_reduce_scatter.Kernel.Args.{CcuPartialReduceKernelArg}
use hccl_reduce_scatter.Kernel.Common.{channel_of}
use hccl_reduce_scatter.Kernel.Tree.{tree_calls, tree_leaves}
use hccl_reduce_scatter.Kernel.Tree.Rounds.{AreApart}
use hccl_reduce_scatter.Kernel.Tree.Races.{IsFit, IsWired, leaf_at}
use hccl_reduce_scatter.Kernel.Tree.Result.{tree_reduction, tree_calls-reduces}
use hccl_reduce_scatter.Host.Types.{small_staging_tree}
use hccl_reduce_scatter.Host.Exec.Context.{Task}
use hccl_reduce_scatter.Host.Exec.Small.{exec_small_staging_tree}
use hccl_reduce_scatter.Host.Select.{use_small_staging_tree}
use hccl_reduce_scatter.Host.Select.Scratch.{IsSmallTask}
use hccl_reduce_scatter.Collective.Joined.{IsJoined}
use hccl_reduce_scatter.Collective.Runs.{last_memory, RunAll-total}
use hccl_reduce_scatter.Collective.Tree as Tree
use hccl_reduce_scatter.Collective.Tree.{tree-reduce_scatters}
use hccl_reduce_scatter.Collective.Tree.Leaves.{HasScratch}
use hccl_reduce_scatter.Tests.Bench.{memory, bench, bench-IsLawful, inputs}

abbrev two_sources : CcuPartialReduceKernelArg
two_sources = record {
  base = record { channels = 1 ∷ []; channel_count = 1 };
  source_count = 2;
  stripe_count = 1;
  local_source_index = 0;
  include_local_source = true;
  data_type = fp32;
  reduce_op = sum;
}

abbrev pair_inputs : Inputs
pair_inputs = inputs (1000 ∷ 7 ∷ 10 ∷ 7 ∷ 9 ∷ 0 ∷ 8 ∷ 2000 ∷ 2008 ∷ []) 20

abbrev pair_input_at : ℕ → ℕ
pair_input_at r = if r == 0 then 10 else 20

pair_leaves_apart :
    (s t : ℕ)
    → s < 2
    → t < 2
    → s ≢ t
    → AreApart 8 (leaf_at two_sources pair_inputs s).addr (leaf_at two_sources pair_inputs t).addr
unfolding tree_leaves add64
pair_leaves_apart zero zero hs ht away = absurd (away refl)
pair_leaves_apart zero (suc zero) hs ht away = inr (omega arith)
pair_leaves_apart (suc zero) zero hs ht away = inl (omega arith)
pair_leaves_apart (suc zero) (suc zero) hs ht away = absurd (away refl)
pair_leaves_apart (suc (suc s)) t hs ht away = absurd (omega (arith, hs))
pair_leaves_apart zero (suc (suc t)) hs ht away = absurd (omega (arith, ht))
pair_leaves_apart (suc zero) (suc (suc t)) hs ht away = absurd (omega (arith, ht))

tree_pair-IsFit : IsFit two_sources pair_inputs pair_input_at
tree_pair-IsFit = record {
  two_sources = omega arith;
  few_sources = omega arith;
  own_source = omega arith;
  one_channel_each = refl;
  in_space = λ r h. ground arith;
  leaves_apart = pair_leaves_apart;
}

pair_peer_memory :
    (r a : ℕ) → r < 2 → r ≢ 0 → bench.remote (get_or (1 ∷ []) (channel_of 0 r) 0) a ≡ memory r a
unfolding sub32
pair_peer_memory zero a h away = absurd (away refl)
pair_peer_memory (suc zero) a h away = refl
pair_peer_memory (suc (suc r)) a h away = absurd (omega (arith, h))

tree_pair-IsWired : IsWired bench two_sources pair_inputs memory pair_input_at
tree_pair-IsWired = record {
  own_addr = refl;
  peer_memory = pair_peer_memory;
  peer_addr = λ r h away. ground arith;
}

abbrev pair_outcome : ℕ → ℕ
pair_outcome = perform_all bench (flights (tree_calls two_sources pair_inputs)) (memory 0)

tree_calls-reduces_example :
    pair_outcome 1003
    ≡ tree_reduction bench two_sources pair_inputs bench-IsLawful tree_pair-IsFit tree_pair-IsWired
        (memory 0)
        (λ j h. refl)
        3
tree_calls-reduces_example =
    tree_calls-reduces bench two_sources pair_inputs bench-IsLawful tree_pair-IsFit
      tree_pair-IsWired (memory 0) (λ j h. refl)
      (Run_total bench (tree_calls two_sources pair_inputs) (memory 0)) 3 (omega arith)

-- Rank 15 of 16 with 32 elements for each.
abbrev pub sixteen_task : Task
sixteen_task = record {
  param = record {
    input_ptr = 10000;
    output_ptr = 500;
    count = 32;
    my_rank = 15;
    rank_size = 16;
    data_type = fp32;
    reduce_type = sum;
    cpu_thread = 1;
  };
  ctx = record {
    algorithm = small_staging_tree;
    ccu_thread = 1;
    local_buffer = record { addr = 900000; size = 1048576 };
    threads = 1 ∷ [];
    ccu_kernels = 11 ∷ [];
    local_ranks = [];
    target_ranks = [];
    cross_peers = [];
    cross_send_target_indices = [];
  };
  data_type_size = 4;
  recv_bytes = 128;
  input_token = 7;
  output_token = 8;
  ccl_token = 9;
}

abbrev pub sixteen_vars : ℕ → ℕ → ℕ
sixteen_vars channel id = 20

abbrev pub sixteen_input_at : ℕ → ℕ
sixteen_input_at r = if r == 15 then 10000 else 20

abbrev pub fifteen_channels : List ℕ
fifteen_channels = range_from 0 15

pub get_or-range_from : (i n s : ℕ) → s < n → get_or (range_from i n) s 0 ≡ i + s
get_or-range_from i zero s h = elim h [ ]
get_or-range_from i (suc n) zero h = omega arith
get_or-range_from i (suc n) (suc s) h = get_or-range_from (i + 1) n s (omega arith) ∙ omega arith

pub channel_lem : (r : ℕ) → r < 16 → r ≢ 15 → get_or fifteen_channels (channel_of 15 r) 0 ≡ r
channel_lem r h away =
    rw (lt→ltb r 15 (omega arith)) (get_or-range_from 0 15 r (omega arith) ∙ omega arith)

pub sixteen-IsJoined :
    IsJoined bench sixteen_task fifteen_channels sixteen_vars memory sixteen_input_at
sixteen-IsJoined = record {
  two_ranks = omega arith;
  few_ranks = omega arith;
  own_rank = omega arith;
  own_input = refl;
  peer_memory = λ r a h away. ap (λ n. memory n a) (channel_lem r h away);
  peer_addr = λ r h away. ground arith;
  output_room = omega arith;
  input_room = λ r h. ground arith;
  apart = inl (omega arith);
}

pub sixteen-HasScratch : HasScratch sixteen_task
sixteen-HasScratch = record {
  scratch_room = omega arith;
  off_output = inl (omega arith);
  off_chunk = inl (omega arith);
}

pub sixteen-IsSmallTask : IsSmallTask sixteen_task
sixteen-IsSmallTask = record {
  float_size = refl;
  chunk_bytes = refl;
  input_fits = omega arith;
  some_buffer = omega arith;
}

pub sixteen_chosen : use_small_staging_tree 32 16 ≡ true
unfolding mul64
sixteen_chosen = refl

abbrev pub sixteen_programs : List (List Call)
sixteen_programs =
    map (Tree.program_of bench sixteen_task fifteen_channels sixteen_vars)
      (exec_small_staging_tree sixteen_task).calls

tree-reduce_scatters_example :
    last_memory bench sixteen_programs (memory 15) 524
    ≡ Tree.reduction bench sixteen_task fifteen_channels sixteen_vars sixteen-IsJoined
        sixteen-HasScratch refl 24
tree-reduce_scatters_example =
    tree-reduce_scatters bench sixteen_task fifteen_channels sixteen_vars sixteen-IsJoined
      sixteen-HasScratch refl bench-IsLawful sixteen-IsSmallTask sixteen_chosen refl refl
      (memory 15) (λ a. refl) (RunAll-total bench sixteen_programs (memory 15)) 24 (omega arith)

tree_calls-AllSignalled_example : AllSignalled (tree_calls two_sources pair_inputs) []
tree_calls-AllSignalled_example =
    tree_calls-AllSignalled two_sources pair_inputs (omega arith) refl (omega arith)
