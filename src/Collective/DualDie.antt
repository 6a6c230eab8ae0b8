-- ===== src/Collective/DualDie.antt =====
-- The algorithm `DUAL_DIE_PARTIAL`: two tiled kernels side by side, and the merge of their partials.
pub mod Cells
pub mod Result
pub mod Refines
pub mod Threads
use mathlib.Core.Path.{subst}
use hccl_reduce_scatter.Status.{hccl_success}
use hccl_reduce_scatter.Prelude.{
  ℕ, zero, suc, ◌+◌, ◌-◌, ◌*◌, ◌≤◌, ◌<◌, ◌≡◌, ◌⊎◌, refl, sym, ◌∙◌, ap, true, false, List, [], ◌∷◌,
  arith, inl, inr, get_or, word64, length, All,
}
use hccl_reduce_scatter.Ccu.{Call, Inputs, Flight}
use hccl_reduce_scatter.Ccu.Device.{Device, IsLawful, Run, perform_all, flights}
use hccl_reduce_scatter.Ccu.Race.{IsRaceFree, Run-eq, Run_total}
use hccl_reduce_scatter.Ccu.Race.Parallel.{RunBoth, RunBoth-eq, RunBoth-total}
use hccl_reduce_scatter.Kernel.Args.{CcuTiledPartialReduceKernelArg, CcuMergePartialKernelArg}
use hccl_reduce_scatter.Kernel.Tiled.{tiled_calls}
use hccl_reduce_scatter.Kernel.Tiled.Fetch.{IsChanneled}
use hccl_reduce_scatter.Kernel.Tiled.Places.{Apart, count}
use hccl_reduce_scatter.Kernel.Tiled.Races.{tiled_calls-IsRaceFree}
use hccl_reduce_scatter.Kernel.Tiled.Footprint.{
  Stays, Stays-Commutes, Stays-frame, tiled_calls-Stays,
}
use hccl_reduce_scatter.Kernel.Tiled.Result.{IsWired, tiled_reduction, tiled_calls-reduces}
use hccl_reduce_scatter.Kernel.Merge.{merge_calls}
use hccl_reduce_scatter.Host.Register.{make_tiled_partial_kernel_arg, merge_kernel_arg}
use hccl_reduce_scatter.Host.Resources.Groups.{index_of}
use hccl_reduce_scatter.Host.Exec.Context.{Task, ccl_addr, ccl_size}
use hccl_reduce_scatter.Host.Exec.Partial.{
  exec_partial, partial_tile, full_tile_count, cross_scratch_addr, cross_partial_addr, merge_args,
  local_args, cross_args, dual_die_calls,
}
use hccl_reduce_scatter.Host.Exec.Partial.Laws.{IsDualDie, exec_partial-fits}
use hccl_reduce_scatter.Collective.Slots as Slots
use hccl_reduce_scatter.Collective.Slots.{
  IsLaidOut, In, laid-IsPlaced, chunk_lem, slot_region, leaf_region,
}

module _ {V : Type 0} (D : Device V) (c : Task) (local_channels cross_channels : List ℕ)
    (vars : ℕ → ℕ → ℕ) where
  abbrev pub local_arg : CcuTiledPartialReduceKernelArg
  local_arg =
      make_tiled_partial_kernel_arg c.param local_channels (length c.ctx.local_ranks) true
        (index_of c.param.my_rank c.ctx.local_ranks)

  abbrev pub cross_arg : CcuTiledPartialReduceKernelArg
  cross_arg =
      make_tiled_partial_kernel_arg c.param cross_channels (length c.ctx.cross_peers) false 0

  abbrev pub merge_arg : CcuMergePartialKernelArg
  merge_arg = merge_kernel_arg c.param

  abbrev pub local_inputs : Inputs
  local_inputs = record { task_arg = λ n. get_or (local_args true c) n 0; res_by_channel = vars }

  abbrev pub cross_inputs : Inputs
  cross_inputs = record { task_arg = λ n. get_or (cross_args true c) n 0; res_by_channel = vars }

  abbrev pub merge_inputs : Inputs
  merge_inputs = record { task_arg = λ n. get_or (merge_args true c) n 0; res_by_channel = vars }

  abbrev pub chunk_at : ℕ
  chunk_at = c.param.input_ptr + c.param.my_rank * c.recv_bytes

  -- A rank of two dies: it is in its local group, with a channel for each other rank of the group
  -- and each rank of the other die; its output, its chunk and the CCL buffer lie in the address
  -- space, apart from each other.
  pub record IsTwoDies : Type 0 where
    pub dual : IsDualDie c
    pub some_tile : 1 ≤ partial_tile true c
    pub in_group : index_of c.param.my_rank c.ctx.local_ranks < length c.ctx.local_ranks
    pub local_count : length c.ctx.local_ranks ≡ suc (length local_channels)
    pub cross_count : length c.ctx.cross_peers ≡ length cross_channels
    pub some_peer : 1 ≤ length local_channels
    pub offset_space : c.param.my_rank * c.recv_bytes + c.recv_bytes < word64
    pub output_space : c.param.output_ptr + c.recv_bytes < word64
    pub chunk_space : chunk_at + c.recv_bytes < word64
    pub off_output : Apart (ccl_addr c) (ccl_size c) c.param.output_ptr c.recv_bytes
    pub off_chunk : Apart (ccl_addr c) (ccl_size c) chunk_at c.recv_bytes
    pub output_off_chunk : Apart c.param.output_ptr c.recv_bytes chunk_at c.recv_bytes

  module _ (dies : IsTwoDies) (kernels : length c.ctx.ccu_kernels ≡ 3)
      (threads : length c.ctx.threads ≡ 2) where
    pub plan :
        (exec_partial true c ≡ record { calls = dual_die_calls true c; result = hccl_success })
        × (ccl_addr c + 2 * length c.ctx.local_ranks * partial_tile true c
            ≡ cross_scratch_addr true c)
        × (cross_scratch_addr true c + 2 * length c.ctx.cross_peers * partial_tile true c
            ≡ cross_partial_addr true c)
        × (cross_partial_addr true c + c.recv_bytes ≤ ccl_addr c + ccl_size c)
    plan = exec_partial-fits c dies.dual kernels threads dies.some_tile

    pub local_laid : IsLaidOut true c local_arg vars c.param.output_ptr c.output_token (ccl_addr c)
    local_laid =
        let (made, local_end, cross_end, room) = plan in
        let few = dies.dual.few in
        let space = dies.dual.in_space in
        record {
          channeled = record {
            own_source = λ e. dies.in_group;
            one_channel_each = omega (arith, dies.local_count);
          };
          some_channel = dies.some_peer;
          few_sources = omega arith;
          some_tile = dies.some_tile;
          offset_space = dies.offset_space;
          output_space = dies.output_space;
          own_space = λ e. dies.chunk_space;
          slots_space = omega arith;
          off_output = elim dies.off_output [
            | inl l ↦ inl (omega arith)
            | inr l ↦ inr (omega arith)
          ];
          off_own =
              λ e. elim dies.off_chunk [ inl l ↦ inl (omega arith) | inr l ↦ inr (omega arith) ];
          output_off_own = λ e. dies.output_off_chunk;
        }

    pub cross_laid :
        IsLaidOut true c cross_arg vars
          (cross_partial_addr true c)
          c.ccl_token
          (cross_scratch_addr true c)
    cross_laid =
        let (made, local_end, cross_end, room) = plan in
        let few = dies.dual.few in
        let some = dies.dual.cross_some in
        let space = dies.dual.in_space in
        record {
          channeled = record {
            own_source = λ e. cc e;
            one_channel_each = omega (arith, dies.cross_count);
          };
          some_channel = omega (arith, dies.cross_count);
          few_sources = omega arith;
          some_tile = dies.some_tile;
          offset_space = dies.offset_space;
          output_space = omega arith;
          own_space = λ e. cc e;
          slots_space = omega arith;
          off_output = inl (omega arith);
          off_own = λ e. cc e;
          output_off_own = λ e. cc e;
        }
