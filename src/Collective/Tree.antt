-- ===== src/Collective/Tree.antt =====
-- The algorithm `SMALL_STAGING_TREE` from the arguments of the collective to its result.
pub mod Leaves
use mathlib.Core.Path.{subst}
use hccl_reduce_scatter.Status.{hccl_success}
use hccl_reduce_scatter.Prelude.{
  ℕ, zero, suc, ◌+◌, ◌-◌, ◌*◌, ◌≤◌, ◌<◌, ◌≡◌, ◌≢◌, ◌⊎◌, refl, sym, ◌∙◌, ap, true, false, List, [],
  ◌∷◌, map, arith, inl, inr, Bool-cases, ltb, ltb→lt, ltb→le, ◌==◌, get_or, range_from, word64,
  mul64, mul64_small, add64, add64_small, sub32_small, length,
}
use hccl_reduce_scatter.Ccu.{Call, Inputs, Address}
use hccl_reduce_scatter.Ccu.Device.{Device, IsLawful, Run}
use hccl_reduce_scatter.Kernel.Args.{CcuPartialReduceKernelArg}
use hccl_reduce_scatter.Kernel.Tree.{
  tree_calls, tree_refuses, tree_bytes, tree_offset, first_remote_source,
}
use hccl_reduce_scatter.Kernel.Tree.Fetch.{
  leaves_slot, leaves_own, remote_source, slot_of, own_leaf,
}
use hccl_reduce_scatter.Kernel.Tree.Races.{IsFit, IsWired, leaf_at, source_order}
use hccl_reduce_scatter.Kernel.Tree.Rounds.{AreApart}
use hccl_reduce_scatter.Kernel.Tree.Values.{tree_value}
use hccl_reduce_scatter.Kernel.Tree.Result.{tree_calls-reduces}
use hccl_reduce_scatter.Host.Types.{
  HostCall, kernel_launch, local_copy_on_thread, get_mem_token, notify_record_on_thread,
  notify_wait_on_thread,
}
use hccl_reduce_scatter.Host.Register.{small_tree_kernel_arg}
use hccl_reduce_scatter.Host.Exec.Context.{Task, rank_offset, ccl_addr}
use hccl_reduce_scatter.Host.Exec.Small.{tree_slot_addr, small_tree_args, exec_small_staging_tree}
use hccl_reduce_scatter.Host.Select.{use_small_staging_tree}
use hccl_reduce_scatter.Host.Select.Scratch.{IsSmallTask, small_staging_tree-fits}
use hccl_reduce_scatter.Collective.Tree.Leaves.{
  HasScratch, arg, inputs, joined-IsWired, joined-IsFit, chunk_offset,
}
use hccl_reduce_scatter.Collective.Joined.{IsJoined}
use hccl_reduce_scatter.Collective.Runs.{RunAll, all_done, next, last_memory, RunAll-total}

module _ {V : Type 0} (D : Device V) (c : Task) (channels : List ℕ) (vars : ℕ → ℕ → ℕ) where
  abbrev pub kernel_arg : CcuPartialReduceKernelArg
  kernel_arg = arg D c channels vars

  abbrev pub kernel_inputs : Inputs
  kernel_inputs = inputs D c channels vars

  -- The kernel that a launch of this algorithm runs.
  abbrev pub program_of : HostCall → List Call
  program_of (kernel_launch thread kernel args) =
      tree_calls kernel_arg (record { task_arg = λ n. get_or args n 0; res_by_channel = vars })
  program_of (local_copy_on_thread _ _ _ _) = []
  program_of (get_mem_token _ _) = []
  program_of (notify_record_on_thread _ _ _) = []
  program_of (notify_wait_on_thread _ _) = []

  module _ {memory : ℕ → ℕ → V} {input_addr : ℕ → ℕ}
      (joined : IsJoined D c channels vars memory input_addr) (scratch : HasScratch c)
      (count : length channels ≡ c.param.rank_size - 1) where
    abbrev ranks : ℕ
    ranks = c.param.rank_size

    -- The contribution of a rank at a position of the chunk that is due to this rank.
    abbrev pub contribution : ℕ → ℕ → V
    contribution e r = memory r (input_addr r + c.param.my_rank * c.recv_bytes + e)

    -- The contributions of all ranks, combined by the tree.
    abbrev pub reduction : ℕ → V
    reduction e =
        tree_value (D.combine c.param.data_type c.param.reduce_type) ranks ranks
          (λ t. contribution e (source_order kernel_arg kernel_inputs t))

    only_run :
        IsLawful D
        → (m : ℕ → V) → ((a : ℕ) → m a ≡ memory c.param.my_rank a)
        → (e : ℕ) → e < c.recv_bytes
        → {m' : ℕ → V} → RunAll D (tree_calls kernel_arg kernel_inputs ∷ []) m m'
        → m' (c.param.output_ptr + e) ≡ reduction e
    only_run lawful m own e h (next run all_done) =
        tree_calls-reduces D kernel_arg kernel_inputs lawful
          (joined-IsFit D c channels vars joined scratch count)
          (joined-IsWired D c channels vars joined scratch count) m (λ j l. own _) run e h
        ∙ ap
            (λ o. tree_value (D.combine c.param.data_type c.param.reduce_type) ranks ranks (λ t.
              memory (source_order kernel_arg kernel_inputs t)
                (input_addr (source_order kernel_arg kernel_inputs t) + o + e)))
            (chunk_offset D c channels vars joined scratch count)

    -- On a lawful device, for a rank joined to the others with one channel for each peer and slots
    -- apart from its output and its chunk, where the small staging tree is chosen, with one
    -- kernel, one thread, a CCL buffer of 1 MB at least and an input below the address space: after
    -- every run of the launches that `ExecOp` makes each element of the chunk is in the output as
    -- the combination of the contributions of all ranks by exactly the tree of the kernel.
    pub tree-reduce_scatters :
        IsLawful D
        → IsSmallTask c
        → use_small_staging_tree c.param.count c.param.rank_size ≡ true
        → length c.ctx.ccu_kernels ≡ 1
        → length c.ctx.threads ≡ 1
        → (m : ℕ → V) → ((a : ℕ) → m a ≡ memory c.param.my_rank a)
        → {m' : ℕ → V} → RunAll D (map program_of (exec_small_staging_tree c).calls) m m'
        → (e : ℕ) → e < c.recv_bytes
        → m' (c.param.output_ptr + e) ≡ reduction e
    tree-reduce_scatters lawful small chosen kernel thread m own {m'} runs e h =
        let plan = small_staging_tree-fits c small chosen kernel thread in
        let programs : map program_of (exec_small_staging_tree c).calls
            ≡ tree_calls kernel_arg kernel_inputs ∷ [] =
          ap (λ p. map program_of p.calls) plan in
        only_run lawful m own e h (subst (λ ps. RunAll D ps m m') programs runs)
