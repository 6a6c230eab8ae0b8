-- ===== src/Collective/Clos.antt =====
-- The algorithm `SMALL_CLOS_PARALLEL` from the arguments of the collective to its result.
use mathlib.Core.Path.{subst}
use hccl_reduce_scatter.Prelude.{
  ℕ, ◌+◌, ◌-◌, ◌*◌, ◌≤◌, ◌<◌, ◌≡◌, ◌≢◌, sym, ◌∙◌, ap, true, false, List, [], ◌∷◌, map, arith, ltb,
  get_or, word64, sub32_small, length, if◌then◌else◌,
}
use hccl_reduce_scatter.Ccu.{Call, Inputs}
use hccl_reduce_scatter.Ccu.Device.{Device, IsLawful}
use hccl_reduce_scatter.Kernel.Args.{CcuTiledPartialReduceKernelArg}
use hccl_reduce_scatter.Kernel.Common.{channel_of}
use hccl_reduce_scatter.Kernel.Tiled.{tiled_calls}
use hccl_reduce_scatter.Kernel.Tiled.Fetch.{remote_source}
use hccl_reduce_scatter.Kernel.Tiled.Places.{Apart}
use hccl_reduce_scatter.Kernel.Tiled.Result.{IsWired, source_order, tiled_calls-reduces}
use hccl_reduce_scatter.Kernel.Tree.Values.{tree_value, tree_value-eq}
use hccl_reduce_scatter.Host.Types.{
  HostCall, kernel_launch, local_copy_on_thread, get_mem_token, notify_record_on_thread,
  notify_wait_on_thread,
}
use hccl_reduce_scatter.Host.Register.{small_clos_kernel_arg}
use hccl_reduce_scatter.Host.Exec.Context.{Task, ccl_addr, rank_offset}
use hccl_reduce_scatter.Host.Exec.Partial.{exec_partial, partial_tile, full_tile_count}
use hccl_reduce_scatter.Host.Select.{use_small_clos_parallel}
use hccl_reduce_scatter.Host.Select.Scratch.{IsSmallTask, small_clos_parallel-fits}
use hccl_reduce_scatter.Collective.Joined.{IsJoined}
use hccl_reduce_scatter.Collective.Slots as Slots
use hccl_reduce_scatter.Collective.Slots.{IsLaidOut, laid-IsPlaced, chunk_lem, offset_lem}
use hccl_reduce_scatter.Collective.Runs.{RunAll, all_done, next}

-- The two banks of slots in the CCL buffer: in the address space, and apart from the output and
-- from the chunk that is due to this rank.
pub record HasBanks (c : Task) : Type 0 where
  pub banks_room : ccl_addr c + 2 * c.param.rank_size * c.recv_bytes < word64
  pub off_output :
      Apart (ccl_addr c) (2 * c.param.rank_size * c.recv_bytes) c.param.output_ptr c.recv_bytes
  pub off_chunk :
      Apart
        (ccl_addr c)
        (2 * c.param.rank_size * c.recv_bytes)
        (c.param.input_ptr + c.param.my_rank * c.recv_bytes)
        c.recv_bytes

module _ {V : Type 0} (D : Device V) (c : Task) (channels : List ℕ) (vars : ℕ → ℕ → ℕ) where
  abbrev pub kernel_arg : CcuTiledPartialReduceKernelArg
  kernel_arg = small_clos_kernel_arg c.param channels

  abbrev pub kernel_inputs : Inputs
  kernel_inputs =
      Slots.inputs false c kernel_arg vars c.param.output_ptr c.output_token (ccl_addr c)

  -- The kernel that a launch of this algorithm runs.
  abbrev pub program_of : HostCall → List Call
  program_of (kernel_launch thread kernel args) =
      tiled_calls kernel_arg (record { task_arg = λ n. get_or args n 0; res_by_channel = vars })
  program_of (local_copy_on_thread _ _ _ _) = []
  program_of (get_mem_token _ _) = []
  program_of (notify_record_on_thread _ _ _) = []
  program_of (notify_wait_on_thread _ _) = []

  module _ {memory : ℕ → ℕ → V} {input_addr : ℕ → ℕ}
      (joined : IsJoined D c channels vars memory input_addr) (banks : HasBanks c)
      (count : length channels ≡ c.param.rank_size - 1) where
    abbrev ranks : ℕ
    ranks = c.param.rank_size

    laid_out :
        partial_tile false c ≡ c.recv_bytes
        → 1 ≤ c.recv_bytes
        → IsLaidOut false c kernel_arg vars c.param.output_ptr c.output_token (ccl_addr c)
    laid_out tile some =
        let few = joined.few_ranks in
        let two = joined.two_ranks in
        let all : 2 * ranks * partial_tile false c ≡ 2 * ranks * c.recv_bytes =
          ap (λ t. 2 * ranks * t) tile in
        record {
          channeled = record { own_source = λ e. joined.own_rank; one_channel_each = omega arith };
          some_channel = omega arith;
          few_sources = few;
          some_tile = omega arith;
          offset_space = omega (arith, joined.input_room c.param.my_rank joined.own_rank);
          output_space = joined.output_room;
          own_space = λ e.
              omega (arith, joined.input_room c.param.my_rank joined.own_rank, joined.own_input);
          slots_space = omega (arith, banks.banks_room, all);
          off_output =
              subst (λ n. Apart (ccl_addr c) n c.param.output_ptr c.recv_bytes) (sym all)
                banks.off_output;
          off_own = λ e.
              subst
                (λ n.
                  Apart (ccl_addr c) n (c.param.input_ptr + c.param.my_rank * c.recv_bytes)
                    c.recv_bytes)
                (sym all) banks.off_chunk;
          output_off_own = λ e. joined.apart;
        }

    channel_lem :
        (r : ℕ)
        → r < ranks - 1
        → channel_of c.param.my_rank (remote_source kernel_arg kernel_inputs r) ≡ r
    channel_lem r h = let few = joined.few_ranks in ground (arith, sub32_small (r + 1) 1)

    source_away : (r : ℕ) → remote_source kernel_arg kernel_inputs r ≢ c.param.my_rank
    source_away r = ground arith

    source_low : (r : ℕ) → r < ranks - 1 → remote_source kernel_arg kernel_inputs r < ranks
    source_low r h = ground arith

    abbrev source : ℕ → ℕ
    source r = remote_source kernel_arg kernel_inputs r

    wired :
        IsLaidOut false c kernel_arg vars c.param.output_ptr c.output_token (ccl_addr c)
        → IsWired D kernel_arg kernel_inputs memory input_addr (full_tile_count false c)
    wired laid = record {
      source_memory = λ r a h.
          ap (λ n. D.remote (get_or channels n 0) a) (sym (channel_lem r (omega arith)))
          ∙ joined.peer_memory (source r) a (source_low r (omega arith)) (source_away r);
      source_addr = λ r h.
          ap (λ n. vars (get_or channels n 0) 1) (sym (channel_lem r (omega arith)))
          ∙ joined.peer_addr (source r) (source_low r (omega arith)) (source_away r);
      source_space = λ r h. omega (
        arith,
        joined.input_room (source r) (source_low r (omega arith)),
        offset_lem false c kernel_arg vars c.param.output_ptr c.output_token (ccl_addr c) laid,
        chunk_lem false c kernel_arg vars c.param.output_ptr c.output_token (ccl_addr c),
      );
    }

    -- The contribution of a rank at a position of the chunk that is due to this rank.
    abbrev pub contribution : ℕ → ℕ → V
    contribution e r = memory r (input_addr r + c.param.my_rank * c.recv_bytes + e)

    -- The ranks at the leaves: the others in their order, then the own one.
    abbrev pub order : ℕ → ℕ
    order t =
        if ltb t (ranks - 1) then if ltb t c.param.my_rank then t else t + 1 else c.param.my_rank

    -- The contributions of all ranks, combined by the tree.
    abbrev pub reduction : ℕ → V
    reduction e =
        tree_value (D.combine c.param.data_type c.param.reduce_type) ranks ranks
          (λ t. contribution e (order t))

    order_lem : (t : ℕ) → source_order D kernel_arg kernel_inputs t ≡ order t
    order_lem t = let each = count in ground arith

    only_run :
        IsLawful D
        → IsLaidOut false c kernel_arg vars c.param.output_ptr c.output_token (ccl_addr c)
        → (m : ℕ → V) → ((a : ℕ) → m a ≡ memory c.param.my_rank a)
        → (e : ℕ) → e < c.recv_bytes
        → {m' : ℕ → V} → RunAll D (tiled_calls kernel_arg kernel_inputs ∷ []) m m'
        → m' (c.param.output_ptr + e) ≡ reduction e
    only_run lawful laid m own e h (next run all_done) =
        let placed =
          laid-IsPlaced false c kernel_arg vars c.param.output_ptr c.output_token (ccl_addr c)
            laid in
        let chunk =
          chunk_lem false c kernel_arg vars c.param.output_ptr c.output_token (ccl_addr c) in
        let offset =
          offset_lem false c kernel_arg vars c.param.output_ptr c.output_token (ccl_addr c) laid in
        tiled_calls-reduces D kernel_arg kernel_inputs lawful placed (wired laid) m
          (λ i j l.
            own _ ∙ ap (λ b. memory c.param.my_rank (b + rank_offset c + j)) joined.own_input)
          run e (omega arith)
        ∙ tree_value-eq (D.combine c.param.data_type c.param.reduce_type) ranks ranks _ _
            (omega (arith, joined.two_ranks))
            (λ p below.
              ap (λ r. memory r (input_addr r + rank_offset c + e)) (order_lem p)
              ∙ ap (λ o. memory (order p) (input_addr (order p) + o + e)) offset)

    -- On a lawful device, for a rank joined to the others with one channel for each peer and two
    -- banks of slots apart from its output and its chunk, where the parallel reduction of twelve
    -- ranks is chosen, with one kernel, one thread, a CCL buffer of 1 MB at least and an input below
    -- the address space: after every run of the launches that `ExecOp` makes each element of the
    -- chunk is in the output as the combination of the contributions of all ranks by exactly the
    -- tree of the kernel.
    pub clos-reduce_scatters :
        IsLawful D
        → IsSmallTask c
        → use_small_clos_parallel c.param.count c.param.rank_size ≡ true
        → length c.ctx.ccu_kernels ≡ 1
        → length c.ctx.threads ≡ 1
        → (m : ℕ → V) → ((a : ℕ) → m a ≡ memory c.param.my_rank a)
        → {m' : ℕ → V} → RunAll D (map program_of (exec_partial false c).calls) m m'
        → (e : ℕ) → e < c.recv_bytes
        → m' (c.param.output_ptr + e) ≡ reduction e
    clos-reduce_scatters lawful small chosen kernel thread m own {m'} runs e h =
        let (plan, tile, room) = small_clos_parallel-fits c small chosen kernel thread in
        let programs : map program_of (exec_partial false c).calls
            ≡ tiled_calls kernel_arg kernel_inputs ∷ [] =
          ap (λ p. map program_of p.calls) plan in
        only_run lawful (laid_out tile (omega arith)) m own e h
          (subst (λ ps. RunAll D ps m m') programs runs)
