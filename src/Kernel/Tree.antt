-- ===== src/Kernel/Tree.antt =====
-- `CcuSmallStagingTreeKernel`: all contributions are pulled at once, the first into the output
-- and the others into slots of the scratch buffer, and reduced pairwise along a fixed tree.
pub mod Signals
pub mod Laws
pub mod Waits
pub mod Rounds
pub mod Values
pub mod Fetch
pub mod Races
pub mod Result
use hccl_reduce_scatter.Prelude.{
  ℕ, zero, suc, ◌+◌, ◌-◌, ◌/◌, ◌||◌, Bool, not, Option, none, some, List, [], ◌∷◌, ◌++◌, map, ltb,
  ◌==◌, get_or, if◌then◌else◌, sub32, bit16, low_mask16, range_from,
}
use hccl_reduce_scatter.Status.{CcuResult, ccu_e_para}
use hccl_reduce_scatter.Ccu.{
  Address, local_reduce, read, bits, Call, event_wait, Inputs, HcclDataType, HcclReduceOp,
}
use hccl_reduce_scatter.Kernel.Args.{CcuPartialReduceKernelArg, channel_at, shift, max_rank_size}
use hccl_reduce_scatter.Kernel.Common.{run_calls, remote_inputs, exchange, nowhere, launch_on}

-- The tree over the work list: while more than one piece remains, the second half is reduced
-- into the first, piece by piece, and waited for. `remain` falls in every round, so fuel equal
-- to it is enough.
module _ (work : List Address) (bytes : ℕ) (type : HcclDataType) (op : HcclReduceOp)
    (event : ℕ) where
  abbrev pub piece_call : ℕ → ℕ → Call
  piece_call source_base piece = launch_on event (bit16 piece) (
      local_reduce (get_or work piece nowhere) (get_or work (source_base + piece) nowhere) bytes
        type op)

  abbrev pub tree_round : ℕ → List Call
  tree_round remain =
      map (piece_call (remain - remain / 2)) (range_from 0 (remain / 2))
      ++ (event_wait event (bits (low_mask16 (remain / 2))) ∷ [])

  unfoldable pub tree_rounds : ℕ → ℕ → List Call
  tree_rounds zero remain = []
  tree_rounds (suc fuel) remain =
      let rest = tree_round remain ++ tree_rounds fuel (remain - remain / 2) in
      if ltb 1 remain then rest else []

module _ (k : CcuPartialReduceKernelArg) (i : Inputs) where
  abbrev pub tree_output : Address
  tree_output = record { addr = i.task_arg 0; token = i.task_arg 1 }

  abbrev pub tree_input : Address
  tree_input = record { addr = i.task_arg 2; token = i.task_arg 3 }

  abbrev pub tree_scratch_token : ℕ
  tree_scratch_token = i.task_arg 4

  abbrev pub tree_offset : ℕ
  tree_offset = i.task_arg 5

  abbrev pub tree_bytes : ℕ
  tree_bytes = i.task_arg 6

  abbrev pub is_own_source : ℕ → Bool
  is_own_source source = source == k.local_source_index

  abbrev pub tree_remotes : List Address
  tree_remotes = remote_inputs k.base is_own_source tree_input i k.source_count 0 0

  abbrev pub first_remote_source : ℕ
  first_remote_source = if k.local_source_index == 0 then 1 else 0

  -- Where the contribution of a remote source is put.
  abbrev pub tree_slot : ℕ → Address
  tree_slot source =
      if source == first_remote_source
      then tree_output
      else record { addr = i.task_arg (7 + source); token = tree_scratch_token }

  -- The loop that pulls, with `n` sources left. `transferEvent` is event 0.
  pub tree_fetch : ℕ → ℕ → ℕ → List Call
  tree_fetch zero source channel_idx = []
  tree_fetch (suc n) source channel_idx =
      (if is_own_source source
        then []
        else launch_on 0 (bit16 channel_idx) (
            read (channel_at k.base channel_idx) (tree_slot source)
              (shift (get_or tree_remotes source nowhere) tree_offset) tree_bytes)
          ∷ [])
      ++ tree_fetch n (source + 1) (if is_own_source source then channel_idx else channel_idx + 1)

  -- The leaves of the tree: the remote contributions, then the own input.
  unfoldable pub tree_leaves : ℕ → ℕ → List Address
  tree_leaves zero source = shift tree_input tree_offset ∷ []
  tree_leaves (suc n) source =
      (if is_own_source source then [] else tree_slot source ∷ []) ++ tree_leaves n (source + 1)

  -- `reduceEvent` is event 1.
  pub tree_calls : List Call
  tree_calls =
      exchange k.base is_own_source tree_input (7 + k.source_count) k.source_count
      ++ (tree_fetch k.source_count 0 0
          ++ (event_wait 0 (bits (low_mask16 k.base.channel_count))
              ∷ tree_rounds (tree_leaves k.source_count 0) tree_bytes k.data_type k.reduce_op 1
                  k.source_count k.source_count))

abbrev pub tree_refuses : CcuPartialReduceKernelArg → Bool
tree_refuses k =
    ltb k.source_count 2
    || ltb max_rank_size k.source_count
    || not k.include_local_source
    || not (ltb k.local_source_index k.source_count)
    || not (k.base.channel_count == sub32 k.source_count 1)

pub ccu_small_staging_tree_kernel :
    (List Call → Call → CcuResult)
    → Option CcuPartialReduceKernelArg
    → Inputs
    → CcuResult × List Call
ccu_small_staging_tree_kernel reply none i = (ccu_e_para, [])
ccu_small_staging_tree_kernel reply (some k) i =
    if tree_refuses k then (ccu_e_para, []) else run_calls reply (tree_calls k i)
