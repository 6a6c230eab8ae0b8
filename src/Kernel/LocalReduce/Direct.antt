-- ===== src/Kernel/LocalReduce/Direct.antt =====
-- `CcuLocalReduceKernel` without staging: each target starts at another source, and all targets
-- take one step at a time.
use hccl_reduce_scatter.Prelude.{
  ℕ, zero, suc, ◌+◌, ◌*◌, ◌%◌, Bool, List, [], ◌++◌, map, ◌==◌, get_or, if◌then◌else◌, add32, sub32,
  range_from,
}
use hccl_reduce_scatter.Ccu.{
  Address, Transfer, local_copy, local_reduce, read, read_reduce, unmasked, Call, start, event_wait,
  Inputs,
}
use hccl_reduce_scatter.Kernel.Args.{CcuLocalReduceKernelArg, channel_at, shift}
use hccl_reduce_scatter.Kernel.Common.{remote_inputs, channel_of, nowhere}

module _ (k : CcuLocalReduceKernelArg) where
  abbrev pub is_in_place : ℕ → Bool
  is_in_place source = source == k.group_rank_id

  -- The index of `targetOffsets[0]`, and that of `dstAddrs[0]`: the staging slots stand between.
  abbrev pub first_target_arg : ℕ
  first_target_arg = if k.use_staging then 6 else 3

  abbrev pub first_dst_arg : ℕ
  first_dst_arg =
      first_target_arg + k.target_count + (if k.use_staging then 2 * k.group_size else 0)

abbrev pub group_input : Inputs → Address
group_input i = record { addr = i.task_arg 0; token = i.task_arg 1 }

module _ (k : CcuLocalReduceKernelArg) (i : Inputs) where
  abbrev pub target_offset : ℕ → ℕ
  target_offset target = i.task_arg (first_target_arg k + target)

  abbrev pub target_dst : ℕ → Address
  target_dst target = record {
    addr = i.task_arg (first_dst_arg k + target);
    token = i.task_arg (first_dst_arg k + k.target_count + target);
  }

  abbrev pub group_remotes : List Address
  group_remotes = remote_inputs k.base (is_in_place k) (group_input i) i k.group_size 0 0

  -- `chunkBytes`
  abbrev pub group_bytes : ℕ
  group_bytes = i.task_arg (if k.use_staging then 3 else 2)

  abbrev pub group_channel : ℕ → ℕ
  group_channel source = channel_at k.base (channel_of k.group_rank_id source)

  abbrev pub own_share : ℕ → Address
  own_share target = shift (group_input i) (target_offset target)

  abbrev pub peer_share : ℕ → ℕ → Address
  peer_share source target = shift (get_or group_remotes source nowhere) (target_offset target)

  -- The first contribution to a target.
  abbrev pub first_share : ℕ → Transfer
  first_share target =
      if is_in_place k target
      then local_copy (target_dst target) (own_share target) group_bytes
      else read (group_channel target) (target_dst target) (peer_share target target) group_bytes

  abbrev pub group_source : ℕ → ℕ → ℕ
  group_source step target = add32 target step % k.group_size

  abbrev pub next_share : ℕ → ℕ → Transfer
  next_share step target =
      let source = group_source step target in
      if is_in_place k source
      then local_reduce (target_dst target) (own_share target) group_bytes k.data_type k.reduce_op
      else read_reduce (group_channel source) (target_dst target) (peer_share source target)
          group_bytes k.data_type k.reduce_op

  -- One transfer for each target on the target's own event, and the waits for all of them.
  abbrev pub group_round : (ℕ → Transfer) → List Call
  group_round share =
      map (λ target. start (record { transfer = share target; event = target; mask = unmasked }))
        (range_from 0 k.target_count)
      ++ map (λ target. event_wait target unmasked) (range_from 0 k.target_count)

  -- The loop over the steps, with `n` rounds left.
  pub group_steps : ℕ → ℕ → List Call
  group_steps zero step = []
  group_steps (suc n) step = group_round (next_share step) ++ group_steps n (step + 1)

  pub direct_group_calls : List Call
  direct_group_calls = group_round first_share ++ group_steps (sub32 k.group_size 1) 1
