-- ===== src/Kernel/LocalReduce/Staged.antt =====
-- `CcuLocalReduceKernel` with staging. `CCU_IF` tests a device variable: the model lists the
-- calls that the device performs for the values at hand.
use hccl_reduce_scatter.Prelude.{
  ℕ, zero, suc, ◌+◌, List, [], ◌∷◌, ◌++◌, map, ltb, ◌==◌, if◌then◌else◌, sub32, bit16, low_mask16,
  range_from,
}
use hccl_reduce_scatter.Ccu.{
  Address, local_copy, local_reduce, read, bits, Call, event_wait, Inputs,
}
use hccl_reduce_scatter.Kernel.Args.{CcuLocalReduceKernelArg, shift}
use hccl_reduce_scatter.Kernel.Common.{synchronous, launch_on}
use hccl_reduce_scatter.Kernel.LocalReduce.Direct.{
  is_in_place, target_dst, own_share, peer_share, group_channel,
}

module _ (k : CcuLocalReduceKernelArg) (i : Inputs) where
  abbrev pub head_bytes : ℕ
  head_bytes = i.task_arg 4

  abbrev pub rest_bytes : ℕ
  rest_bytes = i.task_arg 5

  -- `stageAddrs[slot]` with the token of the CCL buffer.
  abbrev pub staging_slot : ℕ → Address
  staging_slot slot = record { addr = i.task_arg (6 + k.target_count + slot); token = i.task_arg 2 }

  -- The fetch of one part of a target's chunk from every source into a bank, whose first slot is
  -- given. `place` moves the address of a share to the part. `transferEvent` is event 0.
  abbrev pub fetch_part : (Address → Address) → ℕ → ℕ → ℕ → List Call
  fetch_part place first_slot bytes target =
      map
        (λ source. launch_on 0 (bit16 source) (
          if is_in_place k source
          then local_copy (staging_slot (first_slot + source)) (place (own_share k i target)) bytes
          else read (group_channel k i source) (staging_slot (first_slot + source))
              (place (peer_share k i source target)) bytes))
        (range_from 0 k.group_size)

  pub fetch_head : ℕ → List Call
  fetch_head target = fetch_part (λ a. a) 0 head_bytes target

  pub fetch_tail : ℕ → List Call
  fetch_tail target = fetch_part (λ a. shift a head_bytes) k.group_size rest_bytes target

  abbrev pub await_group : List Call
  await_group = event_wait 0 (bits (low_mask16 k.group_size)) ∷ []

  -- The loop that reduces the slots of a bank, with `n` left. `reduceEvent` is event 1.
  pub slot_reductions : Address → ℕ → ℕ → ℕ → List Call
  slot_reductions dst bytes zero slot = []
  slot_reductions dst bytes (suc n) slot =
      synchronous 1 (local_reduce dst (staging_slot slot) bytes k.data_type k.reduce_op)
        (slot_reductions dst bytes n (slot + 1))

  abbrev pub reduce_bank : Address → ℕ → ℕ → List Call
  reduce_bank dst bytes first_slot =
      synchronous 1 (local_copy dst (staging_slot first_slot) bytes)
        (slot_reductions dst bytes (sub32 k.group_size 1) (first_slot + 1))

  -- One target: the head from bank 0 while the tail is fetched, then the tail from bank 1 while
  -- the next target's head is fetched.
  pub staged_target : ℕ → List Call
  staged_target target =
      let has_next = ltb (target + 1) k.target_count in
      let tail =
        await_group
        ++ ((if has_next then fetch_head (target + 1) else [])
            ++ (reduce_bank (shift (target_dst k i target) head_bytes) rest_bytes k.group_size
                ++ (if has_next then await_group else []))) in
      (if rest_bytes == 0 then [] else fetch_tail target)
      ++ (reduce_bank (target_dst k i target) head_bytes 0
          ++ (if rest_bytes == 0 then [] else tail))

  -- The loop over the targets, with `n` left.
  pub staged_targets : ℕ → ℕ → List Call
  staged_targets zero target = []
  staged_targets (suc n) target = staged_target target ++ staged_targets n (target + 1)

  pub staged_group_calls : List Call
  staged_group_calls = fetch_head 0 ++ (await_group ++ staged_targets k.target_count 0)
