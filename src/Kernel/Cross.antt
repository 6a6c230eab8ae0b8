-- ===== src/Kernel/Cross.antt =====
-- `CcuCrossReduceKernel`: a rank offers its partials to its peers, reduces the partial of its
-- first peer into the output, and lets every peer know that it has read.
use hccl_reduce_scatter.Prelude.{
  ℕ, ◌+◌, ◌||◌, Bool, Option, none, some, List, [], ◌∷◌, ◌++◌, foldl, ltb, ◌==◌, get_or,
  if◌then◌else◌, flat_map, range_from,
}
use hccl_reduce_scatter.Status.{CcuResult, ccu_e_para}
use hccl_reduce_scatter.Ccu.{
  Address, Transfer, read_reduce, Call, write_variable, Inputs, channel_notify_index,
}
use hccl_reduce_scatter.Kernel.Args.{CcuCrossReduceKernelArg, channel_at, max_cross_peers}
use hccl_reduce_scatter.Kernel.Common.{
  run_calls, load_args, wait_all, record_all, synchronous, remote_addr_id, remote_token_id,
  addr_ready, token_ready,
}

module _ (k : CcuCrossReduceKernelArg) (i : Inputs) where
  abbrev pub cross_output : Address
  cross_output = record { addr = i.task_arg 0; token = i.task_arg 1 }

  abbrev pub cross_ccl_token : ℕ
  cross_ccl_token = i.task_arg 2

  -- What a channel is told: the partial of the last send entry that names it, or the output.
  pub advertised : ℕ → Address
  advertised channel =
      foldl
        (λ found send_idx.
          if get_or k.send_channel_indices send_idx 0 == channel
          then record { addr = i.task_arg (4 + send_idx); token = cross_ccl_token }
          else found)
        cross_output (range_from 0 k.send_count)

  pub cross_advertise : List Call
  cross_advertise =
      flat_map
        (λ channel.
          write_variable (channel_at k.base channel) (advertised channel).addr remote_addr_id
            channel_notify_index addr_ready
          ∷ write_variable (channel_at k.base channel) (advertised channel).token remote_token_id
              channel_notify_index token_ready
          ∷ [])
        (range_from 0 k.base.channel_count)

  abbrev pub cross_source : Address
  cross_source = record {
    addr = i.res_by_channel (channel_at k.base 0) remote_addr_id;
    token = i.res_by_channel (channel_at k.base 0) remote_token_id;
  }

  abbrev pub cross_transfer : Transfer
  cross_transfer =
      read_reduce (channel_at k.base 0) cross_output cross_source (i.task_arg 3) k.data_type
        k.reduce_op

  -- `CROSS_READ_DONE` is 8.
  pub cross_calls : List Call
  cross_calls =
      load_args (4 + k.send_count)
      ++ (cross_advertise
          ++ (wait_all k.base 6
              ++ synchronous 0 cross_transfer (record_all k.base 8 ++ wait_all k.base 8)))

abbrev pub cross_refuses : CcuCrossReduceKernelArg → Bool
cross_refuses k =
    k.base.channel_count == 0
    || ltb max_cross_peers k.base.channel_count
    || ltb k.base.channel_count k.send_count

pub ccu_cross_reduce_kernel :
    (List Call → Call → CcuResult) → Option CcuCrossReduceKernelArg → Inputs → CcuResult × List Call
ccu_cross_reduce_kernel reply none i = (ccu_e_para, [])
ccu_cross_reduce_kernel reply (some k) i =
    if cross_refuses k then (ccu_e_para, []) else run_calls reply (cross_calls k i)
