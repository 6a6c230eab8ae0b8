-- ===== src/Kernel/Staging.antt =====
-- `CcuStagingKernel`: every rank writes its contributions into the peers' scratch buffers, and
-- each reduces the slots of its own buffer in rank order.
use hccl_reduce_scatter.Prelude.{
  ℕ, zero, suc, ◌+◌, ◌*◌, Bool, Option, none, some, List, [], ◌∷◌, ◌++◌, ◌==◌, get_or,
  if◌then◌else◌, sub32, bit16, low_mask16,
}
use hccl_reduce_scatter.Status.{CcuResult, ccu_e_para}
use hccl_reduce_scatter.Ccu.{
  Address, local_copy, local_reduce, write, bits, Call, event_wait, Inputs,
}
use hccl_reduce_scatter.Kernel.Args.{CcuReduceScatterKernelArg, channel_at, shift}
use hccl_reduce_scatter.Kernel.Common.{
  run_calls, remote_inputs, exchange, wait_all, record_all, synchronous, launch_on, nowhere,
}
use hccl_reduce_scatter.Kernel.Direct.{direct_refuses}

module _ (k : CcuReduceScatterKernelArg) (i : Inputs) where
  abbrev pub staging_output : Address
  staging_output = record { addr = i.task_arg 0; token = i.task_arg 1 }

  abbrev pub staging_ccl : Address
  staging_ccl = record { addr = i.task_arg 3; token = i.task_arg 4 }

  abbrev pub staging_bytes : ℕ
  staging_bytes = i.task_arg 5

  -- `sourceAddrs[peer]` with the token of the input, `stageAddrs[source]` with that of the buffer.
  abbrev pub staging_source : ℕ → Address
  staging_source peer = record { addr = i.task_arg (7 + peer); token = i.task_arg 2 }

  abbrev pub stage : ℕ → Address
  stage source = record { addr = i.task_arg (7 + k.rank_size + source); token = i.task_arg 4 }

  abbrev pub is_me : ℕ → Bool
  is_me peer = peer == k.rank_id

  abbrev pub staging_remotes : List Address
  staging_remotes = remote_inputs k.base is_me staging_ccl i k.rank_size 0 0

  -- The loop that writes to the peers, with `n` left. `transferEvent` is event 0.
  pub staging_writes : ℕ → ℕ → ℕ → List Call
  staging_writes zero peer channel_idx = []
  staging_writes (suc n) peer channel_idx =
      (if is_me peer
        then []
        else launch_on 0 (bit16 peer) (
            write (channel_at k.base channel_idx)
              (shift (get_or staging_remotes peer nowhere) (i.task_arg 6)) (staging_source peer)
              staging_bytes)
          ∷ [])
      ++ staging_writes n (peer + 1) (if is_me peer then channel_idx else channel_idx + 1)

  -- The loop that reduces the slots, with `n` left. `reduceEvent` is event 1.
  pub staging_reductions : ℕ → ℕ → List Call → List Call
  staging_reductions zero source rest = rest
  staging_reductions (suc n) source rest =
      synchronous 1
        (local_reduce staging_output (stage source) staging_bytes k.data_type k.reduce_op)
        (staging_reductions n (source + 1) rest)

  -- `DATA_READY` is 8 and `REDUCE_DONE` is 16.
  pub staging_calls : List Call
  staging_calls =
      exchange k.base is_me staging_ccl (7 + 2 * k.rank_size) k.rank_size
      ++ (launch_on 0 (bit16 k.rank_id)
            (local_copy (stage k.rank_id) (staging_source k.rank_id) staging_bytes)
          ∷ (staging_writes k.rank_size 0 0
              ++ (event_wait 0 (bits (low_mask16 k.rank_size))
                  ∷ (record_all k.base 8
                      ++ (wait_all k.base 8
                          ++ synchronous 1 (local_copy staging_output (stage 0) staging_bytes) (
                              staging_reductions (sub32 k.rank_size 1) 1
                                (record_all k.base 16 ++ wait_all k.base 16)))))))

pub ccu_staging_kernel :
    (List Call → Call → CcuResult)
    → Option CcuReduceScatterKernelArg
    → Inputs
    → CcuResult × List Call
ccu_staging_kernel reply none i = (ccu_e_para, [])
ccu_staging_kernel reply (some k) i =
    if direct_refuses k then (ccu_e_para, []) else run_calls reply (staging_calls k i)
