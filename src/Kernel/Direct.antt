-- ===== src/Kernel/Direct.antt =====
-- `CcuKernel`: the direct mesh. A rank copies its own chunk to the output and then reduces the
-- chunk of every peer into it, in cyclic order.
pub mod Signals
pub mod Laws
use hccl_reduce_scatter.Prelude.{
  ℕ, zero, suc, ◌+◌, ◌%◌, ◌||◌, Bool, not, Option, none, some, List, [], ◌∷◌, ◌++◌, ltb, ◌==◌,
  get_or, if◌then◌else◌, add64, add32, sub32,
}
use hccl_reduce_scatter.Status.{CcuResult, ccu_e_para}
use hccl_reduce_scatter.Ccu.{Address, Transfer, local_copy, read_reduce, Call, Inputs}
use hccl_reduce_scatter.Kernel.Args.{CcuReduceScatterKernelArg, channel_at, shift}
use hccl_reduce_scatter.Kernel.Common.{
  run_calls, remote_inputs, exchange, channel_of, nowhere, synchronous,
}

module _ (k : CcuReduceScatterKernelArg) (i : Inputs) where
  abbrev pub direct_output : Address
  direct_output = record { addr = i.task_arg 0; token = i.task_arg 1 }

  abbrev pub direct_input : Address
  direct_input = record { addr = i.task_arg 2; token = i.task_arg 3 }

  abbrev pub direct_offset : ℕ
  direct_offset = i.task_arg 4

  abbrev pub direct_bytes : ℕ
  direct_bytes = i.task_arg 5

  abbrev is_own : ℕ → Bool
  is_own peer = peer == k.rank_id

  abbrev direct_remotes : List Address
  direct_remotes = remote_inputs k.base is_own direct_input i k.rank_size 0 0

  abbrev source_rank : ℕ → ℕ
  source_rank step = add32 k.rank_id step % k.rank_size

  -- The reduction of one step; `reduceEvent` is event 0.
  abbrev pub direct_transfer : ℕ → Transfer
  direct_transfer step =
      let source = source_rank step in
      read_reduce (channel_at k.base (channel_of k.rank_id source)) direct_output
        (shift (get_or direct_remotes source nowhere) direct_offset) direct_bytes k.data_type
        k.reduce_op

  -- The loop over the steps, with `n` rounds left.
  direct_steps : ℕ → ℕ → List Call
  direct_steps zero step = []
  direct_steps (suc n) step = synchronous 0 (direct_transfer step) (direct_steps n (step + 1))

  abbrev pub direct_copy : Transfer
  direct_copy = local_copy direct_output (shift direct_input direct_offset) direct_bytes

  -- The kernel from the local copy on.
  abbrev direct_reduction : List Call
  direct_reduction = synchronous 0 direct_copy (direct_steps (sub32 k.rank_size 1) 1)

  pub direct_calls : List Call
  direct_calls = exchange k.base is_own direct_input 6 k.rank_size ++ direct_reduction

abbrev pub direct_refuses : CcuReduceScatterKernelArg → Bool
direct_refuses k = ltb k.rank_size 2 || not (k.base.channel_count == sub32 k.rank_size 1)

-- A null argument is `none`.
pub ccu_kernel :
    (List Call → Call → CcuResult)
    → Option CcuReduceScatterKernelArg
    → Inputs
    → CcuResult × List Call
ccu_kernel reply none i = (ccu_e_para, [])
ccu_kernel reply (some k) i =
    if direct_refuses k then (ccu_e_para, []) else run_calls reply (direct_calls k i)
