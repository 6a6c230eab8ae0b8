-- ===== src/Kernel/Striped.antt =====
-- `CcuPartialReduceKernel`: the chunk is cut into stripes, and in every round each stripe takes
-- the next source in cyclic order, all stripes at once.
pub mod Signals
pub mod Stripe
pub mod Rounds
use hccl_reduce_scatter.Prelude.{
  ℕ, zero, suc, ◌+◌, ◌-◌, ◌*◌, ◌%◌, ◌||◌, ◌&&◌, Bool, not, Option, none, some, List, [], ◌∷◌, ◌++◌,
  map, ltb, ◌==◌, get_or, if◌then◌else◌, add32, sub32, bit16, low_mask16, range_from,
}
use hccl_reduce_scatter.Status.{CcuResult, ccu_e_para}
use hccl_reduce_scatter.Ccu.{
  Address, Transfer, local_copy, local_reduce, read, read_reduce, bits, Flight, Call, start,
  event_wait, Inputs,
}
use hccl_reduce_scatter.Kernel.Args.{CcuPartialReduceKernelArg, channel_at, shift, max_rank_size}
use hccl_reduce_scatter.Kernel.Common.{run_calls, remote_inputs, exchange, nowhere}

module _ (k : CcuPartialReduceKernelArg) (i : Inputs) where
  abbrev pub striped_output : Address
  striped_output = record { addr = i.task_arg 0; token = i.task_arg 1 }

  abbrev pub striped_input : Address
  striped_input = record { addr = i.task_arg 2; token = i.task_arg 3 }

  abbrev pub striped_offset : ℕ
  striped_offset = i.task_arg 4

  abbrev pub stripe_offset : ℕ → ℕ
  stripe_offset stripe = i.task_arg (5 + 2 * stripe)

  abbrev pub stripe_bytes : ℕ → ℕ
  stripe_bytes stripe = i.task_arg (5 + 2 * stripe + 1)

  abbrev pub is_local_source : ℕ → Bool
  is_local_source source = k.include_local_source && source == k.local_source_index

  abbrev pub striped_remotes : List Address
  striped_remotes = remote_inputs k.base is_local_source striped_input i k.source_count 0 0

  abbrev pub striped_source : ℕ → ℕ → ℕ
  striped_source stripe round = add32 stripe round % k.source_count

  abbrev pub striped_channel : ℕ → ℕ
  striped_channel source =
      if k.include_local_source && ltb k.local_source_index source then sub32 source 1 else source

  abbrev pub stripe_dst : ℕ → Address
  stripe_dst stripe = shift striped_output (stripe_offset stripe)

  abbrev pub stripe_own : ℕ → Address
  stripe_own stripe = shift (shift striped_input striped_offset) (stripe_offset stripe)

  abbrev pub stripe_there : ℕ → ℕ → Address
  stripe_there stripe source =
      shift (shift (get_or striped_remotes source nowhere) striped_offset) (stripe_offset stripe)

  -- The transfer of one stripe from one source.
  abbrev pub stripe_from : ℕ → ℕ → ℕ → Transfer
  stripe_from round stripe source =
      let dst = stripe_dst stripe in
      let bytes = stripe_bytes stripe in
      let own = stripe_own stripe in
      let there = stripe_there stripe source in
      let channel = channel_at k.base (striped_channel source) in
      if is_local_source source
      then (if round == 0
          then local_copy dst own bytes
          else local_reduce dst own bytes k.data_type k.reduce_op)
      else (if round == 0
          then read channel dst there bytes
          else read_reduce channel dst there bytes k.data_type k.reduce_op)

  -- `stripeEvent` is event 0.
  abbrev pub stripe_flight : ℕ → ℕ → Flight
  stripe_flight round stripe = record {
    transfer = stripe_from round stripe (striped_source stripe round);
    event = 0;
    mask = bits (bit16 stripe);
  }

  abbrev pub all_stripes_mask : ℕ
  all_stripes_mask = if k.stripe_count == 16 then 0xffff else low_mask16 k.stripe_count

  -- The loop over the rounds, with `n` left.
  pub striped_rounds : ℕ → ℕ → List Call
  striped_rounds zero round = []
  striped_rounds (suc n) round =
      map (λ stripe. start (stripe_flight round stripe)) (range_from 0 k.stripe_count)
      ++ (event_wait 0 (bits all_stripes_mask) ∷ striped_rounds n (round + 1))

  pub striped_calls : List Call
  striped_calls =
      exchange k.base is_local_source striped_input (5 + 2 * k.stripe_count) k.source_count
      ++ striped_rounds k.source_count 0

abbrev pub striped_refuses : CcuPartialReduceKernelArg → Bool
striped_refuses k =
    k.source_count == 0
    || ltb max_rank_size k.source_count
    || k.stripe_count == 0
    || ltb k.source_count k.stripe_count
    || not (k.base.channel_count == sub32 k.source_count (if k.include_local_source then 1 else 0))
    || (k.include_local_source && not (ltb k.local_source_index k.source_count))

pub ccu_partial_reduce_kernel :
    (List Call → Call → CcuResult)
    → Option CcuPartialReduceKernelArg
    → Inputs
    → CcuResult × List Call
ccu_partial_reduce_kernel reply none i = (ccu_e_para, [])
ccu_partial_reduce_kernel reply (some k) i =
    if striped_refuses k then (ccu_e_para, []) else run_calls reply (striped_calls k i)
