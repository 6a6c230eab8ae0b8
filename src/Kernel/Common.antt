-- ===== src/Kernel/Common.antt =====
-- What the kernels share: the status check, the loading of the task arguments, the exchange of
-- addresses and tokens with every peer, and the channel of a source.
pub mod Notices
pub mod Laws
pub mod Sources
use hccl_reduce_scatter.Prelude.{
  ℕ, zero, suc, ◌+◌, ◌-◌, Bool, Option, none, some, List, [], ◌∷◌, ◌++◌, map, ltb, range_from,
  flat_map, if◌then◌else◌, sub32,
}
use hccl_reduce_scatter.Status.{CcuResult, ccu_success, ccu_return_if_error}
use hccl_reduce_scatter.Issue.{issue}
use hccl_reduce_scatter.Ccu.{
  Address, Transfer, unmasked, bits, Call, start, event_wait, load_arg, write_variable,
  notify_record, notify_wait, Inputs, channel_notify_index,
}
use hccl_reduce_scatter.Kernel.Args.{CcuKernelArgBase, channel_at}

-- `return CCU_SUCCESS` after the last call, or the code of the first call that failed.
unfoldable pub run_calls : (List Call → Call → CcuResult) → List Call → CcuResult × List Call
unfolding issue ccu_return_if_error
run_calls reply cs =
    let (e, made) = issue (λ h c. ccu_return_if_error (reply h c)) [] cs in
    (elim e [ none ↦ ccu_success | some code ↦ code ], made)

-- The first `n` task arguments.
abbrev pub load_args : ℕ → List Call
load_args n = map load_arg (range_from 0 n)

abbrev pub remote_addr_id : ℕ
remote_addr_id = 1

abbrev pub remote_token_id : ℕ
remote_token_id = 2

abbrev pub addr_ready : ℕ
addr_ready = 2

abbrev pub token_ready : ℕ
token_ready = 4

module _ (base : CcuKernelArgBase) (is_local : ℕ → Bool) (own : Address) where
  -- The loop over the sources that fills `remoteInputAddr` and `remoteInputToken`: its own
  -- address at the local source, the variables of the next channel elsewhere.
  unfoldable pub remote_inputs : Inputs → ℕ → ℕ → ℕ → List Address
  remote_inputs i zero source channel_idx = []
  remote_inputs i (suc n) source channel_idx =
      (if is_local source then own else record {
        addr = i.res_by_channel (channel_at base channel_idx) remote_addr_id;
        token = i.res_by_channel (channel_at base channel_idx) remote_token_id;
      })
      ∷ remote_inputs i n (source + 1) (if is_local source then channel_idx else channel_idx + 1)

  -- The calls of that loop: the own address and token are written to every peer.
  unfoldable pub advertise : ℕ → ℕ → ℕ → List Call
  advertise zero source channel_idx = []
  advertise (suc n) source channel_idx =
      (if is_local source
        then []
        else write_variable (channel_at base channel_idx) own.addr remote_addr_id
            channel_notify_index addr_ready
          ∷ write_variable (channel_at base channel_idx) own.token remote_token_id
              channel_notify_index token_ready
          ∷ [])
      ++ advertise n (source + 1) (if is_local source then channel_idx else channel_idx + 1)

-- One call for each of the channels, in order.
abbrev pub wait_all : CcuKernelArgBase → ℕ → List Call
wait_all base mask =
    map (λ i. notify_wait (channel_at base i) channel_notify_index mask)
      (range_from 0 base.channel_count)

abbrev pub record_all : CcuKernelArgBase → ℕ → List Call
record_all base mask =
    map (λ i. notify_record (channel_at base i) channel_notify_index mask)
      (range_from 0 base.channel_count)

-- The beginning of a kernel: it loads its arguments, writes its address and token to every peer
-- and waits until every peer has done so; `ADDR_READY | TOKEN_READY` is 6.
unfoldable pub exchange : CcuKernelArgBase → (ℕ → Bool) → Address → ℕ → ℕ → List Call
exchange base is_local own args sources =
    load_args args ++ (advertise base is_local own sources 0 0 ++ wait_all base 6)

-- `sourceRank < rankId ? sourceRank : sourceRank - 1`: the channels stand in the order of the
-- remote ranks, with the own rank skipped.
abbrev pub channel_of : ℕ → ℕ → ℕ
channel_of own source = if ltb source own then source else sub32 source 1

-- An entry of a vector that was resized and never written.
abbrev pub nowhere : Address
nowhere = record { addr = 0; token = 0 }

-- A transfer without a mask on an event, and the wait for it.
abbrev pub synchronous : ℕ → Transfer → List Call → List Call
synchronous event t rest =
    start (record { transfer = t; event = event; mask = unmasked })
    ∷ event_wait event unmasked
    ∷ rest

-- A transfer that signals one bit of an event.
abbrev pub launch_on : ℕ → ℕ → Transfer → Call
launch_on event mask t = start (record { transfer = t; event = event; mask = bits mask })
