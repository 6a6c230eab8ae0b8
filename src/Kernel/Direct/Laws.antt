-- ===== src/Kernel/Direct/Laws.antt =====
-- The result of `CcuKernel`: the reduction of the ranks' chunks in cyclic order.
use hccl_reduce_scatter.Prelude.{
  ℕ, zero, suc, ◌+◌, ◌-◌, ◌%◌, ◌≤◌, ◌<◌, ◌≡◌, ◌≢◌, refl, ◌∙◌, ap, sym, true, false, [], map, foldl,
  arith, get_or, range_from, word64, add64, sub32, sub32_small, add64_small, add32_small,
  map-range_from, cycle-ne,
}
use hccl_reduce_scatter.Ccu.{Address, Inputs}
use hccl_reduce_scatter.Ccu.Device.{Device, IsLawful, Run, inside, across, perform_all, flights}
use hccl_reduce_scatter.Ccu.Race.{IsRaceFree, Run-eq}
use hccl_reduce_scatter.Ccu.Program.{flights_after_control, IsRaceFree-after_control}
use hccl_reduce_scatter.Ccu.Disjoint.{perform_filled, perform_other}
use hccl_reduce_scatter.Kernel.Args.{CcuReduceScatterKernelArg, channel_at, shift}
use hccl_reduce_scatter.Kernel.Common.{channel_of}
use hccl_reduce_scatter.Kernel.Common.Laws.{
  exchange-IsControl, get_or-remote_inputs, remote_at_away,
}
use hccl_reduce_scatter.Kernel.Direct.{
  direct_output, direct_input, direct_offset, direct_bytes, direct_transfer, direct_steps,
  direct_calls, direct_copy, source_rank, direct_reduction, direct_remotes, nowhere,
}

module _ {V : Type 0} (D : Device V) (k : CcuReduceScatterKernelArg) (i : Inputs) where
  -- The memory of every rank and the address of its input, as the kernel of one rank sees them:
  -- its own memory and input, and behind the channel of each peer, by the order of the channels,
  -- that peer's memory with the address that the peer has written there.
  pub record IsWired (memory : ℕ → ℕ → V) (input_addr : ℕ → ℕ) : Type 0 where
    pub own_addr : (direct_input k i).addr ≡ input_addr k.rank_id
    pub peer_memory :
        (r a : ℕ)
        → r < k.rank_size
        → r ≢ k.rank_id
        → D.remote (channel_at k.base (channel_of k.rank_id r)) a ≡ memory r a
    pub peer_addr :
        (r : ℕ)
        → r < k.rank_size
        → r ≢ k.rank_id
        → i.res_by_channel (channel_at k.base (channel_of k.rank_id r)) 1 ≡ input_addr r

  -- A communicator of 2 to 16 ranks, and chunks that do not reach past the address space.
  pub record IsFit (input_addr : ℕ → ℕ) : Type 0 where
    pub two_ranks : 2 ≤ k.rank_size
    pub few_ranks : k.rank_size ≤ 16
    pub own_rank : k.rank_id < k.rank_size
    pub in_space : (r : ℕ) → r < k.rank_size → input_addr r + direct_offset k i < word64

  steps-IsRaceFree : (n step : ℕ) → IsRaceFree D (direct_steps k i n step) []
  unfolding direct_steps
  steps-IsRaceFree zero step = refl
  steps-IsRaceFree (suc n) step = (tt, steps-IsRaceFree n (step + 1))

  -- No two transfers of the kernel are ever in flight together.
  pub direct_calls-IsRaceFree : IsRaceFree D (direct_calls k i) []
  unfolding direct_calls
  direct_calls-IsRaceFree =
      IsRaceFree-after_control D _ (direct_reduction k i) []
        (exchange-IsControl k.base _ (direct_input k i) 6 k.rank_size)
        (tt, steps-IsRaceFree (sub32 k.rank_size 1) 1)

  -- The contribution of a step at an address of the output.
  contribution : ℕ → ℕ → V
  contribution a step =
      D.remote (channel_at k.base (channel_of k.rank_id (source_rank k i step)))
        (across (direct_output k i) (source_at step) a)
    where
      source_at : ℕ → Address
      source_at step =
          shift (get_or (direct_remotes k i) (source_rank k i step) nowhere) (direct_offset k i)

  module _ (lawful : IsLawful D) where
    steps-value :
        (n step a : ℕ) (m : ℕ → V)
        → inside (direct_output k i) (direct_bytes k i) a ≡ true
        → perform_all D (flights (direct_steps k i n step)) m a
          ≡ foldl
              (D.combine k.data_type k.reduce_op)
              (m a)
              (map (contribution a) (range_from step n))
    unfolding direct_steps contribution
    steps-value zero step a m h = refl
    steps-value (suc n) step a m h =
        steps-value n (step + 1) a (D.perform (direct_transfer k i step) m) h
        ∙ ap
            (λ v.
              foldl (D.combine k.data_type k.reduce_op) v
                (map (contribution a) (range_from (step + 1) n)))
            (perform_filled D lawful (direct_transfer k i step) m a h)

    steps-frame :
        (n step a : ℕ) (m : ℕ → V)
        → inside (direct_output k i) (direct_bytes k i) a ≡ false
        → perform_all D (flights (direct_steps k i n step)) m a ≡ m a
    unfolding direct_steps
    steps-frame zero step a m h = refl
    steps-frame (suc n) step a m h =
        steps-frame n (step + 1) a (D.perform (direct_transfer k i step) m) h
        ∙ perform_other D lawful (direct_transfer k i step) m a h

    direct_flights : flights (direct_calls k i) ≡ flights (direct_reduction k i)
    unfolding direct_calls
    direct_flights =
        flights_after_control _ (direct_reduction k i)
          (exchange-IsControl k.base _ (direct_input k i) 6 k.rank_size)

    other_element :
        (m : ℕ → V) (a : ℕ)
        → inside (direct_output k i) (direct_bytes k i) a ≡ false
        → perform_all D (flights (direct_calls k i)) m a ≡ m a
    other_element m a h =
        ap (λ fs. perform_all D fs m a) direct_flights
        ∙ steps-frame (sub32 k.rank_size 1) 1 a (D.perform (direct_copy k i) m) h
        ∙ perform_other D lawful (direct_copy k i) m a h

    -- A run of the kernel changes no cell of local memory outside the output.
    pub direct_calls_frame :
        {m m' : ℕ → V}
        → Run D (direct_calls k i) m [] m'
        → (a : ℕ) → inside (direct_output k i) (direct_bytes k i) a ≡ false
        → m' a ≡ m a
    direct_calls_frame run a h =
        ap (λ f. f a) (Run-eq D direct_calls-IsRaceFree run) ∙ other_element _ a h

  -- The element `j` of the chunk of rank `r` that is due to this rank.
  abbrev pub share : (ℕ → ℕ → V) → (ℕ → ℕ) → ℕ → ℕ → V
  share memory input_addr j r = memory r (input_addr r + direct_offset k i + j)

  -- The reduction over all ranks that this kernel performs: its own element first, then those of
  -- the ranks that follow it in cyclic order.
  abbrev pub cyclic_reduction : (ℕ → V) → V
  cyclic_reduction value =
      foldl (D.combine k.data_type k.reduce_op) (value k.rank_id)
        (map (λ step. value ((k.rank_id + step) % k.rank_size)) (range_from 1 (k.rank_size - 1)))

  module _ {memory : ℕ → ℕ → V} {input_addr : ℕ → ℕ} (wired : IsWired memory input_addr)
      (fit : IsFit input_addr) where
    source_lem :
        (step : ℕ)
        → 1 ≤ step
        → step < 1 + (k.rank_size - 1)
        → (source_rank k i step ≡ (k.rank_id + step) % k.rank_size)
          × (source_rank k i step < k.rank_size)
          × (source_rank k i step ≢ k.rank_id)
    source_lem step lo hi =
        let same : source_rank k i step ≡ (k.rank_id + step) % k.rank_size =
          ap (λ t. t % k.rank_size) (add32_small k.rank_id step (omega arith)) in
        (
          same,
          omega (arith, same),
          λ e. cycle-ne k.rank_size k.rank_id step fit.own_rank lo (omega arith) (sym same ∙ e),
        )

    -- The address that a step reads is the peer's input, past the offset.
    source_address :
        (r : ℕ)
        → r < k.rank_size
        → r ≢ k.rank_id
        → (shift (get_or (direct_remotes k i) r nowhere) (direct_offset k i)).addr
          ≡ input_addr r + direct_offset k i
    source_address r below away =
        ap (λ b. add64 b.addr (direct_offset k i))
          (get_or-remote_inputs k.base k.rank_id (direct_input k i) i k.rank_size r nowhere below
            (omega arith))
        ∙ ap (λ b. add64 b (direct_offset k i))
            (remote_at_away k.base k.rank_id (direct_input k i) i r away
              ∙ wired.peer_addr r below away)
        ∙ add64_small (input_addr r) (direct_offset k i) (fit.in_space r below)

    contribution_lem :
        (step j : ℕ)
        → 1 ≤ step
        → step < 1 + (k.rank_size - 1)
        → contribution ((direct_output k i).addr + j) step
          ≡ share memory input_addr j ((k.rank_id + step) % k.rank_size)
    unfolding contribution
    contribution_lem step j lo hi =
        let (same, below, away) = source_lem step lo hi in
        wired.peer_memory (source_rank k i step) _ below away
        ∙ ap
            (λ b.
              memory (source_rank k i step)
                (b + ((direct_output k i).addr + j - (direct_output k i).addr)))
            (source_address _ below away)
        ∙ ap (λ b. memory (source_rank k i step) b) (omega arith)
        ∙ ap (share memory input_addr j) same

    module _ (lawful : IsLawful D) (m : ℕ → V)
        (own_chunk : (j : ℕ)
          → j < direct_bytes k i
          → m (input_addr k.rank_id + direct_offset k i + j)
            ≡ share memory input_addr j k.rank_id) where
      -- The local copy puts the rank's own element in place.
      own_element :
          (j : ℕ)
          → j < direct_bytes k i
          → D.perform (direct_copy k i) m ((direct_output k i).addr + j)
            ≡ share memory input_addr j k.rank_id
      own_element j h =
          perform_filled D lawful (direct_copy k i) m ((direct_output k i).addr + j) (ground arith)
          ∙ ap (λ b. m (b + ((direct_output k i).addr + j - (direct_output k i).addr)))
              (ap (λ b. add64 b (direct_offset k i)) wired.own_addr
                ∙ add64_small (input_addr k.rank_id) (direct_offset k i)
                    (fit.in_space k.rank_id fit.own_rank))
          ∙ ap m (omega arith)
          ∙ own_chunk j h

      rounds_left : sub32 k.rank_size 1 ≡ k.rank_size - 1
      rounds_left = sub32_small k.rank_size 1 (omega arith) (omega arith)

      output_element :
          (j : ℕ)
          → j < direct_bytes k i
          → perform_all D (flights (direct_calls k i)) m ((direct_output k i).addr + j)
            ≡ cyclic_reduction (share memory input_addr j)
      output_element j h =
          let out = (direct_output k i).addr + j in
          let op = D.combine k.data_type k.reduce_op in
          ap (λ fs. perform_all D fs m out) (direct_flights lawful)
          ∙ ap
              (λ n.
                perform_all D (flights (direct_steps k i n 1)) (D.perform (direct_copy k i) m) out)
              rounds_left
          ∙ steps-value lawful (k.rank_size - 1) 1 out (D.perform (direct_copy k i) m)
              (ground arith)
          ∙ ap (λ v. foldl op v (map (contribution out) (range_from 1 (k.rank_size - 1))))
              (own_element j h)
          ∙ ap (foldl op (share memory input_addr j k.rank_id)) (
              map-range_from (contribution out)
                (λ step. share memory input_addr j ((k.rank_id + step) % k.rank_size)) 1
                (k.rank_size - 1) (λ step lo hi. contribution_lem step j lo hi))

      -- On a lawful device, for one of 2 to 16 ranks that holds its own chunk, with the memory of a
      -- peer behind each channel, the address of its input in the channel's variable, and the
      -- beginnings of all chunks in the address space: however the transfers of the kernel land in
      -- a run, each element of the output is then the reduction of the ranks' elements in exactly
      -- the cyclic order that begins with the own rank.
      pub direct_calls-reduces :
          {m' : ℕ → V}
          → Run D (direct_calls k i) m [] m'
          → (j : ℕ) → j < direct_bytes k i
          → m' ((direct_output k i).addr + j) ≡ cyclic_reduction (share memory input_addr j)
      direct_calls-reduces run j h =
          ap (λ f. f ((direct_output k i).addr + j)) (Run-eq D direct_calls-IsRaceFree run)
          ∙ output_element j h
