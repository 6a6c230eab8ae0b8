-- ===== src/Collective/Striped.antt =====
-- The algorithm `STRIPED_SINGLE_DIE` from the arguments of the collective to its result.
use native.Mathlib.Nat.{mod-eq_of_lt}
use hccl_reduce_scatter.Prelude.{
  ℕ, zero, suc, ◌+◌, ◌-◌, ◌*◌, ◌%◌, ◌≤◌, ◌<◌, ◌≡◌, ◌≢◌, sym, ◌∙◌, ap, true, false, List, [], map,
  foldl, arith, inl, inr, Bool-cases, ltb, ltb→lt, ltb→le, ==_iff, get_or, range_from, mul64_small,
  length,
}
use hccl_reduce_scatter.Ccu.{Inputs}
use hccl_reduce_scatter.Ccu.Device.{Device, IsLawful, Run}
use hccl_reduce_scatter.Kernel.Args.{CcuPartialReduceKernelArg}
use hccl_reduce_scatter.Kernel.Common.{channel_of}
use hccl_reduce_scatter.Kernel.Striped.{
  striped_calls, is_local_source, striped_channel, stripe_offset, stripe_bytes,
}
use hccl_reduce_scatter.Kernel.Striped.Stripe.{IsWired, IsFit}
use hccl_reduce_scatter.Kernel.Striped.Rounds.{striped_calls-reduces}
use hccl_reduce_scatter.Collective.Joined.{IsJoined}
use hccl_reduce_scatter.Host.Register.{striped_kernel_arg}
use hccl_reduce_scatter.Host.Exec.Context.{Task, rank_offset}
use hccl_reduce_scatter.Host.Exec.Striped.{stripe_count, striped_args}
use hccl_reduce_scatter.Host.Exec.Striped.Laws.{
  IsSized, elements_before, elements_before_mono, elements_before_end, offset_arg, bytes_arg,
}

-- The inputs of the kernel: the arguments of the launch, and the variables of the channels.
abbrev pub launch_inputs : Task → (ℕ → ℕ → ℕ) → Inputs
launch_inputs c vars = record { task_arg = λ n. get_or (striped_args c) n 0; res_by_channel = vars }

module _ {V : Type 0} (D : Device V) (c : Task) (channels : List ℕ) (vars : ℕ → ℕ → ℕ) where
  abbrev pub arg : CcuPartialReduceKernelArg
  arg = striped_kernel_arg c.param channels

  module _ (sized : IsSized c) {memory : ℕ → ℕ → V} {input_addr : ℕ → ℕ}
      (joined : IsJoined D c channels vars memory input_addr) where
    here_lem : (r : ℕ) → is_local_source arg (launch_inputs c vars) r ≡ true → r ≡ c.param.my_rank
    here_lem r h = (==_iff r c.param.my_rank).0 h

    away_lem : (r : ℕ) → is_local_source arg (launch_inputs c vars) r ≡ false → r ≢ c.param.my_rank
    away_lem r h e = cc (h, (==_iff r c.param.my_rank).1 e)

    channel_lem :
        (r : ℕ)
        → r ≢ c.param.my_rank
        → striped_channel arg (launch_inputs c vars) r ≡ channel_of c.param.my_rank r
    channel_lem r away = ground arith

    joined-IsWired : IsWired D arg (launch_inputs c vars) memory input_addr
    joined-IsWired = record {
      own_addr = λ r h. joined.own_input ∙ ap input_addr (sym (here_lem r h));
      peer_memory = λ r a below h.
          ap (λ n. D.remote (get_or channels n 0) a) (channel_lem r (away_lem r h))
          ∙ joined.peer_memory r a below (away_lem r h);
      peer_addr = λ r below h.
          ap (λ n. vars (get_or channels n 0) 1) (channel_lem r (away_lem r h))
          ∙ joined.peer_addr r below (away_lem r h);
    }

    chunk_offset : rank_offset c ≡ c.param.my_rank * c.recv_bytes
    chunk_offset =
        mul64_small c.param.my_rank c.recv_bytes
          (omega (arith, joined.input_room c.param.my_rank joined.own_rank))

    total_lem : c.recv_bytes ≡ elements_before c sized (stripe_count c) * 4
    total_lem = sized.chunk_bytes ∙ ap (λ n. n * 4) (sym (elements_before_end c sized))

    stripe_end_lem :
        (s : ℕ)
        → s < stripe_count c
        → stripe_offset arg (launch_inputs c vars) s + stripe_bytes arg (launch_inputs c vars) s
          ≡ elements_before c sized (s + 1) * 4
    stripe_end_lem s h = omega (
      arith,
      offset_arg c sized s h,
      bytes_arg c sized s h,
      elements_before_mono c sized s (s + 1) (omega arith),
    )

    joined-IsFit : IsFit D arg (launch_inputs c vars) input_addr c.recv_bytes
    joined-IsFit = record {
      some_source = sized.some_rank;
      few_sources = joined.few_ranks;
      few_stripes = omega arith;
      stripe_within = λ s h. omega (
        arith,
        stripe_end_lem s h,
        elements_before_mono c sized (s + 1) (stripe_count c) (omega arith),
        total_lem,
      );
      stripes_apart = λ s t lt h. omega (
        arith,
        stripe_end_lem s (omega arith),
        offset_arg c sized t h,
        elements_before_mono c sized (s + 1) t (omega arith),
      );
      output_space = joined.output_room;
      input_space = λ r h. omega (arith, joined.input_room r h, chunk_offset);
      own_source = λ r h. omega (arith, here_lem r h, joined.own_rank);
      own_apart = elim joined.apart [
        | inl l ↦ inl (omega (arith, l, chunk_offset))
        | inr l ↦ inr (omega (arith, l, chunk_offset))
      ];
    }

    -- The stripe of a position in the chunk.
    stripe_of :
        (n e : ℕ)
        → n ≤ stripe_count c
        → e < elements_before c sized n * 4
        → (s : ℕ) × (s < stripe_count c)
          × (elements_before c sized s * 4 ≤ e)
          × (e < elements_before c sized (s + 1) * 4)
    stripe_of zero e h k = absurd (omega (arith, k))
    stripe_of (suc n) e h k = elim (Bool-cases (ltb e (elements_before c sized n * 4))) [
      | inl earlier ↦ stripe_of n e (omega arith) (ltb→lt e _ earlier)
      | inr there ↦ (n, omega arith, ltb→le e _ there, ap_lt (omega arith) k)
    ]
      where
        ap_lt :
            {a b : ℕ}
            → a ≡ b
            → e < elements_before c sized a * 4
            → e < elements_before c sized b * 4
        ap_lt q l = rw q at l

    -- The contribution of a rank at a position of the chunk that is due to this rank.
    abbrev pub contribution : ℕ → ℕ → V
    contribution e r = memory r (input_addr r + c.param.my_rank * c.recv_bytes + e)

    -- The contributions of all ranks, combined in the cyclic order that begins with rank `s`.
    abbrev pub reduction_from : ℕ → ℕ → V
    reduction_from s e =
        foldl (D.combine c.param.data_type c.param.reduce_type) (contribution e s) (
          map (λ t. contribution e ((s + t) % c.param.rank_size))
            (range_from 1 (c.param.rank_size - 1)))

    -- On a lawful device, for a rank joined to 2 to 16 ranks with one channel for each peer, and a
    -- chunk of 4-byte elements in the address space: after every run of the striped kernel on the
    -- arguments that `ExecOp` launches it with, each element of the chunk, from the first to the
    -- last, is in the output as the combination of the contributions of all ranks in the cyclic
    -- order that begins with some rank.
    pub striped-reduce_scatters :
        length channels ≡ c.param.rank_size - 1
        → (m : ℕ → V) → ((a : ℕ) → m a ≡ memory c.param.my_rank a)
        → IsLawful D
        → {m' : ℕ → V} → Run D (striped_calls arg (launch_inputs c vars)) m [] m'
        → (e : ℕ) → e < c.recv_bytes
        → (s : ℕ) × (s < c.param.rank_size) × (m' (c.param.output_ptr + e) ≡ reduction_from s e)
    striped-reduce_scatters count m own lawful run e h =
        let (s, hs, lo, hi) =
          stripe_of (stripe_count c) e (omega arith) (omega (arith, h, total_lem)) in
        let value =
          striped_calls-reduces D lawful arg (launch_inputs c vars) joined-IsWired joined-IsFit m
            (λ r a l. own a ∙ ap (λ q. memory q a) (sym (here_lem r l))) run s e hs
            (omega (arith, offset_arg c sized s hs, lo)) (omega (arith, stripe_end_lem s hs, hi)) in
        let first : s % c.param.rank_size ≡ s = mod-eq_of_lt (omega arith) in
        (
          s,
          omega arith,
          value
              ∙ ap
                  (λ o.
                    foldl (D.combine c.param.data_type c.param.reduce_type)
                      (memory (s % c.param.rank_size) (input_addr (s % c.param.rank_size) + o + e))
                      (map
                        (λ t.
                          memory ((s + t) % c.param.rank_size)
                            (input_addr ((s + t) % c.param.rank_size) + o + e))
                        (range_from 1 (c.param.rank_size - 1))))
                  chunk_offset
              ∙ ap
                  (λ q. foldl (D.combine c.param.data_type c.param.reduce_type) (contribution e q) (
                    map (λ t. contribution e ((s + t) % c.param.rank_size))
                      (range_from 1 (c.param.rank_size - 1))))
                  first,
        )
