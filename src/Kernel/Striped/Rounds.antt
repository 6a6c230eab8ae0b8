-- ===== src/Kernel/Striped/Rounds.antt =====
-- The result of `CcuPartialReduceKernel`: each stripe is the reduction of the sources' stripes in
-- cyclic order, from the source with the stripe's number on.
use hccl_reduce_scatter.Prelude.{
  ==_positive, ℕ, zero, suc, ◌+◌, ◌-◌, ◌%◌, ◌≤◌, ◌<◌, ◌≡◌, refl, sym, ◌∙◌, ap, true, false, not, [],
  map, foldl, ◌*◌, arith, inl, inr, Bool-cases, if◌then◌else◌, ◌==◌, range_from, add32_small,
  All-map_range, bit16, low_mask16, sub32, low_mask16-bit16,
}
use Prim.Native.Nat.{bit_and}
use hccl_reduce_scatter.Ccu.{bits, Inputs}
use hccl_reduce_scatter.Ccu.Device.{Device, IsLawful, Run, inside, perform_all, flights, is_awaited}
use hccl_reduce_scatter.Ccu.Race.{IsRaceFree, Run-eq}
use hccl_reduce_scatter.Ccu.Program.{
  flights_after_control, IsRaceFree-after_control, perform_all_append,
}
use hccl_reduce_scatter.Ccu.Disjoint.{outside, Spares-Commutes}
use hccl_reduce_scatter.Ccu.Batch.{
  IsRaceFree-batch, AllCommute-range, batch_frame, batch_value, flights_batch,
}
use hccl_reduce_scatter.Kernel.Args.{CcuPartialReduceKernelArg}
use hccl_reduce_scatter.Kernel.Common.Laws.{exchange-IsControl}
use hccl_reduce_scatter.Kernel.Striped.{
  striped_output, striped_input, striped_offset, stripe_offset, stripe_bytes, is_local_source,
  striped_source, stripe_dst, stripe_flight, all_stripes_mask, striped_rounds, striped_calls,
}
use hccl_reduce_scatter.Kernel.Striped.Stripe.{
  IsWired, IsFit, share, stripe_from-fills, stripe_dst_lem, landed, stripes-Spares,
}

full_mask : low_mask16 16 ≡ 0xffff
unfolding low_mask16 sub32
full_mask = refl

-- `allStripesMask` holds the bit of each stripe.
all_stripes_mask_lem :
    (k : CcuPartialReduceKernelArg) (i : Inputs) (s : ℕ)
    → k.stripe_count ≤ 16
    → s < k.stripe_count
    → not (bit_and (all_stripes_mask k i) (bit16 s) == 0) ≡ true
all_stripes_mask_lem k i s few h = elim (Bool-cases (k.stripe_count == 16)) [
  | inl all ↦ rw (all, ← full_mask) (low_mask16-bit16 16 s (omega arith) (omega arith))
  | inr some_left ↦ rw some_left (low_mask16-bit16 k.stripe_count s few h)
]

module _ {V : Type 0} (D : Device V) (lawful : IsLawful D) (k : CcuPartialReduceKernelArg)
    (i : Inputs) {memory : ℕ → ℕ → V} {input_addr : ℕ → ℕ} {total : ℕ}
    (wired : IsWired D k i memory input_addr) (fit : IsFit D k i input_addr total) where
  rounds-IsRaceFree : (n round : ℕ) → IsRaceFree D (striped_rounds k i n round) []
  unfolding striped_rounds
  rounds-IsRaceFree zero round = refl
  rounds-IsRaceFree (suc n) round =
      IsRaceFree-batch D (stripe_flight k i round) (range_from 0 k.stripe_count) 0
        (bits (all_stripes_mask k i)) (striped_rounds k i n (round + 1)) []
        (AllCommute-range D (stripe_flight k i round) 0 k.stripe_count (λ s t lo lt hi.
          Spares-Commutes D lawful (stripe_flight k i round s) (stripe_flight k i round t)
            (stripes-Spares D k i wired fit round s t _ _ (omega arith) (omega arith) (omega arith))
            (stripes-Spares D k i wired fit round t s _ _ (omega arith) (omega arith)
              (omega arith))))
        (All-map_range (λ g. is_awaited 0 (bits (all_stripes_mask k i)) g ≡ true)
          (stripe_flight k i round) 0 k.stripe_count
          (λ s lo hi.
            all_stripes_mask_lem k i s (omega (arith, fit.few_stripes, fit.few_sources))
              (omega arith)))
        (rounds-IsRaceFree n (round + 1))

  -- The stripes of a round are in flight together, and none is left in flight by the next.
  pub striped_calls-IsRaceFree : IsRaceFree D (striped_calls k i) []
  unfolding striped_calls
  striped_calls-IsRaceFree =
      IsRaceFree-after_control D _ (striped_rounds k i k.source_count 0) []
        (exchange-IsControl k.base _ (striped_input k i) (5 + 2 * k.stripe_count) k.source_count)
        (rounds-IsRaceFree k.source_count 0)

  -- The own input, if this rank is a source, is still in place.
  abbrev HoldsOwn : (ℕ → V) → Type 0
  HoldsOwn m =
      (r e : ℕ)
      → is_local_source k i r ≡ true
      → e < total
      → m (input_addr r + striped_offset k i + e) ≡ share D k i memory input_addr e r

  round_after : ℕ → (ℕ → V) → ℕ → V
  round_after round m =
      perform_all D (map (stripe_flight k i round) (range_from 0 k.stripe_count)) m

  -- A cell in no stripe of the output.
  round_frame :
      (round a : ℕ) (m : ℕ → V)
      → ((s : ℕ) → s < k.stripe_count → inside (stripe_dst k i s) (stripe_bytes k i s) a ≡ false)
      → round_after round m a ≡ m a
  unfolding round_after
  round_frame round a m free =
      batch_frame D lawful (stripe_flight k i round) 0 k.stripe_count a m (λ s lo hi.
        stripe_from-fills D k i round s (striped_source k i s round) a ∙ free s (omega arith))

  round-HoldsOwn : (round : ℕ) (m : ℕ → V) → HoldsOwn m → HoldsOwn (round_after round m)
  round-HoldsOwn round m own r e here h =
      round_frame round (input_addr r + striped_offset k i + e) m (λ s hs.
        outside (stripe_dst k i s) (stripe_bytes k i s) (input_addr r + striped_offset k i + e)
          (elim fit.own_apart [
            | inl l ↦ inr (
                omega (
                  arith,
                  l,
                  wired.own_addr r here,
                  stripe_dst_lem D k i wired fit s hs,
                  fit.stripe_within s hs,
                ))
            | inr l ↦
                inl (omega (arith, l, wired.own_addr r here, stripe_dst_lem D k i wired fit s hs))
          ]))
      ∙ own r e here h

  source_lem :
      (s round : ℕ)
      → s < k.stripe_count
      → round < k.source_count
      → (striped_source k i s round ≡ (s + round) % k.source_count)
        × (striped_source k i s round < k.source_count)
  source_lem s round hs hr =
      let few = fit.few_sources in
      let fewer = fit.few_stripes in
      let same : striped_source k i s round ≡ (s + round) % k.source_count =
        ap (λ t. t % k.source_count) (add32_small s round (omega arith)) in
      (same, omega (arith, same, fit.some_source))

  round_value :
      (round s e : ℕ) (m : ℕ → V)
      → s < k.stripe_count
      → round < k.source_count
      → stripe_offset k i s ≤ e
      → e < stripe_offset k i s + stripe_bytes k i s
      → HoldsOwn m
      → round_after round m ((striped_output k i).addr + e) ≡ (
          if round == 0
          then share D k i memory input_addr e ((s + round) % k.source_count)
          else D.combine k.data_type k.reduce_op
              (m ((striped_output k i).addr + e))
              (share D k i memory input_addr e ((s + round) % k.source_count)))
  unfolding round_after
  round_value round s e m hs hr lo hi own =
      let (same, below) = source_lem s round hs hr in
      let out = (striped_output k i).addr + e in
      let within = fit.stripe_within s hs in
      batch_value D lawful (stripe_flight k i round) 0 k.stripe_count s out m (omega arith)
        (omega arith)
        (stripe_from-fills D k i round s (striped_source k i s round) out
          ∙ within_stripe (stripe_dst_lem D k i wired fit s hs))
        (λ t lo' hi' ne. stripes-Spares D k i wired fit round t s _ _ (omega arith) hs ne)
      ∙ landed D k i wired fit round s (striped_source k i s round) e m hs below lo
          (λ here. own (striped_source k i s round) e here (omega arith))
      ∙ ap
          (λ r.
            if round == 0
            then share D k i memory input_addr e r
            else D.combine k.data_type k.reduce_op (m out) (share D k i memory input_addr e r))
          same
    where
      within_stripe :
          (stripe_dst k i s).addr ≡ (striped_output k i).addr + stripe_offset k i s
          → inside (stripe_dst k i s) (stripe_bytes k i s) ((striped_output k i).addr + e) ≡ true
      within_stripe d = ground arith

  rounds_next :
      (n round : ℕ) (m : ℕ → V)
      → perform_all D (flights (striped_rounds k i (suc n) round)) m
        ≡ perform_all D (flights (striped_rounds k i n (round + 1))) (round_after round m)
  unfolding striped_rounds round_after
  rounds_next n round m =
      ap (λ fs. perform_all D fs m)
        (flights_batch (stripe_flight k i round) (range_from 0 k.stripe_count) 0
          (bits (all_stripes_mask k i)) (striped_rounds k i n (round + 1)))
      ∙ perform_all_append D (map (stripe_flight k i round) (range_from 0 k.stripe_count)) _ m

  -- The rounds after the first.
  later_rounds :
      (n round s e : ℕ) (m : ℕ → V)
      → 1 ≤ round
      → round + n ≤ k.source_count
      → s < k.stripe_count
      → stripe_offset k i s ≤ e
      → e < stripe_offset k i s + stripe_bytes k i s
      → HoldsOwn m
      → perform_all D (flights (striped_rounds k i n round)) m ((striped_output k i).addr + e)
        ≡ foldl (D.combine k.data_type k.reduce_op) (m ((striped_output k i).addr + e)) (
            map
              (λ t. share D k i memory input_addr e ((s + t) % k.source_count))
              (range_from round n))
  unfolding striped_rounds
  later_rounds zero round s e m one most hs lo hi own = refl
  later_rounds (suc n) round s e m one most hs lo hi own =
      ap (λ f. f ((striped_output k i).addr + e)) (rounds_next n round m)
      ∙ later_rounds n (round + 1) s e (round_after round m) (omega arith) (omega arith) hs lo hi
          (round-HoldsOwn round m own)
      ∙ ap
          (λ v. foldl (D.combine k.data_type k.reduce_op) v (
            map (λ t. share D k i memory input_addr e ((s + t) % k.source_count))
              (range_from (round + 1) n)))
          (rw (==_positive round one) at (round_value round s e m hs (omega arith) lo hi own))

  -- The reduction of one stripe: the sources from the stripe's own number on, in cyclic order.
  abbrev pub cyclic_from : ℕ → (ℕ → V) → V
  cyclic_from s value =
      foldl (D.combine k.data_type k.reduce_op) (value (s % k.source_count))
        (map (λ t. value ((s + t) % k.source_count)) (range_from 1 (k.source_count - 1)))

  all_rounds :
      (n s e : ℕ) (m : ℕ → V)
      → suc n ≡ k.source_count
      → s < k.stripe_count
      → stripe_offset k i s ≤ e
      → e < stripe_offset k i s + stripe_bytes k i s
      → HoldsOwn m
      → perform_all D (flights (striped_rounds k i (suc n) 0)) m ((striped_output k i).addr + e)
        ≡ cyclic_from s (share D k i memory input_addr e)
  all_rounds n s e m count hs lo hi own =
      let op = D.combine k.data_type k.reduce_op in
      let value = share D k i memory input_addr e in
      let start : s + 0 ≡ s = omega arith in
      let left : n ≡ k.source_count - 1 = omega arith in
      ap (λ f. f ((striped_output k i).addr + e)) (rounds_next n 0 m)
      ∙ later_rounds n 1 s e (round_after 0 m) (omega arith) (omega arith) hs lo hi
          (round-HoldsOwn 0 m own)
      ∙ ap (λ v. foldl op v (map (λ t. value ((s + t) % k.source_count)) (range_from 1 n)))
          (round_value 0 s e m hs (omega (arith, fit.some_source)) lo hi own
            ∙ ap (λ t. value (t % k.source_count)) start)
      ∙ ap
          (λ l.
            foldl op (value (s % k.source_count))
              (map (λ t. value ((s + t) % k.source_count)) (range_from 1 l)))
          left

  module _ (m : ℕ → V)
      (own_memory : (r a : ℕ) → is_local_source k i r ≡ true → m a ≡ memory r a) where
    striped_flights : flights (striped_calls k i) ≡ flights (striped_rounds k i k.source_count 0)
    unfolding striped_calls
    striped_flights =
        flights_after_control _ (striped_rounds k i k.source_count 0)
          (exchange-IsControl k.base _ (striped_input k i) (5 + 2 * k.stripe_count) k.source_count)

    -- On a lawful device, for 1 to 16 sources and no more stripes, with a source behind each channel,
    -- the address of its input in the channel's variable, the stripes apart from each other, inputs
    -- and output in the address space, and the own input apart from the output: however the transfers of the
    -- rounds land in a run, each element of a stripe is then the reduction of the sources'
    -- elements in the cyclic order that begins with the source of the stripe's number.
    pub striped_calls-reduces :
        {m' : ℕ → V}
        → Run D (striped_calls k i) m [] m'
        → (s e : ℕ) → s < k.stripe_count
        → stripe_offset k i s ≤ e
        → e < stripe_offset k i s + stripe_bytes k i s
        → m' ((striped_output k i).addr + e) ≡ cyclic_from s (share D k i memory input_addr e)
    striped_calls-reduces run s e hs lo hi =
        let count : suc (k.source_count - 1) ≡ k.source_count = omega (arith, fit.some_source) in
        let within = fit.stripe_within s hs in
        ap (λ f. f ((striped_output k i).addr + e)) (Run-eq D striped_calls-IsRaceFree run)
        ∙ ap (λ fs. perform_all D fs m ((striped_output k i).addr + e)) striped_flights
        ∙ ap
            (λ n.
              perform_all D (flights (striped_rounds k i n 0)) m ((striped_output k i).addr + e))
            (sym count)
        ∙ all_rounds (k.source_count - 1) s e m count hs lo hi
            (λ r e' here h. own_memory r (input_addr r + striped_offset k i + e') here)
