-- ===== src/Kernel/Striped/Stripe.antt =====
-- One transfer of `CcuPartialReduceKernel`: the cells that it fills and reads, and what lands.
use hccl_reduce_scatter.Prelude.{
  ℕ, ◌+◌, ◌-◌, ◌≤◌, ◌<◌, ◌≡◌, ◌≢◌, ◌⊎◌, sym, ◌∙◌, ap, true, false, arith, inl, inr, Bool-cases,
  if◌then◌else◌, ltb, ◌==◌, word64, add64, add64_small, sub32_small, ltb→lt, ltb→le,
}
use hccl_reduce_scatter.Ccu.{Inputs}
use hccl_reduce_scatter.Ccu.Device.{Device, inside, fills, incoming}
use hccl_reduce_scatter.Ccu.Disjoint.{inside_bounds, outside, Spares, reads}
use hccl_reduce_scatter.Kernel.Args.{CcuPartialReduceKernelArg, channel_at}
use hccl_reduce_scatter.Kernel.Common.{nowhere}
use hccl_reduce_scatter.Kernel.Common.Sources.{reached, source_at_away, get_or-source_inputs}
use hccl_reduce_scatter.Kernel.Striped.{
  striped_output, striped_input, striped_offset, stripe_offset, stripe_bytes, is_local_source,
  striped_channel, stripe_dst, stripe_from, stripe_own, stripe_there,
}

module _ {V : Type 0} (D : Device V) (k : CcuPartialReduceKernelArg) (i : Inputs) where
  -- The memory of every source and the address of its input, as the kernel of one rank sees
  -- them: its own input, if the rank is a source, and behind the channel of each peer that peer's
  -- memory, with the address that the peer has written there.
  pub record IsWired (memory : ℕ → ℕ → V) (input_addr : ℕ → ℕ) : Type 0 where
    pub own_addr : (r : ℕ) → is_local_source k i r ≡ true → (striped_input k i).addr ≡ input_addr r
    pub peer_memory :
        (r a : ℕ)
        → r < k.source_count
        → is_local_source k i r ≡ false
        → D.remote (channel_at k.base (striped_channel k i r)) a ≡ memory r a
    pub peer_addr :
        (r : ℕ)
        → r < k.source_count
        → is_local_source k i r ≡ false
        → i.res_by_channel (channel_at k.base (striped_channel k i r)) 1 ≡ input_addr r

  -- At most 16 sources, one at least and no fewer than the stripes; stripes that follow one
  -- another within `total` bytes; inputs and output within the address space; and an own input
  -- that does not meet the output.
  pub record IsFit (input_addr : ℕ → ℕ) (total : ℕ) : Type 0 where
    pub some_source : 1 ≤ k.source_count
    pub few_sources : k.source_count ≤ 16
    pub few_stripes : k.stripe_count ≤ k.source_count
    pub stripe_within :
        (s : ℕ) → s < k.stripe_count → stripe_offset k i s + stripe_bytes k i s ≤ total
    pub stripes_apart :
        (s t : ℕ)
        → s < t
        → t < k.stripe_count
        → stripe_offset k i s + stripe_bytes k i s ≤ stripe_offset k i t
    pub output_space : (striped_output k i).addr + total < word64
    pub input_space :
        (r : ℕ) → r < k.source_count → input_addr r + striped_offset k i + total < word64
    pub own_source : (r : ℕ) → is_local_source k i r ≡ true → r < k.source_count
    pub own_apart :
        ((striped_output k i).addr + total ≤ (striped_input k i).addr + striped_offset k i)
        ⊎ ((striped_input k i).addr + striped_offset k i + total ≤ (striped_output k i).addr)

  -- The element of source `r` at position `e` of the chunk that is due to this rank.
  abbrev pub share : (ℕ → ℕ → V) → (ℕ → ℕ) → ℕ → ℕ → V
  share memory input_addr e r = memory r (input_addr r + striped_offset k i + e)

  pub stripe_from-fills :
      (round s source a : ℕ)
      → fills (stripe_from k i round s source) a ≡ inside (stripe_dst k i s) (stripe_bytes k i s) a
  stripe_from-fills round s source a = ground arith

  stripe_from-reads :
      (round s source a : ℕ)
      → reads (stripe_from k i round s source) a ≡ true
      → (is_local_source k i source ≡ true)
        × (inside (stripe_own k i s) (stripe_bytes k i s) a ≡ true)
  stripe_from-reads round s source a h = ground arith

  module _ {memory : ℕ → ℕ → V} {input_addr : ℕ → ℕ} {total : ℕ} (wired : IsWired memory input_addr)
      (fit : IsFit input_addr total) where
    pub stripe_dst_lem :
        (s : ℕ)
        → s < k.stripe_count
        → (stripe_dst k i s).addr ≡ (striped_output k i).addr + stripe_offset k i s
    stripe_dst_lem s h =
        add64_small (striped_output k i).addr (stripe_offset k i s)
          (omega (arith, fit.stripe_within s h, fit.output_space))

    pub own_lem :
        (s r : ℕ)
        → s < k.stripe_count
        → is_local_source k i r ≡ true
        → (stripe_own k i s).addr
          ≡ (striped_input k i).addr + striped_offset k i + stripe_offset k i s
    own_lem s r h here =
        let room = fit.input_space r (fit.own_source r here) in
        let own = wired.own_addr r here in
        let within = fit.stripe_within s h in
        ap (λ a. add64 a (stripe_offset k i s))
          (add64_small (striped_input k i).addr (striped_offset k i)
            (omega (arith, room, own, within)))
        ∙ add64_small ((striped_input k i).addr + striped_offset k i) (stripe_offset k i s)
            (omega (arith, room, own, within))

    reached_lem :
        (r : ℕ)
        → r < k.source_count
        → reached k.base k.include_local_source k.local_source_index (striped_input k i) i r
          ≡ striped_channel k i r
    reached_lem r below = let few = fit.few_sources in ground (arith, sub32_small r 1)

    pub there_lem :
        (s r : ℕ)
        → s < k.stripe_count
        → r < k.source_count
        → is_local_source k i r ≡ false
        → (stripe_there k i s r).addr ≡ input_addr r + striped_offset k i + stripe_offset k i s
    there_lem s r h below away =
        let room = fit.input_space r below in
        let within = fit.stripe_within s h in
        ap (λ b. add64 (add64 b.addr (striped_offset k i)) (stripe_offset k i s))
          (get_or-source_inputs k.base k.include_local_source k.local_source_index
            (striped_input k i) i k.source_count r nowhere below)
        ∙ ap (λ b. add64 (add64 b (striped_offset k i)) (stripe_offset k i s))
            (source_at_away k.base k.include_local_source k.local_source_index (striped_input k i) i
                r away
              ∙ ap (λ c. i.res_by_channel (channel_at k.base c) 1) (reached_lem r below)
              ∙ wired.peer_addr r below away)
        ∙ ap (λ b. add64 b (stripe_offset k i s))
            (add64_small (input_addr r) (striped_offset k i) (omega (arith, room)))
        ∙ add64_small (input_addr r + striped_offset k i) (stripe_offset k i s)
            (omega (arith, room, within))

    separate :
        (s t : ℕ)
        → s < k.stripe_count
        → t < k.stripe_count
        → s ≢ t
        → (stripe_offset k i s + stripe_bytes k i s ≤ stripe_offset k i t)
          ⊎ (stripe_offset k i t + stripe_bytes k i t ≤ stripe_offset k i s)
    separate s t hs ht ne = elim (Bool-cases (ltb s t)) [
      | inl before ↦ inl (fit.stripes_apart s t (ltb→lt s t before) ht)
      | inr after ↦ inr (fit.stripes_apart t s (grind (arith, ltb→le s t after, ne)) hs)
    ]

    -- Two stripes are filled and read apart.
    pub stripes-Spares :
        (round s t source source' : ℕ)
        → s < k.stripe_count
        → t < k.stripe_count
        → s ≢ t
        → Spares (stripe_from k i round s source) (stripe_from k i round t source')
    stripes-Spares round s t source source' hs ht ne = (
      (λ a h.
          let (lo, hi) =
            inside_bounds (stripe_dst k i s) (stripe_bytes k i s) a
              (sym (stripe_from-fills round s source a) ∙ h) in
          stripe_from-fills round t source' a
          ∙ outside (stripe_dst k i t) (stripe_bytes k i t) a (elim (separate s t hs ht ne) [
            | inl l ↦ inl (omega (arith, lo, hi, l, stripe_dst_lem s hs, stripe_dst_lem t ht))
            | inr l ↦ inr (omega (arith, lo, hi, l, stripe_dst_lem s hs, stripe_dst_lem t ht))
          ])),
      λ a h. elim (Bool-cases (reads (stripe_from k i round t source') a)) [
        | inr free ↦ free
        | inl bad ↦
            let (lo, hi) =
              inside_bounds (stripe_dst k i s) (stripe_bytes k i s) a
                (sym (stripe_from-fills round s source a) ∙ h) in
            let (here, read) = stripe_from-reads round t source' a bad in
            let (from, to) = inside_bounds (stripe_own k i t) (stripe_bytes k i t) a read in
            absurd (elim fit.own_apart [
              | inl l ↦ omega (
                arith,
                lo,
                hi,
                from,
                to,
                l,
                stripe_dst_lem s hs,
                own_lem t source' ht here,
                fit.stripe_within s hs,
                fit.stripe_within t ht,
              )
              | inr l ↦ omega (
                arith,
                lo,
                hi,
                from,
                to,
                l,
                stripe_dst_lem s hs,
                own_lem t source' ht here,
                fit.stripe_within s hs,
                fit.stripe_within t ht,
              )
            ])
      ],
    )

    -- What lands at the element `e` of a stripe.
    pub landed :
        (round s r e : ℕ) (m : ℕ → V)
        → s < k.stripe_count
        → r < k.source_count
        → stripe_offset k i s ≤ e
        → ((is_local_source k i r ≡ true)
            → m (input_addr r + striped_offset k i + e) ≡ share memory input_addr e r)
        → incoming D (stripe_from k i round s r) m ((striped_output k i).addr + e) ≡ (
            if round == 0
            then share memory input_addr e r
            else D.combine k.data_type k.reduce_op
                (m ((striped_output k i).addr + e))
                (share memory input_addr e r))
    landed round s r e m hs hr from own = elim (Bool-cases (is_local_source k i r)) [
      | inl here ↦
          let value : m (
                (stripe_own k i s).addr + ((striped_output k i).addr + e - (stripe_dst k i s).addr))
              ≡ share memory input_addr e r =
            ap m
              (omega (arith, own_lem s r hs here, wired.own_addr r here, stripe_dst_lem s hs, from))
            ∙ own here in
          elim (Bool-cases (round == 0)) [
            | inl first ↦ rw (here, first) value
            | inr later ↦
                rw (here, later)
                  (ap (D.combine k.data_type k.reduce_op (m ((striped_output k i).addr + e))) value)
          ]
      | inr away ↦
          let value : D.remote (channel_at k.base (striped_channel k i r)) (
                (stripe_there k i s r).addr
                + ((striped_output k i).addr + e - (stripe_dst k i s).addr))
              ≡ share memory input_addr e r =
            wired.peer_memory r _ hr away
            ∙ ap (memory r) (omega (arith, there_lem s r hs hr away, stripe_dst_lem s hs, from)) in
          elim (Bool-cases (round == 0)) [
            | inl first ↦ rw (away, first) value
            | inr later ↦
                rw (away, later)
                  (ap (D.combine k.data_type k.reduce_op (m ((striped_output k i).addr + e))) value)
          ]
    ]
