-- ===== src/Kernel/Common/Sources.antt =====
-- The exchange of the partial kernels, whose sources may leave the own rank out.
use hccl_reduce_scatter.Prelude.{
  ℕ, zero, suc, ◌+◌, ◌-◌, ◌<◌, ◌≡◌, ◌∙◌, ap, Bool, false, ◌&&◌, arith, if◌then◌else◌, ltb, ◌==◌,
  get_or,
}
use hccl_reduce_scatter.Ccu.{Address, Inputs}
use hccl_reduce_scatter.Kernel.Args.{CcuKernelArgBase, channel_at}
use hccl_reduce_scatter.Kernel.Common.{remote_inputs, remote_addr_id, remote_token_id}

module _ (base : CcuKernelArgBase) (included : Bool) (local_index : ℕ) (own : Address)
    (i : Inputs) where
  -- The channel index that the loop has reached at a source: the own rank, if it is a source,
  -- has no channel.
  abbrev pub reached : ℕ → ℕ
  reached source = if included && ltb local_index source then source - 1 else source

  abbrev pub source_at : ℕ → Address
  source_at source = if included && source == local_index then own else record {
    addr = i.res_by_channel (channel_at base (reached source)) remote_addr_id;
    token = i.res_by_channel (channel_at base (reached source)) remote_token_id;
  }

  reached_next :
      (source : ℕ)
      → (if included && source == local_index then reached source else reached source + 1)
        ≡ reached (source + 1)
  reached_next source = ground arith

  source_inputs_from :
      (n source s : ℕ) (d : Address)
      → s < n
      → get_or
          (remote_inputs base (λ p. included && p == local_index) own i n source (reached source))
          s
          d
        ≡ source_at (source + s)
  unfolding remote_inputs
  source_inputs_from zero source s d h = elim h [ ]
  source_inputs_from (suc n) source zero d h = ap source_at (omega arith)
  source_inputs_from (suc n) source (suc s) d h =
      rw (reached_next source)
        (source_inputs_from n (source + 1) s d (omega arith) ∙ ap source_at (omega arith))

  pub get_or-source_inputs :
      (n s : ℕ) (d : Address)
      → s < n
      → get_or (remote_inputs base (λ p. included && p == local_index) own i n 0 0) s d
        ≡ source_at s
  get_or-source_inputs n s d h =
      let start : 0 ≡ reached 0 = ground arith in
      ap (λ c. get_or (remote_inputs base (λ p. included && p == local_index) own i n 0 c) s d)
        start
      ∙ source_inputs_from n 0 s d h
      ∙ ap source_at (omega arith)

  pub source_at_away :
      (source : ℕ)
      → (included && source == local_index) ≡ false
      → (source_at source).addr ≡ i.res_by_channel (channel_at base (reached source)) remote_addr_id
  source_at_away source away = rw away
