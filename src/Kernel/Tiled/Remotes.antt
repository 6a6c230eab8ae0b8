-- ===== src/Kernel/Tiled/Remotes.antt =====
-- The addresses that the loop over the sources of `CcuTiledPartialReduceKernel` takes from the
-- channels.
use hccl_reduce_scatter.Prelude.{
  ℕ, zero, suc, ◌+◌, ◌-◌, ◌<◌, ◌≡◌, refl, ◌∙◌, ap, false, ◌&&◌, arith, ltb, get_or, if◌then◌else◌,
}
use hccl_reduce_scatter.Ccu.{Address, Inputs}
use hccl_reduce_scatter.Kernel.Args.{CcuTiledPartialReduceKernelArg, channel_at}
use hccl_reduce_scatter.Kernel.Common.{nowhere, remote_inputs, remote_addr_id, remote_token_id}
use hccl_reduce_scatter.Kernel.Tiled.{is_included, tiled_input, tiled_remotes}
use hccl_reduce_scatter.Kernel.Tiled.Fetch.{IsChanneled, remote_source}

module _ (k : CcuTiledPartialReduceKernelArg) (i : Inputs) where
  -- The channel index that the loop has reached at a source.
  abbrev reached : ℕ → ℕ
  reached source =
      if k.include_local_source && ltb k.local_source_index source then source - 1 else source

  abbrev remote_at : ℕ → Address
  remote_at source = if is_included k i source then tiled_input k i else record {
    addr = i.res_by_channel (channel_at k.base (reached source)) remote_addr_id;
    token = i.res_by_channel (channel_at k.base (reached source)) remote_token_id;
  }

  reached_next :
      (source : ℕ)
      → (if is_included k i source then reached source else reached source + 1)
        ≡ reached (source + 1)
  reached_next source = ground arith

  remotes_from :
      (n source s : ℕ) (d : Address)
      → s < n
      → get_or
          (remote_inputs k.base (is_included k i) (tiled_input k i) i n source (reached source))
          s
          d
        ≡ remote_at (source + s)
  unfolding remote_inputs
  remotes_from zero source s d h = elim h [ ]
  remotes_from (suc n) source zero d h = ap remote_at (omega arith)
  remotes_from (suc n) source (suc s) d h =
      rw (reached_next source)
        (remotes_from n (source + 1) s d (omega arith) ∙ ap remote_at (omega arith))

  -- The address of the source behind a channel.
  pub tiled_remotes_at :
      IsChanneled k i
      → (c : ℕ) → c < k.base.channel_count
      → (get_or (tiled_remotes k i) (remote_source k i c) nowhere).addr
        ≡ i.res_by_channel (channel_at k.base c) remote_addr_id
  tiled_remotes_at channeled c h =
      let each = channeled.one_channel_each in
      let below : remote_source k i c < k.source_count = ground arith in
      let away : is_included k i (remote_source k i c) ≡ false = ground arith in
      let here : reached (remote_source k i c) ≡ c = ground arith in
      let start : 0 ≡ reached 0 = ground arith in
      let whole : 0 + remote_source k i c ≡ remote_source k i c = omega arith in
      let found : ℕ → Address = (λ n.
        get_or (remote_inputs k.base (is_included k i) (tiled_input k i) i k.source_count 0 n)
          (remote_source k i c) nowhere) in
      ap (λ n. (found n).addr) start
      ∙ ap (λ a. a.addr) (remotes_from k.source_count 0 (remote_source k i c) nowhere below)
      ∙ ap (λ s. (remote_at s).addr) whole
      ∙ rw (away, here) refl
