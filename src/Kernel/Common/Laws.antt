-- ===== src/Kernel/Common/Laws.antt =====
-- The exchange moves no data, and pairs each source with the channel that leads to it.
use hccl_reduce_scatter.Prelude.{
  ℕ, zero, suc, ◌+◌, ◌-◌, ◌<◌, ◌≡◌, ◌≢◌, refl, ◌∙◌, ap, Bool, false, arith, inl, inr, Bool-cases,
  if◌then◌else◌, All, All-append, leb, ◌==◌, get_or, range_from, word32, sub32_small,
}
use hccl_reduce_scatter.Ccu.{Address, Inputs}
use hccl_reduce_scatter.Ccu.Program.{IsControl, map-IsControl}
use hccl_reduce_scatter.Kernel.Args.{CcuKernelArgBase, channel_at}
use hccl_reduce_scatter.Kernel.Common.{
  load_args, remote_inputs, advertise, wait_all, record_all, channel_of, remote_addr_id, exchange,
  remote_token_id,
}

pub load_args-IsControl : (n : ℕ) → All IsControl (load_args n)
load_args-IsControl n = map-IsControl _ (λ j. refl) (range_from 0 n)

pub wait_all-IsControl : (base : CcuKernelArgBase) (mask : ℕ) → All IsControl (wait_all base mask)
wait_all-IsControl base mask = map-IsControl _ (λ j. refl) (range_from 0 base.channel_count)

pub record_all-IsControl :
    (base : CcuKernelArgBase) (mask : ℕ) → All IsControl (record_all base mask)
record_all-IsControl base mask = map-IsControl _ (λ j. refl) (range_from 0 base.channel_count)

module _ (base : CcuKernelArgBase) (is_local : ℕ → Bool) (own : Address) where
  pub advertise-IsControl :
      (n source channel_idx : ℕ) → All IsControl (advertise base is_local own n source channel_idx)
  unfolding advertise
  advertise-IsControl zero source channel_idx = tt
  advertise-IsControl (suc n) source channel_idx = elim (Bool-cases (is_local source)) [
    | inl here ↦ rw here (advertise-IsControl n (source + 1) channel_idx)
    | inr away ↦ rw away (refl, (refl, advertise-IsControl n (source + 1) (channel_idx + 1)))
  ]

  pub exchange-IsControl :
      (args sources : ℕ) → All IsControl (exchange base is_local own args sources)
  unfolding exchange
  exchange-IsControl args sources =
      All-append IsControl (load_args args) _ (load_args-IsControl args) (
        All-append IsControl (advertise base is_local own sources 0 0) _
          (advertise-IsControl sources 0 0) (wait_all-IsControl base 6))

module _ (base : CcuKernelArgBase) (local_rank : ℕ) (own : Address) (i : Inputs) where
  -- The address and the token of a source: its own, or what stands in the variables of the
  -- channel to that rank.
  abbrev pub remote_at : ℕ → Address
  remote_at source = if source == local_rank then own else record {
    addr = i.res_by_channel (channel_at base (channel_of local_rank source)) remote_addr_id;
    token = i.res_by_channel (channel_at base (channel_of local_rank source)) remote_token_id;
  }

  pub remote_at_away :
      (source : ℕ)
      → source ≢ local_rank
      → (remote_at source).addr
        ≡ i.res_by_channel (channel_at base (channel_of local_rank source)) remote_addr_id
  remote_at_away source away = ground arith

  -- The channel index that the loop has reached at a source.
  abbrev reached : ℕ → ℕ
  reached source = if leb source local_rank then source else source - 1

  reached_next :
      (source : ℕ)
      → (if source == local_rank then reached source else reached source + 1) ≡ reached (source + 1)
  reached_next source = ground arith

  reached-channel_of :
      (source : ℕ)
      → source < word32
      → (source == local_rank) ≡ false
      → reached source ≡ channel_of local_rank source
  reached-channel_of source h e = ground (arith, sub32_small source 1)

  remote_head :
      (source : ℕ)
      → source < word32
      → (if source == local_rank then own else record {
        addr = i.res_by_channel (channel_at base (reached source)) remote_addr_id;
        token = i.res_by_channel (channel_at base (reached source)) remote_token_id;
      })
        ≡ remote_at source
  remote_head source h = elim (Bool-cases (source == local_rank)) [
    | inl here ↦ rw here
    | inr away ↦ rw (away, reached-channel_of source h away)
  ]

  remote_inputs_from :
      (n source s : ℕ) (d : Address)
      → source + s < word32
      → s < n
      → get_or (remote_inputs base (λ p. p == local_rank) own i n source (reached source)) s d
        ≡ remote_at (source + s)
  unfolding remote_inputs
  remote_inputs_from zero source s d b h = elim h [ ]
  remote_inputs_from (suc n) source zero d b h =
      remote_head source (omega arith) ∙ ap remote_at (omega arith)
  remote_inputs_from (suc n) source (suc s) d b h = rw (reached_next source) (
      remote_inputs_from n (source + 1) s d (omega arith) (omega arith)
      ∙ ap remote_at (omega arith))

  pub get_or-remote_inputs :
      (n s : ℕ) (d : Address)
      → s < n
      → n < word32
      → get_or (remote_inputs base (λ p. p == local_rank) own i n 0 0) s d ≡ remote_at s
  get_or-remote_inputs n s d h b =
      let start : 0 ≡ reached 0 = ground arith in
      ap (λ c. get_or (remote_inputs base (λ p. p == local_rank) own i n 0 c) s d) start
      ∙ remote_inputs_from n 0 s d (omega arith) h
      ∙ ap remote_at (omega arith)
