-- ===== src/Host/Resources/Channels/Laws.antt =====
-- Every peer gets a channel, so the arguments that the kernels are registered with pass their
-- guards.
use hccl_reduce_scatter.Prelude.{
  ℕ, zero, suc, ◌+◌, ◌-◌, ◌≤◌, ◌<◌, ◌≡◌, refl, ◌∙◌, ap, false, List, [], ◌∷◌, map, arith, ltb,
  length, length-map, length-range_from, range_from, is_empty, sub32_small, if◌then◌else◌,
}
use hccl_reduce_scatter.Host.Sdk.{HcclChannelDesc, channel_acquire, get_layers, call, ask, refuse}
use hccl_reduce_scatter.Host.Sdk.Laws.{
  Ensures, Ensures_bind, Ensures_pure, Ensures_ask, Ensures_any, Ensures_weaken,
}
use hccl_reduce_scatter.Status.{hccl_e_internal}
use hccl_reduce_scatter.Host.Types.{OpParam}
use hccl_reduce_scatter.Host.Resources.Channels.{
  build_channel_desc, build_channel_descs, acquire_described, acquire_channels_at_layer,
  other_ranks, acquire_mesh_channels, highest_layer,
}
use hccl_reduce_scatter.Host.Register.{
  mesh_kernel_arg, striped_kernel_arg, small_tree_kernel_arg, small_clos_kernel_arg,
}
use hccl_reduce_scatter.Kernel.Direct.{direct_refuses}
use hccl_reduce_scatter.Kernel.Striped.{striped_refuses}
use hccl_reduce_scatter.Kernel.Tree.{tree_refuses}
use hccl_reduce_scatter.Kernel.Tiled.{tiled_refuses}

build_channel_descs-length :
    (layer my : ℕ) (peers : List ℕ)
    → Ensures (build_channel_descs layer my peers) (λ ds. length ds ≡ length peers)
unfolding build_channel_descs
build_channel_descs-length layer my [] = Ensures_pure [] refl
build_channel_descs-length layer my (peer ∷ peers) =
    Ensures_bind (Ensures_any (build_channel_desc layer my peer)) (λ d _.
      Ensures_bind (build_channel_descs-length layer my peers)
        (λ ds count. Ensures_pure (d ∷ ds) (ap suc count)))

acquire_described-length :
    (ds : List HcclChannelDesc)
    → Ensures (acquire_described ds) (λ channels. length channels ≡ length ds)
acquire_described-length [] = Ensures_pure [] refl
acquire_described-length (d ∷ ds) =
    Ensures_bind (Ensures_any (call (channel_acquire (d ∷ ds)))) (λ _ _.
      Ensures_ask (λ api h. map (api.channel h) (range_from 0 (length (d ∷ ds))))
        (λ api h.
          length-map (range_from 0 (length (d ∷ ds))) (api.channel h)
          ∙ length-range_from 0 (length (d ∷ ds))))

acquire_channels_at_layer-length :
    (my layer : ℕ) (peers : List ℕ)
    → Ensures
        (acquire_channels_at_layer my layer peers)
        (λ channels. length channels ≡ length peers)
unfolding acquire_channels_at_layer
acquire_channels_at_layer-length my layer peers =
    Ensures_bind (build_channel_descs-length layer my peers) (λ ds count.
      Ensures_weaken (acquire_described ds) (λ channels e. e ∙ count) (acquire_described-length ds))

others_length :
    (my i n : ℕ)
    → length (other_ranks my (range_from i n))
      ≡ (if ltb my i then n else if ltb my (i + n) then n - 1 else n)
unfolding other_ranks
others_length my i zero = ground arith
others_length my i (suc n) = ground (arith, others_length my (i + 1) n)

mesh_peers-length : (my n : ℕ) → my < n → length (other_ranks my (range_from 0 n)) ≡ n - 1
mesh_peers-length my n h = ground (arith, others_length my 0 n)

acquire_mesh_channels-length :
    (param : OpParam)
    → param.my_rank < param.rank_size
    → Ensures (acquire_mesh_channels param) (λ channels. length channels ≡ param.rank_size - 1)
unfolding acquire_mesh_channels
acquire_mesh_channels-length param own = Ensures_bind (Ensures_any (call get_layers)) (λ _ _.
    Ensures_bind (Ensures_any (ask (λ api. api.layers))) (λ layers _.
      Ensures_bind (Ensures_any (refuse (is_empty layers) hccl_e_internal)) (λ _ _.
        Ensures_weaken _ (λ channels e. e ∙ mesh_peers-length param.my_rank param.rank_size own)
          (acquire_channels_at_layer-length param.my_rank (highest_layer layers)
            (other_ranks param.my_rank (range_from 0 param.rank_size))))))

-- For a rank of a communicator of 2 to 16: whenever the acquisition of the mesh channels goes on,
-- there is one channel for each peer, and the arguments that the direct, the striped, the small
-- tree and the parallel kernel are registered with then pass the kernels' guards.
pub mesh_arguments-accepted :
    (param : OpParam)
    → 2 ≤ param.rank_size
    → param.rank_size ≤ 16
    → param.my_rank < param.rank_size
    → Ensures (acquire_mesh_channels param) (λ channels.
      (length channels ≡ param.rank_size - 1)
      × (direct_refuses (mesh_kernel_arg param channels) ≡ false)
      × (striped_refuses (striped_kernel_arg param channels) ≡ false)
      × (tree_refuses (small_tree_kernel_arg param channels) ≡ false)
      × (tiled_refuses (small_clos_kernel_arg param channels) ≡ false))
mesh_arguments-accepted param two few own =
    Ensures_weaken _
      (λ channels count.
        let left = sub32_small param.rank_size 1 (omega arith) (omega arith) in
        (count, ground arith, ground arith, ground arith, ground arith))
      (acquire_mesh_channels-length param own)
