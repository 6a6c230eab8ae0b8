-- ===== src/Host/Resources/Channels.antt =====
-- `BuildChannelDesc`, `AcquireChannelsAtLayer` and `AcquireMeshChannels`.
pub mod Laws
use hccl_reduce_scatter.Prelude.{
  ℕ, Option, none, some, List, [], ◌∷◌, map, foldl, max, ◌==◌, if◌then◌else◌, is_empty, length,
  range_from,
}
use hccl_reduce_scatter.Status.{hccl_e_not_found, hccl_e_internal}
use hccl_reduce_scatter.Host.Sdk.{
  CommLink, HcclChannelDesc, get_links, get_layers, channel_desc_init, channel_acquire, Act, ◌>>=◌,
  ◌>>◌, pure, call, ask, refuse, stop,
}
use hccl_reduce_scatter.Host.Types.{OpParam}

-- The first link with the protocol.
abbrev pub selected_link : List CommLink → Option CommLink
selected_link [] = none
selected_link (l ∷ ls) = if l.is_ubc_ctp then some l else selected_link ls

abbrev pub describe : ℕ → Option CommLink → Act HcclChannelDesc
describe remote none = λ api h. (stop hccl_e_not_found, h)
describe remote (some l) =
    call channel_desc_init
    >> pure (record {
      remote_rank = remote;
      notify_num = 1;
      local_endpoint = l.src_endpoint;
      remote_endpoint = l.dst_endpoint;
    })

unfoldable pub build_channel_desc : ℕ → ℕ → ℕ → Act HcclChannelDesc
build_channel_desc net_layer my_rank remote_rank = do
  call (get_links net_layer my_rank remote_rank)
  links ← ask (λ api. api.links)
  describe remote_rank (selected_link links)

-- The loop over the peers.
unfoldable pub build_channel_descs : ℕ → ℕ → List ℕ → Act (List HcclChannelDesc)
build_channel_descs net_layer my_rank [] = pure []
build_channel_descs net_layer my_rank (peer ∷ peers) = do
  desc ← build_channel_desc net_layer my_rank peer
  rest ← build_channel_descs net_layer my_rank peers
  pure (desc ∷ rest)

abbrev pub acquire_described : List HcclChannelDesc → Act (List ℕ)
acquire_described [] = pure []
acquire_described (d ∷ ds) = do
  call (channel_acquire (d ∷ ds))
  ask (λ api h. map (api.channel h) (range_from 0 (length (d ∷ ds))))

unfoldable pub acquire_channels_at_layer : ℕ → ℕ → List ℕ → Act (List ℕ)
acquire_channels_at_layer my_rank net_layer peers = do
  descs ← build_channel_descs net_layer my_rank peers
  acquire_described descs

-- The ranks of a list other than the own.
unfoldable pub other_ranks : ℕ → List ℕ → List ℕ
other_ranks my_rank [] = []
other_ranks my_rank (r ∷ rs) =
    let rest = other_ranks my_rank rs in if r == my_rank then rest else r ∷ rest

abbrev pub highest_layer : List ℕ → ℕ
highest_layer layers = foldl max 0 layers

unfoldable pub acquire_mesh_channels : OpParam → Act (List ℕ)
acquire_mesh_channels param = do
  call get_layers
  layers ← ask (λ api. api.layers)
  refuse (is_empty layers) hccl_e_internal
  acquire_channels_at_layer param.my_rank (highest_layer layers)
      (other_ranks param.my_rank (range_from 0 param.rank_size))
