-- ===== src/Tests/Hierarchy.antt =====
-- The hierarchical plan of rank 1 of 12, whose group is the first four ranks.
use hccl_reduce_scatter.Prelude.{◌≡◌, refl, some, [], ◌∷◌}
use hccl_reduce_scatter.Status.{chk_ret}
use hccl_reduce_scatter.Host.Sdk.{go, get_ranks_by_layer}
use hccl_reduce_scatter.Host.Sdk.Laws.{Ensures}
use hccl_reduce_scatter.Host.Types.{AlgResourceCtx}
use hccl_reduce_scatter.Host.Resources.Groups.{
  build_hierarchy_plan, local_group, sort_ranks, ranks_outside,
}
use hccl_reduce_scatter.Host.Resources.Hierarchy.{send_channels}
use hccl_reduce_scatter.Host.Resources.Hierarchy.Laws.{Reaches, build_hierarchy_plan-Reaches}
use hccl_reduce_scatter.Tests.Entry.{param_with, plain_ctx, smooth_sdk}

abbrev small_group_plan : AlgResourceCtx
small_group_plan = record plain_ctx {
  local_ranks = 0 ∷ 1 ∷ 2 ∷ 3 ∷ [];
  target_ranks = 1 ∷ 5 ∷ 9 ∷ [];
  cross_peers = 5 ∷ 9 ∷ [];
  cross_send_target_indices = 1 ∷ 2 ∷ [];
}

small_group_run :
    build_hierarchy_plan (param_with 12 1) plain_ctx smooth_sdk []
    ≡ (go small_group_plan, get_ranks_by_layer 0 ∷ [])
unfolding build_hierarchy_plan local_group sort_ranks ranks_outside chk_ret
small_group_run = refl

small_group_channels : send_channels small_group_plan (1 ∷ 2 ∷ []) ≡ some (0 ∷ 1 ∷ [])
unfolding send_channels
small_group_channels = refl

build_hierarchy_plan-Reaches_example :
    Ensures (build_hierarchy_plan (param_with 12 1) plain_ctx) Reaches
build_hierarchy_plan-Reaches_example =
    build_hierarchy_plan-Reaches (param_with 12 1) plain_ctx refl refl
