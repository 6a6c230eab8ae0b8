-- ===== src/Host/Resources/Groups.antt =====
-- `BuildOwnTargetPlan` and `BuildHierarchyPlan`: the ranks of the own group and of the others.
use hccl_reduce_scatter.Prelude.{
  ℕ, ◌+◌, ◌%◌, ◌||◌, ◌&&◌, Bool, false, not, List, [], ◌∷◌, ◌++◌, ltb, leb, ◌==◌, if◌then◌else◌,
  is_empty, length, get_or, range_from,
}
use hccl_reduce_scatter.Status.{hccl_e_internal, hccl_e_not_support}
use hccl_reduce_scatter.Kernel.Args.{max_local_rank_size}
use hccl_reduce_scatter.Host.Sdk.{
  get_ranks_by_layer, Act, ◌>>=◌, ◌>>◌, pure, ask, call, refuse, stop,
}
use hccl_reduce_scatter.Host.Types.{OpParam, AlgResourceCtx}

-- `std::sort`, up to the order of equal elements, which are equal numbers.
abbrev pub insert_rank : ℕ → List ℕ → List ℕ
insert_rank r [] = r ∷ []
insert_rank r (q ∷ qs) = let rest = insert_rank r qs in if leb r q then r ∷ q ∷ qs else q ∷ rest

unfoldable pub sort_ranks : List ℕ → List ℕ
sort_ranks [] = []
sort_ranks (r ∷ rs) = insert_rank r (sort_ranks rs)

-- `std::binary_search` on a sorted list.
abbrev pub holds_rank : ℕ → List ℕ → Bool
holds_rank r [] = false
holds_rank r (q ∷ qs) = (q == r) || holds_rank r qs

-- `std::find`, as an index: the length where the rank is absent.
abbrev pub index_of : ℕ → List ℕ → ℕ
index_of r [] = 0
index_of r (q ∷ qs) = let rest = index_of r qs in if q == r then 0 else rest + 1

-- The ranks of the communicator outside a group.
unfoldable pub ranks_outside : List ℕ → List ℕ → List ℕ
ranks_outside group [] = []
ranks_outside group (r ∷ rs) =
    let rest = ranks_outside group rs in if holds_rank r group then rest else r ∷ rest

abbrev pub remote_ranks : OpParam → List ℕ → List ℕ
remote_ranks param group = ranks_outside group (range_from 0 param.rank_size)

-- The layer-0 group, sorted.
unfoldable pub local_group : Act (List ℕ)
local_group = do
  call (get_ranks_by_layer 0)
  ranks ← ask (λ api. api.ranks)
  refuse (length ranks == 0 || ltb max_local_rank_size (length ranks)) hccl_e_not_support
  pure (sort_ranks ranks)

unfoldable pub build_own_target_plan : OpParam → AlgResourceCtx → Act AlgResourceCtx
build_own_target_plan param ctx = do
  group ← local_group
  refuse (not (holds_rank param.my_rank group)) hccl_e_internal
  refuse (is_empty (remote_ranks param group)) hccl_e_not_support
  pure (record ctx {
    local_ranks = group;
    cross_peers = remote_ranks param group;
    target_ranks = param.my_rank ∷ [];
  })

-- The targets, the peers and the indices of the targets to send, for a group and the index of the
-- rank in it; `cross_peers` and `cross_send_target_indices` are appended to.
abbrev pub choose_targets : OpParam → AlgResourceCtx → List ℕ → ℕ → List ℕ → Act AlgResourceCtx
choose_targets param ctx group index remote =
    if param.rank_size == 16
    then (refuse (not (length group == 8) || not (length remote == 8)) hccl_e_internal
        >> pure (record ctx {
          local_ranks = group;
          target_ranks = param.my_rank ∷ get_or remote index 0 ∷ [];
          cross_peers = ctx.cross_peers ++ (get_or remote index 0 ∷ []);
          cross_send_target_indices = ctx.cross_send_target_indices ++ (1 ∷ []);
        }))
    else if param.rank_size == 12 && length group == 8
    then (refuse (not (length remote == 4)) hccl_e_internal
        >> pure (record ctx {
          local_ranks = group;
          target_ranks =
              param.my_rank ∷ (if ltb index 4 then get_or remote (index % 4) 0 ∷ [] else []);
          cross_peers = ctx.cross_peers ++ (get_or remote (index % 4) 0 ∷ []);
          cross_send_target_indices =
              if ltb index 4
              then ctx.cross_send_target_indices ++ (1 ∷ [])
              else ctx.cross_send_target_indices;
        }))
    else if param.rank_size == 12 && length group == 4
    then (refuse (not (length remote == 8)) hccl_e_internal
        >> pure (record ctx {
          local_ranks = group;
          target_ranks = param.my_rank ∷ get_or remote index 0 ∷ get_or remote (index + 4) 0 ∷ [];
          cross_peers =
              ctx.cross_peers ++ (get_or remote index 0 ∷ get_or remote (index + 4) 0 ∷ []);
          cross_send_target_indices = 1 ∷ 2 ∷ [];
        }))
    else (λ api h. (stop hccl_e_not_support, h))

unfoldable pub build_hierarchy_plan : OpParam → AlgResourceCtx → Act AlgResourceCtx
build_hierarchy_plan param ctx = do
  group ← local_group
  refuse (not (holds_rank param.my_rank group)) hccl_e_internal
  choose_targets param ctx group (index_of param.my_rank group) (remote_ranks param group)
