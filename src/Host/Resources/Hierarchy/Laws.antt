-- ===== src/Host/Resources/Hierarchy/Laws.antt =====
-- The hierarchical plan and the channels of the targets that it sends.
use hccl_reduce_scatter.Prelude.{
  ℕ, ◌+◌, ◌<◌, ◌≡◌, refl, sym, ap, ◌∙◌, true, not, some, ◌||◌, ◌&&◌, List, [], ◌∷◌, map, arith, inl,
  inr, Bool-cases, ltb, ◌==◌, ==_iff, ◌%◌, length, get_or, All,
}
use hccl_reduce_scatter.Status.{hccl_e_internal}
use hccl_reduce_scatter.Host.Sdk.{refuse}
use hccl_reduce_scatter.Host.Sdk.Laws.{
  Ensures, Ensures_bind, Ensures_pure, Ensures_any, Ensures_then,
}
use hccl_reduce_scatter.Host.Types.{OpParam, AlgResourceCtx}
use hccl_reduce_scatter.Host.Resources.Groups.{
  local_group, holds_rank, index_of, remote_ranks, choose_targets, build_hierarchy_plan,
}
use hccl_reduce_scatter.Host.Resources.Hierarchy.{send_channel, send_channels}

-- Every target that is sent has the channel of its own rank.
abbrev pub Reaches : AlgResourceCtx → Type 0
Reaches plan =
    (channels : List ℕ) × (send_channels plan plan.cross_send_target_indices ≡ some channels)
    × All (λ c. c < length plan.cross_peers) channels
    × (map (λ c. get_or plan.cross_peers c 0) channels
        ≡ map (λ target. get_or plan.target_ranks target 0) plan.cross_send_target_indices)

none-Reaches : (plan : AlgResourceCtx) → plan.cross_send_target_indices ≡ [] → Reaches plan
unfolding send_channels
none-Reaches plan sends = ([], rw sends refl, tt, rw sends refl)

one-Reaches :
    (plan : AlgResourceCtx) (p : ℕ)
    → plan.cross_peers ≡ p ∷ []
    → plan.cross_send_target_indices ≡ 1 ∷ []
    → get_or plan.target_ranks 1 0 ≡ p
    → Reaches plan
unfolding send_channels
one-Reaches plan p peers sends target =
    let same : (p == p) ≡ true = ground arith in
    (
      0 ∷ [],
      rw (sends, peers, target, same) refl,
      (rw peers (omega arith), tt),
      rw (sends, peers) (ap (λ n. n ∷ []) (sym target)),
    )

two-Reaches :
    (plan : AlgResourceCtx) (p q : ℕ)
    → plan.cross_peers ≡ p ∷ q ∷ []
    → plan.cross_send_target_indices ≡ 1 ∷ 2 ∷ []
    → get_or plan.target_ranks 1 0 ≡ p
    → get_or plan.target_ranks 2 0 ≡ q
    → Reaches plan
unfolding send_channels
two-Reaches plan p q peers sends first second =
    let one : (p == p) ≡ true = ground arith in
    let self : (q == q) ≡ true = ground arith in
    let len : length plan.cross_peers ≡ 2 = ap length peers in
    let low : send_channel plan 1 ≡ 0 = rw (first, peers, one) refl in
    elim (Bool-cases (p == q)) [
      | inl same ↦
          let high : send_channel plan 2 ≡ 0 = rw (second, peers, same) refl in
          (
            0 ∷ 0 ∷ [],
            ap (send_channels plan) sends ∙ rw (low, high, len) (ap (λ n. some (n ∷ 0 ∷ [])) low),
            (rw peers (omega arith), (rw peers (omega arith), tt)),
            rw (sends, peers, first, second) (ap (λ n. p ∷ n ∷ []) ((==_iff p q).0 same)),
          )
      | inr other ↦
          let high : send_channel plan 2 ≡ 1 = rw (second, peers, other, self) refl in
          (
            0 ∷ 1 ∷ [],
            ap (send_channels plan) sends ∙ rw (low, high, len) (ap (λ n. some (n ∷ 1 ∷ [])) low),
            (rw peers (omega arith), (rw peers (omega arith), tt)),
            rw (sends, peers, first, second) refl,
          )
    ]

module _ (param : OpParam) (ctx : AlgResourceCtx) (fresh_peers : ctx.cross_peers ≡ [])
    (fresh_sends : ctx.cross_send_target_indices ≡ []) where
  choose_targets-Reaches :
      (group remote : List ℕ) (index : ℕ)
      → Ensures (choose_targets param ctx group index remote) Reaches
  choose_targets-Reaches group remote index = elim (Bool-cases (param.rank_size == 16)) [
    | inl sixteen ↦ rw sixteen (
        Ensures_then (refuse (not (length group == 8) || not (length remote == 8)) hccl_e_internal)
          (Ensures_pure _ (
            one-Reaches _ (get_or remote index 0) (rw fresh_peers refl) (rw fresh_sends refl)
              refl)))
    | inr other ↦ elim (Bool-cases (param.rank_size == 12 && length group == 8)) [
      | inl eight ↦ elim (Bool-cases (ltb index 4)) [
        | inl first ↦
            rw (other, eight, first)
              (Ensures_then (refuse (not (length remote == 4)) hccl_e_internal) (
                Ensures_pure _ (
                  one-Reaches _ (get_or remote (index % 4) 0) (rw fresh_peers refl)
                    (rw fresh_sends refl) refl)))
        | inr second ↦
            rw (other, eight, second)
              (Ensures_then (refuse (not (length remote == 4)) hccl_e_internal)
                (Ensures_pure _ (none-Reaches _ fresh_sends)))
      ]
      | inr less ↦ elim (Bool-cases (param.rank_size == 12 && length group == 4)) [
        | inl four ↦
            rw (other, less, four)
              (Ensures_then (refuse (not (length remote == 8)) hccl_e_internal) (
                Ensures_pure _ (
                  two-Reaches _ (get_or remote index 0) (get_or remote (index + 4) 0)
                    (rw fresh_peers refl) refl refl refl)))
        | inr none_of ↦ rw (other, less, none_of) (record { holds = λ api h. tt })
      ]
    ]
  ]

  -- For a fresh context, whenever the hierarchical plan is made, each target that it sends to a
  -- peer has a channel: the search for it succeeds, its index is one of the cross channels, and
  -- the peer behind that channel is the target's rank.
  pub build_hierarchy_plan-Reaches : Ensures (build_hierarchy_plan param ctx) Reaches
  unfolding build_hierarchy_plan
  build_hierarchy_plan-Reaches = Ensures_bind (Ensures_any local_group) (λ group _.
      Ensures_then (refuse (not (holds_rank param.my_rank group)) hccl_e_internal)
        (choose_targets-Reaches group (remote_ranks param group) (index_of param.my_rank group)))
