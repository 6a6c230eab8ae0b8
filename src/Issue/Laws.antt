-- ===== src/Issue/Laws.antt =====
-- Runs of `issue`.
use hccl_reduce_scatter.Prelude.{
  ◌≡◌, refl, ◌∙◌, ap, Option, none, some, List, [], ◌∷◌, ◌++◌, append_assoc, append-nil, ◌⊎◌, inl,
  inr, Option-cases,
}
use hccl_reduce_scatter.Issue.{issue}

-- Each of the calls, made behind the calls `t`, satisfies `P`.
abbrev pub AllAfter : {C : Type 0} → (List C → C → Type 0) → List C → List C → Type 0
AllAfter P t [] = Unit
AllAfter P t (c ∷ cs) = P t c × AllAfter P (t ++ (c ∷ [])) cs

pub AllAfter-implies :
    {C : Type 0} {P Q : List C → C → Type 0} (t cs : List C)
    → ((h : List C) (c : C) → P h c → Q h c)
    → AllAfter P t cs
    → AllAfter Q t cs
AllAfter-implies t [] imp a = tt
AllAfter-implies t (c ∷ cs) imp a = (imp t c a.0, AllAfter-implies (t ++ (c ∷ [])) cs imp a.1)

module _ {C E : Type 0} (reply : List C → C → Option E) where
  abbrev pub Passes : List C → C → Type 0
  Passes h c = reply h c ≡ none

  -- Where every call succeeds, all calls are made.
  pub issue_smooth :
      ((t : List C) (c : C) → reply t c ≡ none)
      → (t cs : List C) → issue reply t cs ≡ (none, t ++ cs)
  unfolding issue
  issue_smooth smooth t [] = rw append-nil
  issue_smooth smooth t (c ∷ cs) =
      rw (smooth t c, issue)
        (issue_smooth smooth (t ++ (c ∷ [])) cs ∙ ap (λ k. (none, k)) (append_assoc t (c ∷ []) cs))

  -- A run that fails made the calls up to the first that failed, and returns that call's code.
  pub issue_fails :
      (t cs : List C) (e : E)
      → (issue reply t cs).0 ≡ some e
      → (before : List C) × (c : C) × (after : List C) × (cs ≡ before ++ (c ∷ after))
        × AllAfter Passes t before
        × (reply (t ++ before) c ≡ some e)
        × ((issue reply t cs).1 ≡ t ++ (before ++ (c ∷ [])))
  unfolding issue
  issue_fails t [] e h = cc
  issue_fails t (c ∷ cs) e h = elim (Option-cases (reply t c)) [
    | inl fine ↦
        let (before, d, after, split, passed, fault, made) =
          issue_fails (t ++ (c ∷ [])) cs e (rw (fine, issue) at h) in
        (
          c ∷ before,
          d,
          after,
          ap (λ k. c ∷ k) split,
          (fine, passed),
          rw (append_assoc t (c ∷ []) before) at fault,
          rw (fine, issue) (made ∙ append_assoc t (c ∷ []) (before ++ (d ∷ []))),
        )
    | inr (e', fault) ↦ (
      [],
      c,
      cs,
      refl,
      tt,
      rw append-nil (cc (ap (λ (x : Option E). x) (rw (fault, issue) at h))),
      rw (fault, issue),
    )
  ]

  -- A run without a failure made all calls, and each succeeded.
  issue_completes :
      (t cs : List C)
      → (issue reply t cs).0 ≡ none
      → (issue reply t cs ≡ (none, t ++ cs)) × AllAfter Passes t cs
  unfolding issue
  issue_completes t [] h = (rw append-nil, tt)
  issue_completes t (c ∷ cs) h = elim (Option-cases (reply t c)) [
    | inl fine ↦
        let (made, passed) = issue_completes (t ++ (c ∷ [])) cs (rw (fine, issue) at h) in
        (rw (fine, issue) (made ∙ ap (λ k. (none, k)) (append_assoc t (c ∷ []) cs)), (fine, passed))
    | inr (e, fault) ↦ absurd (cc (ap (λ (x : Option E). x) (rw (fault, issue) at h)))
  ]

  -- The run fails at a call with the code `e`.
  abbrev pub FailsAt : List C → Option E × List C → E → Type 0
  FailsAt cs outcome e =
      (before : List C) × (c : C) × (after : List C) × (cs ≡ before ++ (c ∷ after))
      × AllAfter Passes [] before
      × (reply before c ≡ some e)
      × (outcome ≡ (some e, before ++ (c ∷ [])))

  -- A run either makes all calls and each succeeds, or stops behind the first that failed with
  -- that call's code.
  pub issue_cases :
      (cs : List C)
      → ((issue reply [] cs ≡ (none, cs)) × AllAfter Passes [] cs)
        ⊎ ((e : E) × FailsAt cs (issue reply [] cs) e)
  issue_cases cs = elim (Option-cases (issue reply [] cs).0) [
    | inl fine ↦ inl (issue_completes [] cs fine)
    | inr (e, fault) ↦
        let (before, c, after, split, passed, answer, made) = issue_fails [] cs e fault in
        inr (e, (before, c, after, split, passed, answer, cc (fault, made)))
  ]
