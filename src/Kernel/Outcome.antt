-- ===== src/Kernel/Outcome.antt =====
-- What a kernel returns, and how far it comes.
use hccl_reduce_scatter.Prelude.{sym, ◌∙◌, ◌≡◌, ◌≢◌, List, [], ◌∷◌, ◌++◌, ◌⊎◌, inl, inr}
use hccl_reduce_scatter.Status.{CcuResult, ccu_success, ccu_return_if_error}
use hccl_reduce_scatter.Status.Laws.{ccu_return_if_error-fails, ccu_return_if_error-passes}
use hccl_reduce_scatter.Issue.Laws.{AllAfter, AllAfter-implies, issue_cases}
use hccl_reduce_scatter.Ccu.{Call}
use hccl_reduce_scatter.Kernel.Common.{run_calls}

-- A kernel either makes all of its calls, each of which succeeds, and succeeds; or each of its
-- calls succeeds up to one that fails, and it makes this one, none after it, and returns its code.
pub run_calls-outcome :
    (reply : List Call → Call → CcuResult) (cs : List Call)
    → ((run_calls reply cs ≡ (ccu_success, cs)) × AllAfter (λ h c. reply h c ≡ ccu_success) [] cs)
      ⊎ ((before : List Call) × (c : Call) × (after : List Call) × (cs ≡ before ++ (c ∷ after))
          × AllAfter (λ h d. reply h d ≡ ccu_success) [] before
          × (reply before c ≢ ccu_success)
          × (run_calls reply cs ≡ (reply before c, before ++ (c ∷ []))))
unfolding run_calls
run_calls-outcome reply cs = elim (issue_cases (λ h c. ccu_return_if_error (reply h c)) cs) [
  | inl (smooth, passed) ↦
      inl (rw smooth, AllAfter-implies [] cs (λ h c. ccu_return_if_error-passes (reply h c)) passed)
  | inr (e, (before, c, after, split, passed, answer, made)) ↦
      let (code, bad) = ccu_return_if_error-fails (reply before c) e answer in
      inr (
        before,
        c,
        after,
        split,
        AllAfter-implies [] before (λ h d. ccu_return_if_error-passes (reply h d)) passed,
        (λ f. bad (sym code ∙ f)),
        rw (made, code),
      )
]
