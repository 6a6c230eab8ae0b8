-- ===== src/Host/Exec/Laws.antt =====
-- What `ExecOp` returns, and how far it comes.
use hccl_reduce_scatter.Prelude.{
  ◌≡◌, ◌≢◌, sym, ◌∙◌, ap, none, some, List, [], ◌∷◌, ◌++◌, ◌⊎◌, inl, inr,
}
use hccl_reduce_scatter.Status.{HcclResult, hccl_success, convert_ccu_to_hccl}
use hccl_reduce_scatter.Status.Laws.{
  chk_ret-fails, chk_ret_ccu-fails, chk_ret-code, chk_ret_ccu-code, chk_ret-passes,
  chk_ret_ccu-passes, convert-success,
}
use hccl_reduce_scatter.Issue.Laws.{AllAfter, AllAfter-implies, issue_cases}
use hccl_reduce_scatter.Host.Types.{
  AlgResourceCtx, OpParam, HostCall, local_copy_on_thread, get_mem_token, kernel_launch,
  notify_record_on_thread, notify_wait_on_thread, Hcomm, host_reply, run_plan,
}
use hccl_reduce_scatter.Host.Exec.{exec_plan, exec_op}

-- The status of a call as an `HcclResult`, whatever the caller does with it.
abbrev pub code_of : Hcomm → List HostCall → HostCall → HcclResult
code_of api h (local_copy_on_thread t d s b) = api.hccl_status h (local_copy_on_thread t d s b)
code_of api h (get_mem_token a s) = convert_ccu_to_hccl (api.ccu_status h (get_mem_token a s))
code_of api h (kernel_launch t k args) =
    convert_ccu_to_hccl (api.ccu_status h (kernel_launch t k args))
code_of api h (notify_record_on_thread t u n) = api.hccl_status h (notify_record_on_thread t u n)
code_of api h (notify_wait_on_thread t n) = api.hccl_status h (notify_wait_on_thread t n)

host_reply-code :
    (api : Hcomm) (h : List HostCall) (c : HostCall) (e : HcclResult)
    → host_reply api h c ≡ some e
    → code_of api h c ≡ e
host_reply-code api h (local_copy_on_thread _ _ _ _) e f = chk_ret-code _ e f
host_reply-code api h (get_mem_token _ _) e f = chk_ret_ccu-code _ e f
host_reply-code api h (kernel_launch _ _ _) e f = chk_ret_ccu-code _ e f
host_reply-code api h (notify_record_on_thread _ _ _) e f = chk_ret-code _ e f
host_reply-code api h (notify_wait_on_thread _ _) e f = chk_ret-code _ e f

host_reply-passes :
    (api : Hcomm) (h : List HostCall) (c : HostCall)
    → host_reply api h c ≡ none
    → code_of api h c ≡ hccl_success
host_reply-passes api h (local_copy_on_thread _ _ _ _) f = chk_ret-passes _ f
host_reply-passes api h (get_mem_token _ _) f =
    ap convert_ccu_to_hccl (chk_ret_ccu-passes _ f) ∙ convert-success
host_reply-passes api h (kernel_launch _ _ _) f =
    ap convert_ccu_to_hccl (chk_ret_ccu-passes _ f) ∙ convert-success
host_reply-passes api h (notify_record_on_thread _ _ _) f = chk_ret-passes _ f
host_reply-passes api h (notify_wait_on_thread _ _) f = chk_ret-passes _ f

host_reply-fails :
    (api : Hcomm) (h : List HostCall) (c : HostCall) (e : HcclResult)
    → host_reply api h c ≡ some e
    → e ≢ hccl_success
host_reply-fails api h (local_copy_on_thread _ _ _ _) e f = chk_ret-fails _ e f
host_reply-fails api h (get_mem_token _ _) e f = chk_ret_ccu-fails _ e f
host_reply-fails api h (kernel_launch _ _ _) e f = chk_ret_ccu-fails _ e f
host_reply-fails api h (notify_record_on_thread _ _ _) e f = chk_ret-fails _ e f
host_reply-fails api h (notify_wait_on_thread _ _) e f = chk_ret-fails _ e f

abbrev pub Succeeds : Hcomm → List HostCall → HostCall → Type 0
Succeeds api h c = code_of api h c ≡ hccl_success

-- `ExecOp` either makes all the calls of its plan, each of which succeeds, and returns the plan's
-- result; or each of its calls succeeds up to one that fails, and it makes this one, none after
-- it, and returns its status, that of a CCU call converted, which is not the code of success.
pub exec_op-outcome :
    (api : Hcomm) (p : OpParam) (ctx : AlgResourceCtx)
    → ((exec_op api p ctx ≡ ((exec_plan api p ctx).result, (exec_plan api p ctx).calls))
        × AllAfter (Succeeds api) [] (exec_plan api p ctx).calls)
      ⊎ ((before : List HostCall) × (c : HostCall) × (after : List HostCall) × ((exec_plan api p
              ctx).calls
            ≡ before ++ (c ∷ after))
          × AllAfter (Succeeds api) [] before
          × (code_of api before c ≢ hccl_success)
          × (exec_op api p ctx ≡ (code_of api before c, before ++ (c ∷ []))))
unfolding exec_op run_plan
exec_op-outcome api p ctx = elim (issue_cases (host_reply api) (exec_plan api p ctx).calls) [
  | inl (smooth, passed) ↦
      inl (rw smooth, AllAfter-implies [] _ (λ h c. host_reply-passes api h c) passed)
  | inr (e, (before, c, after, split, passed, answer, made)) ↦
      let code = host_reply-code api before c e answer in
      inr (
        before,
        c,
        after,
        split,
        AllAfter-implies [] before (λ h d. host_reply-passes api h d) passed,
        (λ f. host_reply-fails api before c e answer (sym code ∙ f)),
        rw (made, code),
      )
]
