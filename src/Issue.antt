-- ===== src/Issue.antt =====
-- Calls of an SDK, issued in order until one fails. Every call in the kernels stands in
-- `CCU_RETURN_IF_ERROR` and every call of `ExecOp` in `CHK_RET` or `CHK_RET_CCU`, and what a call
-- asks for does not depend on the status of an earlier one; so a function is the list of the
-- calls that it makes, and `issue` runs it. What a call answers may depend on all calls before
-- it: `reply history call` is the code that the caller returns, `none` where the call succeeded.
pub mod Laws
use hccl_reduce_scatter.Prelude.{Option, none, some, List, [], ◌∷◌, ◌++◌}

module _ {C E : Type 0} where
  unfoldable pub issue : (List C → C → Option E) → List C → List C → Option E × List C
  issue reply history [] = (none, history)
  issue reply history (c ∷ cs) = elim (reply history c) [
    | none ↦ issue reply (history ++ (c ∷ [])) cs
    | some e ↦ (some e, history ++ (c ∷ []))
  ]
