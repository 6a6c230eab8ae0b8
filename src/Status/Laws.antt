-- ===== src/Status/Laws.antt =====
-- What the error macros of include/log.h let through.
use hccl_reduce_scatter.Prelude.{◌≡◌, ◌≢◌, ◌↔◌, refl, none, some, arith}
use hccl_reduce_scatter.Status.{
  CcuResult, ccu_success, HcclResult, hccl_success, convert_ccu_to_hccl, chk_ret, chk_ret_ccu,
  ccu_return_if_error,
}

-- A CCU call lets its caller go on exactly when it succeeded; any other code makes the caller
-- return the converted code, which is never the code of success.
pub chk_ret_ccu-reports :
    (r : CcuResult)
    → ((chk_ret_ccu r ≡ none) ↔ (r ≡ ccu_success))
      × ((r ≢ ccu_success)
          → (chk_ret_ccu r ≡ some (convert_ccu_to_hccl r)) × (convert_ccu_to_hccl r ≢ hccl_success))
unfolding chk_ret_ccu
chk_ret_ccu-reports ccu_success = ground arith
chk_ret_ccu-reports r = ground arith

-- The code that a macro returns is never the code of success.
pub chk_ret-fails : (r e : HcclResult) → chk_ret r ≡ some e → e ≢ hccl_success
unfolding chk_ret
chk_ret-fails hccl_success e h = cc
chk_ret-fails r e h = ground arith

pub chk_ret_ccu-fails : (r : CcuResult) (e : HcclResult) → chk_ret_ccu r ≡ some e → e ≢ hccl_success
unfolding chk_ret_ccu convert_ccu_to_hccl
chk_ret_ccu-fails ccu_success e h = cc
chk_ret_ccu-fails r e h = ground arith

pub ccu_return_if_error-fails :
    (r e : CcuResult) → ccu_return_if_error r ≡ some e → (r ≡ e) × (e ≢ ccu_success)
unfolding ccu_return_if_error
ccu_return_if_error-fails ccu_success e h = cc
ccu_return_if_error-fails r e h = ground arith

-- A macro goes on only behind a call that succeeded.
pub ccu_return_if_error-passes : (r : CcuResult) → ccu_return_if_error r ≡ none → r ≡ ccu_success
unfolding ccu_return_if_error
ccu_return_if_error-passes ccu_success h = refl
ccu_return_if_error-passes r h = ground arith

pub chk_ret-code : (r e : HcclResult) → chk_ret r ≡ some e → r ≡ e
unfolding chk_ret
chk_ret-code hccl_success e h = cc
chk_ret-code r e h = ground arith

pub chk_ret-passes : (r : HcclResult) → chk_ret r ≡ none → r ≡ hccl_success
unfolding chk_ret
chk_ret-passes hccl_success h = refl
chk_ret-passes r h = ground arith

pub chk_ret_ccu-code :
    (r : CcuResult) (e : HcclResult) → chk_ret_ccu r ≡ some e → convert_ccu_to_hccl r ≡ e
unfolding chk_ret_ccu
chk_ret_ccu-code ccu_success e h = cc
chk_ret_ccu-code r e h = ground arith

pub chk_ret_ccu-passes : (r : CcuResult) → chk_ret_ccu r ≡ none → r ≡ ccu_success
unfolding chk_ret_ccu
chk_ret_ccu-passes ccu_success h = refl
chk_ret_ccu-passes r h = ground arith

pub convert-success : convert_ccu_to_hccl ccu_success ≡ hccl_success
unfolding convert_ccu_to_hccl
convert-success = refl
