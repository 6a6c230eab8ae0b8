-- ===== src/Host/Entry/Laws.antt =====
-- What the collective refuses before it calls the SDK.
use hccl_reduce_scatter.Prelude.{◌||◌, ◌≡◌, true, some, [], arith, ◌==◌}
use hccl_reduce_scatter.Status.{hccl_e_ptr}
use hccl_reduce_scatter.Host.Types.{Hcomm}
use hccl_reduce_scatter.Host.Sdk.{Sdk}
use hccl_reduce_scatter.Host.Entry.{Request, prepare, run_reduce_scatter}

-- A call with a null pointer is refused before any call of the SDK.
pub null_pointers-refused :
    (sdk : Sdk) (hcomm : Hcomm) (q : Request)
    → (q.send_buf == 0 || q.recv_buf == 0 || q.comm == 0 || q.stream == 0) ≡ true
    → run_reduce_scatter sdk hcomm q ≡ (some (hccl_e_ptr, []), [])
unfolding run_reduce_scatter prepare
null_pointers-refused sdk hcomm q h = ground arith
