-- ===== src/Ba/Admission.antt =====
-- What a response does to a session.
use rtl8190p.Common.{ℕ, ◌==◌, Bool, not, ◌&&◌}
use rtl8190p.Ts.{BaParamSet, TxTs}
use rtl8190p.Ba.{addba_status_success, ba_policy_delayed}

-- The response is for the request that waits.
unfoldable pub answers_request : TxTs → (token : ℕ) → Bool
answers_request t token =
    not t.tx_admitted_ba.valid && t.tx_pending_ba.valid && token == t.tx_pending_ba.dialog_token

-- The response is for the request, it says success, and its policy is not the delayed one.
unfoldable pub accepts : TxTs → (token status : ℕ) → BaParamSet → Bool
accepts t token status param =
    answers_request t token
    && status == addba_status_success
    && not (param.ba_policy == ba_policy_delayed)
