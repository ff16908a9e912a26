-- ===== src/Response/KeepAlive.antt =====
-- What `free_request` of src/request.c does with the connection.
use boa.Common.{ℕ, Bool, not, ◌&&◌, ltb, ◌==◌}
use boa.Status.{ReqStatus, is_over, KaStatus}
use boa.Response.{is_active}

-- The test of `free_request`: the client may send another request.
unfoldable pub keeps_connection : ReqStatus → KaStatus → ℕ → ℕ → Bool
keeps_connection status keepalive response_status kacount =
    not (is_over status)
    && is_active keepalive
    && (ltb response_status 500 && not (response_status == 0))
    && ltb 0 kacount
