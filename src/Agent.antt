-- ===== src/Agent.antt =====
-- cmd/agent/main.go: registering with retries. The HTTP client and the clock are other code: their
-- answers are arguments, one for each attempt.
pub mod Retry
pub mod Start
pub mod Waiting
pub mod Announcing
pub mod Heartbeat
pub mod Running
pub mod Beating
use router_ui.Base.{
  some, ℕ, zero, suc, ◌+◌, ◌-◌, ◌*◌, Bool, true, false, List, [], ◌∷◌, Option, none, some, String,
  if◌then◌else◌, nat_eq, ltb, Result, ok, err, length, get_or,
}
use router_ui.Base.Text.{◌+++◌}
use router_ui.Net.{to4, Texts}
use router_ui.WireGuard.{PeerConfig}
use router_ui.Api.{RegisterRequest, RegisterResponse}

unfoldable pub min : ℕ → ℕ → ℕ
min a b = if ltb a b then a else b

-- What the request gives: an error, or a status with the body as it decodes into a response and the
-- text that it decodes to as an error.
pub data Reply : Type 0 where
  failed : String → Reply
  replied : ℕ → Result String RegisterResponse → String → Reply

pub data Error : Type 0 where
  http_error decode_error : String → Error
  core_returned : ℕ → String → Error

-- The request that doRegister sends; a port of 0 stands for the default.
unfoldable pub register_request : String → String → ℕ → String → RegisterRequest
register_request node_id public_ip listen_port pub_key = record {
  node_id = node_id;
  public_ip = public_ip;
  wg_port = if nat_eq listen_port 0 then 51820 else listen_port;
  wg_public_key = pub_key;
}

decoded : Result String RegisterResponse → Result Error RegisterResponse
decoded (ok resp) = ok resp
decoded (err e) = err (decode_error e)

unfoldable pub do_register : Reply → Result Error RegisterResponse
unfolding decoded
do_register (failed e) = err (http_error e)
do_register (replied status body text) =
    if nat_eq status 200 then decoded body else err (core_returned status text)

-- Seconds between the attempts.
abbrev pub backoffs : List ℕ
backoffs = 2 ∷ 4 ∷ 8 ∷ 16 ∷ 30 ∷ []

unfoldable pub wait_after : ℕ → ℕ
unfolding min
wait_after attempt = get_or backoffs (min attempt (length backoffs - 1)) 0

pub data Ending : Type 0 where
  registered : RegisterResponse → Ending
  cancelled gave_up : Ending

-- The loop from `attempt`, with `left` attempts to go: how it ends, and the waits that it began.
-- `replies` has the reply to each attempt, `stops` whether the context ends in the wait after it.
unfoldable pub retry_from : (ℕ → Reply) → (ℕ → Bool) → ℕ → ℕ → Ending × List ℕ
retry_from replies stops attempt zero = (gave_up, [])
retry_from replies stops attempt (suc left) =
    let rest = retry_from replies stops (attempt + 1) left in
    elim (do_register (replies attempt)) [
      | ok resp ↦ (registered resp, [])
      | err e ↦
          if stops attempt
          then (cancelled, wait_after attempt ∷ [])
          else (rest.0, wait_after attempt ∷ rest.1)
    ]

unfoldable pub register_with_retry : (ℕ → Reply) → (ℕ → Bool) → Ending × List ℕ
unfolding retry_from
register_with_retry replies stops = retry_from replies stops 0 10

-- The WireGuard peer that the agent adds for the core, whose key has been parsed.
unfoldable pub core_peer : Texts → RegisterResponse → String → PeerConfig
core_peer t resp core_key = record {
  public_key = core_key;
  endpoint = some (record { ip = t.parse_ip resp.core_public_ip; port = resp.core_wg_port });
  persistent_keepalive = 0;
  allowed_ips = record { ip = to4 (t.parse_ip resp.core_wg_ip); ones = 32; bits = 32 } ∷ [];
}
