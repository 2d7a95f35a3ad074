-- ===== src/Node/Connection.antt =====
-- `NodeConnection` of crates/node/src/connection.rs.
pub mod Stuck
use knitting_crab.Prelude.{
  ℕ, ◌*◌, ◌≡◌, ap, Bool, true, false, Option, none, some, List, [], ◌∷◌, String, min, if◌then◌else◌,
}
use knitting_crab.Core.Task.{WorkerId}
use knitting_crab.Coordinator.State.{
  CoordinatorState, CoordinatorRequest, CoordinatorResponse, register_node, node_heartbeat, done,
}
use knitting_crab.Coordinator.Server.{Served, handle_request, close_connection}
use knitting_crab.Node.{
  NodeError, NodeResult, node_ok, node_err, transport_error, connection_error, not_registered, Fate,
  answers, unsent, unanswered, closes, NodeConnection,
}

-- The coordinator has served a request.
abbrev pub served : Served → NodeConnection → NodeConnection
served r k = record k { server = r.state; session = r.registered }

-- The stream has ended, on both sides.
unfoldable pub ended_stream : NodeConnection → NodeConnection
unfolding close_connection
ended_stream k = record k {
  is_connected = false;
  server = close_connection k.session k.server;
  session = none;
}

unfoldable pub exchange :
    ℕ
    → ℕ
    → Fate
    → CoordinatorRequest
    → NodeConnection
    → NodeConnection × NodeResult CoordinatorResponse
unfolding handle_request ended_stream
exchange utc now answers req k =
    let r = handle_request utc now req k.session k.server in (served r k, node_ok r.response)
exchange utc now (unsent e) req k = (k, node_err (transport_error e))
exchange utc now (unanswered e) req k =
    (served (handle_request utc now req k.session k.server) k, node_err (transport_error e))
exchange utc now (closes false) req k =
    (ended_stream k, node_err (connection_error "connection closed by server"))
exchange utc now (closes true) req k = (
  ended_stream (served (handle_request utc now req k.session k.server) k),
  node_err (connection_error "connection closed by server"),
)

unfoldable pub request :
    ℕ
    → ℕ
    → Fate
    → CoordinatorRequest
    → NodeConnection
    → NodeConnection × NodeResult CoordinatorResponse
unfolding exchange
request utc now fate req k =
    let asked : NodeConnection × NodeResult CoordinatorResponse = exchange utc now fate req k in
    if k.is_connected then asked else (k, node_err not_registered)

-- One tick of `start_heartbeat_loop`.
unfoldable pub heartbeat_tick : ℕ → ℕ → Fate → NodeConnection → NodeConnection
unfolding request
heartbeat_tick utc now fate k = (request utc now fate (node_heartbeat k.worker_id) k).0

abbrev pub is_done : NodeResult CoordinatorResponse → Bool
is_done (node_ok done) = true
is_done (node_ok r) = false
is_done (node_err e) = false

-- A new stream, on which the node registers. A stream on which that fails is dropped.
unfoldable pub connect_again : ℕ → ℕ → Fate → NodeConnection → NodeConnection
unfolding exchange ended_stream
connect_again utc now fate k =
    let fresh : NodeConnection = record k { session = none } in
    let (k', r) =
      exchange utc now fate (register_node k.worker_id k.hostname k.capacity false) fresh in
    if is_done r then (record k' { is_connected = true }) else ended_stream k'

-- One round of `start_reconnect_loop`, with its waiting time in seconds.
unfoldable pub reconnect_round : ℕ → ℕ → Fate → NodeConnection × ℕ → NodeConnection × ℕ
unfolding connect_again
reconnect_round utc now fate (k, backoff) =
    let k' = connect_again utc now fate k in
    if k.is_connected
    then (k, backoff)
    else if k'.is_connected
    then (k', 1)
    else (k', min (backoff * 2) 30)

pub request-connected :
    (utc now : ℕ) (fate : Fate) (req : CoordinatorRequest) (k : NodeConnection)
    → k.is_connected ≡ true
    → request utc now fate req k ≡ exchange utc now fate req k
unfolding request
request-connected utc now fate req k h =
    ap (λ b. if b then exchange utc now fate req k else (k, node_err not_registered)) h

pub request-lost :
    (utc now : ℕ) (fate : Fate) (req : CoordinatorRequest) (k : NodeConnection)
    → k.is_connected ≡ false
    → request utc now fate req k ≡ (k, node_err not_registered)
unfolding request
request-lost utc now fate req k h =
    ap (λ b. if b then exchange utc now fate req k else (k, node_err not_registered)) h
