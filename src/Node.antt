-- ===== src/Node.antt =====
-- crates/node: a node's connection to the coordinator, and the queue, the lease store, the event sink
-- and the cache client that a node builds on it. The coordinator is that of Coordinator.Server.
pub mod Connection
pub mod Clients
use knitting_crab.Prelude.{ℕ, Bool, Option, String}
use knitting_crab.Core.Task.{WorkerId, ResourceAllocation}
use knitting_crab.Coordinator.State.{CoordinatorState}

pub data NodeError : Type 0 where
  connection_error transport_error core_error registration_failed : String → NodeError
  not_registered : NodeError
  reconnection_failed : ℕ → NodeError

pub data NodeResult (A : Type 0) : Type 0 where
  node_ok : A → NodeResult A
  node_err : NodeError → NodeResult A

-- What the network does with a request: the response comes back, the request is not sent, it is
-- served but the response is lost to an I/O error, or the stream ends before the response, the
-- request served or not.
pub data Fate : Type 0 where
  answers : Fate
  unsent unanswered : String → Fate
  closes : Bool → Fate

-- A connection with its other end: whether it holds a transport, its own data, the coordinator, and
-- the node that the coordinator's side of the connection has registered.
pub record NodeConnection : Type 0 where
  pub is_connected : Bool
  pub worker_id : WorkerId
  pub hostname : String
  pub capacity : ResourceAllocation
  pub server : CoordinatorState
  pub session : Option WorkerId
