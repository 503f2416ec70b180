-- ===== src/Raft/Forward.antt =====
-- crates/raft/src/forward.rs and lib.rs: the owners of connections, and the check of the inputs that
-- a node forwards to the leader.
pub mod Checked
use beanstalkd_rust.Base.{
  ℕ, ◌+◌, ◌*◌, ◌/◌, ◌^◌, Bool, true, false, Option, none, some, List, [], ◌∷◌, ◌++◌, Bytes, codes,
  not, ◌==◌, is_some, if◌then◌else◌,
}
use beanstalkd_rust.Engine.Model.{ConnId, EngineInput}
use beanstalkd_rust.Proto.Decimal.{decimal}
use beanstalkd_rust.Store.Outcome.{Outcome, ok, err}

abbrev pub NodeId : Type 0
NodeId = ℕ

abbrev pub conn_seq_bits : ℕ
conn_seq_bits = 48

-- `local` has no bit in common with the shifted node, by the code's assertion.
unfoldable pub conn_id : NodeId → ℕ → ConnId
conn_id node seq = node * 2 ^ conn_seq_bits + seq

unfoldable pub owner_of : ConnId → NodeId
owner_of conn = conn / 2 ^ conn_seq_bits

-- `EngineInput::conn`
unfoldable pub conn_of : EngineInput → Option ConnId
conn_of (EngineInput.connect c) = some c
conn_of (EngineInput.disconnect c) = some c
conn_of (EngineInput.half_close c) = some c
conn_of (EngineInput.put_started c job_ok) = some c
conn_of (EngineInput.put_rejected c r) = some c
conn_of (EngineInput.command c cmd) = some c
conn_of EngineInput.tick = none
conn_of (EngineInput.set_draining on) = none

abbrev pub Item : Type 0
Item = ConnId × ℕ × EngineInput

pub record ForwardRequest : Type 0 where
  pub from : NodeId
  pub items : List Item

-- `Iterator::find`
unfoldable pub find {ℓ} : {A : Type ℓ} → (A → Bool) → List A → Option A
find p [] = none
find p (x ∷ xs) = if p x then some x else find p xs

unfoldable pub foreign : NodeId → Item → Bool
unfolding owner_of
foreign peer (conn, seq, input) = not (owner_of conn == peer)

unfoldable pub names_another : Item → Bool
unfolding conn_of
names_another (conn, seq, input) = elim (conn_of input) [ some c ↦ not (c == conn) | none ↦ false ]

unfoldable pub wrong_sender : NodeId → NodeId → Bytes
unfolding decimal
wrong_sender from peer =
    codes "forward from node "
    ++ decimal from
    ++ codes " on the connection of node "
    ++ decimal peer

unfoldable pub not_owned : NodeId → ConnId → Bytes
unfolding decimal
not_owned peer conn =
    codes "connection " ++ decimal conn ++ codes " is not owned by node " ++ decimal peer

unfoldable pub another_named : ConnId → Bytes
unfolding decimal
another_named conn =
    codes "an input of connection " ++ decimal conn ++ codes " names another connection"

unfoldable pub check_items : NodeId → List Item → Outcome {0} Unit
unfolding find foreign names_another not_owned another_named
check_items peer items = elim (find (foreign peer) items) [
  | some item ↦ err (not_owned peer item.0)
  | none ↦ elim (find names_another items) [ some item ↦ err (another_named item.0) | none ↦ ok tt ]
]

unfoldable pub check_forward : NodeId → ForwardRequest → Outcome {0} Unit
unfolding check_items wrong_sender
check_forward peer req =
    if req.from == peer then check_items peer req.items else err (wrong_sender req.from peer)
