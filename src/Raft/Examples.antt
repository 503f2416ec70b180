-- ===== src/Raft/Examples.antt =====
-- Runs of the replication's parts on concrete inputs.
use beanstalkd_rust.Base.{ℕ, ◌≡◌, ◌↔◌, refl, some, [], ◌∷◌, codes, get_elem?}
use beanstalkd_rust.Engine.Model.{ConnId, EngineInput}
use beanstalkd_rust.Raft.Forward.{Item, ForwardRequest, conn_id, owner_of, conn_of, check_forward}
use beanstalkd_rust.Raft.Forward.Checked.{check_forward-accepted}
use beanstalkd_rust.Store.Outcome.{ok, err}

-- The first connection of node 3 half-closes, and a tick is forwarded for it.
abbrev request : ForwardRequest
unfolding conn_id
request = record {
  from = 3;
  items =
      (conn_id 3 1, 1, EngineInput.half_close (conn_id 3 1))
      ∷ (conn_id 3 1, 2, EngineInput.tick)
      ∷ [];
}

check_forward-owner : check_forward 3 request ≡ ok tt
unfolding check_forward request
check_forward-owner = refl

check_forward-stranger :
    check_forward 2 (record request { from = 2 })
    ≡ err (codes "connection 844424930131969 is not owned by node 2")
unfolding check_forward request
check_forward-stranger = refl

check_forward-accepted_example : (check_forward 3 request ≡ ok tt) ↔ (
    (request.from ≡ 3)
    × ((i : ℕ) (item : Item)
        → get_elem? request.items i ≡ some item
        → (owner_of item.0 ≡ 3) × ((c : ConnId) → conn_of item.2 ≡ some c → c ≡ item.0)))
check_forward-accepted_example = check_forward-accepted 3 request
