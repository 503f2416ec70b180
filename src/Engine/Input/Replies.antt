-- ===== src/Engine/Input/Replies.antt =====
-- What `reply` leaves alone.
use beanstalkd_rust.Base.{◌≡◌, Bool-cases, inl, inr}
use beanstalkd_rust.Engine.Model.{ConnId, Outbox}
use beanstalkd_rust.Engine.State.{Engine, Run, reply, wants_reply}
use beanstalkd_rust.Proto.Types.{Response}

pub reply-engine : (cid : ConnId) (x : Response) (r : Run) → (reply cid x r).0 ≡ r.0
unfolding reply
reply-engine cid x r = elim (Bool-cases (wants_reply cid r.0)) [ inl t ↦ rw t | inr f ↦ rw f ]

wants_reply-local :
    (cid : ConnId) (e e' : Engine)
    → e.local_conns ≡ e'.local_conns
    → wants_reply cid e ≡ wants_reply cid e'
unfolding wants_reply
wants_reply-local cid e e' h = rw (wants_reply, h)

-- Which replies are dropped depends on the engine only through `local_conns`.
pub reply-same :
    (cid : ConnId) (x : Response) (e e' : Engine) (out : Outbox)
    → e.local_conns ≡ e'.local_conns
    → (reply cid x (e, out)).1 ≡ (reply cid x (e', out)).1
unfolding reply
reply-same cid x e e' out h =
    let same = wants_reply-local cid e e' h in
    elim (Bool-cases (wants_reply cid e')) [
      | inl t ↦ rw (reply, same, t)
      | inr f ↦ rw (reply, same, f)
    ]
