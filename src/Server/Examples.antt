-- ===== src/Server/Examples.antt =====
-- Runs of the server's parts on concrete inputs.
use beanstalkd_rust.Base.{
  ℕ, ◌+◌, ◌<◌, ◌≡◌, ◌↔◌, refl, arith, Bool, true, false, ◌&&◌, ◌||◌, List, [], ◌∷◌, Bytes, codes,
  ==_iff, ◌==◌, some, is_some,
}
use beanstalkd_rust.Std.Order.{eqb, bytes-eqb, bytes_ord}
use beanstalkd_rust.Server.Auth
use beanstalkd_rust.Server.Auth.{Subtle, verify}
use beanstalkd_rust.Server.Auth.Verified.{IsOneOf, verify-IsOneOf}
use beanstalkd_rust.Server.Pending.{Action, Tasks, started, run, act, acquire}
use beanstalkd_rust.Server.Pending.Guards.{AreCounted, run-Admits, run-freed}

instance abbrev plain_subtle : Subtle
plain_subtle = record {
  Choice = Bool;
  no = false;
  both = ◌&&◌;
  either = ◌||◌;
  to_bool = λ c. c;
  bytes_ct_eq = eqb;
  u64_ct_eq = ◌==◌;
  no_false = refl;
  both_and = λ c d. refl;
  either_or = λ c d. refl;
  bytes_eq = bytes-eqb;
  u64_eq = λ a b h k. ==_iff a b;
}

abbrev tokens : List Bytes
tokens = codes "alpha" ∷ codes "beta-token" ∷ []

verify-IsOneOf_example :
    (verify (Auth.new tokens) (codes "beta-token") ≡ true) ↔ IsOneOf tokens (codes "beta-token")
verify-IsOneOf_example = verify-IsOneOf tokens (codes "beta-token") refl

-- With room for one connection: one is admitted, the next is refused, counted and logged.
abbrev actions : List (ℕ × Action)
actions =
    (5, Action.try_acquire) ∷ (6, Action.try_acquire) ∷ (7, Action.count) ∷ (8, Action.report) ∷ []

abbrev after : Tasks
after = record {
  counters = record {
    max_pending = 1;
    pending = 1;
    pending_rejected = 1;
    auth_timeouts = 0;
    auth_failures = 0;
    reject_log = record { last = some 8; unreported = 0 };
  };
  guards = 1;
  to_count = 0;
  to_note = 0;
  counted = 1;
  logged = 1;
}

run-actions : run actions (started 1) ≡ some after
unfolding run started
run-actions = refl

run-Admits_example :
    AreCounted 1 after × ((is_some (acquire after.counters) ≡ true) ↔ (after.guards < 1))
run-Admits_example = run-Admits 1 (omega arith) actions after run-actions

run-freed_example :
    (t' t'' : Tasks) × (act 9 Action.dropped after ≡ some t')
    × (act 10 Action.try_acquire t' ≡ some t'')
    × (t'.guards + 1 ≡ after.guards)
    × (t''.guards ≡ after.guards)
run-freed_example = run-freed 1 (omega arith) actions after 9 10 run-actions (omega arith)
