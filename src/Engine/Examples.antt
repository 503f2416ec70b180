-- ===== src/Engine/Examples.antt =====
-- The engine's theorems on concrete states.
use beanstalkd_rust.Base.{
  ◌↔◌, ◌∙◌, sym, false, if◌then◌else◌, none, ℕ, ◌≡◌, refl, true, arith, [], ◌∷◌,
}
use beanstalkd_rust.Engine.Ms
use beanstalkd_rust.Engine.Ms.{Ms}
use beanstalkd_rust.Engine.Ms.Contents.{count, Taken, take-Taken}
use beanstalkd_rust.Engine.Ms.Clearing.{delete_order, clear_in_delete_order-order}
use beanstalkd_rust.Engine.Model.{JobRec, JobState, EngineInput}
use beanstalkd_rust.Engine.State.{Run, job, reply}
use beanstalkd_rust.Engine.Queue.Priority.{Picked, find_best-Picked}
use beanstalkd_rust.Engine.Input.{handle}
use beanstalkd_rust.Engine.Input.Reads.{only_reports, handle-reports}
use beanstalkd_rust.Engine.Input.Ownership.{ReservedBy, Refused, subject, handle-others_job}
use beanstalkd_rust.Engine.Input.Draining.{work, handle-put_draining}
use beanstalkd_rust.Engine.Input.Reserving.{Reserves, handle-reserve_job}
use beanstalkd_rust.Engine.Input.Missing.{names_job, handle-missing_job}
use beanstalkd_rust.Engine.Tubes.{refresh_delay_head, refresh_dispatchable, clear_expired_pauses}
use beanstalkd_rust.Engine.Tubes.DelayHeads.{
  IsIndexed, is_at, recorded, first_deadline, refresh_delay_head-IsIndexed,
}
use beanstalkd_rust.Engine.Ms.Removal.{remove-contents}
use beanstalkd_rust.Engine.Tubes.Pauses.{due, not_due, names, unpaused, clear_expired_pauses-tubes}
use beanstalkd_rust.Engine.Tubes.Dispatchable.{
  IsListed, IsServed, mark, refresh_dispatchable-IsListed,
}
use beanstalkd_rust.Engine.State.{tube}
use mathlib.Core.Option
use beanstalkd_rust.Std.Set
use beanstalkd_rust.Engine.Scenarios.{no_info, fresh, run_inputs, body}
use beanstalkd_rust.Proto.Types.{default_tube, Command, Response}
use beanstalkd_rust.Std.Order.{nat_ord, pair_ord}

-- Two connections, and two jobs in the default tube.
abbrev two_jobs : Run
two_jobs =
    run_inputs 5
      (EngineInput.connect 1
        ∷ EngineInput.connect 2
        ∷ EngineInput.command 1 (Command.put 10 0 60 body)
        ∷ EngineInput.command 1 (Command.put 9 0 60 body)
        ∷ [])
      fresh

-- The first job of them is reserved by connection 2.
abbrev one_reserved : Run
one_reserved = run_inputs 6 (EngineInput.command 2 (Command.reserve_job 1) ∷ []) two_jobs

abbrev draining : Run
draining = run_inputs 6 (EngineInput.set_draining true ∷ []) two_jobs

find_best-Picked_example : Picked two_jobs.0 (0 ∷ []) (9, 2)
unfolding run_inputs
find_best-Picked_example = find_best-Picked two_jobs.0 (0 ∷ []) 0 0 (9, 2) refl refl

job_1 : ReservedBy 2 1 one_reserved.0
unfolding run_inputs job
job_1 = record { rec = _; found = refl; reserved = refl; reserver = refl }

handle-others_job_example :
    Refused 1 one_reserved (handle no_info 7 1 (Command.delete 1) one_reserved)
unfolding run_inputs subject
handle-others_job_example =
    handle-others_job no_info 7 1 2 (Command.delete 1) 1 one_reserved refl refl job_1
      (λ e. ground arith)

handle-put_draining_example :
    (work (handle no_info 7 1 (Command.put 1 0 60 body) draining).0 ≡ work draining.0)
    × ((handle no_info 7 1 (Command.put 1 0 60 body) draining).1
        ≡ (reply 1 Response.draining draining).1)
unfolding run_inputs
handle-put_draining_example = handle-put_draining no_info 7 1 1 0 60 body draining refl refl

handle-reports_example :
    record ((handle no_info 7 2 Command.peek_ready two_jobs).0) { ops = two_jobs.0.ops }
    ≡ two_jobs.0
unfolding only_reports
handle-reports_example = handle-reports no_info 7 2 Command.peek_ready two_jobs refl

abbrev three : Ms ℕ
three = record { items = 4 ∷ 5 ∷ 4 ∷ []; last = 7 }

take-Taken_example : Taken three
take-Taken_example = take-Taken three refl

clear_in_delete_order-order_example :
    Ms.clear_in_delete_order three
    ≡ (delete_order (4 ∷ 5 ∷ 4 ∷ []), record { items = []; last = 0 })
clear_in_delete_order-order_example = clear_in_delete_order-order three

-- The record of job 2 there.
abbrev second_job : JobRec
second_job = record {
  id = 2;
  tube = 0;
  pri = 9;
  delay = 0;
  ttr = 60;
  body = body;
  created_at = 5;
  deadline_at = 0;
  state = JobState.ready;
  reserver = none;
  list_seq = 0;
  reserve_ct = 0;
  timeout_ct = 0;
  release_ct = 0;
  bury_ct = 0;
  kick_ct = 0;
  file = 0;
}

handle-reserve_job_example :
    Reserves 2 2 7 second_job two_jobs (handle no_info 7 2 (Command.reserve_job 2) two_jobs)
unfolding run_inputs job
handle-reserve_job_example =
    handle-reserve_job no_info 7 2 2 second_job two_jobs refl refl (λ e. ground arith)

handle-missing_job_example : Refused 1 two_jobs (handle no_info 7 1 (Command.touch 3) two_jobs)
unfolding run_inputs job names_job
handle-missing_job_example =
    handle-missing_job no_info 7 1 (Command.touch 3) 3 two_jobs refl refl refl

-- The default tube is paused for 60 seconds.
abbrev paused : Run
paused = run_inputs 7 (EngineInput.command 2 (Command.pause_tube default_tube 60) ∷ []) two_jobs

clear_expired_pauses-tubes_example :
    ((clear_expired_pauses 99000000000 paused.0).pauses ≡ not_due 99000000000 paused.0.pauses)
    × (tube 0 (clear_expired_pauses 99000000000 paused.0) ≡ (
        if names 0 (due 99000000000 paused.0.pauses)
        then Option.map unpaused (tube 0 paused.0)
        else tube 0 paused.0))
clear_expired_pauses-tubes_example = clear_expired_pauses-tubes 99000000000 paused.0 0

unlisted : Set.contains 0 two_jobs.0.dispatchable ≡ false
unfolding run_inputs Set.contains
unlisted = refl

unmarked : mark (tube 0 two_jobs.0) ≡ false
unfolding run_inputs tube
unmarked = refl

agrees : IsListed two_jobs.0 0
unfolding IsListed
agrees = unlisted ∙ sym unmarked

refresh_dispatchable-IsListed_example :
    IsListed (refresh_dispatchable 0 two_jobs.0) 0
    × ((mark (tube 0 (refresh_dispatchable 0 two_jobs.0)) ≡ true) ↔ IsServed (tube 0 two_jobs.0))
refresh_dispatchable-IsListed_example = refresh_dispatchable-IsListed 0 0 two_jobs.0 agrees

unindexed : Set.contains (5, 0) two_jobs.0.delay_heads ≡ false
unfolding run_inputs Set.contains
unindexed = refl

unrecorded : is_at 5 (recorded (tube 0 two_jobs.0)) ≡ false
unfolding run_inputs tube
unrecorded = refl

heads_agree : IsIndexed two_jobs.0 0 5
unfolding IsIndexed
heads_agree = unindexed ∙ sym unrecorded

refresh_delay_head-IsIndexed_example :
    IsIndexed (refresh_delay_head 0 two_jobs.0) 0 5
    × (recorded (tube 0 (refresh_delay_head 0 two_jobs.0)) ≡ first_deadline (tube 0 two_jobs.0))
refresh_delay_head-IsIndexed_example = refresh_delay_head-IsIndexed 0 0 5 two_jobs.0 heads_agree

remove-contents_example : count {A = ℕ} 4 (4 ∷ 5 ∷ 4 ∷ []) ≡ (
    if Ms.has 5 three
    then count {A = ℕ} 4 (5 ∷ (Ms.remove 5 three).items)
    else count {A = ℕ} 4 (Ms.remove 5 three).items)
remove-contents_example = remove-contents 5 4 three
