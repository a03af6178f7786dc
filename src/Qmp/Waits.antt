-- ===== src/Qmp/Waits.antt =====
-- The loops that wait for QEMU end: for a device that the guest has to release, and for a job.
use andler.Base.{
  ℕ, suc, ◌+◌, ◌/◌, ◌≤◌, ◌<◌, ◌≡◌, ◌≢◌, refl, ◌∙◌, Option, none, some, List, Text, Result, ok, err,
  arith, Result-cases, Option-cases, inl, inr,
}
use andler.Qmp.Effects.{Io, lift, pure, ◌>>=◌}
use andler.Qmp.Monitor.{
  QmpCommand, QmpError, Monitor, IsClock, Message, guest_unplug_timeout, query_jobs, job_dismiss,
}
use andler.Qmp.Polling.{poll-enough}
use andler.Qmp.Client.{
  read_reply_skipping_events, reply_value, execute_raw, run_command, judge_unplug, unplug_loop,
  job_loop, QueryJobInfo, judge_jobs, timeout_error, dismissed, found_job, parsed_jobs,
}

module _ {S E A B : Type 0} where
  >>=-state :
      (m : Io S E A) (next : A → Io S E B) (s : S)
      → ((a : A) (t : S) → (next a t).0 ≡ t)
      → ((m >>= next) s).0 ≡ (m s).0
  >>=-state m next s h = elim (Result-cases (m s).1) [
    | inl (a, e) ↦ rw e (h a (m s).0)
    | inr (e, r) ↦ rw r refl
  ]

module _ {V S : Type 0} (qmp : Monitor V S) (clock : IsClock qmp) where
  replied-state :
      (lines : List (Message V)) (t : S)
      → ((lift (read_reply_skipping_events lines) >>= λ r. lift (reply_value r)) t).0 ≡ t
  replied-state lines t =
      >>=-state (lift (read_reply_skipping_events lines)) (λ r. lift (reply_value r)) t
        (λ r u. refl)

  execute_raw-exchange : (c : QmpCommand) (s : S) → (execute_raw qmp c s).0 ≡ (qmp.exchange c s).0
  unfolding execute_raw
  execute_raw-exchange c s =
      >>=-state (qmp.exchange c)
        (λ lines. lift (read_reply_skipping_events lines) >>= λ r. lift (reply_value r)) s
        replied-state

  run_command-exchange : (c : QmpCommand) (s : S) → (run_command qmp c s).0 ≡ (qmp.exchange c s).0
  unfolding run_command
  run_command-exchange c s =
      >>=-state (execute_raw qmp c) (λ v. pure tt) s (λ v t. refl) ∙ execute_raw-exchange c s

  execute_raw-forward : (c : QmpCommand) (s : S) → qmp.now s ≤ qmp.now (execute_raw qmp c s).0
  execute_raw-forward c s = rw (execute_raw-exchange c s) (clock.exchanged c s)

  run_command-forward : (c : QmpCommand) (s : S) → qmp.now s ≤ qmp.now (run_command qmp c s).0
  run_command-forward c s = rw (run_command-exchange c s) (clock.exchanged c s)

  judge_unplug-forward :
      (device : Text) (deadline : ℕ) (p : S × Result (Unit {0}) QmpError)
      → qmp.now p.0 ≤ qmp.now (judge_unplug qmp device deadline p).0
  unfolding judge_unplug
  judge_unplug-forward device deadline (s, r) = ground arith

  judge_unplug-none :
      (device : Text) (deadline : ℕ) (p : S × Result (Unit {0}) QmpError)
      → (judge_unplug qmp device deadline p).1 ≡ none
      → qmp.now (judge_unplug qmp device deadline p).0 < deadline
  unfolding judge_unplug
  judge_unplug-none device deadline (s, r) h = ground arith

  -- The loop that waits for the guest to release a device ends: from the deadline on a round answers,
  -- so the rounds that the model allows are all that are ever made.
  pub unplug_loop-enough :
      (device : Text) (release : QmpCommand) (timeout more : ℕ) (s : S)
      → timeout / 250 + 1 ≤ more
      → unplug_loop qmp device release (qmp.now s + timeout) (suc more) s
        ≡ unplug_loop qmp device release (qmp.now s + timeout) (suc (timeout / 250 + 1)) s
  unfolding unplug_loop
  unplug_loop-enough device release timeout more s le =
      let deadline : ℕ = qmp.now s + timeout in
      poll-enough qmp.now (qmp.sleep 250)
        (λ t. judge_unplug qmp device deadline (run_command qmp release t))
        (err (guest_unplug_timeout device)) deadline 250 (clock.slept 250)
        (λ t. omega (
          arith,
          run_command-forward release t,
          judge_unplug-forward device deadline (run_command qmp release t),
        ))
        (λ t h. judge_unplug-none device deadline (run_command qmp release t) h) (timeout / 250 + 1)
        more s le (omega arith)

  module _ (jobs : V → Option (List QueryJobInfo)) (job_id : Text) where
    dismissed-forward :
        (error : Option Text) (p : S × Result (Unit {0}) QmpError)
        → qmp.now p.0 ≤ qmp.now (dismissed qmp jobs job_id error p).0
    dismissed-forward error (s, ok done) = omega arith
    dismissed-forward error (s, err e) = omega arith

    dismissed-some :
        (error : Option Text) (p : S × Result (Unit {0}) QmpError)
        → (dismissed qmp jobs job_id error p).1 ≢ none
    dismissed-some error (s, ok done) h = absurd cc
    dismissed-some error (s, err e) h = absurd cc

    found_job-forward :
        (start timeout : ℕ) (job : Option QueryJobInfo) (s : S)
        → qmp.now s ≤ qmp.now (found_job qmp jobs job_id start timeout job s).0
    found_job-forward start timeout none s = ground arith
    found_job-forward start timeout (some job) s =
        let p : S × Result (Unit {0}) QmpError = run_command qmp (job_dismiss job_id) s in
        ground (arith, run_command-forward (job_dismiss job_id) s, dismissed-forward job.error p)

    found_job-none :
        (start timeout : ℕ) (job : Option QueryJobInfo) (s : S)
        → (found_job qmp jobs job_id start timeout job s).1 ≡ none
        → qmp.now (found_job qmp jobs job_id start timeout job s).0 ≤ start + timeout
    found_job-none start timeout none s h = ground arith
    found_job-none start timeout (some job) s h =
        let p : S × Result (Unit {0}) QmpError = run_command qmp (job_dismiss job_id) s in
        ground (arith, dismissed-some job.error p)

    parsed_jobs-none :
        (start timeout : ℕ) (list : Option (List QueryJobInfo)) (s : S)
        → (parsed_jobs qmp jobs job_id start timeout list s).1 ≡ none
        → qmp.now (parsed_jobs qmp jobs job_id start timeout list s).0 ≤ start + timeout
    parsed_jobs-none start timeout none s h = absurd cc
    parsed_jobs-none start timeout (some list) s h = found_job-none start timeout _ s h

    judge_jobs-forward :
        (start timeout : ℕ) (p : S × Result V QmpError)
        → qmp.now p.0 ≤ qmp.now (judge_jobs qmp jobs job_id start timeout p).0
    unfolding judge_jobs
    judge_jobs-forward start timeout (s, ok value) = elim (Option-cases (jobs value)) [
      | inl e ↦ rw e (omega arith)
      | inr (list, e) ↦ rw e (found_job-forward start timeout _ s)
    ]
    judge_jobs-forward start timeout (s, err e) = omega arith

    judge_jobs-none :
        (start timeout : ℕ) (p : S × Result V QmpError)
        → (judge_jobs qmp jobs job_id start timeout p).1 ≡ none
        → qmp.now (judge_jobs qmp jobs job_id start timeout p).0 ≤ start + timeout
    unfolding judge_jobs
    judge_jobs-none start timeout (s, ok value) h = parsed_jobs-none start timeout (jobs value) s h
    judge_jobs-none start timeout (s, err e) h = absurd cc

    -- The loop that waits for a job ends: past its timeout a round answers, so the rounds that the
    -- model allows are all that are ever made.
    pub job_loop-enough :
        (timeout more : ℕ) (s : S)
        → timeout / 50 + 2 ≤ more
        → job_loop qmp jobs job_id (qmp.now s) timeout (suc more) s
          ≡ job_loop qmp jobs job_id (qmp.now s) timeout (suc (timeout / 50 + 2)) s
    unfolding job_loop
    job_loop-enough timeout more s le =
        let start : ℕ = qmp.now s in
        poll-enough qmp.now (qmp.sleep 50)
          (λ t. judge_jobs qmp jobs job_id start timeout (execute_raw qmp query_jobs t))
          (err timeout_error) (suc (start + timeout)) 50 (clock.slept 50)
          (λ t. omega (
            arith,
            execute_raw-forward query_jobs t,
            judge_jobs-forward start timeout (execute_raw qmp query_jobs t),
          ))
          (λ t h. omega (arith, judge_jobs-none start timeout (execute_raw qmp query_jobs t) h))
          (timeout / 50 + 2) more s le (omega arith)
