-- ===== src/Examples/Unplugs.antt =====
-- QEMUs that keep the client waiting.
use andler.Base.{
  ℕ, suc, ◌+◌, ◌/◌, ◌≡◌, refl, true, Result, Option, none, some, List, [], ◌∷◌, codes, text_eq, ok,
  arith,
}
use andler.Cmdline.Drives.{extra_disk_drive_id, extra_disk_device_id}
use andler.Qmp.Monitor.{
  Message, QmpError, QmpCommand, Monitor, IsClock, reply, device_del, blockdev_del, event,
}
use andler.Qmp.Client.{
  connect, run_command, execute_raw, read_reply_skipping_events, reply_value, judge_unplug,
  is_device_in_use_error, contains, detach_device, detach_block_device, unplug_loop, job_loop,
  QueryJobInfo,
}
use andler.Qmp.Waits.{unplug_loop-enough, job_loop-enough}
use andler.Qmp.Recovery.{second_run, timed_out_detach_repeats}
use andler.Qmp.Backend.{detach_disk_at, unplug_timeout, RunningInstance, nat_net}
use andler.Qmp.Polling.{poll}
use andler.Words.{to_ascii_lowercase, strip_prefix}

-- It never releases the device, and each answer takes it a millisecond.
abbrev reluctant : Monitor (Unit {0}) ℕ
reluctant = record {
  exchange = λ c t. (
    suc t,
    ok (
        event (codes "RTC_CHANGE")
        ∷ reply (record {
          return_value = none;
          error = some (record { class = codes "GenericError"; desc = codes "Node is in use" });
        })
        ∷ []),
  );
  greet = λ t. (t, ok tt);
  is_alive = λ t. true;
  now = λ t. t;
  sleep = λ ms t. t + ms;
}

reluctant-IsClock : IsClock reluctant
reluctant-IsClock = record { exchanged = λ c t. omega arith; slept = λ ms t. omega arith }

unplug_loop-enough_example :
    unplug_loop reluctant
      (codes "extra0")
      (blockdev_del (codes "extra-drive0"))
      (7 + 1000)
      (suc 20)
      7
    ≡ unplug_loop reluctant
        (codes "extra0")
        (blockdev_del (codes "extra-drive0"))
        (7 + 1000)
        (suc (1000 / 250 + 1))
        7
unplug_loop-enough_example =
    unplug_loop-enough reluctant reluctant-IsClock (codes "extra0")
      (blockdev_del (codes "extra-drive0")) 1000 20 7 (omega arith)

-- It answers `query-jobs` with no job at all.
abbrev no_jobs : Unit {0} → Option (List QueryJobInfo)
no_jobs v = some []

abbrev jobless : Monitor (Unit {0}) ℕ
jobless = record reluctant {
  exchange = λ c t. (suc t, ok (reply (record { return_value = some tt; error = none }) ∷ []));
}

jobless-IsClock : IsClock jobless
jobless-IsClock = record { exchanged = λ c t. omega arith; slept = λ ms t. omega arith }

job_loop-enough_example :
    job_loop jobless no_jobs (codes "commit") 7 200 (suc 20) 7
    ≡ job_loop jobless no_jobs (codes "commit") 7 200 (suc (200 / 50 + 2)) 7
job_loop-enough_example =
    job_loop-enough jobless jobless-IsClock no_jobs (codes "commit") 200 20 7 (omega arith)

-- Only the disk is never released, and a pause takes it 20 seconds. The state is the time and the
-- number of times that a device was to be removed.
abbrev hold : QmpCommand → ℕ × ℕ → (ℕ × ℕ) × Result (List (Message (Unit {0}))) QmpError
hold (blockdev_del node) s = (
  s,
  ok (
      reply (record {
        return_value = none;
        error = some (record { class = codes "GenericError"; desc = codes "Node is in use" });
      })
      ∷ []),
)
hold (device_del device) (t, n) =
    ((t, n + 1), ok (reply (record { return_value = some tt; error = none }) ∷ []))
hold other s = (s, ok (reply (record { return_value = some tt; error = none }) ∷ []))

abbrev holding : Monitor (Unit {0}) (ℕ × ℕ)
holding = record {
  exchange = hold;
  greet = λ s. (s, ok tt);
  is_alive = λ s. true;
  now = λ s. s.0;
  sleep = λ ms s. (s.0 + ms + 20000, s.1);
}

abbrev held : RunningInstance (ℕ × ℕ)
held = record {
  machine = (0, 0);
  qmp_client = true;
  network_info = nat_net;
  extra_network_infos = [];
  qmp_reconnects = 0;
}

-- After 20 seconds of each run, the device was to be removed twice.
timed_out_detach_repeats_example :
    detach_disk_at holding 0 held
    ≡ second_run held (
        detach_block_device holding
          (extra_disk_device_id 0)
          (extra_disk_drive_id 0)
          unplug_timeout
          (20250, 1))
unfolding detach_block_device detach_device connect run_command execute_raw
    read_reply_skipping_events reply_value unplug_loop poll judge_unplug is_device_in_use_error
    text_eq contains to_ascii_lowercase strip_prefix
timed_out_detach_repeats_example =
    timed_out_detach_repeats holding 0 held (20250, 1) (20250, 1) refl refl refl refl
