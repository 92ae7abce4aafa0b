-- ===== src/Tests/StartupTests.antt =====
-- A start and a stop of the consumers on a broker that keeps the log of the calls.
use overbook.Base.{◌≡◌, refl, true, false, none, some, String, List, [], ◌∷◌, ◌++◌, str_append}
use overbook.Failure.{Action, ok, err, failed}
use overbook.Notifications.Startup.{
  Groups, StartConfig, Consumers, on_application_bootstrap, stop_consumers,
}

abbrev note : String → String → Action (List String) (Unit {0})
note call group log = (ok tt, log ++ str_append call group ∷ [])

abbrev groups : Groups (List String)
groups = record {
  connect = note "connect ";
  subscribe = λ group topic. note "subscribe " topic;
  run = λ group is_retry. note "run " group;
  disconnect = λ group log. (err (failed "gone"), log ++ str_append "disconnect " group ∷ []);
}

abbrev config : StartConfig
config = record {
  consumer_enabled = true;
  concurrency = 2;
  consumer_group = "mail";
  booking_topic = "bookings";
  retry_topic = "retries";
}

abbrev fresh : Consumers
fresh = record { consumers = []; semaphore = none; stopping = false }

started_then_stopped :
    stop_consumers groups (on_application_bootstrap groups config (fresh, [])).1 ≡ (
      record {
        consumers = "mail" ∷ "mail-retry" ∷ [];
        semaphore = some (record { permits = 2; available = 2; waiters = [] });
        stopping = true;
      },
      "connect mail" ∷ "subscribe bookings" ∷ "run mail" ∷ "connect mail-retry"
          ∷ "subscribe retries" ∷ "run mail-retry" ∷ "disconnect mail" ∷ "disconnect mail-retry"
          ∷ [],
    )
unfolding stop_consumers on_application_bootstrap
started_then_stopped = refl

no_permit :
    on_application_bootstrap groups (record config { concurrency = 0 }) (fresh, [])
    ≡ (err (failed "Semaphore needs at least one permit"), (fresh, []))
unfolding on_application_bootstrap
no_permit = refl
