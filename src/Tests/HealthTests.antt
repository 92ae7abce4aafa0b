-- ===== src/Tests/HealthTests.antt =====
-- Readiness of src/health/health.controller.ts for a check that reports nothing but its failure.
use overbook.Base.{
  ◌≡◌, ◌↔◌, refl, Bool, true, false, String, List, [], ◌∷◌, ◌++◌, ◌&&◌, All, if◌then◌else◌, none,
  ◌+◌, ◌≤◌, arith,
}
use overbook.Failure.{failed, ok, err}
use overbook.Kafka.Producer.{KafkaService, is_connected}
use overbook.Health.Service.{
  LifecycleService, is_draining, Indicator, up, down, is_up, answered, Terminus, refuses_traffic,
  ready, begin_draining,
}
use overbook.Health.Shutdown.{
  Process, by_handlers, other, sigterm, nest, handler, receive, shutdown, close, Reach, booted,
  next, receives, hooks, passes, wakes, IsDrained, reach-IsDrained,
}
use overbook.Health.Readiness.{Pongs, drains, stops, history, ready_lem, begin_draining_lem}
use overbook.Tests.KafkaTests.{broker}

abbrev all_up : List Indicator → Bool
all_up [] = true
all_up (i ∷ is) = is_up i && all_up is

all_up-true : (is : List Indicator) → All (λ i. is_up i ≡ true) is → all_up is ≡ true
all_up-true [] h = refl
all_up-true (i ∷ is) (h, hs) = rw (h, all_up-true is hs) refl

all_up-false :
    (before after : List Indicator) (key message : String)
    → all_up (before ++ down key message ∷ after) ≡ false
all_up-false [] after key message = refl
all_up-false (up k ∷ is) after key message = all_up-false is after key message
all_up-false (down k m ∷ is) after key message = refl

abbrev terminus : Terminus
terminus = record {
  Report = Unit {0};
  check = λ is. if all_up is then ok tt else err (failed "Service Unavailable Exception");
  check_up = λ is h. (tt, rw (all_up-true is h) refl);
  check_down = λ before after key message.
      (failed "Service Unavailable Exception", rw (all_up-false before after key message) refl);
}

abbrev serving : LifecycleService
serving = record { draining = false; started_at = 0 }

abbrev connected : KafkaService
connected = record { connected = true }

is_ready : ready terminus serving (up "postgres") (answered "PONG") connected ≡ ok tt
unfolding ready
is_ready = refl

ready_example :
    ((r : Unit {0}) × (ready terminus serving (up "postgres") (answered "PONG") connected ≡ ok r))
    ↔ ((is_draining serving ≡ false)
        × (is_up (up "postgres") ≡ true)
        × Pongs (answered "PONG")
        × (is_connected connected ≡ true))
ready_example = ready_lem terminus serving (up "postgres") (answered "PONG") connected

begin_draining_example :
    ready terminus
      (history broker (drains ∷ stops ∷ []) (serving, connected, [])).0
      (up "postgres")
      (answered "PONG")
      (history broker (drains ∷ stops ∷ []) (serving, connected, [])).1
    ≡ err refuses_traffic
begin_draining_example =
    begin_draining_lem broker terminus (stops ∷ []) (serving, connected, []) (up "postgres")
      (answered "PONG")

-- SIGHUP, then SIGTERM, a close by Nest in between, and the close by the handler after five seconds
abbrev booting : Process
booting = record {
  now = 100;
  lifecycle = record { draining = false; started_at = 100 };
  signalled = false;
  on_sigterm = true;
  on_sigint = true;
  since = none;
  waits = [];
  closings = [];
}

abbrev signalled : Process
signalled = receive 5000 sigterm (receive 5000 other booting)

abbrev after_drain : Process
after_drain = let p = close 5000 nest signalled in record p { now = p.now + 5000 }

abbrev stopped : Process
stopped = close 5000 handler (record after_drain { waits = [] })

run_to_stop : Reach 5000 stopped
unfolding receive shutdown begin_draining
run_to_stop =
    next
      (next (next (next (next (booted 100 100) (receives other)) (receives sigterm)) (hooks refl))
        (passes 5000))
      (wakes [] [] 5100 refl (omega arith))

reach-IsDrained_example :
    All (IsDrained 5000 stopped) stopped.closings × (by_handlers stopped.closings ≤ 2)
reach-IsDrained_example = reach-IsDrained 5000 run_to_stop
