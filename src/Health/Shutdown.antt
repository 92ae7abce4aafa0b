-- ===== src/Health/Shutdown.antt =====
-- The signal handlers of src/main.ts. What Nest does by itself after `enableShutdownHooks` is a step of
-- its own: it closes the application on any of the signals that it listens to, at any time after one
-- has come.
use overbook.Base.{
  ℕ, ◌+◌, ◌≤◌, ◌≡◌, refl, ap, subst, ◌⊎◌, inl, inr, Bool, true, false, Option, none, some, List, [],
  ◌∷◌, ◌++◌, length, length-append, All, All-middle, All-map, arith, Bool-cases, Option-cases,
  if◌then◌else◌,
}
use overbook.Health.Service.{LifecycleService, begin_draining}

-- `other`: each further signal that Nest's hooks listen to, SIGHUP and SIGQUIT among them
pub data Signal : Type 0 where
  sigterm sigint other : Signal

pub data Closer : Type 0 where
  handler nest : Closer

-- a call of `app.close()`
pub record Closing : Type 0 where
  pub by : Closer
  pub at : ℕ

-- `waits` are the instants that the timers of `shutdown` stand for, `since` is when the first signal
-- of the handlers came, `signalled` is whether Nest's listener has got any, and the two listeners of `process.once` are there until their signal comes.
pub record Process : Type 0 where
  pub now : ℕ
  pub lifecycle : LifecycleService
  pub signalled : Bool
  pub on_sigterm : Bool
  pub on_sigint : Bool
  pub since : Option ℕ
  pub waits : List ℕ
  pub closings : List Closing

abbrev pub first_time : Option ℕ → ℕ → ℕ
first_time none now = now
first_time (some s) now = s

abbrev pub one_of : Closer → ℕ
one_of handler = 1
one_of nest = 0

-- how many of the closings are the handlers'
abbrev pub by_handlers : List Closing → ℕ
by_handlers [] = 0
by_handlers (c ∷ cs) = one_of c.by + by_handlers cs

abbrev one_if : Bool → ℕ
one_if b = if b then 1 else 0

module _ (drain_ms : ℕ) where
  -- `shutdown`, up to its `await`
  unfoldable pub shutdown : Process → Process
  unfolding begin_draining
  shutdown p = record p {
    lifecycle = begin_draining p.lifecycle;
    since = some (first_time p.since p.now);
    waits = (p.now + drain_ms) ∷ p.waits;
  }

  -- `process.once`: the listener goes, and `shutdown` runs
  unfoldable pub receive : Signal → Process → Process
  unfolding shutdown
  receive sigterm p =
      let p' = record p { signalled = true } in
      if p.on_sigterm then shutdown (record p' { on_sigterm = false }) else p'
  receive sigint p =
      let p' = record p { signalled = true } in
      if p.on_sigint then shutdown (record p' { on_sigint = false }) else p'
  receive other p = record p { signalled = true }

  abbrev pub close : Closer → Process → Process
  close by p = record p { closings = record { by = by; at = p.now } ∷ p.closings }

  -- One thing that happens: time, a signal, a timer that is due, or Nest's own listener.
  pub data Step (p : Process) : Process → Type 0 where
    passes : (ms : ℕ) → Step p (record p { now = p.now + ms })
    receives : (signal : Signal) → Step p (receive signal p)
    wakes :
        (before after : List ℕ) (due : ℕ)
        → p.waits ≡ before ++ (due ∷ after)
        → due ≤ p.now
        → Step p (close handler (record p { waits = before ++ after }))
    hooks : p.signalled ≡ true → Step p (close nest p)

  pub data Reach : Process → Type 0 where
    booted :
        (now started : ℕ)
        → Reach (record {
          now = now;
          lifecycle = record { draining = false; started_at = started };
          signalled = false;
          on_sigterm = true;
          on_sigint = true;
          since = none;
          waits = [];
          closings = [];
        })
    next : {p q : Process} → Reach p → Step p q → Reach q

  -- A handler closed it: readiness fails, and `shutdown` has waited for the balancer. Nothing is said of
  -- Nest's own closing.
  abbrev pub IsDrained : Process → Closing → Type 0
  IsDrained p c =
      (c.by ≡ nest)
      ⊎ ((p.lifecycle.draining ≡ true) × ((s : ℕ) × (p.since ≡ some s) × (s + drain_ms ≤ c.at)))

  -- A timer stands for an instant that is late enough.
  abbrev IsLate : Process → ℕ → Type 0
  IsLate p due = (s : ℕ) × (p.since ≡ some s) × (s + drain_ms ≤ due)

  record IsOrderly (p : Process) : Type 0 where
    begun : (s : ℕ) → p.since ≡ some s → (p.lifecycle.draining ≡ true) × (s ≤ p.now)
    late : All (IsLate p) p.waits
    drained : All (IsDrained p) p.closings
    once : by_handlers p.closings + length p.waits + one_if p.on_sigterm + one_if p.on_sigint ≡ 2

  begun-draining : (l : LifecycleService) → (begin_draining l).draining ≡ true
  unfolding begin_draining
  begun-draining l = elim (Bool-cases l.draining) [
    | inl already ↦ rw already refl
    | inr not_yet ↦ rw not_yet refl
  ]

  -- What was late or drained before `shutdown` is so afterwards; `shutdown` takes a listener's place.
  shutdown-IsOrderly :
      (p : Process)
      → ((s : ℕ) → p.since ≡ some s → (p.lifecycle.draining ≡ true) × (s ≤ p.now))
      → All (IsLate p) p.waits
      → All (IsDrained p) p.closings
      → by_handlers p.closings + length p.waits + one_if p.on_sigterm + one_if p.on_sigint ≡ 1
      → IsOrderly (shutdown p)
  unfolding shutdown
  shutdown-IsOrderly p begun late drained once = record {
    begun = λ s is.
        let same : first_time p.since p.now ≡ s = cc is in
        (begun-draining p.lifecycle, subst (λ s. s ≤ p.now) same early);
    late = (
      (first_time p.since p.now, refl, omega (arith, early)),
      All-map p.waits (λ due h. (h.0, stays h.0 h.1, h.2)) late,
    );
    drained = All-map p.closings kept drained;
    once = omega (arith, once);
  }
    where
      early : first_time p.since p.now ≤ p.now
      early = elim (Option-cases p.since) [
        | inl none_yet ↦ rw none_yet (omega arith)
        | inr (s, is) ↦ rw is (begun s is).1
      ]

      stays : (s : ℕ) → p.since ≡ some s → some (first_time p.since p.now) ≡ some s
      stays s is = ap (λ o. some (first_time o p.now)) is

      kept : (c : Closing) → IsDrained p c → IsDrained (shutdown p) c
      kept c (inl hook) = inl hook
      kept c (inr (_, (s, is, le))) = inr (begun-draining p.lifecycle, (s, stays s is, le))

  signalled-IsOrderly : (p : Process) → IsOrderly p → IsOrderly (record p { signalled = true })
  signalled-IsOrderly p v = record {
    begun = v.begun;
    late = v.late;
    drained = v.drained;
    once = v.once;
  }

  either-IsOrderly :
      (b : Bool) (p q : Process)
      → (b ≡ true → IsOrderly p)
      → IsOrderly q
      → IsOrderly (if b then p else q)
  either-IsOrderly true p q v w = v refl
  either-IsOrderly false p q v w = w

  receive-IsOrderly : (signal : Signal) (p : Process) → IsOrderly p → IsOrderly (receive signal p)
  unfolding receive
  receive-IsOrderly sigterm p v =
      either-IsOrderly p.on_sigterm _ _
        (λ there.
          shutdown-IsOrderly (record p { signalled = true; on_sigterm = false }) v.begun v.late
            v.drained (ground (arith, v.once, there)))
        (signalled-IsOrderly p v)
  receive-IsOrderly sigint p v =
      either-IsOrderly p.on_sigint _ _
        (λ there.
          shutdown-IsOrderly (record p { signalled = true; on_sigint = false }) v.begun v.late
            v.drained (ground (arith, v.once, there)))
        (signalled-IsOrderly p v)
  receive-IsOrderly other p v = signalled-IsOrderly p v

  step-IsOrderly : {p q : Process} → Step p q → IsOrderly p → IsOrderly q
  step-IsOrderly (passes ms) v = record {
    begun = λ s is. let (down, le) = v.begun s is in (down, omega (arith, le));
    late = v.late;
    drained = v.drained;
    once = v.once;
  }
  step-IsOrderly {p} (receives signal) v = receive-IsOrderly signal p v
  step-IsOrderly {p} (wakes before after due is ready) v =
      let ((s, since, le), rest) =
        All-middle (IsLate p) before due after (subst (All (IsLate p)) is v.late) in
      record {
        begun = v.begun;
        late = rest;
        drained = (inr ((v.begun s since).0, (s, since, omega (arith, le, ready))), v.drained);
        once = grind (
          arith,
          v.once,
          ap length is,
          length-append before (due ∷ after),
          length-append before after,
        );
      }
  step-IsOrderly {p} (hooks signalled) v = record {
    begun = v.begun;
    late = v.late;
    drained = (inl refl, v.drained);
    once = omega (arith, v.once);
  }

  reach-IsOrderly : {p : Process} → Reach p → IsOrderly p
  reach-IsOrderly (booted now started) = record {
    begun = λ s is. cc is;
    late = tt;
    drained = tt;
    once = omega arith;
  }
  reach-IsOrderly (next r step) = step-IsOrderly step (reach-IsOrderly r)

  -- Whichever signals come and however often, the handlers of main.ts close the application only after
  -- readiness has begun to fail and the drain time has passed since their first signal, and at most
  -- twice. Of the closing by Nest's own listener nothing of this is said.
  pub reach-IsDrained :
      {p : Process} → Reach p → All (IsDrained p) p.closings × (by_handlers p.closings ≤ 2)
  reach-IsDrained r = let v = reach-IsOrderly r in (v.drained, omega (arith, v.once))
