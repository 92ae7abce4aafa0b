-- ===== src/Health/Readiness.antt =====
-- When the instance takes traffic (`ready` of src/health/health.controller.ts), and that a drain
-- (src/common/shutdown/lifecycle.service.ts) is not undone.
use overbook.Base.{
  ◌≡◌, ◌↔◌, refl, sym, ap, ◌∙◌, ◌⊎◌, inl, inr, Bool, true, false, String, List, [], ◌∷◌, ◌++◌, All,
  str_eq, str_eq_iff, if◌then◌else◌, Bool-cases,
}
use overbook.Failure.{Failure, Result, ok, err}
use overbook.Kafka.Producer.{
  KafkaService, is_connected, Broker, on_module_init, on_application_shutdown,
}
use overbook.Health.Service.{
  LifecycleService, is_draining, begin_draining, Indicator, up, down, is_up, kafka_is_healthy,
  Reply, answered, thrown, redis_is_healthy, refuses_traffic, Terminus, ready,
}

abbrev pub Pongs : Reply → Type 0
Pongs (answered text) = text ≡ "PONG"
Pongs (thrown _) = ⊥

abbrev FindsDown : List Indicator → Type 0
FindsDown is =
    (before : List Indicator) × (after : List Indicator) × (key : String) × (message : String) × (is
      ≡ before ++ down key message ∷ after)

all_up-or_down : (is : List Indicator) → All (λ i. is_up i ≡ true) is ⊎ FindsDown is
all_up-or_down [] = inl tt
all_up-or_down (down key message ∷ is) = inr ([], is, key, message, refl)
all_up-or_down (up key ∷ is) = elim (all_up-or_down is) [
  | inl all ↦ inl (refl, all)
  | inr (before, after, k, message, e) ↦
      inr (up key ∷ before, after, k, message, ap (λ l. up key ∷ l) e)
]

redis_up : (key : String) (r : Reply) → (is_up (redis_is_healthy key r) ≡ true) ↔ Pongs r
unfolding redis_is_healthy
redis_up key (answered text) = elim (Bool-cases (str_eq text "PONG")) [
  | inl yes_it_is ↦ rw yes_it_is (λ _. (str_eq_iff text "PONG").0 yes_it_is, λ _. refl)
  | inr other ↦ rw other (λ h. cc h, λ h. cc ((str_eq_iff text "PONG").1 h, other))
]
redis_up key (thrown message) = (λ h. cc h, λ h. absurd h)

kafka_up :
    (key : String) (kafka : KafkaService) → is_up (kafka_is_healthy key kafka) ≡ is_connected kafka
unfolding kafka_is_healthy
kafka_up key kafka = elim (Bool-cases kafka.connected) [
  | inl on ↦ rw on refl
  | inr off ↦ rw off refl
]

module _ (T : Terminus) where
  check_answers :
      (is : List Indicator) (r : T.Report) → T.check is ≡ ok r → All (λ i. is_up i ≡ true) is
  check_answers is r run = elim (all_up-or_down is) [
    | inl all ↦ all
    | inr (before, after, key, message, e) ↦
        let (x, fails) = T.check_down before after key message in
        let clash = sym run ∙ ap T.check e ∙ fails in cc clash
  ]

  let_through :
      (d : Bool) (e : Failure) (rest : Result T.Report) (r : T.Report)
      → (if d then err e else rest) ≡ ok r
      → (d ≡ false) × (rest ≡ ok r)
  let_through true e rest r h = cc h
  let_through false e rest r h = (refl, h)

  abbrev pub Serving : LifecycleService → Indicator → Reply → KafkaService → Type 0
  Serving lifecycle postgres redis kafka =
      (is_draining lifecycle ≡ false)
      × (is_up postgres ≡ true)
      × Pongs redis
      × (is_connected kafka ≡ true)

  from_answer :
      (lifecycle : LifecycleService) (postgres : Indicator) (redis : Reply) (kafka : KafkaService)
      (r : T.Report)
      → ready T lifecycle postgres redis kafka ≡ ok r
      → Serving lifecycle postgres redis kafka
  unfolding ready
  from_answer lifecycle postgres redis kafka r run =
      let (serving, checks) = let_through lifecycle.draining _ _ r run in
      let (p, (pong, (k, _))) = check_answers _ r checks in
      (serving, p, (redis_up "redis" redis).0 pong, sym (kafka_up "kafka" kafka) ∙ k)

  to_answer :
      (lifecycle : LifecycleService) (postgres : Indicator) (redis : Reply) (kafka : KafkaService)
      → Serving lifecycle postgres redis kafka
      → (r : T.Report) × (ready T lifecycle postgres redis kafka ≡ ok r)
  unfolding ready
  to_answer lifecycle postgres redis kafka (serving, p, pong, k) =
      rw (ready, serving)
        (T.check_up _ (p, ((redis_up "redis" redis).1 pong, (kafka_up "kafka" kafka ∙ k, tt))))

  -- The instance takes traffic exactly when it does not drain, the database is reached, Redis
  -- answers PONG and the producer is connected.
  pub ready_lem :
      (lifecycle : LifecycleService) (postgres : Indicator) (redis : Reply) (kafka : KafkaService)
      → ((r : T.Report) × (ready T lifecycle postgres redis kafka ≡ ok r)) ↔ (
          (is_draining lifecycle ≡ false)
          × (is_up postgres ≡ true)
          × Pongs redis
          × (is_connected kafka ≡ true))
  ready_lem lifecycle postgres redis kafka = (
    λ a. from_answer lifecycle postgres redis kafka a.0 a.1,
    to_answer lifecycle postgres redis kafka,
  )

-- What happens to the instance: the producer starts or stops, or a signal asks it to drain.
pub data Event : Type 0 where
  starts : List String → Event
  drains : Event
  stops : Event

module _ {B : Type 0} (K : Broker B) where
  abbrev pub Instance : Type 0
  Instance = LifecycleService × KafkaService × B

  abbrev pub happen : Event → Instance → Instance
  happen (starts topics) (lifecycle, kafka, b) =
      let (_, kafka', b') = on_module_init K topics kafka b in (lifecycle, kafka', b')
  happen drains (lifecycle, kafka, b) = (begin_draining lifecycle, kafka, b)
  happen stops (lifecycle, kafka, b) =
      let (kafka', b') = on_application_shutdown K kafka b in (lifecycle, kafka', b')

  abbrev pub history : List Event → Instance → Instance
  history [] i = i
  history (e ∷ es) i = history es (happen e i)

  begins : (lifecycle : LifecycleService) → (begin_draining lifecycle).draining ≡ true
  unfolding begin_draining
  begins lifecycle = elim (Bool-cases lifecycle.draining) [
    | inl on ↦ rw on refl
    | inr off ↦ rw off refl
  ]

  remains :
      (es : List Event) (i : Instance) → i.0.draining ≡ true → (history es i).0.draining ≡ true
  remains [] i h = h
  remains (starts topics ∷ es) i h = remains es (happen (starts topics) i) h
  remains (drains ∷ es) i h = remains es (happen drains i) (begins i.0)
  remains (stops ∷ es) i h = remains es (happen stops i) h

  -- From the signal on the instance refuses traffic, whatever else happens to it and whatever the
  -- probes of the dependencies give.
  pub begin_draining_lem :
      (T : Terminus) (es : List Event) (i : Instance) (postgres : Indicator) (redis : Reply)
      → ready T (history (drains ∷ es) i).0 postgres redis (history (drains ∷ es) i).1
        ≡ err refuses_traffic
  unfolding ready
  begin_draining_lem T es i postgres redis =
      refused (history (drains ∷ es) i).0.draining _ (remains es (happen drains i) (begins i.0))
    where
      refused :
          (d : Bool) (rest : Result T.Report)
          → d ≡ true
          → (if d then err refuses_traffic else rest) ≡ err refuses_traffic
      refused true rest h = refl
      refused false rest h = cc h
