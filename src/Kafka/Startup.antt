-- ===== src/Kafka/Startup.antt =====
-- Starting and stopping the service (src/kafka/kafka.service.ts) against the broker's answers.
use overbook.Base.{
  ◌≡◌, refl, ap, subst, ◌∙◌, ◌↔◌, ◌⊎◌, inl, inr, Bool, true, false, not, String, List, [], ◌∷◌, All,
  if◌then◌else◌,
}
use overbook.Failure.{Result, ok, err, Action, ◌>>=◌}
use overbook.Kafka.Producer.{
  Broker, KafkaService, includes, missing_topics, is_connected, create_missing, try_topics,
  ensure_topics, once_connected, on_module_init,
}

module _ {B : Type 0} (K : Broker B) where
  abbrev pub Present : List String → B → Type 0
  Present topics b = All (λ t. K.HasTopic t b) topics

  keeps :
      (f : B → B) (b : B) (topics : List String)
      → ((t : String) → K.HasTopic t b → K.HasTopic t (f b))
      → Present topics b
      → Present topics (f b)
  keeps f b [] h p = tt
  keeps f b (t ∷ topics) h (p, ps) = (h t p, keeps f b topics h ps)

  weigh :
      (P : String → Type 0) (t : String) (rest : List String) (b : Bool)
      → All P (if not b then t ∷ rest else rest)
      → ((b ≡ true) ⊎ P t) × All P rest
  weigh P t rest true h = (inl refl, h)
  weigh P t rest false (h, hs) = (inr h, hs)

  none_missing :
      (topics existing : List String) (b : B)
      → ((t : String) → includes t existing ≡ true → K.HasTopic t b)
      → Present (missing_topics topics existing) b
      → Present topics b
  none_missing [] existing b h p = tt
  none_missing (t ∷ topics) existing b h p =
      let (found, rest) =
        weigh (λ u. K.HasTopic u b) t (missing_topics topics existing) (includes t existing) p in
      (elim found [ inl has ↦ h t has | inr made ↦ made ], none_missing topics existing b h rest)

  create_missing-Present :
      (missing : List String) (b b' : B)
      → create_missing K missing b ≡ (ok tt, b')
      → Present missing b'
  unfolding create_missing
  create_missing-Present [] b b' e = tt
  create_missing-Present (t ∷ ts) b b' e = K.created b b' (t ∷ ts) e

  create_missing_keeps :
      (missing : List String) (b : B) (t : String)
      → K.HasTopic t b
      → K.HasTopic t (create_missing K missing b).1
  unfolding create_missing
  create_missing_keeps [] b t h = h
  create_missing_keeps (m ∷ ms) b t h = K.create_keeps b (m ∷ ms) t h

  as_answered :
      (service : KafkaService) (r : Result (Unit {0}) × B)
      → service.connected ≡ false
      → (((once_connected K service r).0 ≡ ok tt)
          ↔ (is_connected (once_connected K service r).1 ≡ true))
        × ((once_connected K service r).2 ≡ r.1)
  as_answered service (ok u, b) off = ((λ _. refl, λ _. refl), refl)
  as_answered service (err e, b) off = ((λ h. cc h, λ h. cc (h, off)), refl)

  continues :
      {A C : Type 0} (m : Action B A) (k : A → Action B C) (b b' : B) (a : A)
      → m b ≡ (ok a, b')
      → (m >>= k) b ≡ k a b'
  continues m k b b' a e = ap (λ r. elim r.0 [ ok x ↦ k x r.1 | err x ↦ (err x, r.1) ]) e

  -- After a start in which the admin client's calls succeed every configured topic is there, and
  -- the call returns exactly when the service is connected.
  pub on_module_init_lem :
      (topics existing : List String) (service : KafkaService) (b b1 b2 b3 : B)
      → service.connected ≡ false
      → K.admin_connect b ≡ (ok tt, b1)
      → K.list_topics b1 ≡ (ok existing, b2)
      → create_missing K (missing_topics topics existing) b2 ≡ (ok tt, b3)
      → (((on_module_init K topics service b).0 ≡ ok tt)
          ↔ (is_connected (on_module_init K topics service b).1 ≡ true))
        × Present topics (on_module_init K topics service b).2
  unfolding on_module_init ensure_topics try_topics
  on_module_init_lem topics existing service b b1 b2 b3 off c l m =
      let ask : List String → Action B (Unit {0}) =
        λ found. create_missing K (missing_topics topics found) in
      let run : try_topics K topics b ≡ (ok tt, b3) =
        continues K.admin_connect (λ _. K.list_topics >>= ask) b b1 tt c
        ∙ continues K.list_topics ask b1 b2 existing l
        ∙ m in
      let had : (t : String) → includes t existing ≡ true → K.HasTopic t b3 = λ t h.
        subst (λ x. K.HasTopic t x.1) m
          (create_missing_keeps (missing_topics topics existing) b2 t
            (K.listed b1 b2 existing l t h)) in
      let all = none_missing topics existing b3 had (create_missing-Present _ b2 b3 m) in
      let kept =
        keeps (λ x. (K.producer_connect x).1) _ topics (K.connect_keeps _)
          (keeps (λ x. (K.admin_disconnect x).1) b3 topics (K.disconnect_keeps b3) all) in
      let answered =
        as_answered service (K.producer_connect (K.admin_disconnect (try_topics K topics b).1).1)
          off in
      (answered.0, rw (answered.1, run) kept)
