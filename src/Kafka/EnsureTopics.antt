-- ===== src/Kafka/EnsureTopics.antt =====
-- EnsureTopics of KafkaService (pkg/kafka/kafka_service.go).
use be_modami_chat_service.Prelude.{
  ℕ, ◌≡◌, refl, ap, sym, ◌∙◌, Bool, true, false, not, ◌&&◌, ◌||◌, List, [], ◌∷◌, Option, none, some,
  ltb, if◌then◌else◌, keep, any, arith, inl, inr, Bool-cases,
}
use be_modami_chat_service.Text.{GoString, contains}
use be_modami_chat_service.Text.Laws.{eq_iff}
use be_modami_chat_service.Text.Sets.{contains_of_eq}
use be_modami_chat_service.Result.{Error, Result, ok, err, external}
use be_modami_chat_service.Exec.{Exec, pure, raise, wrap, ◌>>=◌, run-cases}
use be_modami_chat_service.Kafka.Topics.{get_all_topics}

-- The client of kadm: the number of brokers, the names of the topics, and the creation of topics
-- with a number of partitions and replicas and the default configuration, which answers for each
-- topic.
pub record KafkaAdmin (W : Type 0) : Type 0 where
  pub metadata : Exec W ℕ
  pub list_topics : Exec W (List GoString)
  pub create_topics :
      (partitions replication : ℕ) → List GoString → Exec W (List (GoString × Option Error))

abbrev pub replication_factor : (broker_count : ℕ) → ℕ
replication_factor broker_count = if ltb broker_count 3 then 1 else 3

abbrev pub has_error : List (GoString × Option Error) → Bool
has_error resp = any (λ r. elim r.1 [ none ↦ false | some e ↦ true ]) resp

abbrev pub missing : List GoString → List GoString → List GoString
missing targets existing = keep (λ t. not (contains existing t)) targets

module _ {W : Type 0} (admin : KafkaAdmin W) where
  abbrev create_missing : ℕ → List GoString → Exec W (Unit {0})
  create_missing replication [] = pure tt
  create_missing replication (t ∷ ts) = do
    resp ← wrap "failed to create missing topics" (admin.create_topics 1 replication (t ∷ ts))
    (if has_error resp then raise (external "some topics failed to be created") else pure tt)

  unfoldable pub ensure_topics : (env : GoString) → Exec W (Unit {0})
  ensure_topics env = do
    brokers ← wrap "failed to get kafka metadata" admin.metadata
    existing ← wrap "failed to list kafka topics" admin.list_topics
    create_missing (replication_factor brokers) (missing (get_all_topics env) existing)

contains-missing :
    (targets existing : List GoString) (t : GoString)
    → contains (missing targets existing) t ≡ (contains targets t && not (contains existing t))
contains-missing [] existing t = refl
contains-missing (x ∷ targets) existing t = elim (Bool-cases (contains existing x)) [
  | inl old ↦ rw old (
      ground
        (arith, eq_iff x t, old, contains_of_eq existing x t, contains-missing targets existing t))
  | inr new ↦ rw new (
      ground
        (arith, eq_iff x t, new, contains_of_eq existing x t, contains-missing targets existing t))
]

-- What CreateTopics of the client is asked for.
pub record TopicRequest : Type 0 where
  pub partitions : ℕ
  pub replication : ℕ
  pub topics : List GoString

-- A client that notes which topics it is asked to create, with or without success.
abbrev pub noted : {W : Type 0} → KafkaAdmin W → KafkaAdmin (W × List TopicRequest)
noted admin = record {
  metadata = λ w. let (r, v) = admin.metadata w.0 in (r, (v, w.1));
  list_topics = λ w. let (r, v) = admin.list_topics w.0 in (r, (v, w.1));
  create_topics = λ partitions replication ts w.
      let (r, v) = admin.create_topics partitions replication ts w.0 in
      (r, (v, record { partitions = partitions; replication = replication; topics = ts } ∷ w.1));
}

-- One request for all topics, of one partition each, with a third replica from three brokers on; and
-- none if there are no topics.
abbrev pub requests : (brokers : ℕ) → List GoString → List TopicRequest
requests brokers [] = []
requests brokers (t ∷ ts) =
    record { partitions = 1; replication = if ltb brokers 3 then 1 else 3; topics = t ∷ ts } ∷ []

module _ {W : Type 0} (admin : KafkaAdmin W) (topics : W → List GoString)
    (listed : (w : W) → admin.list_topics w ≡ (ok (topics w), w))
    (created : (partitions replication : ℕ) (ts : List GoString) (w w' : W)
        (resp : List (GoString × Option Error))
      → admin.create_topics partitions replication ts w ≡ (ok resp, w')
      → has_error resp ≡ false
      → (t : GoString) → contains (topics w') t ≡ (contains ts t || contains (topics w) t)) where
  same_run :
      {v v' : W × List TopicRequest} {x y : Unit {0}}
      → ◌≡◌ {A = Result (Unit {0}) × (W × List TopicRequest)} (ok x, v) (ok y, v')
      → v ≡ v'
  same_run eq = ap (λ r. r.1) eq

  no_success :
      {v v' : W × List TopicRequest} {e : Error} {y : Unit {0}}
      → ◌≡◌ {A = Result (Unit {0}) × (W × List TopicRequest)} (err e, v) (ok y, v')
      → ⊥
  no_success eq = cc

  all_there :
      (brokers : ℕ) (ts : List GoString) (w w' : W) (log : List TopicRequest) (u : Unit {0})
      → create_missing (noted admin) (replication_factor brokers) ts (w, []) ≡ (ok u, (w', log))
      → (log ≡ requests brokers ts)
        × ((t : GoString) → contains (topics w') t ≡ (contains ts t || contains (topics w) t))
  all_there brokers [] w w' log u eq = (
    sym (ap (λ v. v.1) (same_run eq)),
    λ t. ap (λ v. contains (topics v.0) t) (sym (same_run eq)),
  )
  all_there brokers (x ∷ ts) w w' log u eq =
      elim (run-cases (admin.create_topics 1 (replication_factor brokers) (x ∷ ts) w)) [
        | inr (e, w₁, failed) ↦ absurd (no_success (rw failed at eq))
        | inl (resp, w₁, done) ↦ elim (Bool-cases (has_error resp)) [
          | inl bad ↦ absurd (no_success (rw (done, bad) at eq))
          | inr good ↦
              let same = same_run (rw (done, good) at eq) in
              (
                sym (ap (λ v. v.1) same),
                λ t.
                    ap (λ v. contains (topics v.0) t) (sym same)
                    ∙ created 1 (replication_factor brokers) (x ∷ ts) w w₁ resp done good t,
              )
        ]
      ]

  -- If EnsureTopics succeeds then it has asked once for exactly those topics of the service for the
  -- environment that the broker did not have, with one partition each and one replica, or three from
  -- three brokers on, and for nothing if it had them all. Every topic of the service exists then, and
  -- the other topics are those that were there before: none is removed. The broker is taken to list
  -- the topics that it has, and a creation without an error to add the topics that it was given.
  pub ensure_topics_ends :
      (env : GoString) (brokers : ℕ) (w w₁ w' : W) (log : List TopicRequest) (u : Unit {0})
      → admin.metadata w ≡ (ok brokers, w₁)
      → ensure_topics (noted admin) env (w, []) ≡ (ok u, (w', log))
      → (ts : List GoString) × (log ≡ requests brokers ts)
        × ((t : GoString)
            → contains ts t ≡ (contains (get_all_topics env) t && not (contains (topics w₁) t)))
        × ((t : GoString)
            → contains (topics w') t ≡ (contains (get_all_topics env) t || contains (topics w₁) t))
  unfolding ensure_topics
  ensure_topics_ends env brokers w w₁ w' log u known eq =
      let todo = missing (get_all_topics env) (topics w₁) in
      let (asked, there) = all_there brokers todo w₁ w' log u (rw (known, listed w₁) at eq) in
      (
        todo,
        asked,
        contains-missing (get_all_topics env) (topics w₁),
        λ t. there t ∙ ground (arith, contains-missing (get_all_topics env) (topics w₁) t),
      )
