-- ===== src/Server/Application/Inbound.antt =====
-- The consumer of inbound messages of cmd/server/application.go, behind StartConsumer.
use be_modami_chat_service.Prelude.{
  ◌≡◌, refl, sym, ap, ◌∙◌, true, false, List, [], ◌∷◌, ◌++◌, length, arith, inl, inr, Bool-cases,
  length-append, map,
}
use be_modami_chat_service.Text.{GoString, bytes, ◌==◌, is_empty, contains}
use be_modami_chat_service.Text.Laws.{eq_iff}
use be_modami_chat_service.Result.{Result, ok, err, external}
use be_modami_chat_service.Kafka.Headers.{get_topic_with_env}
use be_modami_chat_service.Kafka.Topics.{topic_messages_inbound}
use be_modami_chat_service.Kafka.Events.{KafkaEventBase}
use be_modami_chat_service.Kafka.Consumer.{
  Outcome, returned, ConsumerOptions, TopicHandler, Record, Runtime, register_handler,
  handle_message,
}
use be_modami_chat_service.Kafka.Routing.{
  ConsumerHandler, no_routes, add_handlers, add_topics, add_topic,
}

-- DefaultConsumerOptions
abbrev pub default_consumer_options : ConsumerOptions
default_consumer_options = record {
  retry_count = 3;
  retry_delay = 1_000_000_000;
  dead_letter_topic = [];
}

-- NewTopicHandler without options.
abbrev pub new_topic_handler :
    {W P : Type 0}
    → (topic : GoString) → (GoString → Result P)
    → (P → W → Outcome × W)
    → TopicHandler W P
new_topic_handler topic unmarshal handler = record {
  topic = topic;
  unmarshal = unmarshal;
  handler = handler;
  options = default_consumer_options;
}

-- The handler that NewApplication registers; it only logs.
abbrev pub inbound_handler :
    {W : Type 0} → (GoString → Result KafkaEventBase) → TopicHandler W KafkaEventBase
inbound_handler unmarshal =
    new_topic_handler topic_messages_inbound unmarshal (λ payload w. (returned (ok tt), w))

-- The handlers of a consumer, and GetTopics in some order.
abbrev pub get_topics : {W P : Type 0} → List (TopicHandler W P) → List GoString
get_topics handlers = map (λ h. h.topic) handlers

abbrev pub as_consumer :
    {W P : Type 0} → List (TopicHandler W P) → ConsumerHandler (List (TopicHandler W P))
as_consumer handlers = record { get_topics = get_topics handlers; handler = handlers }

longer :
    (env topic : GoString) → is_empty env ≡ false → (topic == get_topic_with_env env topic) ≡ false
unfolding get_topic_with_env
longer [] topic h = cc
longer (c ∷ env) topic h = elim (Bool-cases (topic == get_topic_with_env (c ∷ env) topic)) [
  | inr differ ↦ differ
  | inl same ↦
      let eq : topic ≡ get_topic_with_env (c ∷ env) topic =
        (eq_iff topic (get_topic_with_env (c ∷ env) topic)).0 same in
      absurd (
        omega (
          arith,
          ap length eq,
          length-append ((c ∷ env) ++ bytes ".") topic,
          length-append (c ∷ env) (bytes "."),
        ))
]

module _ {W P : Type 0} (runtime : Runtime W) (h : TopicHandler W P) where
  only_topic :
      (env : GoString) (topic : GoString)
      → contains
          (add_handlers env (as_consumer (register_handler h []) ∷ []) no_routes).topics
          topic
        ≡ true
      → get_topic_with_env env h.topic ≡ topic
  unfolding add_handlers add_topics add_topic
  only_topic env topic there = (eq_iff (get_topic_with_env env h.topic) topic).0 (ground arith)

  -- With an environment, a consumer with one handler never runs it: the client subscribes to the
  -- handler's topic with the prefix of the environment, and HandleMessage looks the handler up by
  -- that name, under which it was not registered. Every record of a topic that is subscribed to is
  -- answered with an error, and nothing else happens.
  pub prefixed_records_are_lost :
      (env : GoString) (message : Record) (w : W)
      → is_empty env ≡ false
      → contains
          (add_handlers env (as_consumer (register_handler h []) ∷ []) no_routes).topics
          message.topic
        ≡ true
      → handle_message runtime (register_handler h []) message w
        ≡ (err (external "no handler found for topic"), w)
  unfolding handle_message
  prefixed_records_are_lost env message w prefixed there =
      let topic = only_topic env message.topic there in
      let missed : (h.topic == message.topic) ≡ false =
        ap (λ t. h.topic == t) (sym topic) ∙ longer env h.topic prefixed in
      rw missed refl
