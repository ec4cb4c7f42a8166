-- ===== src/Tests/Kafka.antt =====
-- The theorems on events, topics and consumers at concrete data.
use be_modami_chat_service.Prelude.{
  ℕ, ◌+◌, ◌≡◌, ◌≤◌, refl, ap, sym, ◌∙◌, not, true, false, ◌&&◌, ◌||◌, List, [], ◌∷◌, ◌++◌, Option,
  if◌then◌else◌,
}
use be_modami_chat_service.Text.{GoString, bytes, ◌==◌, contains}
use be_modami_chat_service.Text.Json.{scalar}
use be_modami_chat_service.Text.Sets.{contains-append}
use be_modami_chat_service.Result.{Error, Result, ok, err, external, is_ok}
use be_modami_chat_service.Exec.{wrap_result}
use be_modami_chat_service.Service.Traced.{KafkaEvent, reaction_added}
use be_modami_chat_service.Kafka.Headers.{get_topic_with_env}
use be_modami_chat_service.Kafka.Topics.{get_all_topics}
use be_modami_chat_service.Kafka.Events.{KafkaEventBase, Stamps, validate}
use be_modami_chat_service.Kafka.Emit.{
  ProducerRecord, ProducerMessage, KafkaClient, EmitContext, Marshal, record_of, build_headers,
  custom_headers,
}
use be_modami_chat_service.Kafka.EnsureTopics.{
  KafkaAdmin, TopicRequest, noted, requests, has_error, ensure_topics, ensure_topics_ends,
}
use be_modami_chat_service.Kafka.Running.{
  Consumers, new_service, start_consumer, close, is_running, here, next, starts, one_consumer,
}
use be_modami_chat_service.Kafka.Consumer.{Record, handle_message, register_handler}
use be_modami_chat_service.Kafka.Routing.{no_routes, add_handlers, add_topics, add_topic}
use be_modami_chat_service.Adapter.Messaging.{new_producer}
use be_modami_chat_service.Adapter.Messaging.Published.{
  publish_event, conversation_of, topic_of, event_of, publish_event_ends, told, is_complete,
}
use be_modami_chat_service.Server.Application.Inbound.{
  inbound_handler, as_consumer, prefixed_records_are_lost,
}
use be_modami_chat_service.Tests.{ann, thumb}
use be_modami_chat_service.Tests.Handlers.{runtime}

abbrev local : GoString
local = bytes "local"

one_consumer_example :
    let k : Consumers = (start_consumer new_service).1 in
    (k.active ≤ 1)
    × (k.active ≡ (if is_running k then 1 else 0))
    × ((start_consumer k).0 ≡ not (is_running k))
    × ((start_consumer (close k)).0 ≡ true)
    × ((start_consumer (close k)).1.active ≡ k.active + 1)
one_consumer_example = one_consumer (start_consumer new_service).1 (next here (starts new_service))

-- Every value is written as one byte.
abbrev marshal : {V : Type 0} → Marshal V
marshal = record { value = λ v. ok (bytes "v"); header = λ v. ok (bytes "h") }

abbrev ctx : EmitContext
ctx = record { request_id = bytes "r1"; inject = λ hs. hs }

abbrev message : ProducerMessage ℕ
message = record { key = bytes "c1"; value = 7; headers = (bytes "x", scalar) ∷ [] }

abbrev made : ProducerRecord
made = record {
  topic = bytes "t";
  key = bytes "c1";
  value = bytes "v";
  headers =
      record { key = bytes "request-id"; value = bytes "r1" }
      ∷ record { key = bytes "x"; value = bytes "h" }
      ∷ [];
}

-- The headers of a record: the request id first.
was_made : record_of marshal ctx (bytes "t") message ≡ ok made
unfolding record_of build_headers custom_headers
was_made = refl

-- The world is the list of what was produced.
abbrev client : KafkaClient (List ProducerRecord)
client = record { produce_sync = λ rs w. (ok tt, rs ++ w); produce = λ r w. r ∷ w }

abbrev stamps : Stamps (List ProducerRecord)
stamps = record { new_uuid = λ w. (bytes "id", w); now = λ w. (1, w) }

abbrev liked : KafkaEvent
liked = reaction_added (bytes "c1") (bytes "m1") thumb ann

publish_event_ends_example :
    (r : ProducerRecord) × (publish_event (new_producer client ctx marshal stamps) liked [] ≡ (
      wrap_result "failed to send message to topic"
          (client.produce_sync (r ∷ []) (event_of stamps liked []).1).0,
      (client.produce_sync (r ∷ []) (event_of stamps liked []).1).1,
    ))
    × (r.key ≡ conversation_of liked)
    × (r.value ≡ bytes "v")
    × (r.topic ≡ topic_of liked)
    × (contains (get_all_topics local) r.topic ≡ false)
    × (is_ok (validate (told liked)) ≡ is_complete liked)
publish_event_ends_example =
    publish_event_ends client ctx marshal stamps local liked [] (bytes "v") refl refl

-- The world is the list of the topics.
abbrev admin : KafkaAdmin (List GoString)
admin = record {
  metadata = λ w. (ok 3, w);
  list_topics = λ w. (ok w, w);
  create_topics = λ partitions replication ts w. (ok [], ts ++ w);
}

creates :
    (partitions replication : ℕ) (ts : List GoString) (w w' : List GoString)
    (resp : List (GoString × Option Error))
    → admin.create_topics partitions replication ts w ≡ (ok resp, w')
    → has_error resp ≡ false
    → (t : GoString) → contains w' t ≡ (contains ts t || contains w t)
creates partitions replication ts w w' resp eq good t =
    ap (λ (r : Result (List (GoString × Option Error)) × List GoString). contains r.1 t) (sym eq)
    ∙ contains-append ts w t

abbrev other : List GoString
other = bytes "other" ∷ []

ensured : List GoString
ensured = get_all_topics local ++ other

asked : List TopicRequest
asked = record { partitions = 1; replication = 3; topics = get_all_topics local } ∷ []

all_created : ensure_topics (noted admin) local (other, []) ≡ (ok tt, (ensured, asked))
unfolding ensure_topics ensured asked get_all_topics get_topic_with_env ◌==◌
all_created = refl

ensure_topics_ends_example :
    (ts : List GoString) × (asked ≡ requests 3 ts)
    × ((t : GoString)
        → contains ts t ≡ (contains (get_all_topics local) t && not (contains other t)))
    × ((t : GoString)
        → contains ensured t ≡ (contains (get_all_topics local) t || contains other t))
ensure_topics_ends_example =
    ensure_topics_ends admin (λ w. w) (λ w. refl) creates local 3 other other ensured asked tt refl
      all_created

abbrev unmarshal : GoString → Result KafkaEventBase
unmarshal s = err (external "interface")

abbrev inbound : Record
inbound = record {
  topic = bytes "local.chat.messages.inbound";
  partition = 0;
  offset = 0;
  key = [];
  value = [];
  headers = [];
}

subscribed :
    contains
      (add_handlers local
        (as_consumer (register_handler (inbound_handler {W = ℕ} unmarshal) []) ∷ [])
        no_routes).topics
      inbound.topic
    ≡ true
unfolding add_handlers add_topics add_topic get_topic_with_env ◌==◌
subscribed = refl

prefixed_records_are_lost_example :
    handle_message runtime (register_handler (inbound_handler unmarshal) []) inbound 0
    ≡ (err (external "no handler found for topic"), 0)
prefixed_records_are_lost_example =
    prefixed_records_are_lost runtime (inbound_handler unmarshal) local inbound 0 refl subscribed
