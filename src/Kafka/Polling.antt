-- ===== src/Kafka/Polling.antt =====
-- The loop of KafkaService.StartConsumer (pkg/kafka/kafka_service.go) that polls the client and
-- hands the records to their handlers.
pub mod Trace
pub mod Stops
pub mod RunConsumer
use be_modami_chat_service.Prelude.{
  ℕ, zero, suc, Bool, true, false, List, [], ◌∷◌, Option, none, some, Time, if◌then◌else◌,
}
use be_modami_chat_service.Text.{GoString}
use be_modami_chat_service.Exec.{Exec}
use be_modami_chat_service.Kafka.Consumer.{Record}
use be_modami_chat_service.Kafka.Routing.{
  ConsumerHandler, Routes, lookup, add_handlers, dispatch, no_routes,
}

-- What a poll returns. Fetches.Err is an error of any partition, read here only for whether its text
-- contains UNKNOWN_TOPIC_ID; there may be records beside it.
pub record Fetches : Type 0 where
  pub error : Option Bool
  pub records : List Record

-- The Kafka client, the context and the clock, as far as the loop uses them. `cancelled` is whether
-- ctx.Err() is not nil.
pub record PollClient (W : Type 0) : Type 0 where
  pub add_consume_topics : List GoString → W → W
  pub poll_fetches : W → Fetches × W
  pub cancelled : W → Bool
  pub force_metadata_refresh : W → W
  pub sleep : Time → W → W

abbrev pub one_second : Time
one_second = 1_000_000_000

abbrev pub two_seconds : Time
two_seconds = 2_000_000_000

module _ {W H : Type 0} (client : PollClient W) where
  -- What is done about an error of a poll.
  abbrev pub retry : Routes H → (unknown_topic_id : Bool) → W → W
  retry routes true w =
      client.sleep two_seconds
        (client.add_consume_topics routes.topics (client.force_metadata_refresh w))
  retry routes false w = client.sleep one_second w

module _ {W H : Type 0} (client : PollClient W)
    (handle_message : H → Record → Exec W (Unit {0})) where
  -- The records of a poll, in their order, each to the handlers of its topic.
  unfoldable pub dispatch_all : Routes H → List Record → W → W
  dispatch_all routes [] w = w
  dispatch_all routes (r ∷ rs) w =
      dispatch_all routes rs (dispatch handle_message (lookup routes.handler_map r.topic) r w)

  -- After a poll with an error, and after any; `again` is the rest of the loop.
  abbrev pub after_error :
      Routes H → (again : W → Bool × W) → (unknown_topic_id : Bool) → W → Bool × W
  after_error routes again unknown_topic_id w =
      if client.cancelled w then (true, w) else again (retry client routes unknown_topic_id w)

  abbrev pub after_poll :
      Routes H → (again : W → Bool × W) → Option Bool → List Record → W → Bool × W
  after_poll routes again none rs w = again (dispatch_all routes rs w)
  after_poll routes again (some unknown_topic_id) rs w = after_error routes again unknown_topic_id w

  abbrev pub after_fetches : Routes H → (again : W → Bool × W) → Fetches × W → Bool × W
  after_fetches routes again (fetches, w) = after_poll routes again fetches.error fetches.records w

  -- The loop for at most so many polls; whether it has returned.
  unfoldable pub poll_loop : (polls : ℕ) → Routes H → W → Bool × W
  poll_loop zero routes w = (false, w)
  poll_loop (suc n) routes w = after_fetches routes (poll_loop n routes) (client.poll_fetches w)

  -- StartConsumer behind the check of the flag.
  unfoldable pub run_consumer :
      (polls : ℕ) → (env : GoString) → List (ConsumerHandler H) → W → Bool × W
  run_consumer n env handlers w =
      let routes = add_handlers env handlers no_routes in
      poll_loop n routes (client.add_consume_topics routes.topics w)
