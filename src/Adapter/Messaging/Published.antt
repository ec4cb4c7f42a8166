-- ===== src/Adapter/Messaging/Published.antt =====
-- What the events of internal/adapter/messaging/producer.go become: payloads and records.
use be_modami_chat_service.Prelude.{
  ◌≡◌, refl, ◌∙◌, Bool, true, false, not, ◌&&◌, [], ◌∷◌, none, arith,
}
use be_modami_chat_service.Text.{GoString, bytes, ◌==◌, is_empty, contains}
use be_modami_chat_service.Result.{ok, is_ok}
use be_modami_chat_service.Exec.{Exec, wrap_result}
use be_modami_chat_service.Port.{EventPublisher}
use be_modami_chat_service.Service.Traced.{
  KafkaEvent, message_sent, message_updated, message_deleted, read_receipt, reaction_added,
  reaction_removed,
}
use be_modami_chat_service.Kafka.Topics.{
  get_all_topics, unprefixed_topics, base_topics, topic_messages_sent, topic_messages_updated,
  topic_messages_deleted, topic_read_receipts, topic_reactions,
}
use be_modami_chat_service.Kafka.Events
use be_modami_chat_service.Kafka.Events.{
  BaseEventPayload, EventPayload, KafkaEventBase, Stamps, new_kafka_event_base, get_type, validate,
}
use be_modami_chat_service.Kafka.Emit.{
  KafkaClient, EmitContext, Marshal, ProducerRecord, emit_to_full_topic, record_of, build_headers,
}
use be_modami_chat_service.Adapter.Messaging.{
  publish, new_producer, sent_payload, updated_payload, deleted_payload, receipt_payload,
  added_payload, removed_payload,
}

-- The call of the port that tells of an event.
abbrev pub publish_event : {W : Type 0} → EventPublisher W → KafkaEvent → Exec W (Unit {0})
publish_event p (message_sent msg) = p.publish_message_sent msg
publish_event p (message_updated msg) = p.publish_message_updated msg
publish_event p (message_deleted c m u) = p.publish_message_deleted c m u
publish_event p (read_receipt c u m) = p.publish_read_receipt c u m
publish_event p (reaction_added c m e u) = p.publish_reaction_added c m e u
publish_event p (reaction_removed c m e u) = p.publish_reaction_removed c m e u

abbrev pub conversation_of : KafkaEvent → GoString
conversation_of (message_sent msg) = msg.conversation_id
conversation_of (message_updated msg) = msg.conversation_id
conversation_of (message_deleted c m u) = c
conversation_of (read_receipt c u m) = c
conversation_of (reaction_added c m e u) = c
conversation_of (reaction_removed c m e u) = c

abbrev pub topic_of : KafkaEvent → GoString
topic_of (message_sent msg) = topic_messages_sent
topic_of (message_updated msg) = topic_messages_updated
topic_of (message_deleted c m u) = topic_messages_deleted
topic_of (read_receipt c u m) = topic_read_receipts
topic_of (reaction_added c m e u) = topic_reactions
topic_of (reaction_removed c m e u) = topic_reactions

abbrev payload_of : KafkaEvent → EventPayload
payload_of (message_sent msg) = sent_payload msg
payload_of (message_updated msg) = updated_payload msg
payload_of (message_deleted c m u) = deleted_payload c m u
payload_of (read_receipt c u m) = receipt_payload c u m
payload_of (reaction_added c m e u) = added_payload c m e u
payload_of (reaction_removed c m e u) = removed_payload c m e u

-- The name of an event, which is the type of its record.
abbrev pub name_of : KafkaEvent → GoString
name_of (message_sent msg) = bytes "message.sent"
name_of (message_updated msg) = bytes "message.updated"
name_of (message_deleted c m u) = bytes "message.deleted"
name_of (read_receipt c u m) = bytes "read_receipt"
name_of (reaction_added c m e u) = bytes "reaction.added"
name_of (reaction_removed c m e u) = bytes "reaction.removed"

-- What an event says of itself: its name, without metadata and without a time.
abbrev pub named : KafkaEvent → BaseEventPayload
named e = record { type = name_of e; metadata = []; timestamp = 0 }

-- What is to be told of an event, from its arguments.
abbrev pub told : KafkaEvent → EventPayload
told (message_sent msg) = Events.message_sent (record {
  base = named (message_sent msg);
  conversation_id = msg.conversation_id;
  message_id = msg.id;
  sender_id = msg.sender_id;
  message_type = msg.type;
  text = msg.content.text;
})
told (message_updated msg) = Events.message_updated (record {
  base = named (message_updated msg);
  conversation_id = msg.conversation_id;
  message_id = msg.id;
  sender_id = msg.sender_id;
  text = msg.content.text;
})
told (message_deleted c m u) = Events.message_deleted (record {
  base = named (message_deleted c m u);
  conversation_id = c;
  message_id = m;
  sender_id = u;
})
told (read_receipt c u m) =
    Events.read_receipt (record {
      base = named (read_receipt c u m);
      conversation_id = c;
      user_id = u;
      message_id = m;
    })
told (reaction_added c m e u) = Events.reaction (record {
  base = named (reaction_added c m e u);
  action = bytes "added";
  conversation_id = c;
  message_id = m;
  emoji = e;
  user_id = u;
})
told (reaction_removed c m e u) = Events.reaction (record {
  base = named (reaction_removed c m e u);
  action = bytes "removed";
  conversation_id = c;
  message_id = m;
  emoji = e;
  user_id = u;
})

-- The texts that the payload of an event must have.
abbrev pub is_complete : KafkaEvent → Bool
is_complete (message_sent msg) =
    not (is_empty msg.conversation_id) && not (is_empty msg.id) && not (is_empty msg.sender_id)
is_complete (message_updated msg) = not (is_empty msg.conversation_id) && not (is_empty msg.id)
is_complete (message_deleted c m u) = not (is_empty c) && not (is_empty m)
is_complete (read_receipt c u m) = not (is_empty c) && not (is_empty u) && not (is_empty m)
is_complete (reaction_added c m e u) =
    not (is_empty c) && not (is_empty m) && not (is_empty e) && not (is_empty u)
is_complete (reaction_removed c m e u) =
    not (is_empty c) && not (is_empty m) && not (is_empty e) && not (is_empty u)

validate-told : (e : KafkaEvent) → is_ok (validate (told e)) ≡ is_complete e
unfolding validate ◌==◌
validate-told (message_sent msg) = ground arith
validate-told (message_updated msg) = ground arith
validate-told (message_deleted c m u) = ground arith
validate-told (read_receipt c u m) = ground arith
validate-told (reaction_added c m e u) = ground arith
validate-told (reaction_removed c m e u) = ground arith

payload_of_lem : (e : KafkaEvent) → payload_of e ≡ told e
payload_of_lem (message_sent msg) = refl
payload_of_lem (message_updated msg) = refl
payload_of_lem (message_deleted c m u) = refl
payload_of_lem (read_receipt c u m) = refl
payload_of_lem (reaction_added c m e u) = refl
payload_of_lem (reaction_removed c m e u) = refl

get_type-told : (e : KafkaEvent) → get_type (told e) ≡ name_of e
unfolding get_type
get_type-told (message_sent msg) = refl
get_type-told (message_updated msg) = refl
get_type-told (message_deleted c m u) = refl
get_type-told (read_receipt c u m) = refl
get_type-told (reaction_added c m e u) = refl
get_type-told (reaction_removed c m e u) = refl

-- What the record of an event is to hold: two fresh ids, the conversation, the name and the time of
-- the event and what is to be told, with neither an actor nor headers; and the world after the two
-- ids and the time were taken.
abbrev pub event_of : {W : Type 0} → Stamps W → KafkaEvent → W → KafkaEventBase × W
event_of stamps e w =
    let first = stamps.new_uuid w in
    let second = stamps.new_uuid first.1 in
    let clock = stamps.now second.1 in
    (
      record {
        request_id = first.0;
        event_id = second.0;
        event_key_id = conversation_of e;
        event_type = name_of e;
        payload = told e;
        actor = none;
        headers = [];
        created_at = clock.0;
      },
      clock.1,
    )

own_topic : (e : KafkaEvent) → contains base_topics (topic_of e) ≡ true
unfolding ◌==◌
own_topic (message_sent msg) = refl
own_topic (message_updated msg) = refl
own_topic (message_deleted c m u) = refl
own_topic (read_receipt c u m) = refl
own_topic (reaction_added c m e u) = refl
own_topic (reaction_removed c m e u) = refl

module _ {W : Type 0} (client : KafkaClient W) (ctx : EmitContext)
    (marshal : Marshal KafkaEventBase) (stamps : Stamps W) where
  publish_event_lem :
      (e : KafkaEvent) (w : W)
      → publish_event (new_producer client ctx marshal stamps) e w
        ≡ publish client ctx marshal stamps (topic_of e) (conversation_of e) (payload_of e) w
  publish_event_lem (message_sent msg) w = refl
  publish_event_lem (message_updated msg) w = refl
  publish_event_lem (message_deleted c m u) w = refl
  publish_event_lem (read_receipt c u m) w = refl
  publish_event_lem (reaction_added c m e u) w = refl
  publish_event_lem (reaction_removed c m e u) w = refl

  published :
      (e : KafkaEvent) (w : W)
      → publish_event (new_producer client ctx marshal stamps) e w
        ≡ emit_to_full_topic marshal client ctx
            (topic_of e)
            (record { key = conversation_of e; value = (event_of stamps e w).0; headers = [] })
            (event_of stamps e w).1
  unfolding publish new_kafka_event_base
  published e w = publish_event_lem e w ∙ rw (payload_of_lem e) (rw (get_type-told e) refl)

  -- Where the environment is set and the event, written out field by field with fresh ids, its name
  -- and the time, can be marshalled, it becomes one record: its value is that event marshalled, its
  -- key is the conversation, so that the events of a conversation keep their order, and its topic is
  -- that of its kind without the prefix of the environment, which is none of the topics that the
  -- service creates. The answer is that of the client, and the payload passes its own check exactly
  -- if the ids, and the emoji, that the event needs are not empty.
  pub publish_event_ends :
      (env : GoString) (e : KafkaEvent) (w : W) (value : GoString)
      → is_empty env ≡ false
      → marshal.value (event_of stamps e w).0 ≡ ok value
      → (r : ProducerRecord) × (publish_event (new_producer client ctx marshal stamps) e w ≡ (
        wrap_result "failed to send message to topic"
            (client.produce_sync (r ∷ []) (event_of stamps e w).1).0,
        (client.produce_sync (r ∷ []) (event_of stamps e w).1).1,
      ))
        × (r.key ≡ conversation_of e)
        × (r.value ≡ value)
        × (r.topic ≡ topic_of e)
        × (contains (get_all_topics env) r.topic ≡ false)
        × (is_ok (validate (told e)) ≡ is_complete e)
  unfolding emit_to_full_topic record_of
  publish_event_ends env e w value prefixed good = (
    record {
      topic = topic_of e;
      key = conversation_of e;
      value = value;
      headers = ctx.inject (build_headers marshal ctx []);
    },
    published e w ∙ rw good refl,
    refl,
    refl,
    refl,
    unprefixed_topics env (topic_of e) prefixed (own_topic e),
    validate-told e,
  )
