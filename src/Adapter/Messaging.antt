-- ===== src/Adapter/Messaging.antt =====
-- internal/adapter/messaging/producer.go
pub mod Published
use be_modami_chat_service.Prelude.{[], none}
use be_modami_chat_service.Text.{GoString, bytes}
use be_modami_chat_service.Exec.{Exec}
use be_modami_chat_service.Port.{EventPublisher}
use be_modami_chat_service.Domain.Message.{Message}
use be_modami_chat_service.Kafka.Topics.{
  topic_messages_sent, topic_messages_updated, topic_messages_deleted, topic_read_receipts,
  topic_reactions,
}
use be_modami_chat_service.Kafka.Events.{
  BaseEventPayload, EventPayload, message_sent, message_updated, message_deleted, read_receipt,
  reaction, event_type_message_sent, event_type_message_updated, event_type_message_deleted,
  event_type_read_receipt, event_type_reaction_added, event_type_reaction_removed, get_type,
  KafkaEventBase, Stamps, new_kafka_event_base,
}
use be_modami_chat_service.Kafka.Emit.{KafkaClient, EmitContext, Marshal, emit_to_full_topic}

-- BaseEventPayload{Type: ...}
abbrev pub base_of : GoString → BaseEventPayload
base_of type = record { type = type; metadata = []; timestamp = 0 }

abbrev pub sent_payload : Message → EventPayload
sent_payload msg = message_sent (record {
  base = base_of event_type_message_sent;
  conversation_id = msg.conversation_id;
  message_id = msg.id;
  sender_id = msg.sender_id;
  message_type = msg.type;
  text = msg.content.text;
})

abbrev pub updated_payload : Message → EventPayload
updated_payload msg = message_updated (record {
  base = base_of event_type_message_updated;
  conversation_id = msg.conversation_id;
  message_id = msg.id;
  sender_id = msg.sender_id;
  text = msg.content.text;
})

abbrev pub deleted_payload : (conversation_id message_id sender_id : GoString) → EventPayload
deleted_payload conversation_id message_id sender_id = message_deleted (record {
  base = base_of event_type_message_deleted;
  conversation_id = conversation_id;
  message_id = message_id;
  sender_id = sender_id;
})

abbrev pub receipt_payload : (conversation_id user_id message_id : GoString) → EventPayload
receipt_payload conversation_id user_id message_id = read_receipt (record {
  base = base_of event_type_read_receipt;
  conversation_id = conversation_id;
  user_id = user_id;
  message_id = message_id;
})

abbrev pub added_payload : (conversation_id message_id emoji user_id : GoString) → EventPayload
added_payload conversation_id message_id emoji user_id = reaction (record {
  base = base_of event_type_reaction_added;
  action = bytes "added";
  conversation_id = conversation_id;
  message_id = message_id;
  emoji = emoji;
  user_id = user_id;
})

abbrev pub removed_payload : (conversation_id message_id emoji user_id : GoString) → EventPayload
removed_payload conversation_id message_id emoji user_id = reaction (record {
  base = base_of event_type_reaction_removed;
  action = bytes "removed";
  conversation_id = conversation_id;
  message_id = message_id;
  emoji = emoji;
  user_id = user_id;
})

module _ {W : Type 0} (client : KafkaClient W) (ctx : EmitContext)
    (marshal : Marshal KafkaEventBase) (stamps : Stamps W) where
  unfoldable pub publish : (topic key : GoString) → EventPayload → Exec W (Unit {0})
  publish topic key payload w =
      let (event, w') = new_kafka_event_base stamps payload key none w in
      emit_to_full_topic marshal client ctx topic
        (record { key = key; value = record event { event_type = get_type payload }; headers = [] })
        w'

  -- NewProducer as an implementation of the port.
  abbrev pub new_producer : EventPublisher W
  new_producer = record {
    publish_message_sent =
        λ msg. publish topic_messages_sent msg.conversation_id (sent_payload msg);
    publish_message_updated =
        λ msg. publish topic_messages_updated msg.conversation_id (updated_payload msg);
    publish_message_deleted = λ conversation_id message_id sender_id.
        publish topic_messages_deleted conversation_id
          (deleted_payload conversation_id message_id sender_id);
    publish_read_receipt = λ conversation_id user_id message_id.
        publish topic_read_receipts conversation_id
          (receipt_payload conversation_id user_id message_id);
    publish_reaction_added = λ conversation_id message_id emoji user_id.
        publish topic_reactions conversation_id
          (added_payload conversation_id message_id emoji user_id);
    publish_reaction_removed = λ conversation_id message_id emoji user_id.
        publish topic_reactions conversation_id
          (removed_payload conversation_id message_id emoji user_id);
  }
