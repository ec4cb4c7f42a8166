-- ===== src/Kafka/Events.antt =====
-- pkg/kafka/events: the payloads, their checks and the event that carries one.
pub mod Envelope
use be_modami_chat_service.Prelude.{
  Bool, not, ◌&&◌, List, [], ◌∷◌, ◌++◌, Option, none, some, if◌then◌else◌, Time, String,
}
use be_modami_chat_service.Text.{GoString, bytes, ◌==◌, is_empty}
use be_modami_chat_service.Text.Json.{Json}
use be_modami_chat_service.Result.{Result, ok, err, external, ◌>>=◌}

abbrev pub event_type_message_sent : GoString
event_type_message_sent = bytes "message.sent"

abbrev pub event_type_message_updated : GoString
event_type_message_updated = bytes "message.updated"

abbrev pub event_type_message_deleted : GoString
event_type_message_deleted = bytes "message.deleted"

abbrev pub event_type_reaction_added : GoString
event_type_reaction_added = bytes "reaction.added"

abbrev pub event_type_reaction_removed : GoString
event_type_reaction_removed = bytes "reaction.removed"

abbrev pub event_type_read_receipt : GoString
event_type_read_receipt = bytes "read_receipt"

pub record EventActor : Type 0 where
  pub id : GoString
  pub username : GoString
  pub fullname : GoString
  pub avatar : GoString
  pub status : GoString

pub record BaseEventPayload : Type 0 where
  pub type : GoString
  pub metadata : List (GoString × Json)
  pub timestamp : Time

pub record MessageSentEvent : Type 0 where
  pub base : BaseEventPayload
  pub conversation_id : GoString
  pub message_id : GoString
  pub sender_id : GoString
  pub message_type : GoString
  pub text : GoString

pub record MessageUpdatedEvent : Type 0 where
  pub base : BaseEventPayload
  pub conversation_id : GoString
  pub message_id : GoString
  pub sender_id : GoString
  pub text : GoString

pub record MessageDeletedEvent : Type 0 where
  pub base : BaseEventPayload
  pub conversation_id : GoString
  pub message_id : GoString
  pub sender_id : GoString

pub record ReadReceiptEvent : Type 0 where
  pub base : BaseEventPayload
  pub conversation_id : GoString
  pub user_id : GoString
  pub message_id : GoString

pub record ReactionEvent : Type 0 where
  pub base : BaseEventPayload
  pub action : GoString
  pub conversation_id : GoString
  pub message_id : GoString
  pub emoji : GoString
  pub user_id : GoString

-- The interface EventPayload with its implementations.
pub data EventPayload : Type 0 where
  message_sent : MessageSentEvent → EventPayload
  message_updated : MessageUpdatedEvent → EventPayload
  message_deleted : MessageDeletedEvent → EventPayload
  read_receipt : ReadReceiptEvent → EventPayload
  reaction : ReactionEvent → EventPayload

unfoldable pub get_type : EventPayload → GoString
get_type (message_sent e) = event_type_message_sent
get_type (message_updated e) = event_type_message_updated
get_type (message_deleted e) = event_type_message_deleted
get_type (read_receipt e) = event_type_read_receipt
get_type (reaction e) = bytes "reaction." ++ e.action

-- if b { return errors.New(message) }
abbrev refuse_if : Bool → String → Result (Unit {0})
refuse_if b message = if b then err (external message) else ok tt

infixl 10 ◌>>◌
abbrev ◌>>◌ : Result (Unit {0}) → Result (Unit {0}) → Result (Unit {0})
m >> n = m >>= λ u. n

abbrev validate_base : BaseEventPayload → Result (Unit {0})
validate_base b = refuse_if (is_empty b.type) "event type is required"

unfoldable pub validate_message_sent : MessageSentEvent → Result (Unit {0})
validate_message_sent e = do
  validate_base e.base
  refuse_if (is_empty e.conversation_id) "conversation_id is required"
  refuse_if (is_empty e.message_id) "message_id is required"
  refuse_if (is_empty e.sender_id) "sender_id is required"

unfoldable pub validate_message_updated : MessageUpdatedEvent → Result (Unit {0})
validate_message_updated e = do
  validate_base e.base
  refuse_if (is_empty e.conversation_id) "conversation_id is required"
  refuse_if (is_empty e.message_id) "message_id is required"

unfoldable pub validate_message_deleted : MessageDeletedEvent → Result (Unit {0})
validate_message_deleted e = do
  validate_base e.base
  refuse_if (is_empty e.conversation_id) "conversation_id is required"
  refuse_if (is_empty e.message_id) "message_id is required"

unfoldable pub validate_read_receipt : ReadReceiptEvent → Result (Unit {0})
validate_read_receipt e = do
  validate_base e.base
  refuse_if (is_empty e.conversation_id) "conversation_id is required"
  refuse_if (is_empty e.user_id) "user_id is required"
  refuse_if (is_empty e.message_id) "message_id is required"

unfoldable pub validate_reaction : ReactionEvent → Result (Unit {0})
validate_reaction e = do
  validate_base e.base
  refuse_if (not (e.action == bytes "added") && not (e.action == bytes "removed"))
      "action must be 'added' or 'removed'"
  refuse_if (is_empty e.conversation_id) "conversation_id is required"
  refuse_if (is_empty e.message_id) "message_id is required"
  refuse_if (is_empty e.emoji) "emoji is required"
  refuse_if (is_empty e.user_id) "user_id is required"

unfoldable pub validate : EventPayload → Result (Unit {0})
unfolding validate_message_sent validate_message_updated validate_message_deleted
    validate_read_receipt validate_reaction
validate (message_sent e) = validate_message_sent e
validate (message_updated e) = validate_message_updated e
validate (message_deleted e) = validate_message_deleted e
validate (read_receipt e) = validate_read_receipt e
validate (reaction e) = validate_reaction e

pub record KafkaEventBase : Type 0 where
  pub request_id : GoString
  pub event_id : GoString
  pub event_key_id : GoString
  pub event_type : GoString
  pub payload : EventPayload
  pub actor : Option EventActor
  pub headers : List (GoString × Json)
  pub created_at : Time

-- uuid.New().String() and time.Now.
pub record Stamps (W : Type 0) : Type 0 where
  pub new_uuid : W → GoString × W
  pub now : W → Time × W

unfoldable pub new_kafka_event_base :
    {W : Type 0}
    → Stamps W
    → EventPayload
    → (event_key_id : GoString) → Option EventActor
    → W
    → KafkaEventBase × W
new_kafka_event_base stamps payload event_key_id actor w =
    let (request_id, w₁) = stamps.new_uuid w in
    let (event_id, w₂) = stamps.new_uuid w₁ in
    let (created_at, w₃) = stamps.now w₂ in
    (
      record {
        request_id = request_id;
        event_id = event_id;
        event_key_id = event_key_id;
        event_type = [];
        payload = payload;
        actor = actor;
        headers = [];
        created_at = created_at;
      },
      w₃,
    )

-- GetTopic and GetEventName
unfoldable pub get_event_name : KafkaEventBase → GoString
get_event_name k = get_type k.payload

-- SetHeader and GetHeader, with the map as a list that holds each key once.
unfoldable pub put : GoString → Json → List (GoString × Json) → List (GoString × Json)
put key value [] = (key, value) ∷ []
put key value ((k, v) ∷ headers) =
    let rest = (k, v) ∷ put key value headers in if k == key then (key, value) ∷ headers else rest

unfoldable pub set_header : GoString → Json → KafkaEventBase → KafkaEventBase
set_header key value k = record k { headers = put key value k.headers }

unfoldable pub find_header : GoString → List (GoString × Json) → Option Json
find_header key [] = none
find_header key ((k, v) ∷ headers) =
    let rest = find_header key headers in if k == key then some v else rest

unfoldable pub get_header : GoString → KafkaEventBase → Option Json
get_header key k = find_header key k.headers
