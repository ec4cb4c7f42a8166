-- ===== src/Kafka/Consumer.antt =====
-- Consumer.HandleMessage (pkg/kafka/consumer.go): retries and the dead letter topic.
pub mod Retries
use be_modami_chat_service.Prelude.{
  ℕ, zero, suc, ◌+◌, ◌≤◌, ◌≡◌, refl, String, Bool, true, false, not, List, [], ◌∷◌, Option, none,
  some, if◌then◌else◌, Time, arith, inl, inr, ◌⊎◌,
}
use be_modami_chat_service.Prelude.Int.{ℤ, pos, negsuc}
use be_modami_chat_service.Text.{GoString, ◌==◌, is_empty}
use be_modami_chat_service.Result.{Error, Result, ok, err, wrapped, external}
use be_modami_chat_service.Exec.{Exec}
use be_modami_chat_service.Kafka.Headers.{RecordHeader, set}

-- How a call of a handler ends: it returns, or it panics.
pub data Outcome : Type 0 where
  returned : Result (Unit {0}) → Outcome
  panicked : Outcome

-- A negative RetryCount, with which the loop makes no attempt, is left out.
pub record ConsumerOptions : Type 0 where
  pub retry_count : ℕ
  pub retry_delay : Time
  pub dead_letter_topic : GoString

-- A record of a topic, as far as the consumer reads it.
pub record Record : Type 0 where
  pub topic : GoString
  pub partition : ℕ
  pub offset : ℕ
  pub key : GoString
  pub value : GoString
  pub headers : List RecordHeader

-- `P` is the type of the payload, and `unmarshal` is json.Unmarshal into it.
pub record TopicHandler (W P : Type 0) : Type 0 where
  pub topic : GoString
  pub unmarshal : GoString → Result P
  pub handler : P → W → Outcome × W
  pub options : ConsumerOptions

-- The payload of a dead letter; an error message is the error here.
pub record DeadLetter : Type 0 where
  pub original_topic : GoString
  pub original_partition : ℕ
  pub original_offset : ℕ
  pub original_key : GoString
  pub original_value : GoString
  pub original_headers : List RecordHeader
  pub error_message : Error
  pub failed_at : Time
  pub consumer : GoString

pub record DeadLetterHeaders : Type 0 where
  pub original_topic : GoString
  pub error_message : Error
  pub consumer : GoString
  pub failed_at : Time

-- The consumer's name, the package time, and Emit of its KafkaService.
pub record Runtime (W : Type 0) : Type 0 where
  pub name : GoString
  pub sleep : Time → W → W
  pub now : W → Time × W
  pub emit : (topic key : GoString) → DeadLetter → DeadLetterHeaders → Exec W (Unit {0})

-- convertHeaders, with the map as a list that holds each key once.
unfoldable pub convert_headers : (result headers : List RecordHeader) → List RecordHeader
convert_headers result [] = result
convert_headers result (h ∷ hs) = convert_headers (set result h.key h.value) hs

-- RegisterHandler: the map of handlers as a list that holds each topic once.
abbrev pub register_handler :
    {W P : Type 0} → TopicHandler W P → List (TopicHandler W P) → List (TopicHandler W P)
register_handler h [] = h ∷ []
register_handler h (h' ∷ hs) =
    let rest = register_handler h hs in if h'.topic == h.topic then h ∷ hs else h' ∷ rest

abbrev pub find_handler :
    {W P : Type 0} → GoString → List (TopicHandler W P) → Option (TopicHandler W P)
find_handler topic [] = none
find_handler topic (h ∷ hs) =
    let rest = find_handler topic hs in if h.topic == topic then some h else rest

-- recover() in the deferred function leaves the result at its zero value, the nil error.
abbrev pub recovered : Outcome → Result (Unit {0})
recovered (returned r) = r
recovered panicked = ok tt

module _ {W P : Type 0} where
  abbrev pub process_payload : TopicHandler W P → Result P → Exec W (Unit {0})
  process_payload h (err e) w =
      (err (wrapped "failed to deserialize payload" (wrapped "failed to unmarshal JSON" e)), w)
  process_payload h (ok payload) w =
      let (outcome, w') = h.handler payload w in (recovered outcome, w')

  unfoldable pub process_message : TopicHandler W P → Record → Exec W (Unit {0})
  process_message h message w = process_payload h (h.unmarshal message.value) w

-- The loop after an attempt: `retry` gets the last error and makes the attempts that are left.
abbrev pub after_attempt :
    {W : Type 0}
    → (Error → W → Result (Unit {0}) × W)
    → Result (Unit {0}) × W
    → Result (Unit {0}) × W
after_attempt retry (ok u, w) = (ok u, w)
after_attempt retry (err e, w) = retry e w

module _ {W : Type 0} (runtime : Runtime W) where
  unfoldable pub send_to_dead_letter_topic :
      (dead_letter_topic : GoString) → Record → Error → Exec W (Unit {0})
  send_to_dead_letter_topic dead_letter_topic message e w =
      let (failed_at, w₁) = runtime.now w in
      let (failed_at', w₂) = runtime.now w₁ in
      runtime.emit dead_letter_topic message.key
        (record {
          original_topic = message.topic;
          original_partition = message.partition;
          original_offset = message.offset;
          original_key = message.key;
          original_value = message.value;
          original_headers = convert_headers [] message.headers;
          error_message = e;
          failed_at = failed_at;
          consumer = runtime.name;
        })
        (record {
          original_topic = message.topic;
          error_message = e;
          consumer = runtime.name;
          failed_at = failed_at';
        })
        w₂

module _ {W P : Type 0} (runtime : Runtime W) where
  -- The attempts of the loop: the first and `left` more.
  unfoldable pub attempts : TopicHandler W P → Record → (left : ℕ) → Exec W (Unit {0})
  attempts h message zero w = process_message h message w
  attempts h message (suc left) w =
      after_attempt (λ e w'. attempts h message left (runtime.sleep h.options.retry_delay w'))
        (process_message h message w)

  -- What follows the loop: the dead letter, whose own error is only logged.
  abbrev pub give_up : TopicHandler W P → Record → Result (Unit {0}) × W → Result (Unit {0}) × W
  give_up h message (ok u, w) = (ok u, w)
  give_up h message (err e, w) =
      if is_empty h.options.dead_letter_topic
      then (err e, w)
      else (err e, (send_to_dead_letter_topic runtime h.options.dead_letter_topic message e w).1)

  abbrev pub handle_by : Option (TopicHandler W P) → Record → Exec W (Unit {0})
  handle_by none message w = (err (external "no handler found for topic"), w)
  handle_by (some h) message w = give_up h message (attempts h message h.options.retry_count w)

  unfoldable pub handle_message : List (TopicHandler W P) → Record → Exec W (Unit {0})
  handle_message handlers message = handle_by (find_handler message.topic handlers) message

pub record HandlerInfo : Type 0 where
  pub topic : GoString
  pub payload_type : GoString
  pub options : ConsumerOptions

-- GetHandlerInfo; `type_name` is the name that reflect gives the payload's type.
unfoldable get_handler_info :
    {W P : Type 0}
    → (type_name : GoString) → List (TopicHandler W P)
    → List (GoString × HandlerInfo)
get_handler_info type_name [] = []
get_handler_info type_name (h ∷ handlers) =
    (h.topic, record { topic = h.topic; payload_type = type_name; options = h.options })
    ∷ get_handler_info type_name handlers
