-- ===== src/Kafka/Emit.antt =====
-- How KafkaService (pkg/kafka/kafka_service.go) sends messages.
use be_modami_chat_service.Prelude.{
  ◌≡◌, refl, ap, sym, ◌∙◌, inl, inr, false, List, [], ◌∷◌, ◌++◌, if◌then◌else◌, arith,
}
use be_modami_chat_service.Text.{GoString, bytes, ◌==◌, is_empty}
use be_modami_chat_service.Text.Json.{Json}
use be_modami_chat_service.Result.{Result, ok, err, wrapped, Result-cases}
use be_modami_chat_service.Exec.{Exec, wrap, lift, ◌>>=◌}
use be_modami_chat_service.Kafka.Headers.{RecordHeader, get, get_topic_with_env}

-- kgo.Record as the producer fills it.
pub record ProducerRecord : Type 0 where
  pub topic : GoString
  pub key : GoString
  pub value : GoString
  pub headers : List RecordHeader

pub record ProducerMessage (V : Type 0) : Type 0 where
  pub key : GoString
  pub value : V
  pub headers : List (GoString × Json)

-- The client of franz-go: ProduceSync with FirstErr, and Produce, whose callback only logs.
pub record KafkaClient (W : Type 0) : Type 0 where
  pub produce_sync : List ProducerRecord → Exec W (Unit {0})
  pub produce : ProducerRecord → W → W

-- What the code takes from the context: the id of the request, and the library's trace headers.
pub record EmitContext : Type 0 where
  pub request_id : GoString
  pub inject : List RecordHeader → List RecordHeader

-- json.Marshal of the value and of a header's value.
pub record Marshal (V : Type 0) : Type 0 where
  pub value : V → Result GoString
  pub header : Json → Result GoString

module _ {V : Type 0} (marshal : Marshal V) where
  abbrev marshalled : GoString → Result GoString → List RecordHeader → List RecordHeader
  marshalled key (err e) rest = rest
  marshalled key (ok value) rest = record { key = key; value = value } ∷ rest

  -- The loop over the map of headers, in the order in which it is visited.
  unfoldable pub custom_headers : List (GoString × Json) → List RecordHeader
  custom_headers [] = []
  custom_headers ((key, value) ∷ hs) = marshalled key (marshal.header value) (custom_headers hs)

  abbrev request_header : GoString → List RecordHeader
  request_header [] = []
  request_header (c ∷ s) = record { key = bytes "request-id"; value = c ∷ s } ∷ []

  unfoldable pub build_headers : EmitContext → List (GoString × Json) → List RecordHeader
  build_headers ctx custom = request_header ctx.request_id ++ custom_headers custom

  abbrev recorded :
      EmitContext
      → (topic_name : GoString) → ProducerMessage V
      → Result GoString
      → Result ProducerRecord
  recorded ctx topic_name message (err e) = err (wrapped "failed to marshal message value" e)
  recorded ctx topic_name message (ok value) = ok (record {
    topic = topic_name;
    key = message.key;
    value = value;
    headers = ctx.inject (build_headers ctx message.headers);
  })

  unfoldable pub record_of :
      EmitContext → (topic_name : GoString) → ProducerMessage V → Result ProducerRecord
  record_of ctx topic_name message = recorded ctx topic_name message (marshal.value message.value)

  -- The records of SendMessages: what does not marshal is passed over.
  abbrev cons_record : Result ProducerRecord → List ProducerRecord → List ProducerRecord
  cons_record (err e) rest = rest
  cons_record (ok r) rest = r ∷ rest

  unfoldable pub records_of :
      EmitContext → (topic_name : GoString) → List (ProducerMessage V) → List ProducerRecord
  records_of ctx topic_name [] = []
  records_of ctx topic_name (m ∷ ms) =
      cons_record (record_of ctx topic_name m) (records_of ctx topic_name ms)

  module _ {W : Type 0} (client : KafkaClient W) (ctx : EmitContext) where
    unfoldable pub emit_to_full_topic : (topic : GoString) → ProducerMessage V → Exec W (Unit {0})
    emit_to_full_topic topic message = do
      r ← lift (record_of ctx topic message)
      wrap "failed to send message to topic" (client.produce_sync (r ∷ []))

    unfoldable pub emit : (env topic : GoString) → ProducerMessage V → Exec W (Unit {0})
    emit env topic message = do
      r ← lift (record_of ctx (get_topic_with_env env topic) message)
      wrap "failed to send message to topic" (client.produce_sync (r ∷ []))

    abbrev produced : Result ProducerRecord → W → W
    produced (err e) w = w
    produced (ok r) w = client.produce r w

    unfoldable pub emit_async : (env topic : GoString) → ProducerMessage V → W → W
    emit_async env topic message = produced (record_of ctx (get_topic_with_env env topic) message)

    unfoldable pub send_messages :
        (env topic : GoString) → List (ProducerMessage V) → Exec W (Unit {0})
    send_messages env topic messages =
        wrap "failed to send messages to topic"
          (client.produce_sync (records_of ctx (get_topic_with_env env topic) messages))

abbrev health : ProducerRecord
health = record {
  topic = bytes "__healthcheck";
  key = bytes "health";
  value = bytes "ping";
  headers = [];
}

unfoldable pub ping : {W : Type 0} → KafkaClient W → Exec W (Unit {0})
ping client = wrap "kafka ping failed" (client.produce_sync (health ∷ []))

-- The request id that extractContextFromHeaders puts into the context of a handler; the text is
-- empty where there is none.
unfoldable pub extract_request_id : List RecordHeader → GoString
extract_request_id [] = []
extract_request_id (h ∷ hs) =
    let rest = extract_request_id hs in if h.key == bytes "request-id" then h.value else rest

extract-get : (hs : List RecordHeader) → extract_request_id hs ≡ get hs (bytes "request-id")
unfolding extract_request_id get
extract-get [] = refl
extract-get (h ∷ hs) = ground (arith, extract-get hs)

module _ {V : Type 0} (marshal : Marshal V) where
  get-build_headers :
      (ctx : EmitContext) (custom : List (GoString × Json))
      → is_empty ctx.request_id ≡ false
      → get (build_headers marshal ctx custom) (bytes "request-id") ≡ ctx.request_id
  unfolding get build_headers ◌==◌
  get-build_headers ctx custom h = first ctx.request_id h
    where
      first :
          (id : GoString)
          → is_empty id ≡ false
          → get (request_header marshal id ++ custom_headers marshal custom) (bytes "request-id")
            ≡ id
      first [] none' = cc
      first (c ∷ s) some' = refl

  -- The id of a request goes with the messages that it sends: the handler of a record that was made
  -- for a context with an id finds that id in its own, whatever other headers the message has, if the
  -- trace library leaves that header alone.
  extract-record_of :
      (ctx : EmitContext) (topic : GoString) (message : ProducerMessage V) (r : ProducerRecord)
      → is_empty ctx.request_id ≡ false
      → ((hs : List RecordHeader)
          → get (ctx.inject hs) (bytes "request-id") ≡ get hs (bytes "request-id"))
      → record_of marshal ctx topic message ≡ ok r
      → extract_request_id r.headers ≡ ctx.request_id
  unfolding record_of
  extract-record_of ctx topic message r some_id leaves eq =
      elim (Result-cases (marshal.value message.value)) [
        | inr (e, bad) ↦ cc (rw bad at eq)
        | inl (value, good) ↦
            let made : ok (made_record value) ≡ ok r = rw good at eq in
            let same : made_record value ≡ r = cc in
            ap (λ (r' : ProducerRecord). extract_request_id r'.headers) (sym same)
            ∙ extract-get (ctx.inject (build_headers marshal ctx message.headers))
            ∙ leaves (build_headers marshal ctx message.headers)
            ∙ get-build_headers ctx message.headers some_id
      ]
    where
      made_record : GoString → ProducerRecord
      made_record value = record {
        topic = topic;
        key = message.key;
        value = value;
        headers = ctx.inject (build_headers marshal ctx message.headers);
      }
