-- ===== src/Tests/Handlers.antt =====
-- The theorems on the handlers and the consumer at concrete data.
use be_modami_chat_service.Prelude.{ℕ, zero, suc, ◌≡◌, refl, not, [], ◌∷◌, some}
use be_modami_chat_service.Text.{GoString, bytes, ◌==◌}
use be_modami_chat_service.Result.{
  Error, Result, ok, err, wrapped, external, sentinel, not_chat_member,
}
use be_modami_chat_service.Domain.Cursor.{Cursor}
use be_modami_chat_service.Adapter.Handler.Errors.{
  handle_error, handle_error-root, root, is_internal, of_domain,
}
use be_modami_chat_service.Adapter.Handler.Paging.{TimeText}
use be_modami_chat_service.Adapter.Handler.Proxy.{
  Payload, ProxyPublishRequest, handle_publish, Answered, publish_ends,
}
use be_modami_chat_service.Kafka.Consumer.{
  Outcome, returned, Record, TopicHandler, Runtime, find_handler, handle_message,
}
use be_modami_chat_service.Kafka.Consumer.Retries.{
  start, counted_handler, counted_runtime, Reported, handle_message_retries,
}
use be_modami_chat_service.Service.Traced.{traced}
use be_modami_chat_service.Tests.{bob, team, service, no_chat}

abbrev outsider : Error
outsider = wrapped "get conversation" (sentinel not_chat_member)

handle_error-root_example :
    ((handle_error outsider).code ≡ (handle_error (root outsider)).code)
    × (is_internal (handle_error outsider).code ≡ not (of_domain (root outsider)))
handle_error-root_example = handle_error-root outsider

-- Times as one byte.
abbrev parse_byte : GoString → Result ℕ
parse_byte (t ∷ []) = ok t
parse_byte s = err (external "syntax")

abbrev pub byte_time : TimeText
byte_time = record { format = λ t. t ∷ []; parse = parse_byte }

abbrev place : Cursor
place = record { created_at = 124; id = bytes "m1" }

abbrev decode : GoString → Result Payload
decode s = ok (record { type = []; text = s })

abbrev publication : ProxyPublishRequest
publication = record { user = bob; channel = bytes "chat:room:c1"; data' = bytes "hi" }

publish_ends_example :
    Answered (handle_publish (traced (service team no_chat)) decode (some publication) (0, []))
publish_ends_example = publish_ends (service team no_chat) decode (some publication) 0

-- A handler that fails in the world 0 and succeeds in the later ones.
abbrev second_time : ℕ → Outcome
second_time zero = returned (err (external "busy"))
second_time (suc w) = returned (ok tt)

abbrev topic : GoString
topic = bytes "chat.reactions"

abbrev flaky : TopicHandler ℕ GoString
flaky = record {
  topic = topic;
  unmarshal = λ s. ok s;
  handler = λ p w. (second_time w, suc w);
  options = record { retry_count = 3; retry_delay = 0; dead_letter_topic = bytes "dlq" };
}

abbrev pub runtime : Runtime ℕ
runtime = record {
  name = bytes "chat";
  sleep = λ t w. w;
  now = λ w. (w, w);
  emit = λ topic' key letter headers w. (ok tt, w);
}

abbrev reaction : Record
reaction = record {
  topic = topic;
  partition = 0;
  offset = 7;
  key = bytes "c1";
  value = bytes "x";
  headers = [];
}

found : find_handler topic (counted_handler flaky ∷ []) ≡ some (counted_handler flaky)
unfolding ◌==◌
found = refl

handle_message_retries_example :
    Reported flaky.options
      (handle_message (counted_runtime runtime) (counted_handler flaky ∷ []) reaction (start 0))
handle_message_retries_example =
    handle_message_retries runtime flaky reaction (bytes "x") refl (counted_handler flaky ∷ []) 0
      found
