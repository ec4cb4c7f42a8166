-- ===== src/Tests/Realtime.antt =====
-- The publisher at a server of a few lines.
use be_modami_chat_service.Prelude.{ℕ, suc, String, ◌≡◌, refl, true, [], ◌++◌, none}
use be_modami_chat_service.Text.{GoString, bytes}
use be_modami_chat_service.Result.{Result, ok, is_ok}
use be_modami_chat_service.Port.{EventData, whole}
use be_modami_chat_service.Centrifugo.{
  publish_request, Http, Client, publish_to_conversation, publish, call,
}
use be_modami_chat_service.Centrifugo.Rooms.{Accepted, publish_to_conversation_ends}
use be_modami_chat_service.Tests.{hello}

-- Every request is answered with status 200; the world counts them.
abbrev http : Http ℕ
http = record {
  marshal = λ req. ok (bytes "body");
  new_request = λ url. ok tt;
  do_request = λ req w. (ok (record { status_code = 200; body = [] }), suc w);
  decode = λ s. ok none;
}

abbrev client : Client
client = record { api_url = bytes "url"; api_key = bytes "key" }

abbrev encode : String → EventData → Result GoString
encode event_type data' = ok (bytes "event")

sent :
    is_ok (publish_to_conversation http encode client (bytes "c1") "message.new" (whole hello) 0).0
    ≡ true
unfolding publish_to_conversation publish call
sent = refl

publish_to_conversation_ends_example :
    (encoded : GoString) × (encode "message.new" (whole hello) ≡ ok encoded)
    × Accepted http client
        (publish_request (bytes "chat:room:" ++ bytes "c1") encoded)
        0
        (publish_to_conversation http encode client (bytes "c1") "message.new" (whole hello) 0).1
publish_to_conversation_ends_example =
    publish_to_conversation_ends http client encode (bytes "c1") "message.new" (whole hello) 0 sent
