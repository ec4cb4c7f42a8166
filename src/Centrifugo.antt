-- ===== src/Centrifugo.antt =====
-- pkg/centrifugo: the client of the server API and the publisher on it.
pub mod Rooms
use be_modami_chat_service.Prelude.{
  ℕ, String, Bool, not, List, [], ◌++◌, Option, none, some, eqb, if◌then◌else◌,
}
use be_modami_chat_service.Text.{GoString, bytes}
use be_modami_chat_service.Result.{Result, ok, err, external}
use be_modami_chat_service.Exec.{Exec, lift, pure, raise, wrap, ◌>>=◌, ◌>>◌}
use be_modami_chat_service.Port.{EventData, RealtimePublisher}

-- The method of a request with its parameters; the data are encoded JSON.
pub data ApiRequest : Type 0 where
  publish_request : (channel data' : GoString) → ApiRequest
  broadcast_request : (channels : List GoString) → (data' : GoString) → ApiRequest
  info_request : ApiRequest

pub record ApiError : Type 0 where
  pub code : ℕ
  pub message : GoString

-- A POST with its body and the headers that are set.
pub record HttpRequest : Type 0 where
  pub url : GoString
  pub body : GoString
  pub content_type : GoString
  pub authorization : GoString

pub record HttpResponse : Type 0 where
  pub status_code : ℕ
  pub body : GoString

-- net/http and encoding/json: `new_request` refuses a URL that does not parse, `do_request` is one
-- exchange, and a decoded response is its error, if it has one.
pub record Http (W : Type 0) : Type 0 where
  pub marshal : ApiRequest → Result GoString
  pub new_request : (url : GoString) → Result (Unit {0})
  pub do_request : HttpRequest → Exec W HttpResponse
  pub decode : GoString → Result (Option ApiError)

pub record Client : Type 0 where
  pub api_url : GoString
  pub api_key : GoString

abbrev pub status_ok : ℕ
status_ok = 200

abbrev pub api_result : Option ApiError → Result (Unit {0})
api_result none = ok tt
api_result (some e) = err (external "centrifugo: api error")

-- The request of a client with a body.
abbrev pub post : Client → GoString → HttpRequest
post c body = record {
  url = c.api_url;
  body = body;
  content_type = bytes "application/json";
  authorization = bytes "apikey " ++ c.api_key;
}

module _ {W : Type 0} (http : Http W) where
  abbrev pub read_response : HttpResponse → Exec W (Unit {0})
  read_response resp =
      if not (eqb resp.status_code status_ok)
      then raise (external "centrifugo: unexpected status")
      else do
        e ← wrap "centrifugo: decode response" (lift (http.decode resp.body))
        lift (api_result e)

  unfoldable pub call : Client → ApiRequest → Exec W (Unit {0})
  call c req = do
    body ← wrap "centrifugo: marshal request" (lift (http.marshal req))
    wrap "centrifugo: create request" (lift (http.new_request c.api_url))
    resp ← wrap "centrifugo: http request" (http.do_request (post c body))
    read_response resp

  unfoldable pub publish : Client → (channel data' : GoString) → Exec W (Unit {0})
  publish c channel data' = call c (publish_request channel data')

  unfoldable pub broadcast : Client → List GoString → GoString → Exec W (Unit {0})
  broadcast c channels data' = call c (broadcast_request channels data')

  unfoldable pub ping : Client → Exec W (Unit {0})
  ping c = call c info_request

  -- `encode` is json.Marshal of a realtimeEvent.
  module _ (encode : String → EventData → Result GoString) (client : Client) where
    unfoldable pub publish_to_conversation :
        (conversation_id : GoString) → String → EventData → Exec W (Unit {0})
    publish_to_conversation conversation_id event_type data' = do
      encoded ← wrap "marshal realtime event" (lift (encode event_type data'))
      wrap "publish to conversation"
          (publish client (bytes "chat:room:" ++ conversation_id) encoded)

    unfoldable pub publish_to_user : (user_id : GoString) → String → EventData → Exec W (Unit {0})
    publish_to_user user_id event_type data' = do
      encoded ← wrap "marshal realtime event" (lift (encode event_type data'))
      wrap "publish to user" (publish client (bytes "noti:user:" ++ user_id) encoded)

    abbrev pub new_publisher : RealtimePublisher W
    new_publisher = record {
      publish_to_conversation = publish_to_conversation;
      publish_to_user = publish_to_user;
    }
