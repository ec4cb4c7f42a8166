-- ===== src/Server/Application.antt =====
-- cmd/server/application.go: the parts put together.
pub mod Entry
pub mod Inbound
use be_modami_chat_service.Prelude.{ℕ, String, Bool, List, [], ◌∷◌, Time}
use be_modami_chat_service.Text.{GoString, bytes}
use be_modami_chat_service.Result.{Result, ok, err}
use be_modami_chat_service.Port.{EventData}
use be_modami_chat_service.Utils.{object_id_generator}
use be_modami_chat_service.Service.Defs.{ChatService}
use be_modami_chat_service.Adapter.Repository.Session.{Session}
use be_modami_chat_service.Adapter.Repository.Wiring.{
  Encoding, new_message_repository, new_conversation_repository,
}
use be_modami_chat_service.Adapter.Cache.Redis.{Redis}
use be_modami_chat_service.Adapter.Cache.Wiring.{
  new_cache_store, new_presence_store, new_rate_limiter,
}
use be_modami_chat_service.Adapter.Messaging.{new_producer}
use be_modami_chat_service.Adapter.Handler.Errors.{Answer}
use be_modami_chat_service.Adapter.Handler.Paging.{TimeText}
use be_modami_chat_service.Adapter.Handler.Requests.{HttpRequest}
use be_modami_chat_service.Adapter.Handler.Chat.{Reply, failed, Endpoint, serve}
use be_modami_chat_service.Adapter.Handler.Middleware.Jwks.{Jwk, JwksCache}
use be_modami_chat_service.Adapter.Handler.Middleware.Auth.{
  Jwt, Verdict, denied, passed, get_user_id, authenticate,
}
use be_modami_chat_service.Kafka.Events.{KafkaEventBase, Stamps}
use be_modami_chat_service.Kafka.Emit.{KafkaClient, EmitContext, Marshal}
use be_modami_chat_service.Centrifugo.{Http, Client, new_publisher}

-- The connections, and what the libraries give.
pub record Connections (W : Type 0) : Type 0 where
  pub encoding : Encoding
  pub session : Session W
  pub redis : Redis W
  pub kafka : KafkaClient W
  pub marshal : Marshal KafkaEventBase
  pub stamps : Stamps W
  pub http : Http W
  pub encode : String → EventData → Result GoString
  pub centrifugo : Client
  pub now : W → Time × W
  pub unix : W → ℕ × W

-- The service of NewApplication, for a request with the context `ctx`.
unfoldable pub new_chat_service : {W : Type 0} → Connections W → EmitContext → ChatService W
new_chat_service conn ctx = record {
  msg_repo = new_message_repository conn.encoding conn.session conn.now;
  conv_repo = new_conversation_repository conn.encoding conn.session conn.now;
  publisher = new_producer conn.kafka ctx conn.marshal conn.stamps;
  realtime = new_publisher conn.http conn.encode conn.centrifugo;
  cache = new_cache_store conn.redis;
  presence = new_presence_store conn.redis conn.unix;
  rate_limiter = new_rate_limiter conn.redis;
  id_gen = object_id_generator conn.stamps.new_uuid;
  now = conn.now;
}

module _ {W : Type 0} (fetch : GoString → W → Result (List Jwk) × W) (now : W → Time × W)
    (jwt : Jwt (JwksCache × W)) (jwks_url : GoString) (s : ChatService W) (t : TimeText) where
  -- A handler behind the middleware.
  abbrev pub behind : Endpoint → HttpRequest → Verdict × (JwksCache × W) → Reply × (JwksCache × W)
  behind e r (denied a, st) = (failed a, st)
  behind e r (passed ctx, (c, w)) =
      let (reply, w') = serve s t e (record r { user_id = get_user_id ctx }) w in (reply, (c, w'))

  -- A request of the group of routes that JWTAuth guards; `raw` is its header Authorization.
  unfoldable pub handle :
      (raw : GoString) → Endpoint → HttpRequest → JwksCache × W → Reply × (JwksCache × W)
  handle raw e r st = behind e r (authenticate fetch now jwt jwks_url raw st)
