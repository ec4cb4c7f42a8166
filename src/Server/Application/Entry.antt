-- ===== src/Server/Application/Entry.antt =====
-- A request from its token to its answer.
use be_modami_chat_service.Prelude.{◌≡◌, refl, true, false, List, Time}
use be_modami_chat_service.Text.{GoString, is_empty}
use be_modami_chat_service.Result.{Result, ok}
use be_modami_chat_service.Service.Defs.{ChatService}
use be_modami_chat_service.Adapter.Handler.Paging.{TimeText}
use be_modami_chat_service.Adapter.Handler.Requests.{HttpRequest}
use be_modami_chat_service.Adapter.Handler.Chat.{Reply, Endpoint, serve}
use be_modami_chat_service.Adapter.Handler.Chat.Outcomes.{is_success}
use be_modami_chat_service.Adapter.Handler.Middleware.Claims.{Claims}
use be_modami_chat_service.Adapter.Handler.Middleware.Keys.{PublicKey}
use be_modami_chat_service.Adapter.Handler.Middleware.Jwks.{Jwk, JwksCache}
use be_modami_chat_service.Adapter.Handler.Middleware.Auth.{
  Context, Jwt, TokenHeader, Verdict, denied, passed, get_user_id, authenticate,
}
use be_modami_chat_service.Adapter.Handler.Middleware.Access.{Entered, authenticate_passes}
use be_modami_chat_service.Server.Application.{behind, handle}

module _ {W : Type 0} (fetch : GoString → W → Result (List Jwk) × W) (now : W → Time × W)
    (jwt : Jwt (JwksCache × W)) (jwks_url : GoString)
    (Signed : GoString → PublicKey → Claims → Type 0)
    (verifies : (token : GoString)
        (f : TokenHeader → JwksCache × W → Result PublicKey × (JwksCache × W))
        (st st' : JwksCache × W) (claims : Claims)
      → jwt.parse_with_claims token f st ≡ (ok claims, st')
      → (h : TokenHeader) × (key : PublicKey) × (f h st ≡ (ok key, st')) × Signed token key claims)
    (s : ChatService W) (t : TimeText) where
  -- The answer that the handler of a request gives to the subject of its token.
  abbrev pub Served : (raw : GoString) → Endpoint → HttpRequest → Reply × (JwksCache × W) → Type 0
  Served raw e r answer =
      (ctx : Context) × (st : JwksCache × W) × Entered fetch now jwt jwks_url Signed verifies raw
        ctx st
      × (answer.0 ≡ (serve s t e (record r { user_id = get_user_id ctx }) st.1).0)
      × (answer.1.1 ≡ (serve s t e (record r { user_id = get_user_id ctx }) st.1).1)
      × (answer.1.0 ≡ st.0)

  answered :
      (raw : GoString) (e : Endpoint) (r : HttpRequest) (st : JwksCache × W)
      (v : Verdict × (JwksCache × W))
      → authenticate fetch now jwt jwks_url raw st ≡ v
      → is_empty jwks_url ≡ false
      → is_success (behind fetch now jwt jwks_url s t e r v).0 ≡ true
      → Served raw e r (behind fetch now jwt jwks_url s t e r v)
  answered raw e r st (denied a, st') eq url success = cc
  answered raw e r st (passed ctx, st') eq url success = (
    ctx,
    st',
    authenticate_passes fetch now jwt jwks_url Signed verifies raw st st' ctx url eq,
    refl,
    refl,
    refl,
  )

  -- Whatever a guarded route does, it does for the subject of a signed token: where a URL for the keys
  -- is given, a request that is answered with success carries a Bearer token that is signed with a key
  -- of the cache and names a user, and its answer and its effects are those of its handler for that
  -- user, whatever user the request itself claims.
  pub success_is_authenticated :
      (raw : GoString) (e : Endpoint) (r : HttpRequest) (st : JwksCache × W)
      → is_empty jwks_url ≡ false
      → is_success (handle fetch now jwt jwks_url s t raw e r st).0 ≡ true
      → Served raw e r (handle fetch now jwt jwks_url s t raw e r st)
  unfolding handle
  success_is_authenticated raw e r st url success =
      answered raw e r st (authenticate fetch now jwt jwks_url raw st) refl url success
