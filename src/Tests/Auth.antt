-- ===== src/Tests/Auth.antt =====
-- The theorems on the middleware at concrete data.
use be_modami_chat_service.Prelude.{ℕ, ◌≡◌, ◌⊎◌, refl, ap, true, List, [], ◌∷◌, some, none, Time}
use be_modami_chat_service.Prelude.Int.{pos}
use be_modami_chat_service.Text.{GoString, bytes, ◌==◌}
use be_modami_chat_service.Text.Json.{text, end, field}
use be_modami_chat_service.Result.{Result, ok, err}
use be_modami_chat_service.Domain.Conversation.{has_member}
use be_modami_chat_service.Service.ChatService.{get_conversation}
use be_modami_chat_service.Adapter.Handler.Requests.{HttpRequest}
use be_modami_chat_service.Adapter.Handler.Chat
use be_modami_chat_service.Adapter.Handler.Chat.{serve}
use be_modami_chat_service.Adapter.Handler.Chat.Outcomes.{is_success}
use be_modami_chat_service.Adapter.Handler.Middleware.Claims.{Claims, sub_of, lookup}
use be_modami_chat_service.Adapter.Handler.Middleware.Keys.{PublicKey}
use be_modami_chat_service.Adapter.Handler.Middleware.Jwks.{Jwk, JwksCache, find_key, get}
use be_modami_chat_service.Adapter.Handler.Middleware.KnownKeys.{Fetched, get_ends}
use be_modami_chat_service.Adapter.Handler.Middleware.Auth.{
  Jwt, TokenHeader, key_func, parse, split_space, authenticate, get_user_id,
}
use be_modami_chat_service.Server.Application.{handle}
use be_modami_chat_service.Server.Application.Entry.{Served, success_is_authenticated}
use be_modami_chat_service.Tests.{team, service, no_chat}
use be_modami_chat_service.Tests.Handlers.{byte_time}

abbrev url : GoString
url = bytes "u"

-- The document has no key, and the world does not change.
abbrev fetch : GoString → ℕ → Result (List Jwk) × ℕ
fetch u w = (ok [], w)

abbrev clock : ℕ → Time × ℕ
clock w = (w, w)

abbrev key : PublicKey
key = record { n = 35; e = pos 5 }

abbrev cache : JwksCache
cache = record { keys = (bytes "k", key) ∷ []; last_refresh = 0 }

get_ends_example :
    ((k : PublicKey) × (find_key (bytes "j") cache.keys ≡ some k)
      × (get fetch clock (bytes "j") url (cache, 0) ≡ (ok k, (cache, 0))))
    ⊎ ((find_key (bytes "j") cache.keys ≡ none)
        × Fetched fetch clock
            (bytes "j")
            cache
            (fetch url 0)
            (get fetch clock (bytes "j") url (cache, 0)))
get_ends_example = get_ends fetch clock (bytes "j") url cache 0

-- A token is the subject that it claims, and names the key k.
abbrev claims_of : GoString → Claims
claims_of token = field (bytes "sub") (text token) end

abbrev header : TokenHeader
header = record { rsa = true; kid = bytes "k" }

abbrev with_key : GoString → Result PublicKey × (JwksCache × ℕ) → Result Claims × (JwksCache × ℕ)
with_key token (ok k, st) = (ok (claims_of token), st)
with_key token (err e, st) = (err e, st)

abbrev jwt : Jwt (JwksCache × ℕ)
jwt = record {
  parse_unverified = λ token. ok (claims_of token);
  parse_with_claims = λ token f st. with_key token (f header st);
}

abbrev Signed : GoString → PublicKey → Claims → Type 0
Signed token k claims = claims ≡ claims_of token

verified :
    (token : GoString) (r : Result PublicKey × (JwksCache × ℕ)) (st' : JwksCache × ℕ)
    (claims : Claims)
    → with_key token r ≡ (ok claims, st')
    → (k : PublicKey) × (r ≡ (ok k, st')) × Signed token k claims
verified token (err e, st) st' claims eq = cc
verified token (ok k, st) st' claims eq =
    (k, ap (λ (r : Result Claims × (JwksCache × ℕ)). (ok k, r.1)) eq, signed)
  where
    signed : claims ≡ claims_of token
    signed = cc

verifies :
    (token : GoString) (f : TokenHeader → JwksCache × ℕ → Result PublicKey × (JwksCache × ℕ))
    (st st' : JwksCache × ℕ) (claims : Claims)
    → jwt.parse_with_claims token f st ≡ (ok claims, st')
    → (h : TokenHeader) × (k : PublicKey) × (f h st ≡ (ok k, st')) × Signed token k claims
verifies token f st st' claims eq =
    let (k, found, signed) = verified token (f header st) st' claims eq in
    (header, k, found, signed)

-- The request names another user than the token.
abbrev r : HttpRequest
r = record { user_id = bytes "eve"; url_param = λ name. bytes "c1"; cursor = []; limit = [] }

succeeds :
    is_success
      (handle fetch clock jwt url
        (service team no_chat)
        byte_time
        (bytes "bearer ann")
        Chat.get_conversation_at
        r
        (cache, 0)).0
    ≡ true
unfolding handle authenticate split_space parse key_func get find_key sub_of lookup serve
    Chat.get_conversation get_conversation get_user_id has_member ◌==◌
succeeds = refl

success_is_authenticated_example :
    Served fetch clock jwt url Signed verifies
      (service team no_chat)
      byte_time
      (bytes "bearer ann")
      Chat.get_conversation_at
      r
      (handle fetch clock jwt url
        (service team no_chat)
        byte_time
        (bytes "bearer ann")
        Chat.get_conversation_at
        r
        (cache, 0))
success_is_authenticated_example =
    success_is_authenticated fetch clock jwt url Signed verifies (service team no_chat) byte_time
      (bytes "bearer ann") Chat.get_conversation_at r (cache, 0) refl succeeds
