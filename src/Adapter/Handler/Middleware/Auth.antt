-- ===== src/Adapter/Handler/Middleware/Auth.antt =====
-- AuthMiddleware of internal/adapter/handler/middleware/auth.go.
use mathlib.Core.Option
use be_modami_chat_service.Prelude.{
  Bool, not, List, [], ◌∷◌, Option, none, some, eqb, if◌then◌else◌, Time,
}
use be_modami_chat_service.Text.{GoString, bytes, ◌==◌, is_empty, contains}
use be_modami_chat_service.Result.{Result, ok, err, external}
use be_modami_chat_service.Adapter.Handler.Errors.{
  Answer, answer, code_unauthorized, code_forbidden,
}
use be_modami_chat_service.Adapter.Handler.Middleware.Claims.{
  Claims, sub_of, realm_role, client_roles, to_lower,
}
use be_modami_chat_service.Adapter.Handler.Middleware.Keys.{PublicKey}
use be_modami_chat_service.Adapter.Handler.Middleware.Jwks.{Jwk, JwksCache, refresh, get}

-- The context keys that Authenticate sets.
pub record Context : Type 0 where
  pub user_id : Option GoString
  pub user_role : Option GoString
  pub user_permissions : Option (List GoString)

-- context.Background()
abbrev pub no_user : Context
no_user = record { user_id = none; user_role = none; user_permissions = none }

unfoldable pub get_user_id : Context → GoString
get_user_id ctx = elim ctx.user_id [ none ↦ [] | some id ↦ id ]

unfoldable pub get_role : Context → GoString
get_role ctx = elim ctx.user_role [ none ↦ [] | some role ↦ role ]

unfoldable pub get_permissions : Context → List GoString
get_permissions ctx = elim ctx.user_permissions [ none ↦ [] | some perms ↦ perms ]

unfoldable pub has_permission : Context → (permission : GoString) → Bool
has_permission ctx permission = contains (get_permissions ctx) permission

-- A request is answered by the middleware, or goes on with a context.
pub data Verdict : Type 0 where
  denied : Answer → Verdict
  passed : Context → Verdict

abbrev pub err_unauthorized : Answer
err_unauthorized = answer code_unauthorized "chưa xác thực"

abbrev pub err_forbidden : Answer
err_forbidden = answer code_forbidden "không có quyền truy cập"

-- What the key function reads of a token: whether its method is RSA, and its `kid` or "".
pub record TokenHeader : Type 0 where
  pub rsa : Bool
  pub kid : GoString

-- The library golang-jwt on a state `S`. `parse_with_claims` asks the function for the key; it
-- answers with claims only if the token is valid.
pub record Jwt (S : Type 0) : Type 0 where
  pub parse_unverified : GoString → Result Claims
  pub parse_with_claims :
      GoString → (TokenHeader → S → Result PublicKey × S) → S → Result Claims × S

-- strings.SplitN(raw, " ", 2), where there are two parts.
unfoldable pub split_space : GoString → Option (GoString × GoString)
split_space [] = none
split_space (c ∷ s) =
    let later = Option.map (λ parts. (c ∷ parts.0, parts.1)) (split_space s) in
    if eqb c 32 then some ([], s) else later

-- strings.EqualFold(scheme, "Bearer"): no letter of it has a variant outside ASCII.
abbrev pub is_bearer : GoString → Bool
is_bearer scheme = to_lower scheme == bytes "bearer"

abbrev pub context_of : Claims → Context
context_of claims = record {
  user_id = some (sub_of claims);
  user_role = Option.map to_lower (realm_role claims);
  user_permissions = client_roles claims;
}

abbrev invalid_token : {S : Type 0} → Result Claims × S → Result Claims × S
invalid_token (ok claims, st) = (ok claims, st)
invalid_token (err e, st) = (err (external "invalid token"), st)

-- The role of a request of a role that is wanted; text beyond ASCII is not folded.
unfoldable pub require_role : (role : GoString) → Context → Verdict
require_role role ctx = if get_role ctx == to_lower role then passed ctx else denied err_forbidden

module _ {W : Type 0} (fetch : GoString → W → Result (List Jwk) × W) (now : W → Time × W)
    (jwt : Jwt (JwksCache × W)) (jwks_url : GoString) where
  abbrev start_cache : JwksCache
  start_cache = record { keys = []; last_refresh = 0 }

  abbrev initial : Result (Unit {0}) × (JwksCache × W) → (JwksCache × W) × Result (Unit {0})
  initial (r, st) = (st, r)

  -- The cache that it starts with, and the error that is only logged.
  unfoldable pub new_auth_middleware : W → (JwksCache × W) × Result (Unit {0})
  new_auth_middleware w =
      if is_empty jwks_url
      then ((start_cache, w), ok tt)
      else initial (refresh fetch now jwks_url (start_cache, w))

  unfoldable pub key_func : TokenHeader → JwksCache × W → Result PublicKey × (JwksCache × W)
  key_func h st =
      if not h.rsa
      then (err (external "unexpected signing method"), st)
      else get fetch now h.kid jwks_url st

  unfoldable pub parse : GoString → JwksCache × W → Result Claims × (JwksCache × W)
  parse token st =
      if is_empty jwks_url
      then (jwt.parse_unverified token, st)
      else invalid_token (jwt.parse_with_claims token key_func st)

  abbrev pub enter : Result Claims × (JwksCache × W) → Verdict × (JwksCache × W)
  enter (err e, st) = (denied err_unauthorized, st)
  enter (ok claims, st) =
      if is_empty (sub_of claims)
      then (denied err_unauthorized, st)
      else (passed (context_of claims), st)

  abbrev pub bearer : Option (GoString × GoString) → JwksCache × W → Verdict × (JwksCache × W)
  bearer none st = (denied err_unauthorized, st)
  bearer (some parts) st =
      if is_bearer parts.0 then enter (parse parts.1 st) else (denied err_unauthorized, st)

  -- `raw` is the header Authorization.
  unfoldable pub authenticate : (raw : GoString) → JwksCache × W → Verdict × (JwksCache × W)
  authenticate raw st =
      if is_empty raw then (denied err_unauthorized, st) else bearer (split_space raw) st

  abbrev subject : Result Claims × (JwksCache × W) → Result GoString × (JwksCache × W)
  subject (err e, st) = (err e, st)
  subject (ok claims, st) =
      if is_empty (sub_of claims)
      then (err (external "missing sub claim"), st)
      else (ok (sub_of claims), st)

  unfoldable pub parse_token : GoString → JwksCache × W → Result GoString × (JwksCache × W)
  parse_token token st = subject (parse token st)
