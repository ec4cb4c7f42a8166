-- ===== src/Adapter/Handler/Middleware/Claims.antt =====
-- The claims of a token and what Authenticate of internal/adapter/handler/middleware/auth.go reads
-- of them.
use be_modami_chat_service.Prelude.{
  ℕ, ◌+◌, ◌&&◌, List, [], ◌∷◌, Option, none, some, leb, if◌then◌else◌, map,
}
use be_modami_chat_service.Text.Json.{
  Json, Fields, Items, text, object, array, end, field, nil, item,
}
use be_modami_chat_service.Text.{GoString, bytes, ◌==◌, is_empty}

-- jwt.MapClaims
abbrev pub Claims : Type 0
Claims = Fields

infixl 10 ◌>>=◌
abbrev ◌>>=◌ : {A B : Type 0} → Option A → (A → Option B) → Option B
none >>= f = none
some a >>= f = f a

unfoldable pub lookup : GoString → Fields → Option Json
lookup k end = none
lookup k (field j v rest) = let later = lookup k rest in if j == k then some v else later

-- The type assertions v.(string), v.(map[string]interface{}) and v.([]interface{}).
abbrev as_text : Json → Option GoString
as_text (text s) = some s
as_text v = none

abbrev as_object : Json → Option Fields
as_object (object fs) = some fs
as_object v = none

abbrev as_array : Json → Option Items
as_array (array xs) = some xs
as_array v = none

abbrev head : Items → Option Json
head nil = none
head (item v rest) = some v

abbrev or_empty : Option GoString → GoString
or_empty none = []
or_empty (some s) = s

-- sub, _ := claims["sub"].(string)
unfoldable pub sub_of : Claims → GoString
sub_of claims = or_empty (lookup (bytes "sub") claims >>= as_text)

-- strings.ToLower of an ASCII text.
abbrev pub lower : ℕ → ℕ
lower c = if leb 65 c && leb c 90 then c + 32 else c

abbrev pub to_lower : GoString → GoString
to_lower s = map lower s

-- The first role of realm_access; `none` where the context gets no role.
unfoldable pub realm_role : Claims → Option GoString
realm_role claims = do
  access ← lookup (bytes "realm_access") claims >>= as_object
  roles ← lookup (bytes "roles") access >>= as_array
  head roles >>= as_text

-- The loop over the roles of the client.
unfoldable pub named_roles : Items → List GoString
named_roles nil = []
named_roles (item (text s) rest) =
    let perms = named_roles rest in if is_empty s then perms else s ∷ perms
named_roles (item v rest) = named_roles rest

abbrev client_of : GoString → Option GoString
client_of [] = none
client_of (c ∷ s) = some (c ∷ s)

-- The roles in resource_access of the client that azp names.
unfoldable pub client_roles : Claims → Option (List GoString)
client_roles claims = do
  client_id ← lookup (bytes "azp") claims >>= as_text
  id ← client_of client_id
  access ← lookup (bytes "resource_access") claims >>= as_object
  client ← lookup id access >>= as_object
  roles ← lookup (bytes "roles") client >>= as_array
  some (named_roles roles)
