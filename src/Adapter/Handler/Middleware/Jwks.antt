-- ===== src/Adapter/Handler/Middleware/Jwks.antt =====
-- jwksCache of internal/adapter/handler/middleware/auth.go.
use be_modami_chat_service.Prelude.{not, List, [], ◌∷◌, Option, none, some, if◌then◌else◌, Time}
use be_modami_chat_service.Text.{GoString, bytes, ◌==◌}
use be_modami_chat_service.Result.{Result, ok, err, external}
use be_modami_chat_service.Adapter.Handler.Middleware.Keys.{PublicKey, parse_rsa_public_key}

-- A key of the document that the URL serves.
pub record Jwk : Type 0 where
  pub kty : GoString
  pub kid : GoString
  pub n : GoString
  pub e : GoString

abbrev pub KeyMap : Type 0
KeyMap = List (GoString × PublicKey)

pub record JwksCache : Type 0 where
  pub keys : KeyMap
  pub last_refresh : Time

unfoldable pub find_key : GoString → KeyMap → Option PublicKey
find_key kid [] = none
find_key kid ((k, key) ∷ keys) =
    let later = find_key kid keys in if k == kid then some key else later

-- keys[kid] = pub
unfoldable pub put_key : GoString → PublicKey → KeyMap → KeyMap
put_key kid pub' [] = (kid, pub') ∷ []
put_key kid pub' ((k, key) ∷ keys) =
    let later = (k, key) ∷ put_key kid pub' keys in if k == kid then (kid, pub') ∷ keys else later

abbrev put_parsed : GoString → Result PublicKey → KeyMap → KeyMap
put_parsed kid (ok pub') keys = put_key kid pub' keys
put_parsed kid (err e) keys = keys

abbrev pub put_jwk : Jwk → KeyMap → KeyMap
put_jwk k keys =
    if not (k.kty == bytes "RSA")
    then keys
    else put_parsed k.kid (parse_rsa_public_key k.n k.e) keys

-- The loop of refresh over the keys of the document.
unfoldable pub put_all : List Jwk → KeyMap → KeyMap
put_all [] keys = keys
put_all (k ∷ ks) keys = put_all ks (put_jwk k keys)

abbrev pub known_or_error : Option PublicKey → Result PublicKey
known_or_error (some key) = ok key
known_or_error none = err (external "unknown key id")

-- `fetch` is the GET of a URL with the decoding of the answer.
module _ {W : Type 0} (fetch : GoString → W → Result (List Jwk) × W) (now : W → Time × W) where
  abbrev pub refreshed : JwksCache → Result (List Jwk) × W → Result (Unit {0}) × (JwksCache × W)
  refreshed c (err e, w) = (err e, (c, w))
  refreshed c (ok ks, w) =
      let (t, w') = now w in (ok tt, (record { keys = put_all ks c.keys; last_refresh = t }, w'))

  unfoldable pub refresh : (url : GoString) → JwksCache × W → Result (Unit {0}) × (JwksCache × W)
  refresh url (c, w) = refreshed c (fetch url w)

  -- The second look after a refresh.
  abbrev pub retried :
      (kid : GoString) → Result (Unit {0}) × (JwksCache × W) → Result PublicKey × (JwksCache × W)
  retried kid (err e, st) = (err e, st)
  retried kid (ok u, (c, w)) = (known_or_error (find_key kid c.keys), (c, w))

  abbrev pub get_known :
      Option PublicKey → (kid url : GoString) → JwksCache × W → Result PublicKey × (JwksCache × W)
  get_known (some key) kid url st = (ok key, st)
  get_known none kid url st = retried kid (refresh url st)

  unfoldable pub get : (kid url : GoString) → JwksCache × W → Result PublicKey × (JwksCache × W)
  get kid url (c, w) = get_known (find_key kid c.keys) kid url (c, w)
