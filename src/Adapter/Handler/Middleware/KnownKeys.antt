-- ===== src/Adapter/Handler/Middleware/KnownKeys.antt =====
-- How the cache of keys answers (jwksCache of internal/adapter/handler/middleware/auth.go).
use be_modami_chat_service.Prelude.{
  ◌≡◌, refl, ap, ◌∙◌, ◌⊎◌, inl, inr, List, [], ◌∷◌, Option, none, some, if◌then◌else◌, Time, arith,
  Bool-cases, Option-cases,
}
use be_modami_chat_service.Text.{GoString, bytes, ◌==◌}
use be_modami_chat_service.Text.Laws.{eq_iff}
use be_modami_chat_service.Result.{Result, ok, err, Result-cases}
use be_modami_chat_service.Adapter.Handler.Middleware.Keys.{PublicKey, parse_rsa_public_key}
use be_modami_chat_service.Adapter.Handler.Middleware.Jwks.{
  Jwk, JwksCache, KeyMap, find_key, put_key, put_jwk, put_all, refreshed, refresh, known_or_error,
  retried, get,
}

find-put_key :
    (kid k : GoString) (key : PublicKey) (keys : KeyMap)
    → find_key k (put_key kid key keys) ≡ (if kid == k then some key else find_key k keys)
unfolding find_key put_key
find-put_key kid k key [] = refl
find-put_key kid k key ((j, old) ∷ keys) =
    ground (arith, eq_iff j kid, eq_iff j k, eq_iff kid k, find-put_key kid k key keys)

-- The key that a document has for an id: that of the last RSA entry that parses.
abbrev entry_key : Jwk → Option PublicKey
entry_key k =
    if k.kty == bytes "RSA"
    then elim (parse_rsa_public_key k.n k.e) [ ok key ↦ some key | err e ↦ none ]
    else none

abbrev pub or_else : Option PublicKey → Option PublicKey → Option PublicKey
or_else (some key) old = some key
or_else none old = old

unfoldable pub document_key : GoString → List Jwk → Option PublicKey
document_key kid [] = none
document_key kid (k ∷ ks) =
    or_else (document_key kid ks) (if k.kid == kid then entry_key k else none)

find-put_jwk :
    (kid : GoString) (k : Jwk) (keys : KeyMap)
    → find_key kid (put_jwk k keys)
      ≡ or_else (if k.kid == kid then entry_key k else none) (find_key kid keys)
find-put_jwk kid k keys = elim (Bool-cases (k.kty == bytes "RSA")) [
  | inr other ↦
      rw other
        (elim (Bool-cases (k.kid == kid)) [ inl same ↦ rw same refl | inr unlike ↦ rw unlike refl ])
  | inl rsa ↦ rw rsa (elim (Result-cases (parse_rsa_public_key k.n k.e)) [
    | inl (key, parsed) ↦ rw parsed (find-put_key k.kid kid key keys ∙ ground arith)
    | inr (e, bad) ↦ rw bad (ground arith)
  ])
]

or_else_assoc : (a b c : Option PublicKey) → or_else a (or_else b c) ≡ or_else (or_else a b) c
or_else_assoc none b c = refl
or_else_assoc (some key) b c = refl

find-put_all :
    (kid : GoString) (ks : List Jwk) (keys : KeyMap)
    → find_key kid (put_all ks keys) ≡ or_else (document_key kid ks) (find_key kid keys)
unfolding put_all document_key
find-put_all kid [] keys = refl
find-put_all kid (k ∷ ks) keys =
    find-put_all kid ks (put_jwk k keys)
    ∙ ap (or_else (document_key kid ks)) (find-put_jwk kid k keys)
    ∙ or_else_assoc (document_key kid ks) (if k.kid == kid then entry_key k else none)
        (find_key kid keys)

module _ {W : Type 0} (fetch : GoString → W → Result (List Jwk) × W) (now : W → Time × W) where
  -- What a look for a key that is not known does with the outcome of its one fetch.
  abbrev pub Fetched :
      (kid : GoString)
      → JwksCache
      → Result (List Jwk) × W
      → Result PublicKey × (JwksCache × W)
      → Type 0
  Fetched kid c (err e, w₁) r = r ≡ (err e, (c, w₁))
  Fetched kid c (ok ks, w₁) r =
      (r.0 ≡ known_or_error (document_key kid ks))
      × (r.1.1 ≡ (now w₁).1)
      × ((k : GoString) → find_key k r.1.0.keys ≡ or_else (document_key k ks) (find_key k c.keys))

  known_after :
      (kid : GoString) (ks : List Jwk) (keys : KeyMap)
      → find_key kid keys ≡ none
      → find_key kid (put_all ks keys) ≡ document_key kid ks
  known_after kid ks keys absent =
      find-put_all kid ks keys
      ∙ ap (or_else (document_key kid ks)) absent
      ∙ or_else-none (document_key kid ks)
    where
      or_else-none : (o : Option PublicKey) → or_else o none ≡ o
      or_else-none none = refl
      or_else-none (some key) = refl

  fetched :
      (kid : GoString) (c : JwksCache)
      → find_key kid c.keys ≡ none
      → (r : Result (List Jwk) × W)
      → Fetched kid c r (retried fetch now kid (refreshed fetch now c r))
  fetched kid c absent (err e, w₁) = refl
  fetched kid c absent (ok ks, w₁) =
      (ap known_or_error (known_after kid ks c.keys absent), refl, λ k. find-put_all k ks c.keys)

  -- How the key of an id is found. A key that the cache has is answered from it, with no fetch and no
  -- change. Otherwise the document is fetched once: an error of the fetch is passed on and nothing is
  -- changed; else the answer is the last RSA entry with that id that parses, or an error where the
  -- document has none, and afterwards every id has its key of the document, or else the key that it
  -- had, so that no key is ever forgotten.
  pub get_ends :
      (kid url : GoString) (c : JwksCache) (w : W)
      → ((key : PublicKey) × (find_key kid c.keys ≡ some key)
          × (get fetch now kid url (c, w) ≡ (ok key, (c, w))))
        ⊎ ((find_key kid c.keys ≡ none)
            × Fetched kid c (fetch url w) (get fetch now kid url (c, w)))
  unfolding get refresh
  get_ends kid url c w = elim (Option-cases (find_key kid c.keys)) [
    | inl absent ↦ inr (absent, rw (absent, get) (fetched kid c absent (fetch url w)))
    | inr (key, known) ↦ inl (key, known, rw (known, get) refl)
  ]

  known_of :
      (kid : GoString) (c : JwksCache) (o : Option PublicKey) (w' : W) (st' : JwksCache × W)
      (key : PublicKey)
      → find_key kid c.keys ≡ o
      → ◌≡◌ {A = Result PublicKey × (JwksCache × W)} (known_or_error o, (c, w')) (ok key, st')
      → find_key kid st'.0.keys ≡ some key
  known_of kid c none w' st' key known eq = cc
  known_of kid c (some k) w' st' key known eq = ground arith

  known_retried :
      (kid : GoString) (c : JwksCache) (r : Result (List Jwk) × W) (st' : JwksCache × W)
      (key : PublicKey)
      → retried fetch now kid (refreshed fetch now c r) ≡ (ok key, st')
      → find_key kid st'.0.keys ≡ some key
  known_retried kid c (err e, w₁) st' key eq = cc
  known_retried kid c (ok ks, w₁) st' key eq =
      known_of kid (record { keys = put_all ks c.keys; last_refresh = (now w₁).0 }) _ (now w₁).1 st'
        key refl eq

  pub get_known :
      (kid url : GoString) (st st' : JwksCache × W) (key : PublicKey)
      → get fetch now kid url st ≡ (ok key, st')
      → find_key kid st'.0.keys ≡ some key
  unfolding get refresh
  get_known kid url (c, w) st' key eq = elim (Option-cases (find_key kid c.keys)) [
    | inl absent ↦ known_retried kid c (fetch url w) st' key (rw (absent, get) at eq)
    | inr (k, known) ↦ known_of kid c (some k) w st' key known (rw (known, get) at eq)
  ]
