-- ===== src/Adapter/Handler/Middleware/Access.antt =====
-- Who gets through the middleware.
use be_modami_chat_service.Prelude.{
  ◌≡◌, sym, ap, inl, inr, true, false, List, [], ◌∷◌, ◌++◌, some, eqb, Time, arith, Bool-cases,
  Option-cases,
}
use be_modami_chat_service.Text.{GoString, is_empty}
use be_modami_chat_service.Result.{Error, Result, ok, err}
use be_modami_chat_service.Exec.{run-cases}
use be_modami_chat_service.Adapter.Handler.Errors.{Answer}
use be_modami_chat_service.Adapter.Handler.Middleware.Claims.{Claims, sub_of}
use be_modami_chat_service.Adapter.Handler.Middleware.Keys.{PublicKey}
use be_modami_chat_service.Adapter.Handler.Middleware.Jwks.{Jwk, JwksCache, find_key}
use be_modami_chat_service.Adapter.Handler.Middleware.Auth.{
  Context, Verdict, denied, passed, TokenHeader, Jwt, split_space, is_bearer, enter, key_func,
  parse, authenticate, context_of,
}
use be_modami_chat_service.Adapter.Handler.Middleware.KnownKeys.{get_known}

split_space-parts :
    (raw : GoString) (parts : GoString × GoString)
    → split_space raw ≡ some parts
    → raw ≡ parts.0 ++ 32 ∷ parts.1
unfolding split_space
split_space-parts [] parts eq = cc
split_space-parts (c ∷ s) parts eq = elim (Bool-cases (eqb c 32)) [
  | inl space ↦ ground arith
  | inr other ↦ elim (Option-cases (split_space s)) [
    | inl none' ↦ cc
    | inr (later, found) ↦ ground (arith, split_space-parts s later found)
  ]
]

module _ {W : Type 0} (fetch : GoString → W → Result (List Jwk) × W) (now : W → Time × W) where
  module _ (jwt : Jwt (JwksCache × W)) (jwks_url : GoString)
      (Signed : GoString → PublicKey → Claims → Type 0)
      (verifies : (token : GoString)
          (f : TokenHeader → JwksCache × W → Result PublicKey × (JwksCache × W))
          (st st' : JwksCache × W) (claims : Claims)
        → jwt.parse_with_claims token f st ≡ (ok claims, st')
        → (h : TokenHeader) × (key : PublicKey) × (f h st ≡ (ok key, st'))
          × Signed token key claims) where
    -- What stands behind a request that got through, with the state `st'` that it leaves: a token
    -- behind a Bearer scheme, whose header names an RSA method and a key that the cache then has,
    -- whose claims are signed with that key, and whose subject is the user of the request.
    abbrev pub Entered : (raw : GoString) → Context → JwksCache × W → Type 0
    Entered raw ctx st' =
        (scheme : GoString) × (token : GoString) × (claims : Claims) × (key : PublicKey)
        × (h : TokenHeader) × (raw ≡ scheme ++ 32 ∷ token)
        × (is_bearer scheme ≡ true)
        × (h.rsa ≡ true)
        × Signed token key claims
        × (find_key h.kid st'.0.keys ≡ some key)
        × (ctx ≡ context_of claims)
        × (is_empty (sub_of claims) ≡ false)

    refused :
        {e : Error} {key : PublicKey} {st' : JwksCache × W} (st : JwksCache × W)
        → ◌≡◌ {A = Result PublicKey × (JwksCache × W)} (err e, st) (ok key, st')
        → ⊥
    refused st eq = cc

    signed_by :
        (token : GoString) (st st' : JwksCache × W) (claims : Claims)
        → jwt.parse_with_claims token (key_func fetch now jwt jwks_url) st ≡ (ok claims, st')
        → (key : PublicKey) × (h : TokenHeader) × (h.rsa ≡ true)
          × Signed token key claims
          × (find_key h.kid st'.0.keys ≡ some key)
    unfolding key_func
    signed_by token st st' claims eq =
        let (h, key, answer, signed) =
          verifies token (key_func fetch now jwt jwks_url) st st' claims eq in
        elim (Bool-cases h.rsa) [
          | inl rsa ↦ (
            key,
            h,
            rsa,
            signed,
            get_known fetch now h.kid jwks_url st st' key (rw rsa at answer),
          )
          | inr other ↦ absurd (refused st (rw (other, key_func) at answer))
        ]

    denied_passed :
        {a : Answer} {ctx : Context} {st' : JwksCache × W} (st : JwksCache × W)
        → ◌≡◌ {A = Verdict × (JwksCache × W)} (denied a, st) (passed ctx, st')
        → ⊥
    denied_passed st h = cc

    same_passed :
        (c ctx : Context) (st st' : JwksCache × W)
        → ◌≡◌ {A = Verdict × (JwksCache × W)} (passed c, st) (passed ctx, st')
        → (ctx ≡ c) × (st ≡ st')
    same_passed c ctx st st' h = (ap passed_or (ap (λ p. p.0) (sym h)), ap (λ p. p.1) h)
      where
        passed_or : Verdict → Context
        passed_or (passed x) = x
        passed_or (denied a) = c

    entered_ok :
        (claims : Claims) (st st' : JwksCache × W) (ctx : Context)
        → enter fetch now jwt jwks_url (ok claims, st) ≡ (passed ctx, st')
        → (ctx ≡ context_of claims) × (is_empty (sub_of claims) ≡ false) × (st ≡ st')
    entered_ok claims st st' ctx eq = elim (Bool-cases (is_empty (sub_of claims))) [
      | inl nobody ↦ absurd (denied_passed st (rw nobody at eq))
      | inr somebody ↦
          let (same, end') = same_passed (context_of claims) ctx st st' (rw somebody at eq) in
          (same, somebody, end')
    ]

    entered :
        (raw scheme token : GoString) (st st' : JwksCache × W) (ctx : Context)
        → raw ≡ scheme ++ 32 ∷ token
        → is_bearer scheme ≡ true
        → is_empty jwks_url ≡ false
        → enter fetch now jwt jwks_url (parse fetch now jwt jwks_url token st) ≡ (passed ctx, st')
        → Entered raw ctx st'
    unfolding parse
    entered raw scheme token st st' ctx split bearer signed eq =
        elim (run-cases (jwt.parse_with_claims token (key_func fetch now jwt jwks_url) st)) [
          | inr (e, st₁, bad) ↦ absurd (denied_passed st₁ (rw (signed, bad) at eq))
          | inl (claims, st₁, good) ↦
              let (key, h, rsa, checked, known) = signed_by token st st₁ claims good in
              let (same, somebody, end') =
                entered_ok claims st₁ st' ctx (rw (signed, good) at eq) in
              (
                scheme,
                token,
                claims,
                key,
                h,
                split,
                bearer,
                rsa,
                checked,
                rw (← end') known,
                same,
                somebody,
              )
        ]

    -- Whom the middleware lets through, where a URL for the keys is given: the header holds a Bearer
    -- scheme, in any case of its letters, and behind the first space a token that names an RSA method
    -- and an id of a key that the cache then has, with which its claims are signed; the subject of the
    -- claims is not empty, and the request gets it as its user, with the role and the permissions of
    -- the claims: if the library accepts only claims that are signed with the key that it was given.
    pub authenticate_passes :
        (raw : GoString) (st st' : JwksCache × W) (ctx : Context)
        → is_empty jwks_url ≡ false
        → authenticate fetch now jwt jwks_url raw st ≡ (passed ctx, st')
        → Entered raw ctx st'
    unfolding authenticate
    authenticate_passes raw st st' ctx signed eq = elim (Bool-cases (is_empty raw)) [
      | inl nothing ↦ absurd (denied_passed st (rw nothing at eq))
      | inr header ↦ elim (Option-cases (split_space raw)) [
        | inl one ↦ absurd (denied_passed st (rw (header, one) at eq))
        | inr (parts, two) ↦ elim (Bool-cases (is_bearer parts.0)) [
          | inr other ↦ absurd (denied_passed st (rw (header, two, other) at eq))
          | inl scheme ↦
              entered raw parts.0 parts.1 st st' ctx (split_space-parts raw parts two) scheme signed
                (rw (header, two, scheme) at eq)
        ]
      ]
    ]
