-- ===== src/Adapter/Handler/Proxy.antt =====
-- internal/adapter/handler/centrifugo_proxy.go
use be_modami_chat_service.Prelude.{
  ℕ, ◌≡◌, refl, String, Bool, true, false, ◌&&◌, [], ◌∷◌, ◌++◌, Option, none, some, eqb,
  if◌then◌else◌, length, drop, any, arith, Bool-cases, inl, inr,
}
use be_modami_chat_service.Text.{GoString, bytes, is_empty}
use be_modami_chat_service.Result.{Result, ok, err, Result-cases}
use be_modami_chat_service.Domain.Message.{Message, message_type_text}
use be_modami_chat_service.Domain.Conversation.{Conversation, has_member}
use be_modami_chat_service.Service.Defs.{ChatService}
use be_modami_chat_service.Service.ChatService.{get_conversation}
use be_modami_chat_service.Service.SendMessage.{SendMessageCommand, send_message}
use be_modami_chat_service.Service.SendMessage.Broadcast.{send_stores_first}
use be_modami_chat_service.Service.Rules.{Ends}
use be_modami_chat_service.Service.Traced.{
  traced, Traced, Untouched, is_unread, stores_first, stores_message,
}

-- The fields of the requests that the callbacks read.
pub record ProxySubscribeRequest : Type 0 where
  pub user : GoString
  pub channel : GoString

pub record ProxyPublishRequest : Type 0 where
  pub user : GoString
  pub channel : GoString
  pub data' : GoString

-- The payload of a publication.
pub record Payload : Type 0 where
  pub type : GoString
  pub text : GoString

-- An empty result, or an error with its code.
pub data ProxyResponse : Type 0 where
  accepted : ProxyResponse
  refused : (code : ℕ) → (message : String) → ProxyResponse

abbrev pub proxy_error_forbidden : ℕ
proxy_error_forbidden = 403

abbrev pub proxy_error_internal : ℕ
proxy_error_internal = 500

-- strings.HasPrefix and strings.TrimPrefix
unfoldable pub has_prefix : (prefix' s : GoString) → Bool
has_prefix [] s = true
has_prefix (x ∷ p) [] = false
has_prefix (x ∷ p) (y ∷ s) = eqb x y && has_prefix p s

abbrev pub trim_prefix : (prefix' s : GoString) → GoString
trim_prefix p s = if has_prefix p s then drop (length p) s else s

abbrev pub room : GoString
room = bytes "chat:room:"

abbrev pub subscribed : Result Conversation → ProxyResponse
subscribed (ok conv) = accepted
subscribed (err e) = refused proxy_error_forbidden "not a member"

abbrev pub published : Result Message → ProxyResponse
published (ok msg) = accepted
published (err e) = refused proxy_error_internal "failed to send message"

abbrev pub command : (user conv_id : GoString) → Payload → SendMessageCommand
command user conv_id payload = record {
  conversation_id = conv_id;
  sender_id = user;
  type = if is_empty payload.type then message_type_text else payload.type;
  content = record { text = payload.text; mentions = [] };
  media = none;
  reply_to = none;
  forwarded_from = none;
}

-- A request is `none` where its body does not decode; `decode` is json.Unmarshal of a payload.
module _ {W : Type 0} (s : ChatService W) (decode : GoString → Result Payload) where
  unfoldable pub handle_subscribe : Option ProxySubscribeRequest → W → ProxyResponse × W
  handle_subscribe none w = (refused proxy_error_internal "invalid request", w)
  handle_subscribe (some req) w =
      if has_prefix room req.channel
      then (let (r, w') = get_conversation s (trim_prefix room req.channel) req.user w in
          (subscribed r, w'))
      else (refused proxy_error_forbidden "unknown channel", w)

  abbrev pub publish_payload : ProxyPublishRequest → Result Payload → W → ProxyResponse × W
  publish_payload req (err e) w = (refused proxy_error_internal "invalid payload", w)
  publish_payload req (ok payload) w =
      let (r, w') = send_message s (command req.user (trim_prefix room req.channel) payload) w in
      (published r, w')

  unfoldable pub handle_publish : Option ProxyPublishRequest → W → ProxyResponse × W
  handle_publish none w = (refused proxy_error_internal "invalid request", w)
  handle_publish (some req) w =
      if has_prefix room req.channel
      then publish_payload req (decode req.data') w
      else (refused proxy_error_forbidden "unknown channel", w)

has_prefix-append : (p s : GoString) → has_prefix p (p ++ s) ≡ true
unfolding has_prefix
has_prefix-append [] s = refl
has_prefix-append (x ∷ p) s = ground (arith, has_prefix-append p s)

drop-append : (p s : GoString) → drop (length p) (p ++ s) ≡ s
drop-append [] s = refl
drop-append (x ∷ p) s = drop-append p s

-- How a callback ends that may send a message: what its trace shows.
abbrev pub Answered : {W : Type 0} → ProxyResponse × Traced W → Type 0
Answered (accepted, (w, t)) = (stores_first t ≡ true) × (any stores_message t ≡ true)
Answered (refused code message, (w, t)) = Untouched t × (any is_unread t ≡ false)

module _ {W : Type 0} (s : ChatService W) (decode : GoString → Result Payload) where
  -- A subscription to the channel of a conversation that is found is accepted exactly for its
  -- members.
  subscribe_to_room :
      (conv_id user : GoString) (w w₁ : W) (conv : Conversation)
      → s.conv_repo.find_by_id conv_id w ≡ (ok conv, w₁)
      → handle_subscribe s decode (some (record { user = user; channel = room ++ conv_id })) w ≡ (
        if has_member conv user then accepted else refused proxy_error_forbidden "not a member",
        w₁,
      )
  unfolding handle_subscribe get_conversation
  subscribe_to_room conv_id user w w₁ conv found =
      rw (has_prefix-append room conv_id, handle_subscribe)
        (rw (drop-append room conv_id) (elim (Bool-cases (has_member conv user)) [
          | inl member ↦ rw (found, get_conversation) (rw member refl)
          | inr outsider ↦ rw (found, get_conversation) (rw outsider refl)
        ]))

  answered :
      (r : Result Message × Traced W)
      → Ends
          (λ msg (w, t). (stores_first t ≡ true) × (any stores_message t ≡ true))
          (λ e (w, t). Untouched t × (any is_unread t ≡ false))
          r
      → Answered (published r.0, r.1)
  answered (ok msg, (w, t)) h = h
  answered (err e, (w, t)) h = h

  -- A publication through the proxy, whatever its body, is accepted only after a message was stored,
  -- and every other write, broadcast or change of an unread count comes after that. Where it is refused
  -- no write to the database was tried but by the very last call, which failed (what the repository may
  -- have written before it failed is the repository's), nothing was broadcast and no unread count was
  -- changed; the rate limiter may have counted the attempt.
  pub publish_ends :
      (req : Option ProxyPublishRequest) (w : W)
      → Answered (handle_publish (traced s) decode req (w, []))
  unfolding handle_publish
  publish_ends none w = ((refl, refl), refl)
  publish_ends (some req) w = elim (Bool-cases (has_prefix room req.channel)) [
    | inr elsewhere ↦ rw elsewhere ((refl, refl), refl)
    | inl here ↦ rw here (elim (Result-cases (decode req.data')) [
      | inr (e, bad) ↦ rw bad ((refl, refl), refl)
      | inl (payload, good) ↦
          let cmd = command req.user (trim_prefix room req.channel) payload in
          rw good (answered (send_message (traced s) cmd (w, [])) (send_stores_first s cmd w))
    ])
  ]
