-- ===== src/Tests.antt =====
-- Concrete data, and the theorems at it.
mod Messages
mod Conversations
mod Stores
mod Codecs
mod Service
mod Repositories
mod Caches
mod Handlers
mod Http
mod Auth
mod Kafka
mod Hashes
mod Realtime
mod Polling
use be_modami_chat_service.Prelude.{ℕ, suc, Bool, true, false, List, [], ◌∷◌, none, some}
use be_modami_chat_service.Prelude.Int.{ℤ, pos}
use be_modami_chat_service.Text.{GoString, bytes}
use be_modami_chat_service.Result.{Result, ok, err, sentinel, not_found}
use be_modami_chat_service.Domain.Message.{Message, Reaction, message_type_text}
use be_modami_chat_service.Domain.Conversation.{
  Conversation, Participant, joined, role_admin, role_member, conversation_type_group,
  conversation_type_direct,
}
use be_modami_chat_service.Service.Defs.{ChatService}

abbrev pub ann : GoString
ann = bytes "ann"

abbrev pub bob : GoString
bob = bytes "bob"

abbrev pub cy : GoString
cy = bytes "cy"

abbrev pub thumb : GoString
thumb = bytes "+1"

abbrev pub thumbs : Reaction
thumbs = record { emoji = thumb; user_ids = bob ∷ [] }

abbrev pub hello : Message
hello = record {
  id = bytes "m1";
  conversation_id = bytes "c1";
  sender_id = ann;
  type = message_type_text;
  content = record { text = bytes "hello"; mentions = [] };
  media = none;
  reply_to = none;
  forwarded_from = none;
  reactions = thumbs ∷ [];
  edited = false;
  deleted = false;
  created_at = 5;
}

abbrev pub team : Conversation
team = record {
  id = bytes "c1";
  type = conversation_type_group;
  name = bytes "team";
  avatar_url = [];
  created_by = ann;
  participants = joined ann role_admin 1 ∷ joined bob role_member 1 ∷ [];
  last_message = none;
  settings = record { only_admins_can_send = false };
  created_at = 1;
  updated_at = 1;
}

abbrev pub pair : Conversation
pair = record team { type = conversation_type_direct }

-- A service that finds the message and the conversation under every id, and nobody's direct chat
-- unless `direct` says so; every other call succeeds. The world is the clock.
abbrev pub service : Conversation → Result Conversation → ChatService ℕ
service conv direct = record {
  msg_repo = record {
    create = λ m w. (ok m, suc w);
    find_by_id = λ id w. (ok hello, w);
    find_by_conversation =
        λ id page w. (ok (record { items = hello ∷ []; next_cursor = none; has_more = false }), w);
    update = λ m w. (ok tt, suc w);
    add_reaction = λ m e u w. (ok tt, suc w);
    remove_reaction = λ m e u w. (ok tt, suc w);
  };
  conv_repo = record {
    create = λ c w. (ok tt, suc w);
    find_by_id = λ id w. (ok conv, w);
    find_by_user =
        λ u page w. (ok (record { items = conv ∷ []; next_cursor = none; has_more = false }), w);
    find_direct_chat = λ a b w. (direct, w);
    update = λ c w. (ok tt, suc w);
    update_last_message = λ id lm w. (ok tt, suc w);
    update_read_cursor = λ c u m at' w. (ok tt, suc w);
    add_participant = λ id p w. (ok tt, suc w);
    remove_participant = λ id u w. (ok tt, suc w);
  };
  publisher = record {
    publish_message_sent = λ m w. (ok tt, w);
    publish_message_updated = λ m w. (ok tt, w);
    publish_message_deleted = λ c m u w. (ok tt, w);
    publish_read_receipt = λ c u m w. (ok tt, w);
    publish_reaction_added = λ c m e u w. (ok tt, w);
    publish_reaction_removed = λ c m e u w. (ok tt, w);
  };
  realtime = record {
    publish_to_conversation = λ c type data' w. (ok tt, w);
    publish_to_user = λ u type data' w. (ok tt, w);
  };
  cache = record {
    increment_unread = λ u c w. (ok tt, w);
    clear_unread = λ u c w. (ok tt, w);
    get_unread_counts = λ u w. (ok [], w);
  };
  presence = record {
    set_online = λ u w. (ok tt, w);
    set_offline = λ u w. (ok tt, w);
    is_online = λ u w. (ok true, w);
    get_online_users = λ us w. (ok us, w);
    set_typing = λ c u w. (ok tt, w);
    clear_typing = λ c u w. (ok tt, w);
  };
  rate_limiter = record { allow_message = λ u w. (ok true, w) };
  id_gen = record { new_id = λ w. (bytes "id", suc w) };
  now = λ w. (w, suc w);
}

abbrev pub no_chat : Result Conversation
no_chat = err (sentinel not_found)
