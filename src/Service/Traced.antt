-- ===== src/Service/Traced.antt =====
-- A service whose adapters keep a trace of the calls that they get: the instrument by which the
-- order of the service's effects is stated.
use be_modami_chat_service.Prelude.{
  ◌≡◌, ◌⊎◌, String, Bool, true, false, ◌&&◌, ◌||◌, not, List, [], ◌∷◌, any, Time,
}
use be_modami_chat_service.Text.{GoString, ◌==◌}
use be_modami_chat_service.Exec.{Exec}
use be_modami_chat_service.Result.{Result, is_ok}
use be_modami_chat_service.Port.{EventData}
use be_modami_chat_service.Domain.Message.{Message}
use be_modami_chat_service.Domain.Conversation.{Conversation, Participant, LastMessage}
use be_modami_chat_service.Service.Defs.{ChatService}

pub data KafkaEvent : Type 0 where
  message_sent message_updated : Message → KafkaEvent
  message_deleted : (conversation_id message_id sender_id : GoString) → KafkaEvent
  read_receipt : (conversation_id user_id message_id : GoString) → KafkaEvent
  reaction_added reaction_removed :
      (conversation_id message_id emoji user_id : GoString) → KafkaEvent

-- A call of a port; those that only read are one.
pub data Call : Type 0 where
  create_message update_message : Message → Call
  add_reaction remove_reaction : (message_id emoji user_id : GoString) → Call
  create_conversation update_conversation : Conversation → Call
  update_last_message : (conversation_id : GoString) → LastMessage → Call
  update_read_cursor : (conversation_id user_id message_id : GoString) → Time → Call
  add_participant : (conversation_id : GoString) → Participant → Call
  remove_participant : (conversation_id user_id : GoString) → Call
  kafka : KafkaEvent → Call
  realtime : (conversation_id : GoString) → String → EventData → Call
  realtime_to_user : (user_id : GoString) → String → EventData → Call
  increment_unread clear_unread : (user_id conversation_id : GoString) → Call
  set_online set_offline : GoString → Call
  set_typing clear_typing : (conversation_id user_id : GoString) → Call
  allow_message : GoString → Call
  read : Call

pub record Entry : Type 0 where
  pub call : Call
  pub succeeded : Bool

-- The trace has the latest call first.
abbrev pub Traced : Type 0 → Type 0
Traced W = W × List Entry

module _ {W A : Type 0} where
  abbrev pub note : Call → List Entry → Result A × W → Result A × Traced W
  note c t (r, w) = (r, (w, record { call = c; succeeded = is_ok r } ∷ t))

  abbrev pub logged : Call → Exec W A → Exec (Traced W) A
  logged c m (w, t) = note c t (m w)

  abbrev pub quiet : (W → A × W) → Traced W → A × Traced W
  quiet f (w, t) = let (a, w') = f w in (a, (w', t))

abbrev pub traced : {W : Type 0} → ChatService W → ChatService (Traced W)
traced s = record {
  msg_repo = record {
    create = λ m. logged (create_message m) (s.msg_repo.create m);
    find_by_id = λ id. logged read (s.msg_repo.find_by_id id);
    find_by_conversation = λ id page. logged read (s.msg_repo.find_by_conversation id page);
    update = λ m. logged (update_message m) (s.msg_repo.update m);
    add_reaction = λ m e u. logged (add_reaction m e u) (s.msg_repo.add_reaction m e u);
    remove_reaction = λ m e u. logged (remove_reaction m e u) (s.msg_repo.remove_reaction m e u);
  };
  conv_repo = record {
    create = λ c. logged (create_conversation c) (s.conv_repo.create c);
    find_by_id = λ id. logged read (s.conv_repo.find_by_id id);
    find_by_user = λ u page. logged read (s.conv_repo.find_by_user u page);
    find_direct_chat = λ a b. logged read (s.conv_repo.find_direct_chat a b);
    update = λ c. logged (update_conversation c) (s.conv_repo.update c);
    update_last_message =
        λ id lm. logged (update_last_message id lm) (s.conv_repo.update_last_message id lm);
    update_read_cursor =
        λ c u m at. logged (update_read_cursor c u m at) (s.conv_repo.update_read_cursor c u m at);
    add_participant = λ id p. logged (add_participant id p) (s.conv_repo.add_participant id p);
    remove_participant =
        λ id u. logged (remove_participant id u) (s.conv_repo.remove_participant id u);
  };
  publisher = record {
    publish_message_sent =
        λ m. logged (kafka (message_sent m)) (s.publisher.publish_message_sent m);
    publish_message_updated =
        λ m. logged (kafka (message_updated m)) (s.publisher.publish_message_updated m);
    publish_message_deleted =
        λ c m u. logged (kafka (message_deleted c m u)) (s.publisher.publish_message_deleted c m u);
    publish_read_receipt =
        λ c u m. logged (kafka (read_receipt c u m)) (s.publisher.publish_read_receipt c u m);
    publish_reaction_added = λ c m e u.
        logged (kafka (reaction_added c m e u)) (s.publisher.publish_reaction_added c m e u);
    publish_reaction_removed = λ c m e u.
        logged (kafka (reaction_removed c m e u)) (s.publisher.publish_reaction_removed c m e u);
  };
  realtime = record {
    publish_to_conversation = λ c type data'.
        logged (realtime c type data') (s.realtime.publish_to_conversation c type data');
    publish_to_user = λ u type data'.
        logged (realtime_to_user u type data') (s.realtime.publish_to_user u type data');
  };
  cache = record {
    increment_unread = λ u c. logged (increment_unread u c) (s.cache.increment_unread u c);
    clear_unread = λ u c. logged (clear_unread u c) (s.cache.clear_unread u c);
    get_unread_counts = λ u. logged read (s.cache.get_unread_counts u);
  };
  presence = record {
    set_online = λ u. logged (set_online u) (s.presence.set_online u);
    set_offline = λ u. logged (set_offline u) (s.presence.set_offline u);
    is_online = λ u. logged read (s.presence.is_online u);
    get_online_users = λ us. logged read (s.presence.get_online_users us);
    set_typing = λ c u. logged (set_typing c u) (s.presence.set_typing c u);
    clear_typing = λ c u. logged (clear_typing c u) (s.presence.clear_typing c u);
  };
  rate_limiter = record {
    allow_message = λ u. logged (allow_message u) (s.rate_limiter.allow_message u);
  };
  id_gen = record { new_id = quiet s.id_gen.new_id };
  now = quiet s.now;
}

-- Kafka and Centrifugo: what other services and connected clients get to see.
abbrev pub is_broadcast : Entry → Bool
is_broadcast e = elim e.call [
  | kafka event ↦ true
  | realtime c type event ↦ true
  | realtime_to_user u type event ↦ true
  | _ ↦ false
]

-- A write to the database that succeeded.
abbrev pub is_persisted : Entry → Bool
is_persisted e = elim e.call [
  | create_message m ↦ e.succeeded
  | update_message m ↦ e.succeeded
  | add_reaction m emoji u ↦ e.succeeded
  | remove_reaction m emoji u ↦ e.succeeded
  | update_read_cursor c u m at ↦ e.succeeded
  | _ ↦ false
]

abbrev pub is_increment : (user_id conversation_id : GoString) → Entry → Bool
is_increment user_id conversation_id e = elim e.call [
  | increment_unread u c ↦ u == user_id && c == conversation_id
  | _ ↦ false
]

abbrev pub is_unread : Entry → Bool
is_unread e = elim e.call [ increment_unread u c ↦ true | clear_unread u c ↦ true | _ ↦ false ]

abbrev pub changes_roster : Entry → Bool
changes_roster e = elim e.call [
  | add_participant id p ↦ e.succeeded
  | remove_participant id u ↦ e.succeeded
  | _ ↦ false
]

-- A call that writes to the database, with or without success.
abbrev pub is_write : Entry → Bool
is_write e = elim e.call [
  | create_message m ↦ true
  | update_message m ↦ true
  | add_reaction m emoji u ↦ true
  | remove_reaction m emoji u ↦ true
  | create_conversation c ↦ true
  | update_conversation c ↦ true
  | update_last_message c m ↦ true
  | update_read_cursor c u m at ↦ true
  | add_participant id p ↦ true
  | remove_participant id u ↦ true
  | _ ↦ false
]

abbrev pub is_presence : Entry → Bool
is_presence e = elim e.call [
  | set_online u ↦ true
  | set_offline u ↦ true
  | set_typing c u ↦ true
  | clear_typing c u ↦ true
  | _ ↦ false
]

-- No write has succeeded, and none was tried but by the very last call. What a repository has done in
-- part before it reported an error is not seen here.
abbrev pub stops_at_write : List Entry → Bool
stops_at_write [] = true
stops_at_write (e ∷ t) = not (is_write e && e.succeeded) && not (any is_write t)

-- At most the last call was a write, which failed, and nothing was broadcast.
abbrev pub Untouched : List Entry → Type 0
Untouched t = (stops_at_write t ≡ true) × (any is_broadcast t ≡ false)

-- No unread count and no presence was changed either.
abbrev pub Harmless : List Entry → Type 0
Harmless t = Untouched t × (any is_unread t ≡ false) × (any is_presence t ≡ false)

-- The creation of a message that succeeded.
abbrev pub stores_message : Entry → Bool
stores_message e = elim e.call [ create_message m ↦ e.succeeded | _ ↦ false ]

-- Any other write, a broadcast or a change of an unread count, with or without success.
abbrev pub is_effect : Entry → Bool
is_effect e = is_broadcast e || is_unread e || is_write e && not (stores_message e)

-- Every effect comes after a message was stored.
abbrev pub stores_first : List Entry → Bool
stores_first [] = true
stores_first (e ∷ t) = (not (is_effect e) || any stores_message t) && stores_first t

-- The call was made and succeeded.
abbrev pub Did : Call → List Entry → Type 0
Did c [] = ⊥
Did c (e ∷ t) = (e ≡ record { call = c; succeeded = true }) ⊎ Did c t

-- The call was made, with or without success.
abbrev pub Tried : Call → List Entry → Type 0
Tried c [] = ⊥
Tried c (e ∷ t) = (e.call ≡ c) ⊎ Tried c t

-- Every broadcast comes after a write that succeeded.
abbrev pub persists_first : List Entry → Bool
persists_first [] = true
persists_first (e ∷ t) = (not (is_broadcast e) || any is_persisted t) && persists_first t
