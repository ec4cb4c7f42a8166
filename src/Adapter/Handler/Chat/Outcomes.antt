-- ===== src/Adapter/Handler/Chat/Outcomes.antt =====
-- What the handlers have done when they answer without success.
use be_modami_chat_service.Prelude.{
  ◌≡◌, refl, Bool, true, false, not, ◌&&◌, ◌||◌, List, [], ◌∷◌, any, arith, some, none,
}
use be_modami_chat_service.Result.{Result, ok, err}
use be_modami_chat_service.Service.Defs.{ChatService}
use be_modami_chat_service.Service.Traced.{
  Entry, Traced, traced, is_write, is_broadcast, is_unread, is_presence, stops_at_write,
}
use be_modami_chat_service.Service.SendMessage.Broadcast.{send_message_fails}
use be_modami_chat_service.Service.Failures.{
  FailsSafely, get_messages_fails, get_conversations_fails, get_conversation_fails,
  mark_as_read_fails, edit_message_fails, delete_message_fails, add_reaction_fails,
  remove_reaction_fails, get_unread_counts_fails,
}
use be_modami_chat_service.Service.Failures.Rosters.{
  create_direct_chat_fails, create_group_fails, add_participant_fails, remove_participant_fails,
  handle_typing_writes,
}
use be_modami_chat_service.Adapter.Handler.Paging.{TimeText}
use be_modami_chat_service.Adapter.Handler.Requests.{HttpRequest, parse_page_request, command_of}
use be_modami_chat_service.Adapter.Handler.Chat.{
  Reply, ok_with, created, no_content, bad_request, failed, reply_by, respond, Endpoint, serve,
}
use be_modami_chat_service.Adapter.Handler.Chat

abbrev pub is_success : Reply → Bool
is_success (ok_with b) = true
is_success (created b) = true
is_success no_content = true
is_success (bad_request text) = false
is_success (failed a) = false

-- HandleTyping sets who types and tells the conversation, and may report that this failed.
abbrev pub may_type : Endpoint → Bool
may_type (Chat.handle_typing_at body) = true
may_type e = false

-- At most the last call was a write to the database, which failed, and no unread count was changed; if
-- `b` is false nothing was broadcast and no presence changed, and else no write was tried.
abbrev pub Quiet : Bool → List Entry → Type 0
Quiet b t =
    (stops_at_write t ≡ true)
    × (any is_unread t ≡ false)
    × ((not b && (any is_broadcast t || any is_presence t)) ≡ false)
    × ((b && any is_write t) ≡ false)

fails-Quiet :
    {W A : Type 0} (f : A → Reply)
    → ((a : A) → is_success (f a) ≡ true)
    → (r : Result A × Traced W) → FailsSafely r
    → is_success (reply_by f r.0) ≡ false
    → Quiet false r.1.1
fails-Quiet f succeeds (ok a, w) h refused = cc (succeeds a)
fails-Quiet f succeeds (err e, (w, t)) h refused = (h.0.0, h.1, ground arith, refl)

-- Where no write was tried, none succeeded.
stops_at_write_of_none : (t : List Entry) → any is_write t ≡ false → stops_at_write t ≡ true
stops_at_write_of_none [] h = refl
stops_at_write_of_none (e ∷ t) h = ground arith

module _ {W : Type 0} (s : ChatService W) (t : TimeText) where
  -- A request that is not answered with success, whatever the reason and whichever of the fifteen
  -- handlers it reaches, has stopped at the first write: no write to the database was tried but by the
  -- very last call, which failed (what the repository may have written before it failed is the
  -- repository's), and no unread count was changed. It has broadcast nothing and changed no presence
  -- either, unless it is a typing indicator, which writes nothing to the database at all.
  pub failure_stops_at_write :
      (e : Endpoint) (r : HttpRequest) (w : W)
      → is_success (serve (traced s) t e r (w, [])).0 ≡ false
      → Quiet (may_type e) (serve (traced s) t e r (w, [])).1.1
  unfolding serve Chat.list_conversations Chat.get_conversation Chat.create_direct_chat
      Chat.create_group Chat.get_messages Chat.send_message Chat.mark_as_read Chat.handle_typing
      Chat.add_participant Chat.remove_participant Chat.edit_message Chat.delete_message
      Chat.add_reaction Chat.remove_reaction Chat.get_unread_counts
  failure_stops_at_write Chat.list_conversations_at r w refused =
      fails-Quiet _ (λ a. refl) _ (get_conversations_fails s r.user_id (parse_page_request t r) w)
        refused
  failure_stops_at_write Chat.get_conversation_at r w refused =
      fails-Quiet _ (λ a. refl) _
        (get_conversation_fails s (r.url_param "conversationID") r.user_id w) refused
  failure_stops_at_write (Chat.create_direct_chat_at none) r w refused = (refl, refl, refl, refl)
  failure_stops_at_write (Chat.create_direct_chat_at (some req)) r w refused =
      fails-Quiet _ (λ a. refl) _
        (create_direct_chat_fails s (record { user_id1 = r.user_id; user_id2 = req.user_id }) w)
        refused
  failure_stops_at_write (Chat.create_group_at none) r w refused = (refl, refl, refl, refl)
  failure_stops_at_write (Chat.create_group_at (some req)) r w refused =
      fails-Quiet _ (λ a. refl) _
        (create_group_fails s
          (record { name = req.name; created_by = r.user_id; member_ids = req.member_ids }) w)
        refused
  failure_stops_at_write Chat.get_messages_at r w refused =
      fails-Quiet _ (λ a. refl) _
        (get_messages_fails s (r.url_param "conversationID") r.user_id (parse_page_request t r) w)
        refused
  failure_stops_at_write (Chat.send_message_at none) r w refused = (refl, refl, refl, refl)
  failure_stops_at_write (Chat.send_message_at (some req)) r w refused =
      fails-Quiet _ (λ a. refl) _
        (send_message_fails s (command_of (r.url_param "conversationID") r.user_id req) w) refused
  failure_stops_at_write (Chat.mark_as_read_at none) r w refused = (refl, refl, refl, refl)
  failure_stops_at_write (Chat.mark_as_read_at (some req)) r w refused =
      fails-Quiet _ (λ a. refl) _
        (mark_as_read_fails s (r.url_param "conversationID") r.user_id req.message_id w) refused
  failure_stops_at_write (Chat.handle_typing_at none) r w refused = (refl, refl, refl, refl)
  failure_stops_at_write (Chat.handle_typing_at (some req)) r w refused =
      let (a, b) = handle_typing_writes s (r.url_param "conversationID") r.user_id req.typing w in
      let trace = (serve (traced s) t (Chat.handle_typing_at (some req)) r (w, [])).1.1 in
      (stops_at_write_of_none trace a, b, refl, a)
  failure_stops_at_write (Chat.add_participant_at none) r w refused = (refl, refl, refl, refl)
  failure_stops_at_write (Chat.add_participant_at (some req)) r w refused =
      fails-Quiet _ (λ a. refl) _
        (add_participant_fails s (r.url_param "conversationID") r.user_id req.user_id w) refused
  failure_stops_at_write Chat.remove_participant_at r w refused =
      fails-Quiet _ (λ a. refl) _
        (remove_participant_fails s (r.url_param "conversationID") r.user_id (r.url_param "userID")
          w)
        refused
  failure_stops_at_write (Chat.edit_message_at none) r w refused = (refl, refl, refl, refl)
  failure_stops_at_write (Chat.edit_message_at (some req)) r w refused =
      fails-Quiet _ (λ a. refl) _
        (edit_message_fails s (r.url_param "messageID") r.user_id req.text w) refused
  failure_stops_at_write Chat.delete_message_at r w refused =
      fails-Quiet _ (λ a. refl) _ (delete_message_fails s (r.url_param "messageID") r.user_id w)
        refused
  failure_stops_at_write (Chat.add_reaction_at none) r w refused = (refl, refl, refl, refl)
  failure_stops_at_write (Chat.add_reaction_at (some req)) r w refused =
      fails-Quiet _ (λ a. refl) _
        (add_reaction_fails s (r.url_param "messageID") r.user_id req.emoji w) refused
  failure_stops_at_write Chat.remove_reaction_at r w refused =
      fails-Quiet _ (λ a. refl) _
        (remove_reaction_fails s (r.url_param "messageID") r.user_id (r.url_param "emoji") w)
        refused
  failure_stops_at_write Chat.get_unread_counts_at r w refused =
      fails-Quiet _ (λ a. refl) _ (get_unread_counts_fails s r.user_id w) refused
