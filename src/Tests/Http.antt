-- ===== src/Tests/Http.antt =====
-- The theorems on the HTTP handlers at concrete data.
use be_modami_chat_service.Prelude.{
  ℕ, ◌≡◌, refl, true, false, [], ◌∷◌, some, none, if◌then◌else◌, arith, All,
}
use be_modami_chat_service.Text.{GoString, bytes, ◌==◌}
use be_modami_chat_service.Domain.Message.{message_type_text}
use be_modami_chat_service.Domain.Conversation.{has_member}
use be_modami_chat_service.Service.ChatService.{edit_message}
use be_modami_chat_service.Service.Rules.{entry}
use be_modami_chat_service.Service.Traced
use be_modami_chat_service.Service.Traced.{Traced, traced}
use be_modami_chat_service.Adapter.Repository.Wiring.{Encoding}
use be_modami_chat_service.Adapter.Repository.MessageRows.{message_row}
use be_modami_chat_service.Adapter.Repository.MessageRepo.Pages.{row_cursor}
use be_modami_chat_service.Adapter.Handler.Requests.{HttpRequest, SendMessageRequest}
use be_modami_chat_service.Adapter.Handler.Chat
use be_modami_chat_service.Adapter.Handler.Chat.{Reply, no_content, respond, serve}
use be_modami_chat_service.Adapter.Handler.Chat.Outcomes.{may_type, Quiet, failure_stops_at_write}
use be_modami_chat_service.Adapter.Handler.Chat.Members.{
  not_a_member, is_refused, outsider_is_forbidden,
}
use be_modami_chat_service.Adapter.Handler.Chat.Walk.{read_pages}
use be_modami_chat_service.Adapter.Handler.Chat.Pages.{
  IsLegible, built, request, get_messages_pages,
}
use be_modami_chat_service.Tests.{ann, bob, cy, hello, team, service, no_chat}
use be_modami_chat_service.Tests.Stores.{message_store}
use be_modami_chat_service.Tests.Codecs.{reaction_codec, participant_codec, last_message_codec}
use be_modami_chat_service.Tests.Repositories.{rows, row_at, rows-Descends}
use be_modami_chat_service.Adapter.Repository.MessageRepo.Roundtrip.{lookup_of}
use be_modami_chat_service.Adapter.Repository.Session.{Session}
use be_modami_chat_service.Tests.Handlers.{byte_time}

-- A request of a user about the conversation c1.
abbrev from : GoString → HttpRequest
from user = record {
  user_id = user;
  url_param = λ name. bytes "c1";
  cursor = [];
  limit = bytes "2";
}

abbrev edit : Chat.Endpoint
edit = Chat.edit_message_at (some (record { text = bytes "bye" }))

-- Bob is not the sender.
edit_fails :
    Chat.Outcomes.is_success
      (serve (traced (service team no_chat)) byte_time edit (from bob) (0, [])).0
    ≡ false
unfolding serve Chat.edit_message edit_message ◌==◌
edit_fails = refl

failure_stops_at_write_example :
    Quiet
      (may_type edit)
      (serve (traced (service team no_chat)) byte_time edit (from bob) (0, [])).1.1
failure_stops_at_write_example =
    failure_stops_at_write (service team no_chat) byte_time edit (from bob) 0 edit_fails

outsider : has_member team cy ≡ false
unfolding has_member ◌==◌
outsider = refl

abbrev post : SendMessageRequest
post = record {
  type = message_type_text;
  text = bytes "hi";
  mentions = [];
  media = none;
  reply_to = none;
}

abbrev refusal : Reply × Traced ℕ
refusal = (not_a_member, (0, entry Traced.read true ∷ []))

outsider_is_forbidden_example :
    (serve (traced (service team no_chat)) byte_time Chat.get_conversation_at (from cy) (0, [])
      ≡ refusal)
    × (serve (traced (service team no_chat)) byte_time Chat.get_messages_at (from cy) (0, [])
        ≡ refusal)
    × (serve
          (traced (service team no_chat))
          byte_time
          (Chat.mark_as_read_at (some (record { message_id = bytes "m1" })))
          (from cy)
          (0, [])
        ≡ refusal)
    × (serve
          (traced (service team no_chat))
          byte_time
          (Chat.handle_typing_at (some (record { typing = true })))
          (from cy)
          (0, [])
        ≡ refusal)
    × (serve
          (traced (service team no_chat))
          byte_time
          (Chat.send_message_at (some post))
          (from cy)
          (0, [])
        ≡ (not_a_member, (0, entry Traced.read true ∷ entry (Traced.allow_message cy) true ∷ [])))
    × (serve
          (traced (service team no_chat))
          byte_time
          (Chat.add_participant_at (some (record { user_id = bob })))
          (from cy)
          (0, [])
        ≡ (is_refused, (0, entry Traced.read true ∷ [])))
    × (serve (traced (service team no_chat)) byte_time Chat.remove_participant_at (from cy) (0, [])
        ≡ (let removed =
              respond
                (λ _. no_content)
                ((traced (service team no_chat)).conv_repo.remove_participant
                  (bytes "c1")
                  (bytes "c1"))
                (0, entry Traced.read true ∷ []) in
            if cy == bytes "c1" then removed else (is_refused, (0, entry Traced.read true ∷ []))))
outsider_is_forbidden_example =
    outsider_is_forbidden (service team no_chat) byte_time (from cy) (record { typing = true })
      (record { message_id = bytes "m1" }) post (record { user_id = bob }) 0 0 0 0 0 team refl refl
      refl outsider

abbrev encoding : Encoding
encoding = record {
  reactions = reaction_codec;
  participants = participant_codec;
  last_message = last_message_codec;
  range = λ ids. ids;
}

abbrev session : Session ℕ
session = message_store rows (lookup_of hello) (row_at 7 (bytes "c"))

member : has_member team ann ≡ true
unfolding has_member ◌==◌
member = refl

rows-IsLegible : All (λ row. IsLegible byte_time (row_cursor row)) rows
unfolding message_row
rows-IsLegible = ((refl, refl), ((refl, refl), ((refl, refl), tt)))

get_messages_pages_example :
    read_pages
      (request encoding session
        (λ w. (w, w))
        (service team no_chat)
        byte_time
        (from ann)
        rows
        0
        team
        refl
        member
        rows-Descends
        rows-IsLegible
        (λ n. refl)
        (λ c n. refl))
      4
      []
      0
    ≡ (some (built encoding rows), 0)
get_messages_pages_example =
    get_messages_pages encoding session (λ w. (w, w)) (service team no_chat) byte_time (from ann)
      rows 0 team refl member rows-Descends rows-IsLegible (λ n. refl) (λ c n. refl) 4 (omega arith)
