-- ===== src/Tests/Repositories.antt =====
-- The theorems on the repositories at concrete data.
use mathlib.Core.List.{Perm}
use be_modami_chat_service.Prelude.{
  ℕ, ◌≡◌, refl, ◌<◌, false, List, [], ◌∷◌, none, some, map, length, inr, if◌then◌else◌, arith,
}
use be_modami_chat_service.Prelude.Sort.{sort_slice, place}
use be_modami_chat_service.Text.{GoString, bytes, ◌==◌, str_lt, contains}
use be_modami_chat_service.Result.{ok, is_ok}
use be_modami_chat_service.Domain.Message.{Message}
use be_modami_chat_service.Domain.Conversation.{
  Conversation, LastMessage, joined, user_id_of, conversation_type_direct, role_admin, role_member,
}
use be_modami_chat_service.Adapter.Repository.Session.{Session, MessageRow, ConversationRow}
use be_modami_chat_service.Adapter.Repository.Paging.{collect, cursor_lt, Descends}
use be_modami_chat_service.Adapter.Repository.MessageRows.{message_row, build_message}
use be_modami_chat_service.Adapter.Repository.MessageRepo.Pages.{
  fetch, row_cursor, find_by_conversation_pages,
}
use be_modami_chat_service.Adapter.Repository.MessageRepo.Roundtrip.{
  stored, lookup_of, build-message_row,
}
use be_modami_chat_service.Adapter.Repository.ConversationRepo
use be_modami_chat_service.Adapter.Repository.ConversationRepo.{
  direct_key, conversation_cursor, newer, load, update, for_each, insert_participant_indexes,
  find_direct_chat,
}
use be_modami_chat_service.Adapter.Repository.ConversationRows.{build_conversation}
use be_modami_chat_service.Adapter.Repository.ConversationRepo.Indexes.{update_syncs}
use be_modami_chat_service.Adapter.Repository.ConversationRepo.Claims.{direct_chats_are_unique}
use be_modami_chat_service.Adapter.Repository.ConversationRepo.Pages.{
  fetch as fetch_conversations, find_by_user_pages,
}
use be_modami_chat_service.Adapter.Repository.ConversationRepo.Order.{id_of}
use be_modami_chat_service.Text.Sets.{Distinct}
use be_modami_chat_service.Tests.{ann, bob, cy, hello, team}
use be_modami_chat_service.Tests.Stores.{
  message_store, conversation_store, index_store, index_store-IsIndex, in_first, in_second,
  direct_store, direct_store-IsDirectTable, claimed,
}
use be_modami_chat_service.Tests.Codecs.{
  reaction_codec, one_reaction, reaction_codec-IsSliceCodec, participant_codec, last_message_codec,
}

abbrev liked : Message
liked = record hello { reactions = record { emoji = bytes "+"; user_ids = bob ∷ [] } ∷ [] }

build-message_row_example :
    build_message reaction_codec (message_row reaction_codec liked) ≡ stored liked
build-message_row_example =
    build-message_row reaction_codec one_reaction reaction_codec-IsSliceCodec liked refl

abbrev pub row_at : ℕ → GoString → MessageRow
row_at t id = message_row reaction_codec (record hello { id = id; created_at = t; reactions = [] })

abbrev pub rows : List MessageRow
rows = row_at 7 (bytes "c") ∷ row_at 7 (bytes "b") ∷ row_at 4 (bytes "z") ∷ []

pub rows-Descends : Descends row_cursor rows
unfolding message_row cursor_lt str_lt
rows-Descends = ((refl, (refl, tt)), ((refl, tt), (tt, tt)))

find_by_conversation_pages_example :
    collect
      (fetch reaction_codec
        (message_store rows (lookup_of hello) (row_at 7 (bytes "c")))
        (bytes "c1")
        2)
      4
      none
      0
    ≡ (ok (map (build_message reaction_codec) rows), 0)
find_by_conversation_pages_example =
    find_by_conversation_pages reaction_codec
      (message_store rows (lookup_of hello) (row_at 7 (bytes "c"))) (bytes "c1") rows 0
      rows-Descends (λ n. refl) (λ c n. refl) 2 (omega arith) 4 (omega arith)

abbrev last : LastMessage
last = record {
  message_id = bytes "m1";
  sender_id = [];
  content_preview = [];
  type = [];
  sent_at = 6;
}

abbrev alone : Conversation
alone = record team { participants = joined ann [] 1 ∷ []; last_message = some last }

update_syncs_example :
    (w' : List GoString × List GoString) × (ConversationRepo.update index_store participant_codec
        last_message_codec
        (λ us. us)
        team
        (bob ∷ cy ∷ [], bob ∷ cy ∷ [])
      ≡ (ok tt, w'))
    × ((v : GoString) → contains w'.0 v ≡ contains (map user_id_of team.participants) v)
    × ((v : GoString) → contains w'.1 v ≡ contains (map user_id_of team.participants) v)
update_syncs_example =
    update_syncs index_store participant_codec last_message_codec in_first in_second (λ us. us) team
      (index_store-IsIndex team.id) (bob ∷ cy ∷ [], bob ∷ cy ∷ []) (λ us v. refl) (λ v. refl)

-- Two conversations, the second updated later.
abbrev row_of : GoString → ConversationRow
row_of id = record {
  id = id;
  type = bytes "group";
  name = [];
  avatar_url = [];
  created_by = ann;
  participants = [];
  last_message = [];
  only_admins_can_send = false;
  created_at = 1;
  updated_at = if id == bytes "c1" then 3 else 8;
}

abbrev shelf : Session ℕ
shelf = conversation_store (bytes "c1" ∷ bytes "c2" ∷ []) row_of

abbrev built : GoString → Conversation
built id = build_conversation participant_codec last_message_codec (row_of id)

abbrev both : List Conversation
both = built (bytes "c1") ∷ built (bytes "c2") ∷ []

both-load :
    load shelf participant_codec last_message_codec (bytes "c1" ∷ bytes "c2" ∷ []) 0 ≡ (ok both, 0)
unfolding load ConversationRepo.find_by_id
both-load = refl

both-Distinct : Distinct (map id_of both)
unfolding build_conversation ◌==◌
both-Distinct = (refl, (refl, tt))

both_few : length (sort_slice newer both) < 3
unfolding sort_slice place newer build_conversation ◌==◌
both_few = omega arith

find_by_user_pages_example :
    (collect (fetch_conversations shelf participant_codec last_message_codec ann 1) 3 none 0
      ≡ (ok (sort_slice newer both), 0))
    × Perm (sort_slice newer both) both
    × Descends conversation_cursor (sort_slice newer both)
find_by_user_pages_example =
    find_by_user_pages shelf participant_codec last_message_codec ann (bytes "c1" ∷ bytes "c2" ∷ [])
      both 0 refl both-load both-Distinct 1 (omega arith) 3 both_few

-- Two conversations of the same users.
abbrev ours : Conversation
ours = record team { id = bytes "d1"; type = conversation_type_direct }

abbrev theirs : Conversation
theirs = record team {
  id = bytes "d2";
  type = conversation_type_direct;
  participants = joined bob role_member 2 ∷ joined ann role_member 2 ∷ [];
}

abbrev rows_after : List (GoString × GoString)
rows_after = (direct_key ann bob, bytes "d1") ∷ []

ours_created :
    ConversationRepo.create direct_store participant_codec last_message_codec ours []
    ≡ (ok tt, rows_after)
unfolding ConversationRepo.create for_each insert_participant_indexes ◌==◌
ours_created = refl

direct_chats_are_unique_example :
    (is_ok
        (ConversationRepo.create direct_store participant_codec last_message_codec theirs
          rows_after).0
      ≡ false)
    × ((ConversationRepo.create direct_store participant_codec last_message_codec theirs
          rows_after).1
        ≡ (direct_store.insert_direct (direct_key ann bob) (bytes "d2") rows_after).1)
    × (find_direct_chat direct_store participant_codec last_message_codec ann bob rows_after
        ≡ ConversationRepo.find_by_id direct_store participant_codec last_message_codec
            (bytes "d1")
            rows_after)
    × (find_direct_chat direct_store participant_codec last_message_codec bob ann rows_after
        ≡ ConversationRepo.find_by_id direct_store participant_codec last_message_codec
            (bytes "d1")
            rows_after)
direct_chats_are_unique_example =
    direct_chats_are_unique claimed direct_store participant_codec last_message_codec
      direct_store-IsDirectTable ours theirs (joined ann role_admin 1) (joined bob role_member 1)
      (joined bob role_member 2) (joined ann role_member 2) [] rows_after rows_after (refl, refl)
      (refl, refl) (inr (refl, refl)) ours_created (λ key id h. h)
