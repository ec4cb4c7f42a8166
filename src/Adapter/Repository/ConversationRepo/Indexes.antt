-- ===== src/Adapter/Repository/ConversationRepo/Indexes.antt =====
-- Update (internal/adapter/repository/conversation_repo.go) keeps the participant indexes in step.
use be_modami_chat_service.Prelude.{
  ◌≡◌, refl, ap, sym, ◌∙◌, Bool, not, ◌&&◌, ◌||◌, List, [], ◌∷◌, map, arith,
}
use be_modami_chat_service.Text.{GoString, ◌==◌, contains}
use be_modami_chat_service.Text.Sets.{contains_of_eq}
use be_modami_chat_service.Result.{ok}
use be_modami_chat_service.Exec.{Exec}
use be_modami_chat_service.Domain.Conversation.{Conversation, Participant, LastMessage, user_id_of}
use be_modami_chat_service.Adapter.Repository.Session.{Session, ConversationRow}
use be_modami_chat_service.Adapter.Repository.Codec.{Codec}
use be_modami_chat_service.Adapter.Repository.ConversationRepo.{
  for_each, insert_participant_indexes, delete_participant_indexes, missing_from, update,
}
use be_modami_chat_service.Adapter.Repository.ConversationRows.{conversation_row}

-- A call that succeeds in every world and changes the rows of the conversation in
-- conversation_participants, which `member` reads, and those in user_conversations, which `listed`
-- reads, as the two changes say.
abbrev pub Changes :
    {W : Type 0} (member listed : W → GoString → Bool)
    → Exec W (Unit {0})
    → (change change' : Bool → GoString → Bool) → Type 0
Changes {W} member listed call change change' =
    (w : W)
    → (w' : W) × (call w ≡ (ok tt, w'))
      × ((v : GoString) → member w' v ≡ change (member w v) v)
      × ((v : GoString) → listed w' v ≡ change' (listed w v) v)

abbrev pub same : Bool → GoString → Bool
same b v = b

abbrev pub with : GoString → Bool → GoString → Bool
with u b v = b || u == v

abbrev pub without : GoString → Bool → GoString → Bool
without u b v = b && not (u == v)

-- What the two index tables do for one conversation while no call fails: `member` says who has a row
-- in conversation_participants, and `listed` who has one in user_conversations.
pub record IsIndex {W : Type 0} (session : Session W) (id : GoString)
    (member listed : W → GoString → Bool) : Type 0 where
  pub selects :
      (w : W)
      → (ids : List GoString) × (session.select_participants id w ≡ (ok ids, w))
        × ((v : GoString) → contains ids v ≡ member w v)
  pub inserts :
      (u : GoString)
      → Changes member listed (session.insert_conversation_participant id u) (with u) same
  pub deletes :
      (u : GoString)
      → Changes member listed (session.delete_conversation_participant id u) (without u) same
  pub inserts_user :
      (u : GoString) → Changes member listed (session.insert_user_conversation u id) same (with u)
  pub deletes_user :
      (u : GoString)
      → Changes member listed (session.delete_user_conversation u id) same (without u)
  pub updates :
      (row : ConversationRow) → Changes member listed (session.update_conversation row) same same

contains-missing_from :
    (us set : List GoString) (v : GoString)
    → contains (missing_from us set) v ≡ (contains us v && not (contains set v))
contains-missing_from [] set v = refl
contains-missing_from (u ∷ us) set v =
    ground (arith, contains-missing_from us set v, contains_of_eq set u v)

settled :
    {before m₁ m₂ m₃ old new ranged_new ranged_old added removed : Bool}
    → old ≡ before
    → m₁ ≡ before
    → m₂ ≡ (m₁ || added)
    → m₃ ≡ (m₂ && not removed)
    → added ≡ (ranged_new && not old)
    → removed ≡ (ranged_old && not new)
    → ranged_new ≡ new
    → ranged_old ≡ old
    → m₃ ≡ new
settled a b c d e f g h = ground arith

module _ {W : Type 0} (session : Session W) (participants_json : Codec (List Participant))
    (last_message_json : Codec LastMessage) (id : GoString) (member listed : W → GoString → Bool)
    (index : IsIndex session id member listed) where
  insert-Changes :
      (u : GoString)
      → Changes member listed
          (insert_participant_indexes session participants_json last_message_json id u)
          (with u)
          (with u)
  unfolding insert_participant_indexes
  insert-Changes u w =
      let (w₁, eq₁, m₁, l₁) = index.inserts_user u w in
      let (w₂, eq₂, m₂, l₂) = index.inserts u w₁ in
      (
        w₂,
        rw (eq₁, insert_participant_indexes) (rw eq₂ refl),
        λ v. m₂ v ∙ ap (λ b. b || u == v) (m₁ v),
        λ v. l₂ v ∙ l₁ v,
      )

  delete-Changes :
      (u : GoString)
      → Changes member listed
          (delete_participant_indexes session participants_json last_message_json id u)
          (without u)
          (without u)
  unfolding delete_participant_indexes
  delete-Changes u w =
      let (w₁, eq₁, m₁, l₁) = index.deletes_user u w in
      let (w₂, eq₂, m₂, l₂) = index.deletes u w₁ in
      (
        w₂,
        rw (eq₁, delete_participant_indexes) (rw eq₂ refl),
        λ v. m₂ v ∙ ap (λ b. b && not (u == v)) (m₁ v),
        λ v. l₂ v ∙ l₁ v,
      )

  insert_all :
      (us : List GoString)
      → Changes member listed
          (for_each (insert_participant_indexes session participants_json last_message_json id) us)
          (λ b v. b || contains us v)
          (λ b v. b || contains us v)
  unfolding for_each
  insert_all [] w = (w, refl, λ v. ground arith, λ v. ground arith)
  insert_all (u ∷ us) w =
      let (w₁, eq₁, m₁, l₁) = insert-Changes u w in
      let (w₂, eq₂, m₂, l₂) = insert_all us w₁ in
      (w₂, rw eq₁ eq₂, λ v. ground (arith, m₁ v, m₂ v), λ v. ground (arith, l₁ v, l₂ v))

  delete_all :
      (us : List GoString)
      → Changes member listed
          (for_each (delete_participant_indexes session participants_json last_message_json id) us)
          (λ b v. b && not (contains us v))
          (λ b v. b && not (contains us v))
  unfolding for_each
  delete_all [] w = (w, refl, λ v. ground arith, λ v. ground arith)
  delete_all (u ∷ us) w =
      let (w₁, eq₁, m₁, l₁) = delete-Changes u w in
      let (w₂, eq₂, m₂, l₂) = delete_all us w₁ in
      (w₂, rw eq₁ eq₂, λ v. ground (arith, m₁ v, m₂ v), λ v. ground (arith, l₁ v, l₂ v))

-- Update of a conversation whose calls all succeed leaves exactly the conversation's participants in
-- both indexes, the one by conversation and the one by user, whoever was there before and in whatever
-- order the maps are visited, if before it the two indexes had rows for the same users.
pub update_syncs :
    {W : Type 0} (session : Session W) (participants_json : Codec (List Participant))
    (last_message_json : Codec LastMessage) (member listed : W → GoString → Bool)
    (range : List GoString → List GoString) (conv : Conversation)
    (index : IsIndex session conv.id member listed) (w : W)
    → ((us : List GoString) (v : GoString) → contains (range us) v ≡ contains us v)
    → ((v : GoString) → listed w v ≡ member w v)
    → (w' : W) × (update session participants_json last_message_json range conv w ≡ (ok tt, w'))
      × ((v : GoString) → member w' v ≡ contains (map user_id_of conv.participants) v)
      × ((v : GoString) → listed w' v ≡ contains (map user_id_of conv.participants) v)
unfolding update
update_syncs session participants_json last_message_json member listed range conv index w keys
      agree =
    let inserts' =
      insert_all session participants_json last_message_json conv.id member listed index in
    let deletes' =
      delete_all session participants_json last_message_json conv.id member listed index in
    let new_set = map user_id_of conv.participants in
    let (old_set, eq₀, m₀) = index.selects w in
    let (w₁, eq₁, m₁, l₁) =
      index.updates (conversation_row participants_json last_message_json conv) w in
    let (w₂, eq₂, m₂, l₂) = inserts' (missing_from (range new_set) old_set) w₁ in
    let (w₃, eq₃, m₃, l₃) = deletes' (missing_from (range old_set) new_set) w₂ in
    (
      w₃,
      rw (eq₀, update) (rw (eq₁, update) (rw eq₂ eq₃)),
      λ v.
          settled (m₀ v) (m₁ v) (m₂ v) (m₃ v) (contains-missing_from (range new_set) old_set v)
            (contains-missing_from (range old_set) new_set v) (keys new_set v) (keys old_set v),
      λ v.
          settled (m₀ v ∙ sym (agree v)) (l₁ v) (l₂ v) (l₃ v)
            (contains-missing_from (range new_set) old_set v)
            (contains-missing_from (range old_set) new_set v) (keys new_set v) (keys old_set v),
    )
