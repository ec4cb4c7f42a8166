-- ===== src/Adapter/Repository/ConversationRepo/Claims.antt =====
-- Create and FindDirectChat (internal/adapter/repository/conversation_repo.go): the claim of the key
-- of a direct conversation.
use be_modami_chat_service.Prelude.{
  ◌≡◌, refl, ap, sym, ◌∙◌, true, false, List, [], ◌∷◌, ◌++◌, Option, none, some, inl, inr, ◌⊎◌,
}
use be_modami_chat_service.Text.{GoString, bytes, ◌==◌}
use be_modami_chat_service.Result.{ok, duplicate_conversation, is_ok}
use be_modami_chat_service.Exec.{Exec, run-cases, wrap, require, ◌>>=◌}
use be_modami_chat_service.Domain.Conversation.{
  Conversation, Participant, LastMessage, conversation_type_direct,
}
use be_modami_chat_service.Domain.Conversation.Direct.{direct_chat_key_comm}
use be_modami_chat_service.Adapter.Repository.Session.{Session, ConversationRow}
use be_modami_chat_service.Adapter.Repository.Codec.{Codec}
use be_modami_chat_service.Adapter.Repository.ConversationRepo.{
  for_each, insert_participant_indexes, direct_key, create, find_by_id, find_direct_chat,
}
use be_modami_chat_service.Adapter.Repository.ConversationRows.{conversation_row}

module _ {W : Type 0} (claimed : W → GoString → Option GoString) where
  -- What is claimed in a world is so in a later one, by the same conversation.
  abbrev pub IsLater : W → W → Type 0
  IsLater w w' = (key id : GoString) → claimed w key ≡ some id → claimed w' key ≡ some id

  abbrev pub Keeps : {A : Type 0} → Exec W A → Type 0
  Keeps m = (w : W) → IsLater w (m w).1

  -- The table direct_conversations, which INSERT ... IF NOT EXISTS never overwrites. `claimed` is what
  -- it holds, which no other statement of Create changes.
  pub record IsDirectTable (session : Session W) : Type 0 where
    pub inserts :
        (key id : GoString) (w w' : W)
        → session.insert_direct key id w ≡ (ok true, w')
        → (claimed w key ≡ none) × (claimed w' key ≡ some id)
    pub insert_keeps : (key id : GoString) → Keeps (session.insert_direct key id)
    pub selects :
        (key id : GoString) (w : W)
        → claimed w key ≡ some id
        → session.select_direct key w ≡ (ok id, w)
    pub row_keeps : (row : ConversationRow) → Keeps (session.insert_conversation row)
    pub user_keeps : (u c : GoString) → Keeps (session.insert_user_conversation u c)
    pub participant_keeps : (c u : GoString) → Keeps (session.insert_conversation_participant c u)

  Keeps-bind :
      {A B : Type 0} (m : Exec W A) (f : A → Exec W B)
      → Keeps m
      → ((a : A) → Keeps (f a))
      → Keeps (m >>= f)
  Keeps-bind m f first later w key id h = elim (run-cases (m w)) [
    | inl (a, w₁, eq) ↦
        let kept : claimed w₁ key ≡ some id = rw eq at (first w key id h) in
        rw eq (later a w₁ key id kept)
    | inr (e, w₁, eq) ↦
        let kept : claimed w₁ key ≡ some id = rw eq at (first w key id h) in rw eq kept
  ]

  for_each-Keeps :
      {A : Type 0} (f : A → Exec W (Unit {0})) (xs : List A)
      → ((a : A) → Keeps (f a))
      → Keeps (for_each f xs)
  unfolding for_each
  for_each-Keeps f [] each = λ w key id h. h
  for_each-Keeps f (x ∷ xs) each =
      Keeps-bind (f x) (λ u. for_each f xs) (each x) (λ u. for_each-Keeps f xs each)

  module _ (session : Session W) (participants_json : Codec (List Participant))
      (last_message_json : Codec LastMessage) (table : IsDirectTable session) where
    insert_participant_indexes-Keeps :
        (c u : GoString)
        → Keeps (insert_participant_indexes session participants_json last_message_json c u)
    unfolding insert_participant_indexes
    insert_participant_indexes-Keeps c u =
        Keeps-bind (wrap "insert user_conversations" (session.insert_user_conversation u c))
          (λ v.
            wrap "insert conversation_participants" (session.insert_conversation_participant c u))
          (table.user_keeps u c) (λ v. table.participant_keeps c u)

    -- What Create does after the claim.
    abbrev inserted : Conversation → Exec W (Unit {0})
    inserted conv =
        wrap "insert conversation"
          (session.insert_conversation (conversation_row participants_json last_message_json conv))
        >>= λ u.
            for_each
              (λ p.
                insert_participant_indexes session participants_json last_message_json conv.id
                  p.user_id)
              conv.participants

    inserted-Keeps : (conv : Conversation) → Keeps (inserted conv)
    inserted-Keeps conv =
        Keeps-bind
          (wrap "insert conversation" (
            session.insert_conversation
              (conversation_row participants_json last_message_json conv)))
          (λ u.
            for_each
              (λ p.
                insert_participant_indexes session participants_json last_message_json conv.id
                  p.user_id)
              conv.participants)
          (table.row_keeps (conversation_row participants_json last_message_json conv))
          (λ u.
            for_each-Keeps _ conv.participants
              (λ p. insert_participant_indexes-Keeps conv.id p.user_id))

    -- A direct conversation of two participants.
    abbrev pub IsPair : Conversation → Participant → Participant → Type 0
    IsPair conv p q = (conv.type ≡ conversation_type_direct) × (conv.participants ≡ p ∷ q ∷ [])

    abbrev claim : Conversation → Participant → Participant → Exec W (Unit {0})
    claim conv p q =
        wrap "insert direct conversation index"
          (session.insert_direct (direct_key p.user_id q.user_id) conv.id)
        >>= λ applied. require applied duplicate_conversation

    create-claim :
        (conv : Conversation) (p q : Participant) (w : W)
        → IsPair conv p q
        → create session participants_json last_message_json conv w
          ≡ (claim conv p q >>= λ u. inserted conv) w
    unfolding create ◌==◌
    create-claim conv p q w (direct, pair) = rw (direct, pair, create) refl

    -- A Create that succeeds has claimed the key, and nobody had before.
    create-claims :
        (conv : Conversation) (p q : Participant) (w w₁ : W)
        → IsPair conv p q
        → create session participants_json last_message_json conv w ≡ (ok tt, w₁)
        → claimed w₁ (direct_key p.user_id q.user_id) ≡ some conv.id
    create-claims conv p q w w₁ pair done =
        let key = direct_key p.user_id q.user_id in
        let done' = sym (create-claim conv p q w pair) ∙ done in
        elim (run-cases (session.insert_direct key conv.id w)) [
          | inr (e, w₂, failed) ↦ cc (rw failed at done')
          | inl (false, w₂, lost) ↦ cc (rw lost at done')
          | inl (true, w₂, won) ↦
              let kept : claimed (inserted conv w₂).1 key ≡ some conv.id =
                inserted-Keeps conv w₂ key conv.id (table.inserts key conv.id w w₂ won).1 in
              let result : inserted conv w₂ ≡ (ok tt, w₁) = rw won at done' in rw result at kept
        ]

    -- A Create for a key that is claimed does nothing but try to claim it, and fails.
    create-refused :
        (conv : Conversation) (p q : Participant) (id : GoString) (w : W)
        → IsPair conv p q
        → claimed w (direct_key p.user_id q.user_id) ≡ some id
        → (is_ok (create session participants_json last_message_json conv w).0 ≡ false)
          × ((create session participants_json last_message_json conv w).1
              ≡ (session.insert_direct (direct_key p.user_id q.user_id) conv.id w).1)
    create-refused conv p q id w pair taken =
        let key = direct_key p.user_id q.user_id in
        rw (create-claim conv p q w pair) (elim (run-cases (session.insert_direct key conv.id w)) [
          | inr (e, w₂, failed) ↦ rw failed (refl, refl)
          | inl (false, w₂, lost) ↦ rw lost (refl, refl)
          | inl (true, w₂, won) ↦ cc (taken, (table.inserts key conv.id w w₂ won).0)
        ])

    find_direct_chat-claimed :
        (u v id : GoString) (w : W)
        → claimed w (direct_key u v) ≡ some id
        → find_direct_chat session participants_json last_message_json u v w
          ≡ find_by_id session participants_json last_message_json id w
    unfolding find_direct_chat
    find_direct_chat-claimed u v id w taken =
        rw (table.selects (direct_key u v) id w taken, find_direct_chat) refl

    direct_key_comm : (u v : GoString) → direct_key u v ≡ direct_key v u
    unfolding direct_key
    direct_key_comm u v = ap (λ k. k.0 ++ bytes ":" ++ k.1) (direct_chat_key_comm u v).0

    -- Two users get one direct conversation: after a Create of one has succeeded, and whatever other
    -- calls came between, a Create of another one for the same two users, in either order, fails and
    -- does nothing but try to claim their key, and FindDirectChat looks in either order for the first
    -- one, if INSERT ... IF NOT EXISTS overwrites no row and no other statement changes that table.
    pub direct_chats_are_unique :
        (a b : Conversation) (p q r s : Participant) (w w₁ w₂ : W)
        → IsPair a p q
        → IsPair b r s
        → ((r.user_id ≡ p.user_id) × (s.user_id ≡ q.user_id))
          ⊎ ((r.user_id ≡ q.user_id) × (s.user_id ≡ p.user_id))
        → create session participants_json last_message_json a w ≡ (ok tt, w₁)
        → IsLater w₁ w₂
        → let again = create session participants_json last_message_json b w₂ in
          let find = find_direct_chat session participants_json last_message_json in
          (is_ok again.0 ≡ false)
          × (again.1 ≡ (session.insert_direct (direct_key p.user_id q.user_id) b.id w₂).1)
          × (find p.user_id q.user_id w₂
              ≡ find_by_id session participants_json last_message_json a.id w₂)
          × (find q.user_id p.user_id w₂
              ≡ find_by_id session participants_json last_message_json a.id w₂)
    direct_chats_are_unique a b p q r s w w₁ w₂ first second users done later =
        let key = direct_key p.user_id q.user_id in
        let taken : claimed w₂ key ≡ some a.id =
          later key a.id (create-claims a p q w w₁ first done) in
        let swapped : claimed w₂ (direct_key q.user_id p.user_id) ≡ some a.id =
          rw (direct_key_comm q.user_id p.user_id) taken in
        let same_key : direct_key r.user_id s.user_id ≡ key = elim users [
          | inl (eq₁, eq₂) ↦ rw (eq₁, eq₂) refl
          | inr (eq₁, eq₂) ↦ rw (eq₁, eq₂) (direct_key_comm q.user_id p.user_id)
        ] in
        let (refused, only) = create-refused b r s a.id w₂ second (rw same_key taken) in
        (
          refused,
          rw same_key at only,
          find_direct_chat-claimed p.user_id q.user_id a.id w₂ taken,
          find_direct_chat-claimed q.user_id p.user_id a.id w₂ swapped,
        )
