-- ===== src/Domain/Conversation/Direct.antt =====
-- NewDirectConversation and DirectChatKey: a direct chat does not depend on who opens it.
use be_modami_chat_service.Prelude.{
  ◌≡◌, ◌≢◌, ◌⊎◌, refl, false, ◌||◌, [], ◌∷◌, arith, Bool-cases, inl, inr, Time,
}
use be_modami_chat_service.Prelude.Sort.{sort_slice, place}
use be_modami_chat_service.Text.{GoString, ◌==◌, str_lt}
use be_modami_chat_service.Text.Laws.{eq_iff, str_lt_asymm, eq_of_not_str_lt}
use be_modami_chat_service.Domain.Conversation.{
  new_direct_conversation, has_member, is_admin, participant_ids, direct_chat_key,
}
use be_modami_chat_service.Domain.Conversation.Members.{IsRoster, member_is_no_admin}

-- The key of two users is the same in both orders, and it is these two users, the smaller one first.
pub direct_chat_key_comm :
    (a b : GoString)
    → (direct_chat_key a b ≡ direct_chat_key b a)
      × (str_lt (direct_chat_key a b).1 (direct_chat_key a b).0 ≡ false)
      × ((direct_chat_key a b ≡ (a, b)) ⊎ (direct_chat_key a b ≡ (b, a)))
unfolding direct_chat_key
direct_chat_key_comm a b = (
  ground (arith, str_lt_asymm a b, eq_of_not_str_lt a b),
  ground (arith, str_lt_asymm a b),
  ground arith,
)

-- A new direct conversation of two different users is the same whoever of them opens it, but for its
-- creator. Its participants are the two users in the order of the key, and nobody is its admin.
pub new_direct_members :
    (id a b : GoString) (now : Time) (v : GoString)
    → a ≢ b
    → ((new_direct_conversation id a b now).participants
        ≡ (new_direct_conversation id b a now).participants)
      × (participant_ids (new_direct_conversation id a b now)
          ≡ (direct_chat_key a b).0 ∷ (direct_chat_key a b).1 ∷ [])
      × (has_member (new_direct_conversation id a b now) v ≡ (a == v || b == v))
      × (is_admin (new_direct_conversation id a b now) v ≡ false)
      × IsRoster (new_direct_conversation id a b now).participants
unfolding new_direct_conversation sort_slice place participant_ids direct_chat_key has_member
    is_admin
new_direct_members id a b now v ne = (
  ground (arith, str_lt_asymm a b, eq_of_not_str_lt a b),
  ground arith,
  ground arith,
  ground (arith, member_is_no_admin),
  elim (Bool-cases (str_lt a b)) [
    | inl before ↦
        rw before
          (record { distinct = (ground (arith, eq_iff b a), (refl, tt)); few = omega arith })
    | inr after ↦
        rw after (record { distinct = (ground (arith, eq_iff a b), (refl, tt)); few = omega arith })
  ],
)
