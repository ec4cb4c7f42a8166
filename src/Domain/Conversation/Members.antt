-- ===== src/Domain/Conversation/Members.antt =====
-- The participants of a conversation: AddParticipant and RemoveParticipant.
use be_modami_chat_service.Prelude.{
  ◌+◌, ◌≡◌, refl, sym, ap, ◌≤◌, true, false, not, ◌&&◌, ◌||◌, List, [], ◌∷◌, ◌++◌, none, some,
  arith, map, length, length-append, any, any-append, Option-cases, Bool-cases, inl, inr, leb, ltb,
  Time,
}
use be_modami_chat_service.Text.{GoString, ◌==◌, contains}
use be_modami_chat_service.Text.Laws.{eq_iff, eq_refl}
use be_modami_chat_service.Text.Sets.{Distinct, Distinct-append_one}
use be_modami_chat_service.Result.{ok, is_ok}
use be_modami_chat_service.Domain.Conversation.{
  Conversation, Participant, conversation_type_direct, role_member, role_admin,
  max_group_participants, joined, is_user, has_member, is_admin_user, is_admin, add_participant,
  without_user, remove_participant, user_id_of, participant_ids,
}

-- Nobody takes part twice, and the participants are at most 50.
pub record IsRoster (ps : List Participant) : Type 0 where
  pub distinct : Distinct (map user_id_of ps)
  pub few : length ps ≤ max_group_participants

pub any-is_user :
    (ps : List Participant) (u : GoString) → any (is_user u) ps ≡ contains (map user_id_of ps) u
any-is_user [] u = refl
any-is_user (p ∷ ps) u = ground (arith, any-is_user ps u)

pub contains-participant_ids :
    (c : Conversation) (u : GoString) → contains (participant_ids c) u ≡ has_member c u
unfolding participant_ids has_member
contains-participant_ids c u = sym (any-is_user c.participants u)

map-append_one :
    (ps : List Participant) (p : Participant)
    → map user_id_of (ps ++ p ∷ []) ≡ map user_id_of ps ++ p.user_id ∷ []
map-append_one [] p = refl
map-append_one (q ∷ ps) p = ap (λ us. q.user_id ∷ us) (map-append_one ps p)

append_one-IsRoster :
    (ps : List Participant) (p : Participant)
    → IsRoster ps
    → any (is_user p.user_id) ps ≡ false
    → leb max_group_participants (length ps) ≡ false
    → IsRoster (ps ++ p ∷ [])
append_one-IsRoster ps p v new room = record {
  distinct = rw (map-append_one ps p) (
      Distinct-append_one (map user_id_of ps) p.user_id v.distinct
        (ground (arith, any-is_user ps p.user_id)));
  few = ground (arith, length-append ps (p ∷ []));
}

-- Whatever AddParticipant answers, nobody takes part twice and there are at most 50 participants,
-- if that was so before.
add_participant-IsRoster :
    (c : Conversation) (u : GoString) (joined_now now : Time)
    → IsRoster c.participants
    → IsRoster (add_participant c u joined_now now).1.participants
unfolding add_participant
add_participant-IsRoster c u joined_now now v =
    elim (Bool-cases (c.type == conversation_type_direct)) [
      | inl direct ↦ rw direct v
      | inr group ↦ elim (Bool-cases (any (is_user u) c.participants)) [
        | inl member ↦ rw (group, member) v
        | inr new ↦ elim (Bool-cases (leb max_group_participants (length c.participants))) [
          | inl full ↦ rw (group, new, full) v
          | inr room ↦
              rw (group, new, room)
                (append_one-IsRoster c.participants (joined u role_member joined_now) v new room)
        ]
      ]
    ]

pub member_is_no_admin : (role_member == role_admin) ≡ false
unfolding ◌==◌
member_is_no_admin = refl

-- AddParticipant succeeds exactly for a conversation that is not direct, a user who is no member, and
-- fewer than 50 participants; then that user is a member too, and otherwise the members are as
-- before. The members' admin rights never change.
pub has_member-add_participant :
    (c : Conversation) (u v : GoString) (joined_now now : Time)
    → (is_ok (add_participant c u joined_now now).0 ≡ (
        not (c.type == conversation_type_direct)
        && (not (has_member c u) && ltb (length c.participants) max_group_participants)))
      × (has_member (add_participant c u joined_now now).1 v
          ≡ (has_member c v || (is_ok (add_participant c u joined_now now).0 && u == v)))
      × (is_admin (add_participant c u joined_now now).1 v ≡ is_admin c v)
unfolding add_participant has_member is_admin
has_member-add_participant c u v joined_now now = (
  ground arith,
  ground (arith, any-append (is_user v) c.participants (joined u role_member joined_now ∷ [])),
  ground (
    arith,
    any-append (is_admin_user v) c.participants (joined u role_member joined_now ∷ []),
    member_is_no_admin,
  ),
)

without_user-none :
    (u : GoString) (ps : List Participant) → without_user u ps ≡ none → any (is_user u) ps ≡ false
unfolding without_user
without_user-none u [] h = refl
without_user-none u (p ∷ ps) h = ground (arith, without_user-none u ps)

without_user-some :
    (u v : GoString) (ps rest : List Participant)
    → without_user u ps ≡ some rest
    → Distinct (map user_id_of ps)
    → (any (is_user u) ps ≡ true)
      × (any (is_user v) rest ≡ (any (is_user v) ps && not (u == v)))
      × Distinct (map user_id_of rest)
      × (length ps ≡ length rest + 1)
unfolding without_user
without_user-some u v [] rest h d = cc
without_user-some u v (p ∷ ps) rest h (n, d) = elim (Bool-cases (p.user_id == u)) [
  | inl same ↦ ground (arith, any-is_user ps p.user_id, eq_iff p.user_id u, eq_iff u v)
  | inr other ↦ elim (Option-cases (without_user u ps)) [
    | inl absent ↦ ground arith
    | inr (r, found) ↦ ground (
      arith,
      without_user-some u v ps r found d,
      without_user-some u p.user_id ps r found d,
      any-is_user ps p.user_id,
      any-is_user r p.user_id,
      eq_iff p.user_id u,
      eq_iff u v,
      eq_iff p.user_id v,
    )
  ]
]

-- RemoveParticipant on a conversation where nobody takes part twice succeeds exactly for a member of
-- a conversation that is not direct; then that user alone is no member any more, and otherwise the
-- members are as before. Nobody takes part twice afterwards, and there are at most 50 participants.
pub has_member-remove_participant :
    (c : Conversation) (u v : GoString) (now : Time)
    → IsRoster c.participants
    → (is_ok (remove_participant c u now).0
        ≡ (not (c.type == conversation_type_direct) && has_member c u))
      × (has_member (remove_participant c u now).1 v
          ≡ (has_member c v && not (is_ok (remove_participant c u now).0 && u == v)))
      × IsRoster (remove_participant c u now).1.participants
unfolding remove_participant has_member
has_member-remove_participant c u v now roster =
    elim (Bool-cases (c.type == conversation_type_direct)) [
      | inl direct ↦ rw (direct, remove_participant) (refl, ground arith, roster)
      | inr group ↦ elim (Option-cases (without_user u c.participants)) [
        | inl absent ↦
            rw (group, absent, remove_participant)
              (ground (arith, without_user-none u c.participants), ground arith, roster)
        | inr (rest, found) ↦
            let (member, others, distinct, size) =
              without_user-some u v c.participants rest found roster.distinct in
            rw (group, found, remove_participant)
              (
                ground arith,
                others,
                record { distinct = distinct; few = ground (arith, roster.few) },
              )
      ]
    ]

without_user-append_one :
    (ps : List Participant) (p : Participant)
    → any (is_user p.user_id) ps ≡ false
    → without_user p.user_id (ps ++ p ∷ []) ≡ some ps
unfolding without_user
without_user-append_one [] p h = ground (arith, eq_refl p.user_id)
without_user-append_one (q ∷ ps) p h = ground (arith, without_user-append_one ps p)

-- A user who was added is removed without a trace: the participants are those before, in their
-- order.
remove-add_participant :
    (c : Conversation) (u : GoString) (joined_now now later : Time)
    → (add_participant c u joined_now now).0 ≡ ok tt
    → remove_participant (add_participant c u joined_now now).1 u later
      ≡ (ok tt, record c { updated_at = later })
unfolding add_participant remove_participant
remove-add_participant c u joined_now now later h =
    ground (arith, without_user-append_one c.participants (joined u role_member joined_now))
