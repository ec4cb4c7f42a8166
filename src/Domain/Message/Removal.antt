-- ===== src/Domain/Message/Removal.antt =====
-- RemoveReaction keeps the reactions well formed, and undoes AddReaction.
use be_modami_chat_service.Prelude.{
  suc, ◌+◌, ◌≡◌, refl, ap, ◌≤◌, true, false, ◌⊎◌, List, [], ◌∷◌, ◌++◌, some, arith, map, length,
  All, Option-cases, Bool-cases, inl, inr,
}
use be_modami_chat_service.Text.{GoString, ◌==◌, contains}
use be_modami_chat_service.Text.Laws.{eq_refl}
use be_modami_chat_service.Text.Sets.{Distinct}
use be_modami_chat_service.Result.{ok}
use be_modami_chat_service.Domain.Message.{
  Message, Reaction, max_users_per_reaction, react_group, react, add_to_reactions, add_reaction,
  remove_first, regroup, unreact, remove_reaction,
}
use be_modami_chat_service.Domain.Message.Reactions.{emoji_of, react-none, IsGroup, IsReactable}
use be_modami_chat_service.Domain.Message.Reacted.{contains-remove_first}

Distinct-remove_first :
    (u : GoString) (ids rest : List GoString)
    → remove_first u ids ≡ some rest
    → Distinct ids
    → Distinct rest × (length ids ≡ length rest + 1)
unfolding remove_first
Distinct-remove_first u [] rest h d = cc
Distinct-remove_first u (uid ∷ ids) rest h (n, d) = elim (Option-cases (remove_first u ids)) [
  | inl absent ↦ ground arith
  | inr (r, found) ↦
      ground
        (arith, Distinct-remove_first u ids r found d, contains-remove_first u uid ids r found d)
]

regroup-IsGroup :
    (r : Reaction) (ids : List GoString) (rs : List Reaction)
    → Distinct ids
    → length ids ≤ max_users_per_reaction
    → All IsGroup rs
    → All IsGroup (regroup r ids rs)
regroup-IsGroup r [] rs d l gs = gs
regroup-IsGroup r (uid ∷ ids) rs d l gs = (record { distinct = d; used = omega arith; few = l }, gs)

Distinct-regroup :
    (r : Reaction) (ids : List GoString) (rs : List Reaction)
    → Distinct (map emoji_of (r ∷ rs))
    → Distinct (map emoji_of (regroup r ids rs)) × (length (regroup r ids rs) ≤ suc (length rs))
Distinct-regroup r [] rs (n, d) = (d, omega arith)
Distinct-regroup r (uid ∷ ids) rs d = (d, omega arith)

contains-regroup :
    (r : Reaction) (ids : List GoString) (rs : List Reaction) (e : GoString)
    → contains (map emoji_of (r ∷ rs)) e ≡ false
    → contains (map emoji_of (regroup r ids rs)) e ≡ false
contains-regroup r [] rs e h = ground arith
contains-regroup r (uid ∷ ids) rs e h = h

-- RemoveReaction changes the first group, or those behind it.
unreact-cons :
    (e u : GoString) (r : Reaction) (rs rest : List Reaction)
    → unreact e u (r ∷ rs) ≡ some rest
    → ((ids : List GoString) × (remove_first u r.user_ids ≡ some ids) × (rest ≡ regroup r ids rs))
      ⊎ ((q : List Reaction) × (unreact e u rs ≡ some q) × (rest ≡ r ∷ q))
unfolding unreact
unreact-cons e u r rs rest h = elim (Option-cases (unreact e u rs)) [
  | inl absent ↦ elim (Option-cases (remove_first u r.user_ids)) [
    | inl absent' ↦ ground arith
    | inr (ids, found) ↦ inl (ids, found, ground arith)
  ]
  | inr (q, found) ↦ elim (Bool-cases (r.emoji == e)) [
    | inl same ↦ elim (Option-cases (remove_first u r.user_ids)) [
      | inl absent' ↦ inr (q, found, ground arith)
      | inr (ids, found') ↦ inl (ids, found', ground arith)
    ]
    | inr other ↦ inr (q, found, ground arith)
  ]
]

-- What is left of the groups has no emoji that was not there.
contains-unreact :
    (e u : GoString) (rs rest : List Reaction) (e' : GoString)
    → unreact e u rs ≡ some rest
    → contains (map emoji_of rs) e' ≡ false
    → contains (map emoji_of rest) e' ≡ false
contains-unreact e u [] rest e' h n = absurd (unfold unreact in cc)
contains-unreact e u (r ∷ rs) rest e' h n = elim (unreact-cons e u r rs rest h) [
  | inl (ids, found, shape) ↦ rw shape (contains-regroup r ids rs e' n)
  | inr (q, found, shape) ↦ rw shape (ground (arith, contains-unreact e u rs q e' found))
]

unreact_keeps :
    (e u : GoString) (rs rest : List Reaction)
    → unreact e u rs ≡ some rest
    → Distinct (map emoji_of rs)
    → All IsGroup rs
    → Distinct (map emoji_of rest) × All IsGroup rest × (length rest ≤ length rs)
unreact_keeps e u [] rest h d gs = absurd (unfold unreact in cc)
unreact_keeps e u (r ∷ rs) rest h (n, d) (g, gs) = elim (unreact-cons e u r rs rest h) [
  | inl (ids, found, shape) ↦
      let (d', size) = Distinct-remove_first u r.user_ids ids found g.distinct in
      let (d'', size') = Distinct-regroup r ids rs (n, d) in
      rw shape (d'', regroup-IsGroup r ids rs d' (ground (arith, g.few)) gs, size')
  | inr (q, found, shape) ↦
      let (d', gs', size) = unreact_keeps e u rs q found d gs in
      rw shape ((contains-unreact e u rs q (emoji_of r) found n, d'), (g, gs'), omega arith)
]

-- RemoveReaction leaves well-formed reactions: no group without a user stays behind.
remove_reaction-IsReactable :
    (m : Message) (e u : GoString)
    → IsReactable m.reactions
    → IsReactable (remove_reaction m e u).1.reactions
unfolding remove_reaction
remove_reaction-IsReactable m e u v = elim (Option-cases (unreact e u m.reactions)) [
  | inl absent ↦ rw (absent, remove_reaction) v
  | inr (rs, found) ↦
      let (d, gs, size) = unreact_keeps e u m.reactions rs found v.distinct v.groups in
      rw (found, remove_reaction)
        (record { distinct = d; groups = gs; few = ground (arith, v.few) })
]

remove_first-append_one :
    (u : GoString) (ids : List GoString)
    → contains ids u ≡ false
    → remove_first u (ids ++ u ∷ []) ≡ some ids
unfolding remove_first
remove_first-append_one u [] n = ground (arith, eq_refl u)
remove_first-append_one u (uid ∷ ids) n = ground (arith, remove_first-append_one u ids)

regroup_used :
    (r : Reaction) (ids : List GoString) (rs : List Reaction)
    → 1 ≤ length ids
    → regroup r ids rs ≡ record r { user_ids = ids } ∷ rs
regroup_used r [] rs h = absurd (omega arith)
regroup_used r (uid ∷ ids) rs h = refl

-- Taking back the user that a group has gained last.
unreact_group :
    (e u : GoString) (r : Reaction) (rs : List Reaction)
    → (r.emoji == e) ≡ true
    → contains r.user_ids u ≡ false
    → IsGroup r
    → unreact e u (record r { user_ids = r.user_ids ++ u ∷ [] } ∷ rs) ≡ some (r ∷ rs)
unfolding unreact
unreact_group e u r rs same n g =
    rw (same, remove_first-append_one u r.user_ids n)
      (ap some (regroup_used r r.user_ids rs g.used))

unreact-react_group :
    (e u : GoString) (r : Reaction) (rs rs' : List Reaction)
    → (r.emoji == e) ≡ true
    → react_group u r rs ≡ (ok true, rs')
    → IsGroup r
    → unreact e u rs' ≡ some (r ∷ rs)
unfolding react_group
unreact-react_group e u r rs rs' same h g = ground (arith, unreact_group e u r rs same)

unreact-behind :
    (e u : GoString) (r : Reaction) (rs' rs : List Reaction)
    → (r.emoji == e) ≡ false
    → unreact e u rs' ≡ some rs
    → unreact e u (r ∷ rs') ≡ some (r ∷ rs)
unfolding unreact
unreact-behind e u r rs' rs other h = ground arith

unreact-react :
    (e u : GoString) (rs rs' : List Reaction)
    → react e u rs ≡ some (ok true, rs')
    → All IsGroup rs
    → unreact e u rs' ≡ some rs
unfolding react
unreact-react e u [] rs' h gs = cc
unreact-react e u (r ∷ rs) rs' h (g, gs) = elim (Bool-cases (r.emoji == e)) [
  | inl same ↦ unreact-react_group e u r rs rs' same (ground arith) g
  | inr other ↦ elim (Option-cases (react e u rs)) [
    | inl absent ↦ ground arith
    | inr (d, found) ↦ ground (arith, unreact-react e u rs d.1, unreact-behind e u r d.1 rs)
  ]
]

unreact-append_one :
    (e u : GoString) (rs : List Reaction)
    → contains (map emoji_of rs) e ≡ false
    → unreact e u (rs ++ record { emoji = e; user_ids = u ∷ [] } ∷ []) ≡ some rs
unfolding unreact remove_first
unreact-append_one e u [] n = ground (arith, eq_refl e, eq_refl u)
unreact-append_one e u (r ∷ rs) n = ground (arith, unreact-append_one e u rs)

unreact-add_to_reactions :
    (e u : GoString) (rs : List Reaction)
    → IsReactable rs
    → (add_to_reactions e u rs).0 ≡ ok true
    → unreact e u (add_to_reactions e u rs).1 ≡ some rs
unfolding add_to_reactions
unreact-add_to_reactions e u rs v h = elim (Option-cases (react e u rs)) [
  | inl absent ↦ ground (arith, unreact-append_one e u rs (react-none e u rs absent))
  | inr (d, found) ↦ ground (arith, unreact-react e u rs d.1)
]

-- On a message whose reactions are well formed (no group is empty, no emoji and no user of a group
-- stands twice, within the bounds) a reaction that AddReaction has added is taken back without a
-- trace: RemoveReaction of the same emoji by the same user returns true, and the message is the one
-- before.
pub remove-add_reaction :
    (m : Message) (e u : GoString)
    → IsReactable m.reactions
    → (add_reaction m e u).0 ≡ ok true
    → remove_reaction (add_reaction m e u).1 e u ≡ (true, m)
unfolding remove_reaction add_reaction
remove-add_reaction m e u v h = rw (unreact-add_to_reactions e u m.reactions v h, remove_reaction)
