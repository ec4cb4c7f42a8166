-- ===== src/Domain/Message/Reacted.antt =====
-- Who has reacted with what after AddReaction and RemoveReaction.
use mathlib.Core.Path.{subst}
use be_modami_chat_service.Prelude.{
  ◌≡◌, refl, ap, Bool, true, false, not, ◌&&◌, ◌||◌, List, [], ◌∷◌, none, some, arith, map, length,
  any-append, All, Option-cases, Bool-cases, inl, inr, leb,
}
use be_modami_chat_service.Text.{GoString, ◌==◌, contains}
use be_modami_chat_service.Text.Laws.{eq_iff}
use be_modami_chat_service.Text.Sets.{Distinct, contains-append}
use be_modami_chat_service.Result.{Result, ok, err, is_ok}
use be_modami_chat_service.Domain.Message.{
  Message, Reaction, max_reactions_per_message, max_users_per_reaction, react_group, behind, react,
  open_group, add_to_reactions, add_reaction, remove_first, regroup, unreact, remove_reaction,
}
use be_modami_chat_service.Domain.Message.Reactions.{
  emoji_of, IsGroup, IsReactable, reacted_in, has_reacted,
}

-- The outcome of an attempt that asked for a reaction of `u` with `e`: where it is no error, that
-- one reaction is there and the others are as before; where it is an error, nothing changed.
abbrev Outcome : GoString → GoString → List Reaction → Result Bool × List Reaction → Type 0
Outcome e u rs (ok b, rs') =
    (e' u' : GoString) → has_reacted e' u' rs' ≡ (has_reacted e' u' rs || (e == e' && u == u'))
Outcome e u rs (err x, rs') = rs' ≡ rs

react_group-Outcome :
    (e u : GoString) (r : Reaction) (rs : List Reaction)
    → (r.emoji == e) ≡ true
    → Outcome e u (r ∷ rs) (react_group u r rs)
unfolding react_group
react_group-Outcome e u r rs h = elim (Bool-cases (contains r.user_ids u)) [
  | inl old ↦ rw old (λ e' u'. ground (arith, eq_iff r.emoji e, eq_iff u u'))
  | inr new ↦ elim (Bool-cases (leb max_users_per_reaction (length r.user_ids))) [
    | inl full ↦ rw (new, full) refl
    | inr room ↦
        rw (new, room)
          (λ e' u'. ground (arith, eq_iff r.emoji e, contains-append r.user_ids (u ∷ []) u'))
  ]
]

behind-Outcome :
    (e u : GoString) (r : Reaction) (rs : List Reaction) (done : Result Bool × List Reaction)
    → Outcome e u rs done
    → Outcome e u (r ∷ rs) (behind r done)
behind-Outcome e u r rs (ok b, rs') h = λ e' u'. ground (arith, h e' u')
behind-Outcome e u r rs (err x, rs') h = ap (λ qs. r ∷ qs) h

react-Outcome :
    (e u : GoString) (rs : List Reaction) (done : Result Bool × List Reaction)
    → react e u rs ≡ some done
    → Outcome e u rs done
unfolding react
react-Outcome e u [] done h = cc
react-Outcome e u (r ∷ rs) done h = elim (Bool-cases (r.emoji == e)) [
  | inl same ↦
      subst (Outcome e u (r ∷ rs)) {x = react_group u r rs} {y = done} (ground arith)
        (react_group-Outcome e u r rs same)
  | inr other ↦ elim (Option-cases (react e u rs)) [
    | inl absent ↦ ground arith
    | inr (d, found) ↦
        subst (Outcome e u (r ∷ rs)) {x = behind r d} {y = done} (ground arith)
          (behind-Outcome e u r rs d (react-Outcome e u rs d found))
  ]
]

open_group-Outcome : (e u : GoString) (rs : List Reaction) → Outcome e u rs (open_group e u rs)
open_group-Outcome e u rs = elim (Bool-cases (leb max_reactions_per_message (length rs))) [
  | inl full ↦ rw full refl
  | inr room ↦ rw room (λ e' u'.
      ground
        (arith, any-append (reacted_in e' u') rs (record { emoji = e; user_ids = u ∷ [] } ∷ [])))
]

add_to_reactions-Outcome :
    (e u : GoString) (rs : List Reaction) → Outcome e u rs (add_to_reactions e u rs)
unfolding add_to_reactions
add_to_reactions-Outcome e u rs = elim (Option-cases (react e u rs)) [
  | inl absent ↦ rw (absent, add_to_reactions) (open_group-Outcome e u rs)
  | inr (d, found) ↦ rw (found, add_to_reactions) (react-Outcome e u rs d found)
]

has_reacted_of_Outcome :
    (e u : GoString) (rs : List Reaction) (done : Result Bool × List Reaction) (e' u' : GoString)
    → Outcome e u rs done
    → has_reacted e' u' done.1 ≡ (has_reacted e' u' rs || (is_ok done.0 && (e == e' && u == u')))
has_reacted_of_Outcome e u rs (ok b, rs') e' u' h = h e' u'
has_reacted_of_Outcome e u rs (err x, rs') e' u' h = ground (arith, ap (has_reacted e' u') h)

-- A user never loses a reaction by AddReaction, and gains only the one asked for: where the call
-- returns no error, who has reacted with what is as before, and this user with this emoji; where it
-- returns an error, as before.
pub has_reacted-add_reaction :
    (m : Message) (e u e' u' : GoString)
    → has_reacted e' u' (add_reaction m e u).1.reactions
      ≡ (has_reacted e' u' m.reactions || (is_ok (add_reaction m e u).0 && (e == e' && u == u')))
unfolding add_reaction
has_reacted-add_reaction m e u e' u' =
    has_reacted_of_Outcome e u m.reactions (add_to_reactions e u m.reactions) e' u'
      (add_to_reactions-Outcome e u m.reactions)

-- Removing one user of a group.
pub remove_first-none :
    (u : GoString) (ids : List GoString) → remove_first u ids ≡ none → contains ids u ≡ false
unfolding remove_first
remove_first-none u [] h = refl
remove_first-none u (uid ∷ ids) h = ground (arith, remove_first-none u ids)

pub contains-remove_first :
    (u v : GoString) (ids rest : List GoString)
    → remove_first u ids ≡ some rest
    → Distinct ids
    → (contains ids u ≡ true) × (contains rest v ≡ (contains ids v && not (u == v)))
unfolding remove_first
contains-remove_first u v [] rest h d = cc
contains-remove_first u v (uid ∷ ids) rest h (n, d) = elim (Bool-cases (uid == u)) [
  | inl same ↦ ground (arith, eq_iff uid u, eq_iff u v)
  | inr other ↦ elim (Option-cases (remove_first u ids)) [
    | inl absent ↦ ground arith
    | inr (r, found) ↦
        ground
          (arith, contains-remove_first u v ids r found d, eq_iff uid u, eq_iff u v, eq_iff uid v)
  ]
]

-- Where no group has the emoji nobody has reacted with it.
has_reacted_of_absent :
    (e u : GoString) (rs : List Reaction)
    → contains (map emoji_of rs) e ≡ false
    → has_reacted e u rs ≡ false
has_reacted_of_absent e u [] h = refl
has_reacted_of_absent e u (r ∷ rs) h = ground (arith, has_reacted_of_absent e u rs)

pub unreact_of_absent :
    (e u : GoString) (rs : List Reaction)
    → contains (map emoji_of rs) e ≡ false
    → unreact e u rs ≡ none
unfolding unreact
unreact_of_absent e u [] h = refl
unreact_of_absent e u (r ∷ rs) h = ground (arith, unreact_of_absent e u rs)

has_reacted-regroup :
    (r : Reaction) (ids : List GoString) (rs : List Reaction) (e u : GoString)
    → has_reacted e u (regroup r ids rs) ≡ ((r.emoji == e && contains ids u) || has_reacted e u rs)
has_reacted-regroup r [] rs e u = ground arith
has_reacted-regroup r (uid ∷ ids) rs e u = refl

unreact-none :
    (e u : GoString) (rs : List Reaction) → unreact e u rs ≡ none → has_reacted e u rs ≡ false
unfolding unreact
unreact-none e u [] h = refl
unreact-none e u (r ∷ rs) h = ground (arith, unreact-none e u rs, remove_first-none u r.user_ids)

unreact-some :
    (e u e' u' : GoString) (rs rest : List Reaction)
    → unreact e u rs ≡ some rest
    → Distinct (map emoji_of rs)
    → All IsGroup rs
    → (has_reacted e u rs ≡ true)
      × (has_reacted e' u' rest ≡ (has_reacted e' u' rs && not (e == e' && u == u')))
unfolding unreact
unreact-some e u e' u' [] rest h d gs = cc
unreact-some e u e' u' (r ∷ rs) rest h (n, d) (g, gs) = elim (Bool-cases (r.emoji == e)) [
  | inl same ↦
      let n' : contains (map emoji_of rs) e ≡ false =
        subst (λ x. contains (map emoji_of rs) x ≡ false) ((eq_iff r.emoji e).0 same) n in
      elim (Option-cases (remove_first u r.user_ids)) [
        | inl absent ↦ ground (arith, unreact_of_absent e u rs n')
        | inr (ids, found) ↦ ground (
          arith,
          contains-remove_first u u' r.user_ids ids found g.distinct,
          has_reacted-regroup r ids rs e' u',
          has_reacted_of_absent e u' rs n',
          eq_iff r.emoji e,
          eq_iff e e',
        )
      ]
  | inr other ↦ elim (Option-cases (unreact e u rs)) [
    | inl absent ↦ ground arith
    | inr (q, found) ↦ ground (
      arith,
      unreact-some e u e' u' rs q found d gs,
      eq_iff r.emoji e,
      eq_iff e e',
      eq_iff r.emoji e',
    )
  ]
]

-- RemoveReaction on a well-formed message returns true exactly where the user had reacted with the
-- emoji; afterwards that reaction is gone, and all others are as before.
pub has_reacted-remove_reaction :
    (m : Message) (e u e' u' : GoString)
    → IsReactable m.reactions
    → ((remove_reaction m e u).0 ≡ has_reacted e u m.reactions)
      × (has_reacted e' u' (remove_reaction m e u).1.reactions
          ≡ (has_reacted e' u' m.reactions && not (e == e' && u == u')))
unfolding remove_reaction
has_reacted-remove_reaction m e u e' u' v = elim (Option-cases (unreact e u m.reactions)) [
  | inl absent ↦ ground (arith, unreact-none e u m.reactions absent, eq_iff e e', eq_iff u u')
  | inr (rs, found) ↦
      ground (arith, unreact-some e u e' u' m.reactions rs found v.distinct v.groups)
]
