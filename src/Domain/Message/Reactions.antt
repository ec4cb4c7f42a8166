-- ===== src/Domain/Message/Reactions.antt =====
-- The reactions of a message: AddReaction and RemoveReaction keep them well formed, and change who
-- has reacted exactly as asked.
use mathlib.Core.Path.{subst}
use be_modami_chat_service.Prelude.{
  ◌≡◌, refl, ap, ◌≤◌, Bool, false, ◌&&◌, List, [], ◌∷◌, ◌++◌, none, some, arith, map, length,
  length-append, any, All, Option-cases, Bool-cases, inl, inr, leb,
}
use be_modami_chat_service.Text.{GoString, ◌==◌, contains}
use be_modami_chat_service.Text.Sets.{Distinct, Distinct-append_one}
use be_modami_chat_service.Result.{Result}
use be_modami_chat_service.Domain.Message.{
  Message, Reaction, max_reactions_per_message, max_users_per_reaction, react_group, react,
  open_group, add_to_reactions, add_reaction,
}

abbrev pub emoji_of : Reaction → GoString
emoji_of r = r.emoji

-- A group holds from 1 to 50 users, each once.
pub record IsGroup (r : Reaction) : Type 0 where
  pub distinct : Distinct r.user_ids
  pub used : 1 ≤ length r.user_ids
  pub few : length r.user_ids ≤ max_users_per_reaction

-- The reactions are at most 20 groups, one for an emoji.
pub record IsReactable (rs : List Reaction) : Type 0 where
  pub distinct : Distinct (map emoji_of rs)
  pub groups : All IsGroup rs
  pub few : length rs ≤ max_reactions_per_message

abbrev pub reacted_in : GoString → GoString → Reaction → Bool
reacted_in emoji user_id r = r.emoji == emoji && contains r.user_ids user_id

-- Whether a user has reacted with an emoji.
abbrev pub has_reacted : GoString → GoString → List Reaction → Bool
has_reacted emoji user_id rs = any (reacted_in emoji user_id) rs

abbrev Keeps : List Reaction → Result Bool × List Reaction → Type 0
Keeps rs done =
    All IsGroup done.1 × (map emoji_of done.1 ≡ map emoji_of rs) × (length done.1 ≡ length rs)

react_group-Keeps :
    (u : GoString) (r : Reaction) (rs : List Reaction)
    → IsGroup r
    → All IsGroup rs
    → Keeps (r ∷ rs) (react_group u r rs)
unfolding react_group
react_group-Keeps u r rs g gs =
    ground (arith, Distinct-append_one r.user_ids u, length-append r.user_ids (u ∷ []))

-- Where the loop finds the emoji the groups stay well formed, with the same emojis.
react-Keeps :
    (e u : GoString) (rs : List Reaction) (done : Result Bool × List Reaction)
    → react e u rs ≡ some done
    → All IsGroup rs
    → Keeps rs done
unfolding react
react-Keeps e u [] done h gs = cc
react-Keeps e u (r ∷ rs) done h (g, gs) = elim (Bool-cases (r.emoji == e)) [
  | inl same ↦
      subst (Keeps (r ∷ rs)) {x = react_group u r rs} {y = done} (ground arith)
        (react_group-Keeps u r rs g gs)
  | inr other ↦ elim (Option-cases (react e u rs)) [
    | inl absent ↦ ground arith
    | inr (d, found) ↦ ground (arith, react-Keeps e u rs d found gs)
  ]
]

-- The loop finds no group only where no group has the emoji.
pub react-none :
    (e u : GoString) (rs : List Reaction)
    → react e u rs ≡ none
    → contains (map emoji_of rs) e ≡ false
unfolding react
react-none e u [] h = refl
react-none e u (r ∷ rs) h = ground (arith, react-none e u rs)

map-append_one :
    (rs : List Reaction) (r : Reaction)
    → map emoji_of (rs ++ r ∷ []) ≡ map emoji_of rs ++ r.emoji ∷ []
map-append_one [] r = refl
map-append_one (q ∷ rs) r = ap (λ es. q.emoji ∷ es) (map-append_one rs r)

All-append_one :
    (rs : List Reaction) (r : Reaction) → All IsGroup rs → IsGroup r → All IsGroup (rs ++ r ∷ [])
All-append_one [] r gs g = (g, tt)
All-append_one (q ∷ rs) r (h, gs) g = (h, All-append_one rs r gs g)

open_group-IsReactable :
    (e u : GoString) (rs : List Reaction)
    → contains (map emoji_of rs) e ≡ false
    → IsReactable rs
    → IsReactable (open_group e u rs).1
open_group-IsReactable e u rs h v =
    let r : Reaction = record { emoji = e; user_ids = u ∷ [] } in
    elim (Bool-cases (leb max_reactions_per_message (length rs))) [
      | inl full ↦ rw full v
      | inr room ↦ rw room (record {
        distinct = rw (map-append_one rs r) (Distinct-append_one (map emoji_of rs) e v.distinct h);
        groups =
            All-append_one rs r v.groups
              (record { distinct = (refl, tt); used = omega arith; few = omega arith });
        few = ground (arith, length-append rs (r ∷ []));
      })
    ]

add_to_reactions-IsReactable :
    (e u : GoString) (rs : List Reaction) → IsReactable rs → IsReactable (add_to_reactions e u rs).1
unfolding add_to_reactions
add_to_reactions-IsReactable e u rs v = elim (Option-cases (react e u rs)) [
  | inl absent ↦
      rw (absent, add_to_reactions) (open_group-IsReactable e u rs (react-none e u rs absent) v)
  | inr (d, found) ↦
      let (gs, same, size) = react-Keeps e u rs d found v.groups in
      rw (found, add_to_reactions)
        (record { distinct = rw same v.distinct; groups = gs; few = rw size v.few })
]

-- AddReaction on a well-formed message leaves well-formed reactions, whatever its result: at most 20
-- groups, one for an emoji, each of 1 to 50 users without repetition.
pub add_reaction-IsReactable :
    (m : Message) (e u : GoString)
    → IsReactable m.reactions
    → IsReactable (add_reaction m e u).1.reactions
unfolding add_reaction
add_reaction-IsReactable m e u v = add_to_reactions-IsReactable e u m.reactions v
