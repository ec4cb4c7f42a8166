-- ===== src/Adapter/Repository/ConversationRepo/Keys.antt =====
-- directKey (internal/adapter/repository/conversation_repo.go).
use be_modami_chat_service.Prelude.{
  ◌≡◌, refl, Bool, sym, ap, ◌∙◌, ◌⊎◌, inl, inr, false, [], ◌∷◌, ◌++◌, arith, eqb, any, append_assoc,
}
use be_modami_chat_service.Text.{GoString, bytes}
use be_modami_chat_service.Domain.Conversation.{direct_chat_key}
use be_modami_chat_service.Domain.Conversation.Direct.{direct_chat_key_comm}
use be_modami_chat_service.Adapter.Repository.ConversationRepo.{direct_key}

abbrev pub has_colon : GoString → Bool
has_colon s = any (eqb 58) s

split_unique :
    (a b c d : GoString)
    → has_colon a ≡ false
    → has_colon c ≡ false
    → a ++ 58 ∷ b ≡ c ++ 58 ∷ d
    → (a ≡ c) × (b ≡ d)
split_unique [] b [] d h k eq = (refl, cc)
split_unique [] b (z ∷ c) d h k eq = absurd (ground (arith, eq))
split_unique (x ∷ a) b [] d h k eq = absurd (ground (arith, eq))
split_unique (x ∷ a) b (z ∷ c) d h k eq =
    let (heads, tails) = split_unique a b c d (ground arith) (ground arith) cc in (cc, tails)

abbrev key_text : GoString × GoString → GoString
key_text (u1, u2) = u1 ++ bytes ":" ++ u2

key_cases : (a b : GoString) → (direct_chat_key a b ≡ (a, b)) ⊎ (direct_chat_key a b ≡ (b, a))
key_cases a b = let (same, ordered, cases) = direct_chat_key_comm a b in cases

key_texts :
    (a b c d : GoString) {p q : GoString × GoString}
    → direct_chat_key a b ≡ p
    → direct_chat_key c d ≡ q
    → direct_key a b ≡ direct_key c d
    → key_text p ≡ key_text q
unfolding direct_key
key_texts a b c d hp hq eq = sym (ap key_text hp) ∙ eq ∙ ap key_text hq

same_parts :
    (a b c d : GoString)
    → has_colon a ≡ false
    → has_colon c ≡ false
    → key_text (a, b) ≡ key_text (c, d)
    → (a ≡ c) × (b ≡ d)
same_parts a b c d h k eq =
    split_unique a b c d h k
      (sym (append_assoc a (bytes ":") b) ∙ eq ∙ append_assoc c (bytes ":") d)

swap : {A B : Type 0} → A × B → B × A
swap (a, b) = (b, a)

-- Two pairs of users have the same key only if they are the same pair, in either order, provided
-- that no id has a colon.
direct_key_injective :
    (a b c d : GoString)
    → has_colon a ≡ false
    → has_colon b ≡ false
    → has_colon c ≡ false
    → has_colon d ≡ false
    → direct_key a b ≡ direct_key c d
    → ((a ≡ c) × (b ≡ d)) ⊎ ((a ≡ d) × (b ≡ c))
direct_key_injective a b c d ha hb hc hd eq = elim (key_cases a b) [
  | inl p ↦ elim (key_cases c d) [
    | inl q ↦ inl (same_parts a b c d ha hc (key_texts a b c d p q eq))
    | inr q ↦ inr (same_parts a b d c ha hd (key_texts a b c d p q eq))
  ]
  | inr p ↦ elim (key_cases c d) [
    | inl q ↦ inr (swap (same_parts b a c d hb hc (key_texts a b c d p q eq)))
    | inr q ↦ inl (swap (same_parts b a d c hb hd (key_texts a b c d p q eq)))
  ]
]
