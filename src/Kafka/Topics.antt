-- ===== src/Kafka/Topics.antt =====
-- pkg/kafka/topics.go and pkg/kafka/events/topics.go: the names of the topics.
use be_modami_chat_service.Prelude.{
  ◌≡◌, refl, ap, ◌∙◌, sym, Bool, true, false, ◌||◌, List, [], ◌∷◌, ◌++◌, arith, map, all,
  if◌then◌else◌, inl, inr, Bool-cases, append_assoc,
}
use be_modami_chat_service.Text.{GoString, bytes, ◌==◌, is_empty, contains}
use be_modami_chat_service.Text.Laws.{eq_iff, eq_refl}
use be_modami_chat_service.Kafka.Headers.{get_topic_with_env}

abbrev pub topic_messages_inbound : GoString
topic_messages_inbound = bytes "chat.messages.inbound"

abbrev pub topic_messages_sent : GoString
topic_messages_sent = bytes "chat.messages.sent"

abbrev pub topic_messages_updated : GoString
topic_messages_updated = bytes "chat.messages.updated"

abbrev pub topic_messages_deleted : GoString
topic_messages_deleted = bytes "chat.messages.deleted"

abbrev pub topic_read_receipts : GoString
topic_read_receipts = bytes "chat.read_receipts"

abbrev pub topic_reactions : GoString
topic_reactions = bytes "chat.reactions"

abbrev pub base_topics : List GoString
base_topics =
    topic_messages_inbound ∷ topic_messages_sent ∷ topic_messages_updated ∷ topic_messages_deleted
    ∷ topic_read_receipts ∷ topic_reactions ∷ []

unfoldable pub get_all_topics : (env : GoString) → List GoString
get_all_topics env = map (get_topic_with_env env) base_topics

-- Whether a text ends with another.
has_suffix : (suffix s : GoString) → Bool
has_suffix suffix [] = [] == suffix
has_suffix suffix (x ∷ s) = (x ∷ s) == suffix || has_suffix suffix s

has_suffix-append : (pre suffix : GoString) → has_suffix suffix (pre ++ suffix) ≡ true
unfolding has_suffix
has_suffix-append [] [] = eq_refl []
has_suffix-append [] (x ∷ s) = ground (arith, eq_refl (x ∷ s))
has_suffix-append (y ∷ pre) suffix = ground (arith, has_suffix-append pre suffix)

-- No topic ends with a dot and a topic.
no_prefixed :
    all (λ t. all (λ t'. if has_suffix (46 ∷ t') t then false else true) base_topics) base_topics
    ≡ true
unfolding has_suffix ◌==◌
no_prefixed = refl

all-contains :
    (p : GoString → Bool) (xs : List GoString) (x : GoString)
    → all p xs ≡ true
    → contains xs x ≡ true
    → p x ≡ true
all-contains p [] x h k = cc
all-contains p (y ∷ xs) x h k = elim (Bool-cases (y == x)) [
  | inl here ↦ let same : y ≡ x = (eq_iff y x).0 here in ground (arith, ap p same)
  | inr later ↦ ground (arith, all-contains p xs x)
]

unprefixed :
    (t t' : GoString)
    → contains base_topics t ≡ true
    → contains base_topics t' ≡ true
    → has_suffix (46 ∷ t') t ≡ false
unprefixed t t' h h' =
    let row =
      all-contains (λ t. all (λ t'. if has_suffix (46 ∷ t') t then false else true) base_topics)
        base_topics t no_prefixed h in
    let cell =
      all-contains (λ t'. if has_suffix (46 ∷ t') t then false else true) base_topics t' row h' in
    ground arith

apart :
    (env t t' : GoString)
    → is_empty env ≡ false
    → contains base_topics t ≡ true
    → contains base_topics t' ≡ true
    → (get_topic_with_env env t' == t) ≡ false
unfolding get_topic_with_env
apart env t t' some_env h h' = elim (Bool-cases (get_topic_with_env env t' == t)) [
  | inr differ ↦ differ
  | inl same ↦
      let eq : get_topic_with_env env t' ≡ t = (eq_iff (get_topic_with_env env t') t).0 same in
      let suffix : has_suffix (46 ∷ t') t ≡ true =
        ap (has_suffix (46 ∷ t')) (sym (rw some_env at eq) ∙ append_assoc env (bytes ".") t')
        ∙ has_suffix-append env (46 ∷ t') in
      cc (unprefixed t t' h h')
]

-- With an environment, no topic's own name is among the names that the service creates and
-- subscribes to: each of these has the prefix.
pub unprefixed_topics :
    (env t : GoString)
    → is_empty env ≡ false
    → contains base_topics t ≡ true
    → contains (get_all_topics env) t ≡ false
unfolding get_all_topics ◌==◌
unprefixed_topics env t some_env h =
    rw
      (
        apart env t topic_messages_inbound some_env h refl,
        apart env t topic_messages_sent some_env h refl,
        apart env t topic_messages_updated some_env h refl,
        apart env t topic_messages_deleted some_env h refl,
        apart env t topic_read_receipts some_env h refl,
        apart env t topic_reactions some_env h refl,
      )
      refl
