-- ===== src/Kafka/Headers.antt =====
-- KafkaHeaderCarrier (pkg/kafka/trace_propagation.go) and the names of topics (pkg/kafka/topics.go).
use be_modami_chat_service.Prelude.{
  ◌≡◌, refl, List, [], ◌∷◌, ◌++◌, map, if◌then◌else◌, arith, ◌||◌, Bool-cases, inl, inr,
}
use be_modami_chat_service.Text.{GoString, bytes, ◌==◌, is_empty, contains}
use be_modami_chat_service.Text.Laws.{eq_iff}

pub record RecordHeader : Type 0 where
  pub key : GoString
  pub value : GoString

-- Get
unfoldable pub get : List RecordHeader → GoString → GoString
get [] key = []
get (h ∷ hs) key = let rest = get hs key in if h.key == key then h.value else rest

-- Set
unfoldable pub set : List RecordHeader → (key value : GoString) → List RecordHeader
set [] key value = record { key = key; value = value } ∷ []
set (h ∷ hs) key value =
    let rest = h ∷ set hs key value in
    if h.key == key then record h { value = value } ∷ hs else rest

abbrev pub key_of : RecordHeader → GoString
key_of h = h.key

unfoldable pub keys : List RecordHeader → List GoString
keys hs = map key_of hs

unfoldable pub get_topic_with_env : (env topic : GoString) → GoString
get_topic_with_env env topic = if is_empty env then topic else env ++ bytes "." ++ topic

-- After a header is set it is read back, every other one reads as before, and the keys are those
-- from before and the one that was set.
pub get-set :
    (hs : List RecordHeader) (k v k' : GoString)
    → (get (set hs k v) k' ≡ (if k == k' then v else get hs k'))
      × (contains (keys (set hs k v)) k' ≡ (contains (keys hs) k' || k == k'))
unfolding get set keys
get-set [] k v k' = (refl, ground arith)
get-set (h ∷ hs) k v k' = elim (Bool-cases (h.key == k)) [
  | inl here ↦
      rw here (
        ground (arith, eq_iff h.key k, eq_iff h.key k', eq_iff k k'),
        ground (arith, eq_iff h.key k),
      )
  | inr there ↦
      let (same_value, same_keys) = get-set hs k v k' in
      rw there (
        ground (arith, same_value, eq_iff h.key k, eq_iff h.key k', eq_iff k k'),
        ground (arith, same_keys),
      )
]
