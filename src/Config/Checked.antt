-- ===== src/Config/Checked.antt =====
-- What a configuration that passes the checks of config/config.go gives its users.
use be_modami_chat_service.Prelude.{
  ℕ, ◌≤◌, ◌≡◌, ◌↔◌, refl, ap, ◌∙◌, Bool, true, false, not, List, [], ◌∷◌, ◌++◌, arith, eqb, eqb_iff,
  length, any, all, Bool-cases, inl, inr,
}
use be_modami_chat_service.Prelude.Int.{pos, to_nat}
use be_modami_chat_service.Text.{GoString, is_empty}
use be_modami_chat_service.Result.{ok}
use be_modami_chat_service.Config.{Config, KafkaConfig, validate, brokers, split_commas, cons_part}

-- strings.Join(parts, ",")
abbrev pub join_commas : List GoString → GoString
join_commas [] = []
join_commas (part ∷ []) = part
join_commas (part ∷ q ∷ parts) = part ++ 44 ∷ join_commas (q ∷ parts)

abbrev pub has_comma : GoString → Bool
has_comma s = any (eqb 44) s

split_commas_cons :
    (s : GoString) → (part : GoString) × (parts : List GoString) × (split_commas s ≡ part ∷ parts)
unfolding split_commas
split_commas_cons [] = ([], [], refl)
split_commas_cons (c ∷ s) =
    let (part, parts, eq) = split_commas_cons s in
    elim (Bool-cases (eqb c 44)) [
      | inl comma ↦ ([], split_commas s, rw comma refl)
      | inr other ↦ (c ∷ part, parts, rw (other, eq) refl)
    ]

join-cons_part :
    (c : ℕ) (parts : List GoString) → join_commas (cons_part c parts) ≡ c ∷ join_commas parts
join-cons_part c [] = refl
join-cons_part c (part ∷ []) = refl
join-cons_part c (part ∷ q ∷ parts) = refl

join-split : (s : GoString) → join_commas (split_commas s) ≡ s
unfolding split_commas
join-split [] = refl
join-split (c ∷ s) =
    let (part, parts, eq) = split_commas_cons s in
    let back : join_commas (part ∷ parts) ≡ s = rw eq at (join-split s) in
    elim (Bool-cases (eqb c 44)) [
      | inl comma ↦
          let same : c ≡ 44 = (eqb_iff c 44).0 comma in rw (comma, eq) (rw (back, same) refl)
      | inr other ↦ rw other (join-cons_part c (split_commas s) ∙ ap (λ r. c ∷ r) (join-split s))
    ]

abbrev comma_free : GoString → Bool
comma_free part = not (has_comma part)

all-cons_part :
    (c : ℕ) (parts : List GoString)
    → eqb c 44 ≡ false
    → all comma_free parts ≡ true
    → all comma_free (cons_part c parts) ≡ true
all-cons_part c [] other h = ground arith
all-cons_part c (part ∷ parts) other h = ground arith

split_commas_free : (s : GoString) → all comma_free (split_commas s) ≡ true
unfolding split_commas
split_commas_free [] = refl
split_commas_free (c ∷ s) = elim (Bool-cases (eqb c 44)) [
  | inl comma ↦ rw comma (split_commas_free s)
  | inr other ↦ rw other (all-cons_part c (split_commas s) other (split_commas_free s))
]

-- What the checks of the configuration leave, and only they: there is a host of ScyllaDB, a keyspace,
-- a host of Redis, a list of brokers that is not empty, and a port from 1 to 65535.
abbrev pub IsSound : Config → Type 0
IsSound c =
    (1 ≤ length c.scylladb.hosts)
    × (is_empty c.scylladb.keyspace ≡ false)
    × (is_empty c.redis.host ≡ false)
    × (is_empty c.kafka.broker_list ≡ false)
    × (c.app.port ≡ pos (to_nat c.app.port))
    × (1 ≤ to_nat c.app.port)
    × (to_nat c.app.port ≤ 65535)

validate-IsSound : (c : Config) → validate c ≡ ok tt → IsSound c
unfolding validate
validate-IsSound c h = ground arith

IsSound-validate : (c : Config) → IsSound c → validate c ≡ ok tt
unfolding validate
IsSound-validate c h = ground arith

-- The configuration passes the checks exactly if there is a host of ScyllaDB, a keyspace, a host of
-- Redis, a list of brokers that is not empty, and a port from 1 to 65535.
pub validate_iff-IsSound : (c : Config) → (validate c ≡ ok tt) ↔ IsSound c
validate_iff-IsSound c = (validate-IsSound c, IsSound-validate c)

-- The brokers are the texts without a comma that the list joins by commas.
brokers_lem :
    (k : KafkaConfig)
    → (join_commas (brokers k) ≡ k.broker_list) × (all comma_free (brokers k) ≡ true)
unfolding brokers
brokers_lem k = (join-split k.broker_list, split_commas_free k.broker_list)
