-- ===== src/Kafka/Routing.antt =====
-- KafkaService.StartConsumer (pkg/kafka/kafka_service.go): which handlers get a record, and to which
-- topics the client subscribes.
use be_modami_chat_service.Prelude.{
  ◌≡◌, refl, ap, sym, ◌∙◌, Bool, true, false, ◌||◌, List, [], ◌∷◌, ◌++◌, if◌then◌else◌, arith,
  append_assoc, append-nil, Bool-cases, inl, inr,
}
use be_modami_chat_service.Text.{GoString, ◌==◌, contains}
use be_modami_chat_service.Text.Laws.{eq_iff}
use be_modami_chat_service.Text.Sets.{
  Distinct, contains_of_eq, Distinct-append_one, contains-append,
}
use be_modami_chat_service.Exec.{Exec}
use be_modami_chat_service.Kafka.Headers.{get_topic_with_env}
use be_modami_chat_service.Kafka.Consumer.{Record}

-- A handler with the topics that it lists; `H` stands for its HandleMessage.
pub record ConsumerHandler (H : Type 0) : Type 0 where
  pub get_topics : List GoString
  pub handler : H

-- The slice `topics` and the map `handlerMap`.
pub record Routes (H : Type 0) : Type 0 where
  pub topics : List GoString
  pub handler_map : List (GoString × List H)

module _ {H : Type 0} where
  -- handlerMap[topic], which is empty where there is no entry.
  unfoldable pub lookup : List (GoString × List H) → GoString → List H
  lookup [] topic = []
  lookup (entry ∷ m) topic = let rest = lookup m topic in if entry.0 == topic then entry.1 else rest

  -- handlerMap[topic] = append(handlerMap[topic], handler)
  unfoldable pub append_handler : GoString → H → List (GoString × List H) → List (GoString × List H)
  append_handler topic h [] = (topic, h ∷ []) ∷ []
  append_handler topic h (entry ∷ m) =
      let rest = entry ∷ append_handler topic h m in
      if entry.0 == topic then (entry.0, entry.1 ++ h ∷ []) ∷ m else rest

  unfoldable pub add_topic : (env : GoString) → H → GoString → Routes H → Routes H
  add_topic env h topic routes =
      let topic_name = get_topic_with_env env topic in
      record {
        topics =
            if contains routes.topics topic_name
            then routes.topics
            else routes.topics ++ topic_name ∷ [];
        handler_map = append_handler topic_name h routes.handler_map;
      }

  -- The two loops over the handlers and their topics.
  unfoldable pub add_topics : (env : GoString) → H → List GoString → Routes H → Routes H
  add_topics env h [] routes = routes
  add_topics env h (topic ∷ topics) routes = add_topics env h topics (add_topic env h topic routes)

  unfoldable pub add_handlers : (env : GoString) → List (ConsumerHandler H) → Routes H → Routes H
  add_handlers env [] routes = routes
  add_handlers env (c ∷ cs) routes =
      add_handlers env cs (add_topics env c.handler c.get_topics routes)

  -- A record to its handlers, one after the other, whose errors are only logged.
  unfoldable pub dispatch :
      {W : Type 0} → (handle_message : H → Record → Exec W (Unit {0})) → List H → Record → W → W
  dispatch handle_message [] record' w = w
  dispatch handle_message (h ∷ hs) record' w =
      dispatch handle_message hs record' (handle_message h record' w).1

abbrev pub no_routes : {H : Type 0} → Routes H
no_routes = record { topics = []; handler_map = [] }

-- The handlers that list a topic, once for each time that they list it, in their order.
abbrev pub listing_in : {H : Type 0} → GoString → H → List GoString → GoString → List H
listing_in env h [] topic = []
listing_in env h (t ∷ ts) topic =
    let rest = listing_in env h ts topic in
    if get_topic_with_env env t == topic then h ∷ rest else rest

abbrev pub listing : {H : Type 0} → GoString → List (ConsumerHandler H) → GoString → List H
listing env [] topic = []
listing env (c ∷ cs) topic = listing_in env c.handler c.get_topics topic ++ listing env cs topic

module _ {H : Type 0} where
  abbrev one_if : Bool → H → List H
  one_if true h = h ∷ []
  one_if false h = []

  lookup-append_handler :
      (n : GoString) (h : H) (m : List (GoString × List H)) (t : GoString)
      → lookup (append_handler n h m) t ≡ lookup m t ++ one_if (n == t) h
  unfolding lookup append_handler
  lookup-append_handler n h [] t = elim (Bool-cases (n == t)) [
    | inl here ↦ rw here refl
    | inr there ↦ rw there refl
  ]
  lookup-append_handler n h ((k, hs) ∷ m) t = elim (Bool-cases (k == n)) [
    | inl same ↦
        let agree : (n == t) ≡ (k == t) = ground (arith, eq_iff k n) in
        elim (Bool-cases (k == t)) [
          | inl here ↦ rw (same, agree, here) refl
          | inr there ↦ rw (same, agree, there) (sym (append-nil (lookup m t)))
        ]
    | inr other ↦ elim (Bool-cases (k == t)) [
      | inl here ↦
          let apart : (n == t) ≡ false = ground (arith, eq_iff n t, eq_iff k t, eq_iff k n) in
          rw (other, apart, here) (sym (append-nil hs))
      | inr there ↦ rw (other, there) (lookup-append_handler n h m t)
    ]
  ]

  abbrev pub some_handler : List H → Bool
  some_handler [] = false
  some_handler (h ∷ hs) = true

  some_handler-append :
      (hs : List H) (b : Bool) (h : H) → some_handler (hs ++ one_if b h) ≡ (some_handler hs || b)
  some_handler-append [] true h = refl
  some_handler-append [] false h = refl
  some_handler-append (x ∷ hs) b h = refl

  listing_in-cons :
      (env : GoString) (h : H) (t : GoString) (ts : List GoString) (topic : GoString)
      → listing_in env h (t ∷ ts) topic
        ≡ one_if (get_topic_with_env env t == topic) h ++ listing_in env h ts topic
  listing_in-cons env h t ts topic = elim (Bool-cases (get_topic_with_env env t == topic)) [
    | inl here ↦ rw here refl
    | inr there ↦ rw there refl
  ]

  lookup-add_topics :
      (env : GoString) (h : H) (ts : List GoString) (routes : Routes H) (topic : GoString)
      → lookup (add_topics env h ts routes).handler_map topic
        ≡ lookup routes.handler_map topic ++ listing_in env h ts topic
  unfolding add_topics add_topic
  lookup-add_topics env h [] routes topic = sym (append-nil (lookup routes.handler_map topic))
  lookup-add_topics env h (t ∷ ts) routes topic =
      lookup-add_topics env h ts (add_topic env h t routes) topic
      ∙ ap (λ r. r ++ listing_in env h ts topic)
          (lookup-append_handler (get_topic_with_env env t) h routes.handler_map topic)
      ∙ append_assoc (lookup routes.handler_map topic)
          (one_if (get_topic_with_env env t == topic) h) (listing_in env h ts topic)
      ∙ ap (λ r. lookup routes.handler_map topic ++ r) (sym (listing_in-cons env h t ts topic))

  pub lookup-add_handlers :
      (env : GoString) (cs : List (ConsumerHandler H)) (routes : Routes H) (topic : GoString)
      → lookup (add_handlers env cs routes).handler_map topic
        ≡ lookup routes.handler_map topic ++ listing env cs topic
  unfolding add_handlers
  lookup-add_handlers env [] routes topic = sym (append-nil (lookup routes.handler_map topic))
  lookup-add_handlers env (c ∷ cs) routes topic =
      lookup-add_handlers env cs (add_topics env c.handler c.get_topics routes) topic
      ∙ ap (λ r. r ++ listing env cs topic)
          (lookup-add_topics env c.handler c.get_topics routes topic)
      ∙ append_assoc (lookup routes.handler_map topic) (listing_in env c.handler c.get_topics topic)
          (listing env cs topic)

  -- The topics of a client: each once, and those with a handler.
  pub record Subscribed (routes : Routes H) : Type 0 where
    pub distinct : Distinct routes.topics
    pub handled :
        (t : GoString) → contains routes.topics t ≡ some_handler (lookup routes.handler_map t)

  with_name :
      (n t : GoString) (routes : Routes H)
      → contains (if contains routes.topics n then routes.topics else routes.topics ++ n ∷ []) t
        ≡ (contains routes.topics t || n == t)
  with_name n t routes = elim (Bool-cases (contains routes.topics n)) [
    | inl old ↦ rw old (ground (arith, old, eq_iff n t, contains_of_eq routes.topics n t))
    | inr new ↦ rw new (ground (arith, contains-append routes.topics (n ∷ []) t))
  ]

  added :
      (n t : GoString) (h : H) (routes : Routes H)
      → contains routes.topics t ≡ some_handler (lookup routes.handler_map t)
      → contains (if contains routes.topics n then routes.topics else routes.topics ++ n ∷ []) t
        ≡ some_handler (lookup (append_handler n h routes.handler_map) t)
  added n t h routes old =
      with_name n t routes
      ∙ ap (λ b. b || n == t) old
      ∙ sym (some_handler-append (lookup routes.handler_map t) (n == t) h)
      ∙ ap some_handler (sym (lookup-append_handler n h routes.handler_map t))

  add_topic-Subscribed :
      (env : GoString) (h : H) (topic : GoString) (routes : Routes H)
      → Subscribed routes
      → Subscribed (add_topic env h topic routes)
  unfolding add_topic
  add_topic-Subscribed env h topic routes subscribed =
      let n = get_topic_with_env env topic in
      record {
        distinct = elim (Bool-cases (contains routes.topics n)) [
          | inl old ↦ rw old subscribed.distinct
          | inr new ↦ rw new (Distinct-append_one routes.topics n subscribed.distinct new)
        ];
        handled = λ t. added n t h routes (subscribed.handled t);
      }

  add_topics-Subscribed :
      (env : GoString) (h : H) (ts : List GoString) (routes : Routes H)
      → Subscribed routes
      → Subscribed (add_topics env h ts routes)
  unfolding add_topics
  add_topics-Subscribed env h [] routes subscribed = subscribed
  add_topics-Subscribed env h (t ∷ ts) routes subscribed =
      add_topics-Subscribed env h ts (add_topic env h t routes)
        (add_topic-Subscribed env h t routes subscribed)

  pub add_handlers-Subscribed :
      (env : GoString) (cs : List (ConsumerHandler H)) (routes : Routes H)
      → Subscribed routes
      → Subscribed (add_handlers env cs routes)
  unfolding add_handlers
  add_handlers-Subscribed env [] routes subscribed = subscribed
  add_handlers-Subscribed env (c ∷ cs) routes subscribed =
      add_handlers-Subscribed env cs (add_topics env c.handler c.get_topics routes)
        (add_topics-Subscribed env c.handler c.get_topics routes subscribed)

  pub no_routes-Subscribed : Subscribed no_routes
  unfolding lookup
  no_routes-Subscribed = record { distinct = tt; handled = λ t. refl }

  -- A call of a handler that leaves the handler's name in the world.
  abbrev noted :
      {W : Type 0} → (H → Record → Exec W (Unit {0})) → H → Record → Exec (W × List H) (Unit {0})
  noted handle_message h record' (w, log) =
      let (r, w') = handle_message h record' w in (r, (w', log ++ h ∷ []))

  dispatch-noted :
      {W : Type 0} (handle_message : H → Record → Exec W (Unit {0})) (hs : List H)
      (record' : Record) (w : W) (log : List H)
      → (dispatch (noted handle_message) hs record' (w, log)).1 ≡ log ++ hs
  unfolding dispatch
  dispatch-noted handle_message [] record' w log = sym (append-nil log)
  dispatch-noted handle_message (h ∷ hs) record' w log =
      dispatch-noted handle_message hs record' (handle_message h record' w).1 (log ++ h ∷ [])
      ∙ append_assoc log (h ∷ []) hs

  -- StartConsumer subscribes to each topic once, and to those alone that a handler lists, with the
  -- environment's prefix; a record goes to the handlers that list its topic, in their order and
  -- once for each time that they list it, also after one of them has failed.
  dispatch-add_handlers :
      {W : Type 0} (env : GoString) (cs : List (ConsumerHandler H))
      (handle_message : H → Record → Exec W (Unit {0})) (record' : Record) (w : W)
      → Subscribed (add_handlers env cs no_routes)
        × ((dispatch
              (noted handle_message)
              (lookup (add_handlers env cs no_routes).handler_map record'.topic)
              record'
              (w, [])).1
            ≡ listing env cs record'.topic)
  unfolding lookup
  dispatch-add_handlers env cs handle_message record' w = (
    add_handlers-Subscribed env cs no_routes no_routes-Subscribed,
    dispatch-noted handle_message (lookup (add_handlers env cs no_routes).handler_map record'.topic)
          record' w []
        ∙ lookup-add_handlers env cs no_routes record'.topic,
  )
