-- ===== src/Kafka/Polling/Trace.antt =====
-- What a consumer does between two polls, seen on a trace of its calls.
use be_modami_chat_service.Prelude.{
  ℕ, zero, suc, ◌≡◌, refl, ap, sym, ◌∙◌, Bool, true, false, List, [], ◌∷◌, ◌++◌, map, Option, none,
  some, Time, append_assoc, append-nil, Bool-cases, inl, inr,
}
use be_modami_chat_service.Text.{GoString}
use be_modami_chat_service.Exec.{Exec}
use be_modami_chat_service.Kafka.Consumer.{Record}
use be_modami_chat_service.Kafka.Routing.{
  ConsumerHandler, Routes, Subscribed, lookup, add_handlers, dispatch, no_routes, listing,
  lookup-add_handlers, add_handlers-Subscribed, no_routes-Subscribed,
}
use be_modami_chat_service.Kafka.Polling.{
  Fetches, PollClient, one_second, two_seconds, dispatch_all, retry, after_error, after_poll,
  poll_loop, run_consumer,
}

pub data Event (H : Type 0) : Type 0 where
  subscribed : List GoString → Event H
  polled : Fetches → (cancelled : Bool) → Event H
  handled : H → Record → Event H
  refreshed : Event H
  slept : Time → Event H

module _ {W H : Type 0} where
  -- A client and a handler that note their calls.
  abbrev pub noting : PollClient W → PollClient (W × List (Event H))
  noting client = record {
    add_consume_topics =
        λ topics st. (client.add_consume_topics topics st.0, st.1 ++ subscribed topics ∷ []);
    poll_fetches = λ st.
        let (fetches, w) = client.poll_fetches st.0 in
        (fetches, (w, st.1 ++ polled fetches (client.cancelled w) ∷ []));
    cancelled = λ st. client.cancelled st.0;
    force_metadata_refresh = λ st. (client.force_metadata_refresh st.0, st.1 ++ refreshed ∷ []);
    sleep = λ time st. (client.sleep time st.0, st.1 ++ slept time ∷ []);
  }

  abbrev pub noting_handler :
      (H → Record → Exec W (Unit {0})) → H → Record → Exec (W × List (Event H)) (Unit {0})
  noting_handler handle_message h record' (w, log) =
      let (r, w') = handle_message h record' w in (r, (w', log ++ handled h record' ∷ []))

-- The calls of the handlers that a poll's records are due: each record in its order, to each handler
-- that lists its topic.
abbrev pub calls_of :
    {H : Type 0} → (env : GoString) → List (ConsumerHandler H) → List Record → List (Event H)
calls_of env cs [] = []
calls_of env cs (r ∷ rs) = map (λ h. handled h r) (listing env cs r.topic) ++ calls_of env cs rs

abbrev pub reaction_to :
    {H : Type 0}
    → (env : GoString) → List (ConsumerHandler H)
    → Option Bool
    → List Record
    → Bool
    → List (Event H)
reaction_to env cs none rs cancelled = calls_of env cs rs
reaction_to env cs (some unknown_topic_id) rs true = []
reaction_to env cs (some true) rs false =
    refreshed ∷ subscribed (add_handlers env cs no_routes).topics ∷ slept two_seconds ∷ []
reaction_to env cs (some false) rs false = slept one_second ∷ []

-- What the loop does after a poll: nothing but these calls where there is no error, and where there
-- is one nothing with the records beside it.
abbrev pub reaction :
    {H : Type 0} → (env : GoString) → List (ConsumerHandler H) → Fetches × Bool → List (Event H)
reaction env cs (fetches, cancelled) = reaction_to env cs fetches.error fetches.records cancelled

-- Whether the loop returns after a poll.
abbrev pub returns : Option Bool → Bool → Bool
returns none cancelled = false
returns (some unknown_topic_id) cancelled = cancelled

abbrev pub trace_of :
    {H : Type 0}
    → (env : GoString) → List (ConsumerHandler H)
    → List (Fetches × Bool)
    → List (Event H)
trace_of env cs [] = []
trace_of env cs (p ∷ ps) = polled p.0 p.1 ∷ reaction env cs p ++ trace_of env cs ps

-- The polls of a loop of at most so many polls: only the last one can make it return, and where none
-- does there are as many as the loop may do.
pub data IsRun : ℕ → Bool → List (Fetches × Bool) → Type 0 where
  out_of_polls : IsRun zero false []
  returned :
      {n : ℕ} (p : Fetches × Bool) → returns p.0.error p.1 ≡ true → IsRun (suc n) true (p ∷ [])
  goes_on :
      {n : ℕ} {b : Bool} {ps : List (Fetches × Bool)} (p : Fetches × Bool)
      → returns p.0.error p.1 ≡ false
      → IsRun n b ps
      → IsRun (suc n) b (p ∷ ps)

module _ {W H : Type 0} (client : PollClient W) (handle_message : H → Record → Exec W (Unit {0}))
    (env : GoString) (cs : List (ConsumerHandler H)) where
  abbrev routes : Routes H
  routes = add_handlers env cs no_routes

  dispatch-noting :
      (hs : List H) (r : Record) (st : W × List (Event H))
      → (dispatch (noting_handler handle_message) hs r st).1 ≡ st.1 ++ map (λ h. handled h r) hs
  unfolding dispatch
  dispatch-noting [] r st = sym (append-nil st.1)
  dispatch-noting (h ∷ hs) r (w, log) =
      dispatch-noting hs r ((handle_message h r w).1, log ++ handled h r ∷ [])
      ∙ append_assoc log (handled h r ∷ []) (map (λ h. handled h r) hs)

  dispatch_all-noting :
      (rs : List Record) (st : W × List (Event H))
      → (dispatch_all (noting client) (noting_handler handle_message) routes rs st).1
        ≡ st.1 ++ calls_of env cs rs
  unfolding dispatch_all lookup
  dispatch_all-noting [] st = sym (append-nil st.1)
  dispatch_all-noting (r ∷ rs) st =
      let hs = lookup routes.handler_map r.topic in
      let due : hs ≡ listing env cs r.topic = lookup-add_handlers env cs no_routes r.topic in
      dispatch_all-noting rs (dispatch (noting_handler handle_message) hs r st)
      ∙ ap (λ l. l ++ calls_of env cs rs)
          (dispatch-noting hs r st ∙ ap (λ l. st.1 ++ map (λ h. handled h r) l) due)
      ∙ append_assoc st.1 (map (λ h. handled h r) (listing env cs r.topic)) (calls_of env cs rs)

  -- The loop over the client and the handlers that note their calls.
  abbrev noted_loop : ℕ → W × List (Event H) → Bool × (W × List (Event H))
  noted_loop n st = poll_loop (noting client) (noting_handler handle_message) n routes st

  -- How a loop of so many polls goes on after a trace that is there already.
  abbrev Traces : ℕ → Bool × (W × List (Event H)) → List (Event H) → Type 0
  Traces n result log =
      (ps : List (Fetches × Bool)) × IsRun n result.0 ps × (result.1.1 ≡ log ++ trace_of env cs ps)

  after_reaction :
      (n : ℕ) (p : Fetches × Bool) (log : List (Event H)) (st : W × List (Event H))
      → returns p.0.error p.1 ≡ false
      → st.1 ≡ (log ++ polled p.0 p.1 ∷ []) ++ reaction env cs p
      → Traces n (noted_loop n st) st.1
      → Traces (suc n) (noted_loop n st) log
  after_reaction n p log st open' so_far (ps, run, eq) = (
    p ∷ ps,
    goes_on p open' run,
    eq
        ∙ ap (λ l. l ++ trace_of env cs ps) so_far
        ∙ append_assoc (log ++ polled p.0 p.1 ∷ []) (reaction env cs p) (trace_of env cs ps)
        ∙ append_assoc log (polled p.0 p.1 ∷ []) (reaction env cs p ++ trace_of env cs ps),
  )

  module _ (n : ℕ) (rest : (st : W × List (Event H)) → Traces n (noted_loop n st) st.1) (w : W)
      (log : List (Event H)) where
    abbrev now_at : Fetches → W × List (Event H)
    now_at f = (w, log ++ polled f (client.cancelled w) ∷ [])

    resumes :
        (unknown : Bool) (rs : List Record)
        → let log' = log ++ polled (record { error = some unknown; records = rs }) false ∷ [] in
          Traces (suc n) (noted_loop n (retry (noting client) routes unknown (w, log'))) log
    resumes true rs =
        let f : Fetches = record { error = some true; records = rs } in
        let log' : List (Event H) = log ++ polled f false ∷ [] in
        let again : List (Event H) = subscribed routes.topics ∷ [] in
        after_reaction n (f, false) log (retry (noting client) routes true (w, log')) refl
          (append_assoc (log' ++ refreshed ∷ []) again (slept two_seconds ∷ [])
            ∙ append_assoc log' (refreshed ∷ []) (again ++ slept two_seconds ∷ []))
          (rest (retry (noting client) routes true (w, log')))
    resumes false rs =
        let f : Fetches = record { error = some false; records = rs } in
        let log' : List (Event H) = log ++ polled f false ∷ [] in
        after_reaction n (f, false) log (retry (noting client) routes false (w, log')) refl refl
          (rest (retry (noting client) routes false (w, log')))

    after_error-Traces :
        (unknown : Bool) (rs : List Record)
        → let f : Fetches = record { error = some unknown; records = rs } in
          Traces
            (suc n)
            (after_error
              (noting client)
              (noting_handler handle_message)
              routes
              (noted_loop n)
              unknown
              (now_at f))
            log
    after_error-Traces unknown rs =
        let f : Fetches = record { error = some unknown; records = rs } in
        elim (Bool-cases (client.cancelled w)) [
          | inl stop ↦ rw stop ((f, true) ∷ [], returned (f, true) refl, refl)
          | inr open' ↦ rw open' (resumes unknown rs)
        ]

    after_poll-Traces :
        (e : Option Bool) (rs : List Record)
        → let f : Fetches = record { error = e; records = rs } in
          Traces
            (suc n)
            (after_poll
              (noting client)
              (noting_handler handle_message)
              routes
              (noted_loop n)
              e
              rs
              (now_at f))
            log
    after_poll-Traces none rs =
        let f : Fetches = record { error = none; records = rs } in
        let st =
          dispatch_all (noting client) (noting_handler handle_message) routes rs (now_at f) in
        after_reaction n (f, client.cancelled w) log st refl (dispatch_all-noting rs (now_at f))
          (rest st)
    after_poll-Traces (some unknown) rs = after_error-Traces unknown rs

  poll_loop-Traces : (n : ℕ) (st : W × List (Event H)) → Traces n (noted_loop n st) st.1
  unfolding poll_loop
  poll_loop-Traces zero st = ([], out_of_polls, sym (append-nil st.1))
  poll_loop-Traces (suc n) (w, log) =
      let (f, w') = client.poll_fetches w in
      after_poll-Traces n (poll_loop-Traces n) w' log f.error f.records

  -- A consumer first subscribes, each topic once. Then every poll without an error is followed by
  -- exactly the calls that its records are due, each record in its order and to each handler that
  -- lists its topic, whatever the handlers return; every poll with an error is followed by no call of
  -- a handler, so that records beside an error are lost, but by a pause, and by a new subscription
  -- where a topic was unknown. It returns exactly at a poll with an error while the context is
  -- cancelled, after which it does nothing.
  pub run_consumer_ends :
      (n : ℕ) (w : W)
      → let result =
          run_consumer (noting client) (noting_handler handle_message) n env cs (w, []) in
        Subscribed routes
        × (ps : List (Fetches × Bool)) × IsRun n result.0 ps
        × (result.1.1 ≡ subscribed routes.topics ∷ trace_of env cs ps)
  unfolding run_consumer
  run_consumer_ends n w =
      let (ps, run, eq) =
        poll_loop-Traces n
          (client.add_consume_topics routes.topics w, subscribed routes.topics ∷ []) in
      (add_handlers-Subscribed env cs no_routes no_routes-Subscribed, ps, run, eq)
