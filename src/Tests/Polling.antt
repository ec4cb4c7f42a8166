-- ===== src/Tests/Polling.antt =====
-- The loop of a consumer at concrete data.
use be_modami_chat_service.Prelude.{
  ℕ, suc, ◌-◌, ◌≤◌, ◌≡◌, refl, Bool, true, false, List, [], ◌∷◌, none, some, length, arith,
}
use be_modami_chat_service.Text.{bytes, ◌==◌}
use be_modami_chat_service.Result.{err, external}
use be_modami_chat_service.Exec.{Exec}
use be_modami_chat_service.Kafka.Headers.{get_topic_with_env}
use be_modami_chat_service.Kafka.Consumer.{Record}
use be_modami_chat_service.Kafka.Routing.{
  ConsumerHandler, Subscribed, lookup, append_handler, add_topic, add_topics, add_handlers,
  dispatch, no_routes,
}
use be_modami_chat_service.Kafka.Polling.{
  Fetches, PollClient, dispatch_all, poll_loop, run_consumer,
}
use be_modami_chat_service.Kafka.Polling.Trace.{
  Event, subscribed, noting, noting_handler, trace_of, IsRun, run_consumer_ends,
}
use be_modami_chat_service.Kafka.Polling.Stops.{Cancels, run_consumer_returns}

-- The world is what the next polls return; the context is cancelled after the last one.
abbrev poll : List Fetches → Fetches × List Fetches
poll [] = (record { error = some false; records = [] }, [])
poll (f ∷ fs) = (f, fs)

abbrev is_over : List Fetches → Bool
is_over [] = true
is_over (f ∷ fs) = false

abbrev client : PollClient (List Fetches)
client = record {
  add_consume_topics = λ topics w. w;
  poll_fetches = poll;
  cancelled = is_over;
  force_metadata_refresh = λ w. w;
  sleep = λ time w. w;
}

-- Every call fails.
abbrev busy : ℕ → Record → Exec (List Fetches) (Unit {0})
busy h r w = (err (external "busy"), w)

abbrev listeners : List (ConsumerHandler ℕ)
listeners =
    record { get_topics = bytes "a" ∷ bytes "b" ∷ []; handler = 1 }
    ∷ record { get_topics = bytes "a" ∷ []; handler = 2 }
    ∷ []

abbrev sent : Record
sent = record {
  topic = bytes "dev.a";
  partition = 0;
  offset = 3;
  key = bytes "c1";
  value = bytes "x";
  headers = [];
}

-- Two records, an unknown topic, and a record beside an error.
abbrev script : List Fetches
script =
    record { error = none; records = sent ∷ sent ∷ [] }
    ∷ record { error = some true; records = [] }
    ∷ record { error = some false; records = sent ∷ [] }
    ∷ []

abbrev ending : Bool × (List Fetches × List (Event ℕ))
ending = run_consumer (noting client) (noting_handler busy) 5 (bytes "dev") listeners (script, [])

-- It returns after two subscriptions, three polls, four calls of handlers, a refresh and a pause.
ending_lem : (ending.0 ≡ true) × (length ending.1.1 ≡ 11)
unfolding run_consumer poll_loop dispatch_all dispatch lookup append_handler add_topic add_topics
    add_handlers get_topic_with_env ◌==◌
ending_lem = (refl, refl)

run_consumer_ends_example :
    Subscribed (add_handlers (bytes "dev") listeners no_routes)
    × (ps : List (Fetches × Bool)) × IsRun 5 ending.0 ps
    × (ending.1.1
        ≡ subscribed (add_handlers (bytes "dev") listeners no_routes).topics
          ∷ trace_of (bytes "dev") listeners ps)
run_consumer_ends_example = run_consumer_ends client busy (bytes "dev") listeners 5 script

poll_counts : (w : List Fetches) → length (poll w).1 ≤ length w - 1
poll_counts [] = omega arith
poll_counts (f ∷ w) = omega arith

due : (w : List Fetches) → length w ≡ 0 → is_over w ≡ true
due [] h = refl
due (f ∷ w) h = cc

poll_fails :
    (w : List Fetches) → is_over w ≡ true → (unknown : Bool) × ((poll w).0.error ≡ some unknown)
poll_fails [] h = (false, refl)
poll_fails (f ∷ w) h = cc

stays : (w : List Fetches) → is_over w ≡ true → is_over (poll w).1 ≡ true
stays [] h = refl
stays (f ∷ w) h = cc

script-Cancels : Cancels client busy length
script-Cancels = record {
  poll_counts = poll_counts;
  subscribing = λ topics w. omega arith;
  refreshing = λ w. omega arith;
  sleeping = λ time w. omega arith;
  handling = λ h r w. omega arith;
  due = due;
  poll_fails = poll_fails;
  stays = stays;
}

run_consumer_returns_example :
    (run_consumer client busy (suc (length script)) (bytes "dev") listeners script).0 ≡ true
run_consumer_returns_example =
    run_consumer_returns client busy length script-Cancels (bytes "dev") listeners script
