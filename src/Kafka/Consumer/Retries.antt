-- ===== src/Kafka/Consumer/Retries.antt =====
-- How often a handler is called for a message, and when a dead letter is sent.
use be_modami_chat_service.Prelude.{
  ℕ, zero, suc, ◌+◌, ◌≤◌, ◌≡◌, refl, List, some, if◌then◌else◌, Time, arith, inl, inr, Bool-cases,
}
use be_modami_chat_service.Text.{is_empty}
use be_modami_chat_service.Result.{Result, ok, err, Result-cases}
use be_modami_chat_service.Exec.{Exec}
use be_modami_chat_service.Kafka.Consumer.{
  ConsumerOptions, Outcome, Record, TopicHandler, Runtime, recovered, process_message, attempts,
  give_up, send_to_dead_letter_topic, handle_message, find_handler, after_attempt,
}

-- A world that counts the calls of the handler and the dead letters.
pub record Counted (W : Type 0) : Type 0 where
  pub world : W
  pub calls : ℕ
  pub letters : ℕ

abbrev pub start : {W : Type 0} → W → Counted W
start w = record { world = w; calls = 0; letters = 0 }

abbrev called : {W : Type 0} → Counted W → Outcome × W → Outcome × Counted W
called c (outcome, w) = (outcome, record { world = w; calls = suc c.calls; letters = c.letters })

abbrev pub counted_handler : {W P : Type 0} → TopicHandler W P → TopicHandler (Counted W) P
counted_handler h = record {
  topic = h.topic;
  unmarshal = h.unmarshal;
  handler = λ p c. called c (h.handler p c.world);
  options = h.options;
}

abbrev sent : {W : Type 0} → Counted W → Result (Unit {0}) × W → Result (Unit {0}) × Counted W
sent c (r, w) = (r, record { world = w; calls = c.calls; letters = suc c.letters })

abbrev ticked : {W : Type 0} → Counted W → Time × W → Time × Counted W
ticked c (t, w) = (t, record { world = w; calls = c.calls; letters = c.letters })

abbrev pub counted_runtime : {W : Type 0} → Runtime W → Runtime (Counted W)
counted_runtime r = record {
  name = r.name;
  sleep = λ t c. record { world = r.sleep t c.world; calls = c.calls; letters = c.letters };
  now = λ c. ticked c (r.now c.world);
  emit = λ topic key letter headers c. sent c (r.emit topic key letter headers c.world);
}

-- What HandleMessage reports, against the counts.
abbrev pub Reported : {W : Type 0} → ConsumerOptions → Result (Unit {0}) × Counted W → Type 0
Reported options (ok u, c) = (1 ≤ c.calls) × (c.calls ≤ suc options.retry_count) × (c.letters ≡ 0)
Reported options (err e, c) =
    (c.calls ≡ suc options.retry_count)
    × (c.letters ≡ (if is_empty options.dead_letter_topic then 0 else 1))

module _ {W P : Type 0} (runtime : Runtime W) (h : TopicHandler W P) (message : Record)
    (payload : P) (decodes : h.unmarshal message.value ≡ ok payload) where
  -- The counts after a run of at most `most` calls.
  abbrev Attempted : (most : ℕ) → Counted W → Result (Unit {0}) × Counted W → Type 0
  Attempted most c (ok u, c') =
      (suc c.calls ≤ c'.calls) × (c'.calls ≤ c.calls + most) × (c'.letters ≡ c.letters)
  Attempted most c (err e, c') = (c'.calls ≡ c.calls + most) × (c'.letters ≡ c.letters)

  one_attempt : (c : Counted W) → Attempted 1 c (process_message (counted_handler h) message c)
  unfolding process_message
  one_attempt c = rw decodes (elim (Result-cases (recovered (h.handler payload c.world).0)) [
    | inl (u, eq) ↦ rw eq (omega arith, omega arith, refl)
    | inr (e, eq) ↦ rw eq (omega arith, refl)
  ])

  later :
      (left : ℕ) (c c' : Counted W) (r : Result (Unit {0}) × Counted W)
      → Attempted (suc left) c' r
      → c'.calls ≡ c.calls + 1
      → c'.letters ≡ c.letters
      → Attempted (suc (suc left)) c r
  later left c c' (ok u, d) (low, high, same) one kept =
      (omega (arith, low, one), omega (arith, high, one), omega (arith, same, kept))
  later left c c' (err e, d) (all, same) one kept =
      (omega (arith, all, one), omega (arith, same, kept))

  abbrev try' : ℕ → Exec (Counted W) (Unit {0})
  try' left = attempts (counted_runtime runtime) (counted_handler h) message left

  abbrev slept : Counted W → Counted W
  slept c = (counted_runtime runtime).sleep h.options.retry_delay c

  retried :
      (left : ℕ) (c : Counted W) (r : Result (Unit {0}) × Counted W)
      → ((c' : Counted W) → Attempted (suc left) c' (try' left c'))
      → Attempted 1 c r
      → Attempted (suc (suc left)) c (after_attempt (λ e w'. try' left (slept w')) r)
  retried left c (ok u, c') rest first = (first.0, omega (arith, first.1), first.2)
  retried left c (err e, c') rest first =
      later left c (slept c') _ (rest (slept c')) first.0 first.1

  attempts-Attempted : (left : ℕ) (c : Counted W) → Attempted (suc left) c (try' left c)
  unfolding attempts
  attempts-Attempted zero c = one_attempt c
  attempts-Attempted (suc left) c =
      retried left c (process_message (counted_handler h) message c) (attempts-Attempted left)
        (one_attempt c)

  gives_up :
      (w : W) (r : Result (Unit {0}) × Counted W)
      → Attempted (suc h.options.retry_count) (start w) r
      → Reported h.options (give_up (counted_runtime runtime) (counted_handler h) message r)
  unfolding send_to_dead_letter_topic
  gives_up w (ok u, c) (low, high, same) = (low, omega (arith, high), same)
  gives_up w (err e, c) (all, same) = elim (Bool-cases (is_empty h.options.dead_letter_topic)) [
    | inl no_topic ↦ rw no_topic (omega (arith, all), rw no_topic same)
    | inr topic ↦ rw topic (omega (arith, all), rw topic (omega (arith, same)))
  ]

  -- A message whose payload decodes is given to the handler of its topic at least once and at most
  -- RetryCount + 1 times. If HandleMessage reports success, no dead letter was sent; if it reports
  -- an error, all RetryCount + 1 calls were made, and one dead letter was sent if there is a topic
  -- for it and none otherwise.
  pub handle_message_retries :
      (handlers : List (TopicHandler (Counted W) P)) (w : W)
      → find_handler message.topic handlers ≡ some (counted_handler h)
      → Reported h.options (handle_message (counted_runtime runtime) handlers message (start w))
  unfolding handle_message
  handle_message_retries handlers w found =
      rw found (gives_up w _ (attempts-Attempted h.options.retry_count (start w)))
