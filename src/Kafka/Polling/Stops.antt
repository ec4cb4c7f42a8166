-- ===== src/Kafka/Polling/Stops.antt =====
-- A consumer whose context is cancelled at some time returns.
use be_modami_chat_service.Prelude.{
  ℕ, zero, suc, ◌-◌, ◌≤◌, ◌≡◌, refl, Bool, true, false, List, [], ◌∷◌, Option, none, some, inl, inr,
  Bool-cases, arith, Time,
}
use be_modami_chat_service.Text.{GoString}
use be_modami_chat_service.Exec.{Exec}
use be_modami_chat_service.Kafka.Consumer.{Record}
use be_modami_chat_service.Kafka.Routing.{
  ConsumerHandler, Routes, lookup, add_handlers, dispatch, no_routes,
}
use be_modami_chat_service.Kafka.Polling.{
  PollClient, one_second, two_seconds, dispatch_all, retry, after_poll, poll_loop, run_consumer,
}

-- `left` bounds the polls until the context is cancelled: a poll takes one off, no other call adds
-- one, and where none is left the context is cancelled. A poll with a cancelled context returns an
-- error, and a context stays cancelled.
pub record Cancels {W H : Type 0} (client : PollClient W)
    (handle_message : H → Record → Exec W (Unit {0})) (left : W → ℕ) : Type 0 where
  pub poll_counts : (w : W) → left (client.poll_fetches w).1 ≤ left w - 1
  pub subscribing :
      (topics : List GoString) (w : W) → left (client.add_consume_topics topics w) ≤ left w
  pub refreshing : (w : W) → left (client.force_metadata_refresh w) ≤ left w
  pub sleeping : (time : Time) (w : W) → left (client.sleep time w) ≤ left w
  pub handling : (h : H) (r : Record) (w : W) → left (handle_message h r w).1 ≤ left w
  pub due : (w : W) → left w ≡ 0 → client.cancelled w ≡ true
  pub poll_fails :
      (w : W)
      → client.cancelled w ≡ true
      → (unknown : Bool) × ((client.poll_fetches w).0.error ≡ some unknown)
  pub stays :
      (w : W) → client.cancelled w ≡ true → client.cancelled (client.poll_fetches w).1 ≡ true

module _ {W H : Type 0} (client : PollClient W) (handle_message : H → Record → Exec W (Unit {0}))
    (left : W → ℕ) (cancels : Cancels client handle_message left) where
  dispatch-left :
      (hs : List H) (r : Record) (w : W) → left (dispatch handle_message hs r w) ≤ left w
  unfolding dispatch
  dispatch-left [] r w = omega arith
  dispatch-left (h ∷ hs) r w =
      let w' = (handle_message h r w).1 in
      omega (arith, dispatch-left hs r w', cancels.handling h r w)

  dispatch_all-left :
      (routes : Routes H) (rs : List Record) (w : W)
      → left (dispatch_all client handle_message routes rs w) ≤ left w
  unfolding dispatch_all
  dispatch_all-left routes [] w = omega arith
  dispatch_all-left routes (r ∷ rs) w =
      let hs = lookup routes.handler_map r.topic in
      omega
        (arith, dispatch_all-left routes rs (dispatch handle_message hs r w), dispatch-left hs r w)

  retry-left :
      (routes : Routes H) (unknown : Bool) (w : W) → left (retry client routes unknown w) ≤ left w
  retry-left routes true w =
      let w₁ = client.force_metadata_refresh w in
      let w₂ = client.add_consume_topics routes.topics w₁ in
      omega (
        arith,
        cancels.refreshing w,
        cancels.subscribing routes.topics w₁,
        cancels.sleeping two_seconds w₂,
      )
  retry-left routes false w = cancels.sleeping one_second w

  module _ (routes : Routes H) (m : ℕ) (again : W → Bool × W)
      (returns : (w : W) → left w ≤ m → (again w).0 ≡ true) where
    after_poll-returns :
        (e : Option Bool) (rs : List Record) (w : W)
        → left w ≤ m
        → (after_poll client handle_message routes again e rs w).0 ≡ true
    after_poll-returns none rs w few =
        returns (dispatch_all client handle_message routes rs w)
          (omega (arith, dispatch_all-left routes rs w))
    after_poll-returns (some unknown) rs w few = elim (Bool-cases (client.cancelled w)) [
      | inl stop ↦ rw stop refl
      | inr open' ↦
          rw open'
            (returns (retry client routes unknown w) (omega (arith, retry-left routes unknown w)))
    ]

  poll_loop-returns :
      (routes : Routes H) (n : ℕ) (w : W)
      → left w ≤ n
      → (poll_loop client handle_message (suc n) routes w).0 ≡ true
  unfolding poll_loop
  poll_loop-returns routes zero w none_left =
      let stop = cancels.due w (omega arith) in
      let (unknown, failed) = cancels.poll_fails w stop in rw (failed, cancels.stays w stop) refl
  poll_loop-returns routes (suc n) w few =
      after_poll-returns routes n (poll_loop client handle_message (suc n) routes)
        (poll_loop-returns routes n) (client.poll_fetches w).0.error
        (client.poll_fetches w).0.records (client.poll_fetches w).1
        (omega (arith, cancels.poll_counts w))

  -- A consumer whose context is cancelled within so many polls, whatever its handlers do and however
  -- many polls fail, returns at the next poll at the latest, if a poll with a cancelled context
  -- returns an error.
  pub run_consumer_returns :
      (env : GoString) (cs : List (ConsumerHandler H)) (w : W)
      → (run_consumer client handle_message (suc (left w)) env cs w).0 ≡ true
  unfolding run_consumer
  run_consumer_returns env cs w =
      let routes = add_handlers env cs no_routes in
      poll_loop-returns routes (left w) (client.add_consume_topics routes.topics w)
        (cancels.subscribing routes.topics w)
