-- ===== src/Kafka/Polling/RunConsumer.antt =====
-- RunConsumer (pkg/kafka/consumer.go), a loop with one callback.
use be_modami_chat_service.Prelude.{
  ℕ, zero, suc, ◌≤◌, ◌≡◌, refl, List, [], ◌∷◌, Option, none, some, inl, inr, Bool-cases,
  if◌then◌else◌, arith,
}
use be_modami_chat_service.Text.{GoString}
use be_modami_chat_service.Result.{Error, Result, ok, err, wrapped, external}
use be_modami_chat_service.Exec.{Exec}
use be_modami_chat_service.Kafka.Consumer.{Record}
use be_modami_chat_service.Kafka.Polling.{Fetches, PollClient}
use be_modami_chat_service.Kafka.Polling.Stops.{Cancels}

module _ {W : Type 0} (client : PollClient W)
    (fn : (key value : GoString) → Exec W (Unit {0})) where
  -- The callback's errors are only logged.
  call_all : List Record → W → W
  call_all [] w = w
  call_all (r ∷ rs) w = call_all rs (fn r.key r.value w).1

  abbrev after_fetches : (again : W → Option Error × W) → Fetches × W → Option Error × W
  after_fetches again (fetches, w) =
      if client.cancelled w
      then (some (external "context canceled"), w)
      else again (call_all fetches.records w)

  -- The loop for at most so many polls; the error that it returns with, if it has returned.
  consume : (polls : ℕ) → W → Option Error × W
  consume zero w = (none, w)
  consume (suc n) w = after_fetches (consume n) (client.poll_fetches w)

  -- `created` is how kgo.NewClient ends, with the client subscribed to the topic.
  unfoldable run_consumer : (created : Result (Unit {0})) → (polls : ℕ) → W → Option Error × W
  run_consumer (err e) n w = (some (wrapped "failed to create kafka client" e), w)
  run_consumer (ok u) n w = consume n w

  module _ (left : W → ℕ)
      (cancels : Cancels {H = Unit {0}} client (λ h r. fn r.key r.value) left) where
    call_all-left : (rs : List Record) (w : W) → left (call_all rs w) ≤ left w
    unfolding call_all
    call_all-left [] w = omega arith
    call_all-left (r ∷ rs) w =
        omega (arith, call_all-left rs (fn r.key r.value w).1, cancels.handling tt r w)

    -- The loop too returns once its context is cancelled.
    consume-returns :
        (n : ℕ) (w : W) → left w ≤ n → (consume (suc n) w).0 ≡ some (external "context canceled")
    unfolding consume
    consume-returns zero w none_left =
        let stop = cancels.due w (omega arith) in rw (cancels.stays w stop) refl
    consume-returns (suc n) w few =
        let w₁ = (client.poll_fetches w).1 in
        let rs = (client.poll_fetches w).0.records in
        elim (Bool-cases (client.cancelled w₁)) [
          | inl stop ↦ rw stop refl
          | inr open' ↦ rw open' (
              consume-returns n (call_all rs w₁)
                (omega (arith, call_all-left rs w₁, cancels.poll_counts w)))
        ]
