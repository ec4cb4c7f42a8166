-- ===== src/Kafka/Running.antt =====
-- The flag `running` of KafkaService (pkg/kafka/kafka_service.go): StartConsumer checks and sets it,
-- a consumer that ends clears it, and so does Close.
use be_modami_chat_service.Prelude.{
  ℕ, suc, ◌+◌, ◌-◌, ◌≤◌, ◌≡◌, refl, Bool, true, false, not, if◌then◌else◌, arith,
}

-- The flag, and how many calls of StartConsumer are in their loop.
pub record Consumers : Type 0 where
  pub running : Bool
  pub active : ℕ

-- A call of StartConsumer that begins; whether it enters the loop.
unfoldable pub start_consumer : Consumers → Bool × Consumers
start_consumer k =
    if k.running then (false, k) else (true, record { running = true; active = suc k.active })

-- The deferred function of a call that leaves its loop.
unfoldable pub stop_consumer : Consumers → Consumers
stop_consumer k = record { running = false; active = k.active - 1 }

unfoldable pub close : Consumers → Consumers
close k = record k { running = false }

unfoldable pub is_running : Consumers → Bool
is_running k = k.running

abbrev pub new_service : Consumers
new_service = record { running = false; active = 0 }

-- The steps of a service that is not closed: calls begin and end in any order, and only a call that
-- is in its loop can leave it.
pub data Step : Consumers → Consumers → Type 0 where
  starts : (k : Consumers) → Step k (start_consumer k).1
  stops : (k : Consumers) → 1 ≤ k.active → Step k (stop_consumer k)

pub data Reach (k : Consumers) : Consumers → Type 0 where
  here : Reach k k
  next : {l m : Consumers} → Reach k l → Step l m → Reach k m

abbrev IsExclusive : Consumers → Type 0
IsExclusive k = k.active ≡ (if k.running then 1 else 0)

Step-IsExclusive : {k l : Consumers} → Step k l → IsExclusive k → IsExclusive l
unfolding start_consumer stop_consumer
Step-IsExclusive (starts k) h = ground arith
Step-IsExclusive (stops k some_active) h = ground arith

Reach-IsExclusive : {k l : Consumers} → IsExclusive k → Reach k l → IsExclusive l
Reach-IsExclusive h here = h
Reach-IsExclusive h (next r st) = Step-IsExclusive st (Reach-IsExclusive h r)

-- As long as the service is not closed, at most one call of StartConsumer is in its loop, whatever
-- calls begin and end in whatever order, and IsRunning answers exactly whether one is. But Close
-- clears the flag while a consumer is still in its loop: where it was refused before, the next call
-- then enters, and two consumers are in their loops.
pub one_consumer :
    (k : Consumers)
    → Reach new_service k
    → (k.active ≤ 1)
      × (k.active ≡ (if is_running k then 1 else 0))
      × ((start_consumer k).0 ≡ not (is_running k))
      × ((start_consumer (close k)).0 ≡ true)
      × ((start_consumer (close k)).1.active ≡ k.active + 1)
unfolding is_running start_consumer close
one_consumer k r =
    let h = Reach-IsExclusive {k = new_service} refl r in
    (ground (arith, h), h, ground arith, refl, omega arith)
