-- ===== src/Adapter/Cache/Redis.antt =====
-- The Redis client as what internal/adapter/cache asks of it: one call for each command or pipeline
-- of the source, on a world `W`. The client is not code of this repository; what the theorems rely
-- on are hypotheses about these calls.
use be_modami_chat_service.Prelude.{ℕ, List, Option, Time}
use be_modami_chat_service.Text.{GoString}
use be_modami_chat_service.Result.{Error, Result}
use be_modami_chat_service.Exec.{Exec}

pub record Redis (W : Type 0) : Type 0 where
  pub h_incr_by : (key field : GoString) → ℕ → Exec W (Unit {0})
  pub h_del : (key field : GoString) → Exec W (Unit {0})
  pub h_get_all : (key : GoString) → Exec W (List (GoString × GoString))
  -- a score is a number of seconds
  pub z_add : (key : GoString) → (score : ℕ) → (member : GoString) → Exec W (Unit {0})
  pub z_rem : (key member : GoString) → Exec W (Unit {0})
  -- the error `redis_nil` where there is no such member
  pub z_score : (key member : GoString) → Exec W ℕ
  -- ZREMRANGEBYSCORE key -inf max
  pub z_rem_up_to : (key : GoString) → (max : ℕ) → Exec W (Unit {0})
  pub expire : (key : GoString) → (ttl : Time) → Exec W (Unit {0})
  -- A pipeline of INCR and EXPIRE: the first error, or the count.
  pub incr_and_expire : (key : GoString) → (ttl : Time) → Exec W ℕ
  -- A pipeline of ZSCOREs: the first error, and the outcome of each.
  pub z_scores : (key : GoString) → List GoString → W → (Option Error × List (Result ℕ)) × W
