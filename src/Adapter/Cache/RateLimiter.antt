-- ===== src/Adapter/Cache/RateLimiter.antt =====
-- internal/adapter/cache/rate_limiter.go
use be_modami_chat_service.Prelude.{
  ℕ, zero, suc, ◌+◌, ◌≡◌, refl, ap, ◌∙◌, Bool, ◌++◌, leb, ltb, Time, arith,
}
use be_modami_chat_service.Text.{GoString, bytes}
use be_modami_chat_service.Result.{ok}
use be_modami_chat_service.Exec.{Exec, pure, wrap, ◌>>=◌}
use be_modami_chat_service.Adapter.Cache.Redis.{Redis}

abbrev pub rate_limit_key : GoString → GoString
rate_limit_key user_id = bytes "chat:ratelimit:msg:" ++ user_id

-- In nanoseconds, as `Time`.
abbrev pub rate_limit_window : Time
rate_limit_window = 60000000000

abbrev pub rate_limit_max : ℕ
rate_limit_max = 60

module _ {W : Type 0} (client : Redis W) where
  unfoldable pub allow_message : (user_id : GoString) → Exec W Bool
  allow_message user_id = do
    count ←
        wrap "rate limit check" (client.incr_and_expire (rate_limit_key user_id) rate_limit_window)
    pure (leb count rate_limit_max)

  -- One message after another of the same user, whatever the answers.
  unfoldable pub send_times : (user_id : GoString) → ℕ → W → W
  send_times user_id zero w = w
  send_times user_id (suc n) w = send_times user_id n (allow_message user_id w).1

  -- While the key lives, the pipeline answers one more each time: `count` is what the key holds.
  abbrev pub IsCounter : GoString → (W → ℕ) → Type 0
  IsCounter user_id count =
      (w : W)
      → (w' : W) × (client.incr_and_expire (rate_limit_key user_id) rate_limit_window w
          ≡ (ok (count w + 1), w'))
        × (count w' ≡ count w + 1)

  counted :
      (user_id : GoString) (count : W → ℕ)
      → IsCounter user_id count
      → (w : W)
      → ((allow_message user_id w).0 ≡ ok (leb (count w + 1) rate_limit_max))
        × (count (allow_message user_id w).1 ≡ count w + 1)
  unfolding allow_message
  counted user_id count counter w =
      let (w', eq, more) = counter w in (rw (eq, allow_message) refl, rw (eq, allow_message) more)

  count-send_times :
      (user_id : GoString) (count : W → ℕ)
      → IsCounter user_id count
      → (n : ℕ) (w : W) → count (send_times user_id n w) ≡ count w + n
  unfolding send_times
  count-send_times user_id count counter zero w = omega arith
  count-send_times user_id count counter (suc n) w =
      let (answer, more) = counted user_id count counter w in
      omega (arith, more, count-send_times user_id count counter n (allow_message user_id w).1)

  -- Of the messages of a user while the key lives, exactly the first 60 are allowed: after `n` of
  -- them the next is allowed if `n` is less than 60 and refused otherwise, whatever was answered
  -- before.
  pub allows_sixty :
      (user_id : GoString) (count : W → ℕ)
      → IsCounter user_id count
      → (w : W) → count w ≡ 0
      → (n : ℕ) → (allow_message user_id (send_times user_id n w)).0 ≡ ok (ltb n rate_limit_max)
  allows_sixty user_id count counter w fresh n =
      let sent = count-send_times user_id count counter n w in
      (counted user_id count counter (send_times user_id n w)).0
      ∙ ap ok (ground (arith, sent, fresh))
