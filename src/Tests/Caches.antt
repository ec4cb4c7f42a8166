-- ===== src/Tests/Caches.antt =====
-- The theorems on the stores over Redis at concrete data.
use be_modami_chat_service.Prelude.{
  ℕ, ◌+◌, ◌≡◌, refl, List, [], ◌∷◌, map, none, some, ltb, if◌then◌else◌,
}
use be_modami_chat_service.Text.{GoString, ◌==◌}
use be_modami_chat_service.Result.{Result, ok, err, sentinel, redis_nil, is_sentinel}
use be_modami_chat_service.Adapter.Cache.Redis.{Redis}
use be_modami_chat_service.Adapter.Cache.PresenceStore.{fatal}
use be_modami_chat_service.Adapter.Cache.RateLimiter.{
  allow_message, send_times, rate_limit_max, IsCounter, allows_sixty,
}
use be_modami_chat_service.Tests.{ann, bob, cy}

abbrev score : GoString → Result ℕ
score user_id = if user_id == bob then err (sentinel redis_nil) else ok 9

-- Everybody but one is online, and the world is the count of messages.
abbrev client : Redis ℕ
client = record {
  h_incr_by = λ key field n w. (ok tt, w);
  h_del = λ key field w. (ok tt, w);
  h_get_all = λ key w. (ok [], w);
  z_add = λ key score' member w. (ok tt, w);
  z_rem = λ key member w. (ok tt, w);
  z_score = λ key member w. (score member, w);
  z_rem_up_to = λ key max w. (ok tt, w);
  expire = λ key ttl w. (ok tt, w);
  incr_and_expire = λ key ttl w. (ok (w + 1), w + 1);
  z_scores = λ key members w. ((some (sentinel redis_nil), map score members), w);
}

abbrev users : List GoString
users = ann ∷ bob ∷ cy ∷ []

no_error : fatal (some (sentinel redis_nil)) ≡ none
unfolding is_sentinel
no_error = refl

client-IsCounter : IsCounter client ann (λ w. w)
client-IsCounter w = (w + 1, refl, refl)

allows_sixty_example :
    (allow_message client ann (send_times client ann 60 0)).0 ≡ ok (ltb 60 rate_limit_max)
allows_sixty_example = allows_sixty client ann (λ w. w) client-IsCounter 0 refl 60
