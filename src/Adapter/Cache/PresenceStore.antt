-- ===== src/Adapter/Cache/PresenceStore.antt =====
-- internal/adapter/cache/presence_store.go
use be_modami_chat_service.Prelude.{
  ℕ, ◌-◌, ◌≡◌, refl, ap, Bool, true, false, List, [], ◌∷◌, ◌++◌, map, Option, none, some,
  if◌then◌else◌, keep, Time, inl, inr, arith,
}
use be_modami_chat_service.Text.{GoString, bytes}
use be_modami_chat_service.Result.{
  Error, Result, ok, err, is_sentinel, wrapped, redis_nil, is_ok, Result-cases,
}
use be_modami_chat_service.Exec.{Exec, total, wrap, best_effort, ◌>>=◌, ◌>>◌}
use be_modami_chat_service.Adapter.Cache.Redis.{Redis}

abbrev pub presence_key : GoString
presence_key = bytes "chat:presence"

abbrev pub typing_key : GoString → GoString
typing_key conversation_id = bytes "chat:typing:" ++ conversation_id

-- In nanoseconds, as `Time`.
abbrev pub typing_ttl : Time
typing_ttl = 10000000000

-- In seconds, as the scores.
abbrev pub stale_cutoff : ℕ
stale_cutoff = 300

-- The outcome of ZSCORE in IsOnline.
abbrev pub online_result : Result ℕ → Result Bool
online_result (ok score) = ok true
online_result (err e) = if is_sentinel e redis_nil then ok false else err (wrapped "check online" e)

-- The loop of GetOnlineUsers over the commands and their users.
abbrev pub online_of : List GoString → List (Result ℕ) → List GoString
online_of [] cmds = []
online_of (uid ∷ uids) [] = []
online_of (uid ∷ uids) (cmd ∷ cmds) =
    let rest = online_of uids cmds in if is_ok cmd then uid ∷ rest else rest

abbrev pub fatal : Option Error → Option Error
fatal none = none
fatal (some e) = if is_sentinel e redis_nil then none else some e

abbrev pub users_result : List GoString → Option Error → List (Result ℕ) → Result (List GoString)
users_result user_ids (some e) cmds = err (wrapped "get online users" e)
users_result user_ids none cmds = ok (online_of user_ids cmds)

-- `unix` is time.Now().Unix().
module _ {W : Type 0} (client : Redis W) where
  unfoldable pub set_online : (unix : W → ℕ × W) → (user_id : GoString) → Exec W (Unit {0})
  set_online unix user_id = do
    score ← total unix
    wrap "set online" (client.z_add presence_key score user_id)

  unfoldable pub set_offline : (user_id : GoString) → Exec W (Unit {0})
  set_offline user_id = wrap "set offline" (client.z_rem presence_key user_id)

  unfoldable pub is_online : (user_id : GoString) → Exec W Bool
  is_online user_id w = let (r, w') = client.z_score presence_key user_id w in (online_result r, w')

  unfoldable pub get_online_users : (user_ids : List GoString) → Exec W (List GoString)
  get_online_users user_ids w =
      let ((e, cmds), w') = client.z_scores presence_key user_ids w in
      (users_result user_ids (fatal e) cmds, w')

  unfoldable pub set_typing :
      (unix : W → ℕ × W) → (conversation_id user_id : GoString) → Exec W (Unit {0})
  set_typing unix conversation_id user_id = do
    score ← total unix
    wrap "set typing" (client.z_add (typing_key conversation_id) score user_id)
    best_effort (client.expire (typing_key conversation_id) typing_ttl)

  unfoldable pub clear_typing : (conversation_id user_id : GoString) → Exec W (Unit {0})
  clear_typing conversation_id user_id =
      wrap "clear typing" (client.z_rem (typing_key conversation_id) user_id)

  unfoldable pub cleanup_stale_presence : (unix : W → ℕ × W) → Exec W (Unit {0})
  cleanup_stale_presence unix = do
    now ← total unix
    wrap "cleanup stale presence" (client.z_rem_up_to presence_key (now - stale_cutoff))

  abbrev answers : W → List GoString → List (Result ℕ)
  answers w user_ids = map (λ u. (client.z_score presence_key u w).0) user_ids

  abbrev pub says_online : Result Bool → Bool
  says_online (ok b) = b
  says_online (err e) = false

  online_of-answers :
      (w : W) (user_ids : List GoString)
      → online_of user_ids (answers w user_ids) ≡ keep (λ u. says_online (is_online u w).0) user_ids
  unfolding is_online
  online_of-answers w [] = refl
  online_of-answers w (u ∷ us) = elim (Result-cases (client.z_score presence_key u w).0) [
    | inl (score, eq) ↦ rw (eq, online_of-answers w us) refl
    | inr (e, eq) ↦ ground (arith, eq, online_of-answers w us)
  ]

  -- GetOnlineUsers returns those of the users, in their order, that IsOnline says to be online, if
  -- the pipeline answers what the single commands answer and reports no error but that of a
  -- missing member.
  get_online_users_lem :
      (user_ids : List GoString) (w : W) (e : Option Error)
      → client.z_scores presence_key user_ids w ≡ ((e, answers w user_ids), w)
      → fatal e ≡ none
      → get_online_users user_ids w ≡ (ok (keep (λ u. says_online (is_online u w).0) user_ids), w)
  unfolding get_online_users
  get_online_users_lem user_ids w e eq h =
      rw (eq, get_online_users) (rw h (ap (λ us. (ok us, w)) (online_of-answers w user_ids)))
