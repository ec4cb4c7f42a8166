-- ===== src/Adapter/Cache/CacheStore.antt =====
-- internal/adapter/cache/cache_store.go
pub mod Unread
use Prim.Native.Nat.{◌*◌}
use be_modami_chat_service.Prelude.{
  ℕ, zero, suc, eqb, ◌+◌, ◌-◌, ◌&&◌, List, [], ◌∷◌, ◌++◌, map, leb, if◌then◌else◌,
}
use be_modami_chat_service.Prelude.Int.{ℤ, pos, negsuc}
use be_modami_chat_service.Text.{GoString, bytes}
use be_modami_chat_service.Exec.{Exec, wrap, pure, ◌>>=◌}
use be_modami_chat_service.Adapter.Cache.Redis.{Redis}

abbrev pub unread_key : GoString → GoString
unread_key user_id = bytes "chat:unread:" ++ user_id

-- fmt.Sscanf(val, "%d", &count) where the number is in the range of int64: the digits up to the
-- first other byte, after an optional sign.
unfoldable pub scan_digits : (so_far : ℕ) → GoString → ℕ
scan_digits so_far [] = so_far
scan_digits so_far (x ∷ s) =
    let rest = scan_digits (so_far * 10 + (x - 48)) s in
    if leb 48 x && leb x 57 then rest else so_far

abbrev pub negate : ℕ → ℤ
negate zero = pos 0
negate (suc n) = negsuc n

unfoldable pub scan_count : GoString → ℤ
scan_count [] = pos 0
scan_count (x ∷ s) =
    if eqb x 45
    then negate (scan_digits 0 s)
    else if eqb x 43
    then pos (scan_digits 0 s)
    else pos (scan_digits 0 (x ∷ s))

abbrev pub scan_field : GoString × GoString → GoString × ℤ
scan_field (conv_id, val) = (conv_id, scan_count val)

module _ {W : Type 0} (client : Redis W) where
  unfoldable pub increment_unread : (user_id conversation_id : GoString) → Exec W (Unit {0})
  increment_unread user_id conversation_id =
      wrap "increment unread" (client.h_incr_by (unread_key user_id) conversation_id 1)

  unfoldable pub clear_unread : (user_id conversation_id : GoString) → Exec W (Unit {0})
  clear_unread user_id conversation_id =
      wrap "clear unread" (client.h_del (unread_key user_id) conversation_id)

  unfoldable pub get_unread_counts : (user_id : GoString) → Exec W (List (GoString × ℤ))
  get_unread_counts user_id = do
    result ← wrap "get unread counts" (client.h_get_all (unread_key user_id))
    pure (map scan_field result)
