-- ===== src/Utils.antt =====
-- pkg/utils/id.go: the ids of messages and conversations.
use be_modami_chat_service.Prelude.{
  ℕ, ◌≡◌, refl, Bool, true, false, not, ◌&&◌, ◌||◌, [], ◌∷◌, keep, all, leb, eqb, arith,
}
use be_modami_chat_service.Text.{GoString}
use be_modami_chat_service.Port.{IdGenerator}
use be_modami_chat_service.Adapter.Handler.Paging.{has_bar}

-- strings.ReplaceAll(s, "-", "")
unfoldable pub without_dashes : GoString → GoString
without_dashes s = keep (λ c. not (eqb c 45)) s

-- ObjectIDGenerator; `new_uuid` is uuid.New().String().
abbrev pub object_id_generator : {W : Type 0} → (new_uuid : W → GoString × W) → IdGenerator W
object_id_generator new_uuid = record {
  new_id = λ w. let (id, w') = new_uuid w in (without_dashes id, w');
}

-- A digit or a letter from a to f.
abbrev is_hex : ℕ → Bool
is_hex c = leb 48 c && leb c 57 || leb 97 c && leb c 102

-- Where a UUID is written with lower case hexadecimal digits and dashes, an id has only the digits,
-- so that it has no bar, which separates the parts of a cursor.
without_dashes-hex :
    (s : GoString)
    → all (λ c. is_hex c || eqb c 45) s ≡ true
    → (all is_hex (without_dashes s) ≡ true) × (has_bar (without_dashes s) ≡ false)
unfolding without_dashes
without_dashes-hex [] h = (refl, refl)
without_dashes-hex (c ∷ s) h = ground (arith, without_dashes-hex s)
