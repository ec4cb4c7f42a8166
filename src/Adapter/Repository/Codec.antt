-- ===== src/Adapter/Repository/Codec.antt =====
-- encoding/json as the repositories use it for a type `A`: Marshal and Unmarshal as an interface,
-- with the laws that the package documents.
use be_modami_chat_service.Prelude.{◌≡◌, ◌≢◌, Bool, true, [], List, ◌∷◌}
use be_modami_chat_service.Text.{GoString, bytes}
use be_modami_chat_service.Result.{Result, ok}

pub record Codec (A : Type 0) : Type 0 where
  pub marshal : A → GoString
  pub unmarshal : GoString → Result A

-- A value survives if its strings are valid UTF-8: Marshal replaces what is not. No value but the
-- nil pointer and the nil slice is written as `null`, and none as the empty text.
pub record IsCodec {A : Type 0} (c : Codec A) (survives : A → Bool) : Type 0 where
  pub unmarshal-marshal : (a : A) → survives a ≡ true → c.unmarshal (c.marshal a) ≡ ok a
  pub not_empty : (a : A) → c.marshal a ≢ []
  pub not_null : (a : A) → c.marshal a ≢ bytes "null"

-- Of the slices only the empty one is written as `[]`.
pub record IsSliceCodec {A : Type 0} (c : Codec (List A)) (survives : List A → Bool) : Type 0 where
  pub codec : IsCodec c survives
  pub open codec use *
  pub not_brackets : (a : A) (as' : List A) → c.marshal (a ∷ as') ≢ bytes "[]"
