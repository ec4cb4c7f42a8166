-- ===== src/Domain/Message/Validation.antt =====
-- Message.Validate and the constructors of messages.
use be_modami_chat_service.Prelude.{
  ◌≡◌, ◌≢◌, ◌↔◌, refl, ◌≤◌, true, Bool, [], none, arith, length, Option, some, ◌∷◌,
}
use be_modami_chat_service.Text.{GoString, is_empty}
use be_modami_chat_service.Text.Laws.{eq_iff}
use be_modami_chat_service.Result.{Result, ok, err, is_validation_error}
use be_modami_chat_service.Domain.Message.{
  Message, MediaInfo, message_type_text, message_type_system, max_message_content_length, validate,
  is_nil,
}

-- What Validate promises of a message.
pub record IsValidMessage (m : Message) : Type 0 where
  pub in_conversation : m.conversation_id ≢ []
  pub has_sender : m.sender_id ≢ []
  pub short : length m.content.text ≤ max_message_content_length
  pub text_if_text : m.type ≡ message_type_text → m.content.text ≢ []
  pub media_if_media : m.type ≢ message_type_text → m.type ≢ message_type_system → m.media ≢ none

is_empty_iff : (s : GoString) → (is_empty s ≡ true) ↔ (s ≡ [])
is_empty_iff [] = (λ _. refl, λ _. refl)
is_empty_iff (x ∷ s) = (λ h. cc, λ h. cc)

is_nil_iff : (o : Option MediaInfo) → (is_nil o ≡ true) ↔ (o ≡ none)
is_nil_iff none = (λ _. refl, λ _. refl)
is_nil_iff (some x) = (λ h. cc, λ h. cc)

valid_of_validate : (m : Message) → validate m ≡ ok tt → IsValidMessage m
unfolding validate
valid_of_validate m h = record {
  in_conversation = ground (arith, is_empty_iff m.conversation_id);
  has_sender = ground (arith, is_empty_iff m.sender_id);
  short = ground arith;
  text_if_text = ground (arith, is_empty_iff m.content.text, eq_iff m.type message_type_text);
  media_if_media = ground (
    arith,
    is_nil_iff m.media,
    eq_iff m.type message_type_text,
    eq_iff m.type message_type_system,
  );
}

validate_of_valid : (m : Message) → IsValidMessage m → validate m ≡ ok tt
unfolding validate
validate_of_valid m v = ground (
  arith,
  v.in_conversation,
  v.has_sender,
  v.short,
  v.text_if_text,
  v.media_if_media,
  is_empty_iff m.conversation_id,
  is_empty_iff m.sender_id,
  is_empty_iff m.content.text,
  eq_iff m.type message_type_text,
  is_nil_iff m.media,
  eq_iff m.type message_type_system,
)

abbrev pub blames_input : Result (Unit {0}) → Bool
blames_input (ok a) = true
blames_input (err e) = is_validation_error e

-- Validate accepts a message exactly where it names a conversation and a sender, its text is at most
-- 4096 bytes, a text message has a text, and one that is neither text nor system has media; what it
-- refuses it refuses with a validation error.
pub validate_iff :
    (m : Message) → ((validate m ≡ ok tt) ↔ IsValidMessage m) × (blames_input (validate m) ≡ true)
unfolding validate is_validation_error
validate_iff m = ((valid_of_validate m, validate_of_valid m), ground arith)
