-- ===== src/Adapter/Handler/Errors.antt =====
-- handleError (internal/adapter/handler/chat_handler.go): the answer to an error of a use case.
use be_modami_chat_service.Prelude.{
  ◌≡◌, refl, ap, ◌∙◌, String, Bool, true, false, not, if◌then◌else◌, arith,
}
use be_modami_chat_service.Result.{
  Error, Sentinel, sentinel, validation, wrapped, external, errors_is, is_validation_error,
  not_found, not_chat_member, forbidden, unauthorized, rate_limited, already_member, group_full,
  duplicate_message, duplicate_conversation, reaction_limit_reached, message_deleted,
  gocql_not_found, redis_nil,
}

-- The codes of the library apperror that are used, and the answer of InternalError.
pub data Code : Type 0 where
  code_not_found code_forbidden code_unauthorized code_too_many_request code_conflict : Code
  code_gone code_bad_request internal_error : Code

-- `text_of e` is e.Error().
pub data Text : Type 0 where
  literal : String → Text
  text_of : Error → Text

pub record Answer : Type 0 where
  pub code : Code
  pub text : Text

abbrev pub answer : Code → String → Answer
answer c msg = record { code = c; text = literal msg }

-- The switch of handleError: `is` is errors.Is and `invalid` IsValidationError of the error.
unfoldable pub answer_by : (is : Sentinel → Bool) → (invalid : Bool) → Text → Answer
answer_by is invalid text =
    if is not_found
    then answer code_not_found "not found"
    else if is not_chat_member
    then answer code_forbidden "not a member of this chat"
    else if is forbidden
    then answer code_forbidden "forbidden"
    else if is unauthorized
    then answer code_unauthorized "unauthorized"
    else if is rate_limited
    then answer code_too_many_request "rate limited"
    else if is already_member
    then answer code_conflict "user is already a member"
    else if is group_full
    then answer code_conflict "group is full"
    else if is duplicate_message
    then answer code_conflict "duplicate message"
    else if is duplicate_conversation
    then answer code_conflict "conversation already exists"
    else if is reaction_limit_reached
    then answer code_conflict "reaction limit reached"
    else if is message_deleted
    then answer code_gone "message has been deleted"
    else if invalid
    then record { code = code_bad_request; text = text }
    else answer internal_error "internal server error"

unfoldable pub handle_error : Error → Answer
handle_error e = answer_by (errors_is e) (is_validation_error e) (text_of e)

-- What an error was before anybody added a prefix.
abbrev pub root : Error → Error
root (sentinel s) = sentinel s
root (validation m) = validation m
root (wrapped m e) = root e
root (external m) = external m

-- The errors of the domain, and not of a library that an adapter uses.
abbrev pub of_domain : Error → Bool
of_domain (sentinel gocql_not_found) = false
of_domain (sentinel redis_nil) = false
of_domain (sentinel s) = true
of_domain (validation m) = true
of_domain (wrapped m e) = false
of_domain (external m) = false

abbrev pub is_internal : Code → Bool
is_internal internal_error = true
is_internal c = false

answer_code :
    (is : Sentinel → Bool) (invalid : Bool) (t t' : Text)
    → (answer_by is invalid t).code ≡ (answer_by is invalid t').code
unfolding answer_by
answer_code is invalid t t' = ground arith

root_code : (e : Error) → (handle_error e).code ≡ (handle_error (root e)).code
unfolding handle_error errors_is is_validation_error
root_code (sentinel s) = refl
root_code (validation m) = refl
root_code (wrapped m e) =
    answer_code (errors_is e) (is_validation_error e) (text_of (wrapped m e)) (text_of e)
    ∙ root_code e
root_code (external m) = refl

sentinel_code :
    (s : Sentinel) → is_internal (handle_error (sentinel s)).code ≡ not (of_domain (sentinel s))
unfolding handle_error answer_by errors_is is_validation_error
sentinel_code not_found = refl
sentinel_code not_chat_member = refl
sentinel_code unauthorized = refl
sentinel_code already_member = refl
sentinel_code group_full = refl
sentinel_code duplicate_message = refl
sentinel_code duplicate_conversation = refl
sentinel_code reaction_limit_reached = refl
sentinel_code rate_limited = refl
sentinel_code forbidden = refl
sentinel_code message_deleted = refl
sentinel_code gocql_not_found = refl
sentinel_code redis_nil = refl

internal_code : (e : Error) → is_internal (handle_error (root e)).code ≡ not (of_domain (root e))
unfolding handle_error answer_by errors_is is_validation_error
internal_code (sentinel s) = sentinel_code s
internal_code (validation m) = refl
internal_code (wrapped m e) = internal_code e
internal_code (external m) = refl

-- The code of an answer does not depend on the prefixes that were added to an error on its way, and
-- it is that of an internal error exactly if the error was none of the domain's at first.
pub handle_error-root :
    (e : Error)
    → ((handle_error e).code ≡ (handle_error (root e)).code)
      × (is_internal (handle_error e).code ≡ not (of_domain (root e)))
handle_error-root e = (root_code e, ap is_internal (root_code e) ∙ internal_code e)
