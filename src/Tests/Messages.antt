-- ===== src/Tests/Messages.antt =====
-- The theorems on messages and pages at concrete data.
use be_modami_chat_service.Prelude.{◌≡◌, ◌↔◌, refl, ◌||◌, ◌&&◌, not, true, arith}
use be_modami_chat_service.Text.{◌==◌}
use be_modami_chat_service.Result.{ok, is_ok}
use be_modami_chat_service.Domain.Message.{
  add_reaction, remove_reaction, validate, react, react_group, add_to_reactions,
}
use be_modami_chat_service.Domain.Message.Reactions.{
  IsReactable, has_reacted, add_reaction-IsReactable,
}
use be_modami_chat_service.Domain.Message.Reacted.{
  has_reacted-add_reaction, has_reacted-remove_reaction,
}
use be_modami_chat_service.Domain.Message.Removal.{remove-add_reaction}
use be_modami_chat_service.Domain.Message.Validation.{IsValidMessage, blames_input, validate_iff}
use be_modami_chat_service.Tests.{hello, thumb, ann, bob}

hello-IsReactable : IsReactable hello.reactions
hello-IsReactable = record {
  distinct = (refl, tt);
  groups = (record { distinct = (refl, tt); used = omega arith; few = omega arith }, tt);
  few = omega arith;
}

hello_added : (add_reaction hello thumb ann).0 ≡ ok true
unfolding add_reaction add_to_reactions react react_group ◌==◌
hello_added = refl

validate_iff_example :
    ((validate hello ≡ ok tt) ↔ IsValidMessage hello) × (blames_input (validate hello) ≡ true)
validate_iff_example = validate_iff hello

add_reaction-IsReactable_example : IsReactable (add_reaction hello thumb ann).1.reactions
add_reaction-IsReactable_example = add_reaction-IsReactable hello thumb ann hello-IsReactable

has_reacted-add_reaction_example :
    has_reacted thumb ann (add_reaction hello thumb ann).1.reactions ≡ (
      has_reacted thumb ann hello.reactions
      || (is_ok (add_reaction hello thumb ann).0 && (thumb == thumb && ann == ann)))
has_reacted-add_reaction_example = has_reacted-add_reaction hello thumb ann thumb ann

has_reacted-remove_reaction_example :
    ((remove_reaction hello thumb bob).0 ≡ has_reacted thumb bob hello.reactions)
    × (has_reacted thumb bob (remove_reaction hello thumb bob).1.reactions
        ≡ (has_reacted thumb bob hello.reactions && not (thumb == thumb && bob == bob)))
has_reacted-remove_reaction_example =
    has_reacted-remove_reaction hello thumb bob thumb bob hello-IsReactable

remove-add_reaction_example :
    remove_reaction (add_reaction hello thumb ann).1 thumb ann ≡ (true, hello)
remove-add_reaction_example = remove-add_reaction hello thumb ann hello-IsReactable hello_added
