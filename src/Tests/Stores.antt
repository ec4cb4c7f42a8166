-- ===== src/Tests/Stores.antt =====
-- Sessions of a few lines, at which the hypotheses of the repositories' theorems hold.
use be_modami_chat_service.Prelude.{
  ℕ, suc, ◌≡◌, refl, Bool, true, false, Option, none, some, inl, inr, Bool-cases, if◌then◌else◌,
  ◌&&◌, not, List, [], ◌∷◌, keep, take, arith,
}
use be_modami_chat_service.Text.{GoString, ◌==◌, contains}
use be_modami_chat_service.Text.Laws.{eq_iff}
use be_modami_chat_service.Result.{ok, err, external, sentinel, gocql_not_found}
use be_modami_chat_service.Exec.{Exec}
use be_modami_chat_service.Adapter.Repository.Session.{
  Session, MessageRow, LookupRow, ConversationRow,
}
use be_modami_chat_service.Adapter.Repository.Paging.{older}
use be_modami_chat_service.Adapter.Repository.MessageRepo.Pages.{row_cursor}
use be_modami_chat_service.Adapter.Repository.ConversationRepo.Indexes.{IsIndex}
use be_modami_chat_service.Adapter.Repository.ConversationRepo.Claims.{IsLater, IsDirectTable}

abbrev no_call : {W A : Type 0} → Exec W A
no_call w = (err (external "no such call"), w)

-- A session whose calls all fail.
abbrev closed : {W : Type 0} → Session W
closed {W} = record {
  insert_message = λ row. no_call;
  insert_lookup = λ row. no_call;
  select_lookup = λ id. no_call;
  select_message = λ key. no_call;
  select_messages_before = λ id c n. no_call;
  select_messages = λ id n. no_call;
  update_message = λ row. no_call;
  update_reactions = λ text key. no_call;
  insert_direct = λ key id. no_call;
  select_direct = λ key. no_call;
  insert_conversation = λ row. no_call;
  select_conversation = λ id. no_call;
  update_conversation = λ row. no_call;
  update_last_message = λ text at' id. no_call;
  update_participants = λ text id. no_call;
  update_participants_at = λ text at' id. no_call;
  insert_user_conversation = λ u c. no_call;
  insert_conversation_participant = λ c u. no_call;
  delete_user_conversation = λ u c. no_call;
  delete_conversation_participant = λ c u. no_call;
  select_participants = λ id. no_call;
  select_user_conversations = λ u. no_call;
}

-- The messages of one conversation, which the queries page through; the world is the clock.
abbrev pub message_store : List MessageRow → LookupRow → MessageRow → Session ℕ
message_store rows found row = record closed {
  insert_message = λ r w. (ok true, suc w);
  insert_lookup = λ r w. (ok tt, suc w);
  select_lookup = λ id w. (ok found, w);
  select_message = λ key w. (ok row, w);
  select_messages = λ id n w. (ok (take n rows), w);
  select_messages_before = λ id c n w. (ok (take n (keep (older row_cursor c) rows)), w);
}

-- The conversations of one user.
abbrev pub conversation_store : List GoString → (GoString → ConversationRow) → Session ℕ
conversation_store ids row = record closed {
  select_user_conversations = λ u w. (ok ids, w);
  select_conversation = λ id w. (ok (row id), w);
}

-- The two indexes of one conversation; the world is the users in the one and in the other.
abbrev pub index_store : Session (List GoString × List GoString)
index_store = record closed {
  select_participants = λ id w. (ok w.0, w);
  insert_conversation_participant = λ id u w. (ok tt, (u ∷ w.0, w.1));
  delete_conversation_participant = λ id u w. (ok tt, (keep (λ x. not (x == u)) w.0, w.1));
  insert_user_conversation = λ u id w. (ok tt, (w.0, u ∷ w.1));
  delete_user_conversation = λ u id w. (ok tt, (w.0, keep (λ x. not (x == u)) w.1));
  update_conversation = λ row w. (ok tt, w);
}

abbrev pub in_first : List GoString × List GoString → GoString → Bool
in_first w v = contains w.0 v

abbrev pub in_second : List GoString × List GoString → GoString → Bool
in_second w v = contains w.1 v

contains-keep :
    (us : List GoString) (u v : GoString)
    → contains (keep (λ x. not (x == u)) us) v ≡ (contains us v && not (u == v))
contains-keep [] u v = refl
contains-keep (x ∷ us) u v =
    ground (arith, contains-keep us u v, eq_iff x u, eq_iff x v, eq_iff u v)

pub index_store-IsIndex : (id : GoString) → IsIndex index_store id in_first in_second
index_store-IsIndex id = record {
  selects = λ w. (w.0, refl, λ v. refl);
  inserts = λ u w. ((u ∷ w.0, w.1), refl, λ v. ground arith, λ v. refl);
  deletes =
      λ u w. ((keep (λ x. not (x == u)) w.0, w.1), refl, λ v. contains-keep w.0 u v, λ v. refl);
  inserts_user = λ u w. ((w.0, u ∷ w.1), refl, λ v. refl, λ v. ground arith);
  deletes_user =
      λ u w. ((w.0, keep (λ x. not (x == u)) w.1), refl, λ v. refl, λ v. contains-keep w.1 u v);
  updates = λ row w. (w, refl, λ v. refl, λ v. refl);
}

-- The table of direct conversations; the world is the list of its rows, and other insertions succeed.
abbrev pub claimed : List (GoString × GoString) → GoString → Option GoString
claimed [] key = none
claimed (row ∷ rows) key = let rest = claimed rows key in if row.0 == key then some row.1 else rest

abbrev put_if : Option GoString → (key id : GoString) → Exec (List (GoString × GoString)) Bool
put_if none key id w = (ok true, (key, id) ∷ w)
put_if (some owner) key id w = (ok false, w)

abbrev found : Option GoString → Exec (List (GoString × GoString)) GoString
found none w = (err (sentinel gocql_not_found), w)
found (some id) w = (ok id, w)

abbrev pub direct_store : Session (List (GoString × GoString))
direct_store = record closed {
  insert_direct = λ key id w. put_if (claimed w key) key id w;
  select_direct = λ key w. found (claimed w key) w;
  insert_conversation = λ row w. (ok tt, w);
  insert_user_conversation = λ u c w. (ok tt, w);
  insert_conversation_participant = λ c u w. (ok tt, w);
}

put_if-won :
    (o : Option GoString) (key id : GoString) (w w' : List (GoString × GoString))
    → put_if o key id w ≡ (ok true, w')
    → (o ≡ none) × (w' ≡ (key, id) ∷ w)
put_if-won none key id w w' h = (refl, cc)
put_if-won (some owner) key id w w' h = cc

kept :
    (o : Option GoString) (key id : GoString) (w : List (GoString × GoString))
    → claimed w key ≡ o
    → IsLater claimed w (put_if o key id w).1
kept none key id w free k owner h = elim (Bool-cases (key == k)) [
  | inl same ↦ let eq : key ≡ k = (eq_iff key k).0 same in cc
  | inr other ↦ rw other h
]
kept (some o) key id w taken k owner h = h

pub direct_store-IsDirectTable : IsDirectTable claimed direct_store
direct_store-IsDirectTable = record {
  inserts = λ key id w w' h.
      let (free, eq) = put_if-won (claimed w key) key id w w' h in
      (free, rw (eq, (eq_iff key key).1 refl) refl);
  insert_keeps = λ key id w. kept (claimed w key) key id w refl;
  selects = λ key id w h. rw h refl;
  row_keeps = λ row w k owner h. h;
  user_keeps = λ u c w k owner h. h;
  participant_keeps = λ c u w k owner h. h;
}
