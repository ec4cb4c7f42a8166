-- ===== src/Adapter/Repository/Schema.antt =====
-- EnsureSchema (internal/adapter/repository/schema.go): which statements are executed, in which order.
use be_modami_chat_service.Prelude.{
  zero, suc, ◌≡◌, ap, sym, ◌∙◌, List, [], ◌∷◌, ◌++◌, append_assoc, append-nil, inl, inr,
}
use be_modami_chat_service.Prelude.Int.{ℤ, pos}
use be_modami_chat_service.Text.{GoString, bytes}
use be_modami_chat_service.Result.{ok}
use be_modami_chat_service.Exec.{Exec, wrap, ◌>>◌, run-cases}
use be_modami_chat_service.Config.{format_int}
use be_modami_chat_service.Adapter.Repository.ConversationRepo.{for_each}

-- The statements of tableStatements by their tables, whose columns are in Session.antt.
pub data Table : Type 0 where
  messages messages_by_id conversations : Table
  user_conversations conversation_participants direct_conversations : Table

pub data Statement : Type 0 where
  create_keyspace : GoString → Statement
  create_table : Table → Statement

abbrev table_statements : List Statement
table_statements =
    create_table messages
    ∷ create_table messages_by_id
    ∷ create_table conversations
    ∷ create_table user_conversations
    ∷ create_table conversation_participants
    ∷ create_table direct_conversations
    ∷ []

unfoldable keyspace_ddl : (datacenter : GoString) → (rf : ℤ) → GoString
keyspace_ddl datacenter (pos (suc zero)) =
    bytes "CREATE KEYSPACE IF NOT EXISTS chat"
    ++ bytes " WITH replication = {'class': 'SimpleStrategy', 'replication_factor': 1}"
    ++ bytes " AND durable_writes = true"
    ++ bytes " AND tablets = {'enabled': false}"
keyspace_ddl datacenter rf =
    bytes "CREATE KEYSPACE IF NOT EXISTS chat"
    ++ bytes " WITH replication = {'class': 'NetworkTopologyStrategy', '"
    ++ datacenter
    ++ bytes "': "
    ++ format_int rf
    ++ bytes "}"
    ++ bytes " AND durable_writes = true"
    ++ bytes " AND tablets = {'enabled': false}"

-- `exec` is session.Query of a statement with its Exec.
unfoldable ensure_schema :
    {W : Type 0}
    → (exec : Statement → Exec W (Unit {0})) → (datacenter : GoString) → ℤ
    → Exec W (Unit {0})
ensure_schema exec datacenter rf = do
  wrap "create keyspace" (exec (create_keyspace (keyspace_ddl datacenter rf)))
  for_each (λ stmt. wrap "execute schema statement" (exec stmt)) table_statements

module _ {W : Type 0} (exec : Statement → Exec W (Unit {0})) where
  abbrev noted : Statement → Exec (W × List Statement) (Unit {0})
  noted stmt (w, log) = let (r, w') = exec stmt w in (r, (w', log ++ stmt ∷ []))

  for_each-noted :
      (stmts : List Statement) (st st' : W × List Statement)
      → for_each (λ stmt. wrap "execute schema statement" (noted stmt)) stmts st ≡ (ok tt, st')
      → st'.1 ≡ st.1 ++ stmts
  unfolding for_each
  for_each-noted [] st st' done = ap (λ r. r.1.1) (sym done) ∙ sym (append-nil st.1)
  for_each-noted (x ∷ xs) (w, log) st' done = elim (run-cases (exec x w)) [
    | inr (e, w₁, failed) ↦ cc (rw failed at done)
    | inl (u, w₁, fine) ↦
        for_each-noted xs (w₁, log ++ x ∷ []) st' (rw fine at done) ∙ append_assoc log (x ∷ []) xs
  ]

  -- Where EnsureSchema succeeds it has executed the statement for the keyspace and then those for the
  -- six tables, each once.
  ensure_schema_ends :
      (datacenter : GoString) (rf : ℤ) (w : W) (st' : W × List Statement)
      → ensure_schema noted datacenter rf (w, []) ≡ (ok tt, st')
      → st'.1 ≡ create_keyspace (keyspace_ddl datacenter rf) ∷ table_statements
  unfolding ensure_schema
  ensure_schema_ends datacenter rf w st' done =
      let first = create_keyspace (keyspace_ddl datacenter rf) in
      elim (run-cases (exec first w)) [
        | inr (e, w₁, failed) ↦ cc (rw failed at done)
        | inl (u, w₁, fine) ↦ for_each-noted table_statements (w₁, first ∷ []) st' (rw fine at done)
      ]
