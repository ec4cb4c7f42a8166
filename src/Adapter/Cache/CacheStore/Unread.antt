-- ===== src/Adapter/Cache/CacheStore/Unread.antt =====
-- The counts of unread messages as a table of numbers, which the store (internal/adapter/cache/
-- cache_store.go) keeps in hashes of Redis as decimal texts.
use Prim.Native.Nat.{◌*◌}
use mathlib.Core.Option
use mathlib.Core.Path.{subst}
use be_modami_chat_service.Prelude.{
  ℕ, suc, ◌+◌, ◌-◌, ◌≡◌, refl, ap, ◌∙◌, Bool, true, ◌&&◌, List, [], ◌∷◌, map, Option, none, some,
  all, if◌then◌else◌, arith, inl, inr, Bool-cases,
}
use be_modami_chat_service.Prelude.Int.{ℤ, pos}
use be_modami_chat_service.Text.{GoString, ◌==◌}
use be_modami_chat_service.Text.Laws.{eq_iff}
use be_modami_chat_service.Text.Decimal.{
  decimal, value_of, is_digit, decimal-digits, value_of-decimal,
}
use be_modami_chat_service.Result.{Error, Result, ok, err}
use be_modami_chat_service.Exec.{Exec, pure, ◌>>=◌, run-cases}
use be_modami_chat_service.Adapter.Cache.Redis.{Redis}
use be_modami_chat_service.Adapter.Cache.CacheStore.{
  unread_key, scan_digits, scan_count, scan_field, increment_unread, clear_unread,
  get_unread_counts,
}

scan_digits-value_of :
    (so_far : ℕ) (s : GoString) → all is_digit s ≡ true → scan_digits so_far s ≡ value_of so_far s
unfolding scan_digits value_of
scan_digits-value_of so_far [] h = refl
scan_digits-value_of so_far (c ∷ s) h =
    ground (arith, scan_digits-value_of (so_far * 10 + (c - 48)) s)

scan_count-digits : (s : GoString) → all is_digit s ≡ true → scan_count s ≡ pos (value_of 0 s)
unfolding scan_count value_of
scan_count-digits [] h = refl
scan_count-digits (c ∷ s) h = ground (arith, scan_digits-value_of 0 (c ∷ s) h)

abbrev pub find : {V : Type 0} → GoString → List (GoString × V) → Option V
find k [] = none
find k (e ∷ es) = let rest = find k es in if e.0 == k then some e.1 else rest

-- The table: how many messages a user has not read in a conversation.
abbrev pub Table : Type 0
Table = (user_id conversation_id : GoString) → ℕ

abbrev here : (u c u' c' : GoString) → Bool
here u c u' c' = u == u' && c == c'

pub data Op : Type 0 where
  increment clear : (user_id conversation_id : GoString) → Op

-- What an operation does to the table.
abbrev pub table_after : Op → Table → Table
table_after (increment u c) table u' c' = if here u c u' c' then suc (table u' c') else table u' c'
table_after (clear u c) table u' c' = if here u c u' c' then 0 else table u' c'

abbrev pub after_all : List Op → Table → Table
after_all [] table = table
after_all (op ∷ ops) table = after_all ops (table_after op table)

-- The text of a number in a hash.
abbrev pub number_text : ℕ → GoString
number_text n = decimal n n

abbrev pub one_more : Option GoString → GoString
one_more none = number_text 1
one_more (some s) = number_text (suc (value_of 0 s))

-- A field that is missing stands for 0.
abbrev pub Stands : Option GoString → ℕ → Type 0
Stands none n = n ≡ 0
Stands (some s) n = s ≡ number_text n

abbrev pub count_of : Option ℤ → ℤ
count_of none = pos 0
count_of (some n) = n

find-scan :
    (c : GoString) (es : List (GoString × GoString))
    → find c (map scan_field es) ≡ Option.map scan_count (find c es)
find-scan c [] = refl
find-scan c ((k, v) ∷ es) = elim (Bool-cases (k == c)) [
  | inl same ↦ rw same refl
  | inr other ↦ rw other (find-scan c es)
]

count_of-number :
    (o : Option GoString) (n : ℕ) → Stands o n → count_of (Option.map scan_count o) ≡ pos n
count_of-number none n h = rw h refl
count_of-number (some s) n h =
    ap scan_count h
    ∙ scan_count-digits (number_text n) (decimal-digits n n)
    ∙ ap pos (value_of-decimal n n (omega arith))

one_more-Stands : (o : Option GoString) (n : ℕ) → Stands o n → one_more o ≡ number_text (suc n)
one_more-Stands none n h = rw h refl
one_more-Stands (some s) n h =
    ap (λ (r : GoString). number_text (suc (value_of 0 r))) h
    ∙ ap (λ (m : ℕ). number_text (suc m)) (value_of-decimal n n (omega arith))

same_key : (u u' : GoString) → (unread_key u == unread_key u') ≡ (u == u')
unfolding ◌==◌
same_key u u' = refl

-- What is relied on of Redis: HGETALL lists the fields of a hash, HINCRBY puts one more, as a decimal
-- text, into a field, and HDEL takes a field away, each where it succeeds, and nothing else changes.
module _ {W : Type 0} (client : Redis W) (entries : GoString → W → List (GoString × GoString))
    (listed : (key : GoString) (w : W) → client.h_get_all key w ≡ (ok (entries key w), w))
    (incremented : (key f : GoString) (w w' : W)
      → client.h_incr_by key f 1 w ≡ (ok tt, w')
      → (key' g : GoString)
      → find g (entries key' w') ≡ (
          if key == key' && f == g
          then some (one_more (find f (entries key w)))
          else find g (entries key' w)))
    (deleted : (key f : GoString) (w w' : W)
      → client.h_del key f w ≡ (ok tt, w')
      → (key' g : GoString)
      → find g (entries key' w')
        ≡ (if key == key' && f == g then none else find g (entries key' w))) where
  -- The hashes hold a table.
  abbrev pub Represents : W → Table → Type 0
  Represents w table = (u c : GoString) → Stands (find c (entries (unread_key u) w)) (table u c)

  abbrev pub apply : Op → Exec W (Unit {0})
  apply (increment u c) = increment_unread client u c
  apply (clear u c) = clear_unread client u c

  -- One operation after another, up to the first error.
  unfoldable pub apply_all : List Op → Exec W (Unit {0})
  apply_all [] = pure tt
  apply_all (op ∷ ops) = apply op >>= λ u. apply_all ops

  Represents-increment :
      (u c : GoString) (table : Table) (w w' : W)
      → client.h_incr_by (unread_key u) c 1 w ≡ (ok tt, w')
      → Represents w table
      → Represents w' (table_after (increment u c) table)
  Represents-increment u c table w w' done h u' c' =
      rw (incremented (unread_key u) c w w' done (unread_key u') c', same_key u u')
        (elim (Bool-cases (here u c u' c')) [
          | inr other ↦ rw other (h u' c')
          | inl same ↦
              let more = one_more-Stands (find c (entries (unread_key u) w)) (table u c) (h u c) in
              let u_same : u ≡ u' = (eq_iff u u').0 (ground arith) in
              let c_same : c ≡ c' = (eq_iff c c').0 (ground arith) in
              rw same (
                more
                ∙ ap (λ (n : ℕ). number_text (suc n))
                    (ap (λ v. table v c) u_same ∙ ap (table u') c_same))
        ])

  Represents-clear :
      (u c : GoString) (table : Table) (w w' : W)
      → client.h_del (unread_key u) c w ≡ (ok tt, w')
      → Represents w table
      → Represents w' (table_after (clear u c) table)
  Represents-clear u c table w w' done h u' c' =
      rw (deleted (unread_key u) c w w' done (unread_key u') c', same_key u u')
        (elim (Bool-cases (here u c u' c')) [
          | inr other ↦ rw other (h u' c')
          | inl same ↦ rw same refl
        ])

  same_world :
      {x : Unit {0}} {v v' : W} → ◌≡◌ {A = Result (Unit {0}) × W} (ok x, v) (ok tt, v') → v ≡ v'
  same_world eq = ap (λ r. r.1) eq

  no_success : {e : Error} {v v' : W} → ◌≡◌ {A = Result (Unit {0}) × W} (err e, v) (ok tt, v') → ⊥
  no_success eq = cc

  Represents-apply :
      (op : Op) (table : Table) (w w' : W)
      → apply op w ≡ (ok tt, w')
      → Represents w table
      → Represents w' (table_after op table)
  unfolding increment_unread clear_unread
  Represents-apply (increment u c) table w w' eq h =
      elim (run-cases (client.h_incr_by (unread_key u) c 1 w)) [
        | inr (e, w₁, failed) ↦ absurd (no_success (rw failed at eq))
        | inl (x, w₁, done) ↦
            subst (λ v. Represents v (table_after (increment u c) table))
              (same_world (rw done at eq)) (Represents-increment u c table w w₁ done h)
      ]
  Represents-apply (clear u c) table w w' eq h =
      elim (run-cases (client.h_del (unread_key u) c w)) [
        | inr (e, w₁, failed) ↦ absurd (no_success (rw failed at eq))
        | inl (x, w₁, done) ↦
            subst (λ v. Represents v (table_after (clear u c) table)) (same_world (rw done at eq))
              (Represents-clear u c table w w₁ done h)
      ]

  Represents-apply_all :
      (ops : List Op) (table : Table) (w w' : W)
      → apply_all ops w ≡ (ok tt, w')
      → Represents w table
      → Represents w' (after_all ops table)
  unfolding apply_all
  Represents-apply_all [] table w w' eq h = subst (λ v. Represents v table) (same_world eq) h
  Represents-apply_all (op ∷ ops) table w w' eq h = elim (run-cases (apply op w)) [
    | inr (e, w₁, failed) ↦ absurd (no_success (rw failed at eq))
    | inl (x, w₁, done) ↦
        Represents-apply_all ops (table_after op table) w₁ w' (rw done at eq)
          (Represents-apply op table w w₁ done h)
  ]

  -- The store refines a table of numbers: where Redis holds a table, then after any increments and
  -- resets of unread counts that all succeed, GetUnreadCounts reports for every user and conversation
  -- the number that the table has after the same operations (0 where it lists none), and changes nothing,
  -- if Redis lists the fields of a hash, adds to a field and deletes a field as it says.
  pub apply_all_refines :
      (ops : List Op) (table : Table) (w w' : W)
      → Represents w table
      → apply_all ops w ≡ (ok tt, w')
      → (u c : GoString)
      → (counts : List (GoString × ℤ)) × (get_unread_counts client u w' ≡ (ok counts, w'))
        × (count_of (find c counts) ≡ pos (after_all ops table u c))
  unfolding get_unread_counts
  apply_all_refines ops table w w' h eq u c =
      let es = entries (unread_key u) w' in
      (
        map scan_field es,
        rw (listed (unread_key u) w') refl,
        ap count_of (find-scan c es)
            ∙ count_of-number (find c es) (after_all ops table u c)
                (Represents-apply_all ops table w w' eq h u c),
      )
