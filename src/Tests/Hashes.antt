-- ===== src/Tests/Hashes.antt =====
-- The store of unread counts at a Redis of a few lines.
use be_modami_chat_service.Prelude.{
  ◌≡◌, refl, ap, sym, ◌∙◌, ◌&&◌, not, List, [], ◌∷◌, Option, none, some, keep, if◌then◌else◌, arith,
  inl, inr, Bool-cases,
}
use be_modami_chat_service.Prelude.Int.{ℤ, pos}
use be_modami_chat_service.Text.{GoString, bytes, ◌==◌}
use be_modami_chat_service.Text.Laws.{eq_iff}
use be_modami_chat_service.Result.{Result, ok, err, external}
use be_modami_chat_service.Adapter.Cache.Redis.{Redis}
use be_modami_chat_service.Adapter.Cache.CacheStore.{
  increment_unread, clear_unread, get_unread_counts,
}
use be_modami_chat_service.Adapter.Cache.CacheStore.Unread.{
  find, Op, increment, clear, Table, after_all, one_more, count_of, apply_all, apply_all_refines,
}
use be_modami_chat_service.Tests.{ann, bob}

-- The world gives each key its fields.
abbrev World : Type 0
World = GoString → List (GoString × GoString)

put : GoString → GoString → List (GoString × GoString) → List (GoString × GoString)
put f v [] = (f, v) ∷ []
put f v ((g, x) ∷ es) = let rest = (g, x) ∷ put f v es in if g == f then (f, v) ∷ es else rest

find-put :
    (f v g : GoString) (es : List (GoString × GoString))
    → find g (put f v es) ≡ (if f == g then some v else find g es)
unfolding put
find-put f v g [] = refl
find-put f v g ((h, x) ∷ es) = ground (arith, eq_iff h f, eq_iff h g, eq_iff f g, find-put f v g es)

abbrev without : GoString → List (GoString × GoString) → List (GoString × GoString)
without f es = keep (λ e. not (e.0 == f)) es

find-without :
    (f g : GoString) (es : List (GoString × GoString))
    → find g (without f es) ≡ (if f == g then none else find g es)
find-without f g [] = ground arith
find-without f g ((h, x) ∷ es) =
    ground (arith, eq_iff h f, eq_iff h g, eq_iff f g, find-without f g es)

abbrev at_key : GoString → List (GoString × GoString) → World → World
at_key key es w k = if key == k then es else w k

abbrev client : Redis World
client = record {
  h_incr_by = λ key f n w. (ok tt, at_key key (put f (one_more (find f (w key))) (w key)) w);
  h_del = λ key f w. (ok tt, at_key key (without f (w key)) w);
  h_get_all = λ key w. (ok (w key), w);
  z_add = λ key score member w. (ok tt, w);
  z_rem = λ key member w. (ok tt, w);
  z_score = λ key member w. (err (external "no such call"), w);
  z_rem_up_to = λ key max w. (ok tt, w);
  expire = λ key ttl w. (ok tt, w);
  incr_and_expire = λ key ttl w. (ok 1, w);
  z_scores = λ key members w. ((none, []), w);
}

find-at_key :
    (key f g key' : GoString) (v : Option GoString) (es : List (GoString × GoString)) (w : World)
    → find g es ≡ (if f == g then v else find g (w key))
    → find g (at_key key es w key') ≡ (if key == key' && f == g then v else find g (w key'))
find-at_key key f g key' v es w h = elim (Bool-cases (key == key')) [
  | inr other ↦ rw other refl
  | inl same ↦ rw same (h ∙ ap (λ k. if f == g then v else find g (w k)) ((eq_iff key key').0 same))
]

incremented :
    (key f : GoString) (w w' : World)
    → client.h_incr_by key f 1 w ≡ (ok tt, w')
    → (key' g : GoString)
    → find g (w' key')
      ≡ (if key == key' && f == g then some (one_more (find f (w key))) else find g (w key'))
incremented key f w w' eq key' g =
    let es = put f (one_more (find f (w key))) (w key) in
    ap (λ (r : Result (Unit {0}) × World). find g (r.1 key')) (sym eq)
    ∙ find-at_key key f g key' (some (one_more (find f (w key)))) es w
        (find-put f (one_more (find f (w key))) g (w key))

deleted :
    (key f : GoString) (w w' : World)
    → client.h_del key f w ≡ (ok tt, w')
    → (key' g : GoString)
    → find g (w' key') ≡ (if key == key' && f == g then none else find g (w key'))
deleted key f w w' eq key' g =
    ap (λ (r : Result (Unit {0}) × World). find g (r.1 key')) (sym eq)
    ∙ find-at_key key f g key' none (without f (w key)) w (find-without f g (w key))

abbrev history : List Op
history = increment ann (bytes "c1") ∷ increment ann (bytes "c1") ∷ clear bob (bytes "c1") ∷ []

abbrev nothing : World
nothing key = []

abbrev none_unread : Table
none_unread u c = 0

abbrev entries : GoString → World → List (GoString × GoString)
entries key w = w key

later : World
later = (apply_all client entries (λ key w. refl) incremented deleted history nothing).1

runs : apply_all client entries (λ key w. refl) incremented deleted history nothing ≡ (ok tt, later)
unfolding apply_all increment_unread clear_unread later
runs = refl

apply_all_refines_example :
    (counts : List (GoString × ℤ)) × (get_unread_counts client ann later ≡ (ok counts, later))
    × (count_of (find (bytes "c1") counts) ≡ pos (after_all history none_unread ann (bytes "c1")))
apply_all_refines_example =
    apply_all_refines client entries (λ key w. refl) incremented deleted history none_unread nothing
      later (λ u c. refl) runs ann (bytes "c1")
