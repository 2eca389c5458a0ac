-- ===== src/Demo/Refinement.antt =====
-- The handlers and the store against the book.
use theminidog.Base.{
  ℕ, zero, suc, ◌+◌, ◌<◌, ◌≤◌, ◌≡◌, refl, sym, ◌∙◌, ap, inl, inr, Option, none, some, List, [], ◌∷◌,
  ◌++◌, String, ℤ, pos, negsuc, ◌+ℤ◌, int_eq, int_eq_iff, length, length-append, atoi, trim, str_eq,
  if◌then◌else◌, arith, Option-cases, Bool-cases, subst,
}
use mathlib.Core.List.{append-nil}
use theminidog.Demo.Store.{
  Task, Store, new_store, next_int, find, put, remove, create, values, list, get, delete, IsKeyed,
  with_id, find-put, find-remove, put-IsKeyed, remove-IsKeyed, with_id-put, with_id-remove,
}
use theminidog.Demo.Fib.{fib_35}
use theminidog.Demo.App.{
  Request, get_health, get_tasks, get_cpu, post_tasks, get_task, delete_task, get_slow, cpu_done,
  Response, write_json, write_error, handle_post, handle_get, handle_delete, handle, serve_all,
}
use theminidog.Demo.Book.{
  answer, Book, line, entry, strike, accepted, add_task, strike_if, strike_absent, turn,
  post_answer, get_answer, delete_answer, one, IsAnswer, AreAnswers, line-beyond, entry-append,
  entry-strike, length-strike,
}

-- The store holds what the book holds.
pub record Holds (s : Store) (b : Book) : Type 0 where
  pub counted : s.counter ≡ pos (length b)
  pub keyed : IsKeyed s.tasks
  pub found : (id : ℤ) → find id s.tasks ≡ entry id b
  pub listed : (id : ℤ) → with_id id (values s.tasks) ≡ one (entry id b)

entry-nil : (id : ℤ) → entry id [] ≡ none
unfolding entry line
entry-nil (pos zero) = refl
entry-nil (pos (suc n)) = refl
entry-nil (negsuc n) = refl

pub new_store-Holds : Holds new_store []
unfolding new_store find values
new_store-Holds = record {
  counted = refl;
  keyed = tt;
  found = λ id. sym (entry-nil id);
  listed = λ id. ap one (sym (entry-nil id));
}

next_int_lem : (n : ℕ) → n < 9_223_372_036_854_775_807 → next_int (pos n) ≡ pos (suc n)
unfolding next_int ◌+ℤ◌
next_int_lem n h = ground arith

-- One task more, under the next number.
put-Holds :
    (s : Store) (b : Book) (t : Task)
    → Holds s b
    → t.id ≡ pos (suc (length b))
    → Holds (record { tasks = put t.id t s.tasks; counter = t.id }) (b ++ some t ∷ [])
put-Holds s b t h e =
    let absent : find t.id s.tasks ≡ none =
      h.found t.id
      ∙ ap (λ k. entry k b) e
      ∙ (unfold entry in line-beyond (length b) b (omega arith)) in
    let added : (j : ℤ)
        → entry j (b ++ some t ∷ []) ≡ (if int_eq t.id j then some t else entry j b) =
      λ j.
        subst (λ k. entry j (b ++ some t ∷ []) ≡ (if int_eq k j then some t else entry j b)) (sym e)
          (entry-append j b (some t)) in
    record {
      counted = e ∙ ap pos (omega (arith, length-append {0} b (some t ∷ [])));
      keyed = put-IsKeyed t.id t s.tasks refl h.keyed;
      found = λ j. ground (arith, find-put t.id j t s.tasks, h.found j, added j);
      listed = λ j. with_id-put t.id j t s.tasks refl absent ∙ elim (Bool-cases (int_eq t.id j)) [
        | inl same ↦
            let here : j ≡ t.id = sym ((int_eq_iff t.id j).0 same) in
            let free : entry j b ≡ none = sym (h.found j) ∙ rw here absent in
            ground (arith, same, h.listed j, free, added j)
        | inr other ↦ ground (arith, other, h.listed j, append-nil (one (entry j b)), added j)
      ];
    }

remove-Holds :
    (s : Store) (b : Book) (id : ℤ)
    → Holds s b
    → Holds (record s { tasks = remove id s.tasks }) (strike id b)
remove-Holds s b id h = record {
  counted = h.counted ∙ ap pos (sym (length-strike id b));
  keyed = remove-IsKeyed id s.tasks h.keyed;
  found = λ j. ground (arith, find-remove id j s.tasks, h.found j, entry-strike id j b);
  listed =
      λ j. ground (arith, with_id-remove id j s.tasks h.keyed, h.listed j, entry-strike id j b);
}

-- The answer is the book's, and the store holds the book after the request.
abbrev IsTurned : String → Request → Book → Store × Response → Type 0
IsTurned stamp r b out = IsAnswer stamp r b out.1 × Holds out.0 (turn stamp r b)

module _ (stamp : String) (s : Store) (b : Book) (h : Holds s b) where
  turned :
      (r : Request) (out : Store × Response) (t : Store) (c : Book)
      → IsAnswer stamp r b out.1
      → out.0 ≡ t
      → turn stamp r b ≡ c
      → Holds t c
      → IsTurned stamp r b out
  turned r out t c a p q k =
      (a, subst (λ u. Holds u (turn stamp r b)) (sym p) (subst (Holds t) (sym q) k))

  post-IsTurned :
      (title : Option String)
      → length b < 9_223_372_036_854_775_807
      → IsTurned stamp (post_tasks title) b (handle_post stamp title s)
  unfolding handle_post turn accepted add_task post_answer write_json write_error create
  post-IsTurned none room = (refl, h)
  post-IsTurned (some title) room =
      let id = pos (suc (length b)) in
      let t : Task = record { id = id; title = trim title; created_at = stamp } in
      let next : next_int s.counter ≡ id = ap next_int h.counted ∙ next_int_lem (length b) room in
      let r = post_tasks (some title) in
      let out = handle_post stamp (some title) s in
      elim (Bool-cases (str_eq (trim title) "")) [
        | inl blank ↦
            turned r out s b (ground (arith, blank)) (ground (arith, blank)) (ground (arith, blank))
              h
        | inr filled ↦
            turned r out (record { tasks = put id t s.tasks; counter = id }) (b ++ some t ∷ [])
              (ground (arith, filled, next)) (ground (arith, filled, next)) (ground (arith, filled))
              (put-Holds s b t h refl)
      ]

  get-IsAnswer : (text : String) → IsAnswer stamp (get_task text) b (handle_get text s)
  unfolding handle_get get get_answer write_json write_error
  get-IsAnswer text = elim (Option-cases (atoi text)) [
    | inl bad ↦ ground (arith, bad)
    | inr (id, read) ↦ ground (arith, read, h.found id)
  ]

  delete-IsTurned : (text : String) → IsTurned stamp (delete_task text) b (handle_delete text s)
  unfolding handle_delete delete turn strike_if delete_answer write_json write_error
  delete-IsTurned text =
      let r = delete_task text in
      let out = handle_delete text s in
      elim (Option-cases (atoi text)) [
        | inl bad ↦
            turned r out s b (ground (arith, bad)) (ground (arith, bad)) (ground (arith, bad)) h
        | inr (id, read) ↦ elim (Option-cases (entry id b)) [
          | inl gone ↦
              turned r out s b (ground (arith, read, gone, h.found id))
                (ground (arith, read, gone, h.found id))
                (ground (arith, read, strike_absent id b gone)) h
          | inr (t, there) ↦
              turned r out (record s { tasks = remove id s.tasks }) (strike id b)
                (ground (arith, read, there, h.found id)) (ground (arith, read, there, h.found id))
                (ground (arith, read)) (remove-Holds s b id h)
        ]
      ]

  pub handle-IsTurned :
      (r : Request) → length b < 9_223_372_036_854_775_807 → IsTurned stamp r b (handle stamp r s)
  unfolding handle turn list write_json
  handle-IsTurned get_health room = (refl, h)
  handle-IsTurned get_tasks room = ((values s.tasks, refl, h.listed), h)
  handle-IsTurned get_cpu room = (ap (λ n. answer 200 (cpu_done n)) fib_35, h)
  handle-IsTurned (post_tasks title) room = post-IsTurned title room
  handle-IsTurned (get_task text) room = (get-IsAnswer text, h)
  handle-IsTurned (delete_task text) room = delete-IsTurned text
  handle-IsTurned (get_slow k) room = (refl, h)

length-turn : (stamp : String) (r : Request) (b : Book) → length (turn stamp r b) ≤ suc (length b)
unfolding turn add_task strike_if
length-turn stamp (post_tasks title) b = elim (Option-cases (accepted stamp title b)) [
  | inl refused ↦ rw refused (omega arith)
  | inr (t, added) ↦ rw added (omega (arith, length-append {0} b (some t ∷ [])))
]
length-turn stamp (delete_task text) b = elim (Option-cases (atoi text)) [
  | inl bad ↦ rw bad (omega arith)
  | inr (id, read) ↦ rw read (omega (arith, length-strike id b))
]
length-turn stamp get_health b = omega arith
length-turn stamp get_tasks b = omega arith
length-turn stamp get_cpu b = omega arith
length-turn stamp (get_task text) b = omega arith
length-turn stamp (get_slow k) b = omega arith

serve_all-AreAnswers :
    (rs : List (String × Request)) (s : Store) (b : Book)
    → Holds s b
    → length b + length rs ≤ 9_223_372_036_854_775_807
    → AreAnswers rs b (serve_all rs s).1
unfolding serve_all
serve_all-AreAnswers [] s b h room = refl
serve_all-AreAnswers ((stamp, r) ∷ rs) s b h room =
    let (a, k) = handle-IsTurned stamp s b h r (omega arith) in
    (
      a,
      serve_all-AreAnswers rs (handle stamp r s).0 (turn stamp r b) k
          (omega (arith, length-turn stamp r b)),
    )

-- The demo application from its start, for any sequence of at most 2^63 - 1 requests, in the order
-- in which they take the lock: every answer is the one that the book gives. A POST with a title that
-- is not blank is answered 201 with the next number and the trimmed title; a GET or a DELETE of a
-- number is answered 200 or 204 exactly while the number is in the book; a listing has, for each
-- number, the task of the book once, or none; and the other answers change nothing.
pub serve_all-answers :
    (rs : List (String × Request))
    → length rs ≤ 9_223_372_036_854_775_807
    → AreAnswers rs [] (serve_all rs new_store).1
serve_all-answers rs room = serve_all-AreAnswers rs new_store [] new_store-Holds (omega arith)
