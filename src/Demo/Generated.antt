-- ===== src/Demo/Generated.antt =====
-- The load generator against the demo application.
use theminidog.Base.{
  ℕ, zero, suc, ◌+◌, ◌%◌, ◌<◌, ◌≡◌, refl, sym, ap, subst, true, false, Option, none, some, List, [],
  ◌∷◌, ◌++◌, String, pos, All, length, length-append, trim, str_eq, if◌then◌else◌, arith, is_space,
}
use theminidog.Demo.Store.{Task, Store}
use theminidog.Demo.App.{
  Request, get_health, get_tasks, get_cpu, post_tasks, get_slow, Response, handle,
}
use theminidog.Demo.Book.{Book, turn, IsAnswer, post_answer, accepted, add_task}
use theminidog.Demo.Refinement.{Holds, handle-IsTurned}
use theminidog.Demo.Load.{
  Call, get_path, post_path, get, post, nil, titles, title_at, random_title, Batch, Target, count,
  count_all, calls, tick,
}

-- The titles are answered as they are: trimming leaves them, and none is blank.
abbrev IsTrimmed : String → Type 0
IsTrimmed t = (trim t ≡ t) × (str_eq t "" ≡ false)

title_at-IsTrimmed :
    (n : ℕ) (ts : List String) → n < length ts → All IsTrimmed ts → IsTrimmed (title_at n ts)
unfolding title_at
title_at-IsTrimmed n [] h all = absurd (omega arith)
title_at-IsTrimmed zero (t ∷ ts) h all = all.0
title_at-IsTrimmed (suc n) (t ∷ ts) h all = title_at-IsTrimmed n ts (omega arith) all.1

random_title-IsTrimmed : (k : ℕ) → IsTrimmed (random_title k)
unfolding random_title titles trim is_space
random_title-IsTrimmed k = title_at-IsTrimmed (k % 10) titles (omega arith) (search tt)

-- The request that a call is for the application, `random` for its own `rand.Intn(400)`.
unfoldable pub request_of : ℕ → Call → Option Request
request_of random (get_path p) =
    if str_eq p "/healthz"
    then some get_health
    else if str_eq p "/tasks"
    then some get_tasks
    else if str_eq p "/slow"
    then some (get_slow random)
    else if str_eq p "/cpu"
    then some get_cpu
    else none
request_of random (post_path p title) =
    if str_eq p "/tasks" then some (post_tasks (some title)) else none

-- The application as the target, where every call arrives and is answered in time.
unfoldable pub app : String → ℕ → Target Store
unfolding request_of
app stamp random c s = elim (request_of random c) [
  | none ↦ (s, some 404)
  | some r ↦ let (t, out) = handle stamp r s in (t, some out.status)
]

-- Whatever answers, a tick counts each call.
counted_one :
    {S : Type 0} (send : Target S) (c : Call) (b : Batch S)
    → (count send c b).successes + (count send c b).failures ≡ suc (b.successes + b.failures)
unfolding count
counted_one send c b = ground arith

counted :
    {S : Type 0} (send : Target S) (cs : List Call) (b : Batch S)
    → (count_all send cs b).successes + (count_all send cs b).failures
      ≡ length cs + b.successes + b.failures
unfolding count_all
counted send [] b = omega arith
counted send (c ∷ cs) b = omega (arith, counted send cs (count send c b), counted_one send c b)

-- The task that the call of `post` with a title adds.
abbrev pub posted : String → ℕ → Book → Book
posted stamp k b =
    b
    ++ some (record { id = pos (suc (length b)); title = random_title k; created_at = stamp }) ∷ []

length-posted : (stamp : String) (k : ℕ) (b : Book) → length (posted stamp k b) ≡ suc (length b)
length-posted stamp k b = omega (arith, length-append {0} b (some _ ∷ []))

module _ (stamp : String) (random : ℕ) where
  -- All calls so far were counted as successes, and the store holds the book.
  record IsCounted (n : ℕ) (b : Book) (batch : Batch Store) : Type 0 where
    successful : batch.successes ≡ n
    faultless : batch.failures ≡ 0
    holds : Holds batch.target b

  count-IsCounted :
      (n : ℕ) (b : Book) (batch : Batch Store) (c : Call) (r : Request)
      → IsCounted n b batch
      → length b < 9_223_372_036_854_775_807
      → request_of random c ≡ some r
      → ((out : Response) → IsAnswer stamp r b out → nil c (some out.status) ≡ true)
      → IsCounted (suc n) (turn stamp r b) (count (app stamp random) c batch)
  unfolding count app
  count-IsCounted n b batch c r h room e good =
      let (t, out) = handle stamp r batch.target in
      let (answered, holds) = handle-IsTurned stamp batch.target b h.holds r room in
      let done : count (app stamp random) c batch
          ≡ record { target = t; successes = suc batch.successes; failures = batch.failures } =
        ground (arith, e, good out answered) in
      subst (IsCounted (suc n) (turn stamp r b)) (sym done)
        (record { successful = ap suc h.successful; faultless = h.faultless; holds = holds })

  module _ (n : ℕ) (b : Book) (batch : Batch Store) (h : IsCounted n b batch)
      (room : length b < 9_223_372_036_854_775_807) where
    listing-IsCounted : IsCounted (suc n) b (count (app stamp random) (get_path "/tasks") batch)
    unfolding turn request_of nil get
    listing-IsCounted =
        count-IsCounted n b batch (get_path "/tasks") get_tasks h room refl
          (λ out a. ground (arith, a.1))

    post-IsCounted :
        (k : ℕ)
        → IsCounted
            (suc n)
            (posted stamp k b)
            (count (app stamp random) (post_path "/tasks" (random_title k)) batch)
    unfolding turn request_of nil post accepted add_task post_answer
    post-IsCounted k =
        let (trimmed, filled) = random_title-IsTrimmed k in
        let t : Task = record {
          id = pos (suc (length b));
          title = random_title k;
          created_at = stamp;
        } in
        let taken : accepted stamp (some (random_title k)) b ≡ some t =
          ground (arith, trimmed, filled) in
        subst
          (λ c.
            IsCounted (suc n) c
              (count (app stamp random) (post_path "/tasks" (random_title k)) batch))
          (ap (λ o. add_task o b) taken)
          (count-IsCounted n b batch (post_path "/tasks" (random_title k))
            (post_tasks (some (random_title k))) h room refl (λ out a. ground (arith, a, taken)))

  -- The tick of the load generator against the demo application, where every call arrives and is
  -- answered in time, and fewer than 2^63 - 3 titles were accepted before: all ten calls are counted
  -- as successes, none as a failure, and the store then holds the book with the two titles under the
  -- next two numbers.
  pub tick-app :
      (j k : ℕ) (s : Store) (b : Book)
      → Holds s b
      → suc (suc (length b)) < 9_223_372_036_854_775_807
      → ((tick (app stamp random) j k s).successes ≡ 10)
        × ((tick (app stamp random) j k s).failures ≡ 0)
        × Holds (tick (app stamp random) j k s).target (posted stamp k (posted stamp j b))
  unfolding tick calls count_all request_of nil get turn
  tick-app j k s b h room =
      let start : IsCounted 0 b (record { target = s; successes = 0; failures = 0 }) = record {
        successful = refl;
        faultless = refl;
        holds = h;
      } in
      let little : length b < 9_223_372_036_854_775_807 = omega arith in
      let one_more : length (posted stamp j b) < 9_223_372_036_854_775_807 =
        omega (arith, length-posted stamp j b) in
      let two_more : length (posted stamp k (posted stamp j b)) < 9_223_372_036_854_775_807 =
        omega (arith, length-posted stamp j b, length-posted stamp k (posted stamp j b)) in
      let b1 = listing-IsCounted 0 b _ start little in
      let b2 = listing-IsCounted 1 b _ b1 little in
      let b3 = listing-IsCounted 2 b _ b2 little in
      let b4 = listing-IsCounted 3 b _ b3 little in
      let b5 = listing-IsCounted 4 b _ b4 little in
      let b6 = listing-IsCounted 5 b _ b5 little in
      let b7 = post-IsCounted 6 b _ b6 little j in
      let b8 = post-IsCounted 7 (posted stamp j b) _ b7 one_more k in
      let b9 =
        count-IsCounted 8 (posted stamp k (posted stamp j b)) _ (get_path "/slow") (get_slow random)
          b8 two_more refl (λ out a. ground (arith, a)) in
      let b10 =
        count-IsCounted 9 (posted stamp k (posted stamp j b)) _ (get_path "/cpu") get_cpu b9
          two_more refl (λ out a. ground (arith, a)) in
      (b10.successful, b10.faultless, b10.holds)
