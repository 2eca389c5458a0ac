-- ===== src/Demo/Load.antt =====
-- example/06-demo-app/load/main.go: the load generator. A target is what a call does to the state
-- of the server and the status that comes back, `none` for an error of transport. The answers of
-- rand.Intn are arguments.
use theminidog.Base.{
  ℕ, zero, suc, ◌+◌, ◌%◌, ◌<◌, ◌≤◌, ◌≡◌, ap, sym, subst, Bool, true, false, Option, none, some,
  List, [], ◌∷◌, String, ltb, str_eq, if◌then◌else◌, arith,
}

-- A call of `get` or `post`: the path behind the base URL, and the title of the body.
pub data Call : Type 0 where
  get_path : String → Call
  post_path : String → String → Call

-- Whether `get` returns nil: a status below 500.
unfoldable pub get : Option ℕ → Bool
get none = false
get (some status) = ltb status 500

-- Whether `post` returns nil: a status below 400.
unfoldable pub post : Option ℕ → Bool
post none = false
post (some status) = ltb status 400

unfoldable pub nil : Call → Option ℕ → Bool
unfolding get post
nil (get_path p) reply = get reply
nil (post_path p title) reply = post reply

unfoldable pub titles : List String
titles =
    "Buy groceries" ∷ "Fix the CI pipeline" ∷ "Write unit tests" ∷ "Review pull request"
    ∷ "Update documentation" ∷ "Deploy to production" ∷ "Refactor auth module" ∷ "Add rate limiting"
    ∷ "Profile memory usage" ∷ "Rotate secrets" ∷ []

unfoldable pub title_at : ℕ → List String → String
title_at n [] = ""
title_at zero (t ∷ ts) = t
title_at (suc n) (t ∷ ts) = title_at n ts

-- `rand.Intn(10)` is below 10.
unfoldable pub random_title : ℕ → String
unfolding title_at titles
random_title k = title_at (k % 10) titles

unfoldable pub base_url : String → String
base_url env = if str_eq env "" then "http://demoapp:9000" else env

-- The waiting for `GET /healthz`: the number of the attempt that ends it. The loop of the source has
-- no bound; here it runs on fuel.
unfoldable pub wait_ready : (ℕ → Option ℕ) → ℕ → ℕ → Option ℕ
unfolding get
wait_ready reply zero i = none
wait_ready reply (suc fuel) i =
    let later = wait_ready reply fuel (suc i) in if get (reply i) then some i else later

-- The state of the target, with the counts `ok` and `fail`.
pub record Batch (S : Type 0) : Type 0 where
  pub target : S
  pub successes : ℕ
  pub failures : ℕ

abbrev pub Target : Type 0 → Type 0
Target S = Call → S → S × Option ℕ

module _ {S : Type 0} (send : Target S) where
  unfoldable pub count : Call → Batch S → Batch S
  unfolding nil
  count c b =
      let (s, reply) = send c b.target in
      if nil c reply
      then record { target = s; successes = b.successes + 1; failures = b.failures }
      else record { target = s; successes = b.successes; failures = b.failures + 1 }

  unfoldable pub count_all : List Call → Batch S → Batch S
  unfolding count
  count_all [] b = b
  count_all (c ∷ cs) b = count_all cs (count c b)

-- The calls of one tick: six listings, two additions, and the two heavy pages.
unfoldable pub calls : ℕ → ℕ → List Call
unfolding random_title
calls j k =
    let listing = get_path "/tasks" in
    listing
    ∷ listing
    ∷ listing
    ∷ listing
    ∷ listing
    ∷ listing
    ∷ post_path "/tasks" (random_title j)
    ∷ post_path "/tasks" (random_title k)
    ∷ get_path "/slow"
    ∷ get_path "/cpu"
    ∷ []

unfoldable pub tick : {S : Type 0} → Target S → ℕ → ℕ → S → Batch S
unfolding count_all calls
tick send j k s = count_all send (calls j k) (record { target = s; successes = 0; failures = 0 })

-- The wait ends with the first reply whose status is below 500.
pub wait_ready_lem :
    (reply : ℕ → Option ℕ) (fuel k i : ℕ)
    → k < fuel
    → ((j : ℕ) → i ≤ j → j < i + k → get (reply j) ≡ false)
    → get (reply (i + k)) ≡ true
    → wait_ready reply fuel i ≡ some (i + k)
unfolding wait_ready
wait_ready_lem reply zero k i h before now = absurd (omega arith)
wait_ready_lem reply (suc fuel) zero i h before now =
    let e : i + 0 ≡ i = omega arith in
    subst (λ n. wait_ready reply (suc fuel) i ≡ some n) (sym e)
      (let here : get (reply i) ≡ true = subst (λ n. get (reply n) ≡ true) e now in
        ground (arith, here))
wait_ready_lem reply (suc fuel) (suc k) i h before now =
    let e : i + suc k ≡ suc i + k = omega arith in
    let first = before i (omega arith) (omega arith) in
    let rest =
      wait_ready_lem reply fuel k (suc i) (omega arith)
        (λ j l u. before j (omega arith) (omega arith)) (subst (λ n. get (reply n) ≡ true) e now) in
    ground (arith, first, rest, ap {A = ℕ} some e)
