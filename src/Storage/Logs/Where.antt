-- ===== src/Storage/Logs/Where.antt =====
-- The WHERE clause that `Query` builds, against the parameters.
use theminidog.Base.{
  ℕ, suc, ◌+◌, ◌≡◌, refl, Bool, true, false, not, ◌&&◌, ◌||◌, some, List, [], ◌∷◌, ◌++◌, String,
  pos, ◌+ℤ◌, ltb_ℤ, is_zero, str_eq, length, length-append, arith,
}
use Prim.Native.String.{◌++◌ as text_append}
use mathlib.Core.List.{append_assoc}
use theminidog.Storage.Logs.{
  LogQueryParams, LogRow, Cond, host_is, level_is, time_from, time_to, message_like, id_below, Arg,
  text, time, num, Builder, add, build_conds, build,
}
use theminidog.Storage.Logs.Answers.{arg_at, holds, all_hold, wanted, below}

arg_at-append :
    (xs : List Arg) (a : Arg) (ys : List Arg) → arg_at (suc (length xs)) (xs ++ a ∷ ys) ≡ some a
arg_at-append [] a ys = refl
arg_at-append (x ∷ xs) a ys = arg_at-append xs a ys

module _ (ilike : String → String → Bool) (r : LogRow) where
  all_hold-append :
      (args : List Arg) (xs ys : List Cond)
      → all_hold ilike args r (xs ++ ys) ≡ (all_hold ilike args r xs && all_hold ilike args r ys)
  unfolding all_hold
  all_hold-append args [] ys = refl
  all_hold-append args (x ∷ xs) ys = ground (arith, all_hold-append args xs ys)

  -- The builder counts its arguments, and its conditions say `v` of the row, whatever arguments
  -- come behind.
  record Says (b : Builder) (v : Bool) : Type 0 where
    counted : b.n ≡ length b.args
    said : (more : List Arg) → all_hold ilike (b.args ++ more) r b.conds ≡ v

  placed :
      (b : Builder) (val : Arg) (more : List Arg)
      → b.n ≡ length b.args
      → arg_at (b.n + 1) (b.args ++ val ∷ more) ≡ some val
  placed b val more e =
      let k : b.n + 1 ≡ suc (length b.args) = omega arith in rw k (arg_at-append b.args val more)

  add-Says :
      (used : Bool) (cond : ℕ → Cond) (val : Arg) (b : Builder) (v c : Bool)
      → Says b v
      → ((k : ℕ) (args : List Arg) → arg_at k args ≡ some val → holds ilike args r (cond k) ≡ c)
      → Says (add used cond val b) (v && (not used || c))
  unfolding add all_hold
  add-Says false cond val b v c s h = record {
    counted = s.counted;
    said = λ more. ground (arith, s.said more);
  }
  add-Says true cond val b v c s h = record {
    counted = omega (arith, s.counted, length-append b.args (val ∷ []));
    said = λ more. rw (append_assoc b.args (val ∷ []) more) (
        ground (
          arith,
          all_hold-append (b.args ++ val ∷ more) b.conds (cond (b.n + 1) ∷ []),
          s.said (val ∷ more),
          h (b.n + 1) (b.args ++ val ∷ more) (placed b val more s.counted),
        ));
  }

  add-unless :
      (empty : Bool) (cond : ℕ → Cond) (val : Arg) (b : Builder) (v c : Bool)
      → Says b v
      → ((k : ℕ) (args : List Arg) → arg_at k args ≡ some val → holds ilike args r (cond k) ≡ c)
      → Says (add (not empty) cond val b) (v && (empty || c))
  add-unless true cond val b v c s h = add-Says false cond val b v c s h
  add-unless false cond val b v c s h = add-Says true cond val b v c s h

  build_conds-Says :
      (p : LogQueryParams) → Says (build_conds p) (wanted ilike p r && below p.cursor r)
  unfolding build_conds wanted below holds
  build_conds-Says p =
      let start : Says (record { n = 0; conds = []; args = [] }) true = record {
        counted = refl;
        said = λ more. unfold all_hold in refl;
      } in
      let s1 =
        add-unless (str_eq p.host "") host_is (text p.host) _ _ _ start
          (λ k args e. rw (e, holds)) in
      let s2 =
        add-unless (str_eq p.level "") level_is (text p.level) _ _ _ s1
          (λ k args e. rw (e, holds)) in
      let s3 =
        add-unless (is_zero p.from) time_from (time p.from) _ _ _ s2 (λ k args e. rw (e, holds)) in
      let s4 = add-unless (is_zero p.to) time_to (time p.to) _ _ _ s3 (λ k args e. rw (e, holds)) in
      let s5 =
        add-unless (str_eq p.q "") message_like (text (text_append "%" (text_append p.q "%"))) _ _ _
          s4 (λ k args e. rw (e, holds)) in
      add-Says (ltb_ℤ (pos 0) p.cursor) id_below (num p.cursor) _ _ _ s5 (λ k args e. rw (e, holds))

-- The query that is built selects the rows that the parameters ask for: each nonempty filter
-- constrains its column with the value bound to its own placeholder, an empty filter constrains
-- nothing, and the last placeholder is bound to one more than the limit.
pub build-wanted :
    (ilike : String → String → Bool) (p : LogQueryParams) (r : LogRow)
    → (all_hold ilike (build p).args r (build p).conds ≡ (wanted ilike p r && below p.cursor r))
      × (arg_at (build p).limit_arg (build p).args ≡ some (num (p.limit +ℤ pos 1)))
unfolding build
build-wanted ilike p r =
    let s = build_conds-Says ilike r p in
    (
      s.said (num (p.limit +ℤ pos 1) ∷ []),
      placed ilike r (build_conds p) (num (p.limit +ℤ pos 1)) [] s.counted,
    )
