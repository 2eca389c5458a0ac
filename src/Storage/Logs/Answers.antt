-- ===== src/Storage/Logs/Answers.antt =====
-- What a database answers to a query of the log repository, and what the parameters ask for.
use theminidog.Base.{
  ℕ, zero, suc, ◌≡◌, Bool, true, false, not, ◌&&◌, ◌||◌, Option, none, some, List, [], ◌∷◌, String,
  Time, ℤ, pos, ltb_ℤ, leb_ℤ, is_zero, str_eq, take, map, keep_if, ◌<ℤ◌, All,
}
use Prim.Native.String.{◌++◌}
use theminidog.Storage.Logs.{
  LogQueryParams, LogRow, Cond, host_is, level_is, time_from, time_to, message_like, id_below, Arg,
  text, time, num, Select, Rows, rows,
}

-- The argument of the placeholder `$k`.
abbrev pub arg_at : ℕ → List Arg → Option Arg
arg_at zero as' = none
arg_at (suc k) [] = none
arg_at (suc zero) (a ∷ as') = some a
arg_at (suc (suc k)) (a ∷ as') = arg_at (suc k) as'

-- A comparison of the database, where the argument has the type of the column.
abbrev pub on_text : (String → Bool) → Option Arg → Bool
on_text f none = false
on_text f (some (text s)) = f s
on_text f (some (time t)) = false
on_text f (some (num n)) = false

abbrev pub on_time : (Time → Bool) → Option Arg → Bool
on_time f none = false
on_time f (some (text s)) = false
on_time f (some (time t)) = f t
on_time f (some (num n)) = false

abbrev pub on_num : (ℤ → Bool) → Option Arg → Bool
on_num f none = false
on_num f (some (text s)) = false
on_num f (some (time t)) = false
on_num f (some (num n)) = f n

-- The rows on this page and the later ones.
unfoldable pub below : ℤ → LogRow → Bool
below cursor r = not (ltb_ℤ (pos 0) cursor) || ltb_ℤ r.id cursor

-- `ilike pattern s` is the operator ILIKE.
module _ (ilike : String → String → Bool) where
  unfoldable pub holds : List Arg → LogRow → Cond → Bool
  holds args r (host_is k) = on_text (λ s. str_eq r.host s) (arg_at k args)
  holds args r (level_is k) = on_text (λ s. str_eq r.level s) (arg_at k args)
  holds args r (time_from k) = on_time (λ t. leb_ℤ t r.time) (arg_at k args)
  holds args r (time_to k) = on_time (λ t. leb_ℤ r.time t) (arg_at k args)
  holds args r (message_like k) = on_text (λ s. ilike s r.message) (arg_at k args)
  holds args r (id_below k) = on_num (λ n. ltb_ℤ r.id n) (arg_at k args)

  unfoldable pub all_hold : List Arg → LogRow → List Cond → Bool
  unfolding holds
  all_hold args r [] = true
  all_hold args r (c ∷ cs) = holds args r c && all_hold args r cs

  -- The rows that the parameters ask for, but for the cursor.
  unfoldable pub wanted : LogQueryParams → LogRow → Bool
  wanted p r =
      ((((str_eq p.host "" || str_eq r.host p.host)
            && (str_eq p.level "" || str_eq r.level p.level))
          && (is_zero p.from || leb_ℤ p.from r.time))
        && (is_zero p.to || leb_ℤ r.time p.to))
      && (str_eq p.q "" || ilike ("%" ++ (p.q ++ "%")) r.message)

  -- A pool over a table, whose rows are listed by descending id, runs a query as SQL says.
  pub record Runs (table : List LogRow) (pool : Select → Rows) : Type 0 where
    pub answer :
        (s : Select) (n : ℕ)
        → arg_at s.limit_arg s.args ≡ some (num (pos n))
        → pool s ≡ rows (map some (take n (keep_if (λ r. all_hold s.args r s.conds) table))) false

-- The ids fall along the table, and are positive.
abbrev pub Descending : List LogRow → Type 0
Descending [] = Unit {0}
Descending (r ∷ rs) = (pos 0 <ℤ r.id) × All (λ s. s.id <ℤ r.id) rs × Descending rs
