-- ===== src/Storage/Metrics/Params.antt =====
-- The parameters that `Validate` accepts, and the texts of the queries that they give.
use theminidog.Base.{
  ◌≡◌, refl, ◌↔◌, true, false, none, some, List, [], ◌∷◌, String, Time, -ℤ_parts, ◌-ℤ◌, ◌≤ℤ◌, ◌<ℤ◌,
  ltb_ℤ, sub, lookup, contains, is_blank, arith, Option-cases, ap, ◌∙◌, Map, All, Bool-cases,
  str_eq, str_eq_iff, subst, inl, inr,
}
use theminidog.Storage.Metrics.{
  QueryParams, valid_buckets, valid_aggs, stored_names, has_key, thirty_days, validate, select,
  select_text, literal,
}

-- What the parameters must be, with the exact difference of the times.
abbrev pub IsAccepted : QueryParams → Type 0
IsAccepted p =
    (is_blank p.host ≡ false)
    × (contains p.name stored_names ≡ true)
    × (has_key p.bucket valid_buckets ≡ true)
    × (has_key p.agg valid_aggs ≡ true)
    × (p.from <ℤ p.to)
    × (p.to -ℤ p.from ≤ℤ thirty_days)

contains-All :
    (P : String → Type 0) (s : String) (ts : List String) → All P ts → contains s ts ≡ true → P s
unfolding contains
contains-All P s [] a h = absurd (let t : false ≡ true = h in ground arith)
contains-All P s (t ∷ ts) a h = elim (Bool-cases (str_eq t s)) [
  | inl e ↦ subst P ((str_eq_iff t s).0 e) a.0
  | inr e ↦ contains-All P s ts a.1 (ground arith)
]

named_not_blank : (s : String) → contains s stored_names ≡ true → is_blank s ≡ false
unfolding is_blank
named_not_blank s =
    contains-All (λ t. is_blank t ≡ false) s stored_names
      (refl, (refl, (refl, (refl, (refl, (refl, (refl, (refl, (refl, tt)))))))))

ltb-sub : (t u : Time) → ltb_ℤ thirty_days (sub t u) ≡ ltb_ℤ thirty_days (t -ℤ u)
unfolding sub
ltb-sub t u = ground (arith, -ℤ_parts t u)

-- `QueryParams.Validate` accepts exactly the parameters with a host that is not blank, a stored
-- metric name, a listed bucket and aggregate, and a start before the end by at most 30 days, the
-- difference taken exactly although `Sub` saturates.
pub validate_iff : (p : QueryParams) → (validate p ≡ none) ↔ IsAccepted p
unfolding validate
validate_iff p = ground (arith, ltb-sub p.to p.from, named_not_blank p.name)

found : (k : String) (m : Map String) → has_key k m ≡ true → (v : String) × (lookup k m ≡ some v)
found k m h = elim (Option-cases (lookup k m)) [
  | inl e ↦ absurd (ground arith)
  | inr (v, e) ↦ (v, e)
]

literal_found : (k : String) (m : Map String) (v : String) → lookup k m ≡ some v → literal k m ≡ v
unfolding literal
literal_found k m v e = ground (arith, e)

pub select-validated :
    (p : QueryParams)
    → validate p ≡ none
    → (l : String) × (a : String) × (lookup p.bucket valid_buckets ≡ some l)
      × (lookup p.agg valid_aggs ≡ some a)
      × ((select p).sql ≡ select_text l a)
unfolding select
select-validated p h =
    let accepted = (validate_iff p).0 h in
    let (l, bucket) = found p.bucket valid_buckets accepted.2 in
    let (a, agg) = found p.agg valid_aggs accepted.3 in
    (
      l,
      a,
      bucket,
      agg,
      ap (λ x. select_text x (literal p.agg valid_aggs))
            (literal_found p.bucket valid_buckets l bucket)
          ∙ ap (select_text l) (literal_found p.agg valid_aggs a agg),
    )
