-- ===== src/Dashboard/Windows.antt =====
-- What the dashboard asks the store for.
use theminidog.Base.{
  ◌≡◌, refl, true, false, none, some, String, Time, Duration, pos, ◌-ℤ◌, ◌≤ℤ◌, ◌<ℤ◌, -ℤ_parts,
  seconds, lookup, arith, is_blank, contains, All,
}
use theminidog.Storage.Metrics.{valid_buckets, valid_aggs, validate, stored_names}
use theminidog.Storage.Metrics.Params.{validate_iff}
use theminidog.Dashboard.{canonical_names, window_durations, series_params, limit_of}

window_positive :
    (w : String) (d : Duration)
    → lookup w window_durations ≡ some d
    → (pos 0 <ℤ d) × (d ≤ℤ seconds 21_600)
unfolding window_durations lookup
window_positive w d e = ground arith

pub series_accepted :
    (now : Time) (host : String) (d : Duration) (name : String)
    → is_blank host ≡ false
    → pos 0 <ℤ d
    → d ≤ℤ seconds 21_600
    → contains name stored_names ≡ true
    → validate (series_params now host d name) ≡ none
unfolding series_params lookup valid_buckets valid_aggs
series_accepted now host d name h low high known =
    let p = series_params now host d name in
    let start = -ℤ_parts now d in
    let length = -ℤ_parts now (now -ℤ d) in
    (validate_iff p).1 (h, known, refl, refl, omega arith, omega arith)

-- For a host that is not blank and a window of the dashboard's map, the parameters of each of the
-- nine queries of the dashboard are accepted by `QueryParams.Validate`, which the dashboard does
-- not call.
pub series_params-IsAccepted :
    (now : Time) (host w : String) (d : Duration)
    → is_blank host ≡ false
    → lookup w window_durations ≡ some d
    → All (λ name. validate (series_params now host d name) ≡ none) canonical_names
unfolding contains
series_params-IsAccepted now host w d h e =
    let (low, high) = window_positive w d e in
    let each = λ (name : String) (known : contains name stored_names ≡ true).
      series_accepted now host d name h low high known in
    (
      each "cpu.usage_pct" refl,
      (
        each "mem.used_pct" refl,
        (
          each "mem.used_bytes" refl,
          (
            each "mem.total_bytes" refl,
            (
              each "disk.used_pct" refl,
              (
                each "disk.used_bytes" refl,
                (
                  each "disk.total_bytes" refl,
                  (each "net.bytes_in" refl, (each "net.bytes_out" refl, tt)),
                ),
              ),
            ),
          ),
        ),
      ),
    )

-- Whatever the limit of a request for logs of the dashboard, the query that it makes has a limit
-- from 1 to 200.
pub limit_of_range : (ls : String) → (pos 0 <ℤ limit_of ls) × (limit_of ls ≤ℤ pos 200)
unfolding limit_of
limit_of_range ls = ground arith
