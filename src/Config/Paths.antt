-- ===== src/Config/Paths.antt =====
-- LOG_PATHS, which internal/config/agent.go reads: paths between commas.
use theminidog.Base.{
  ◌≡◌, refl, sym, subst, ap, ◌∙◌, false, List, [], ◌∷◌, String, str_eq, str_eq_iff, All, arith,
  Bool-cases, inl, inr, trim, split_commas, join_commas, IsPlain, split_commas-join_commas,
}
use theminidog.Config.Agent.{paths_of, log_paths}

-- A path that can stand in LOG_PATHS: without commas, and without white space at its ends.
pub record IsPath (p : String) : Type 0 where
  pub plain : IsPlain p
  pub trimmed : trim p ≡ p
  pub filled : str_eq p "" ≡ false

paths_of-IsPath : (ps : List String) → All IsPath ps → paths_of ps ≡ ps
unfolding paths_of
paths_of-IsPath [] h = refl
paths_of-IsPath (p ∷ ps) (h, hs) = rw (h.trimmed, h.filled, paths_of-IsPath ps hs) refl

All-IsPlain : (ps : List String) → All IsPath ps → All IsPlain ps
All-IsPlain [] h = tt
All-IsPlain (p ∷ ps) (h, hs) = (h.plain, All-IsPlain ps hs)

-- The test for the empty text makes no difference.
log_paths-split : (raw : String) → log_paths raw ≡ paths_of (split_commas raw)
unfolding log_paths paths_of split_commas trim
log_paths-split raw = elim (Bool-cases (str_eq raw "")) [
  | inl empty ↦
      subst (λ r. log_paths r ≡ paths_of (split_commas r)) (sym ((str_eq_iff raw "").0 empty)) refl
  | inr filled ↦ ground (arith, filled)
]

-- Paths without commas, without white space at their ends and not empty, joined by commas, are
-- read back from LOG_PATHS as they were.
pub log_paths-join_commas :
    (p : String) (ps : List String)
    → All IsPath (p ∷ ps)
    → log_paths (join_commas (p ∷ ps)) ≡ p ∷ ps
log_paths-join_commas p ps h =
    log_paths-split (join_commas (p ∷ ps))
    ∙ ap paths_of (split_commas-join_commas p ps (All-IsPlain (p ∷ ps) h))
    ∙ paths_of-IsPath (p ∷ ps) h
