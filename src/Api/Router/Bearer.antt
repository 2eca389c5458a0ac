-- ===== src/Api/Router/Bearer.antt =====
-- The header that the middleware accepts.
use theminidog.Base.{◌≡◌, ap, ◌∙◌, Bool, true, false, some, String, str_eq, arith}
use Prim.Native.String.{◌++◌}
use text.Mathlib.TextLemmas.{cons-append, nil-append}
use theminidog.Api.Router.{strip_prefix}

-- Some token behind "Bearer ", not empty and accepted under the secret.
abbrev pub IsBearer : (String → String → Bool) → String → String → Type 0
IsBearer verify secret header =
    (token : String) × (header ≡ "Bearer " ++ token)
    × (str_eq token "" ≡ false)
    × (verify secret token ≡ true)

pub strip-append : (p s : String) → strip_prefix p (p ++ s) ≡ some s
unfolding strip_prefix
strip-append String.[] s = ap some (nil-append s)
strip-append (String.◌∷◌ c p) s =
    ap (strip_prefix (String.◌∷◌ c p)) (cons-append c p s) ∙ (ground (arith, strip-append p s))
