-- ===== src/Runbooks/Loader.antt =====
-- backend/app/runbooks/loader.py: `RunbookLoader.match`.
use cloud_ward.Prelude.{
  String, Bool, Option, none, some, List, [], ◌∷◌, ◌&&◌, ◌||◌, ◌==◌, ltb, str_eq, has_text, all,
  any, keep, if◌then◌else◌,
}
use cloud_ward.Errors.{runbook_not_found}
use cloud_ward.Platform.{Platform}
use cloud_ward.Exec.{Exec}
use cloud_ward.Kubernetes.Executor.{or_error}
use cloud_ward.Runbooks.Texts.{codes, codes_le}
use cloud_ward.Runbooks.Schema.{RunbookDocument, environment_text}

-- The condition of the comprehension in `match`.
unfoldable pub is_candidate : String → List String → String → RunbookDocument → Bool
is_candidate incident_type conditions environment r =
    str_eq r.matches.incident_type incident_type
    && all (λ c. has_text c conditions) r.matches.conditions
    && any (λ e. str_eq (environment_text e) environment) r.environments

-- `(a.version, a.id) <= (b.version, b.id)`
unfoldable pub key_le : RunbookDocument → RunbookDocument → Bool
key_le a b = ltb a.version b.version || a.version == b.version && codes_le (codes a.id) (codes b.id)

-- `candidates.sort(key=…, reverse=True)`, which keeps the order of equal keys: an item goes before
-- the first one whose key is not greater.
unfoldable pub insert_by_key : RunbookDocument → List RunbookDocument → List RunbookDocument
insert_by_key a [] = a ∷ []
insert_by_key a (b ∷ rest) =
    let later = insert_by_key a rest in if key_le b a then a ∷ b ∷ rest else b ∷ later

unfoldable pub sort_by_key : List RunbookDocument → List RunbookDocument
sort_by_key [] = []
sort_by_key (a ∷ rest) = insert_by_key a (sort_by_key rest)

abbrev pub first : List RunbookDocument → Option RunbookDocument
first [] = none
first (r ∷ _) = some r

unfoldable pub best : List RunbookDocument → String → List String → String → Option RunbookDocument
best runbooks incident_type conditions environment =
    first (sort_by_key (keep (is_candidate incident_type conditions environment) runbooks))

-- `match`
unfoldable pub match_runbook :
    {P : Platform} → List RunbookDocument → String → List String → String → Exec P RunbookDocument
match_runbook runbooks incident_type conditions environment =
    or_error (best runbooks incident_type conditions environment) runbook_not_found 422
