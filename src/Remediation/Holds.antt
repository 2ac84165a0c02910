-- ===== src/Remediation/Holds.antt =====
-- What a step of the pipeline may do: the assertions that its proofs are made of.
use cloud_ward.Prelude.{
  Option, some, ℕ, ◌≡◌, ◌≢◌, ◌<◌, refl, String, Bool, true, false, List, [], ◌∷◌, if◌then◌else◌,
}
use cloud_ward.Errors.{
  Result, ok, err, cloud_ward_error, python_error, PythonError, transport_error,
}
use cloud_ward.Runbooks.Schema.{RunbookDocument}
use cloud_ward.Incidents.Machine.{resolved}
use cloud_ward.Platform.{Platform, PolicyInput, PolicyResult, transport_failed}
use cloud_ward.Exec.{Exec, Session, Call, evaluated, deleted_pod, scaled, continue, when}
use cloud_ward.Store.Records.{ActionExecution}

-- The last request is an answer of OPA that allows the action of the chosen runbook on the named pod.
abbrev pub IsAllowing :
    {P : Platform} → Option RunbookDocument → String → String → List (Call P) → Type 0
IsAllowing chosen namespace name [] = ⊥
IsAllowing chosen namespace name (evaluated input result ∷ older) =
    (result.allowed ≡ true)
    × (input.target.namespace ≡ namespace)
    × (input.target.pod_name ≡ name)
    × ((runbook : RunbookDocument) × (chosen ≡ some runbook) × (input.action ≡ runbook.action))
IsAllowing chosen namespace name (deleted_pod _ _ ∷ older) = ⊥
IsAllowing chosen namespace name (scaled _ _ _ ∷ older) = ⊥

-- The calls since the given ones: questions to OPA, and deletions that came directly after such an
-- answer for the deleted pod. There is no request to scale.
pub data IsAuthorized {P : Platform} (chosen : Option RunbookDocument) (before : List (Call P))
    : List (Call P) → Type 0 where
  no_calls : IsAuthorized chosen before before
  policy_asked :
      {calls : List (Call P)} {input : PolicyInput P.floats} {result : PolicyResult}
      → IsAuthorized chosen before calls
      → IsAuthorized chosen before (evaluated input result ∷ calls)
  pod_deleted :
      {calls : List (Call P)} {namespace name : String}
      → IsAllowing chosen namespace name calls
      → IsAuthorized chosen before calls
      → IsAuthorized chosen before (deleted_pod namespace name ∷ calls)

-- The runbook that is chosen for a run, and the calls before it.
pub record Scope (P : Platform) : Type 0 where
  pub chosen : Option RunbookDocument
  pub before : List (Call P)

-- No request to the Kubernetes API ends with an exception other than an ApiException.
pub record IsReachable (P : Platform) : Type 0 where
  pub deployments : (a b : String) (w : P.World) → (P.read_deployment a b w).0 ≢ transport_failed
  pub pods : (a b : String) (w : P.World) → (P.list_pods a b w).0 ≢ transport_failed
  pub pod : (a b : String) (w : P.World) → (P.read_pod a b w).0 ≢ transport_failed
  pub removal : (a b : String) (w : P.World) → (P.remove_pod a b w).0 ≢ transport_failed
  pub health : (a b c : String) (w : P.World) → (P.proxy_health a b c w).0 ≢ transport_failed

-- Every execution has an attempt below the given one.
abbrev pub AttemptsBelow : ℕ → List ActionExecution → Type 0
AttemptsBelow attempt [] = Unit
AttemptsBelow attempt (x ∷ xs) = (x.attempt < attempt) × AttemptsBelow attempt xs

-- What a failure leaves behind: authorized requests, and no resolution that a rollback returns to.
pub record IsSafe {P : Platform} (scope : Scope P) (s : Session P) : Type 0 where
  pub authorized : IsAuthorized scope.chosen scope.before s.calls
  pub unresolved : s.committed.incident.state ≢ resolved

-- A session between two steps, before the round of the given attempt.
pub record IsGood {P : Platform} (scope : Scope P) (attempt : ℕ) (s : Session P) : Type 0 where
  pub safe : IsSafe scope s
  pub active : s.live.incident.state ≢ resolved
  pub attempts : AttemptsBelow attempt s.live.executions

-- An exception of the client that a reachable Kubernetes API does not raise.
abbrev pub IsTransport : Platform → PythonError → Type 0
IsTransport P e = (e ≡ transport_error) × (¬ IsReachable P)

-- A step returns with the assertion, or raises a CloudWardError or a transport error and leaves a
-- safe session.
abbrev pub Holds {ℓ} :
    {P : Platform} {A : Type ℓ} → Scope P → (A → Session P → Type 0) → Result A × Session P → Type 0
Holds scope Q (ok a, t) = Q a t
Holds scope Q (err (cloud_ward_error code status), t) = IsSafe scope t
Holds {P} scope Q (err (python_error e), t) = IsTransport P e × IsSafe scope t

pub Holds-continue {ℓ κ} :
    {P : Platform} (scope : Scope P) {A : Type ℓ} {B : Type κ} (Q : A → Session P → Type 0)
    (R : B → Session P → Type 0) (q : Result A × Session P) (f : A → Exec P B)
    → Holds scope Q q
    → ((a : A) (t : Session P) → Q a t → Holds scope R (f a t))
    → Holds scope R (continue q f)
Holds-continue scope Q R (ok a, t) f h k = k a t h
Holds-continue scope Q R (err (cloud_ward_error code status), t) f h k = h
Holds-continue scope Q R (err (python_error e), t) f h k = h

-- A result that is no exception but a CloudWardError or a transport error.
abbrev pub IsDomestic {ℓ} : Platform → {A : Type ℓ} → Result A → Type 0
IsDomestic P (ok a) = Unit
IsDomestic P (err (cloud_ward_error code status)) = Unit
IsDomestic P (err (python_error e)) = IsTransport P e

pub Holds-of {ℓ} :
    {P : Platform} (scope : Scope P) {A : Type ℓ} (Q : A → Session P → Type 0)
    (q : Result A × Session P)
    → IsDomestic P q.0
    → IsSafe scope q.1
    → ((a : A) → q.0 ≡ ok a → Q a q.1)
    → Holds scope Q q
Holds-of scope Q (ok a, t) h safe k = k a refl
Holds-of scope Q (err (cloud_ward_error code status), t) h safe k = safe
Holds-of scope Q (err (python_error e), t) h safe k = (h, safe)

-- A step that changes neither the requests nor the executions, and may commit or not.
pub IsGood-same :
    {P : Platform} {scope : Scope P} (attempt : ℕ) (s t : Session P)
    → t.calls ≡ s.calls
    → t.live.executions ≡ s.live.executions
    → t.live.incident.state ≡ s.live.incident.state
    → t.committed.incident.state ≢ resolved
    → IsGood scope attempt s
    → IsGood scope attempt t
IsGood-same attempt s t calls executions state unresolved h = record {
  safe = record { authorized = rw calls h.safe.authorized; unresolved = unresolved };
  active = rw state h.active;
  attempts = rw executions h.attempts;
}

pub Holds-ok {ℓ} :
    {P : Platform} (scope : Scope P) {A : Type ℓ} (Q : A → Session P → Type 0)
    (q : Result A × Session P) (a : A)
    → q.0 ≡ ok a
    → Q a q.1
    → Holds scope Q q
Holds-ok scope Q (r, t) a e h = rw e h

-- A weaker assertion, where the first one is met.
pub Holds-map {ℓ} :
    {P : Platform} (scope : Scope P) {A : Type ℓ} (Q R : A → Session P → Type 0)
    (q : Result A × Session P)
    → ((a : A) (t : Session P) → Q a t → R a t)
    → Holds scope Q q
    → Holds scope R q
Holds-map scope Q R (ok a, t) f h = f a t h
Holds-map scope Q R (err (cloud_ward_error code status), t) f h = h
Holds-map scope Q R (err (python_error e), t) f h = h

pub Holds-if {ℓ} :
    {P : Platform} (scope : Scope P) {A : Type ℓ} (R : A → Session P → Type 0) (test : Bool)
    (m n : Exec P A) (s : Session P)
    → (test ≡ true → Holds scope R (m s))
    → (test ≡ false → Holds scope R (n s))
    → Holds scope R ((if test then m else n) s)
Holds-if scope R true m n s h k = h refl
Holds-if scope R false m n s h k = k refl

pub Holds-when {ℓ} :
    {P : Platform} (scope : Scope P) {A : Type ℓ} (R : A → Session P → Type 0) (test : Bool)
    (m : Exec P (Unit {0})) (f : Unit {0} → Exec P A) (s : Session P)
    → (test ≡ true → Holds scope R (continue (m s) f))
    → (test ≡ false → Holds scope R (f tt s))
    → Holds scope R (continue (when test m s) f)
Holds-when scope R true m f s h k = h refl
Holds-when scope R false m f s h k = k refl

pub continue-ok {ℓ κ} :
    {P : Platform} {A : Type ℓ} {B : Type κ} (q : Result A × Session P) (f : A → Exec P B) (a : A)
    → q.0 ≡ ok a
    → continue q f ≡ f a q.1
continue-ok (r, t) f a e = rw e refl
