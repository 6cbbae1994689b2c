-- ===== src/Deploy/Pipeline/Steps.antt =====
-- The ways to build a step of the pipeline: Go's return of an error, its discarded errors, and the
-- calls and statements that the deploy's context bounds.
use vac.Deploy.Pipeline.{
  Run, Failure, Answer, Call, message, context_ended, answered, refused, missing,
}
use vac.Deploy.Schema.{Db, Result, ok, err}
use vac.Deploy.Status.{DeploymentStatus, ServiceStatus}
use vac.Prelude.{Option, Bool, List, String, ℕ, ◌∷◌, some, suc, none, zero}
use Prim.Native.String.{◌++◌ as str_append}
use vac.Deploy.Services.{Service}

pub data Outcome (A : Type 0) : Type 0 where
  returns : A → Outcome A
  raised : Failure → Outcome A

abbrev pub Exec : Type 0 → Type 0
Exec A = Run → Outcome A × Run

module _ {A : Type 0} where
  unfoldable pub pure : A → Exec A
  pure a s = (returns a, s)

  unfoldable pub fail : Failure → Exec A
  fail e s = (raised e, s)

  -- An outcome that was caught, given back.
  unfoldable pub give : Outcome A → Exec A
  give r s = (r, s)

  -- A step whose outcome is looked at: `err := …`.
  unfoldable pub try : Exec A → Exec (Outcome A)
  try m s = (returns (m s).0, (m s).1)

  -- A step whose error is discarded: `_ = …`.
  unfoldable pub attempt : Exec A → Exec Unit
  attempt m s = (returns tt, (m s).1)

  abbrev pub wrapped : String → Outcome A → Outcome A
  wrapped note (raised (message text)) = raised (message (str_append note text))
  wrapped note r = r

  -- fmt.Errorf with %w
  unfoldable pub wrap : String → Exec A → Exec A
  wrap note m s = (wrapped note (m s).0, (m s).1)

  abbrev pub outcome : Answer A → Outcome A
  outcome (answered a) = returns a
  outcome missing = raised (message "not found")
  outcome (refused text) = raised (message text)

  abbrev pub let_through : Option ℕ → Exec A → Exec A
  let_through none m s = m s
  let_through (some zero) m s = (raised context_ended, s)
  let_through (some (suc n)) m s = m (record s { left = some n })

  -- A step that takes the deploy's context.
  unfoldable pub bounded : Exec A → Exec A
  bounded m s = let_through s.left m s

  -- A call that takes no context, such as one of the file system.
  unfoldable pub local : Answer A → Exec A
  local a s = (outcome a, s)

  unfoldable pub call : Call → Answer A → Exec A
  unfolding bounded
  call c a = bounded (λ s. (outcome a, record s { calls = c ∷ s.calls }))

  unfoldable pub ask : Answer A → Exec A
  unfolding bounded local
  ask a = bounded (local a)

module _ {A B : Type 0} where
  abbrev pub continue : Outcome A → (A → Exec B) → Exec B
  continue (returns a) f s = f a s
  continue (raised e) f s = (raised e, s)

  infixl 10 ◌>>=◌ ◌>>◌
  unfoldable pub ◌>>=◌ : Exec A → (A → Exec B) → Exec B
  unfolding pure fail give try attempt wrap bounded local call ask
  ◌>>=◌ m f s = continue (m s).0 f (m s).1

  abbrev pub ◌>>◌ : Exec A → Exec B → Exec B
  m >> n = m >>= λ _. n

-- A statement on the deployments.
abbrev pub wrote : Run → Result Db → Outcome Unit × Run
wrote s (ok db) = (returns tt, record s { db = db })
wrote s (err e) = (raised (message "store"), s)

unfoldable pub write : (Db → Result Db) → Exec Unit
unfolding bounded
write f = bounded (λ s. wrote s (f s.db))

-- A statement that gives the run's deployment a status.
abbrev pub gave : DeploymentStatus → Run → Result Db → Outcome Unit × Run
gave st s (ok db) = (returns tt, record s { db = db; history = st ∷ s.history })
gave st s (err e) = (raised (message "store"), s)

unfoldable pub write_status : DeploymentStatus → (Db → Result Db) → Exec Unit
unfolding bounded
write_status st f = bounded (λ s. gave st s (f s.db))

-- A query of the deployments.
abbrev pub read_result : {A : Type 0} → Run → Result A → Outcome A × Run
read_result s (ok a) = (returns a, s)
read_result s (err e) = (raised (message "store"), s)

unfoldable pub query : {A : Type 0} → (Db → Result A) → Exec A
unfolding bounded
query f = bounded (λ s. read_result s (f s.db))

unfoldable pub set_app_status : ServiceStatus → Exec Unit
unfolding bounded
set_app_status st = bounded (λ s. (returns tt, record s { app_status = st }))

unfoldable pub set_suspended : Bool → Exec Unit
unfolding bounded
set_suspended b = bounded (λ s. (returns tt, record s { suspended = b }))

-- A statement on the services, and a query of them.
abbrev pub stored : Run → Result (List Service) → Outcome Unit × Run
stored s (ok rows) = (returns tt, record s { services = rows })
stored s (err e) = (raised (message "store"), s)

unfoldable pub write_services : (List Service → Result (List Service)) → Exec Unit
unfolding bounded
write_services f = bounded (λ s. stored s (f s.services))

unfoldable pub query_services : (List Service → List Service) → Exec (List Service)
unfolding bounded
query_services f = bounded (λ s. (returns (f s.services), s))

-- A call that takes no deploy context, such as a notification.
unfoldable pub note_call : Call → Exec Unit
note_call c s = (returns tt, record s { calls = c ∷ s.calls })
