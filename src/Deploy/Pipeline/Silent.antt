-- ===== src/Deploy/Pipeline/Silent.antt =====
-- Steps of api/internal/deploy/pipeline.go that call no program and send no notification.
use vac.Prelude.{
  Bool, List, Option, ◌∙◌, ◌≡◌, if◌then◌else◌, ℕ, refl, some, true, suc, false, none, zero,
}
use vac.Deploy.Pipeline.{Run}
use vac.Deploy.Pipeline.Steps.{
  Exec, Outcome, returns, raised, pure, attempt, bounded, let_through, continue, ◌>>=◌,
  write_status, gave, set_app_status, write_services, stored, query_services,
}
use vac.Deploy.Status.{DeploymentStatus, ServiceStatus}
use vac.Deploy.Services.{Service}
use vac.Deploy.Schema.{Db, Result, ok, err}

pub record Silent {A : Type 0} (m : Exec A) : Type 0 where
  pub same : (s : Run) → (m s).1.calls ≡ s.calls

module _ {A : Type 0} where
  pub Silent-pure : (a : A) → Silent (pure a)
  unfolding pure
  Silent-pure a = record { same = λ s. refl }

  pub Silent-attempt : (m : Exec A) → Silent m → Silent (attempt m)
  unfolding attempt
  Silent-attempt m k = record { same = k.same }

  Silent-let_through :
      (m : Exec A) → Silent m → (l : Option ℕ) (s : Run) → (let_through l m s).1.calls ≡ s.calls
  Silent-let_through m k none s = k.same s
  Silent-let_through m k (some zero) s = refl
  Silent-let_through m k (some (suc n)) s = k.same (record s { left = some n })

  pub Silent-bounded : (m : Exec A) → Silent m → Silent (bounded m)
  unfolding bounded
  Silent-bounded m k = record { same = λ s. Silent-let_through m k s.left s }

  pub Silent-if : (b : Bool) (m n : Exec A) → Silent m → Silent n → Silent (if b then m else n)
  Silent-if true m n km kn = km
  Silent-if false m n km kn = kn

module _ {A B : Type 0} where
  Silent-continue :
      (f : A → Exec B)
      → ((a : A) → Silent (f a))
      → (r : Outcome A) (s : Run) → (continue r f s).1.calls ≡ s.calls
  Silent-continue f kf (returns a) s = (kf a).same s
  Silent-continue f kf (raised e) s = refl

  pub Silent-bind :
      (m : Exec A) (f : A → Exec B) → Silent m → ((a : A) → Silent (f a)) → Silent (m >>= f)
  unfolding ◌>>=◌
  Silent-bind m f km kf = record { same = λ s. Silent-continue f kf (m s).0 (m s).1 ∙ km.same s }

Silent-gave : (st : DeploymentStatus) (s : Run) (r : Result Db) → (gave st s r).1.calls ≡ s.calls
Silent-gave st s (ok db) = refl
Silent-gave st s (err e) = refl

pub Silent-write_status : (st : DeploymentStatus) (f : Db → Result Db) → Silent (write_status st f)
unfolding write_status
Silent-write_status st f = Silent-bounded _ (record { same = λ s. Silent-gave st s (f s.db) })

pub Silent-set_app_status : (st : ServiceStatus) → Silent (set_app_status st)
unfolding set_app_status
Silent-set_app_status st = Silent-bounded _ (record { same = λ s. refl })

Silent-stored : (s : Run) (r : Result (List Service)) → (stored s r).1.calls ≡ s.calls
Silent-stored s (ok rows) = refl
Silent-stored s (err e) = refl

pub Silent-write_services : (f : List Service → Result (List Service)) → Silent (write_services f)
unfolding write_services
Silent-write_services f = Silent-bounded _ (record { same = λ s. Silent-stored s (f s.services) })

pub Silent-query_services : (f : List Service → List Service) → Silent (query_services f)
unfolding query_services
Silent-query_services f = Silent-bounded _ (record { same = λ s. refl })

pub ruleset silent_rules = (
  Silent-pure, Silent-attempt, Silent-if, Silent-bind, Silent-write_status, Silent-set_app_status,
  Silent-write_services, Silent-query_services,
)
