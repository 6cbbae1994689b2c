-- ===== src/Deploy/Pipeline/Stays.antt =====
-- Steps of api/internal/deploy/pipeline.go that leave the deployment's status alone, with one rule for
-- each way to build a step.
use vac.Deploy.Services.{Service}
use vac.Deploy.Schema.{Db, Result, ok, err}
use vac.Prelude.{
  ℕ, ◌≡◌, Bool, some, Option, String, if◌then◌else◌, List, true, suc, false, refl, sym, none, ap,
  zero, is_some, ◌∙◌,
}
use vac.Deploy.Pipeline.{
  Run, Failure, context_ended, message, Answer, Call, answered, refused, missing,
}
use vac.Deploy.Pipeline.Steps.{
  ◌>>◌, attempt, query, ◌>>=◌, Exec, Outcome, returns, raised, ask, bounded, call, continue, fail,
  local, note_call, pure, query_services, set_app_status, set_suspended, try, wrap, write,
  write_services, let_through, outcome, read_result, wrapped, wrote, stored,
}
use vac.Deploy.Pipeline.Lifecycle.{On, IsStored}
use vac.Deploy.Status.{DeploymentStatus, ServiceStatus}

-- An error of the ended context leaves no calls.
abbrev pub Ended : Failure → Run → Type 0
Ended context_ended s = s.left ≡ some 0
Ended (message text) s = Unit

abbrev pub Cut : {A : Type 0} → Outcome A → Run → Type 0
Cut (returns a) s = Unit
Cut (raised e) s = Ended e s

module _ (id : ℕ) (may_end : Bool) where
  pub record Stays {A : Type 0} (m : Exec A) : Type 0 where
    pub keeps : (st : DeploymentStatus) (s : Run) → On id may_end st s → On id may_end st (m s).1
    pub cut : (s : Run) → Cut (m s).0 (m s).1

Cut-wrapped :
    {A : Type 0} (note : String) (r : Outcome A) (s : Run) → Cut r s → Cut (wrapped note r) s
Cut-wrapped note (returns a) s c = tt
Cut-wrapped note (raised context_ended) s c = c
Cut-wrapped note (raised (message text)) s c = tt

Cut-outcome : {A : Type 0} (a : Answer A) (s : Run) → Cut (outcome a) s
Cut-outcome (answered a) s = tt
Cut-outcome missing s = tt
Cut-outcome (refused text) s = tt

Cut-wrote : (s : Run) (r : Result Db) → Cut (wrote s r).0 (wrote s r).1
Cut-wrote s (ok db) = tt
Cut-wrote s (err e) = tt

Cut-stored : (s : Run) (r : Result (List Service)) → Cut (stored s r).0 (stored s r).1
Cut-stored s (ok rows) = tt
Cut-stored s (err e) = tt

Cut-read_result :
    {A : Type 0} (s : Run) (r : Result A) → Cut (read_result s r).0 (read_result s r).1
Cut-read_result s (ok a) = tt
Cut-read_result s (err e) = tt

module _ (id : ℕ) (may_end : Bool) where
  On-wrote :
      (f : Db → Result Db)
      → ((st : DeploymentStatus) (db db' : Db)
          → f db ≡ ok db'
          → IsStored id st db
          → IsStored id st db')
      → (st : DeploymentStatus) (s : Run) (r : Result Db) → f s.db ≡ r
      → On id may_end st s
      → On id may_end st (wrote s r).1
  On-wrote f k st s (ok db) e h = (k st s.db db e h.0, h.1)
  On-wrote f k st s (err x) e h = h

  On-stored :
      (st : DeploymentStatus) (s : Run) (r : Result (List Service))
      → On id may_end st s
      → On id may_end st (stored s r).1
  On-stored st s (ok rows) h = h
  On-stored st s (err e) h = h

  On-read_result :
      {A : Type 0} (st : DeploymentStatus) (s : Run) (r : Result A)
      → On id may_end st s
      → On id may_end st (read_result s r).1
  On-read_result st s (ok a) h = h
  On-read_result st s (err e) h = h

module _ {id : ℕ} {may_end : Bool} where
  module _ {A : Type 0} where
    pub Stays-pure : (a : A) → Stays id may_end (pure a)
    unfolding pure
    Stays-pure a = record { keeps = λ st s h. h; cut = λ s. tt }

    pub Stays-fail : (text : String) → Stays id may_end (fail {A = A} (message text))
    unfolding fail
    Stays-fail text = record { keeps = λ st s h. h; cut = λ s. tt }

    pub Stays-try : (m : Exec A) → Stays id may_end m → Stays id may_end (try m)
    unfolding try
    Stays-try m k = record { keeps = λ st s h. k.keeps st s h; cut = λ s. tt }

    pub Stays-attempt : (m : Exec A) → Stays id may_end m → Stays id may_end (attempt m)
    unfolding attempt
    Stays-attempt m k = record { keeps = λ st s h. k.keeps st s h; cut = λ s. tt }

    pub Stays-wrap :
        (note : String) (m : Exec A) → Stays id may_end m → Stays id may_end (wrap note m)
    unfolding wrap
    Stays-wrap note m k = record {
      keeps = λ st s h. k.keeps st s h;
      cut = λ s. Cut-wrapped note (m s).0 (m s).1 (k.cut s);
    }

    On-let_through :
        (m : Exec A)
        → Stays id may_end m
        → (st : DeploymentStatus) (l : Option ℕ) (s : Run) → s.left ≡ l
        → On id may_end st s
        → On id may_end st (let_through l m s).1
    On-let_through m k st none s e h = k.keeps st s h
    On-let_through m k st (some zero) s e h = h
    On-let_through m k st (some (suc n)) s e h =
        k.keeps st (record s { left = some n }) (h.0, (h.1.0, sym (ap is_some e) ∙ h.1.1))

    Cut-let_through :
        (m : Exec A)
        → Stays id may_end m
        → (l : Option ℕ) (s : Run) → s.left ≡ l
        → Cut (let_through l m s).0 (let_through l m s).1
    Cut-let_through m k none s e = k.cut s
    Cut-let_through m k (some zero) s e = e
    Cut-let_through m k (some (suc n)) s e = k.cut (record s { left = some n })

    pub Stays-bounded : (m : Exec A) → Stays id may_end m → Stays id may_end (bounded m)
    unfolding bounded
    Stays-bounded m k = record {
      keeps = λ st s h. On-let_through m k st s.left s refl h;
      cut = λ s. Cut-let_through m k s.left s refl;
    }

    pub Stays-local : (a : Answer A) → Stays id may_end (local a)
    unfolding local
    Stays-local a = record { keeps = λ st s h. h; cut = λ s. Cut-outcome a s }

    pub Stays-ask : (a : Answer A) → Stays id may_end (ask a)
    unfolding ask
    Stays-ask a = Stays-bounded (local a) (Stays-local a)

    pub Stays-call : (c : Call) (a : Answer A) → Stays id may_end (call c a)
    unfolding call
    Stays-call c a = Stays-bounded _ (record { keeps = λ st s h. h; cut = λ s. Cut-outcome a _ })

    pub Stays-if :
        (b : Bool) (m n : Exec A)
        → Stays id may_end m
        → Stays id may_end n
        → Stays id may_end (if b then m else n)
    Stays-if true m n km kn = km
    Stays-if false m n km kn = kn

  module _ {A B : Type 0} (f : A → Exec B) (kf : (a : A) → Stays id may_end (f a)) where
    On-continue :
        (r : Outcome A) (st : DeploymentStatus) (s : Run)
        → On id may_end st s
        → On id may_end st (continue r f s).1
    On-continue (returns a) st s h = (kf a).keeps st s h
    On-continue (raised e) st s h = h

    Cut-continue : (r : Outcome A) (s : Run) → Cut r s → Cut (continue r f s).0 (continue r f s).1
    Cut-continue (returns a) s c = (kf a).cut s
    Cut-continue (raised e) s c = c

  pub Stays-bind :
      {A B : Type 0} (m : Exec A) (f : A → Exec B)
      → Stays id may_end m
      → ((a : A) → Stays id may_end (f a))
      → Stays id may_end (m >>= f)
  unfolding ◌>>=◌
  Stays-bind m f km kf = record {
    keeps = λ st s h. On-continue f kf (m s).0 st (m s).1 (km.keeps st s h);
    cut = λ s. Cut-continue f kf (m s).0 (m s).1 (km.cut s);
  }

  pub Stays-write :
      (f : Db → Result Db)
      → ((st : DeploymentStatus) (db db' : Db)
          → f db ≡ ok db'
          → IsStored id st db
          → IsStored id st db')
      → Stays id may_end (write f)
  unfolding write
  Stays-write f k = Stays-bounded _ (record {
    keeps = λ st s h. On-wrote id may_end f k st s (f s.db) refl h;
    cut = λ s. Cut-wrote s (f s.db);
  })

  pub Stays-write_services :
      (f : List Service → Result (List Service)) → Stays id may_end (write_services f)
  unfolding write_services
  Stays-write_services f = Stays-bounded _ (record {
    keeps = λ st s h. On-stored id may_end st s (f s.services) h;
    cut = λ s. Cut-stored s (f s.services);
  })

  pub Stays-query_services : (f : List Service → List Service) → Stays id may_end (query_services f)
  unfolding query_services
  Stays-query_services f = Stays-bounded _ (record { keeps = λ st s h. h; cut = λ s. tt })

  module _ {A : Type 0} where
    pub Stays-query : (f : Db → Result A) → Stays id may_end (query f)
    unfolding query
    Stays-query f = Stays-bounded _ (record {
      keeps = λ st s h. On-read_result id may_end st s (f s.db) h;
      cut = λ s. Cut-read_result s (f s.db);
    })

  pub Stays-set_app_status : (st : ServiceStatus) → Stays id may_end (set_app_status st)
  unfolding set_app_status
  Stays-set_app_status st = Stays-bounded _ (record { keeps = λ st s h. h; cut = λ s. tt })

  pub Stays-set_suspended : (b : Bool) → Stays id may_end (set_suspended b)
  unfolding set_suspended
  Stays-set_suspended b = Stays-bounded _ (record { keeps = λ st s h. h; cut = λ s. tt })

  pub Stays-note_call : (c : Call) → Stays id may_end (note_call c)
  unfolding note_call
  Stays-note_call c = record { keeps = λ st s h. h; cut = λ s. tt }

  -- A step and then another.
  pub Stays-then :
      {A B : Type 0} (m : Exec A) (n : Exec B)
      → Stays id may_end m
      → Stays id may_end n
      → Stays id may_end (m >> n)
  Stays-then m n km kn = Stays-bind m (λ _. n) km (λ _. kn)

pub ruleset stays_rules = (
  Stays-pure, Stays-fail, Stays-try, Stays-attempt, Stays-wrap, Stays-bounded, Stays-local,
  Stays-ask, Stays-call, Stays-if, Stays-bind, Stays-write_services, Stays-query_services,
  Stays-query, Stays-set_app_status, Stays-set_suspended, Stays-note_call,
)
