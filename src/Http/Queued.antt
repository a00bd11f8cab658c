-- ===== src/Http/Queued.antt =====
-- What it takes for a handler to answer 202: one rule for each way to build one.
use tark.Common.{
  ℕ, ◌<◌, ◌⊎◌, Bool, true, false, String, Option-cases, List, none, suc, ◌∷◌, Error, Result, ok,
  err, Result-cases, if◌then◌else◌, ◌≡◌, refl, arith, inl, inr,
}
use tark.Queue.{Task, Payload, EnqueueOptions}
use tark.Queue.Tasks.{new_task}
use tark.Queue.Client.{enqueue}
use tark.Http.ApiError.{
  Response, Body, respond, bad_request, not_found_code, conflict_err, internal,
}
use tark.System.Env.{Env}
use tark.System.Act.{Act, World, Event, ◌>>=◌, ◌>>◌, pure, asks, request, branch, check}

-- The last call of all has put a task of the type on the queue: Enqueue has returned nil for it.
pub record Queued (task_type queue : String) (e : Env) (w : World) : Type 0 where
  pub task : Task
  pub options : EnqueueOptions
  pub before : List Event
  pub of_type : task.task_type ≡ task_type
  pub on_queue : options.queue ≡ queue
  pub moment : ℕ
  pub sent : w.trace ≡ Event.enqueue task options ∷ before
  pub last : w.moment ≡ suc moment
  pub taken : e.enqueue_fault moment task options ≡ none

pub record Accepts (task_type queue : String) (m : Act Response) : Type 0 where
  pub at : (e : Env) (w : World) → (m e w).0.status ≡ 202 → Queued task_type queue e (m e w).1

abbrev pub Refuses : ℕ → Type 0
Refuses status = status < 202 ⊎ 202 < status

refused : {A : Type 0} (n : ℕ) → n ≡ 202 → Refuses n → A
refused n h other = let no : ⊥ = ground (arith, h, other) in elim no [ ]

module _ {t q : String} where
  pub Accepts-refusal : (r : Response) → Refuses r.status → Accepts t q (pure r)
  unfolding pure
  Accepts-refusal r other = record { at = λ e w status. refused r.status status other }

  pub Accepts-asks :
      (f : Env → Response) → ((e : Env) → Refuses (f e).status) → Accepts t q (asks f)
  unfolding asks
  Accepts-asks f other = record { at = λ e w status. refused (f e).status status (other e) }

  pub Accepts-bad_request : (c m : String) → Accepts t q (pure (respond (bad_request c m)))
  unfolding respond bad_request
  Accepts-bad_request c m = Accepts-refusal _ (inr (omega arith))

  pub Accepts-not_found : (c m : String) → Accepts t q (pure (respond (not_found_code c m)))
  unfolding respond not_found_code
  Accepts-not_found c m = Accepts-refusal _ (inr (omega arith))

  pub Accepts-conflict : (c m : String) → Accepts t q (pure (respond (conflict_err c m)))
  unfolding respond conflict_err
  Accepts-conflict c m = Accepts-refusal _ (inr (omega arith))

  pub Accepts-internal : (c m : String) (x : Error) → Accepts t q (pure (respond (internal c m x)))
  unfolding respond internal
  Accepts-internal c m x = Accepts-refusal _ (inr (omega arith))

  pub Accepts-ok : (b : Body) → Accepts t q (pure (record { status = 200; body = b }))
  Accepts-ok b = Accepts-refusal _ (inl (omega arith))

  pub Accepts-if :
      (b : Bool) (m n : Act Response)
      → Accepts t q m
      → Accepts t q n
      → Accepts t q (if b then m else n)
  Accepts-if true m n am an = am
  Accepts-if false m n am an = an

  module _ {A : Type 0} where
    pub Accepts-bind :
        (m : Act A) (f : A → Act Response) → ((a : A) → Accepts t q (f a)) → Accepts t q (m >>= f)
    unfolding ◌>>=◌
    Accepts-bind m f r = record { at = λ e w. let (a, w') = m e w in (r a).at e w' }

    -- The same, where what follows relies on the result.
    pub Accepts-bind_after :
        (Q : A → Type 0) (m : Act A) (f : A → Act Response)
        → ((e : Env) (w : World) → Q (m e w).0)
        → ((a : A) → Q a → Accepts t q (f a))
        → Accepts t q (m >>= f)
    unfolding ◌>>=◌
    Accepts-bind_after Q m f h r = record { at = λ e w. (r (m e w).0 (h e w)).at e (m e w).1 }

    pub Accepts-then : (m : Act A) (n : Act Response) → Accepts t q n → Accepts t q (m >> n)
    unfolding ◌>>◌
    Accepts-then m n r = record { at = λ e w. r.at e (m e w).1 }

    Accepts-branch :
        (r : Result A) (fail : Error → Act Response) (k : A → Act Response)
        → ((x : Error) → Accepts t q (fail x))
        → ((a : A) → Accepts t q (k a))
        → Accepts t q (branch r fail k)
    unfolding branch
    Accepts-branch (ok a) fail k rf rk = rk a
    Accepts-branch (err x) fail k rf rk = rf x

  module _ {A : Type 0} where
    pub Accepts-check :
        (m : Act (Result A)) (fail : Error → Act Response) (k : A → Act Response)
        → ((x : Error) → Accepts t q (fail x))
        → ((a : A) → Accepts t q (k a))
        → Accepts t q (check m fail k)
    unfolding check
    Accepts-check m fail k rf rk = Accepts-bind m _ λ r. Accepts-branch r fail k rf rk

  -- A task is made and put on the queue, and then 202 is answered.
  pub Accepts-task :
      (context context' : String) (p : Payload) (options : EnqueueOptions)
      (fail fail' : Error → Act Response) (done : Response)
      → options.queue ≡ q
      → ((x : Error) → Accepts t q (fail x))
      → ((x : Error) → Accepts t q (fail' x))
      → Accepts t q (
          check
            (new_task t context p)
            fail
            (λ task. check (enqueue context' task options) fail' λ sent. pure done))
  unfolding new_task enqueue check branch asks request pure ◌>>=◌
  Accepts-task context context' p options fail fail' done same rf rf' = record {
    at = λ e w status. elim (Result-cases (e.marshal p)) [
      | inr (x, bad) ↦ rw bad ((rf _).at e w (rw bad at status))
      | inl (text, made) ↦
          elim (Option-cases
            (e.enqueue_fault w.moment (record { task_type = t; payload = text }) options)) [
              | inr (x, bad) ↦ rw (made, bad) ((rf' _).at e _ (rw (made, bad) at status))
              | inl taken ↦
                  rw (made, taken)
                    (record {
                      task = record { task_type = t; payload = text };
                      options = options;
                      before = w.trace;
                      of_type = refl;
                      on_queue = same;
                      moment = w.moment;
                      sent = refl;
                      last = refl;
                      taken = taken;
                    })
            ]
    ];
  }

pub ruleset accepts_rules = (
  Accepts-bad_request, Accepts-not_found, Accepts-conflict, Accepts-internal, Accepts-ok,
  Accepts-if, Accepts-bind, Accepts-then, Accepts-check,
)
