-- ===== src/Worker/Deploy/Wait.antt =====
-- The wait for a node port: when it ends, and how. Each round has three calls: a dial, a look at the
-- context, and a pause.
use mathlib.Core.Path.{subst}
use tark.Common.{
  ℕ, zero, suc, ◌+◌, ◌*◌, ◌<◌, String, none, some, ◌≡◌, refl, ap, ◌∙◌, arith, Error, List, ◌∷◌,
}
use tark.Worker.Deploy.{healthy, timed_out, wait_for_health}
use tark.System.Env.{Env}
use tark.System.Act.{World, Event, ◌>>=◌, ◌>>◌, pure, call, request, check, branch}

-- The world after a round without an answer.
abbrev pub after_round : String → World → World
after_round host_port w = record w {
  moment = suc (suc (suc w.moment));
  trace = Event.sleep 10 ∷ Event.dial host_port ∷ w.trace;
}

-- The record after n rounds without an answer, the latest call first.
abbrev pub rounds_of : String → ℕ → List Event → List Event
rounds_of host_port zero before = before
rounds_of host_port (suc n) before =
    rounds_of host_port n (Event.sleep 10 ∷ Event.dial host_port ∷ before)

-- The dial of a round gets no answer, and the context has not ended.
pub record Missed (e : Env) (host_port : String) (moment : ℕ) : Type 0 where
  pub error : Error
  pub refused : e.dial moment host_port ≡ some error
  pub running : e.cancelled (suc moment) ≡ none

module _ (e : Env) (host_port : String) where
  answered :
      (n : ℕ) (w : World)
      → e.dial w.moment host_port ≡ none
      → (wait_for_health (suc n) host_port e w).0 ≡ healthy
  unfolding wait_for_health check branch request ◌>>=◌ pure
  answered n w h = rw h refl

  missed :
      (n : ℕ) (w : World)
      → Missed e host_port w.moment
      → wait_for_health (suc n) host_port e w
        ≡ wait_for_health n host_port e (after_round host_port w)
  unfolding wait_for_health check branch request call ◌>>=◌ ◌>>◌ pure
  missed n w h = rw (h.refused, h.running) refl

  ends_zero : (w : World) → (wait_for_health zero host_port e w).0 ≡ timed_out
  unfolding wait_for_health pure
  ends_zero w = refl

  traces_zero :
      (w : World) → (wait_for_health zero host_port e w).1.trace ≡ rounds_of host_port 0 w.trace
  unfolding wait_for_health pure
  traces_zero w = refl

  Missed-at : (m m' : ℕ) → m ≡ m' → Missed e host_port m → Missed e host_port m'
  Missed-at m m' same x = subst (Missed e host_port) same x

  answer_at : (m m' : ℕ) → m ≡ m' → e.dial m host_port ≡ none → e.dial m' host_port ≡ none
  answer_at m m' same x = subst (λ k. e.dial k host_port ≡ none) same x

  -- The wait of up to n rounds ends healthy where the dial of some round answers, each round before it
  -- had a dial that failed, and the context had not ended in those rounds.
  pub wait_for_health-healthy :
      (n k : ℕ) (w : World)
      → k < n
      → ((j : ℕ) → j < k → Missed e host_port (w.moment + 3 * j))
      → e.dial (w.moment + 3 * k) host_port ≡ none
      → (wait_for_health n host_port e w).0 ≡ healthy
  wait_for_health-healthy zero k w bound before h = ground arith
  wait_for_health-healthy (suc n) zero w bound before h =
      answered n w (answer_at (w.moment + 3 * 0) w.moment (omega arith) h)
  wait_for_health-healthy (suc n) (suc k) w bound before h =
      let next : World = after_round host_port w in
      let first = before 0 (omega arith) in
      ap (λ r. r.0) (missed n w (Missed-at (w.moment + 3 * 0) w.moment (omega arith) first))
      ∙ wait_for_health-healthy n k next (omega (arith, bound))
          (λ j less.
            Missed-at (w.moment + 3 * suc j) (next.moment + 3 * j) (omega arith)
              (before (suc j) (omega (arith, less))))
          (answer_at (w.moment + 3 * suc k) (next.moment + 3 * k) (omega arith) h)

  -- The wait of up to n rounds ends timed out where every dial fails and the context does not end, and
  -- what it adds to the record is, n times, a dial of the address and then a pause of ten seconds.
  pub wait_for_health-timed_out :
      (n : ℕ) (w : World)
      → ((j : ℕ) → j < n → Missed e host_port (w.moment + 3 * j))
      → ((wait_for_health n host_port e w).0 ≡ timed_out)
        × ((wait_for_health n host_port e w).1.trace ≡ rounds_of host_port n w.trace)
  wait_for_health-timed_out zero w all = (ends_zero w, traces_zero w)
  wait_for_health-timed_out (suc n) w all =
      let next : World = after_round host_port w in
      let round =
        missed n w (Missed-at (w.moment + 3 * 0) w.moment (omega arith) (all 0 (omega arith))) in
      let (end, count) = wait_for_health-timed_out n next (λ j less.
        Missed-at (w.moment + 3 * suc j) (next.moment + 3 * j) (omega arith)
          (all (suc j) (omega (arith, less)))) in
      (ap (λ r. r.0) round ∙ end, ap (λ r. r.1.trace) round ∙ count)
