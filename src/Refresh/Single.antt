-- ===== src/Refresh/Single.antt =====
-- One fetch job in flight for each source.
use think_tank.Prelude.{
  ℕ, ◌+◌, ◌≤◌, ◌≡◌, refl, sym, subst, ==_iff, String, true, false, ◌&&◌, some, List, [], ◌∷◌, ◌++◌,
  ◌==◌, str_eq, eq_iff, ==_self, select, tally-append, All, inl, inr, Bool-cases, if◌then◌else◌,
  arith,
}
use mathlib.Core.List.{append-nil, append_assoc}
use think_tank.Json.{get}
use think_tank.Queue.Job.{Job, is_queued, is_running, new_job, payload_is}
use think_tank.Governance.{Source}
use think_tank.Refresh.{
  is_due, fetch_job_type, fetches, in_flight, fetch_job, refresh_source, refresh_each,
  handle_refresh_due_sources,
}

-- No source has two fetch jobs of one type in flight.
pub record Single (jobs : List Job) : Type 0 where
  pub at_most : (job_type : String) (i : ℕ) → in_flight job_type i jobs ≤ 1

fetch_job-fetches :
    (now n : ℕ) (s : Source) (job_type : String) (i : ℕ)
    → fetches job_type i (fetch_job now n s) ≡ (str_eq (fetch_job_type s) job_type && s.id == i)
unfolding fetches fetch_job new_job payload_is is_queued is_running get
fetch_job-fetches now n s job_type i = ground arith

in_flight-append :
    (job_type : String) (i : ℕ) (xs ys : List Job)
    → in_flight job_type i (xs ++ ys) ≡ in_flight job_type i xs + in_flight job_type i ys
unfolding in_flight
in_flight-append job_type i xs ys = tally-append (fetches job_type i) xs ys

-- The jobs after one source: some are added, and it has one now.
record Served (s : Source) (jobs after : List Job) : Type 0 where
  new : List Job
  table : after ≡ jobs ++ new
  single : Single after
  has_one : in_flight (fetch_job_type s) s.id after ≡ 1

in_flight-fetch_job :
    (now n : ℕ) (s : Source) (job_type : String) (i : ℕ)
    → in_flight job_type i (fetch_job now n s ∷ [])
      ≡ (if str_eq (fetch_job_type s) job_type && s.id == i then 1 else 0)
unfolding in_flight
in_flight-fetch_job now n s job_type i = ground (arith, fetch_job-fetches now n s job_type i)

-- A source without a job gets the only one.
added-Served :
    (now n : ℕ) (s : Source) (jobs : List Job)
    → Single jobs
    → in_flight (fetch_job_type s) s.id jobs ≡ 0
    → Served s jobs (jobs ++ fetch_job now n s ∷ [])
added-Served now n s jobs h idle =
    let t = fetch_job_type s in
    let new = fetch_job now n s ∷ [] in
    record {
      new = new;
      table = refl;
      single = record {
        at_most = λ job_type i. elim (Bool-cases (str_eq t job_type && s.id == i)) [
          | inl k ↦
              let same_type = (eq_iff t job_type).0 (ground (arith, k)) in
              let same_id = (==_iff s.id i).0 (ground (arith, k)) in
              let none_yet =
                subst (λ u. in_flight u i jobs ≡ 0) same_type
                  (subst (λ j. in_flight t j jobs ≡ 0) same_id idle) in
              ground (
                arith,
                in_flight-append job_type i jobs new,
                in_flight-fetch_job now n s job_type i,
                none_yet,
              )
          | inr k ↦ ground (
            arith,
            in_flight-append job_type i jobs new,
            in_flight-fetch_job now n s job_type i,
            k,
            h.at_most job_type i,
          )
        ];
      };
      has_one = ground (
        arith,
        in_flight-append t s.id jobs new,
        in_flight-fetch_job now n s t s.id,
        idle,
        (eq_iff t t).1 refl,
        ==_self s.id,
      );
    }

refresh_source-Served :
    (now n : ℕ) (s : Source) (jobs : List Job)
    → Single jobs
    → (after : List Job) × (refresh_source now n s jobs ≡ some after) × Served s jobs after
unfolding refresh_source
refresh_source-Served now n s jobs h =
    let t = fetch_job_type s in
    elim (Bool-cases (in_flight t s.id jobs == 0)) [
      | inl e ↦ (
        jobs ++ fetch_job now n s ∷ [],
        rw e refl,
        added-Served now n s jobs h ((==_iff _ 0).0 e),
      )
      | inr e ↦ (
        jobs,
        rw (e, one e) refl,
        record {
          new = [];
          table = sym (append-nil jobs);
          single = h;
          has_one = ground (arith, one e);
        },
      )
    ]
  where
    one :
        (in_flight (fetch_job_type s) s.id jobs == 0) ≡ false
        → (in_flight (fetch_job_type s) s.id jobs == 1) ≡ true
    one e = ground (arith, e, h.at_most (fetch_job_type s) s.id)

-- What the loop leaves: jobs are only added, none is doubled, and each source has its own.
pub record Refreshed (due : List Source) (jobs after : List Job) : Type 0 where
  pub new : List Job
  pub table : after ≡ jobs ++ new
  pub single : Single after
  pub has_one : All (λ s. in_flight (fetch_job_type s) s.id after ≡ 1) due

still_one :
    (s : Source) (jobs new : List Job)
    → in_flight (fetch_job_type s) s.id jobs ≡ 1
    → Single (jobs ++ new)
    → in_flight (fetch_job_type s) s.id (jobs ++ new) ≡ 1
still_one s jobs new one single = omega (
  arith,
  one,
  in_flight-append (fetch_job_type s) s.id jobs new,
  single.at_most (fetch_job_type s) s.id,
)

refresh_each-Refreshed :
    (now : ℕ) (uuid4 : ℕ → ℕ) (n : ℕ) (due : List Source) (jobs : List Job)
    → Single jobs
    → (after : List Job) × (refresh_each now uuid4 n due jobs ≡ some after)
      × Refreshed due jobs after
unfolding refresh_each
refresh_each-Refreshed now uuid4 n [] jobs h =
    (jobs, refl, record { new = []; table = sym (append-nil jobs); single = h; has_one = tt })
refresh_each-Refreshed now uuid4 n (s ∷ ss) jobs h =
    let (mid, e, served) = refresh_source-Served now (uuid4 n) s jobs h in
    let (after, f, rest) = refresh_each-Refreshed now uuid4 (n + 1) ss mid served.single in
    (
      after,
      rw (e, refresh_each) f,
      record {
        new = served.new ++ rest.new;
        table = rw (rest.table, served.table) (append_assoc jobs served.new rest.new);
        single = rest.single;
        has_one = (
          rw rest.table
              (still_one s mid rest.new served.has_one (subst Single rest.table rest.single)),
          rest.has_one,
        );
      },
    )

-- As long as no source has two fetch jobs of one type in flight, a refresh succeeds; it only adds
-- jobs; afterwards every source that is due has exactly one fetch job in flight, and still no source
-- has two of one type.
pub handle_refresh_due_sources-Refreshed :
    (now : ℕ) (uuid4 : ℕ → ℕ) (sources : List Source) (jobs : List Job)
    → Single jobs
    → (after : List Job) × (handle_refresh_due_sources now uuid4 sources jobs ≡ some after)
      × Refreshed (select (is_due now) sources) jobs after
unfolding handle_refresh_due_sources
handle_refresh_due_sources-Refreshed now uuid4 sources jobs h =
    refresh_each-Refreshed now uuid4 0 (select (is_due now) sources) jobs h
