-- ===== src/Governance/Critique.antt =====
-- `_maybe_enqueue_roster_critique` of handlers/vet_candidate.py: the critic of an area starts once,
-- when no candidate of the area is in the pipeline.
pub mod Once
use think_tank.Prelude.{
  ℕ, String, Bool, true, false, not, ◌&&◌, ◌||◌, Option, none, some, List, [], ◌∷◌, any, str_eq,
  if◌then◌else◌,
}
use think_tank.Json.{Value, null, Fields, str, obj, entry, empty, get}
use think_tank.Queue.Job.{Job, is_queued, is_running, new_job}
use think_tank.Queue.Retry.{get_max_attempts}
use think_tank.Discovery.Quota.{Candidate}
use think_tank.Governance.{Store, add_jobs}

unfoldable pub is_area : String → Option String → Bool
is_area area none = false
is_area area (some a) = str_eq a area

unfoldable pub in_flight : String → Candidate → Bool
unfolding is_area
in_flight area c =
    is_area area c.search_area && (str_eq c.status "vetting" || str_eq c.status "awaiting_llm")

-- `payload["area"].astext == area`
unfoldable pub payload_area_is : String → Value → Bool
unfolding get
payload_area_is area (obj fs) = elim (get fs "area" null) [ str a ↦ str_eq a area | _ ↦ false ]
payload_area_is area _ = false

unfoldable pub is_open_critique : String → Job → Bool
unfolding payload_area_is is_queued is_running
is_open_critique area j =
    str_eq j.job_type "critique_roster"
    && (is_queued j.status || is_running j.status)
    && payload_area_is area j.payload

unfoldable pub critique_job : ℕ → ℕ → String → Job
unfolding new_job
critique_job now i area =
    let fields =
      entry "area" (str area) (entry "triggered_by" (str "vetting_fanout_complete") empty) in
    record (new_job now i "critique_roster" (obj fields) 5) {
      max_attempts = get_max_attempts "critique_roster";
    }

-- The guards after `if not area`.
unfoldable pub may_critique : String → Store → Bool
unfolding in_flight is_open_critique
may_critique area s =
    not (str_eq area "")
    && not (any (in_flight area) s.candidates)
    && not (any (λ a. str_eq a area) s.critiques)
    && not (any (is_open_critique area) s.jobs)

unfoldable pub maybe_enqueue_roster_critique : ℕ → ℕ → Option String → Store → Store
unfolding may_critique critique_job add_jobs
maybe_enqueue_roster_critique now i none s = s
maybe_enqueue_roster_critique now i (some area) s =
    if may_critique area s then add_jobs (critique_job now i area ∷ []) s else s
