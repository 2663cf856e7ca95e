-- ===== src/Governance.antt =====
-- llm/decisions.py: what a review decision does to a thinker, a source or a candidate, and to the
-- job that waits for it.
pub mod Thinkers
pub mod Slug
pub mod Escalation
pub mod Sources
pub mod Critique
pub mod Candidates
pub mod Apply
pub mod Vetting
use think_tank.Prelude.{ℕ, String, Bool, Option, none, some, List, ◌++◌}
use think_tank.Json.{Value, Fields, lookup}
use think_tank.Queue.Job.{Job}
use think_tank.Discovery.Quota.{Candidate}

-- models/thinker.py; the two approved columns hold whatever JSON the modifications hold.
pub record Thinker : Type 0 where
  pub id : ℕ
  pub name : String
  pub slug : String
  pub tier : ℕ
  pub approval_status : String
  pub approved_backfill_days : Value
  pub approved_source_types : Value
  pub active : Bool
  pub added_at : ℕ

-- models/source.py
pub record Source : Type 0 where
  pub id : ℕ
  pub source_type : String
  pub name : String
  pub url : String
  pub approval_status : String
  pub approved_backfill_days : Value
  pub host_name : Option String
  pub active : Bool
  pub refresh_interval_hours : Option ℕ
  pub last_fetched : Option ℕ
  pub config : Fields
  pub backfill_complete : Bool
  pub latest_published_at : Option ℕ
  pub item_count : ℕ

pub record SourceThinker : Type 0 where
  pub source_id : ℕ
  pub thinker_id : ℕ
  pub relationship_type : String
  pub added_at : ℕ

-- The tables that decisions read and write. `critiques` are the areas of `roster_critiques`.
pub record Store : Type 0 where
  pub jobs : List Job
  pub thinkers : List Thinker
  pub sources : List Source
  pub source_thinkers : List SourceThinker
  pub candidates : List Candidate
  pub critiques : List String

-- The decisions on thinkers and sources (llm/schemas.py).
pub data Approval : Type 0 where
  approved rejected approved_with_modifications escalate_to_human : Approval

-- `result.decision in ("approved", "approved_with_modifications")`
unfoldable pub allows : Approval → Bool
allows approved = Bool.true
allows approved_with_modifications = Bool.true
allows _ = Bool.false

unfoldable pub add_jobs : List Job → Store → Store
add_jobs js s = record s { jobs = s.jobs ++ js }

-- `if modifications and key in modifications: column = modifications[key]`
unfoldable pub modified : Option Fields → String → Value → Value
unfolding lookup
modified none key old = old
modified (some mods) key old = elim (lookup mods key) [ none ↦ old | some v ↦ v ]
