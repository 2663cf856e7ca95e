-- ===== src/Lib.antt =====
-- ThinkTank: an ingestion platform that discovers experts and their sources, queues every unit of
-- work as a row of the table `jobs`, and processes the rows with a fleet of workers over one
-- PostgreSQL database. This library models the Python package src/thinktank of the repository.
--
-- Parts, and the files that model them:
--
--   Json           JSONB values as Python sees them: int(v), bool(v), d.get(k, default)
--   Config         src/thinktank/models/config_table.py and the readers of one setting
--                  (ingestion/config_reader.py, and the getters that queue/ repeats)
--   Queue          src/thinktank/queue/
--     Job, Rows    models/job.py; rows under an UPDATE by primary key
--     Retry        retry.py: attempts per job type, exponential backoff
--     Errors       errors.py: categorize_error
--     Claim        claim.py: claim_job, complete_job, fail_job
--       Order      the ORDER BY of the claim
--       Ownership  claims, and sequences of claims by any workers
--       Failure    failures, and when a failed job may be claimed again
--     Reclaim      reclaim.py: reclaim_stale_jobs
--     Lifecycle    any sequence of inserts, claims, completions, failures and reclamations
--     Backpressure backpressure.py    RateLimiter rate_limiter.py    KillSwitch kill_switch.py
--   Worker         src/thinktank/worker/loop.py
--     Poll         one pass of the main loop: kill switch, claim, backpressure, dispatch
--     Process      _process_job: handler, categorize_error, fail_job or complete_job
--     Pool         the semaphore and the running tasks
--   Discovery      src/thinktank/discovery/
--     Rubric       rubric.py: score_dossier, load_thresholds, gate_decision
--     Quota        quota.py: check_daily_quota
--     Scan         handlers/scan_for_candidates.py: the batch, Growth of the table, the DailyLimit
--   Schedule       the recurring tasks: queue/scheduled_tasks.py
--     Recurring    worker/recurring.py: run_due_scheduled_tasks; its Rounds over one task, whole Ticks,
--                  and what a tick Promises
--     Editor       admin/routers/pipeline.py: the scheduler editor; Readback of what it saves, the
--                  Switch that turns a task off, and a Disabled task through the ticks
--   Pipeline       admin/routers/pipeline.py: the list of jobs and its Pages, with the Ties of its
--                  order, and the actions trigger, retry and Cancel
--   Episodes       the way of an episode into the corpus
--     Feed         handlers/fetch_podcast_feed.py from the parsed feed on; Rounds of its loop, Distinct
--                  rows, a whole Fetch, and a Refetch
--     Matcher      ingestion/name_matcher.py, with a Reference
--     Scan         handlers/scan_episodes_for_thinkers.py; the Rows that it changes, the Traces of
--                  its loop, the Promotion of episodes, and a Rerun
--     Rescan       handlers/rescan_cataloged_for_thinker.py, with a Reference
--   Transcription  transcription/policy.py; Sweep: handlers/enqueue_pending_transcriptions.py, with
--                  its Budget
--   Governance     src/thinktank/llm/decisions.py
--     Thinkers, Sources, Candidates   the decision on each kind of row; Promotion of a candidate
--     Slug         _slugify and _unique_thinker_slug: it ends with a Free slug
--     Escalation   llm/escalation.py: escalate_timed_out_reviews, Once for each job
--     Critique     _maybe_enqueue_roster_critique of handlers/vet_candidate.py
--     Vetting      handle_vet_candidate: the Routes of a candidate
--     Apply        apply_decision: the Jobs that it adds, and its Permission to add them
--   Refresh        handlers/refresh_due_sources.py: a Single fetch job for each source
--   Scaling        scaling/railway.py: manage_gpu_scaling; IdleTime: the checks of one scheduler
--                  (_gpu_scaling_scheduler of worker/loop.py)
--   HttpUtils      http_utils.py: _parse_retry_after and its Ceiling
--   Content        models/content.py
--   Ingestion      src/thinktank/ingestion/
--     Chunker      chunker.py: chunk_transcript, its Lines, their Spans and its Segments
--     Filter       content_filter.py and get_source_filter_config
--     Fingerprint  fingerprint.py
--   Tests          runs at concrete inputs, and each theorem at one
--
-- State and steps. The database is explicit: an operation takes the tables that it reads and returns
-- the tables that it writes. A transaction is one function, and workers that interleave are a sequence
-- of such steps, in any order. Rows that other transactions hold locked, the time, and the failures of
-- a session are arguments. An exception inside a function is a value of Result (Json) or Exc (Errors).
--
-- How the parts meet. The worker claims a row, runs a handler as a function on the table of jobs, and
-- ends the row by complete_job or fail_job. The handlers (scans, sweeps, decisions) add rows by new_job;
-- backpressure and the sweep read the same queue depth and the same threshold; the scan and the review
-- decisions share the table of candidates. A fetch of a feed hands its new contents to a scan, which
-- promotes them and adds the jobs that transcribe them; the sweep covers what is left. The scheduler
-- editor and the executor share the rows `scheduler_<key>` of system_config.
--
-- Conventions. Times are microseconds since the epoch (UTC) and ids stand for UUIDs; in a payload
-- the number of an id stands for its text, and `uuid4 n` is the id drawn n-th. Texts that are only
-- compared are native strings, and texts that are walked are lists of code points; lower-casing and
-- integer parsing are those of ASCII. A promotion takes the slug of Slug as a text. Floats: the thresholds 0.8 are written as exact fractions,
-- and the idle backoff is cut to whole microseconds. The editor and the executor write times as
-- texts by a Clock, which reads its own texts back; a time after the year 9999 is an OverflowError
-- there, and an age limit of the transcriptions that leads to a time before the year 1 is one too; the
-- times before the epoch count as the epoch. Elsewhere the range of a date is not modelled. The ORDER BY
-- of a page of the job list is an argument for each query, since rows of one time may come in any order. Loops are recursions on lists; only
-- `decimal` and `free_slug` run on fuel: the number itself and one more, which its digits never use up,
-- and two more rounds than there are thinkers, which the search for a slug never uses up.
--
-- Not modelled: asyncio scheduling below the level of steps, SQL itself, the external services, the
-- LLM (a decision is an input), the name extractor and the trigram searches (inputs of the scan),
-- normalize_url (an argument of the feed), feedparser and the
-- requests to other servers, web routes other than those of the pipeline page, templates, and the timer loops that
-- call the schedulers.
pub mod Prelude
pub mod Json
pub mod Config
pub mod Queue
pub mod Content
pub mod Schedule
pub mod Pipeline
pub mod Transcription
pub mod Episodes
pub mod Worker
pub mod Discovery
pub mod Governance
pub mod Refresh
pub mod Scaling
pub mod HttpUtils
pub mod Ingestion
pub mod Tests
