-- ===== src/Tests.antt =====
-- Tests of the definitions at concrete inputs, and each theorem at an input that meets its hypotheses.
mod Rows
mod Queue
mod Worker
mod Discovery
mod Ingestion
mod Transcription
mod Scan
mod Governance
mod Refresh
mod Scaling
mod HttpUtils
mod Schedule
mod Episodes
mod Pipeline
