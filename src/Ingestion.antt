-- ===== src/Ingestion.antt =====
-- src/thinktank/ingestion/: the pure parts of the content pipeline.
pub mod Filter
pub mod Fingerprint
pub mod Chunker
