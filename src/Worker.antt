-- ===== src/Worker.antt =====
-- worker/loop.py: one pass of the polling loop, and the processing of one claimed job. What the
-- handlers do is an input.
pub mod Process
pub mod Poll
pub mod Pool
