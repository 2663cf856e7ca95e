-- ===== src/Episodes.antt =====
-- The way of an episode into the corpus: handlers/scan_episodes_for_thinkers.py,
-- handlers/rescan_cataloged_for_thinker.py, handlers/fetch_podcast_feed.py and ingestion/.
pub mod Matcher
pub mod Scan
pub mod Feed
pub mod Rescan
use think_tank.Prelude.{ℕ, String, Bool, ◌&&◌, List, [], ◌∷◌, ◌++◌, any, ◌==◌, if◌then◌else◌}

-- The junction table `content_thinkers`; (content_id, thinker_id) is its key.
pub record ContentThinker : Type 0 where
  pub content_id : ℕ
  pub thinker_id : ℕ
  pub role : String
  pub confidence : ℕ
  pub added_at : ℕ

unfoldable pub is_link : ℕ → ℕ → ContentThinker → Bool
is_link content_id thinker_id l = l.content_id == content_id && l.thinker_id == thinker_id

-- `if await session.get(ContentThinker, key) is None: session.add(…)`
unfoldable pub add_link : ContentThinker → List ContentThinker → List ContentThinker
unfolding is_link
add_link l links = if any (is_link l.content_id l.thinker_id) links then links else links ++ l ∷ []
