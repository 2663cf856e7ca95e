-- ===== src/Content.antt =====
-- models/content.py: the columns of `content` that the modelled handlers read.
use think_tank.Prelude.{ℕ, ℤ, String, Option, none, some, List, [], ◌∷◌, ◌==◌, if◌then◌else◌}

-- Times are microseconds since the epoch, in UTC.
pub record Content : Type 0 where
  pub id : ℕ
  pub url : String
  pub canonical_url : String
  pub content_fingerprint : Option String
  pub source_guid : Option String
  pub title : String
  pub description : Option String
  pub body_text : Option String
  pub published_at : Option ℕ
  pub duration_seconds : Option ℤ
  pub status : String
  pub discovered_at : ℕ

-- `session.get(Content, id)`
unfoldable pub find_content : ℕ → List Content → Option Content
find_content i [] = none
find_content i (c ∷ cs) = if c.id == i then some c else find_content i cs
