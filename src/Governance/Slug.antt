-- ===== src/Governance/Slug.antt =====
-- llm/decisions.py: _slugify and _unique_thinker_slug, on texts as code points.
pub mod Free
use mathlib.Core.List.{reverse}
use think_tank.Prelude.{
  ℕ, zero, suc, ◌+◌, String, Bool, true, false, not, ◌&&◌, ◌||◌, Option, none, some, List, [], ◌∷◌,
  ◌++◌, map, length, any, codes, decimal, lower, strip, same, leb, ◌==◌, if◌then◌else◌,
}
use think_tank.Governance.{Thinker}

-- `[a-z0-9]`
unfoldable pub is_slug_char : ℕ → Bool
is_slug_char c = (leb b'a' c && leb c b'z') || (leb b'0' c && leb c b'9')

-- `re.sub(r"[^a-z0-9]+", "-", s)`: the flag says that the run has its hyphen already.
unfoldable pub hyphenate : Bool → List ℕ → List ℕ
unfolding is_slug_char
hyphenate in_run [] = []
hyphenate in_run (c ∷ s) =
    let rest = hyphenate (not (is_slug_char c)) s in
    if is_slug_char c then c ∷ rest else if in_run then rest else b'-' ∷ rest

unfoldable pub lstrip_hyphens : List ℕ → List ℕ
lstrip_hyphens [] = []
lstrip_hyphens (c ∷ s) = let rest = lstrip_hyphens s in if c == b'-' then rest else c ∷ s

unfoldable pub slugify : String → List ℕ
unfolding hyphenate lstrip_hyphens strip lower
slugify name =
    let slug = hyphenate false (strip (map lower (codes name))) in
    reverse (lstrip_hyphens (reverse (lstrip_hyphens slug)))

-- `f"{base}-{suffix}"`
unfoldable pub numbered : List ℕ → ℕ → List ℕ
unfolding decimal
numbered base suffix = base ++ (b'-' ∷ decimal suffix)

unfoldable pub has_slug : List ℕ → Thinker → Bool
unfolding same
has_slug slug t = same slug (codes t.slug)

-- The rounds of `while True`; `none` is no answer on this fuel.
unfoldable pub free_slug : ℕ → List Thinker → List ℕ → List ℕ → ℕ → Option (List ℕ)
unfolding numbered has_slug
free_slug zero thinkers base candidate suffix = none
free_slug (suc fuel) thinkers base candidate suffix =
    let rest = free_slug fuel thinkers base (numbered base suffix) (suffix + 1) in
    if any (has_slug candidate) thinkers then rest else some candidate

unfoldable pub unique_thinker_slug : List Thinker → String → Option (List ℕ)
unfolding free_slug slugify
unique_thinker_slug thinkers name =
    free_slug (2 + length thinkers) thinkers (slugify name) (slugify name) 2
