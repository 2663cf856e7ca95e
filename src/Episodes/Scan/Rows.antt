-- ===== src/Episodes/Scan/Rows.antt =====
-- How the steps of the scan change the rows: the contents by id and the links by key.
use think_tank.Prelude.{
  ℕ, ◌≤◌, ◌≡◌, subst, inl, inr, Bool, true, Option, none, some, List, [], ◌∷◌, ◌==◌, ==_iff,
  ==_self, any, any-append, tally, tally-none, tally-append, Bool-cases, if◌then◌else◌, arith,
}
use think_tank.Content.{Content, find_content}
use think_tank.Episodes.{ContentThinker, is_link, add_link}
use think_tank.Episodes.Matcher.{Match}
use think_tank.Episodes.Scan.{promote, link_hosts, link_matches}

abbrev pub pending : Option Content → Option Content
pending none = none
pending (some c) = some (record c { status = "pending" })

pub find_content-promote :
    (i j : ℕ) (cs : List Content)
    → find_content j (promote i cs)
      ≡ (if i == j then pending (find_content j cs) else find_content j cs)
unfolding find_content promote
find_content-promote i j [] = ground arith
find_content-promote i j (c ∷ cs) = let ih = find_content-promote i j cs in ground (arith, ih)

pub find_content-id :
    (i : ℕ) (cs : List Content) (c : Content) → find_content i cs ≡ some c → c.id ≡ i
unfolding find_content
find_content-id i [] c h = cc
find_content-id i (d ∷ cs) c h = elim (Bool-cases (d.id == i)) [
  | inl e ↦
      let same : d ≡ c = ground (arith, e, h) in subst (λ x. x.id ≡ i) same ((==_iff d.id i).0 e)
  | inr e ↦ find_content-id i cs c (ground (arith, e, h))
]

pub add_link_unique :
    (i t : ℕ) (l : ContentThinker) (ls : List ContentThinker)
    → tally (is_link i t) ls ≤ 1
    → tally (is_link i t) (add_link l ls) ≤ 1
unfolding add_link is_link
add_link_unique i t l ls h = ground (
  arith,
  tally-append (is_link i t) ls (l ∷ []),
  tally-none (is_link i t) ls,
  ==_iff l.content_id i,
  ==_iff l.thinker_id t,
)

abbrev pub has_link : ℕ → List ContentThinker → Bool
has_link i ls = any (λ l. l.content_id == i) ls

add_link-keeps :
    (i : ℕ) (l : ContentThinker) (ls : List ContentThinker)
    → has_link i ls ≡ true
    → has_link i (add_link l ls) ≡ true
unfolding add_link
add_link-keeps i l ls h = ground (arith, h, any-append (λ k. k.content_id == i) ls (l ∷ []))

-- A key of a content is a link of the content.
is_link-has_link :
    (i t : ℕ) (ls : List ContentThinker) → any (is_link i t) ls ≡ true → has_link i ls ≡ true
unfolding is_link
is_link-has_link i t [] h = cc
is_link-has_link i t (l ∷ ls) h = ground (arith, is_link-has_link i t ls)

add_link-makes :
    (l : ContentThinker) (ls : List ContentThinker) → has_link l.content_id (add_link l ls) ≡ true
unfolding add_link
add_link-makes l ls = ground (
  arith,
  is_link-has_link l.content_id l.thinker_id ls,
  ==_self l.content_id,
  any-append (λ k. k.content_id == l.content_id) ls (l ∷ []),
)

module _ (now i : ℕ) where
  pub link_hosts-keeps :
      (j : ℕ) (hs : List ℕ) (ls : List ContentThinker)
      → has_link j ls ≡ true
      → has_link j (link_hosts now i hs ls) ≡ true
  unfolding link_hosts
  link_hosts-keeps j [] ls h = h
  link_hosts-keeps j (x ∷ hs) ls h = link_hosts-keeps j hs _ (add_link-keeps j _ ls h)

  pub link_matches-keeps :
      (j : ℕ) (ms : List Match) (ls : List ContentThinker)
      → has_link j ls ≡ true
      → has_link j (link_matches now i ms ls) ≡ true
  unfolding link_matches
  link_matches-keeps j [] ls h = h
  link_matches-keeps j (m ∷ ms) ls h = link_matches-keeps j ms _ (add_link-keeps j _ ls h)

  pub link_hosts-makes :
      (h : ℕ) (hs : List ℕ) (ls : List ContentThinker)
      → has_link i (link_hosts now i (h ∷ hs) ls) ≡ true
  unfolding link_hosts
  link_hosts-makes h hs ls = link_hosts-keeps i hs _ (add_link-makes _ ls)

  pub link_matches-makes :
      (m : Match) (ms : List Match) (ls : List ContentThinker)
      → has_link i (link_matches now i (m ∷ ms) ls) ≡ true
  unfolding link_matches
  link_matches-makes m ms ls = link_matches-keeps i ms _ (add_link-makes _ ls)

  pub link_hosts_unique :
      (j t : ℕ) (hs : List ℕ) (ls : List ContentThinker)
      → tally (is_link j t) ls ≤ 1
      → tally (is_link j t) (link_hosts now i hs ls) ≤ 1
  unfolding link_hosts
  link_hosts_unique j t [] ls h = h
  link_hosts_unique j t (x ∷ hs) ls h = link_hosts_unique j t hs _ (add_link_unique j t _ ls h)

  pub link_matches_unique :
      (j t : ℕ) (ms : List Match) (ls : List ContentThinker)
      → tally (is_link j t) ls ≤ 1
      → tally (is_link j t) (link_matches now i ms ls) ≤ 1
  unfolding link_matches
  link_matches_unique j t [] ls h = h
  link_matches_unique j t (m ∷ ms) ls h = link_matches_unique j t ms _ (add_link_unique j t _ ls h)
