-- ===== src/Episodes/Scan/Traces.antt =====
-- The loop of the scan: what each round keeps true of a content and of its links.
use think_tank.Prelude.{
  ℕ, ◌≤◌, ◌≡◌, refl, sym, subst, ◌∙◌, inl, inr, true, false, ◌&&◌, Option, none, some, List, [],
  ◌∷◌, ◌++◌, ◌==◌, str_eq, ==_iff, ==_self, any, any-append, tally, tally-append, Bool-cases,
  Option-cases, if◌then◌else◌, arith,
}
use think_tank.Content.{Content, find_content}
use think_tank.Governance.{Thinker}
use think_tank.Episodes.{ContentThinker, is_link}
use think_tank.Episodes.Matcher.{Match}
use think_tank.Episodes.Scan.{
  ScanPayload, Scan, get_or, episode_matches, is_relevant, promote, link_hosts, link_matches,
  scan_content, scan_contents,
}
use think_tank.Episodes.Scan.Rows.{
  pending, find_content-promote, find_content-id, has_link, link_hosts-keeps, link_matches-keeps,
  link_hosts-makes, link_matches-makes, link_hosts_unique, link_matches_unique,
}

-- A content that is not promoted is as it was; a promoted one was cataloged and is pending.
abbrev pub Outcome : Option Content → Option Content → Option Content → Type 0
Outcome none before after = after ≡ before
Outcome (some c) before after =
    (before ≡ some c) × (str_eq c.status "cataloged" ≡ true) × (after ≡ pending (some c))

-- What holds of content `i` and of the links to it at any time of the loop.
pub record Traced (before : List Content) (i : ℕ) (s : Scan) : Type 0 where
  pub outcome :
      Outcome (find_content i s.promoted) (find_content i before) (find_content i s.contents)
  pub once : tally (λ c. c.id == i) s.promoted ≤ 1
  pub linked : any (λ c. c.id == i) s.promoted ≡ true → has_link i s.links ≡ true

find_content-append :
    (i : ℕ) (cs : List Content) (c : Content)
    → find_content i cs ≡ none
    → find_content i (cs ++ c ∷ []) ≡ (if c.id == i then some c else none)
unfolding find_content
find_content-append i [] c h = refl
find_content-append i (d ∷ cs) c h = ground (arith, h, find_content-append i cs c)

find_content-kept :
    (i : ℕ) (cs : List Content) (c p : Content)
    → find_content i cs ≡ some p
    → find_content i (cs ++ c ∷ []) ≡ some p
unfolding find_content
find_content-kept i [] c p h = cc
find_content-kept i (d ∷ cs) c p h = ground (arith, h, find_content-kept i cs c p)

find_content-tally :
    (i : ℕ) (cs : List Content) → find_content i cs ≡ none → tally (λ c. c.id == i) cs ≡ 0
unfolding find_content
find_content-tally i [] h = refl
find_content-tally i (d ∷ cs) h = ground (arith, h, find_content-tally i cs)

find_content-skip :
    (i : ℕ) (cs : List Content) (c : Content)
    → (c.id == i) ≡ false
    → find_content i (cs ++ c ∷ []) ≡ find_content i cs
unfolding find_content
find_content-skip i [] c h = ground (arith, h)
find_content-skip i (d ∷ cs) c h = ground (arith, h, find_content-skip i cs c h)

links_make :
    (now j : ℕ) (hosts : List ℕ) (matches : List Match) (ls : List ContentThinker)
    → is_relevant hosts matches ≡ true
    → has_link j (link_matches now j matches (link_hosts now j hosts ls)) ≡ true
unfolding is_relevant
links_make now j (x ∷ hs) ms ls h = link_matches-keeps now j j ms _ (link_hosts-makes now j x hs ls)
links_make now j [] (m ∷ ms) ls h = link_matches-makes now j m ms _
links_make now j [] [] ls h = cc

-- The row is cataloged.
abbrev Cataloged : Option Content → Type 0
Cataloged none = Unit
Cataloged (some c) = str_eq c.status "cataloged" ≡ true

module _ (now : ℕ) (hosts : List ℕ) (matches : List Match) where
  -- The state after a promotion.
  abbrev promoting : ℕ → Content → Scan → Scan
  promoting j c s = record {
    contents = promote j s.contents;
    links = link_matches now j matches (link_hosts now j hosts s.links);
    promoted = s.promoted ++ c ∷ [];
  }

  links_keep :
      (i j : ℕ) (ls : List ContentThinker)
      → has_link i ls ≡ true
      → has_link i (link_matches now j matches (link_hosts now j hosts ls)) ≡ true
  links_keep i j ls h = link_matches-keeps now j i matches _ (link_hosts-keeps now j i hosts ls h)

  module _ (before : List Content) (i : ℕ) (c : Content) (s : Scan) where
    promoting_other :
        (j : ℕ)
        → c.id ≡ j
        → (j == i) ≡ false
        → Traced before i s
        → Traced before i (promoting j c s)
    promoting_other j same ne t =
        let apart : (c.id == i) ≡ false = subst (λ k. (k == i) ≡ false) (sym same) ne in
        record {
          outcome =
              rw (find_content-skip i s.promoted c apart)
                (rw (find_content-promote j i s.contents) (rw ne t.outcome));
          once = ground (arith, t.once, tally-append (λ c. c.id == i) s.promoted (c ∷ []), apart);
          linked = λ h. links_keep i j s.links (
              t.linked (ground (arith, h, any-append (λ c. c.id == i) s.promoted (c ∷ []), apart)));
        }

    not_yet :
        find_content i s.contents ≡ some c
        → str_eq c.status "cataloged" ≡ true
        → Traced before i s
        → find_content i s.promoted ≡ none
    not_yet h cat t = elim (Option-cases (find_content i s.promoted)) [
      | inl e ↦ e
      | inr (p, e) ↦
          let o =
            subst (λ k. Outcome k (find_content i before) (find_content i s.contents)) e
              t.outcome in
          let wrong : false ≡ true = subst Cataloged o.2 (subst Cataloged (sym h) cat) in cc
    ]

    promoting_same :
        find_content i s.contents ≡ some c
        → str_eq c.status "cataloged" ≡ true
        → is_relevant hosts matches ≡ true
        → Traced before i s
        → Traced before i (promoting i c s)
    promoting_same h cat rel t =
        let e = not_yet h cat t in
        let same = find_content-id i s.contents c h in
        let o =
          subst (λ k. Outcome k (find_content i before) (find_content i s.contents)) e t.outcome in
        record {
          outcome = rw (find_content-append i s.promoted c e) (
              rw (find_content-promote i i s.contents)
                (rw (==_self i) (rw ((==_iff c.id i).1 same) (sym o ∙ h, cat, rw h refl))));
          once = ground (
            arith,
            tally-append (λ c. c.id == i) s.promoted (c ∷ []),
            find_content-tally i s.promoted e,
          );
          linked = λ k. links_make now i hosts matches s.links rel;
        }

    promoting-Traced :
        (j : ℕ)
        → find_content j s.contents ≡ some c
        → str_eq c.status "cataloged" ≡ true
        → is_relevant hosts matches ≡ true
        → Traced before i s
        → Traced before i (promoting j c s)
    promoting-Traced j h cat rel t = elim (Bool-cases (j == i)) [
      | inl q ↦
          let e = (==_iff j i).0 q in
          subst (λ k. Traced before i (promoting k c s)) (sym e)
            (promoting_same (subst (λ k. find_content k s.contents ≡ some c) e h) cat rel t)
      | inr q ↦ promoting_other j (find_content-id j s.contents c h) q t
    ]

module _ (now : ℕ) (hosts : List ℕ) (thinkers : List Thinker) (payload : ScanPayload) where
  matches_of : ℕ → Content → List Match
  unfolding get_or
  matches_of i c =
      episode_matches hosts thinkers (get_or payload.descriptions i "")
        (get_or payload.content_persons i []) c

  scan_content-Traced :
      (before : List Content) (i j : ℕ) (s : Scan)
      → Traced before i s
      → Traced before i (scan_content now hosts thinkers payload j s)
  unfolding scan_content matches_of
  scan_content-Traced before i j s t = elim (Option-cases (find_content j s.contents)) [
    | inl e ↦ rw (e, scan_content) t
    | inr (c, e) ↦
        let found = str_eq c.status "cataloged" && is_relevant hosts (matches_of j c) in
        elim (Bool-cases found) [
          | inl b ↦
              rw (e, scan_content)
                (rw b (
                  promoting-Traced now hosts (matches_of j c) before i c s j e (ground (arith, b))
                    (ground (arith, b)) t))
          | inr b ↦ rw (e, scan_content) (rw b t)
        ]
  ]

  pub scan_contents-Traced :
      (before : List Content) (i : ℕ) (is : List ℕ) (s : Scan)
      → Traced before i s
      → Traced before i (scan_contents now hosts thinkers payload is s)
  unfolding scan_contents
  scan_contents-Traced before i [] s t = t
  scan_contents-Traced before i (j ∷ is) s t =
      scan_contents-Traced before i is _ (scan_content-Traced before i j s t)

  scan_content_unique :
      (i t j : ℕ) (s : Scan)
      → tally (is_link i t) s.links ≤ 1
      → tally (is_link i t) (scan_content now hosts thinkers payload j s).links ≤ 1
  unfolding scan_content matches_of
  scan_content_unique i t j s h = elim (Option-cases (find_content j s.contents)) [
    | inl e ↦ rw (e, scan_content) h
    | inr (c, e) ↦
        elim (Bool-cases (str_eq c.status "cataloged" && is_relevant hosts (matches_of j c))) [
          | inl b ↦
              rw (e, scan_content)
                (rw b (
                  link_matches_unique now j i t (matches_of j c) _
                    (link_hosts_unique now j i t hosts s.links h)))
          | inr b ↦ rw (e, scan_content) (rw b h)
        ]
  ]

  pub scan_contents_unique :
      (i t : ℕ) (is : List ℕ) (s : Scan)
      → tally (is_link i t) s.links ≤ 1
      → tally (is_link i t) (scan_contents now hosts thinkers payload is s).links ≤ 1
  unfolding scan_contents
  scan_contents_unique i t [] s h = h
  scan_contents_unique i t (j ∷ is) s h =
      scan_contents_unique i t is _ (scan_content_unique i t j s h)
