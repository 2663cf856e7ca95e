-- ===== src/Governance/Critique/Once.antt =====
-- When the critic of an area starts.
use think_tank.Prelude.{
  ℕ, ◌+◌, ◌≤◌, ◌≡◌, refl, subst, eq_iff, any-append, inl, inr, String, Bool, true, false, some,
  List, [], ◌∷◌, ◌++◌, any, tally, tally-append, str_eq, Bool-cases, if◌then◌else◌, arith,
}
use think_tank.Json.{get}
use think_tank.Queue.Job.{is_queued, new_job}
use think_tank.Governance.{Store, add_jobs}
use think_tank.Governance.Critique.{
  in_flight, is_open_critique, payload_area_is, critique_job, may_critique,
  maybe_enqueue_roster_critique,
}

-- The critiques of an area, and its jobs that are still to run.
abbrev pub critiques_of : String → Store → ℕ
critiques_of area s = tally (is_open_critique area) s.jobs + tally (λ a. str_eq a area) s.critiques

any_none-tally : {A : Type 0} (p : A → Bool) (xs : List A) → any p xs ≡ false → tally p xs ≡ 0
any_none-tally p [] h = refl
any_none-tally p (x ∷ xs) h = elim (Bool-cases (p x)) [
  | inl e ↦ ground (arith, e, h)
  | inr e ↦ ground (arith, e, h, any_none-tally p xs)
]

-- The store after the trigger for `area` fires, or does not.
pub record Triggered (now i : ℕ) (area : String) (s t : Store) : Type 0 where
  pub jobs :
      t.jobs ≡ (if may_critique area s then s.jobs ++ critique_job now i area ∷ [] else s.jobs)
  pub settled : may_critique area s ≡ true → any (in_flight area) s.candidates ≡ false
  pub once : (b : String) → critiques_of b s ≤ 1 → critiques_of b t ≤ 1
  pub again : may_critique area t ≡ false

critique_job-open :
    (now i : ℕ) (area b : String) → is_open_critique b (critique_job now i area) ≡ str_eq area b
unfolding is_open_critique critique_job payload_area_is new_job is_queued get
critique_job-open now i area b = refl

module _ (now i : ℕ) (area : String) (s : Store) (e : may_critique area s ≡ true) where
  no_critiques : critiques_of area s ≡ 0
  unfolding may_critique
  no_critiques = omega (
    arith,
    any_none-tally (is_open_critique area) s.jobs (ground (arith, e)),
    any_none-tally (λ a. str_eq a area) s.critiques (ground (arith, e)),
  )

  fired : Store
  fired = record s { jobs = s.jobs ++ critique_job now i area ∷ [] }

  fired_once : (b : String) → critiques_of b s ≤ 1 → critiques_of b fired ≤ 1
  unfolding fired
  fired_once b h =
      let sum = tally-append (is_open_critique b) s.jobs (critique_job now i area ∷ []) in
      elim (Bool-cases (str_eq area b)) [
        | inl k ↦
            let none_of_b = subst (λ a. critiques_of a s ≡ 0) ((eq_iff area b).0 k) no_critiques in
            ground (arith, sum, k, critique_job-open now i area b, none_of_b)
        | inr k ↦ ground (arith, sum, k, critique_job-open now i area b, h)
      ]

  fired_again : may_critique area fired ≡ false
  unfolding fired may_critique
  fired_again =
      let new = critique_job now i area ∷ [] in
      ground (
        arith,
        any-append (is_open_critique area) s.jobs new,
        critique_job-open now i area area,
        (eq_iff area area).1 refl,
      )

-- The trigger starts the critic of an area only when none of its candidates is being vetted or
-- judged, and adds nothing else; no area that has at most one critique, done or to come, gets a
-- second; and the trigger fires no second time.
pub maybe_enqueue_roster_critique-Triggered :
    (now i : ℕ) (area : String) (s : Store)
    → Triggered now i area s (maybe_enqueue_roster_critique now i (some area) s)
unfolding maybe_enqueue_roster_critique add_jobs fired may_critique
maybe_enqueue_roster_critique-Triggered now i area s = elim (Bool-cases (may_critique area s)) [
  | inl e ↦
      rw (e, maybe_enqueue_roster_critique)
        (record {
          jobs = rw e refl;
          settled = λ _. ground (arith, e);
          once = fired_once now i area s e;
          again = fired_again now i area s e;
        })
  | inr e ↦
      rw (e, maybe_enqueue_roster_critique)
        (record { jobs = rw e refl; settled = λ k. cc; once = λ b h. h; again = e })
]
