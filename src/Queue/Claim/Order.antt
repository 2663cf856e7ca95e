-- ===== src/Queue/Claim/Order.antt =====
-- The ORDER BY of `claim_job`: a strict order whose incomparable rows are tied, and the row that
-- the query returns.
use think_tank.Prelude.{
  ◌≡◌, Bool, true, false, Option, none, some, List, [], ◌∷◌, Bool-cases, inl, inr, All, In, here,
  there, arith,
}
use think_tank.Queue.Job.{Job}
use think_tank.Queue.Claim.{sooner, keep_best, select_first}

-- Two rows are not each before the other.
pub sooner_asym : (a b : Job) → sooner a b ≡ true → sooner b a ≡ false
unfolding sooner
sooner_asym a b h = ground arith

-- Not being before is transitive, so ties form classes.
pub not_sooner_trans : (a b c : Job) → sooner a b ≡ false → sooner b c ≡ false → sooner a c ≡ false
unfolding sooner
not_sooner_trans a b c h k = ground arith

abbrev pub Loses : (Job → Bool) → Job → Job → Type 0
Loses p j k = p k ≡ true → sooner k j ≡ false

-- What the query promises of its answer.
pub data Selects (p : Job → Bool) (js : List Job) : Option Job → Type 0 where
  nothing : All (λ k. p k ≡ false) js → Selects p js none
  best : (j : Job) → In j js → p j ≡ true → All (Loses p j) js → Selects p js (some j)

sooner_irrefl : (a : Job) → sooner a a ≡ false
unfolding sooner
sooner_irrefl a = ground arith

Loses-mono :
    (p : Job → Bool) (j k : Job)
    → sooner k j ≡ false
    → (js : List Job) → All (Loses p k) js
    → All (Loses p j) js
Loses-mono p j k h [] t = tt
Loses-mono p j k h (x ∷ js) t = (λ e. not_sooner_trans x k j (t.0 e) h, Loses-mono p j k h js t.1)

Loses-none :
    (p : Job → Bool) (j : Job) (js : List Job) → All (λ k. p k ≡ false) js → All (Loses p j) js
Loses-none p j [] t = tt
Loses-none p j (x ∷ js) t = (λ e. cc (t.0), Loses-none p j js t.1)

keep_best-Selects :
    (p : Job → Bool) (j : Job) (js : List Job) {o : Option Job}
    → p j ≡ true
    → Selects p js o
    → Selects p (j ∷ js) (some (keep_best j o))
unfolding keep_best
keep_best-Selects p j js e (nothing h) = best j here e (λ _. sooner_irrefl j, Loses-none p j js h)
keep_best-Selects p j js e (best k m q h) = elim (Bool-cases (sooner k j)) [
  | inl s ↦ rw s (best k (there m) q (λ _. sooner_asym k j s, h))
  | inr s ↦ rw s (best j here e (λ _. sooner_irrefl j, Loses-mono p j k s js h))
]

skip-Selects :
    (p : Job → Bool) (j : Job) (js : List Job) {o : Option Job}
    → p j ≡ false
    → Selects p js o
    → Selects p (j ∷ js) o
skip-Selects p j js e (nothing h) = nothing (e, h)
skip-Selects p j js e (best k m q h) = best k (there m) q (λ t. cc (e), h)

-- `ORDER BY … LIMIT 1` returns a row that passes and that no passing row is before, or none when no
-- row passes.
pub select_first-Selects : (p : Job → Bool) (js : List Job) → Selects p js (select_first p js)
unfolding select_first
select_first-Selects p [] = nothing tt
select_first-Selects p (j ∷ js) = elim (Bool-cases (p j)) [
  | inl e ↦ rw e (keep_best-Selects p j js e (select_first-Selects p js))
  | inr e ↦ rw e (skip-Selects p j js e (select_first-Selects p js))
]
