-- ===== src/Queue/Rows.antt =====
-- Rows of the table `jobs` under an UPDATE by primary key.
use think_tank.Prelude.{
  ℕ, ◌≡◌, ◌≢◌, refl, sym, true, some, List, [], ◌∷◌, ◌==◌, ==_iff, Bool-cases, inl, inr,
  if◌then◌else◌, All, All-In, All-of, ==_self, In, here, there, arith,
}
use mathlib.Core.Option
use think_tank.Queue.Job.{Job, find_job, update_job}

-- Primary keys: no two rows have the same id.
abbrev pub Distinct : List Job → Type 0
Distinct [] = Unit
Distinct (j ∷ js) = All (λ k. j.id ≢ k.id) js × Distinct js

-- `f` leaves the id alone.
abbrev pub KeepsId : (Job → Job) → Type 0
KeepsId f = (j : Job) → (f j).id ≡ j.id

pub find_job-In : (i : ℕ) (js : List Job) {j : Job} → find_job i js ≡ some j → In j js × (j.id ≡ i)
unfolding find_job
find_job-In i [] h = cc
find_job-In i (k ∷ js) {j} h = elim (Bool-cases (k.id == i)) [
  | inl e ↦ go e (ground (arith, e))
  | inr e ↦ let r = find_job-In i js {j = j} (ground (arith, e)) in (there r.0, r.1)
]
  where
    go : (k.id == i) ≡ true → k ≡ j → In j (k ∷ js) × (j.id ≡ i)
    go e p = rw (← p) (here, (==_iff k.id i).0 e)

-- What a read by id sees after an UPDATE by id.
pub find_job-update :
    (i k : ℕ) (f : Job → Job)
    → KeepsId f
    → (js : List Job)
    → find_job k (update_job i f js)
      ≡ (if i == k then Option.map f (find_job k js) else find_job k js)
unfolding find_job update_job
find_job-update i k f keeps [] = ground arith
find_job-update i k f keeps (j ∷ js) = ground (arith, keeps j, find_job-update i k f keeps js)

-- An UPDATE that gives `P` to the rows that it touches keeps it on the table.
pub update_job-All_at :
    (P : Job → Type 0) (i : ℕ) (f : Job → Job) (js : List Job)
    → All (λ k. k.id ≡ i → P (f k)) js
    → All P js
    → All P (update_job i f js)
unfolding update_job
update_job-All_at P i f [] t h = tt
update_job-All_at P i f (j ∷ js) t h = elim (Bool-cases (j.id == i)) [
  | inl e ↦ rw e (t.0 ((==_iff j.id i).0 e), update_job-All_at P i f js t.1 h.1)
  | inr e ↦ rw e (h.0, update_job-All_at P i f js t.1 h.1)
]

pub update_job-All :
    (P : Job → Type 0) (i : ℕ) (f : Job → Job)
    → ((k : Job) → k.id ≡ i → P k → P (f k))
    → (js : List Job) → All P js
    → All P (update_job i f js)
update_job-All P i f keep js h =
    update_job-All_at P i f js (All-of _ js (λ k m e. keep k e (All-In P m h))) h

ne_ids :
    (n i : ℕ) (f : Job → Job)
    → KeepsId f
    → (js : List Job) → All (λ k. n ≢ k.id) js
    → All (λ k. n ≢ k.id) (update_job i f js)
ne_ids n i f keeps js = update_job-All (λ k. n ≢ k.id) i f (λ k _ h. rw (keeps k) h) js

pub update_job-Distinct :
    (i : ℕ) (f : Job → Job)
    → KeepsId f
    → (js : List Job) → Distinct js
    → Distinct (update_job i f js)
unfolding update_job
update_job-Distinct i f keeps [] h = tt
update_job-Distinct i f keeps (j ∷ js) h = elim (Bool-cases (j.id == i)) [
  | inl e ↦ rw e (rw (keeps j) (ne_ids j.id i f keeps js h.0), update_job-Distinct i f keeps js h.1)
  | inr e ↦ rw e (ne_ids j.id i f keeps js h.0, update_job-Distinct i f keeps js h.1)
]

-- A row of a table with distinct ids is the only one of its id.
pub row_unique : (js : List Job) {j k : Job} → Distinct js → In j js → In k js → j.id ≡ k.id → j ≡ k
row_unique [] d m n e = elim m [ ]
row_unique (x ∷ js) d here here e = refl
row_unique (x ∷ js) d here (there n) e = absurd (All-In (λ k. x.id ≢ k.id) n d.0 e)
row_unique (x ∷ js) d (there m) here e = absurd (All-In (λ k. x.id ≢ k.id) m d.0 (sym e))
row_unique (x ∷ js) d (there m) (there n) e = row_unique js d.1 m n e

-- An UPDATE of an id that no row has changes nothing.
pub update_job-absent :
    (i : ℕ) (f : Job → Job) (js : List Job) → All (λ k. i ≢ k.id) js → update_job i f js ≡ js
unfolding update_job
update_job-absent i f [] h = refl
update_job-absent i f (j ∷ js) h = ground (arith, h.0, update_job-absent i f js h.1)

-- An UPDATE of one row of the table: no other row has its id.
pub update_row-All :
    (P : Job → Type 0) (f : Job → Job) (js : List Job) {j : Job}
    → Distinct js
    → In j js
    → P (f j)
    → All P js
    → All P (update_job j.id f js)
update_row-All P f js {j} d m step h =
    update_job-All_at P j.id f js (All-of _ js (λ k n e. rw (row_unique js d n m e) step)) h

-- A read by id finds the row of a table with distinct ids.
pub find_job_of_In : (js : List Job) {j : Job} → Distinct js → In j js → find_job j.id js ≡ some j
unfolding find_job
find_job_of_In [] d m = elim m [ ]
find_job_of_In (x ∷ js) d here = rw (==_self x.id)
find_job_of_In (x ∷ js) {j} d (there m) =
    ground (arith, All-In (λ k. x.id ≢ k.id) m d.0, find_job_of_In js d.1 m)

-- A row that is overwritten whole.
pub find_job-overwrite :
    (x : Job) (js : List Job) {j : Job}
    → find_job x.id js ≡ some j
    → find_job x.id (update_job x.id (λ _. x) js) ≡ some x
unfolding find_job update_job
find_job-overwrite x [] h = cc
find_job-overwrite x (k ∷ js) {j} h = ground (arith, find_job-overwrite x js {j = j})
