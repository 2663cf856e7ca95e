-- ===== src/Pipeline/Pages.antt =====
-- The pages of the list of jobs, put together.
use think_tank.Prelude.{
  ℕ, zero, suc, ◌+◌, ◌-◌, ◌*◌, ◌≤◌, max, min, ◌≡◌, refl, sym, ap, subst, ◌∙◌, ℤ, pos, pos_part,
  List, [], ◌∷◌, ◌++◌, length, length-take, take, drop, arith,
}
use think_tank.Queue.Job.{Job}
use think_tank.Schedule.{Clock}
use think_tank.Pipeline.{Filters, page_size, filtered_jobs, total_pages, job_list_partial}
use think_tank.Pipeline.Ties.{Answers, TieFree, Answers-unique, length-perm}

take-drop : (a b : ℕ) (xs : List Job) → take a xs ++ take b (drop a xs) ≡ take (a + b) xs
take-drop zero b xs = let e : 0 + b ≡ b = omega arith in rw e refl
take-drop (suc a) zero [] = let e : suc a + 0 ≡ suc a = omega arith in rw e refl
take-drop (suc a) (suc b) [] = let e : suc a + suc b ≡ suc (a + suc b) = omega arith in rw e refl
take-drop (suc a) b (x ∷ xs) =
    let e : suc a + b ≡ suc (a + b) = omega arith in rw e (ap (λ ys. x ∷ ys) (take-drop a b xs))

take_all : (n : ℕ) (xs : List Job) → length xs ≤ n → take n xs ≡ xs
take_all zero [] h = refl
take_all zero (x ∷ xs) h = absurd (omega (arith, h))
take_all (suc n) [] h = refl
take_all (suc n) (x ∷ xs) h = ap (λ ys. x ∷ ys) (take_all n xs (omega (arith, h)))

module _ (clock : Clock) (f : Filters) (jobs : List Job) (ordered : ℕ → List Job → List Job) where
  -- The rows of the pages from the first to the n-th, each page with the order of its own query.
  pub pages : ℕ → List Job
  pages zero = []
  pages (suc n) = pages n ++ (job_list_partial clock (ordered (suc n)) f (pos (suc n)) jobs).1

  abbrev rows : List Job
  rows = filtered_jobs clock f jobs

  page_rows :
      (n : ℕ)
      → suc n ≤ total_pages clock f jobs
      → (job_list_partial clock (ordered (suc n)) f (pos (suc n)) jobs).1
        ≡ take page_size (drop (n * page_size) (ordered (suc n) rows))
  unfolding job_list_partial
  page_rows n h =
      let shown : min (max 1 (suc n)) (total_pages clock f jobs) ≡ suc n = omega (arith, h) in
      let before : suc n - 1 ≡ n = omega arith in rw shown (rw before refl)

  pages-take :
      (out : List Job) (n : ℕ)
      → ((page : ℕ) → ordered page rows ≡ out)
      → n ≤ total_pages clock f jobs
      → pages n ≡ take (n * page_size) out
  unfolding pages
  pages-take out zero same h = refl
  pages-take out (suc n) same h =
      let e : suc n * page_size ≡ n * page_size + page_size = omega arith in
      rw (pages-take out n same (omega (arith, h)))
        (rw (page_rows n h) (rw (same (suc n)) (rw e (take-drop (n * page_size) page_size out))))

  all_pages :
      (out : List Job)
      → length out ≡ length rows
      → length out ≤ total_pages clock f jobs * page_size
  unfolding total_pages
  all_pages out h = omega (arith, h)

  -- When each page's query answers the filtered rows newest first, in any order of ties, and no two
  -- of these rows have the same `created_at`, the pages from the first to the last one, put together,
  -- are these rows newest first: no row is on two pages, and none is left out. No page has more than
  -- 25 rows.
  pub pages-Answers :
      ((page : ℕ) → Answers rows (ordered page rows))
      → TieFree rows
      → Answers rows (pages (total_pages clock f jobs))
        × ((page : ℤ) (n : ℕ)
            → length (job_list_partial clock (ordered n) f page jobs).1 ≤ page_size)
  unfolding job_list_partial
  pages-Answers answers free =
      let out = ordered 1 rows in
      let n = total_pages clock f jobs in
      let same : (page : ℕ) → ordered page rows ≡ out =
        λ page. Answers-unique rows (ordered page rows) out free (answers page) (answers 1) in
      let whole : pages n ≡ out =
        pages-take out n same (omega arith)
        ∙ take_all (n * page_size) out (all_pages out (sym (length-perm (answers 1).0))) in
      (
        subst (Answers rows) (sym whole) (answers 1),
        λ page i. omega (
          arith,
          length-take page_size
              (drop ((min (max 1 (pos_part page)) n - 1) * page_size) (ordered i rows)),
        ),
      )
