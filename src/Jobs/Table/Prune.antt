-- ===== src/Jobs/Table/Prune.antt =====
-- `prune`: what is left of the table.
use grepmesh.Prelude.{
  ℕ, zero, suc, ◌≤◌, ◌≡◌, refl, sym, ap, ◌∙◌, true, false, Option, none, some, String, List, [],
  ◌∷◌, length, ltb, ◌==◌, All, All-true, All-Keeps, All-map, All-both, Keeps, Keeps-refl,
  Keeps-trans, Bool-cases, Option-cases, inl, inr, arith, contains, ==_refl, ==_iff, string_ord,
}
use grepmesh.Prelude.Map
use grepmesh.Prelude.Map.{BTreeMap, contains_key, remove-Keeps, remove-All, length-remove-lt}
use grepmesh.Jobs.Result.{Error}
use grepmesh.Jobs.State.{SearchJob, max_jobs}
use grepmesh.Jobs.Store.{is_expired}
use grepmesh.Jobs.Table.{
  SearchJobs, and_then, remove_job, remove_jobs, expired_ids, oldest, shed, ttl_of, clean_up, prune,
}

module _ {F : Type 0} where
  jobs-remove_job :
      (id : String) (t : SearchJobs F) → (remove_job id t).0.jobs ≡ Map.remove id t.jobs
  unfolding remove_job
  jobs-remove_job id t = ground arith

  -- What holds after the first part and is kept by the second holds in the end.
  and_then-keeps :
      (P : SearchJobs F → Type 0) (r : SearchJobs F × Option Error)
      (f : SearchJobs F → SearchJobs F × Option Error)
      → P r.0
      → ((t : SearchJobs F) → P t → P (f t).0)
      → P (and_then r f).0
  and_then-keeps P (t, none) f h k = k t h
  and_then-keeps P (t, some e) f h k = h

  -- If there was no error, both parts were done.
  and_then-ok :
      (r : SearchJobs F × Option Error) (f : SearchJobs F → SearchJobs F × Option Error)
      → (and_then r f).1 ≡ none
      → (r.1 ≡ none) × ((f r.0).1 ≡ none) × ((and_then r f).0 ≡ (f r.0).0)
  and_then-ok (t, none) f h = (refl, h, refl)
  and_then-ok (t, some e) f h = absurd (cc)

  abbrev KeepsJobs : BTreeMap String (SearchJob F) → SearchJobs F → Type 0
  KeepsJobs m t = Keeps t.jobs m

  remove_job-KeepsJobs :
      (id : String) (t : SearchJobs F) (m : BTreeMap String (SearchJob F))
      → KeepsJobs m t
      → KeepsJobs m (remove_job id t).0
  remove_job-KeepsJobs id t m k = rw (jobs-remove_job id t) (Keeps-trans k (remove-Keeps id t.jobs))

  remove_jobs-KeepsJobs :
      (ids : List String) (t : SearchJobs F) (m : BTreeMap String (SearchJob F))
      → KeepsJobs m t
      → KeepsJobs m (remove_jobs ids t).0
  unfolding remove_jobs
  remove_jobs-KeepsJobs [] t m k = k
  remove_jobs-KeepsJobs (id ∷ ids) t m k =
      and_then-keeps (KeepsJobs m) (remove_job id t) (remove_jobs ids)
        (remove_job-KeepsJobs id t m k) (λ t' k'. remove_jobs-KeepsJobs ids t' m k')

  -- Without an error no entry with one of the ids is left.
  remove_jobs-gone :
      (ids : List String) (t : SearchJobs F)
      → (remove_jobs ids t).1 ≡ none
      → All (λ e. contains e.0 ids ≡ false) (remove_jobs ids t).0.jobs
  unfolding remove_jobs contains
  remove_jobs-gone [] t h = All-map t.jobs (λ e _. refl) (All-true t.jobs)
  remove_jobs-gone (id ∷ ids) t h =
      let (first, rest, same) = and_then-ok (remove_job id t) (remove_jobs ids) h in
      let t' = (remove_job id t).0 in
      let one : All (λ e. (id == e.0) ≡ false) t'.jobs =
        rw (jobs-remove_job id t) (remove-All id t.jobs) in
      let kept = remove_jobs-KeepsJobs ids t' t'.jobs (Keeps-refl t'.jobs) in
      let others = remove_jobs-gone ids t' rest in
      rw same (
        All-both {R = λ e. contains e.0 (id ∷ ids) ≡ false} (remove_jobs ids t').0.jobs
          (λ e p q. ground (arith, ==_iff e.0 id, ==_iff id e.0))
          (All-Keeps (λ e. (id == e.0) ≡ false) kept one) others)

  abbrev IsListed : ℕ → ℕ → List String → String × SearchJob F → Type 0
  IsListed now ttl_ms ids e = is_expired now ttl_ms e.1.created_ms ≡ true → contains e.0 ids ≡ true

  contains-expired_ids :
      (now ttl_ms : ℕ) (k id : String) (job : SearchJob F) (rest : BTreeMap String (SearchJob F))
      → contains k (expired_ids now ttl_ms rest) ≡ true
      → contains k (expired_ids now ttl_ms ((id, job) ∷ rest)) ≡ true
  unfolding expired_ids contains
  contains-expired_ids now ttl_ms k id job rest h = ground arith

  expired_ids-head :
      (now ttl_ms : ℕ) (id : String) (job : SearchJob F) (rest : BTreeMap String (SearchJob F))
      → is_expired now ttl_ms job.created_ms ≡ true
      → contains id (expired_ids now ttl_ms ((id, job) ∷ rest)) ≡ true
  unfolding expired_ids contains
  expired_ids-head now ttl_ms id job rest h = rw h (ground (arith, ==_refl id))

  expired_ids-IsListed :
      (now ttl_ms : ℕ) (m : BTreeMap String (SearchJob F))
      → All (IsListed now ttl_ms (expired_ids now ttl_ms m)) m
  expired_ids-IsListed now ttl_ms [] = tt
  expired_ids-IsListed now ttl_ms ((id, job) ∷ rest) = (
    λ h. expired_ids-head now ttl_ms id job rest h,
    All-map {Q = IsListed now ttl_ms (expired_ids now ttl_ms ((id, job) ∷ rest))} rest
        (λ e (p : IsListed now ttl_ms (expired_ids now ttl_ms rest) e) x.
          contains-expired_ids now ttl_ms e.0 id job rest (p x))
        (expired_ids-IsListed now ttl_ms rest),
  )

  not_listed :
      (now ttl_ms : ℕ) (ids : List String) (e : String × SearchJob F)
      → IsListed now ttl_ms ids e
      → contains e.0 ids ≡ false
      → is_expired now ttl_ms e.1.created_ms ≡ false
  not_listed now ttl_ms ids e p q = elim (Bool-cases (is_expired now ttl_ms e.1.created_ms)) [
    | inl x ↦ absurd (cc (p x, q))
    | inr x ↦ x
  ]

  -- The rounds of `shed`.
  data Round (t : SearchJobs F) : Type 0 where
    enough : length t.jobs ≤ max_jobs → Round t
    remove :
        (e : String × ℕ)
        → ltb max_jobs (length t.jobs) ≡ true
        → oldest t.jobs ≡ some e
        → contains_key e.0 t.jobs ≡ true
        → Round t

  round : (t : SearchJobs F) → Round t
  round t = elim (Bool-cases (ltb max_jobs (length t.jobs))) [
    | inr few ↦ enough (ground arith)
    | inl many ↦ elim (Option-cases (oldest t.jobs)) [
      | inl empty ↦ enough (
          omega (
            arith,
            ap length (Map.oldest-eq-none (λ (j : SearchJob F). j.created_ms) t.jobs empty),
          ))
      | inr (e, found) ↦
          remove e many found
            (Map.oldest-contains (λ (j : SearchJob F). j.created_ms) t.jobs e found)
    ]
  ]

  shed-enough : (fuel : ℕ) (t : SearchJobs F) → length t.jobs ≤ max_jobs → shed fuel t ≡ (t, none)
  unfolding shed
  shed-enough zero t h = refl
  shed-enough (suc fuel) t h = ground arith

  shed-remove :
      (fuel : ℕ) (t : SearchJobs F) (e : String × ℕ)
      → ltb max_jobs (length t.jobs) ≡ true
      → oldest t.jobs ≡ some e
      → shed (suc fuel) t ≡ and_then (remove_job e.0 t) (shed fuel)
  unfolding shed
  shed-remove fuel t e many found = ground arith

  shed-few :
      (fuel : ℕ) (t : SearchJobs F)
      → length t.jobs ≤ fuel
      → (shed fuel t).1 ≡ none
      → length (shed fuel t).0.jobs ≤ max_jobs
  unfolding shed
  shed-few zero t h done = omega arith
  shed-few (suc fuel) t h done = elim (round t) [
    | enough few ↦ rw (shed-enough (suc fuel) t few) few
    | remove e many found there ↦
        let step = shed-remove fuel t e many found in
        let done' : (and_then (remove_job e.0 t) (shed fuel)).1 ≡ none =
          ap (λ r. r.1) (sym step) ∙ done in
        let (_, rest, same) = and_then-ok (remove_job e.0 t) (shed fuel) done' in
        let t' = (remove_job e.0 t).0 in
        let shorter : length t'.jobs ≤ fuel =
          rw (jobs-remove_job e.0 t) (omega (arith, length-remove-lt e.0 t.jobs there)) in
        rw (step, same) (shed-few fuel t' shorter rest)
  ]

  shed-KeepsJobs :
      (fuel : ℕ) (t : SearchJobs F) (m : BTreeMap String (SearchJob F))
      → KeepsJobs m t
      → KeepsJobs m (shed fuel t).0
  unfolding shed
  shed-KeepsJobs zero t m k = k
  shed-KeepsJobs (suc fuel) t m k = elim (round t) [
    | enough few ↦ rw (shed-enough (suc fuel) t few) k
    | remove e many found there ↦ rw (shed-remove fuel t e many found) (
        and_then-keeps (KeepsJobs m) (remove_job e.0 t) (shed fuel) (remove_job-KeepsJobs e.0 t m k)
          (λ t' k'. shed-KeepsJobs fuel t' m k'))
  ]

  -- The table that a prune leaves: entries of the old table, none of them expired, at most
  -- `MAX_JOBS`.
  pub record Pruned (now : ℕ) (t t' : SearchJobs F) : Type 0 where
    pub kept : Keeps t'.jobs t.jobs
    pub fresh : All (λ e. is_expired now (ttl_of t) e.1.created_ms ≡ false) t'.jobs
    pub few : length t'.jobs ≤ max_jobs

  jobs-clean_up : (now ttl_ms : ℕ) (t : SearchJobs F) → (clean_up now ttl_ms t).0.jobs ≡ t.jobs
  jobs-clean_up now ttl_ms t = ground arith

  -- The table before the directory is cleaned.
  swept : ℕ → SearchJobs F → SearchJobs F × Option Error
  swept now t =
      and_then (remove_jobs (expired_ids now (ttl_of t) t.jobs) t) (λ t'. shed (length t'.jobs) t')

  swept-Pruned :
      (now : ℕ) (t : SearchJobs F) → (swept now t).1 ≡ none → Pruned now t (swept now t).0
  unfolding swept
  swept-Pruned now t h =
      let ids = expired_ids now (ttl_of t) t.jobs in
      let first = remove_jobs ids t in
      let (removed, shedded, same) = and_then-ok first (λ t'. shed (length t'.jobs) t') h in
      let t₁ = first.0 in
      let t₂ = (shed (length t₁.jobs) t₁).0 in
      let kept₁ = remove_jobs-KeepsJobs ids t t.jobs (Keeps-refl t.jobs) in
      let kept₂ = shed-KeepsJobs (length t₁.jobs) t₁ t₁.jobs (Keeps-refl t₁.jobs) in
      let listed =
        All-Keeps (IsListed now (ttl_of t) ids) kept₁
          (expired_ids-IsListed now (ttl_of t) t.jobs) in
      let fresh : All (λ e. is_expired now (ttl_of t) e.1.created_ms ≡ false) t₁.jobs =
        All-both {R = λ e. is_expired now (ttl_of t) e.1.created_ms ≡ false} t₁.jobs
          (λ e p (q : contains e.0 ids ≡ false). not_listed now (ttl_of t) ids e p q) listed
          (remove_jobs-gone ids t removed) in
      rw same (record {
        kept = Keeps-trans kept₁ kept₂;
        fresh = All-Keeps (λ e. is_expired now (ttl_of t) e.1.created_ms ≡ false) kept₂ fresh;
        few = shed-few (length t₁.jobs) t₁ (omega arith) shedded;
      })

  -- A prune that returns no error leaves entries of the old table, in their order, none of them
  -- expired, and at most `MAX_JOBS` of them.
  pub prune-Pruned :
      (now : ℕ) (t : SearchJobs F) → (prune now t).1 ≡ none → Pruned now t (prune now t).0
  unfolding prune swept
  prune-Pruned now t h =
      let (done, _, same) = and_then-ok (swept now t) (clean_up now (ttl_of t)) h in
      let p = swept-Pruned now t done in
      let jobs : (prune now t).0.jobs ≡ (swept now t).0.jobs =
        ap (λ (u : SearchJobs F). u.jobs) same ∙ jobs-clean_up now (ttl_of t) (swept now t).0 in
      record { kept = rw jobs p.kept; fresh = rw jobs p.fresh; few = rw jobs p.few }

  -- No error, and still no directory.
  IsQuiet : SearchJobs F × Option Error → Type 0
  IsQuiet r = (r.1 ≡ none) × (r.0.persistence ≡ none)

  and_then-IsQuiet :
      (r : SearchJobs F × Option Error) (f : SearchJobs F → SearchJobs F × Option Error)
      → IsQuiet r
      → ((t : SearchJobs F) → t.persistence ≡ none → IsQuiet (f t))
      → IsQuiet (and_then r f)
  unfolding IsQuiet
  and_then-IsQuiet (t, none) f h k = k t h.1
  and_then-IsQuiet (t, some e) f h k = absurd (cc (h.0))

  remove_job-IsQuiet :
      (id : String) (t : SearchJobs F) → t.persistence ≡ none → IsQuiet (remove_job id t)
  unfolding IsQuiet remove_job
  remove_job-IsQuiet id t h = (ground arith, ground arith)

  remove_jobs-IsQuiet :
      (ids : List String) (t : SearchJobs F) → t.persistence ≡ none → IsQuiet (remove_jobs ids t)
  unfolding remove_jobs IsQuiet
  remove_jobs-IsQuiet [] t h = (refl, h)
  remove_jobs-IsQuiet (id ∷ ids) t h =
      and_then-IsQuiet (remove_job id t) (remove_jobs ids) (remove_job-IsQuiet id t h)
        (λ t' h'. remove_jobs-IsQuiet ids t' h')

  shed-IsQuiet : (fuel : ℕ) (t : SearchJobs F) → t.persistence ≡ none → IsQuiet (shed fuel t)
  unfolding shed IsQuiet
  shed-IsQuiet zero t h = (refl, h)
  shed-IsQuiet (suc fuel) t h = elim (round t) [
    | enough few ↦ rw (shed-enough (suc fuel) t few) (refl, h)
    | remove e many found there ↦ rw (shed-remove fuel t e many found) (
        and_then-IsQuiet (remove_job e.0 t) (shed fuel) (remove_job-IsQuiet e.0 t h)
          (λ t' h'. shed-IsQuiet fuel t' h'))
  ]

  -- Without a directory a prune returns no error.
  pub prune_in_memory : (now : ℕ) (t : SearchJobs F) → t.persistence ≡ none → (prune now t).1 ≡ none
  unfolding prune IsQuiet
  prune_in_memory now t h =
      let swept_quiet =
        and_then-IsQuiet (remove_jobs (expired_ids now (ttl_of t) t.jobs) t)
          (λ t'. shed (length t'.jobs) t')
          (remove_jobs-IsQuiet (expired_ids now (ttl_of t) t.jobs) t h)
          (λ t' h'. shed-IsQuiet (length t'.jobs) t' h') in
      (and_then-IsQuiet
        (and_then (remove_jobs (expired_ids now (ttl_of t) t.jobs) t)
          (λ t'. shed (length t'.jobs) t'))
        (clean_up now (ttl_of t)) swept_quiet (λ t' h'. (ground arith, ground arith))).0
