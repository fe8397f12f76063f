-- ===== src/Jobs/Merge/Admission.antt =====
-- The hits that `merge_result` of src/jobs.rs admits.
use grepmesh.Prelude.{
  true, false, ◌≤◌, ◌<◌, ◌≡◌, refl, ◌++◌, Option, none, some, List, [], ◌∷◌, length, length-append,
  arith, contains, Bool-cases, inl, inr, not, ◌&&◌, ltb, All, All-map, All-append, add, ap, Keeps,
  done, skip, keep, contains-add_mono, contains-add_self, string_ord, lt→ltb, append-nil,
  append_assoc, Pairwise, Pairwise-snoc, ◌≢◌, unwrap_or, sym, ◌||◌, ◌∙◌,
}
use grepmesh.Prelude.Map
use grepmesh.Backend.Hosts.{PerHostStatus}
use grepmesh.Backend.Hits.{SearchHit}
use grepmesh.Jobs.State.{SearchJob, HitKey, hit_key, hit_key_ord}
use grepmesh.Jobs.Merge.{HostAnswer, merge_status, admit, merge_hits, merge_result}

module _ {F : Type 0} where
  -- The results respect the limit, every result's key is noted, and no key stands twice.
  pub record IsAdmitted (job : SearchJob F) : Type 0 where
    pub bounded : length job.results ≤ job.limit
    pub noted : All (λ hit. contains (hit_key hit) job.seen_results ≡ true) job.results
    pub distinct : Pairwise (λ a b. hit_key a ≢ hit_key b) job.results

  noted_mono :
      (key : HitKey) (seen : List HitKey) (hits : List (SearchHit F))
      → All (λ hit. contains (hit_key hit) seen ≡ true) hits
      → All (λ hit. contains (hit_key hit) (add key seen) ≡ true) hits
  noted_mono key seen hits = All-map hits (λ hit. contains-add_mono (hit_key hit) key seen)

  unseen_differs :
      (hit : SearchHit F) (seen : List HitKey) (hits : List (SearchHit F))
      → contains (hit_key hit) seen ≡ false
      → All (λ old. contains (hit_key old) seen ≡ true) hits
      → All (λ old. hit_key old ≢ hit_key hit) hits
  unseen_differs hit seen hits new = All-map hits (λ old known same. cc)

  admit_new :
      (job : SearchJob F) (hit : SearchHit F)
      → contains (hit_key hit) job.seen_results ≡ false
      → length job.results < job.limit
      → admit job hit ≡ record job {
        seen_results = add (hit_key hit) job.seen_results;
        results = job.results ++ hit ∷ [];
      }
  unfolding admit
  admit_new job hit new room = rw (new, lt→ltb _ _ room)

  admit_other :
      (job : SearchJob F) (hit : SearchHit F)
      → (not (contains (hit_key hit) job.seen_results) && ltb (length job.results) job.limit)
        ≡ false
      → admit job hit
        ≡ record job { seen_results = add (hit_key hit) job.seen_results; truncated = true }
  unfolding admit
  admit_other job hit h = rw h

  data Admission (job : SearchJob F) (hit : SearchHit F) : Type 0 where
    fresh :
        contains (hit_key hit) job.seen_results ≡ false
        → length job.results < job.limit
        → Admission job hit
    dropped :
        (not (contains (hit_key hit) job.seen_results) && ltb (length job.results) job.limit)
          ≡ false
        → Admission job hit

  admission : (job : SearchJob F) (hit : SearchHit F) → Admission job hit
  admission job hit =
      elim (Bool-cases
        (not (contains (hit_key hit) job.seen_results) && ltb (length job.results) job.limit)) [
          | inl e ↦ fresh (ground arith) (ground arith)
          | inr e ↦ dropped e
        ]

  admit-IsAdmitted :
      (job : SearchJob F) (hit : SearchHit F) → IsAdmitted job → IsAdmitted (admit job hit)
  admit-IsAdmitted job hit h = elim (admission job hit) [
    | fresh new room ↦ rw (admit_new job hit new room) (record {
      bounded = omega (arith, length-append job.results (hit ∷ []));
      noted =
          All-append _ job.results (hit ∷ [])
            (noted_mono (hit_key hit) job.seen_results job.results h.noted)
            (contains-add_self (hit_key hit) job.seen_results, tt);
      distinct =
          Pairwise-snoc _ job.results hit h.distinct
            (unseen_differs hit job.seen_results job.results new h.noted);
    })
    | dropped e ↦ rw (admit_other job hit e) (record {
      bounded = h.bounded;
      noted = noted_mono (hit_key hit) job.seen_results job.results h.noted;
      distinct = h.distinct;
    })
  ]

  merge_hits-IsAdmitted :
      (job : SearchJob F) (hits : List (Option (SearchHit F)))
      → IsAdmitted job
      → IsAdmitted (merge_hits job hits)
  unfolding merge_hits
  merge_hits-IsAdmitted job [] h = h
  merge_hits-IsAdmitted job (none ∷ rest) h = merge_hits-IsAdmitted job rest h
  merge_hits-IsAdmitted job (some hit ∷ rest) h =
      merge_hits-IsAdmitted (admit job hit) rest (admit-IsAdmitted job hit h)

  -- The job after the statuses and before the hits.
  abbrev with_statuses : SearchJob F → HostAnswer F → SearchJob F
  with_statuses job answer =
      merge_status (record job { truncated = job.truncated || unwrap_or false answer.truncated })
        (unwrap_or [] answer.host_status)

  -- Statuses touch nothing but the status table.
  record SameHits (job job' : SearchJob F) : Type 0 where
    results : job'.results ≡ job.results
    seen : job'.seen_results ≡ job.seen_results
    limit : job'.limit ≡ job.limit
    truncated : job'.truncated ≡ job.truncated

  merge_status-SameHits :
      (job : SearchJob F) (statuses : List (Option PerHostStatus))
      → SameHits job (merge_status job statuses)
  unfolding merge_status
  merge_status-SameHits job [] = record {
    results = refl;
    seen = refl;
    limit = refl;
    truncated = refl;
  }
  merge_status-SameHits job (none ∷ rest) = merge_status-SameHits job rest
  merge_status-SameHits job (some status ∷ rest) =
      let same =
        merge_status-SameHits
          (record job { host_status = Map.insert status.host_id status job.host_status }) rest in
      record {
        results = same.results;
        seen = same.seen;
        limit = same.limit;
        truncated = same.truncated;
      }

  SameHits-IsAdmitted :
      {job job' : SearchJob F} → SameHits job job' → IsAdmitted job → IsAdmitted job'
  SameHits-IsAdmitted same h = record {
    bounded = rw (same.results, same.limit) h.bounded;
    noted = rw (same.results, same.seen) h.noted;
    distinct = rw same.results h.distinct;
  }

  -- A job that is within its limit, holds no two hits with the same host, source, path and line, and
  -- has noted the keys of its hits stays such a job when any answer is merged into it.
  pub merge_result-IsAdmitted :
      (job : SearchJob F) (answer : HostAnswer F)
      → IsAdmitted job
      → IsAdmitted (merge_result job answer)
  unfolding merge_result
  merge_result-IsAdmitted job answer h =
      merge_hits-IsAdmitted (with_statuses job answer) (unwrap_or [] answer.results) (
        SameHits-IsAdmitted (merge_status-SameHits _ (unwrap_or [] answer.host_status))
          (record { bounded = h.bounded; noted = h.noted; distinct = h.distinct }))

  -- `more` is what a merge appended; with `truncated` still false, it is every decoded hit, in
  -- order.
  pub decoded : List (Option (SearchHit F)) → List (SearchHit F)
  decoded [] = []
  decoded (none ∷ rest) = decoded rest
  decoded (some hit ∷ rest) = hit ∷ decoded rest

  pub record Appends (job : SearchJob F) (hits : List (Option (SearchHit F))) (job' : SearchJob F)
      : Type 0 where
    pub more : List (SearchHit F)
    pub results : job'.results ≡ job.results ++ more
    pub drops : Keeps more (decoded hits)
    pub latched : job.truncated ≡ true → job'.truncated ≡ true
    pub whole : job'.truncated ≡ false → more ≡ decoded hits

  merge_hits-Appends :
      (job : SearchJob F) (hits : List (Option (SearchHit F)))
      → Appends job hits (merge_hits job hits)
  unfolding merge_hits decoded
  merge_hits-Appends job [] = record {
    more = [];
    results = sym (append-nil job.results);
    drops = done;
    latched = λ h. h;
    whole = λ _. refl;
  }
  merge_hits-Appends job (none ∷ rest) =
      let a = merge_hits-Appends job rest in
      record {
        more = a.more;
        results = a.results;
        drops = a.drops;
        latched = a.latched;
        whole = a.whole;
      }
  merge_hits-Appends job (some hit ∷ rest) =
      let a = merge_hits-Appends (admit job hit) rest in
      elim (admission job hit) [
        | fresh new room ↦
            let e = admit_new job hit new room in
            record {
              more = hit ∷ a.more;
              results =
                  a.results
                  ∙ ap (λ (j : SearchJob F). j.results ++ a.more) e
                  ∙ append_assoc job.results (hit ∷ []) a.more;
              drops = keep hit a.drops;
              latched = λ h. a.latched (ap (λ (j : SearchJob F). j.truncated) e ∙ h);
              whole = λ h. ap (◌∷◌ hit) (a.whole h);
            }
        | dropped d ↦
            let e = admit_other job hit d in
            record {
              more = a.more;
              results = a.results ∙ ap (λ (j : SearchJob F). j.results ++ a.more) e;
              drops = skip hit a.drops;
              latched = λ h. a.latched (ap (λ (j : SearchJob F). j.truncated) e);
              whole = λ h.
                  let t : (merge_hits (admit job hit) rest).truncated ≡ true =
                    a.latched (ap (λ (j : SearchJob F). j.truncated) e) in
                  absurd (cc);
            }
      ]

  -- Merging an answer only appends to the results, in the answer's order; a raised `truncated`
  -- stays raised, and while it is down every decoded hit of the answer was admitted.
  pub merge_result-Appends :
      (job : SearchJob F) (answer : HostAnswer F)
      → Appends job (unwrap_or [] answer.results) (merge_result job answer)
  unfolding merge_result
  merge_result-Appends job answer =
      let job₁ = record job { truncated = job.truncated || unwrap_or false answer.truncated } in
      let same = merge_status-SameHits job₁ (unwrap_or [] answer.host_status) in
      let a = merge_hits-Appends (with_statuses job answer) (unwrap_or [] answer.results) in
      record {
        more = a.more;
        results = a.results ∙ ap (λ r. r ++ a.more) same.results;
        drops = a.drops;
        latched =
            λ h. a.latched (same.truncated ∙ ap (λ b. b || unwrap_or false answer.truncated) h);
        whole = a.whole;
      }
