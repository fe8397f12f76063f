-- ===== src/Ocr/Retry/Choice.antt =====
-- What `take_retry_paths_excluding` of src/ocr.rs chooses, and how long a chosen path is held back.
use grepmesh.Prelude.{
  ℕ, zero, suc, ◌+◌, ◌<◌, ◌≤◌, ◌≡◌, refl, sym, Bool, true, false, ◌&&◌, ◌||◌, not, Option, none,
  some, String, List, [], ◌∷◌, ◌++◌, length, take, if◌then◌else◌, ◌==◌, ==_iff, string_ord, arith,
  Bool-cases, inl, inr, ap, ◌∙◌, subst, contains, contains-append, contains-retain, min,
  length-take, nat_ord,
}
use grepmesh.Prelude.Map.{BTreeMap, get, insert, get-insert}
use grepmesh.Ocr.Queue.{OcrEngine}
use grepmesh.Ocr.Retry.{
  eligible, is_due, hold_back, chosen_paths, take_retry_paths_excluding, last_of, after_cursor,
  retry_cooldown, max_parallel_ocr, is_beyond,
}

contains-take :
    (path : String) (limit : ℕ) (paths : List String)
    → contains path (take limit paths) ≡ true
    → contains path paths ≡ true
unfolding contains
contains-take path zero paths h = absurd (cc)
contains-take path (suc limit) [] h = h
contains-take path (suc limit) (first ∷ paths) h = ground (arith, contains-take path limit paths)

-- A path that is eligible comes from the list, is not in flight, is due, and is not repeated.
eligible-contains :
    (path : String) (now : ℕ) (in_flight : List String) (retry_after : BTreeMap String ℕ)
    (unique paths : List String)
    → contains path (eligible now in_flight retry_after unique paths) ≡ true
    → (contains path paths ≡ true)
      × (contains path in_flight ≡ false)
      × (is_due now (get path retry_after) ≡ true)
      × (contains path unique ≡ false)
unfolding eligible contains
eligible-contains path now in_flight retry_after unique [] h = absurd (cc)
eligible-contains path now in_flight retry_after unique (first ∷ paths) h =
    let picked =
      not (contains first in_flight)
      && (is_due now (get first retry_after) && not (contains first unique)) in
    elim (Bool-cases picked) [
      | inr c ↦
          let rest = eligible-contains path now in_flight retry_after unique paths (
            subst
              (λ b.
                contains path (
                  if b
                  then first
                    ∷ eligible now in_flight retry_after (if b then first ∷ unique else unique)
                        paths
                  else eligible now in_flight retry_after (if b then first ∷ unique else unique)
                      paths)
                ≡ true)
              c h) in
          (ground (arith, rest.0), rest.1, rest.2, rest.3)
      | inl c ↦
          let here : (path == first
                || contains path (eligible now in_flight retry_after (first ∷ unique) paths))
              ≡ true =
            subst
              (λ b.
                contains path (
                  if b
                  then first
                    ∷ eligible now in_flight retry_after (if b then first ∷ unique else unique)
                        paths
                  else eligible now in_flight retry_after (if b then first ∷ unique else unique)
                      paths)
                ≡ true)
              c h in
          elim (Bool-cases (path == first)) [
            | inl d ↦
                let same : path ≡ first = ground (arith, ==_iff path first) in
                rw same
                  (ground (arith, ==_iff first first), ground arith, ground arith, ground arith)
            | inr d ↦
                let rest =
                  eligible-contains path now in_flight retry_after (first ∷ unique) paths
                    (ground arith) in
                (ground (arith, rest.0), rest.1, rest.2, ground (arith, rest.3))
          ]
    ]

get-hold_back :
    (path : String) (until : ℕ) (paths : List String) (retry_after : BTreeMap String ℕ)
    → get path (hold_back until paths retry_after)
      ≡ (if contains path paths then some until else get path retry_after)
unfolding hold_back contains
get-hold_back path until [] retry_after = refl
get-hold_back path until (first ∷ paths) retry_after = ground (
  arith,
  get-hold_back path until paths (insert first until retry_after),
  get-insert first path until retry_after,
)

-- A path that may be chosen: it is deferred, not in flight, and due.
pub record IsReady (now : ℕ) (in_flight : List String) (engine : OcrEngine) (path : String)
    : Type 0 where
  pub waiting : contains path engine.deferred ≡ true
  pub idle : contains path in_flight ≡ false
  pub due : is_due now (get path engine.retry_after) ≡ true

after_cursor-contains :
    (path : String) (cursor : Option String) (paths : List String)
    → contains path (after_cursor cursor paths) ≡ true
    → contains path paths ≡ true
unfolding contains
after_cursor-contains path none paths h = absurd (cc)
after_cursor-contains path (some previous) paths h =
    ground (arith, h, contains-retain path (is_beyond previous) paths)

either : (a b : Bool) → (a ≡ true → b ≡ true) → (a || b) ≡ true → b ≡ true
either a b f h = ground arith

not_true : (b : Bool) → (b ≡ true → ⊥) → b ≡ false
not_true b f = ground arith

true_not_false : (b : Bool) → b ≡ true → b ≡ false → ⊥
true_not_false b h k = absurd (cc)

chosen_paths-IsReady :
    (now limit : ℕ) (in_flight : List String) (engine : OcrEngine) (path : String)
    → contains path (chosen_paths now limit in_flight engine) ≡ true
    → IsReady now in_flight engine path
unfolding chosen_paths
chosen_paths-IsReady now limit in_flight engine path h =
    let sources = after_cursor engine.retry_cursor engine.deferred ++ engine.deferred in
    let found = eligible-contains path now in_flight engine.retry_after [] sources (
      contains-take path (min limit max_parallel_ocr)
        (eligible now in_flight engine.retry_after [] sources) h) in
    let beyond : contains path (after_cursor engine.retry_cursor engine.deferred) ≡ true
        → contains path engine.deferred ≡ true =
      after_cursor-contains path engine.retry_cursor engine.deferred in
    record {
      waiting = either _ _ beyond (
          sym (
            contains-append path (after_cursor engine.retry_cursor engine.deferred) engine.deferred)
          ∙ found.0);
      idle = found.1;
      due = found.2;
    }

-- What is taken is ready, and is not taken again before the cooldown is over.
pub record IsTaken (now : ℕ) (in_flight : List String) (engine engine' : OcrEngine)
    (paths : List String) : Type 0 where
  pub few : length paths ≤ max_parallel_ocr
  pub ready : (path : String) → contains path paths ≡ true → IsReady now in_flight engine path
  pub held :
      (path : String) (later limit : ℕ) (in_flight' : List String)
      → contains path paths ≡ true
      → later < now + retry_cooldown
      → contains path (take_retry_paths_excluding later limit in_flight' engine').1 ≡ false

last_of-none : (paths : List String) → last_of paths ≡ none → paths ≡ []
last_of-none [] h = refl
last_of-none (path ∷ []) h = absurd (cc)
last_of-none (path ∷ next ∷ paths) h =
    let rest : next ∷ paths ≡ [] = last_of-none (next ∷ paths) h in absurd (cc)

-- Of what a call returns, every path was chosen by it.
returned :
    (now limit : ℕ) (in_flight : List String) (engine : OcrEngine) (path : String)
    → contains path (take_retry_paths_excluding now limit in_flight engine).1 ≡ true
    → contains path (chosen_paths now limit in_flight engine) ≡ true
unfolding take_retry_paths_excluding contains
returned now limit in_flight engine path h = ground arith

held_back :
    (path : String) (now later : ℕ) (paths : List String) (engine' : OcrEngine)
    (retry_after : BTreeMap String ℕ)
    → engine'.retry_after ≡ hold_back (now + retry_cooldown) paths retry_after
    → contains path paths ≡ true
    → later < now + retry_cooldown
    → is_due later (get path engine'.retry_after) ≡ false
held_back path now later paths engine' retry_after e h lt =
    let at : get path engine'.retry_after ≡ some (now + retry_cooldown) =
      ap (get path) e ∙ get-hold_back path (now + retry_cooldown) paths retry_after ∙ rw h refl in
    rw at (ground arith)

take_retry_paths-held :
    (path : String) (now limit : ℕ) (in_flight : List String) (engine : OcrEngine)
    → contains path (take_retry_paths_excluding now limit in_flight engine).1 ≡ true
    → (take_retry_paths_excluding now limit in_flight engine).0.retry_after
      ≡ hold_back
          (now + retry_cooldown)
          (take_retry_paths_excluding now limit in_flight engine).1
          engine.retry_after
unfolding take_retry_paths_excluding contains
take_retry_paths-held path now limit in_flight engine h =
    ground (arith, last_of-none (chosen_paths now limit in_flight engine))

take_retry_paths-few :
    (now limit : ℕ) (in_flight : List String) (engine : OcrEngine)
    → length (take_retry_paths_excluding now limit in_flight engine).1 ≤ max_parallel_ocr
unfolding take_retry_paths_excluding chosen_paths
take_retry_paths-few now limit in_flight engine = ground (
  arith,
  length-take (min limit max_parallel_ocr) (
      eligible now in_flight engine.retry_after []
        (after_cursor engine.retry_cursor engine.deferred ++ engine.deferred)),
)

-- The paths that a call takes are no more than the parallel work allows, each is deferred, due and
-- not in flight, and the next call, if it is made within the cooldown, takes none of them again,
-- whatever its limit and the work in flight.
pub take_retry_paths_excluding-IsTaken :
    (now limit : ℕ) (in_flight : List String) (engine : OcrEngine)
    → let taken = take_retry_paths_excluding now limit in_flight engine in
      IsTaken now in_flight engine taken.0 taken.1
take_retry_paths_excluding-IsTaken now limit in_flight engine = record {
  few = take_retry_paths-few now limit in_flight engine;
  ready = λ path h.
      chosen_paths-IsReady now limit in_flight engine path
        (returned now limit in_flight engine path h);
  held = λ path later limit' in_flight' h lt.
      let taken = take_retry_paths_excluding now limit in_flight engine in
      let late =
        held_back path now later taken.1 taken.0 engine.retry_after
          (take_retry_paths-held path now limit in_flight engine h) h lt in
      not_true _ (λ again.
        true_not_false _
          (chosen_paths-IsReady later limit' in_flight' taken.0 path
            (returned later limit' in_flight' taken.0 path again)).due
          late);
}
