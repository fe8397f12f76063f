-- ===== src/Gptadmin/Receipts/Once.antt =====
-- Which calls of src/gptadmin.rs may submit a browser task: one for each id, while its receipt lives.
use grepmesh.Prelude.{
  ℕ, ◌+◌, ◌-◌, ◌≤◌, ◌<◌, ◌≡◌, ◌≢◌, refl, sym, Bool, true, false, ◌&&◌, Option, none, some, String,
  List, [], ◌∷◌, length, ltb, leb, if◌then◌else◌, ◌==◌, ==_iff, string_ord, nat_ord, arith,
  Bool-cases, inl, inr, ap, ◌∙◌, subst,
}
use grepmesh.Prelude.Map.{get, get-insert}
use grepmesh.Gptadmin.Receipts.{
  BrowserReceipt, Receipts, Admission, known, submit, receipt_changed, admission_unknown,
  capacity_reached, drop_old, refuses, admit_entry, admit, note_job, answer_of, give_job,
  is_task_id, receipt_ttl_ms, max_receipts,
}

-- An operation on the receipts: a call that asks for admission, or the note of a job.
pub data Operation : Type 0 where
  calling : ℕ → String → Option String → Operation
  noting : String → String → Operation

abbrev pub after_note : Receipts → Option Receipts → Receipts
after_note receipts none = receipts
after_note receipts (some noted) = noted

abbrev pub perform : Operation → Receipts → Receipts
perform (calling now id expected) receipts = (admit now id expected receipts).0
perform (noting id job_id) receipts = after_note receipts (note_job id job_id receipts)

abbrev pub is_submit : Admission → Bool
is_submit submit = true
is_submit _ = false

abbrev pub is_admitted_call : String → Operation → Receipts → Bool
is_admitted_call id (calling now other expected) receipts =
    (other == id) && is_submit (admit now other expected receipts).1
is_admitted_call id (noting other job_id) receipts = false

-- How many calls of a run are told, under the lock, to submit the task of an id. What such a call
-- sends to the Hub is not part of this: it sends the task once more if instructions are required.
unfoldable pub admitted_calls : String → List Operation → Receipts → ℕ
admitted_calls id [] receipts = 0
admitted_calls id (operation ∷ operations) receipts =
    (if is_admitted_call id operation receipts then 1 else 0)
    + admitted_calls id operations (perform operation receipts)

-- The clock of every call is within the life of a receipt from a time on.
abbrev pub Within : ℕ → List Operation → Type 0
Within start [] = Unit
Within start (calling now id expected ∷ operations) =
    ((start ≤ now) × (now < start + receipt_ttl_ms)) × Within start operations
Within start (noting id job_id ∷ operations) = Within start operations

-- A receipt that lives until a time.
pub record HasReceipt (id : String) (end : ℕ) (receipts : Receipts) : Type 0 where
  pub receipt : BrowserReceipt
  pub found : get id receipts ≡ some receipt
  pub lives : end ≤ receipt.created + receipt_ttl_ms

drop_old-get :
    (now : ℕ) (id : String) (entry : BrowserReceipt) (receipts : Receipts)
    → get id receipts ≡ some entry
    → now < entry.created + receipt_ttl_ms
    → get id (drop_old now receipts) ≡ some entry
unfolding drop_old get
drop_old-get now id entry [] e lt = absurd (cc)
drop_old-get now id entry ((other, first) ∷ receipts) e lt = elim (Bool-cases (id == other)) [
  | inl c ↦
      let same : first ≡ entry = ground arith in
      let young : ltb (now - first.created) receipt_ttl_ms ≡ true =
        subst (λ r. ltb (now - r.created) receipt_ttl_ms ≡ true) (sym same) (ground arith) in
      rw (young, c) (ap some same)
  | inr c ↦
      let rest = drop_old-get now id entry receipts (ground arith) lt in
      elim (Bool-cases (ltb (now - first.created) receipt_ttl_ms)) [
        | inl y ↦ rw (y, c) rest
        | inr y ↦ rw y rest
      ]
]

admit_entry-get :
    (now : ℕ) (id other : String) (entry : Option BrowserReceipt) (receipts : Receipts)
    → (id == other) ≡ false
    → get id (admit_entry now other entry receipts).0 ≡ get id receipts
unfolding admit_entry
admit_entry-get now id other (some entry) receipts d = refl
admit_entry-get now id other none receipts d =
    ground (arith, get-insert other id (record { created = now; job_id = none }) receipts)

answer_of-not_submit : (job_id : Option String) → answer_of job_id ≢ submit
answer_of-not_submit none e = absurd (cc)
answer_of-not_submit (some job_id) e = absurd (cc)

-- While the receipt lives, a call for the id keeps it and submits nothing.
admit-own :
    (now : ℕ) (id : String) (expected : Option String) (end : ℕ) (receipts : Receipts)
    → now < end
    → HasReceipt id end receipts
    → HasReceipt id end (admit now id expected receipts).0
      × ((admit now id expected receipts).1 ≢ submit)
unfolding admit admit_entry
admit-own now id expected end receipts lt h =
    let at = drop_old-get now id h.receipt receipts h.found (omega (arith, h.lives)) in
    elim (Bool-cases (refuses expected (get id (drop_old now receipts)))) [
      | inl c ↦ rw c (record { receipt = h.receipt; found = at; lives = h.lives }, λ e. absurd (cc))
      | inr c ↦
          rw (c, at)
            (
              record { receipt = h.receipt; found = at; lives = h.lives },
              answer_of-not_submit h.receipt.job_id,
            )
    ]

-- What is left of a receipt by another id's admission.
admit-other :
    (now : ℕ) (id other : String) (expected : Option String) (end : ℕ) (receipts : Receipts)
    → now < end
    → (id == other) ≡ false
    → HasReceipt id end receipts
    → HasReceipt id end (admit now other expected receipts).0
unfolding admit
admit-other now id other expected end receipts lt d h =
    let recent = drop_old now receipts in
    let at = drop_old-get now id h.receipt receipts h.found (omega (arith, h.lives)) in
    elim (Bool-cases (refuses expected (get other recent))) [
      | inl c ↦ rw c (record { receipt = h.receipt; found = at; lives = h.lives })
      | inr c ↦ rw c (record {
        receipt = h.receipt;
        found = admit_entry-get now id other (get other recent) recent d ∙ at;
        lives = h.lives;
      })
    ]

give_job-keeps :
    (id other job_id : String) (end : ℕ) (receipts : Receipts) (entry : Option BrowserReceipt)
    → get other receipts ≡ entry
    → HasReceipt id end receipts
    → HasReceipt id end (after_note receipts (give_job other job_id entry receipts))
unfolding give_job
give_job-keeps id other job_id end receipts none e h = h
give_job-keeps id other job_id end receipts (some entry) e h =
    let noted : BrowserReceipt = record entry { job_id = some job_id } in
    elim (Bool-cases (id == other)) [
      | inl c ↦
          let same : id ≡ other = ground (arith, ==_iff id other) in
          let own : some h.receipt ≡ some entry = sym h.found ∙ ap (λ k. get k receipts) same ∙ e in
          let at : h.receipt ≡ entry = cc in
          record {
            receipt = noted;
            found = get-insert other id noted receipts ∙ rw c refl;
            lives = subst (λ r. end ≤ r.created + receipt_ttl_ms) at h.lives;
          }
      | inr c ↦ record {
        receipt = h.receipt;
        found = get-insert other id noted receipts ∙ rw c h.found;
        lives = h.lives;
      }
    ]

note_job-keeps :
    (id other job_id : String) (end : ℕ) (receipts : Receipts)
    → HasReceipt id end receipts
    → HasReceipt id end (after_note receipts (note_job other job_id receipts))
unfolding note_job
note_job-keeps id other job_id end receipts h = elim (Bool-cases (is_task_id job_id)) [
  | inl c ↦ rw c (give_job-keeps id other job_id end receipts (get other receipts) refl h)
  | inr c ↦ rw c h
]

abbrev choice : Bool → Receipts × Admission → Receipts × Admission → Receipts × Admission
choice b x y = if b then x else y

if_submit :
    (b : Bool) (x y : Receipts × Admission) → b ≡ true → x.1 ≢ submit → (choice b x y).1 ≢ submit
if_submit b x y c n e = n (subst (λ (d : Bool). (choice d x y).1 ≡ submit) c e)

admit_entry-creates :
    (now : ℕ) (id : String) (entry : Option BrowserReceipt) (receipts : Receipts)
    → (admit_entry now id entry receipts).1 ≡ submit
    → get id (admit_entry now id entry receipts).0 ≡ some (record { created = now; job_id = none })
unfolding admit_entry
admit_entry-creates now id (some entry) receipts e = absurd (answer_of-not_submit entry.job_id e)
admit_entry-creates now id none receipts e =
    elim (Bool-cases (leb max_receipts (length receipts))) [
      | inl c ↦ absurd (
          if_submit (leb max_receipts (length receipts)) (receipts, capacity_reached) _ c
            (λ n. absurd (cc)) e)
      | inr c ↦ rw c (
          get-insert id id (record { created = now; job_id = none }) receipts
          ∙ ground (arith, ==_iff id id))
    ]

admit-creates :
    (now : ℕ) (id : String) (expected : Option String) (receipts : Receipts)
    → (admit now id expected receipts).1 ≡ submit
    → get id (admit now id expected receipts).0 ≡ some (record { created = now; job_id = none })
unfolding admit
admit-creates now id expected receipts e =
    let recent = drop_old now receipts in
    elim (Bool-cases (refuses expected (get id recent))) [
      | inl c ↦ absurd (
          if_submit (refuses expected (get id recent)) (recent, receipt_changed) _ c
            (λ n. absurd (cc)) e)
      | inr c ↦ rw c (
          admit_entry-creates now id (get id recent) recent (
            subst
              (λ (b : Bool).
                (choice b (recent, receipt_changed) (admit_entry now id (get id recent) recent)).1
                ≡ submit)
              c e))
    ]

is_submit-not : (a : Admission) → a ≢ submit → is_submit a ≡ false
is_submit-not submit n = absurd (n refl)
is_submit-not (known job_id) n = refl
is_submit-not receipt_changed n = refl
is_submit-not admission_unknown n = refl
is_submit-not capacity_reached n = refl

is_submit-eq : (a : Admission) → is_submit a ≡ true → a ≡ submit
is_submit-eq submit e = refl
is_submit-eq (known job_id) e = absurd (cc)
is_submit-eq receipt_changed e = absurd (cc)
is_submit-eq admission_unknown e = absurd (cc)
is_submit-eq capacity_reached e = absurd (cc)

-- While its receipt lives, nothing is submitted for an id.
admitted_calls-none :
    (id : String) (start : ℕ) (operations : List Operation) (receipts : Receipts)
    → Within start operations
    → HasReceipt id (start + receipt_ttl_ms) receipts
    → admitted_calls id operations receipts ≡ 0
unfolding admitted_calls
admitted_calls-none id start [] receipts w h = refl
admitted_calls-none id start (noting other job_id ∷ operations) receipts w h = omega (
  arith,
  admitted_calls-none id start operations (perform (noting other job_id) receipts) w
      (note_job-keeps id other job_id (start + receipt_ttl_ms) receipts h),
)
admitted_calls-none id start (calling now other expected ∷ operations) receipts ((ge, lt), w) h =
    let next = (admit now other expected receipts).0 in
    elim (Bool-cases (other == id)) [
      | inl c ↦
          let same : id ≡ other = ground (arith, ==_iff other id) in
          let own =
            admit-own now other expected (start + receipt_ttl_ms) receipts lt
              (subst (λ k. HasReceipt k (start + receipt_ttl_ms) receipts) same h) in
          let rest =
            admitted_calls-none id start operations next w
              (subst (λ k. HasReceipt k (start + receipt_ttl_ms) next) (sym same) own.0) in
          rw (c, is_submit-not (admit now other expected receipts).1 own.1, rest) refl
      | inr c ↦
          let apart : (id == other) ≡ false = ground (arith, ==_iff other id, ==_iff id other) in
          let kept =
            admit-other now id other expected (start + receipt_ttl_ms) receipts lt apart h in
          rw (c, admitted_calls-none id start operations next w kept) refl
    ]

-- From any receipts, whatever calls and notes of jobs follow in whatever order, the decision under the
-- lock tells at most one call with an id to submit its task, if all calls are made within the life of
-- a receipt from the start on.
pub admitted_calls-once :
    (id : String) (start : ℕ) (operations : List Operation) (receipts : Receipts)
    → Within start operations
    → admitted_calls id operations receipts ≤ 1
unfolding admitted_calls
admitted_calls-once id start [] receipts w = omega arith
admitted_calls-once id start (noting other job_id ∷ operations) receipts w =
    omega
      (arith, admitted_calls-once id start operations (perform (noting other job_id) receipts) w)
admitted_calls-once id start (calling now other expected ∷ operations) receipts ((ge, lt), w) =
    let next = (admit now other expected receipts).0 in
    elim (Bool-cases ((other == id) && is_submit (admit now other expected receipts).1)) [
      | inr c ↦ rw c (omega (arith, admitted_calls-once id start operations next w))
      | inl c ↦
          let same : other ≡ id = ground (arith, ==_iff other id) in
          let sends : (admit now other expected receipts).1 ≡ submit =
            is_submit-eq (admit now other expected receipts).1 (ground arith) in
          let made : get id next ≡ some (record { created = now; job_id = none }) =
            ap (λ k. get k next) (sym same) ∙ admit-creates now other expected receipts sends in
          let rest = admitted_calls-none id start operations next w (record {
            receipt = record { created = now; job_id = none };
            found = made;
            lives = omega arith;
          }) in
          rw (c, rest) (omega arith)
    ]
