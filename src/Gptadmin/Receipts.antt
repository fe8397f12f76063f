-- ===== src/Gptadmin/Receipts.antt =====
-- The receipts of `BrowserTaskClient` in src/gptadmin.rs: the admission of a task under the lock of
-- `call_with_expected_job`, and the note of its job id.
pub mod Once
use grepmesh.Prelude.{
  ℕ, ◌-◌, ◌*◌, Bool, true, false, ◌&&◌, ◌||◌, not, Option, none, some, String, List, [], ◌∷◌,
  length, ltb, leb, if◌then◌else◌, ◌==◌, string_ord, nat_ord, all, any,
}
use grepmesh.Prelude.Map.{BTreeMap, get, insert}
use grepmesh.Prelude.Text.{codes, is_ascii_alphanumeric}

abbrev pub receipt_ttl_ms : ℕ
receipt_ttl_ms = 3600 * 1000

abbrev pub max_receipts : ℕ
max_receipts = 4096

pub record BrowserReceipt : Type 0 where
  pub created : ℕ
  pub job_id : Option String

abbrev pub Receipts : Type 0
Receipts = BTreeMap String BrowserReceipt

pub data Admission : Type 0 where
  -- a task of the Hub that is known already
  known : String → Admission
  -- a receipt was made, and the task is to be submitted
  submit : Admission
  receipt_changed admission_unknown capacity_reached : Admission

-- `receipts.retain(|_, entry| entry.created.elapsed() < 3600 s)`
unfoldable pub drop_old : ℕ → Receipts → Receipts
drop_old now [] = []
drop_old now ((id, entry) ∷ receipts) =
    let rest = drop_old now receipts in
    if ltb (now - entry.created) receipt_ttl_ms then (id, entry) ∷ rest else rest

-- `receipts.get(id).and_then(|entry| entry.job_id) == Some(expected)`
abbrev pub is_expected : String → Option BrowserReceipt → Bool
is_expected expected none = false
is_expected expected (some entry) = elim entry.job_id [
  | none ↦ false
  | some job_id ↦ job_id == expected
]

abbrev pub refuses : Option String → Option BrowserReceipt → Bool
refuses none entry = false
refuses (some expected) entry = not (is_expected expected entry)

abbrev pub answer_of : Option String → Admission
answer_of none = admission_unknown
answer_of (some job_id) = known job_id

unfoldable pub admit_entry : ℕ → String → Option BrowserReceipt → Receipts → Receipts × Admission
admit_entry now id (some entry) receipts = (receipts, answer_of entry.job_id)
admit_entry now id none receipts =
    if leb max_receipts (length receipts)
    then (receipts, capacity_reached)
    else (insert id (record { created = now; job_id = none }) receipts, submit)

-- The decision under the lock; the time is that of the call.
unfoldable pub admit : ℕ → String → Option String → Receipts → Receipts × Admission
unfolding drop_old admit_entry
admit now id expected receipts =
    let recent = drop_old now receipts in
    if refuses expected (get id recent)
    then (recent, receipt_changed)
    else admit_entry now id (get id recent) recent

abbrev pub is_id_char : ℕ → Bool
is_id_char c = is_ascii_alphanumeric c || ((c == b'-') || (c == b'_'))

unfoldable pub is_task_id : String → Bool
unfolding is_ascii_alphanumeric
is_task_id job_id = leb (length (codes job_id)) 128 && all is_id_char (codes job_id)

-- The receipt of the call is given the id of its job; none is an error.
unfoldable pub give_job : String → String → Option BrowserReceipt → Receipts → Option Receipts
give_job id job_id none receipts = none
give_job id job_id (some entry) receipts =
    some (insert id (record entry { job_id = some job_id }) receipts)

unfoldable pub note_job : String → String → Receipts → Option Receipts
unfolding is_task_id give_job
note_job id job_id receipts =
    if is_task_id job_id then give_job id job_id (get id receipts) receipts else none
