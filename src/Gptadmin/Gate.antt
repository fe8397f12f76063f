-- ===== src/Gptadmin/Gate.antt =====
-- Refusals and errors in answers of the Hub, in src/gptadmin.rs: `InstructionGate`, `retry_context`,
-- `instruction_gate`, `instruction_refusal`, `relay_result`, `has_json_error`, `response_error_code`,
-- `response_error_details`, `retry_error_code` and `is_safe_error_code`. Texts of errors are data.
use grepmesh.Prelude.{
  ℕ, Bool, true, false, ◌&&◌, ◌||◌, not, Option, none, some, String, [], ◌∷◌, length, leb,
  if◌then◌else◌, ◌==◌, string_ord, nat_ord, all, any, is_empty, is_none,
}
use grepmesh.Prelude.Text.{codes, is_ascii_alphanumeric, is_whitespace}
use grepmesh.Gptadmin.Json.{
  Value, null, bool, number, string, get_field, pointer, as_str, as_bool, is_bool, is_text,
}

pub record InstructionGate : Type 0 where
  pub executed : Option Bool
  pub context : Option String
  pub profile : Option String
  pub instructions : Option String

pub data Error : Type 0 where
  executed_true executed_marker_missing context_missing : Error
  envelope_shape_unmatched missing_result : Error
  initial_transport retry_transport : Error
  child_failed : Option String → Error
  retry_failed : String → Option String × Option String → Error
  wrong_origin : Error

pub data Result {ℓ} (A : Type ℓ) : Type ℓ where
  ok : A → Result A
  err : Error → Result A

-- `context.trim().is_empty()`
abbrev pub is_blank : String → Bool
is_blank text = all is_whitespace (codes text)

unfoldable pub context_of : Option Bool → Option String → Result String
unfolding is_whitespace
context_of none context = err executed_marker_missing
context_of (some true) context = err executed_true
context_of (some false) none = err context_missing
context_of (some false) (some context) =
    if is_blank context then err context_missing else ok context

unfoldable pub retry_context : InstructionGate → Result String
unfolding context_of
retry_context gate = context_of gate.executed gate.context

unfoldable pub gate_of : Value → InstructionGate
unfolding get_field
gate_of content = record {
  executed = as_bool (get_field "executed" content);
  context = as_str (get_field "context" content);
  profile = as_str (get_field "profile" content);
  instructions = as_str (get_field "instructions" content);
}

unfoldable pub refusal_of : Option Value → Option InstructionGate
unfolding gate_of pointer
refusal_of none = none
refusal_of (some content) =
    if is_text "instructions_required" (pointer ("error" ∷ "code" ∷ []) content)
    then some (gate_of content)
    else none

unfoldable pub instruction_refusal : Value → Option InstructionGate
unfolding refusal_of pointer
instruction_refusal response = refusal_of (pointer ("result" ∷ "structuredContent" ∷ []) response)

unfoldable pub instruction_gate : Value → Option InstructionGate
unfolding instruction_refusal pointer
instruction_gate response =
    if not (is_bool true (pointer ("result" ∷ "isError" ∷ []) response))
    then none
    else if not
        (is_text "failed" (pointer ("result" ∷ "structuredContent" ∷ "status" ∷ []) response))
    then none
    else instruction_refusal response

-- A present but null or false `error` field is not a failure.
abbrev pub has_json_error : Option Value → Bool
has_json_error none = false
has_json_error (some null) = false
has_json_error (some (bool b)) = b
has_json_error (some _) = true

abbrev pub is_code_char : ℕ → Bool
is_code_char c = is_ascii_alphanumeric c || any (λ d. c == d) (b'.' ∷ b'_' ∷ b'-' ∷ [])

-- A text of code characters has one byte for each, so its length in characters is that in bytes.
unfoldable pub is_safe_error_code : String → Bool
unfolding is_ascii_alphanumeric
is_safe_error_code code =
    not (is_empty (codes code)) && (leb (length (codes code)) 80 && all is_code_char (codes code))

abbrev pub safe_text : Option String → Option String
safe_text none = none
safe_text (some text) = if is_safe_error_code text then some text else none

abbrev pub code_text : Option Value → Option String
code_text (some (string text)) = some text
code_text (some (number text)) = some text
code_text _ = none

abbrev pub or_else {ℓ} : {A : Type ℓ} → Option A → Option A → Option A
or_else none other = other
or_else (some a) other = some a

unfoldable pub response_error_code : Value → Option String
unfolding is_safe_error_code pointer
response_error_code body =
    or_else
      (safe_text (as_str (pointer ("result" ∷ "structuredContent" ∷ "error" ∷ "code" ∷ []) body)))
      (safe_text (code_text (pointer ("error" ∷ "code" ∷ []) body)))

unfoldable pub relay_result : Value → Result Value
unfolding response_error_code get_field pointer
relay_result body =
    if has_json_error (get_field "error" body)
      || (has_json_error (pointer ("result" ∷ "error" ∷ []) body)
          || is_bool true (pointer ("result" ∷ "isError" ∷ []) body))
    then err (child_failed (response_error_code body))
    else elim (get_field "result" body) [ none ↦ err missing_result | some result ↦ ok result ]

unfoldable pub retry_error_code : Value → String
unfolding response_error_code get_field
retry_error_code body = elim (response_error_code body) [
  | some code ↦ code
  | none ↦ if is_none (get_field "result" body) then "missing_result" else "child_call_failed"
]

-- The status and the message, in place of the text made of them.
unfoldable pub response_error_details : Value → Option String × Option String
unfolding pointer
response_error_details body = (
  as_str (pointer ("result" ∷ "structuredContent" ∷ "status" ∷ []) body),
  or_else (as_str (pointer ("result" ∷ "structuredContent" ∷ "error" ∷ "message" ∷ []) body))
      (as_str (pointer ("error" ∷ "message" ∷ []) body)),
)
