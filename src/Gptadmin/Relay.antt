-- ===== src/Gptadmin/Relay.antt =====
-- `call_relay_inner` of src/gptadmin.rs. `send` is `send_relay_call` for the one URL, tool and
-- arguments of the call: its argument is the context of `_meta`, and no answer is a transport error.
-- `same_origin` says that the URL is one of the Hub.
use grepmesh.Prelude.{
  ◌≡◌, refl, Bool, true, false, Option, none, some, String, List, [], ◌∷◌, if◌then◌else◌,
  string_ord, arith, Bool-cases, Option-cases, inl, inr, ap, ◌∙◌, ◌⊎◌, subst,
}
use grepmesh.Prelude.Text.{is_whitespace}
use grepmesh.Gptadmin.Json.{Value, get_field, pointer, is_bool, is_text, as_bool, as_str}
use grepmesh.Gptadmin.Gate.{
  InstructionGate, Error, Result, ok, err, context_of, retry_context, gate_of, instruction_gate,
  refusal_of, instruction_refusal, relay_result, retry_error_code, response_error_details, is_blank,
}

-- What was sent, in order, and the outcome.
pub record Call : Type 0 where
  pub sent : List (Option String)
  pub outcome : Result Value

-- the answer to the one repetition
unfoldable pub retry_outcome : Option Value → Result Value
unfolding relay_result retry_error_code response_error_details
retry_outcome none = err Error.retry_transport
retry_outcome (some retried) = elim (relay_result retried) [
  | ok result ↦ ok result
  | err error ↦ err (Error.retry_failed (retry_error_code retried) (response_error_details retried))
]

abbrev pub once : Result Value → Call
once outcome = record { sent = none ∷ []; outcome = outcome }

module _ (send : Option String → Option Value) where
  unfoldable pub repeat_with : Result String → Call
  unfolding retry_outcome
  repeat_with (err reason) = once (err reason)
  repeat_with (ok context) = record {
    sent = none ∷ some context ∷ [];
    outcome = retry_outcome (send (some context));
  }

  unfoldable pub answer_gate : Option InstructionGate → Value → Call
  unfolding instruction_refusal relay_result repeat_with retry_context
  answer_gate (some gate) body = repeat_with (retry_context gate)
  answer_gate none body = elim (instruction_refusal body) [
    | some refusal ↦ once (err Error.envelope_shape_unmatched)
    | none ↦ once (relay_result body)
  ]

  unfoldable pub answer : Option Value → Call
  unfolding instruction_gate answer_gate
  answer none = once (err Error.initial_transport)
  answer (some body) = answer_gate (instruction_gate body) body

  unfoldable pub call_relay_inner : Bool → Call
  unfolding answer
  call_relay_inner same_origin =
      if same_origin
      then answer (send none)
      else record { sent = []; outcome = err Error.wrong_origin }

-- The first answer proves that the call had no effect, and gives the context of a repetition.
pub record MayRepeat (body : Value) (context : String) : Type 0 where
  pub failed : is_bool true (pointer ("result" ∷ "isError" ∷ []) body) ≡ true
  pub content : Value
  pub inside : pointer ("result" ∷ "structuredContent" ∷ []) body ≡ some content
  pub refused : is_text "instructions_required" (pointer ("error" ∷ "code" ∷ []) content) ≡ true
  pub not_executed : as_bool (get_field "executed" content) ≡ some false
  pub given : as_str (get_field "context" content) ≡ some context
  pub not_blank : is_blank context ≡ false

Result-cases : {A : Type 0} (r : Result A) → ((a : A) × (r ≡ ok a)) ⊎ ((e : Error) × (r ≡ err e))
Result-cases (ok a) = inl (a, refl)
Result-cases (err e) = inr (e, refl)

-- A gate that gives a context says so itself.
context_of-ok :
    (executed : Option Bool) (given : Option String) (context : String)
    → context_of executed given ≡ ok context
    → (executed ≡ some false) × (given ≡ some context) × (is_blank context ≡ false)
unfolding context_of is_whitespace
context_of-ok none given context e = absurd (cc)
context_of-ok (some true) given context e = absurd (cc)
context_of-ok (some false) none context e = absurd (cc)
context_of-ok (some false) (some other) context e = elim (Bool-cases (is_blank other)) [
  | inl b ↦
      let clash : err Error.context_missing ≡ ok context =
        subst (λ c. (if c then err Error.context_missing else ok other) ≡ ok context) b e in
      absurd (cc)
  | inr b ↦
      let same : ok other ≡ ok context =
        subst (λ c. (if c then err Error.context_missing else ok other) ≡ ok context) b e in
      let at : other ≡ context = cc in (refl, ap some at, subst (λ t. is_blank t ≡ false) at b)
]

refusal_of-repeats :
    (body : Value) (content : Option Value) (gate : InstructionGate) (context : String)
    → pointer ("result" ∷ "structuredContent" ∷ []) body ≡ content
    → is_bool true (pointer ("result" ∷ "isError" ∷ []) body) ≡ true
    → refusal_of content ≡ some gate
    → retry_context gate ≡ ok context
    → MayRepeat body context
unfolding refusal_of retry_context gate_of
refusal_of-repeats body none gate context e f r c = absurd (cc)
refusal_of-repeats body (some content) gate context e f r c =
    let test = is_text "instructions_required" (pointer ("error" ∷ "code" ∷ []) content) in
    elim (Bool-cases test) [
      | inr n ↦
          let clash : ◌≡◌ {A = Option InstructionGate} none (some gate) =
            subst (λ b. (if b then some (gate_of content) else none) ≡ some gate) n r in
          absurd (cc)
      | inl y ↦
          let same : some (gate_of content) ≡ some gate =
            subst (λ b. (if b then some (gate_of content) else none) ≡ some gate) y r in
          let at : gate_of content ≡ gate = cc in
          let says = context_of-ok gate.executed gate.context context c in
          record {
            failed = f;
            content = content;
            inside = e;
            refused = y;
            not_executed = ap (λ (g : InstructionGate). g.executed) at ∙ says.0;
            given = ap (λ (g : InstructionGate). g.context) at ∙ says.1;
            not_blank = says.2;
          }
    ]

-- A gate is a refusal in a failed answer.
instruction_gate-refusal :
    (body : Value) (gate : InstructionGate)
    → instruction_gate body ≡ some gate
    → (is_bool true (pointer ("result" ∷ "isError" ∷ []) body) ≡ true)
      × (refusal_of (pointer ("result" ∷ "structuredContent" ∷ []) body) ≡ some gate)
unfolding instruction_gate instruction_refusal
instruction_gate-refusal body gate e = (ground (arith, e), ground (arith, e))

module _ (send : Option String → Option Value) where
  -- What is sent: nothing, one call, or one call and its repetition where that is harmless.
  pub data IsSent : List (Option String) → Type 0 where
    nothing : IsSent []
    one : IsSent (none ∷ [])
    two :
        (body : Value) (context : String)
        → send none ≡ some body
        → MayRepeat body context
        → IsSent (none ∷ some context ∷ [])

  repeat_with-IsSent :
      (body : Value) (r : Result String)
      → send none ≡ some body
      → ((context : String) → r ≡ ok context → MayRepeat body context)
      → IsSent (repeat_with send r).sent
  unfolding repeat_with
  repeat_with-IsSent body (err e) s may = one
  repeat_with-IsSent body (ok context) s may = two body context s (may context refl)

  answer_gate-IsSent :
      (body : Value) (gate : Option InstructionGate)
      → send none ≡ some body
      → instruction_gate body ≡ gate
      → IsSent (answer_gate send gate body).sent
  unfolding answer_gate
  answer_gate-IsSent body (some gate) s e =
      let refusal = instruction_gate-refusal body gate e in
      repeat_with-IsSent body (retry_context gate) s
        (λ context c. refusal_of-repeats body _ gate context refl refusal.0 refusal.1 c)
  answer_gate-IsSent body none s e = elim (Option-cases (instruction_refusal body)) [
    | inl n ↦ rw (answer_gate, n) one
    | inr (refusal, n) ↦ rw (answer_gate, n) one
  ]

  -- A call is sent at most twice. It is sent a second time only if the first answer is an error
  -- that says that instructions are required, that nothing was executed, and gives a context that
  -- is not blank; the repetition carries that context.
  pub call_relay_inner-IsSent :
      (same_origin : Bool) → IsSent (call_relay_inner send same_origin).sent
  unfolding call_relay_inner answer
  call_relay_inner-IsSent false = nothing
  call_relay_inner-IsSent true = elim (Option-cases (send none)) [
    | inl n ↦ rw n one
    | inr (body, n) ↦ rw n (answer_gate-IsSent body (instruction_gate body) n refl)
  ]
