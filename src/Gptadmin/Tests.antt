-- ===== src/Gptadmin/Tests.antt =====
-- Runs of the GPTAdmin connector on concrete data.
use grepmesh.Prelude.{
  ◌≤◌, ◌≡◌, refl, true, false, Option, none, some, String, List, [], ◌∷◌, string_ord, nat_ord,
  arith,
}
use grepmesh.Prelude.Map
use grepmesh.Prelude.Text.{is_whitespace, is_ascii_alphanumeric}
use grepmesh.Gptadmin.Json.{
  Value, bool, string, object, closed, field, find_field, get_field, pointer,
}
use grepmesh.Gptadmin.Gate.{
  ok, context_of, retry_context, gate_of, refusal_of, instruction_refusal, instruction_gate,
  is_safe_error_code, response_error_code, relay_result, retry_error_code, response_error_details,
}
use grepmesh.Gptadmin.Relay.{
  retry_outcome, repeat_with, answer_gate, answer, call_relay_inner, IsSent,
  call_relay_inner-IsSent,
}
use grepmesh.Gptadmin.Receipts.{drop_old, admit_entry, admit, is_task_id, give_job, note_job}
use grepmesh.Gptadmin.Receipts.Once.{
  Operation, calling, noting, admitted_calls, admitted_calls-once,
}
use grepmesh.Gptadmin.Topology.{
  TopologyNodeWire, ProviderSnapshot, max_generation, peer_of, peers_of, parse_topology_response,
}
use grepmesh.Gptadmin.Topology.Snapshot.{IsSnapshot, parse_topology_response-IsSnapshot}

connector : Unit {0}
unfolding Map.get Map.insert string_ord is_whitespace is_ascii_alphanumeric find_field get_field
    pointer context_of retry_context gate_of refusal_of instruction_refusal instruction_gate
    is_safe_error_code response_error_code relay_result retry_error_code response_error_details
    retry_outcome repeat_with answer_gate answer call_relay_inner drop_old admit_entry admit
    is_task_id give_job note_job admitted_calls max_generation peer_of peers_of
    parse_topology_response
connector = tt

abbrev refusal : Value
refusal = object (
    field "result"
      (object (
        field "isError" (bool true) (
          field "structuredContent"
            (object (
              field "status" (string "failed") (
                field "executed" (bool false) (
                  field "context" (string "c-1") (
                    field "error" (object (field "code" (string "instructions_required") closed))
                      closed)))))
            closed)))
      closed)

abbrev success : Value
success = object (field "result" (string "hits") closed)

abbrev hub : Option String → Option Value
hub none = some refusal
hub (some context) = some success

relay_run : (call_relay_inner hub true).sent ≡ none ∷ some "c-1" ∷ []
unfolding connector
relay_run = refl

relay_outcome : (call_relay_inner hub true).outcome ≡ ok (string "hits")
unfolding connector
relay_outcome = refl

call_relay_inner-IsSent_example : IsSent hub (call_relay_inner hub true).sent
call_relay_inner-IsSent_example = call_relay_inner-IsSent hub true

-- A task is submitted, asked for again, noted, and resumed.
abbrev operations : List Operation
operations =
    calling 1000 "t" none
    ∷ calling 2000 "t" none
    ∷ noting "t" "job-1"
    ∷ calling 3000 "t" (some "job-1")
    ∷ []

admitted_calls_run : admitted_calls "t" operations [] ≡ 1
unfolding connector
admitted_calls_run = refl

admitted_calls-once_example : admitted_calls "t" operations [] ≤ 1
admitted_calls-once_example =
    admitted_calls-once "t" 1000 operations []
      ((omega arith, omega arith), ((omega arith, omega arith), ((omega arith, omega arith), tt)))

abbrev nodes : List TopologyNodeWire
nodes =
    record {
      host_id = "a";
      local_url = none;
      peer_url = none;
      capabilities = [];
      roots = [];
      generation = 9;
    }
    ∷ record {
      host_id = "b";
      local_url = none;
      peer_url = some "http://b";
      capabilities = [];
      roots = "home" ∷ [];
      generation = 2;
    }
    ∷ []

abbrev snapshot : ProviderSnapshot
snapshot = record {
  local_host_id = "a";
  generation = 9;
  fetched_at_ms = 100;
  ttl_ms = 50;
  peers =
      record {
        host_id = "b";
        gptadmin_relay_url = none;
        local_url = "http://b";
        routable_url = "http://b";
        capabilities = [];
        roots = "home" ∷ [];
        generation = 9;
        fetched_at_ms = 100;
        expires_at_ms = 150;
        last_refresh_error = none;
      }
      ∷ [];
}

parse_topology_response-IsSnapshot_example : IsSnapshot nodes "a" 100 50 snapshot
unfolding connector
parse_topology_response-IsSnapshot_example =
    parse_topology_response-IsSnapshot (λ s. true) nodes "a" 100 50 snapshot refl
