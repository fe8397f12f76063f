-- ===== src/Lib.antt =====
-- GrepMesh: a mesh of hosts that search their files for each other. A search is a background job
-- (src/jobs.rs): it is started for some hosts, each host's answer is merged into it, clients poll it
-- page by page, it expires, and it can be kept on disk. The mesh service (src/mcp.rs) decides which
-- hosts are asked, refuses replayed requests, checks the read ACL of a request and joins the answers
-- of several hosts. Ranked search (src/ranked.rs) shows passages of files. The OCR compute worker
-- (src/compute.rs, src/compute_load.rs, src/compute_ratings.rs) takes jobs when the machine has room,
-- keeps their results for a retry and their times for a rating. src/userio.rs writes conversations to
-- files. The index (src/index.rs) keeps the text of files in SQLite with a cache of extractions, watches
-- which directories are busy, and has a ledger of the images that are still to be recognised; the queue
-- of that work is in src/ocr.rs. The connector of GPTAdmin (src/gptadmin.rs) calls other hosts through
-- a Hub and learns from it which hosts there are. src/backend.rs reads parts of files for clients.
--
-- Which file models which part:
--   Backend/Hosts, Backend/Hits    PerHostStatus, HostSearchState, SearchHit, MatchLine (backend.rs)
--   Index/State                    the tables and triggers of PersistentIndex
--   Index/Documents                replace_indexed_document_with_mode, cached_body,
--                                  remove_document_with_empty, prune_except, clear
--   Index/Compact                  compact_duplicate_cache_bodies_batch
--   Index/Ledger                   load_pending_ocr, defer_ocr, ack_pending_ocr, set_ocr_overflow,
--                                  record_ocr_failures, ocr_failure_count, ocr_terminal_empty
--   Index/Activity                 ordered_roots, activity_bucket, load_activity_guard_at,
--                                  save_activity_guard, ensure_isolated_activity_root
--   Index/Activity/Quiet           activity_root_quiet_deadline
--   Index/Activity/Events          the counting of an event in reconcile_event_paths
--   Ocr/Queue, Ocr/Retry           OcrEngine: defer_path, forget_deferred, clear_overflow_if_drained,
--                                  take_retry_paths_excluding, metadata_retry_paths
--   Backend/Read                   read_text, normalize_absolute_path_any
--   Backend/Roots                  selected_roots, default_search_roots
--   Gptadmin/Json                  serde_json::Value with get and pointer
--   Gptadmin/Gate                  InstructionGate, instruction_gate, instruction_refusal,
--                                  relay_result, response_error_code, response_error_details
--   Gptadmin/Relay                 call_relay_inner
--   Gptadmin/Receipts              the receipts of BrowserTaskClient in call_with_expected_job
--   Gptadmin/Topology              parse_topology_response
--   Jobs/State                     SearchJob, PersistedSearchJob, from_job, into_job
--   Jobs/Merge                     merge_result
--   Jobs/Store                     JobPersistence, persist, load, delete_artifact, cleanup_artifacts,
--                                  enforce_store_budget, artifact_path
--   Jobs/Table                     SearchJobs and prune
--   Jobs/Status                    status_inner, status, snapshot
--   Jobs/Telemetry                 the search history: complete_telemetry, trim_telemetry, telemetry
--   Jobs/Run                       start_internal, the end of a host's task, is_running
--   Mesh/Acl, Mesh/Paths           FilesystemAcl, and the paths of std::path that it needs
--   Mesh/Claims                    claim_request
--   Mesh/Hosts                     unique_hosts, hop_count_for, dedup_hits
--   Mesh/Join                      join_hosts_with_timeout
--   Mesh/Compact                   compact_search_results
--   Ranked/Lines, Ranked/Scope     is_definition_line, markdown_heading_level, structural_scope,
--                                  function_scope_end
--   Ranked/Passage, Ranked/Window  bounded_passage_bounds, best_passage_window
--   Compute/Retained               RetainedResults
--   Compute/Ratings                Ratings
--   Compute/Admission              admission, gpu_admission, eligibility_error, HostLoad::admission
--   Compute/Observe                observe
--   Userio/Budget, Userio/Base64   budget_tail, budget_head, base64_decode
--   Userio/Names                   sanitize_component, truncate_chars
--   Userio/Dates                   civil_from_days, for days from 1970 on, and its code after the first
--                                  line, for days from the 1st of March of the year 0 on
-- Prelude holds the lists, maps, sets, orders and texts that they share.
--
-- How the code is read. A method on a shared table is a function from the old table to the new one and
-- its result; the lock makes each such call one step, and what several tasks do is a list of steps in
-- some order. An error is a value, and what was done before it stays done. A clock is an argument:
-- `now` and `later` where a function reads it twice. BTreeMap is an association list in the order of
-- its keys, a BTreeSet whose order is not observed a list of keys. The disk is the list of its readable
-- artifacts; serde_json is a function from a record to the length of its text. `f64` is a type
-- parameter with the operations that the code calls. SQLite runs the statements that the source spells
-- out: a table is an ordered map, a transaction that fails leaves the index as it was, and the rowid
-- of a new FTS row is a parameter that no other row has. Paths of the index are their displayed text,
-- those of the activity guard and of the roots the list of their components, those that are read the
-- list of their characters. Random handles are arguments. Sums of lengths and clocks in range of 64
-- bits are not cut off; where the code saturates or wraps on purpose, it is written out.
--
-- Loops on fuel: `shed` has as fuel the number of entries, `shrink` the number of results, the loops of
-- `bounded_passage_bounds` the number of lines, `grow` the lines that fit a window, `scan_starts` the
-- lines of the file, `read_loop` two more than the bytes of the file, the walk of an isolated root one
-- directory for each entry that it may visit. Each round takes one of them away; the theorems on these
-- functions are stated of the functions with their fuel and say what holds in the end.
--
-- Not modelled: HTTP, tokio's tasks and channels, SQLite, the walk of the index and its watcher, OCR and
-- speech engines, the console, the web page, scripts and deployment. src/topology.rs re-exports a crate
-- that is not part of this repository.
mod Prelude
pub mod Backend
pub mod Compute
pub mod Gptadmin
pub mod Index
pub mod Jobs
pub mod Mesh
pub mod Ocr
pub mod Ranked
pub mod Userio
