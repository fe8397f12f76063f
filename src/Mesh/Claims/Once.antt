-- ===== src/Mesh/Claims/Once.antt =====
-- Replays of a request, and the size of the table of claims.
use grepmesh.Prelude.{
  ℕ, ◌-◌, ◌≤◌, ◌<◌, ◌≡◌, ◌+◌, refl, sym, ap, ◌∙◌, true, false, some, String, List, [], ◌∷◌, All,
  ◌==◌, length, ltb, leb, string_ord, arith, Bool-cases, Option-cases, inl, inr, ==_iff, ==_refl,
  length-retain-le,
}
use grepmesh.Prelude.Map
use grepmesh.Prelude.Map.{
  BTreeMap, get-insert, length-insert-le, length-remove-lt, oldest-contains, oldest-eq-none,
}
use grepmesh.Mesh.Claims.{claim_window_ms, max_claims, recent_claims, make_room, claim_request}

claim_accepted :
    (now : ℕ) (id : String) (seen : BTreeMap String ℕ)
    → (claim_request now id seen).1 ≡ true
    → (claim_request now id seen).0 ≡ Map.insert id now (make_room (recent_claims now seen))
unfolding claim_request
claim_accepted now id seen h = ground arith

get_recent :
    (now at : ℕ) (id : String) (seen : BTreeMap String ℕ)
    → Map.get id seen ≡ some at
    → now - at < claim_window_ms
    → Map.get id (recent_claims now seen) ≡ some at
unfolding recent_claims Map.get
get_recent now at id [] h young = absurd (cc)
get_recent now at id ((k, v) ∷ rest) h young =
    ground (arith, get_recent now at id rest, ==_iff id k)

recent-fewer : (now : ℕ) (seen : BTreeMap String ℕ) → length (recent_claims now seen) ≤ length seen
unfolding recent_claims
recent-fewer now seen = length-retain-le (λ (e : String × ℕ). ltb (now - e.1) claim_window_ms) seen

make_room_id : (seen : BTreeMap String ℕ) → length seen < max_claims → make_room seen ≡ seen
unfolding make_room
make_room_id seen h = ground arith

contains-get :
    (id : String) (at : ℕ) (seen : BTreeMap String ℕ)
    → Map.get id seen ≡ some at
    → Map.contains_key id seen ≡ true
unfolding Map.get Map.contains_key
contains-get id at [] h = absurd (cc)
contains-get id at ((k, v) ∷ rest) h = ground (arith, contains-get id at rest)

apart_of :
    (id other : String) (at : ℕ) (seen : BTreeMap String ℕ)
    → Map.get id seen ≡ some at
    → Map.contains_key other seen ≡ false
    → (id == other) ≡ false
apart_of id other at seen h new =
    let here = contains-get id at seen h in
    elim (Bool-cases (id == other)) [
      | inr c ↦ c
      | inl c ↦
          let same : id ≡ other = (==_iff id other).0 c in
          let there : Map.contains_key other seen ≡ true =
            ap (λ k. Map.contains_key k seen) (sym same) ∙ here in
          absurd (cc)
    ]

-- What another claim leaves, while the table is not full.
claim_request_keeps :
    (now at : ℕ) (id other : String) (seen : BTreeMap String ℕ)
    → Map.get id seen ≡ some at
    → now - at < claim_window_ms
    → length seen < max_claims
    → (Map.get id (claim_request now other seen).0 ≡ some at)
      × (length (claim_request now other seen).0 ≤ length seen + 1)
unfolding claim_request
claim_request_keeps now at id other seen h young room =
    let kept = get_recent now at id seen h young in
    let fewer = recent-fewer now seen in
    elim (Bool-cases (Map.contains_key other (recent_claims now seen))) [
      | inl known ↦ rw known (kept, omega arith)
      | inr new ↦
          let free = make_room_id (recent_claims now seen) (omega arith) in
          let apart : (id == other) ≡ false =
            apart_of id other at (recent_claims now seen) kept new in
          rw (new, free)
            (
              get-insert other id now (recent_claims now seen) ∙ rw apart kept,
              omega (arith, length-insert-le other now (recent_claims now seen)),
            )
    ]

-- The table after some claims, each at its time.
unfoldable pub claim_all : List (ℕ × String) → BTreeMap String ℕ → BTreeMap String ℕ
claim_all [] seen = seen
claim_all ((now, id) ∷ claims) seen = claim_all claims (claim_request now id seen).0

still_refused :
    (at later : ℕ) (id : String) (claims : List (ℕ × String)) (seen : BTreeMap String ℕ)
    → Map.get id seen ≡ some at
    → All (λ (claim : ℕ × String). claim.0 - at < claim_window_ms) claims
    → length seen + length claims ≤ max_claims
    → later - at < claim_window_ms
    → (claim_request later id (claim_all claims seen)).1 ≡ false
unfolding claim_all claim_request
still_refused at later id [] seen h times room young =
    let again =
      contains-get id at (recent_claims later seen) (get_recent later at id seen h young) in
    ground arith
still_refused at later id ((now, other) ∷ claims) seen h (first, times) room young =
    let kept = claim_request_keeps now at id other seen h first (omega arith) in
    still_refused at later id claims (claim_request now other seen).0 kept.0 times
      (omega (arith, kept.1)) young

-- A request id that was accepted is refused at any time within the next minute, whatever claims are
-- made in between in that minute, as long as the ids in the table and these claims are together no
-- more than 4096 (with more of them the id may be dropped to make room).
pub claim_request_once :
    (now later : ℕ) (id : String) (claims : List (ℕ × String)) (seen : BTreeMap String ℕ)
    → (claim_request now id seen).1 ≡ true
    → All (λ (claim : ℕ × String). claim.0 - now < claim_window_ms) claims
    → length (claim_request now id seen).0 + length claims ≤ max_claims
    → later - now < claim_window_ms
    → (claim_request later id (claim_all claims (claim_request now id seen).0)).1 ≡ false
claim_request_once now later id claims seen h times room young =
    let noted = claim_accepted now id seen h in
    let found : Map.get id (claim_request now id seen).0 ≡ some now =
      ap (Map.get id) noted
      ∙ get-insert id id now (make_room (recent_claims now seen))
      ∙ rw (==_refl id) refl in
    still_refused now later id claims (claim_request now id seen).0 found times room young

make_room-lt :
    (seen : BTreeMap String ℕ) → length seen ≤ max_claims → length (make_room seen) < max_claims
unfolding make_room
make_room-lt seen h = elim (Bool-cases (leb max_claims (length seen))) [
  | inl full ↦ elim (Option-cases (Map.oldest (λ (at : ℕ). at) seen)) [
    | inl gone ↦
        let empty = ap length (oldest-eq-none (λ (at : ℕ). at) seen gone) in absurd (ground arith)
    | inr (e, o) ↦
        let less = length-remove-lt e.0 seen (oldest-contains (λ (at : ℕ). at) seen e o) in
        rw (full, o) (omega arith)
  ]
  | inr room ↦ rw room (ground arith)
]

-- A table of at most `max_claims` ids has at most that many after any claim.
pub claim_request-few :
    (now : ℕ) (id : String) (seen : BTreeMap String ℕ)
    → length seen ≤ max_claims
    → length (claim_request now id seen).0 ≤ max_claims
unfolding claim_request recent_claims
claim_request-few now id seen h =
    let fewer = length-retain-le (λ (e : String × ℕ). ltb (now - e.1) claim_window_ms) seen in
    elim (Bool-cases (Map.contains_key id (recent_claims now seen))) [
      | inl known ↦ rw known (omega arith)
      | inr new ↦
          let room = make_room-lt (recent_claims now seen) (omega arith) in
          rw new (omega (arith, length-insert-le id now (make_room (recent_claims now seen))))
    ]
