-- ===== src/Mesh/Join/Partial.antt =====
-- What the joined answer says of the hosts.
use grepmesh.Prelude.{
  ◌≡◌, refl, sym, ap, ◌∙◌, Bool, true, false, not, ◌||◌, List, [], ◌∷◌, ◌++◌, String, map, any,
  is_empty, remove_key, contains, contains-remove_key, contains-collect, string_ord, arith, All,
  All-append, Bool-cases, List-cases, inl, inr, ◌⊎◌, ◌==◌, ==_iff,
}
use mathlib.Core.List.{Memᴰ}
use grepmesh.Backend.Hosts.{PerHostStatus, failed_status}
use grepmesh.Mesh.Join.{
  HostReply, Reply, replied, refused, Event, answered, exhausted, Joined, reply_statuses,
  note_answer, time_out, join_loop, join_hosts,
}

abbrev pub IsOk : PerHostStatus → Type 0
IsOk s = s.is_ok ≡ true

statuses_fine :
    (ss : List PerHostStatus) → any (λ (h : PerHostStatus). not h.is_ok) ss ≡ false → All IsOk ss
statuses_fine [] h = tt
statuses_fine (s ∷ ss) h = (ground arith, statuses_fine ss (ground arith))

abbrev late : String → PerHostStatus
late host = failed_status host "overall timeout"

Mem-late :
    (host : String) (ss : List PerHostStatus) (hosts : List String)
    → contains host hosts ≡ true
    → Memᴰ (late host) (ss ++ map late hosts)
unfolding contains
Mem-late host [] [] h = absurd (cc)
Mem-late host [] (p ∷ ps) h = elim (Bool-cases (host == p)) [
  | inl e ↦ Memᴰ.head (ap late ((==_iff host p).0 e))
  | inr e ↦ Memᴰ.tail (Mem-late host [] ps (ground arith))
]
Mem-late host (s ∷ ss) hosts h = Memᴰ.tail (Mem-late host ss hosts h)

contains-busy :
    (host : String) (hosts : List String) → contains host hosts ≡ true → is_empty hosts ≡ false
unfolding contains
contains-busy host [] h = cc
contains-busy host (p ∷ ps) h = refl

module _ {ℓ} {A : Type ℓ} where
  reply_statuses-IsOk :
      (host : String) (r : HostReply A)
      → (r.partial || any (λ (h : PerHostStatus). not h.is_ok) r.statuses) ≡ false
      → All IsOk (reply_statuses host r)
  unfolding reply_statuses
  reply_statuses-IsOk host r h = elim (List-cases r.statuses) [
    | inl e ↦ let full : r.partial ≡ false = ground arith in rw (e, full) (refl, tt)
    | inr (s, ss, e) ↦
        let good : any (λ (h : PerHostStatus). not h.is_ok) r.statuses ≡ false = ground arith in
        rw e (statuses_fine (s ∷ ss) (ap (any (λ (h : PerHostStatus). not h.is_ok)) (sym e) ∙ good))
  ]

  -- An answer that is not partial has no failed status.
  abbrev Honest : Joined A → Type 0
  Honest s = s.partial ≡ false → All IsOk s.statuses

  note_answer-Honest :
      (host : String) (reply : Reply A) (s : Joined A)
      → Honest s
      → Honest (note_answer host reply s)
  unfolding note_answer
  note_answer-Honest host (replied r) s h full =
      All-append IsOk s.statuses (reply_statuses host r) (h (ground arith))
        (reply_statuses-IsOk host r (ground arith))
  note_answer-Honest host (refused error) s h full = absurd (cc)

  join_loop-Honest :
      (events : List (Event A)) (s : Joined A) → Honest s → Honest (join_loop events s)
  unfolding join_loop time_out
  join_loop-Honest [] s h = elim (Bool-cases (is_empty s.pending_hosts)) [
    | inl e ↦ rw e h
    | inr e ↦ rw e (λ full. absurd (cc))
  ]
  join_loop-Honest (exhausted ∷ rest) s h = h
  join_loop-Honest (answered host reply ∷ rest) s h = elim (Bool-cases (is_empty s.pending_hosts)) [
    | inl e ↦ rw e h
    | inr e ↦
        rw e (join_loop-Honest rest (note_answer host reply s) (note_answer-Honest host reply s h))
  ]

  -- A joined answer that is not marked as partial holds no status that is not ok, in whatever
  -- order the hosts answer and whichever of them are late.
  pub join_hosts-Honest :
      (targets : List String) (events : List (Event A))
      → (join_hosts targets events).partial ≡ false
      → All IsOk (join_hosts targets events).statuses
  unfolding join_hosts
  join_hosts-Honest targets events = join_loop-Honest events _ (λ _. tt)

  -- The hosts that answer before the stream of futures ends.
  abbrev pub answers : List (Event A) → List String
  answers [] = []
  answers (exhausted ∷ rest) = []
  answers (answered host reply ∷ rest) = host ∷ answers rest

  abbrev pub has_end : List (Event A) → Bool
  has_end [] = false
  has_end (exhausted ∷ rest) = true
  has_end (answered host reply ∷ rest) = has_end rest

  pending_after :
      (host other : String) (reply : Reply A) (s : Joined A)
      → (note_answer other reply s).pending_hosts ≡ remove_key other s.pending_hosts
  unfolding note_answer
  pending_after host other (replied r) s = refl
  pending_after host other (refused error) s = refl

  Accounted : String → List (Event A) → Joined A → Type 0
  Accounted host events s = (contains host (answers events) ≡ true) ⊎ Memᴰ (late host) s.statuses

  join_loop-Accounted :
      (host : String) (events : List (Event A)) (s : Joined A)
      → contains host s.pending_hosts ≡ true
      → has_end events ≡ false
      → Accounted host events (join_loop events s)
  unfolding join_loop time_out contains Accounted
  join_loop-Accounted host [] s h more =
      rw (contains-busy host s.pending_hosts h) (inr (Mem-late host s.statuses s.pending_hosts h))
  join_loop-Accounted host (exhausted ∷ rest) s h more = absurd (cc)
  join_loop-Accounted host (answered other reply ∷ rest) s h more =
      rw (contains-busy host s.pending_hosts h) (elim (Bool-cases (host == other)) [
        | inl same ↦ inl (ground arith)
        | inr differs ↦
            let waits =
              ap (contains host) (pending_after host other reply s)
              ∙ contains-remove_key host other s.pending_hosts in
            elim (join_loop-Accounted host rest (note_answer other reply s) (ground arith) more) [
              | inl answered_later ↦ inl (ground arith)
              | inr failed ↦ inr failed
            ]
      ])

  -- No host is forgotten: unless the stream of futures ends first, every target either answers
  -- before the deadline or is reported as failed with a timeout.
  pub join_hosts-Accounted :
      (host : String) (targets : List String) (events : List (Event A))
      → contains host targets ≡ true
      → has_end events ≡ false
      → (contains host (answers events) ≡ true)
        ⊎ Memᴰ (failed_status host "overall timeout") (join_hosts targets events).statuses
  unfolding join_hosts Accounted
  join_hosts-Accounted host targets events h more =
      join_loop-Accounted host events _ (contains-collect host targets ∙ h) more
