-- ===== src/Userio/Names/Component.antt =====
-- What `sanitize_component` makes of any text.
use grepmesh.Prelude.{
  ℕ, zero, suc, ◌≤◌, ◌≡◌, ◌≢◌, refl, Bool, true, false, ◌&&◌, List, [], ◌∷◌, length, take, map,
  is_empty, ◌==◌, nat_ord, arith, All, Bool-cases, inl, inr, length-take,
}
use grepmesh.Userio.Names.{is_name_char, safe_char, pop_dots, sanitize_component}

pub ends_with_dot : List ℕ → Bool
ends_with_dot [] = false
ends_with_dot (c ∷ []) = c == b'.'
ends_with_dot (c ∷ d ∷ cs) = ends_with_dot (d ∷ cs)

-- A file name of one component: some characters of the safe ones, 96 at most, without a dot at the
-- end, so that it is neither `.` nor `..`.
pub record IsFileName (name : List ℕ) : Type 0 where
  pub some_char : name ≢ []
  pub short : length name ≤ 96
  pub safe : All (λ c. is_name_char c ≡ true) name
  pub no_dot : ends_with_dot name ≡ false

safe_char-safe : (c : ℕ) → is_name_char (safe_char c) ≡ true
unfolding safe_char is_name_char
safe_char-safe c = elim (Bool-cases (is_name_char c)) [
  | inl e ↦ rw (e, safe_char) e
  | inr e ↦ rw (e, safe_char) refl
]

take-safe : (n : ℕ) (raw : List ℕ) → All (λ c. is_name_char c ≡ true) (take n (map safe_char raw))
take-safe zero raw = tt
take-safe (suc n) [] = tt
take-safe (suc n) (c ∷ cs) = (safe_char-safe c, take-safe n cs)

record Popped (cs popped : List ℕ) : Type 0 where
  shorter : length popped ≤ length cs
  safe : All (λ c. is_name_char c ≡ true) popped
  no_dot : ends_with_dot popped ≡ false

ends_with_dot_cons :
    (c : ℕ) (rest : List ℕ)
    → (is_empty rest && (c == b'.')) ≡ false
    → ends_with_dot rest ≡ false
    → ends_with_dot (c ∷ rest) ≡ false
unfolding ends_with_dot
ends_with_dot_cons c [] h k = ground arith
ends_with_dot_cons c (d ∷ ds) h k = k

pop_dots-Popped : (cs : List ℕ) → All (λ c. is_name_char c ≡ true) cs → Popped cs (pop_dots cs)
unfolding pop_dots ends_with_dot
pop_dots-Popped [] h = record { shorter = omega arith; safe = tt; no_dot = refl }
pop_dots-Popped (c ∷ cs) h =
    let p = pop_dots-Popped cs h.1 in
    let shorter = p.shorter in
    elim (Bool-cases (is_empty (pop_dots cs) && (c == b'.'))) [
      | inl e ↦ rw (e, pop_dots) (record { shorter = omega arith; safe = tt; no_dot = refl })
      | inr e ↦
          rw (e, pop_dots)
            (record {
              shorter = omega arith;
              safe = (h.0, p.safe);
              no_dot = ends_with_dot_cons c (pop_dots cs) e p.no_dot;
            })
    ]

-- Whatever the text, its sanitized form has a character at least and 96 at most, all of them safe,
-- and it does not end with a dot.
pub sanitize_component-IsFileName : (raw : List ℕ) → IsFileName (sanitize_component raw)
unfolding sanitize_component ends_with_dot is_name_char
sanitize_component-IsFileName raw =
    let p = pop_dots-Popped (take 96 (map safe_char raw)) (take-safe 96 raw) in
    let cut = length-take 96 (map safe_char raw) in
    let shorter = p.shorter in
    elim (Bool-cases (is_empty (pop_dots (take 96 (map safe_char raw))))) [
      | inl e ↦
          rw (e, sanitize_component)
            (record {
              some_char = λ h. absurd (cc);
              short = omega arith;
              safe = (refl, tt);
              no_dot = refl;
            })
      | inr e ↦
          rw (e, sanitize_component)
            (record {
              some_char = λ h. ground arith;
              short = omega arith;
              safe = p.safe;
              no_dot = p.no_dot;
            })
    ]
