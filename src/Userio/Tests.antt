-- ===== src/Userio/Tests.antt =====
-- Runs of the user I/O code on concrete data.
use grepmesh.Prelude.{
  some, none, arith, ◌+◌, ◌≤◌, ◌≡◌, refl, String, List, [], ◌∷◌, length, take, sum_by, ◌⊎◌,
}
use mathlib.Core.List.{reverse}
use grepmesh.Userio.Base64.{lookup_byte, decode_loop, base64_decode}
use grepmesh.Userio.Base64.Roundtrip.{digit, encode, base64_decode-encode}
use grepmesh.Prelude.Text.{codes, is_ascii_alphanumeric, is_ascii_digit}
use grepmesh.Userio.Names.{is_name_char, safe_char, pop_dots, sanitize_component}
use grepmesh.Userio.Names.Component.{IsFileName, sanitize_component-IsFileName}
use grepmesh.Userio.Dates.{civil_from_shifted, civil_from_days, days_after}
use grepmesh.Userio.Dates.Next.{civil_from_days-days_after}
use grepmesh.Userio.Budget.{block_size, tail_loop, budget_tail, budget_head}
use grepmesh.Userio.Budget.Split.{budget_tail_split}

abbrev blocks : List String
blocks = "first" ∷ "second" ∷ "third" ∷ []

two_stay : budget_tail blocks 13 ≡ 2
unfolding budget_tail tail_loop
two_stay = refl

budget_tail_split_example :
    (budget_tail blocks 13 + (budget_head blocks 13).0 ≡ length blocks)
    × ((sum_by block_size (take (budget_tail blocks 13) (reverse blocks)) ≤ 13)
        ⊎ (budget_tail blocks 13 ≤ 1))
budget_tail_split_example = budget_tail_split blocks 13

encoded : encode (77 ∷ 97 ∷ []) ≡ b'T' ∷ b'W' ∷ b'E' ∷ b'=' ∷ []
unfolding encode digit
encoded = refl

base64_decode-encode_example : base64_decode (encode (77 ∷ 97 ∷ [])) ≡ some (77 ∷ 97 ∷ [])
base64_decode-encode_example = base64_decode-encode (77 ∷ 97 ∷ []) (omega arith, (omega arith, tt))

broken_input : base64_decode (b'T' ∷ b'*' ∷ []) ≡ none
unfolding base64_decode decode_loop lookup_byte
broken_input = refl

sanitized : sanitize_component (codes "../a b.") ≡ codes ".._a_b"
unfolding sanitize_component pop_dots safe_char is_name_char is_ascii_alphanumeric is_ascii_digit
sanitized = refl

sanitize_component-IsFileName_example : IsFileName (sanitize_component (codes ".."))
sanitize_component-IsFileName_example = sanitize_component-IsFileName (codes "..")

epoch : civil_from_days 0 ≡ record { year = 1970; month = 1; day = 1 }
unfolding civil_from_days civil_from_shifted
epoch = refl

leap_day : civil_from_days 19782 ≡ record { year = 2024; month = 2; day = 29 }
unfolding civil_from_days civil_from_shifted
leap_day = refl

civil_from_days-days_after_example :
    (civil_from_shifted 366 ≡ days_after 366 (record { year = 0; month = 3; day = 1 }))
    × (civil_from_days 366 ≡ days_after 366 (record { year = 1970; month = 1; day = 1 }))
civil_from_days-days_after_example = civil_from_days-days_after 366
