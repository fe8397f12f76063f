-- ===== src/Userio/Base64.antt =====
-- `base64_decode` of src/userio.rs. Bytes are numbers below 256; `buffer` is a `u32`, whose shift to
-- the left drops the high bits.
pub mod Roundtrip
use grepmesh.Prelude.{
  ℕ, ◌+◌, ◌-◌, ◌*◌, ◌/◌, ◌%◌, ◌^◌, Bool, true, false, ◌&&◌, ◌||◌, Option, none, some, List, [], ◌∷◌,
  ltb, leb, if◌then◌else◌, ◌==◌, nat_ord,
}

-- The entry of `lookup`, none for 255.
unfoldable pub lookup_byte : ℕ → Option ℕ
lookup_byte c =
    if leb b'A' c && leb c b'Z'
    then some (c - b'A')
    else if leb b'a' c && leb c b'z'
    then some (c - b'a' + 26)
    else if leb b'0' c && leb c b'9'
    then some (c - b'0' + 52)
    else if c == b'+'
    then some 62
    else if c == b'/'
    then some 63
    else none

abbrev pub is_skipped : ℕ → Bool
is_skipped c = (c == b'=') || (c == 10) || (c == 13)

-- `output.push(..)` where the rest of the input decodes.
abbrev pub push_front : ℕ → Option (List ℕ) → Option (List ℕ)
push_front byte none = none
push_front byte (some bytes) = some (byte ∷ bytes)

-- The loop over the input: what it still puts out, none for an invalid byte.
unfoldable pub decode_loop : ℕ → ℕ → List ℕ → Option (List ℕ)
unfolding lookup_byte
decode_loop buffer bits [] = some []
decode_loop buffer bits (c ∷ cs) = elim (is_skipped c) [
  | true ↦ decode_loop buffer bits cs
  | false ↦ elim (lookup_byte c) [
    | none ↦ none
    | some value ↦
        let buffer' = (buffer * 64) % 2 ^ 32 + value in
        elim (ltb (bits + 6) 8) [
          | true ↦ decode_loop buffer' (bits + 6) cs
          | false ↦
              push_front (buffer' / 2 ^ (bits + 6 - 8) % 256)
                (decode_loop buffer' (bits + 6 - 8) cs)
        ]
  ]
]

unfoldable pub base64_decode : List ℕ → Option (List ℕ)
unfolding decode_loop
base64_decode = decode_loop 0 0
