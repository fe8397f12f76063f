-- ===== src/Userio/Base64/Roundtrip.antt =====
-- Decoding what an encoder after RFC 4648 wrote.
use grepmesh.Prelude.{
  ℕ, ◌+◌, ◌-◌, ◌*◌, ◌/◌, ◌%◌, ◌^◌, ◌≤◌, ◌<◌, ◌≡◌, refl, ap, ◌∙◌, true, false, some, List, [], ◌∷◌,
  ltb, if◌then◌else◌, ◌==◌, nat_ord, arith, All, ◌⊎◌, inl, inr,
}
use grepmesh.Userio.Base64.{lookup_byte, is_skipped, push_front, decode_loop, base64_decode}

-- The character of a value below 64.
unfoldable pub digit : ℕ → ℕ
digit v =
    if ltb v 26
    then v + b'A'
    else if ltb v 52
    then v - 26 + b'a'
    else if ltb v 62
    then v - 52 + b'0'
    else if v == 62
    then b'+'
    else b'/'

-- The padded encoding: four characters for three bytes.
unfoldable pub encode : List ℕ → List ℕ
unfolding digit
encode [] = []
encode (a ∷ []) = digit (a / 4) ∷ digit (a % 4 * 16) ∷ b'=' ∷ b'=' ∷ []
encode (a ∷ b ∷ []) = digit (a / 4) ∷ digit (a % 4 * 16 + b / 16) ∷ digit (b % 16 * 4) ∷ b'=' ∷ []
encode (a ∷ b ∷ c ∷ rest) =
    digit (a / 4)
    ∷ digit (a % 4 * 16 + b / 16)
    ∷ digit (b % 16 * 4 + c / 64)
    ∷ digit (c % 64)
    ∷ encode rest

lookup-digit : (v : ℕ) → v < 64 → (lookup_byte (digit v) ≡ some v) × (is_skipped (digit v) ≡ false)
unfolding lookup_byte digit
lookup-digit v h = (ground arith, ground arith)

-- One character that completes no byte, and one that does.
step_short :
    (buffer bits v : ℕ) (cs : List ℕ)
    → v < 64
    → bits + 6 < 8
    → decode_loop buffer bits (digit v ∷ cs)
      ≡ decode_loop ((buffer * 64) % 2 ^ 32 + v) (bits + 6) cs
unfolding decode_loop
step_short buffer bits v cs h k =
    let (found, plain) = lookup-digit v h in
    let short : ltb (bits + 6) 8 ≡ true = ground arith in rw (plain, found, short, decode_loop) refl

step_full :
    (buffer bits v : ℕ) (cs : List ℕ)
    → v < 64
    → 8 ≤ bits + 6
    → decode_loop buffer bits (digit v ∷ cs)
      ≡ push_front
          (((buffer * 64) % 2 ^ 32 + v) / 2 ^ (bits + 6 - 8) % 256)
          (decode_loop ((buffer * 64) % 2 ^ 32 + v) (bits + 6 - 8) cs)
unfolding decode_loop
step_full buffer bits v cs h k =
    let (found, plain) = lookup-digit v h in
    let full : ltb (bits + 6) 8 ≡ false = ground arith in rw (plain, found, full, decode_loop) refl

-- The first byte of a group: two characters, above whatever is left in the buffer.
first_byte :
    (buffer a low : ℕ)
    → a < 256
    → low < 16
    → ((((buffer * 64) % 2 ^ 32 + a / 4) * 64) % 2 ^ 32 + (a % 4 * 16 + low)) / 16 % 256 ≡ a
first_byte buffer a low h k = omega arith

second_byte :
    (buffer b low : ℕ)
    → b < 256
    → low < 4
    → buffer % 16 ≡ b / 16
    → ((buffer * 64) % 2 ^ 32 + (b % 16 * 4 + low)) / 4 % 256 ≡ b
second_byte buffer b low h k e = omega arith

third_byte :
    (buffer c : ℕ) → c < 256 → buffer % 4 ≡ c / 64 → ((buffer * 64) % 2 ^ 32 + c % 64) / 1 % 256 ≡ c
third_byte buffer c h e = omega arith

-- What a character leaves in the low bits of the buffer.
low_bits :
    (buffer high low width : ℕ)
    → (width ≡ 16) ⊎ (width ≡ 4)
    → low < width
    → ((buffer * 64) % 2 ^ 32 + (high * width + low)) % width ≡ low
low_bits buffer high low width (inl e) h = rw e (omega arith)
low_bits buffer high low width (inr e) h = rw e (omega arith)

-- The buffer after one more character.
abbrev shift : ℕ → ℕ → ℕ
shift buffer v = (buffer * 64) % 2 ^ 32 + v

decode_two :
    (buffer a low : ℕ) (cs : List ℕ)
    → a < 256
    → low < 16
    → decode_loop buffer 0 (digit (a / 4) ∷ digit (a % 4 * 16 + low) ∷ cs)
      ≡ push_front a (decode_loop (shift (shift buffer (a / 4)) (a % 4 * 16 + low)) 4 cs)
decode_two buffer a low cs h k =
    step_short buffer 0 (a / 4) (digit (a % 4 * 16 + low) ∷ cs) (omega arith) (omega arith)
    ∙ step_full (shift buffer (a / 4)) 6 (a % 4 * 16 + low) cs (omega arith) (omega arith)
    ∙ ap
        (λ byte.
          push_front byte (decode_loop (shift (shift buffer (a / 4)) (a % 4 * 16 + low)) 4 cs))
        (first_byte buffer a low h k)

decode_third :
    (buffer b low : ℕ) (cs : List ℕ)
    → b < 256
    → low < 4
    → buffer % 16 ≡ b / 16
    → decode_loop buffer 4 (digit (b % 16 * 4 + low) ∷ cs)
      ≡ push_front b (decode_loop (shift buffer (b % 16 * 4 + low)) 2 cs)
decode_third buffer b low cs h k e =
    step_full buffer 4 (b % 16 * 4 + low) cs (omega arith) (omega arith)
    ∙ ap (λ byte. push_front byte (decode_loop (shift buffer (b % 16 * 4 + low)) 2 cs))
        (second_byte buffer b low h k e)

decode_fourth :
    (buffer c : ℕ) (cs : List ℕ)
    → c < 256
    → buffer % 4 ≡ c / 64
    → decode_loop buffer 2 (digit (c % 64) ∷ cs)
      ≡ push_front c (decode_loop (shift buffer (c % 64)) 0 cs)
decode_fourth buffer c cs h e =
    step_full buffer 2 (c % 64) cs (omega arith) (omega arith)
    ∙ ap (λ byte. push_front byte (decode_loop (shift buffer (c % 64)) 0 cs))
        (third_byte buffer c h e)

padding_none : (buffer bits : ℕ) → decode_loop buffer bits [] ≡ some []
unfolding decode_loop
padding_none buffer bits = refl

padding_one : (buffer bits : ℕ) → decode_loop buffer bits (b'=' ∷ []) ≡ some []
unfolding decode_loop
padding_one buffer bits = refl

padding_two : (buffer bits : ℕ) → decode_loop buffer bits (b'=' ∷ b'=' ∷ []) ≡ some []
unfolding decode_loop
padding_two buffer bits = refl

decode_loop-encode :
    (buffer : ℕ) (bytes : List ℕ)
    → All (λ b. b < 256) bytes
    → decode_loop buffer 0 (encode bytes) ≡ some bytes
unfolding encode
decode_loop-encode buffer [] h = padding_none buffer 0
decode_loop-encode buffer (a ∷ []) (ha, _) =
    let zeros : a % 4 * 16 ≡ a % 4 * 16 + 0 = omega arith in
    ap (λ v. decode_loop buffer 0 (digit (a / 4) ∷ digit v ∷ b'=' ∷ b'=' ∷ [])) zeros
    ∙ decode_two buffer a 0 (b'=' ∷ b'=' ∷ []) ha (omega arith)
    ∙ ap (push_front a) (padding_two (shift (shift buffer (a / 4)) (a % 4 * 16 + 0)) 4)
decode_loop-encode buffer (a ∷ b ∷ []) (ha, (hb, _)) =
    let b2 = shift (shift buffer (a / 4)) (a % 4 * 16 + b / 16) in
    let low2 : b2 % 16 ≡ b / 16 =
      low_bits (shift buffer (a / 4)) (a % 4) (b / 16) 16 (inl refl) (omega arith) in
    let zeros : b % 16 * 4 ≡ b % 16 * 4 + 0 = omega arith in
    decode_two buffer a (b / 16) (digit (b % 16 * 4) ∷ b'=' ∷ []) ha (omega arith)
    ∙ ap (push_front a) (
        ap (λ v. decode_loop b2 4 (digit v ∷ b'=' ∷ [])) zeros
        ∙ decode_third b2 b 0 (b'=' ∷ []) hb (omega arith) low2
        ∙ ap (push_front b) (padding_one (shift b2 (b % 16 * 4 + 0)) 2))
decode_loop-encode buffer (a ∷ b ∷ c ∷ rest) (ha, (hb, (hc, hs))) =
    let b2 = shift (shift buffer (a / 4)) (a % 4 * 16 + b / 16) in
    let b3 = shift b2 (b % 16 * 4 + c / 64) in
    let low2 : b2 % 16 ≡ b / 16 =
      low_bits (shift buffer (a / 4)) (a % 4) (b / 16) 16 (inl refl) (omega arith) in
    let low3 : b3 % 4 ≡ c / 64 = low_bits b2 (b % 16) (c / 64) 4 (inr refl) (omega arith) in
    decode_two buffer a (b / 16) (digit (b % 16 * 4 + c / 64) ∷ digit (c % 64) ∷ encode rest) ha
      (omega arith)
    ∙ ap (push_front a) (
        decode_third b2 b (c / 64) (digit (c % 64) ∷ encode rest) hb (omega arith) low2
        ∙ ap (push_front b) (
            decode_fourth b3 c (encode rest) hc low3
            ∙ ap (push_front c) (decode_loop-encode (shift b3 (c % 64)) rest hs)))

-- The decoder reads back every list of bytes that the standard encoder, with its padding, wrote.
pub base64_decode-encode :
    (bytes : List ℕ) → All (λ b. b < 256) bytes → base64_decode (encode bytes) ≡ some bytes
unfolding base64_decode
base64_decode-encode bytes h = decode_loop-encode 0 bytes h
