-- ===== src/Adapter/Handler/Middleware/Keys.antt =====
-- parseRSAPublicKey of internal/adapter/handler/middleware/auth.go, with what it uses of
-- encoding/base64 and math/big.
use Prim.Native.Nat.{◌*◌, ◌/◌, ◌%◌}
use mathlib.Core.Option
use be_modami_chat_service.Prelude.{
  ℕ, ◌+◌, ◌-◌, Bool, not, ◌&&◌, ◌||◌, List, [], ◌∷◌, Option, none, some, leb, ltb, eqb, keep,
  if◌then◌else◌,
}
use be_modami_chat_service.Prelude.Int.{ℤ, pos, negsuc}
use be_modami_chat_service.Text.{GoString}
use be_modami_chat_service.Result.{Result, ok, err, external}

pub record PublicKey : Type 0 where
  pub n : ℕ
  pub e : ℤ

-- The alphabet of base64.RawURLEncoding.
abbrev sextet : ℕ → Option ℕ
sextet c =
    if leb 65 c && leb c 90
    then some (c - 65)
    else if leb 97 c && leb c 122
    then some (c - 97 + 26)
    else if leb 48 c && leb c 57
    then some (c - 48 + 52)
    else if eqb c 45
    then some 62
    else if eqb c 95
    then some 63
    else none

abbrev cons_if : Option ℕ → Option (List ℕ) → Option (List ℕ)
cons_if none later = none
cons_if (some x) none = none
cons_if (some x) (some xs) = some (x ∷ xs)

sextets : GoString → Option (List ℕ)
sextets [] = some []
sextets (c ∷ s) = cons_if (sextet c) (sextets s)

-- Four digits make three bytes; two or three digits that are left make one or two; the last bits
-- are dropped. One digit alone is an error.
octets : List ℕ → Option GoString
octets [] = some []
octets (a ∷ []) = none
octets (a ∷ b ∷ []) = some ((a * 4 + b / 16) ∷ [])
octets (a ∷ b ∷ c ∷ []) = some ((a * 4 + b / 16) ∷ (b % 16 * 16 + c / 4) ∷ [])
octets (a ∷ b ∷ c ∷ d ∷ rest) =
    Option.map (λ s. (a * 4 + b / 16) ∷ (b % 16 * 16 + c / 4) ∷ (c % 4 * 64 + d) ∷ s) (octets rest)

abbrev octets_of : Option (List ℕ) → Option GoString
octets_of none = none
octets_of (some xs) = octets xs

abbrev is_newline : ℕ → Bool
is_newline c = eqb c 10 || eqb c 13

-- DecodeString, which passes over line breaks.
unfoldable pub decode_string : GoString → Option GoString
unfolding sextets octets
decode_string s = octets_of (sextets (keep (λ c. not (is_newline c)) s))

-- big.Int.SetBytes, the most significant byte first.
unfoldable pub set_bytes : (so_far : ℕ) → GoString → ℕ
set_bytes so_far [] = so_far
set_bytes so_far (b ∷ s) = set_bytes (so_far * 256 + b) s

-- int(e.Int64()): the low 64 bits as a signed number.
abbrev pub int64_of : ℕ → ℤ
int64_of n =
    let low = n % 18_446_744_073_709_551_616 in
    if ltb low 9_223_372_036_854_775_808
    then pos low
    else negsuc (18_446_744_073_709_551_616 - low - 1)

abbrev key_of : Option GoString → Option GoString → Result PublicKey
key_of none e_bytes = err (external "illegal base64 data")
key_of (some n_bytes) none = err (external "illegal base64 data")
key_of (some n_bytes) (some e_bytes) =
    ok (record { n = set_bytes 0 n_bytes; e = int64_of (set_bytes 0 e_bytes) })

unfoldable pub parse_rsa_public_key : (n_b64 e_b64 : GoString) → Result PublicKey
parse_rsa_public_key n_b64 e_b64 = key_of (decode_string n_b64) (decode_string e_b64)
