-- ===== src/Totp/Match.antt =====
-- `MatchTOTPCode` of internal/auth/totp.go. `generate` is the library's `GenerateCodeCustom` with six
-- digits and SHA-1, on a secret and a Unix time; `none` is its error.
pub mod Window
use Prim.Native.Char.{Char, code}
use safety_recorder.Base.{
  ℕ, String, Bool, true, false, not, Option, none, some, List, ◌&&◌, ◌||◌, ◌+◌, ◌-◌, ◌*◌, ◌/◌, ◌==◌,
  if◌then◌else◌, eqb, leb, ltb, trim_right, trim_left,
}
use safety_recorder.DbTime.{second}

-- `unicode.IsSpace`.
abbrev pub is_space : ℕ → Bool
is_space c =
    leb 9 c && leb c 13
    || eqb c 32
    || eqb c 133
    || eqb c 160
    || eqb c 5760
    || leb 8192 c && leb c 8202
    || eqb c 8232
    || eqb c 8233
    || eqb c 8239
    || eqb c 8287
    || eqb c 12288

-- `strings.TrimSpace`.
unfoldable pub trim_space : String → String
trim_space s = trim_right is_space (trim_left is_space s)

-- The bytes of a character in UTF-8.
abbrev pub char_bytes : ℕ → ℕ
char_bytes c = if ltb c 128 then 1 else if ltb c 2048 then 2 else if ltb c 65536 then 3 else 4

-- Go's `len` of a string.
abbrev pub byte_length : String → ℕ
byte_length String.[] = 0
byte_length (String.◌∷◌ c s) = char_bytes (code c) + byte_length s

-- A code matches a step, matches none, or an error ends the call.
pub data Match : Type 0 where
  match_error no_match : Match
  matched : ℕ → Match

-- Seconds from Go's zero time to the Unix epoch.
abbrev pub unix_epoch : ℕ
unix_epoch = 62135596800

-- `now.Unix() / period`, for a time from 1970 on.
unfoldable pub current_step : ℕ → ℕ → ℕ
current_step now period = (now / second - unix_epoch) / period

-- The steps from one before to one after, without a negative one.
unfoldable pub skewed_steps : ℕ → List ℕ
skewed_steps step =
    if eqb step 0
    then List.◌∷◌ 0 (List.◌∷◌ 1 List.[])
    else List.◌∷◌ (step - 1) (List.◌∷◌ step (List.◌∷◌ (step + 1) List.[]))

-- `totpValidateOptions`.
unfoldable pub valid_options : ℕ → ℕ → String → Bool
valid_options period digits algorithm = not (eqb period 0) && eqb digits 6 && algorithm == "SHA1"

module _ (generate : String → ℕ → Option String) where
  unfoldable pub match_steps : String → String → ℕ → List ℕ → Match
  match_steps secret totp_code period List.[] = no_match
  match_steps secret totp_code period (List.◌∷◌ step steps) =
      let rest = match_steps secret totp_code period steps in
      elim (generate secret (step * period)) [
        | none ↦ match_error
        | some want ↦ if want == totp_code then matched step else rest
      ]

  unfoldable pub match_totp_code : String → String → ℕ → ℕ → ℕ → String → Match
  unfolding match_steps
  match_totp_code secret totp_code now period digits algorithm =
      let secret = trim_space secret in
      let totp_code = trim_space totp_code in
      if secret == "" || totp_code == ""
      then no_match
      else if not (valid_options period digits algorithm)
      then match_error
      else if not (eqb (byte_length totp_code) 6)
      then no_match
      else match_steps secret totp_code period (skewed_steps (current_step now period))
