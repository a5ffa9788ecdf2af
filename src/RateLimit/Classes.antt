-- ===== src/RateLimit/Classes.antt =====
-- internal/httpapi/main_rate_limit.go: the class of a request, by its method and its escaped path.
use Prim.Native.Char.{code, Char}
use safety_recorder.Base.{
  ℕ, String, Bool, true, false, ◌&&◌, ◌||◌, not, Option, none, some, List, ◌==◌, if◌then◌else◌, eqb,
  trim_right, trim_left,
}

pub data Method : Type 0 where
  get post patch other_method : Method

abbrev pub is_get : Method → Bool
is_get Method.get = true
is_get _ = false

abbrev pub is_post : Method → Bool
is_post Method.post = true
is_post _ = false

abbrev pub is_patch : Method → Bool
is_patch Method.patch = true
is_patch _ = false

pub data RateLimitClass : Type 0 where
  auth auth_register auth_email_verify bootstrap account incident_read : RateLimitClass
  incident_write upload reconcile stream token download : RateLimitClass

abbrev pub is_bootstrap : RateLimitClass → Bool
is_bootstrap RateLimitClass.bootstrap = true
is_bootstrap _ = false

abbrev pub when : Bool → RateLimitClass → Option RateLimitClass
when b c = if b then some c else none

-- The first of the classes that a chain of `case`s gives.
abbrev pub or_class : Option RateLimitClass → Option RateLimitClass → Option RateLimitClass
or_class none c = c
or_class (some a) c = some a

abbrev pub is_slash : ℕ → Bool
is_slash c = eqb c b'/'

-- `strings.Trim(path, "/")`.
unfoldable pub trim_slashes : String → String
trim_slashes s = trim_right is_slash (trim_left is_slash s)

abbrev pub push_char : Char → List String → List String
push_char c List.[] = List.◌∷◌ (String.◌∷◌ c String.[]) List.[]
push_char c (List.◌∷◌ s ss) = List.◌∷◌ (String.◌∷◌ c s) ss

-- `strings.Split(path, "/")`.
unfoldable pub split_slashes : String → List String
split_slashes String.[] = List.◌∷◌ "" List.[]
split_slashes (String.◌∷◌ c s) =
    let rest = split_slashes s in if is_slash (code c) then List.◌∷◌ "" rest else push_char c rest

-- The segments from the third on, by the number of segments.
pub data Rest : Type 0 where
  two : Rest
  three : String → Rest
  four : String → String → Rest
  five : String → String → String → Rest
  six : String → String → String → String → Rest
  longer : String → String → Rest

abbrev pub rest_of : List String → Rest
rest_of List.[] = two
rest_of (List.◌∷◌ a List.[]) = three a
rest_of (List.◌∷◌ a (List.◌∷◌ b List.[])) = four a b
rest_of (List.◌∷◌ a (List.◌∷◌ b (List.◌∷◌ c List.[]))) = five a b c
rest_of (List.◌∷◌ a (List.◌∷◌ b (List.◌∷◌ c (List.◌∷◌ d List.[])))) = six a b c d
rest_of (List.◌∷◌ a (List.◌∷◌ b (List.◌∷◌ c (List.◌∷◌ d (List.◌∷◌ e es))))) = longer a b

abbrev pub classify_relay : Method → Rest → Option RateLimitClass
classify_relay m (three s) =
    if not (is_post m)
    then none
    else or_class (when (s == "preflight" || s == "fanout-authorize") stream)
        (when (s == "commit") upload)
classify_relay m _ = none

abbrev pub classify_auth : Method → Rest → Option RateLimitClass
classify_auth m (three s) =
    or_class (when (is_post m && (s == "login" || s == "logout")) auth)
      (when (is_post m && s == "register") auth_register)
classify_auth m (four s t) =
    or_class (when (is_post m && s == "email" && t == "verify") auth_email_verify) (
      or_class (when (s == "web" && is_post m && (t == "login" || t == "logout")) auth)
        (when (s == "web" && is_get m && t == "csrf") auth))
classify_auth m _ = none

abbrev pub classify_account : Method → Rest → Option RateLimitClass
classify_account m two = when (is_get m) account
classify_account m (three s) = when (is_post m && s == "password") account
classify_account m (five s t u) =
    when
      (is_post m
        && s == "second-factor"
        && (t == "email" && (u == "challenge" || u == "verify")
            || t == "totp" && (u == "enroll" || u == "confirm" || u == "verify")))
      auth_email_verify
classify_account m (six s t u v) =
    when
      (is_post m
        && s == "second-factor"
        && t == "webauthn"
        && (u == "register" || u == "verify")
        && (v == "start" || v == "finish"))
      auth_email_verify
classify_account m _ = none

abbrev pub classify_key_metadata : Method → Rest → Option RateLimitClass
classify_key_metadata m two = when (is_get m || is_post m) account
classify_key_metadata m (three s) = when (is_get m || is_patch m) account
classify_key_metadata m (four s t) =
    when (is_post m && (t == "revoke" || t == "lost" || t == "replace")) account
classify_key_metadata m _ = none

abbrev pub classify_relationship : Method → Rest → Option RateLimitClass
classify_relationship m two = when (is_get m || is_post m) account
classify_relationship m (three s) = when (is_get m) account
classify_relationship m (four s t) =
    when (is_post m && (t == "accept" || t == "decline" || t == "revoke" || t == "replace")) account
classify_relationship m _ = none

abbrev pub classify_delivery : Method → Rest → Option RateLimitClass
classify_delivery m (five s t u) =
    when (is_get m && s == "incidents" && u == "wrapped-keys") incident_read
classify_delivery m (four s t) = when (is_get m && s == "wrapped-keys") incident_read
classify_delivery m _ = none

abbrev pub classify_record : Method → Rest → Option RateLimitClass
classify_record m (three s) = when (is_get m) incident_read
classify_record m (four s t) = when (is_post m && t == "revoke") incident_write
classify_record m _ = none

abbrev pub classify_chunk : Method → Rest → Option RateLimitClass
classify_chunk m (four s t) = or_class (when (is_post m) upload) (when (is_get m) incident_read)
classify_chunk m (five s t u) = when (is_post m && u == "reconcile") reconcile
classify_chunk m (six s t u v) = when (is_get m) download
classify_chunk m _ = none

abbrev pub classify_stream : Method → Rest → Option RateLimitClass
classify_stream m (four s t) = when (is_get m || is_post m) stream
classify_stream m (five s t u) = when (is_get m) stream
classify_stream m (six s t u v) =
    or_class (when (is_post m && (v == "relay-session" || v == "complete" || v == "fail")) stream)
      (when (is_get m && v == "download") download)
classify_stream m _ = none

abbrev pub is_four : Rest → Bool
is_four (four s t) = true
is_four _ = false

abbrev pub is_five : Rest → Bool
is_five (five s t u) = true
is_five _ = false

abbrev pub read_or_write : Method → Option RateLimitClass
read_or_write m = or_class (when (is_get m) incident_read) (when (is_post m) incident_write)

-- The `switch` on the fourth segment `t`; a deletion route has any number of further segments.
abbrev pub classify_incident_child : Method → String → Rest → Option RateLimitClass
classify_incident_child m t r =
    if t == "deletion"
    then read_or_write m
    else if t == "chunks"
    then classify_chunk m r
    else if t == "download"
    then when (is_get m && is_four r) download
    else if t == "checkins" || t == "close"
    then when (is_post m && is_four r) incident_write
    else if t == "sharing-grants" || t == "wrapped-keys"
    then (if is_four r then read_or_write m else none)
    else if t == "streams"
    then classify_stream m r
    else if t == "incident-tokens"
    then when ((is_get m || is_post m) && is_four r || is_get m && is_five r) token
    else none

abbrev pub classify_incident : Method → Rest → Option RateLimitClass
classify_incident m two = read_or_write m
classify_incident m (three s) = when (is_get m) incident_read
classify_incident m (four s t) = classify_incident_child m t (four s t)
classify_incident m (five s t u) = classify_incident_child m t (five s t u)
classify_incident m (six s t u v) = classify_incident_child m t (six s t u v)
classify_incident m (longer s t) = classify_incident_child m t (longer s t)

abbrev pub classify_bootstrap : Method → Rest → Option RateLimitClass
classify_bootstrap m (three s) = when (is_post m && s == "admin") bootstrap
classify_bootstrap m _ = none

abbrev pub classify_token : Method → Rest → Option RateLimitClass
classify_token m (four s t) = when (is_post m && t == "revoke") token
classify_token m _ = none

-- The `switch` on the second segment.
abbrev pub classify_family : Method → String → Rest → Option RateLimitClass
classify_family m s r =
    if s == "auth"
    then classify_auth m r
    else if s == "bootstrap"
    then classify_bootstrap m r
    else if s == "account"
    then classify_account m r
    else if s == "account-recipient-keys" || s == "contact-public-keys"
    then classify_key_metadata m r
    else if s == "trusted-contact-relationships"
    then classify_relationship m r
    else if s == "trusted-contact"
    then classify_delivery m r
    else if s == "incidents"
    then classify_incident m r
    else if s == "incident-tokens"
    then classify_token m r
    else if s == "relay"
    then classify_relay m r
    else if s == "sharing-grants" || s == "wrapped-keys"
    then classify_record m r
    else none

abbrev pub classify_segments : Method → List String → Option RateLimitClass
classify_segments m (List.◌∷◌ version (List.◌∷◌ family rest)) =
    if version == "v1" then classify_family m family (rest_of rest) else none
classify_segments m _ = none

unfoldable pub classify_main_api_rate_limit : Method → String → Option RateLimitClass
unfolding trim_slashes split_slashes
classify_main_api_rate_limit m path = classify_segments m (split_slashes (trim_slashes path))
