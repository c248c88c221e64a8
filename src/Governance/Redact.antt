-- ===== src/Governance/Redact.antt =====
-- obase/tool_governance.py: `redact_payload`. A value is a JSON value or an object of another type, of
-- which only the type's name counts; keys are texts.
use obase.Base.{Bool, not, String, string_eq, List, [], ◌∷◌, exists, select, ◌==◌, if◌then◌else◌}
use obase.Base.Int.{ℤ}
use obase.Base.Text.{lower, is_in, replace, replace_from}
use Prim.Native.String.{◌++◌ as join}

mutual
  pub data Value : Type 0 where
    null : Value
    boolean : Bool → Value
    number : ℤ → Value
    text : String → Value
    sequence : Values → Value
    mapping : Entries → Value
    object : String → Value

  pub data Values : Type 0 where
    no_values : Values
    more_values : Value → Values → Values

  pub data Entries : Type 0 where
    no_entries : Entries
    entry : String → Value → Entries → Entries

abbrev secret_key_parts : List String
secret_key_parts =
    "token" ∷ "secret" ∷ "password" ∷ "credential" ∷ "private_key" ∷ "authorization" ∷ "api_key"
    ∷ "access_key" ∷ "client_secret" ∷ "webhook" ∷ []

unfoldable pub secret_key : String → Bool
unfolding lower replace_from
secret_key key =
    let normalized = replace (lower key) "-" "_" in
    exists (λ part. is_in part normalized) secret_key_parts

abbrev pub redacted : String
redacted = "[REDACTED]"

-- The loop over the secrets.
abbrev pub hide : List String → String → String
hide [] output = output
hide (secret ∷ secrets) output = hide secrets (replace output secret redacted)

unfoldable mutual
  unfolding replace_from secret_key

  pub redact : List String → Value → Value
  redact secrets null = null
  redact secrets (boolean b) = boolean b
  redact secrets (number n) = number n
  redact secrets (text s) = text (hide secrets s)
  redact secrets (sequence values) = sequence (redact_values secrets values)
  redact secrets (mapping entries) = mapping (redact_entries secrets entries)
  redact secrets (object name) = text (join "<" (join name ">"))

  pub redact_values : List String → Values → Values
  redact_values secrets no_values = no_values
  redact_values secrets (more_values v values) =
      more_values (redact secrets v) (redact_values secrets values)

  pub redact_entries : List String → Entries → Entries
  redact_entries secrets no_entries = no_entries
  redact_entries secrets (entry key v entries) =
      let v' = redact secrets v in
      entry key (if secret_key key then text redacted else v') (redact_entries secrets entries)

-- Empty secrets are left out first.
unfoldable pub redact_payload : Value → List String → Value
unfolding redact
redact_payload value secrets = redact (select (λ s. not (s == "")) secrets) value
