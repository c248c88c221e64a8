-- ===== src/Governance/Tests.antt =====
-- Redaction and specifications on examples, and their theorems at concrete inputs.
use obase.Base.{
  ◌≡◌, refl, true, false, some, none, Option, String, string_eq, nat_eq, ℕ, [], ◌∷◌, err,
}
use obase.Base.Text.{lower, lstrip, rstrip, replace_from}
use obase.Governance.Redact.{
  Value, text, sequence, mapping, object, no_values, more_values, no_entries, entry, secret_key,
  redact, redact_payload,
}
use obase.Governance.Clean.{IsClean, redact_payload-IsClean}
use obase.Governance.Specs.{
  value_error, ToolSpec, check_tool, identity, McpServerSpec, check_server, find_tool, Grant,
  is_valid, check_ref,
}

program : Unit {0}
unfolding string_eq nat_eq lower lstrip rstrip replace_from secret_key redact redact_payload
    check_tool identity check_server find_tool is_valid check_ref
program = tt

abbrev payload : Value
payload = mapping (
    entry "API-Key" (text "abc") (
      entry "note" (text "use abc now")
        (entry "list" (sequence (more_values (object "Path") no_values)) no_entries)))

redact_one :
    redact_payload payload ("abc" ∷ "" ∷ [])
    ≡ mapping (
        entry "API-Key" (text "[REDACTED]") (
          entry "note"
            (text "use [REDACTED] now")
            (entry "list" (sequence (more_values (text "<Path>") no_values)) no_entries)))
unfolding program
redact_one = refl

-- Later secrets are looked for in the marks of earlier ones, too.
redact_mark : redact_payload (text "aC") ("C" ∷ "R" ∷ []) ≡ text "a[[REDACTED]EDACTED]"
unfolding program
redact_mark = refl

abbrev search : ToolSpec
search = record {
  name = "search";
  kind = "mcp";
  server = some "web";
  version = "2";
  effect = "network";
  capabilities = [];
  credential_ref = none;
  enabled = true;
}

abbrev web : McpServerSpec
web = record {
  name = "web";
  endpoint = "https://web";
  version = "1";
  protocol_version = "2025-03-26";
  tools = search ∷ [];
  credential_ref = none;
  enabled = true;
}

tool_without_server : check_tool (record search { server = some " " }) ≡ err value_error
unfolding program
tool_without_server = refl

foreign_tool : check_server (record web { name = "other" }) ≡ err value_error
unfolding program
foreign_tool = refl

search_identity : identity "mcp" (some "web") "search" "2" ≡ "mcp/web/search@2"
unfolding program
search_identity = refl

-- Different tools of different servers with one identity.
shared_identity : identity "mcp" (some "a/b") "c" "1" ≡ identity "mcp" (some "a") "b/c" "1"
unfolding program
shared_identity = refl

blank_ref :
    check_ref (record { id = " "; provider = none; version = none; scope = none }) ≡ err value_error
unfolding program
blank_ref = refl

abbrev grant : Grant
grant = record {
  tool = "search";
  subject = "*";
  grant_id = "g";
  allowed_effects = "read" ∷ [];
  tool_version = none;
  resource = "*";
  expires_at = some "soon";
  revoked = false;
  issued_at = "now";
}

abbrev parse : String → Option ℕ
parse s = some 10

abbrev parse_nothing : String → Option ℕ
parse_nothing s = none

valid_before : is_valid parse grant 9 ≡ true
unfolding program
valid_before = refl

invalid_at : is_valid parse grant 10 ≡ false
unfolding program
invalid_at = refl

invalid_time : is_valid parse_nothing grant 9 ≡ false
unfolding program
invalid_time = refl

redact_payload-IsClean_example :
    IsClean (redact_payload payload ("abc" ∷ []))
    × (redact_payload (redact_payload payload ("abc" ∷ [])) []
        ≡ redact_payload payload ("abc" ∷ []))
redact_payload-IsClean_example = redact_payload-IsClean payload ("abc" ∷ [])
