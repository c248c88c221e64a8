-- ===== src/Governance/Specs.antt =====
-- obase/tool_governance.py: the specifications of tools and servers, references and grants, as their
-- constructors check them. Reading a time is a parameter: `none` where it is no ISO time. Schemas,
-- descriptions and exports other than redaction are left out.
use obase.Base.{
  ℕ, Bool, true, false, not, ◌&&◌, ◌||◌, Option, none, some, String, string_eq, List, exists, first,
  ltb, Result, ok, err, ◌==◌, if◌then◌else◌,
}
use obase.Base.Text.{strip, lstrip, rstrip, replace, replace_from}
use Prim.Native.String.{◌++◌ as join}

pub data Error : Type 0 where
  value_error : Error

-- `not text.strip()`
abbrev pub is_blank : String → Bool
is_blank s = strip s == ""

-- `CredentialRef` and `SecretRef`, which has no provider.
pub record SecretRef : Type 0 where
  pub id : String
  pub provider : Option String
  pub version : Option ℕ
  pub scope : Option String

unfoldable pub check_ref : SecretRef → Result Error SecretRef
unfolding lstrip rstrip
check_ref ref = if is_blank ref.id then err value_error else ok ref

pub record ToolSpec : Type 0 where
  pub name : String
  pub kind : String
  pub server : Option String
  pub version : String
  pub effect : String
  pub capabilities : List String
  pub credential_ref : Option SecretRef
  pub enabled : Bool

abbrev or_empty : Option String → String
or_empty none = ""
or_empty (some s) = s

-- `ToolSpec.__post_init__`
unfoldable pub check_tool : ToolSpec → Result Error ToolSpec
unfolding lstrip rstrip
check_tool tool =
    if is_blank tool.name
    then err value_error
    else if not (tool.kind == "native" || tool.kind == "mcp")
    then err value_error
    else if tool.kind == "mcp" && is_blank (or_empty tool.server)
    then err value_error
    else if is_blank tool.version
    then err value_error
    else ok tool

-- What an f-string shows of a server.
abbrev shown : Option String → String
shown none = "None"
shown (some s) = s

-- `ToolSpec.identity`, and that of a request for a tool.
unfoldable pub identity : String → Option String → String → String → String
identity kind server name version =
    let prefix = if kind == "native" then "native" else join "mcp/" (shown server) in
    join prefix (join "/" (join name (join "@" version)))

pub record McpServerSpec : Type 0 where
  pub name : String
  pub endpoint : String
  pub version : String
  pub protocol_version : String
  pub tools : List ToolSpec
  pub credential_ref : Option SecretRef
  pub enabled : Bool

abbrev pub is_name : Option String → String → Bool
is_name none name = false
is_name (some s) name = s == name

-- A tool that is not the server's.
abbrev pub is_foreign : String → ToolSpec → Bool
is_foreign server tool = not (tool.kind == "mcp") || not (is_name tool.server server)

-- `MCPServerSpec.__post_init__`, of tools that are specifications already.
unfoldable pub check_server : McpServerSpec → Result Error McpServerSpec
unfolding lstrip rstrip
check_server server =
    if is_blank server.name || is_blank server.endpoint
    then err value_error
    else if is_blank server.version
    then err value_error
    else if exists (is_foreign server.name) server.tools
    then err value_error
    else ok server

abbrev pub is_asked : String → Option String → ToolSpec → Bool
is_asked name none tool = tool.name == name
is_asked name (some version) tool = tool.name == name && tool.version == version

-- `MCPServerSpec.tool`
unfoldable pub find_tool : String → Option String → McpServerSpec → Option ToolSpec
find_tool name version server = first (is_asked name version) server.tools

pub record Grant : Type 0 where
  pub tool : String
  pub subject : String
  pub grant_id : String
  pub allowed_effects : List String
  pub tool_version : Option String
  pub resource : String
  pub expires_at : Option String
  pub revoked : Bool
  pub issued_at : String

-- Before the time that was read, if one was.
abbrev pub is_before : ℕ → Option ℕ → Bool
is_before now none = false
is_before now (some expires) = ltb now expires

-- An empty time is no expiry.
abbrev pub in_time : (String → Option ℕ) → ℕ → Option String → Bool
in_time parse now none = true
in_time parse now (some at) =
    if at == "" then true else is_before now (parse (replace at "Z" "+00:00"))

unfoldable pub is_valid : (String → Option ℕ) → Grant → ℕ → Bool
unfolding replace_from
is_valid parse grant now = if grant.revoked then false else in_time parse now grant.expires_at
