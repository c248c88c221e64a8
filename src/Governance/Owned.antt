-- ===== src/Governance/Owned.antt =====
-- The tools of a server, and grants over time.
use obase.Base.{
  ◌≡◌, refl, sym, ap, subst, Bool, true, false, ◌||◌, Option, none, some, String, string_eq, List,
  [], ◌∷◌, exists, first, Result, ok, err, arith, Bool-cases, inl, inr,
}
use obase.Base.Members.{In, exists_iff}
use mathlib.Core.Option.{some-injective}
use obase.Governance.Specs.{
  Error, value_error, ToolSpec, identity, McpServerSpec, is_name, is_foreign, is_blank,
  check_server, is_asked, find_tool,
}

first-In :
    {A : Type 0} (p : A → Bool) (xs : List A) {x : A} → first p xs ≡ some x → In x xs × (p x ≡ true)
first-In p [] h = absurd (ground (arith, h))
first-In p (y ∷ xs) {x = x} h = elim (Bool-cases (p y)) [
  | inl hit ↦
      let same : y ≡ x = some-injective y x (rw hit at h) in
      (inl (sym same), subst (λ z. p z ≡ true) same hit)
  | inr miss ↦ let (m, hit) = first-In p xs (rw miss at h) in (inr m, hit)
]

check_server-owns :
    (server : McpServerSpec) {made : McpServerSpec}
    → check_server server ≡ ok made
    → (server ≡ made) × (exists (is_foreign server.name) server.tools ≡ false)
unfolding check_server
check_server-owns server h = elim (Bool-cases (is_blank server.name || is_blank server.endpoint)) [
  | inl blank ↦ absurd (refused (rw (check_server, blank) at h))
  | inr named ↦ elim (Bool-cases (is_blank server.version)) [
    | inl blank ↦ absurd (refused (rw (check_server, named, blank) at h))
    | inr versioned ↦ elim (Bool-cases (exists (is_foreign server.name) server.tools)) [
      | inl foreign ↦ absurd (refused (rw (check_server, named, versioned, foreign) at h))
      | inr own ↦ (same (rw (check_server, named, versioned, own) at h), own)
    ]
  ]
]
  where
    refused :
        {m : McpServerSpec} → ◌≡◌ {A = Result Error McpServerSpec} (err value_error) (ok m) → ⊥
    refused h = ground (arith, h)

    same :
        {m : McpServerSpec} → ◌≡◌ {A = Result Error McpServerSpec} (ok server) (ok m) → server ≡ m
    same h = ground (arith, h)

own-is :
    (name : String) (tool : ToolSpec)
    → is_foreign name tool ≡ false
    → (tool.kind ≡ "mcp") × (is_name tool.server name ≡ true)
own-is name tool h = (ground (arith, h), ground (arith, h))

is_name-is :
    (server : Option String) (name : String) → is_name server name ≡ true → server ≡ some name
is_name-is none name h = absurd (ground (arith, h))
is_name-is (some s) name h = ap some (ground (arith, h))

is_asked-is :
    (name version : String) (tool : ToolSpec)
    → is_asked name (some version) tool ≡ true
    → (tool.name ≡ name) × (tool.version ≡ version)
is_asked-is name version tool h = (ground (arith, h), ground (arith, h))

-- A tool that a server of checked specification finds by name and version is an MCP tool of this server,
-- of that name and version: its identity is that of a request for it.
pub find_tool-identity :
    (server : McpServerSpec) (name version : String) {made : McpServerSpec} {tool : ToolSpec}
    → check_server server ≡ ok made
    → find_tool name (some version) made ≡ some tool
    → (tool.server ≡ some made.name)
      × (identity tool.kind tool.server tool.name tool.version
          ≡ identity "mcp" (some made.name) name version)
unfolding find_tool
find_tool-identity server name version {made} {tool} checked found =
    let (same, own) = check_server-owns server checked in
    let own' : exists (is_foreign made.name) made.tools ≡ false =
      subst (λ (s : McpServerSpec). exists (is_foreign s.name) s.tools ≡ false) same own in
    let (m, hit) = first-In (is_asked name (some version)) made.tools found in
    let mine : is_foreign made.name tool ≡ false = elim (Bool-cases (is_foreign made.name tool)) [
      | inr mine ↦ mine
      | inl foreign ↦
          let any = (exists_iff (is_foreign made.name) made.tools).1 (tool, m, foreign) in
          absurd (ground (arith, any, own'))
    ] in
    let (kind, server_name) = own-is made.name tool mine in
    let serves = is_name-is tool.server made.name server_name in
    let (named, versioned) = is_asked-is name version tool hit in
    (serves, rw (kind, serves, named, versioned) refl)
