-- ===== src/Access/Scopes.antt =====
-- internal/access/scopes.go. A scope is its text; the keys of `allowedScopes` are listed in the
-- map's order in the source.
pub mod Normal
use Prim.Native.String.{compare}
use telegram_gateway.Base.{
  String, Bool, true, false, Option, none, some, List, [], ◌∷◌, text_eq, if◌then◌else◌,
}
use text.Mathlib.Text.{is_lt}

abbrev pub allowed_scopes : List String
allowed_scopes =
    "messages:send" ∷ "profile:read" ∷ "chats:list" ∷ "chat:read" ∷ "messages:read"
    ∷ "messages:search" ∷ "contacts:read" ∷ "media:read" ∷ "members:read" ∷ []

pub data ScopeError : Type 0 where
  no_scopes : ScopeError
  unsupported_scope : String → ScopeError

unfoldable pub has_scope : List String → String → Bool
has_scope [] required = false
has_scope (scope ∷ granted) required =
    let rest = has_scope granted required in if text_eq scope required then true else rest

-- _, ok := allowedScopes[scope]
unfoldable pub is_allowed : String → Bool
unfolding has_scope
is_allowed scope = has_scope allowed_scopes scope

-- the loop of `ValidateScopes`
unfoldable pub first_unsupported : List String → Option ScopeError
first_unsupported [] = none
first_unsupported (scope ∷ scopes) =
    let rest = first_unsupported scopes in
    if is_allowed scope then rest else some (unsupported_scope scope)

-- `none` is the nil error.
unfoldable pub validate_scopes : List String → Option ScopeError
validate_scopes [] = some no_scopes
validate_scopes (scope ∷ scopes) = first_unsupported (scope ∷ scopes)

-- seen[scope] = struct{}{}: the keys of the map, each once
unfoldable pub distinct : List String → List String
unfolding has_scope
distinct [] = []
distinct (scope ∷ scopes) =
    let seen = distinct scopes in if has_scope seen scope then seen else scope ∷ seen

unfoldable pub insert : String → List String → List String
insert scope [] = scope ∷ []
insert scope (s ∷ rest) =
    let later = insert scope rest in if is_lt (compare s scope) then s ∷ later else scope ∷ s ∷ rest

-- sort.Slice by <: the keys are distinct, so every sort gives this list.
unfoldable pub sort : List String → List String
unfolding insert
sort [] = []
sort (scope ∷ scopes) = insert scope (sort scopes)

pub data Normalized : Type 0 where
  normalized : List String → Normalized
  refused : ScopeError → Normalized

-- the result of `NormalizeScopes` once `ValidateScopes` has answered
abbrev pub normalize_valid : Option ScopeError → List String → Normalized
normalize_valid none scopes = normalized (sort (distinct scopes))
normalize_valid (some e) scopes = refused e

unfoldable pub normalize_scopes : List String → Normalized
normalize_scopes scopes = normalize_valid (validate_scopes scopes) scopes
