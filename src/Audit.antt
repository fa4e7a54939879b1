-- ===== src/Audit.antt =====
-- internal/audit/writer.go and internal/audit/verifier.go: the hash-chained audit log. Bytes are
-- numbers, a nil slice is the empty list, and the instants of an event are nanoseconds (`none` for
-- the zero time). The log is listed newest first, which is ORDER BY id DESC since the ids come from
-- a sequence and a chain's writers hold its advisory lock. SHA-256, the JSON library and what
-- PostgreSQL makes of a uuid, an inet and a jsonb text are the fields of `Codec`.
pub mod Chain
pub mod Tamper
use telegram_gateway.Base.{
  ℕ, String, Bool, true, false, Option, none, some, List, [], ◌∷◌, ◌++◌, ◌==◌, ◌+◌, ◌*◌, not, ◌||◌,
  is_empty, text_eq, trim_space, if◌then◌else◌, find_row, select_where,
}
use Prim.Native.Nat.{◌/◌}
use telegram_gateway.Base.Handler.{Handler, ◌>>=◌, ◌>>◌, query, expect, stop_if, in_tx}

abbrev pub Bytes : Type 0
Bytes = List ℕ

-- Event.Metadata: nil, a map with its JSON, or a map that json.Marshal refuses.
pub data Metadata : Type 0 where
  missing unencodable : Metadata
  encoded : String → Metadata

pub record Event : Type 0 where
  pub account_id : Option String
  pub actor_type : String
  pub actor_id : String
  pub action : String
  pub resource_type : String
  pub resource_id : String
  pub ip_address : String
  pub user_agent : String
  pub request_id : Option String
  pub metadata : Metadata
  pub created_at : Option ℕ

-- The struct that canonicalPayload marshals.
pub record Payload : Type 0 where
  pub account_id : Option String
  pub actor_type : String
  pub actor_id : String
  pub action : String
  pub resource_type : String
  pub resource_id : String
  pub ip_address : String
  pub user_agent : String
  pub request_id : Option String
  pub metadata : String
  pub created_at : ℕ

-- A row of audit_logs; `created_at` counts microseconds.
pub record Row : Type 0 where
  pub id : ℕ
  pub account_id : Option String
  pub chain_key : String
  pub actor_type : String
  pub actor_id : Option String
  pub action : String
  pub resource_type : String
  pub resource_id : Option String
  pub ip_address : Option String
  pub user_agent : Option String
  pub request_id : Option String
  pub metadata : String
  pub previous_hash : Bytes
  pub hash : Bytes
  pub created_at : ℕ

pub record Codec : Type 0 where
  pub sha256 : Bytes → Bytes
  pub marshal : Payload → Option Bytes
  -- json.Decode followed by json.Marshal
  pub reencode : String → Option String
  -- `text::uuid` read back as text, `text::inet` read back by host(), `text::jsonb` read back
  pub uuid_text : String → Option String
  pub inet_text : String → Option String
  pub jsonb_text : String → Option String

pub data AuditError : Type 0 where
  invalid_actor action_required resource_required : AuditError
  bad_metadata bad_payload database_error : AuditError

abbrev is_actor : String → Bool
is_actor a =
    text_eq a "USER"
    || (text_eq a "MCP" || (text_eq a "SYSTEM" || (text_eq a "TELEGRAM" || text_eq a "ADMIN")))

unfoldable pub chain_key : Option String → String
chain_key none = "global"
chain_key (some account) =
    let value = trim_space account in if is_empty value then "global" else value

-- event.CreatedAt.Truncate(time.Microsecond)
unfoldable pub truncate : ℕ → ℕ
truncate t = t / 1000 * 1000

abbrev pub metadata_json : Metadata → Option String
metadata_json missing = some "{}"
metadata_json (encoded json) = some json
metadata_json unencodable = none

abbrev pub payload_of : Event → String → ℕ → Payload
payload_of e json t = record {
  account_id = e.account_id;
  actor_type = e.actor_type;
  actor_id = e.actor_id;
  action = e.action;
  resource_type = e.resource_type;
  resource_id = e.resource_id;
  ip_address = e.ip_address;
  user_agent = e.user_agent;
  request_id = e.request_id;
  metadata = json;
  created_at = t;
}

-- NULLIF($n, '')
abbrev pub null_if_empty : String → Option String
null_if_empty s = if is_empty s then none else some s

-- valueOrEmpty
abbrev pub value_or_empty : Option String → String
value_or_empty none = ""
value_or_empty (some s) = s

-- A cast of a nullable value: `none` where the cast fails.
abbrev pub cast : (String → Option String) → Option String → Option (Option String)
cast read none = some none
cast read (some s) = elim (read s) [ none ↦ none | some t ↦ some (some t) ]

-- SELECT hash … ORDER BY id DESC LIMIT 1
unfoldable pub head_hash : String → List Row → Bytes
head_hash key log = elim (find_row (λ (r : Row). text_eq r.chain_key key) log) [
  | none ↦ []
  | some r ↦ r.hash
]

module _ (codec : Codec) where
  open codec use {sha256, marshal, reencode, uuid_text, inet_text, jsonb_text}

  -- The row that the INSERT stores, `none` where one of its casts fails.
  unfoldable pub stored_row : ℕ → Event → String → ℕ → Bytes → Bytes → Option Row
  stored_row id e json t previous current = elim (cast uuid_text e.account_id) [
    | none ↦ none
    | some account ↦ elim (cast inet_text (null_if_empty e.ip_address)) [
      | none ↦ none
      | some ip ↦ elim (cast uuid_text e.request_id) [
        | none ↦ none
        | some request ↦ elim (jsonb_text json) [
          | none ↦ none
          | some stored ↦ some (record {
            id = id;
            account_id = account;
            chain_key = chain_key e.account_id;
            actor_type = e.actor_type;
            actor_id = null_if_empty e.actor_id;
            action = e.action;
            resource_type = e.resource_type;
            resource_id = null_if_empty e.resource_id;
            ip_address = ip;
            user_agent = null_if_empty e.user_agent;
            request_id = request;
            metadata = stored;
            previous_hash = previous;
            hash = current;
            created_at = t / 1000;
          })
        ]
      ]
    ]
  ]

  abbrev pub append : ℕ → Event → String → ℕ → Handler AuditError (List Row) Unit
  append id e json t = do
    query database_error (λ log. (tt, log))
    previous ← query database_error (λ log. (head_hash (chain_key e.account_id) log, log))
    payload ← expect bad_payload (marshal (payload_of e json t))
    row ← expect database_error (stored_row id e json t previous (sha256 (previous ++ payload)))
    query database_error (λ log. (tt, row ∷ log))

  -- `Write`; `now` is time.Now() and `id` the sequence's next number.
  unfoldable pub write : ℕ → ℕ → Event → Handler AuditError (List Row) Unit
  write now id e = do
    stop_if (not (is_actor e.actor_type)) invalid_actor
    stop_if (is_empty (trim_space e.action)) action_required
    stop_if (is_empty (trim_space e.resource_type)) resource_required
    let t = truncate (elim e.created_at [ none ↦ now | some created ↦ created ])
    json ← expect bad_metadata (metadata_json e.metadata)
    in_tx database_error (λ _. database_error) (append id e json t)

pub data ChainError : Type 0 where
  key_required : ChainError
  previous_mismatch invalid_metadata invalid_payload hash_mismatch : ℕ → ChainError

pub data Verdict (A : Type 0) : Type 0 where
  verified : A → Verdict A
  broken : ChainError → Verdict A

-- VerificationResult without the key, and the loop's `previousHash`, whose hexadecimal form is
-- HeadHashHex.
pub record Progress : Type 0 where
  pub entries : ℕ
  pub first_id : ℕ
  pub last_id : ℕ
  pub previous : Bytes

abbrev pub beginning : Progress
beginning = record { entries = 0; first_id = 0; last_id = 0; previous = [] }

abbrev pub bytes_equal : Bytes → Bytes → Bool
bytes_equal [] [] = true
bytes_equal [] (y ∷ ys) = false
bytes_equal (x ∷ xs) [] = false
bytes_equal (x ∷ xs) (y ∷ ys) = let rest = bytes_equal xs ys in if x == y then rest else false

-- SELECT … WHERE chain_key = $1 ORDER BY id ASC
abbrev pub oldest_first : List Row → List Row
oldest_first [] = []
oldest_first (r ∷ rs) = oldest_first rs ++ (r ∷ [])

module _ (codec : Codec) where
  open codec use {sha256, marshal, reencode}

  -- normalizeJSON
  abbrev pub normalize_json : String → Option String
  normalize_json raw = if is_empty raw then some "{}" else reencode raw

  -- The payload that the verifier recomputes from a row.
  unfoldable pub row_payload : Row → String → Payload
  row_payload r json = record {
    account_id = r.account_id;
    actor_type = r.actor_type;
    actor_id = value_or_empty r.actor_id;
    action = r.action;
    resource_type = r.resource_type;
    resource_id = value_or_empty r.resource_id;
    ip_address = value_or_empty r.ip_address;
    user_agent = value_or_empty r.user_agent;
    request_id = r.request_id;
    metadata = json;
    created_at = r.created_at * 1000;
  }

  abbrev pub next : Progress → Row → Progress
  next s r = record {
    entries = s.entries + 1;
    first_id = if s.entries == 0 then r.id else s.first_id;
    last_id = r.id;
    previous = r.hash;
  }

  -- The body of the loop over the rows.
  unfoldable pub check_row : Progress → Row → Verdict Progress
  check_row s r =
      if not (bytes_equal r.previous_hash s.previous)
      then broken (previous_mismatch r.id)
      else elim (normalize_json r.metadata) [
        | none ↦ broken (invalid_metadata r.id)
        | some json ↦ elim (marshal (row_payload r json)) [
          | none ↦ broken (invalid_payload r.id)
          | some payload ↦
              if bytes_equal r.hash (sha256 (s.previous ++ payload))
              then verified (next s r)
              else broken (hash_mismatch r.id)
        ]
      ]

  unfoldable pub check_rows : Progress → List Row → Verdict Progress
  check_rows s [] = verified s
  check_rows s (r ∷ rs) = elim (check_row s r) [
    | broken e ↦ broken e
    | verified s' ↦ check_rows s' rs
  ]

  unfoldable pub verify_chain : List Row → String → Verdict Progress
  verify_chain log raw =
      let key = trim_space raw in
      if is_empty key
      then broken key_required
      else check_rows beginning
          (oldest_first (select_where (λ (r : Row). text_eq r.chain_key key) log))
