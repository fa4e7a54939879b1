-- ===== src/Audit/Tamper.antt =====
-- What two logs that verify alike have in common.
use telegram_gateway.Base.{
  ℕ, String, true, false, Option, none, some, List, [], ◌∷◌, ◌++◌, ◌+◌, ◌*◌, ◌≡◌, refl, sym, ap,
  ◌∙◌, arith, is_empty, trim_space, select_where, text_eq, ◌⊎◌, inl, inr, Bool-cases, Option-cases,
}
use telegram_gateway.Audit.{
  Bytes, Payload, Row, Codec, value_or_empty, verified, Progress, beginning, bytes_equal,
  normalize_json, row_payload, check_row, check_rows, oldest_first, verify_chain,
}
use telegram_gateway.Audit.Chain.{split, check_rows-Split}

module _ (codec : Codec) where
  open codec use {sha256, marshal}

  -- Two different texts of bytes with one digest.
  pub record Collision : Type 0 where
    pub left : Bytes
    pub right : Bytes
    pub different : bytes_equal left right ≡ false
    pub same_digest : sha256 left ≡ sha256 right

  -- What a row's digest covers of the row itself, `none` where the verifier cannot rebuild it.
  content : Row → Option Bytes
  content r = elim (normalize_json codec r.metadata) [
    | none ↦ none
    | some json ↦ marshal (row_payload codec r json)
  ]

  -- Two rows that record the same event: the same account, actor, action, resource, address, agent,
  -- request and time, the same metadata once it is normalised; NULL counts as the empty text where a
  -- writer stores it for that.
  pub record SameEvent (r s : Row) : Type 0 where
    pub same_account : r.account_id ≡ s.account_id
    pub same_actor_type : r.actor_type ≡ s.actor_type
    pub same_actor_id : value_or_empty r.actor_id ≡ value_or_empty s.actor_id
    pub same_action : r.action ≡ s.action
    pub same_resource_type : r.resource_type ≡ s.resource_type
    pub same_resource_id : value_or_empty r.resource_id ≡ value_or_empty s.resource_id
    pub same_ip_address : value_or_empty r.ip_address ≡ value_or_empty s.ip_address
    pub same_user_agent : value_or_empty r.user_agent ≡ value_or_empty s.user_agent
    pub same_request_id : r.request_id ≡ s.request_id
    pub same_metadata : normalize_json codec r.metadata ≡ normalize_json codec s.metadata
    pub same_created_at : r.created_at ≡ s.created_at

  -- Row by row the same events.
  pub data SameEvents : List Row → List Row → Type 0 where
    no_rows : SameEvents [] []
    and_row :
        (r s : Row) (rs ss : List Row)
        → SameEvent r s
        → SameEvents rs ss
        → SameEvents (r ∷ rs) (s ∷ ss)

  -- JSON tells payloads apart whose metadata is normalised.
  abbrev pub TellsApart : Type 0
  TellsApart =
      (p q : Payload) (a b : String) (json : Bytes)
      → normalize_json codec a ≡ some p.metadata
      → normalize_json codec b ≡ some q.metadata
      → marshal p ≡ some json
      → marshal q ≡ some json
      → p ≡ q

  content-SameEvent :
      (r s : Row) (json : Bytes)
      → TellsApart
      → content r ≡ some json
      → content s ≡ some json
      → SameEvent r s
  unfolding content row_payload
  content-SameEvent r s json apart h k = elim (Option-cases (normalize_json codec r.metadata)) [
    | inl n ↦ absurd (ground arith)
    | inr (a, n) ↦ elim (Option-cases (normalize_json codec s.metadata)) [
      | inl m ↦ absurd (ground arith)
      | inr (b, m) ↦
          let same : row_payload codec r a ≡ row_payload codec s b =
            apart _ _ r.metadata s.metadata json n m (ground arith) (ground arith) in
          let time : r.created_at * 1000 ≡ s.created_at * 1000 = ap (λ p. p.created_at) same in
          record {
            same_account = ap (λ p. p.account_id) same;
            same_actor_type = ap (λ p. p.actor_type) same;
            same_actor_id = ap (λ p. p.actor_id) same;
            same_action = ap (λ p. p.action) same;
            same_resource_type = ap (λ p. p.resource_type) same;
            same_resource_id = ap (λ p. p.resource_id) same;
            same_ip_address = ap (λ p. p.ip_address) same;
            same_user_agent = ap (λ p. p.user_agent) same;
            same_request_id = ap (λ p. p.request_id) same;
            same_metadata = n ∙ ap (λ p. some p.metadata) same ∙ sym m;
            same_created_at = omega (arith, time);
          }
    ]
  ]

  bytes_equal_sound : (a b : Bytes) → bytes_equal a b ≡ true → a ≡ b
  bytes_equal_sound [] [] h = refl
  bytes_equal_sound [] (y ∷ b) h = absurd (cc)
  bytes_equal_sound (x ∷ a) [] h = absurd (cc)
  bytes_equal_sound (x ∷ a) (y ∷ b) h = ground (arith, bytes_equal_sound a b)

  unfoldable pub size : Bytes → ℕ
  size [] = 0
  size (x ∷ b) = size b + 1

  append_cancel : (a b x y : Bytes) → size a ≡ size b → a ++ x ≡ b ++ y → (a ≡ b) × (x ≡ y)
  unfolding size
  append_cancel [] [] x y s h = (refl, h)
  append_cancel [] (v ∷ b) x y s h = absurd (ground arith)
  append_cancel (u ∷ a) [] x y s h = absurd (ground arith)
  append_cancel (u ∷ a) (v ∷ b) x y s h = ground (arith, append_cancel a b x y)

  -- What a verified row says of its digest.
  check_row-digest :
      (s : Progress) (r : Row) (t : Progress)
      → check_row codec s r ≡ verified t
      → (payload : Bytes) × (content r ≡ some payload)
        × (t.previous ≡ sha256 (s.previous ++ payload))
        × (t.entries ≡ s.entries + 1)
  unfolding check_row content
  check_row-digest s r t h = elim (Option-cases (normalize_json codec r.metadata)) [
    | inl n ↦ absurd (ground arith)
    | inr (json, n) ↦ elim (Option-cases (marshal (row_payload codec r json))) [
      | inl m ↦ absurd (ground arith)
      | inr (b, m) ↦ (
        b,
        ground arith,
        ground (arith, bytes_equal_sound r.hash (sha256 (s.previous ++ b))),
        ground arith,
      )
    ]
  ]

  -- Where the previous hash of a verified chain comes from.
  data Origin (s : Progress) : Type 0 where
    none_yet : s.entries ≡ 0 → s.previous ≡ [] → Origin s
    digest : (b : Bytes) (n : ℕ) → s.entries ≡ n + 1 → s.previous ≡ sha256 b → Origin s

  origin :
      (xs : List Row) (s : Progress)
      → check_rows codec beginning (oldest_first xs) ≡ verified s
      → Origin s
  unfolding check_rows
  origin [] s h = none_yet (ground arith) (ground arith)
  origin (x ∷ xs) s h = elim (check_rows-Split codec beginning (oldest_first xs) x s h) [
    | split u k l ↦
        let (b, found, made, counted) = check_row-digest u x s l in
        digest (u.previous ++ b) u.entries counted made
  ]

  same_size :
      (s t : Progress)
      → ((a b : Bytes) → size (sha256 a) ≡ size (sha256 b))
      → Origin s
      → Origin t
      → s.entries ≡ t.entries
      → size s.previous ≡ size t.previous
  unfolding size
  same_size s t same (none_yet n p) (none_yet m q) e = rw p (rw q refl)
  same_size s t same (none_yet n p) (digest b m k q) e = absurd (ground arith)
  same_size s t same (digest b m k q) (none_yet n p) e = absurd (ground arith)
  same_size s t same (digest a n k p) (digest b m l q) e = rw p (rw q (same a b))

  rows_agree :
      (xs ys : List Row) (s t : Progress)
      → TellsApart
      → ((a b : Bytes) → size (sha256 a) ≡ size (sha256 b))
      → check_rows codec beginning (oldest_first xs) ≡ verified s
      → check_rows codec beginning (oldest_first ys) ≡ verified t
      → s.entries ≡ t.entries
      → s.previous ≡ t.previous
      → Collision ⊎ SameEvents xs ys
  unfolding check_rows
  rows_agree [] [] s t apart fixed hs ht en pr = inr no_rows
  rows_agree [] (y ∷ ys) s t apart fixed hs ht en pr =
      elim (check_rows-Split codec beginning (oldest_first ys) y t ht) [
        | split u k l ↦ let (b, yb, tb, nb) = check_row-digest u y t l in absurd (ground arith)
      ]
  rows_agree (x ∷ xs) [] s t apart fixed hs ht en pr =
      elim (check_rows-Split codec beginning (oldest_first xs) x s hs) [
        | split u k l ↦ let (b, yb, tb, nb) = check_row-digest u x s l in absurd (ground arith)
      ]
  rows_agree (x ∷ xs) (y ∷ ys) s t apart fixed hs ht en pr =
      elim (check_rows-Split codec beginning (oldest_first xs) x s hs) [
        | split u ku lu ↦ elim (check_rows-Split codec beginning (oldest_first ys) y t ht) [
          | split v kv lv ↦
              let (a, xa, sa, na) = check_row-digest u x s lu in
              let (b, yb, tb, nb) = check_row-digest v y t lv in
              let n : u.entries ≡ v.entries = ground arith in
              let same = same_size u v fixed (origin xs u ku) (origin ys v kv) n in
              let digests : sha256 (u.previous ++ a) ≡ sha256 (v.previous ++ b) =
                sym sa ∙ pr ∙ tb in
              elim (Bool-cases (bytes_equal (u.previous ++ a) (v.previous ++ b))) [
                | inr differ ↦ inl (record {
                  left = u.previous ++ a;
                  right = v.previous ++ b;
                  different = differ;
                  same_digest = digests;
                })
                | inl equal ↦
                    let (heads, payloads) =
                      append_cancel u.previous v.previous a b same (bytes_equal_sound _ _ equal) in
                    elim (rows_agree xs ys u v apart fixed ku kv n heads) [
                      | inl c ↦ inl c
                      | inr rest ↦ inr (
                          and_row x y xs ys
                            (content-SameEvent x y b apart (xa ∙ ap some payloads) yb) rest)
                    ]
              ]
        ]
      ]

  -- Two logs in which a chain verifies with the same number of entries and the same head hash record
  -- the same events in that chain, entry for entry (account, actor, action, resource, address, agent,
  -- request, normalised metadata and time), unless two different texts have one SHA-256 digest; all
  -- digests are assumed to have the same number of bytes, and the JSON of two payloads with normalised
  -- metadata to be the same only where the payloads are.
  pub same_head-SameEvents :
      (key : String) (log log' : List Row) (s t : Progress)
      → TellsApart
      → ((a b : Bytes) → size (sha256 a) ≡ size (sha256 b))
      → verify_chain codec log key ≡ verified s
      → verify_chain codec log' key ≡ verified t
      → s.entries ≡ t.entries
      → s.previous ≡ t.previous
      → Collision
        ⊎ SameEvents
            (select_where (λ (r : Row). text_eq r.chain_key (trim_space key)) log)
            (select_where (λ (r : Row). text_eq r.chain_key (trim_space key)) log')
  unfolding verify_chain
  same_head-SameEvents key log log' s t apart fixed hs ht en pr =
      elim (Bool-cases (is_empty (trim_space key))) [
        | inl empty ↦ absurd (ground arith)
        | inr filled ↦ rows_agree _ _ s t apart fixed (ground arith) (ground arith) en pr
      ]
