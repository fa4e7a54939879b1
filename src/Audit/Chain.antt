-- ===== src/Audit/Chain.antt =====
-- Writing to the audit log and verifying it.
use mathlib.Core.Path.{subst}
use Prim.Native.Nat.{◌/◌}
use telegram_gateway.Base.{
  ℕ, String, true, false, Option, none, some, List, [], ◌∷◌, ◌++◌, ◌+◌, ◌*◌, ◌≡◌, refl, sym, ap,
  ◌∙◌, arith, is_empty, text_eq, eq_iff, trim_space, trim_space_idem, if◌then◌else◌, select_where,
  Bool-cases, Option-cases, inl, inr,
}
use telegram_gateway.Base.Handler.{World, go, ◌>>=◌}
use telegram_gateway.Base.Handler.Inversion.{
  parts, >>=-go, committed, in_tx-go, stop_if-keeps, expect-go,
}
use telegram_gateway.Audit.{
  Bytes, Event, Row, Codec, chain_key, truncate, payload_of, null_if_empty, value_or_empty,
  head_hash, stored_row, write, ChainError, key_required, Verdict, verified, broken, Progress,
  beginning, bytes_equal, normalize_json, row_payload, next, check_row, check_rows, oldest_first,
  verify_chain, metadata_json, cast, append,
}

bytes_equal_refl : (b : Bytes) → bytes_equal b b ≡ true
bytes_equal_refl [] = refl
bytes_equal_refl (x ∷ b) = ground (arith, bytes_equal_refl b)

data VerdictView {A : Type 0} (v : Verdict A) : Type 0 where
  is_verified : (a : A) → v ≡ verified a → VerdictView v
  is_broken : (e : ChainError) → v ≡ broken e → VerdictView v

view : {A : Type 0} (v : Verdict A) → VerdictView v
view (verified a) = is_verified a refl
view (broken e) = is_broken e refl

value-null : (s : String) → value_or_empty (null_if_empty s) ≡ s
value-null String.[] = refl
value-null (String.◌∷◌ c s) = refl

cast-Canonical :
    (read : String → Option String) (o p : Option String)
    → ((s : String) → o ≡ some s → read s ≡ some s)
    → cast read o ≡ some p
    → p ≡ o
cast-Canonical read none p c h = ground arith
cast-Canonical read (some s) p c h = ground (arith, c s refl)

truncate_again : (t : ℕ) → t / 1000 * 1000 / 1000 * 1000 ≡ t / 1000 * 1000
truncate_again t = omega arith

module _ (codec : Codec) where
  open codec use {sha256, marshal, reencode, uuid_text, inet_text, jsonb_text}

  -- An event whose texts PostgreSQL gives back as they were written.
  pub record Canonical (e : Event) : Type 0 where
    pub account : (s : String) → e.account_id ≡ some s → uuid_text s ≡ some s
    pub request : (s : String) → e.request_id ≡ some s → uuid_text s ≡ some s
    pub address : is_empty e.ip_address ≡ false → inet_text e.ip_address ≡ some e.ip_address
    pub json :
        (m s : String)
        → metadata_json e.metadata ≡ some m
        → jsonb_text m ≡ some s
        → normalize_json codec s ≡ some m

  check_rows-snoc :
      (s : Progress) (rs : List Row) (r : Row) (s' : Progress)
      → check_rows codec s rs ≡ verified s'
      → check_rows codec s (rs ++ (r ∷ [])) ≡ check_row codec s' r
  unfolding check_rows
  check_rows-snoc s [] r s' h = elim (view (check_row codec s' r)) [
    | is_verified a e ↦ ground arith
    | is_broken a e ↦ ground arith
  ]
  check_rows-snoc s (x ∷ rs) r s' h = elim (view (check_row codec s x)) [
    | is_verified a e ↦ ground (arith, check_rows-snoc a rs r s')
    | is_broken a e ↦ absurd (ground arith)
  ]

  check_row-previous :
      (s : Progress) (r : Row) (t : Progress)
      → check_row codec s r ≡ verified t
      → t.previous ≡ r.hash
  unfolding check_row
  check_row-previous s r t h = elim (Option-cases (normalize_json codec r.metadata)) [
    | inl n ↦ absurd (ground arith)
    | inr (json, n) ↦ elim (Option-cases (marshal (row_payload codec r json))) [
      | inl m ↦ absurd (ground arith)
      | inr (b, m) ↦ ground arith
    ]
  ]

  -- A chain that verifies with one more row verifies without it.
  pub data Split (s : Progress) (rs : List Row) (r : Row) (t : Progress) : Type 0 where
    split :
        (u : Progress)
        → check_rows codec s rs ≡ verified u
        → check_row codec u r ≡ verified t
        → Split s rs r t

  pub check_rows-Split :
      (s : Progress) (rs : List Row) (r : Row) (t : Progress)
      → check_rows codec s (rs ++ (r ∷ [])) ≡ verified t
      → Split s rs r t
  unfolding check_rows
  check_rows-Split s [] r t h = split s refl (elim (view (check_row codec s r)) [
    | is_verified a e ↦ ground arith
    | is_broken a e ↦ absurd (ground arith)
  ])
  check_rows-Split s (x ∷ rs) r t h = elim (view (check_row codec s x)) [
    | is_broken a e ↦ absurd (ground arith)
    | is_verified a e ↦ elim (check_rows-Split a rs r t (ground arith)) [
      | split u k l ↦ split u (ground arith) l
    ]
  ]

  -- Where the verifier's previous hash stands after a chain: at the hash of its newest row.
  verified-head :
      (key : String) (log : List Row) (s : Progress)
      → check_rows codec beginning
          (oldest_first (select_where (λ (r : Row). text_eq r.chain_key key) log))
        ≡ verified s
      → s.previous ≡ head_hash key log
  unfolding head_hash check_rows
  verified-head key [] s h = ground arith
  verified-head key (r ∷ log) s h = elim (Bool-cases (text_eq r.chain_key key)) [
    | inr other ↦ ground (arith, verified-head key log s)
    | inl mine ↦
        elim (check_rows-Split beginning
          (oldest_first (select_where (λ (r : Row). text_eq r.chain_key key) log)) r s
          (ground arith)) [ split u k l ↦ check_row-previous u r s l ∙ ground arith ]
  ]

  null-Canonical :
      (e : Event) (p : Option String)
      → Canonical e
      → cast inet_text (null_if_empty e.ip_address) ≡ some p
      → value_or_empty p ≡ e.ip_address
  null-Canonical e p c h = elim (Bool-cases (is_empty e.ip_address)) [
    | inl empty ↦ ground (arith, value-null e.ip_address)
    | inr filled ↦ ground (arith, c.address filled)
  ]

  data Stored (id : ℕ) (e : Event) (m : String) (t : ℕ) (previous current : Bytes) (r : Row)
      : Type 0 where
    stored :
        (account ip request : Option String) (json : String)
        → cast uuid_text e.account_id ≡ some account
        → cast inet_text (null_if_empty e.ip_address) ≡ some ip
        → cast uuid_text e.request_id ≡ some request
        → jsonb_text m ≡ some json
        → r ≡ record {
          id = id;
          account_id = account;
          chain_key = chain_key e.account_id;
          actor_type = e.actor_type;
          actor_id = null_if_empty e.actor_id;
          action = e.action;
          resource_type = e.resource_type;
          resource_id = null_if_empty e.resource_id;
          ip_address = ip;
          user_agent = null_if_empty e.user_agent;
          request_id = request;
          metadata = json;
          previous_hash = previous;
          hash = current;
          created_at = t / 1000;
        }
        → Stored id e m t previous current r

  stored_row-Stored :
      (id : ℕ) (e : Event) (m : String) (t : ℕ) (previous current : Bytes) (r : Row)
      → stored_row codec id e m t previous current ≡ some r
      → Stored id e m t previous current r
  unfolding stored_row
  stored_row-Stored id e m t previous current r h =
      elim (Option-cases (cast uuid_text e.account_id)) [
        | inl n ↦ absurd (ground arith)
        | inr (a, ea) ↦ elim (Option-cases (cast inet_text (null_if_empty e.ip_address))) [
          | inl n ↦ absurd (ground arith)
          | inr (i, ei) ↦ elim (Option-cases (cast uuid_text e.request_id)) [
            | inl n ↦ absurd (ground arith)
            | inr (q, eq) ↦ elim (Option-cases (jsonb_text m)) [
              | inl n ↦ absurd (ground arith)
              | inr (j, ej) ↦ stored a i q j ea ei eq ej (ground arith)
            ]
          ]
        ]
      ]

  stored_row-payload :
      (id : ℕ) (e : Event) (m : String) (t : ℕ) (previous current : Bytes) (r : Row)
      → Canonical e
      → metadata_json e.metadata ≡ some m
      → stored_row codec id e m (truncate t) previous current ≡ some r
      → (normalize_json codec r.metadata ≡ some m)
        × (row_payload codec r m ≡ payload_of e m (truncate t))
  unfolding row_payload truncate
  stored_row-payload id e m t previous current r c em h =
      elim (stored_row-Stored id e m (truncate t) previous current r h) [
        | stored a i q j ea ei eq ej er ↦ (
          rw er (c.json m j em ej),
          rw er (
              rw (cast-Canonical uuid_text e.account_id a c.account ea) (
                rw (cast-Canonical uuid_text e.request_id q c.request eq) (
                  rw (null-Canonical e i c ei) (
                    rw (value-null e.actor_id) (
                      rw (value-null e.resource_id)
                        (rw (value-null e.user_agent) (rw (truncate_again t) refl))))))),
        )
      ]

  pub data Written (now id : ℕ) (e : Event) (d d' : List Row) : Type 0 where
    written :
        (t : ℕ) (m : String) (payload : Bytes) (r : Row)
        → metadata_json e.metadata ≡ some m
        → marshal (payload_of e m (truncate t)) ≡ some payload
        → stored_row codec id e m
            (truncate t)
            (head_hash (chain_key e.account_id) d)
            (sha256 (head_hash (chain_key e.account_id) d ++ payload))
          ≡ some r
        → d' ≡ r ∷ d
        → Written now id e d d'

  append-Written :
      (now id : ℕ) (e : Event) (m : String) (t : ℕ) (w w' : World (List Row)) (x : Unit {0})
      → metadata_json e.metadata ≡ some m
      → append codec id e m (truncate t) w ≡ (go x, w')
      → Written now id e w.db w'.db
  unfolding ◌>>=◌
  append-Written now id e m t w w' x em h =
      let key = chain_key e.account_id in
      elim (Option-cases (marshal (payload_of e m (truncate t)))) [
        | inl refused ↦ absurd (ground arith)
        | inr (payload, ep) ↦
            elim (Option-cases (
              stored_row codec id e m (truncate t) (head_hash key w.db)
                (sha256 (head_hash key w.db ++ payload)))) [
                  | inl refused ↦ absurd (ground arith)
                  | inr (r, er) ↦ written t m payload r em ep er (ground arith)
                ]
      ]

  -- What a successful write has stored.
  pub write-Written :
      (now id : ℕ) (e : Event) (w w' : World (List Row)) (x : Unit {0})
      → write codec now id e w ≡ (go x, w')
      → Written now id e w.db w'.db
  unfolding write
  write-Written now id e w w' x h = elim (>>=-go _ _ _ _ _ h) [
    | parts _ u₁ e₁ h₁ ↦ elim (>>=-go _ _ _ _ _ h₁) [
      | parts _ u₂ e₂ h₂ ↦ elim (>>=-go _ _ _ _ _ h₂) [
        | parts _ u₃ e₃ h₃ ↦ elim (>>=-go _ _ _ _ _ h₃) [
          | parts m u₄ e₄ h₄ ↦ elim (in_tx-go _ _ _ _ _ _ h₄) [
            | committed v u same run final ↦
                let same₁ = stop_if-keeps _ _ _ w u₁ e₁ in
                let same₂ = stop_if-keeps _ _ _ u₁ u₂ e₂ in
                let same₃ = stop_if-keeps _ _ _ u₂ u₃ e₃ in
                let (found, same₄) = expect-go _ (metadata_json e.metadata) m u₃ u₄ e₄ in
                let result = append-Written now id e m _ v u x found run in
                subst (λ d. Written now id e d w'.db) (same ∙ same₄ ∙ same₃ ∙ same₂ ∙ same₁)
                  (subst (Written now id e v.db) (sym final) result)
          ]
        ]
      ]
    ]
  ]

  check_row-accepts :
      (s : Progress) (r : Row) (m : String) (payload : Bytes)
      → r.previous_hash ≡ s.previous
      → normalize_json codec r.metadata ≡ some m
      → marshal (row_payload codec r m) ≡ some payload
      → r.hash ≡ sha256 (s.previous ++ payload)
      → check_row codec s r ≡ verified (next codec s r)
  unfolding check_row
  check_row-accepts s r m payload hp hn hm hh = rw hp (
      rw (bytes_equal_refl s.previous)
        (rw hn (rw hm (rw hh (rw (bytes_equal_refl (sha256 (s.previous ++ payload))) refl)))))

  trim_global : trim_space "global" ≡ "global"
  unfolding trim_space
  trim_global = refl

  key_trimmed :
      (o : Option String)
      → (trim_space (chain_key o) ≡ chain_key o) × (is_empty (chain_key o) ≡ false)
  unfolding chain_key
  key_trimmed none = (trim_global, refl)
  key_trimmed (some a) = elim (Bool-cases (is_empty (trim_space a))) [
    | inl b ↦ rw b (trim_global, refl)
    | inr f ↦ rw f (trim_space_idem a, f)
  ]

  new_row :
      (id : ℕ) (e : Event) (m : String) (t : ℕ) (previous current : Bytes) (r : Row)
      → stored_row codec id e m t previous current ≡ some r
      → (text_eq r.chain_key (chain_key e.account_id) ≡ true)
        × (r.id ≡ id)
        × (r.previous_hash ≡ previous)
        × (r.hash ≡ current)
  new_row id e m t previous current r h = elim (stored_row-Stored id e m t previous current r h) [
    | stored a i q j ea ei eq ej er ↦ (
      rw er ((eq_iff (chain_key e.account_id) (chain_key e.account_id)).1 refl),
      ap (λ r. r.id) er,
      ap (λ r. r.previous_hash) er,
      ap (λ r. r.hash) er,
    )
  ]

  rows_of : String → List Row → List Row
  rows_of key log = oldest_first (select_where (λ (r : Row). text_eq r.chain_key key) log)

  verify_chain-trimmed :
      (key : String) (log : List Row)
      → trim_space key ≡ key
      → is_empty key ≡ false
      → verify_chain codec log key ≡ check_rows codec beginning (rows_of key log)
  unfolding verify_chain rows_of
  verify_chain-trimmed key log trimmed filled =
      subst
        (λ k.
          (if is_empty k then broken key_required else check_rows codec beginning (rows_of k log))
          ≡ check_rows codec beginning (rows_of key log))
        (sym trimmed) (rw filled refl)

  verify_chain-cons :
      (e : Event) (r : Row) (log : List Row) (s t : Progress)
      → text_eq r.chain_key (chain_key e.account_id) ≡ true
      → verify_chain codec log (chain_key e.account_id) ≡ verified s
      → check_row codec s r ≡ verified t
      → verify_chain codec (r ∷ log) (chain_key e.account_id) ≡ verified t
  unfolding rows_of
  verify_chain-cons e r log s t mine v ok =
      let key = chain_key e.account_id in
      let (trimmed, filled) = key_trimmed e.account_id in
      verify_chain-trimmed key (r ∷ log) trimmed filled
      ∙ rw mine (
          check_rows-snoc beginning (rows_of key log) r s
            (sym (verify_chain-trimmed key log trimmed filled) ∙ v)
          ∙ ok)

  -- After a successful write of an event whose texts PostgreSQL keeps as they are, the event's chain,
  -- if it verified before, verifies again, with one more entry, the last of which has the new id.
  pub write_verifies :
      (now id : ℕ) (e : Event) (w w' : World (List Row)) (x : Unit {0}) (s : Progress)
      → Canonical e
      → verify_chain codec w.db (chain_key e.account_id) ≡ verified s
      → write codec now id e w ≡ (go x, w')
      → (s' : Progress) × (verify_chain codec w'.db (chain_key e.account_id) ≡ verified s')
        × (s'.entries ≡ s.entries + 1)
        × (s'.last_id ≡ id)
  unfolding rows_of
  write_verifies now id e w w' x s c v h = elim (write-Written now id e w w' x h) [
    | written t m payload r em ep er ed ↦
        let (mine, same_id, previous, current) = new_row id e m (truncate t) _ _ r er in
        let (normal, same_payload) = stored_row-payload id e m t _ _ r c em er in
        let (trimmed, filled) = key_trimmed e.account_id in
        let verifies =
          sym (verify_chain-trimmed (chain_key e.account_id) w.db trimmed filled) ∙ v in
        let accepts =
          check_row-accepts s r m payload
            (previous ∙ sym (verified-head (chain_key e.account_id) w.db s verifies)) normal
            (ap marshal same_payload ∙ ep)
            (current
              ∙ ap (λ b. sha256 (b ++ payload))
                  (sym (verified-head (chain_key e.account_id) w.db s verifies))) in
        (
          next codec s r,
          ap (λ d. verify_chain codec d (chain_key e.account_id)) ed
              ∙ verify_chain-cons e r w.db s (next codec s r) mine v accepts,
          refl,
          same_id,
        )
  ]
