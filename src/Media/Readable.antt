-- ===== src/Media/Readable.antt =====
-- Which files are read (internal/media/service.go).
use telegram_gateway.Base.{
  ℕ, String, ◌≡◌, ◌⊎◌, sym, ap, ◌∙◌, true, Option, some, ◌&&◌, inl, inr, arith, find_row,
  find_row_sound, any_row, text_eq, trim_space,
}
use telegram_gateway.Base.Handler.{World, go}
use telegram_gateway.Base.Handler.Inversion.{
  >>=-go, parts, query-go, expect-go, pure-go, >>=-stop_if,
}
use telegram_gateway.Schema.{Time}
use telegram_gateway.Media.Repository.{MediaRow, MediaDb, is_ready, of_active, get_active, no_rows}
use telegram_gateway.Media.Service.{create_read_url, open_read, text_of}

-- The file is ready and has an object, and it belongs to a message of the account that
-- active_messages shows.
pub record Readable (d : MediaDb) (account media : String) : Type 0 where
  pub row : MediaRow
  pub key : String
  pub is_row : find_row (of_active d (trim_space account) (trim_space media)) d.media ≡ some row
  pub ready_now : is_ready row.status ≡ true
  pub has_object : row.object_key ≡ some key
  pub of_message :
      any_row
        (λ s.
          text_eq s.id row.message_id && (text_eq s.account_id (trim_space account) && s.active))
        d.sources
      ≡ true

get_active-go :
    (account media : String) (r : MediaRow) (w u : World MediaDb)
    → get_active account media w ≡ (go r, u)
    → find_row (of_active w.db (trim_space account) (trim_space media)) w.db.media ≡ some r
unfolding get_active
get_active-go account media r w u h = elim (>>=-go _ _ _ _ _ h) [
  | parts row v e f ↦ sym (query-go _ _ row w v e).0 ∙ (expect-go no_rows row r v u f).0
]

found-Readable :
    (d : MediaDb) (account media : String) (r : MediaRow) (k : String)
    → find_row (of_active d (trim_space account) (trim_space media)) d.media ≡ some r
    → is_ready r.status ≡ true
    → r.object_key ≡ some k
    → Readable d account media
found-Readable d account media r k e y has =
    let all : of_active d (trim_space account) (trim_space media) r ≡ true =
      find_row_sound (of_active d (trim_space account) (trim_space media)) d.media {a = r} e in
    record {
      row = r;
      key = k;
      is_row = e;
      ready_now = y;
      has_object = has;
      of_message = ground arith;
    }

create_read_url-Readable :
    (now : Time) (link : String → String → Option String) (account media url : String) (t : Time)
    (w u : World MediaDb)
    → create_read_url now link account media w ≡ (go (url, t), u)
    → (b : Readable w.db account media) × (link b.key (text_of b.row.file_name) ≡ some url)
unfolding create_read_url found-Readable
create_read_url-Readable now link account media url t w u h = elim (>>=-go _ _ _ _ _ h) [
  | parts r v e f ↦
      let (passed, after) = >>=-stop_if _ _ _ _ v u f in
      elim (>>=-go _ _ _ _ _ after) [
        | parts k v₁ e₁ f₁ ↦ elim (>>=-go _ _ _ _ _ f₁) [
          | parts a v₂ e₂ f₂ ↦
              let has : r.object_key ≡ some k = (expect-go _ r.object_key k v v₁ e₁).0 in
              let given = (expect-go _ (link k (text_of r.file_name)) a v₁ v₂ e₂).0 in
              let (same, _) = pure-go _ (url, t) v₂ u f₂ in
              (
                found-Readable w.db account media r k (get_active-go account media r w v e)
                    (ground arith) has,
                given ∙ ap (λ x. some x.0) (sym same),
              )
        ]
      ]
]

open_read-Readable :
    (object : String → Option (ℕ × String)) (account media : String) (x : ℕ × String × String)
    (w u : World MediaDb)
    → open_read object account media w ≡ (go x, u)
    → (b : Readable w.db account media) × (object b.key ≡ some (x.0, x.1))
unfolding open_read found-Readable
open_read-Readable object account media x w u h = elim (>>=-go _ _ _ _ _ h) [
  | parts r v e f ↦
      let (passed, after) = >>=-stop_if _ _ _ _ v u f in
      elim (>>=-go _ _ _ _ _ after) [
        | parts k v₁ e₁ f₁ ↦ elim (>>=-go _ _ _ _ _ f₁) [
          | parts a v₂ e₂ f₂ ↦
              let has : r.object_key ≡ some k = (expect-go _ r.object_key k v v₁ e₁).0 in
              let given = (expect-go _ (object k) a v₁ v₂ e₂).0 in
              let (same, _) = pure-go _ x v₂ u f₂ in
              (
                found-Readable w.db account media r k (get_active-go account media r w v e)
                    (ground arith) has,
                given ∙ ap (λ y. some (y.0, y.1)) (sym same),
              )
        ]
      ]
]

-- Only a file that is ready and belongs to a shown message of the account is read: where CreateReadURL
-- gives an address or OpenRead an object, for the account and the media id of the request, the row of
-- that id is ready, has an object key, and is of a message of the account that active_messages shows;
-- and the address, or the size and type of the object, are what the store answers for that key.
pub media_read_sound :
    (now : Time) (link : String → String → Option String) (object : String → Option (ℕ × String))
    (account media url : String) (t : Time) (x : ℕ × String × String) (w u v : World MediaDb)
    → (create_read_url now link account media w ≡ (go (url, t), u))
      ⊎ (open_read object account media w ≡ (go x, v))
    → (b : Readable w.db account media) × ((link b.key (text_of b.row.file_name) ≡ some url)
        ⊎ (object b.key ≡ some (x.0, x.1)))
media_read_sound now link object account media url t x w u v (inl h) =
    let (b, given) = create_read_url-Readable now link account media url t w u h in (b, inl given)
media_read_sound now link object account media url t x w u v (inr h) =
    let (b, given) = open_read-Readable object account media x w v h in (b, inr given)
