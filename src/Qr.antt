-- ===== src/Qr.antt =====
-- The QR tokens of the tables, of apps/api/app/services/qr_token_service.py: issue, rotate and revoke,
-- and the resolution of a raw token to its table and store. The random raw token is an argument;
-- `sha256` is hashlib's. `created_reason`'s timestamps, and `last_used_at` of `touch`, are left out.
-- A table row has no `is_active` in this schema, so the two `_is_active` helpers are true.
pub mod OneActive
pub mod Rotation
use sweetops.Base.{
  ℕ, zero, suc, Bool, true, false, ◌&&◌, Option, none, some, List, [], ◌∷◌, ◌++◌, map, ◌==◌,
  if◌then◌else◌, find,
}
use sweetops.Text.{Text, text_eq, strip, is_empty}
use sweetops.Digest.{codes, str_nat}

pub data TokenStatus : Type 0 where
  active revoked : TokenStatus

pub record TableQrToken : Type 0 where
  pub id : ℕ
  pub table_id : ℕ
  pub token_hash : Text
  pub token_prefix : Text
  pub status : TokenStatus
  pub created_reason : Option Text
  pub replaced_by_id : Option ℕ

pub record Table : Type 0 where
  pub store_id : ℕ
  pub table_number : Option Text

-- The rows that the service reads and writes; `stores` gives a store's name.
pub record Tokens : Type 0 where
  pub tables : ℕ → Option Table
  pub stores : ℕ → Option Text
  pub tokens : List TableQrToken
  pub next_id : ℕ

-- What a staff command ends in: its result, or the exception that it raises.
pub data Attempt {ℓ} (A : Type ℓ) : Type ℓ where
  done : A → Attempt A
  value_error : Attempt A
  active_token_exists : ℕ → Attempt A
  hash_taken : Attempt A

abbrev pub is_active : TokenStatus → Bool
is_active active = true
is_active revoked = false

abbrev pub is_active_of : ℕ → TableQrToken → Bool
is_active_of table t = t.table_id == table && is_active t.status

-- `raw_token[:TOKEN_PREFIX_LEN]`
take_text : ℕ → Text → Text
take_text zero s = []
take_text (suc k) [] = []
take_text (suc k) (c ∷ s) = c ∷ take_text k s

unfoldable pub token_prefix : Text → Text
unfolding take_text
token_prefix raw = take_text 8 raw

-- `table_display_name`
table_number_of : Option Text → Text
unfolding strip
table_number_of none = []
table_number_of (some number) = strip number

unfoldable pub table_display_name : ℕ → Table → Text
unfolding table_number_of str_nat
table_display_name id table =
    let number = table_number_of table.table_number in
    if is_empty number then codes "Masa #" ++ str_nat id else codes "Masa " ++ number

-- `_active_tokens_for_table`
unfoldable pub active_tokens_for_table : ℕ → List TableQrToken → List TableQrToken
active_tokens_for_table table [] = []
active_tokens_for_table table (t ∷ ts) =
    let rest = active_tokens_for_table table ts in if is_active_of table t then t ∷ rest else rest

abbrev pub has_hash : Text → TableQrToken → Bool
has_hash hash t = text_eq t.token_hash hash

-- The loop of rotate_token over the active tokens: each is revoked, and linked to its successor.
abbrev pub retire_one : ℕ → ℕ → TableQrToken → TableQrToken
retire_one table successor t =
    if is_active_of table t
    then record t { status = revoked; replaced_by_id = some successor }
    else t

unfoldable pub retire : ℕ → ℕ → List TableQrToken → List TableQrToken
retire table successor ts = map (retire_one table successor) ts

abbrev pub is_token : ℕ → TableQrToken → Bool
is_token id t = t.id == id

abbrev pub revoke_one : ℕ → TableQrToken → TableQrToken
revoke_one id t = if is_token id t then record t { status = revoked } else t

-- `created_reason or "rotate"`
abbrev pub reason_or_rotate : Option Text → Option Text
reason_or_rotate none = some (codes "rotate")
reason_or_rotate (some reason) = if is_empty reason then some (codes "rotate") else some reason

-- What a resolved token says.
pub record ResolvedQrContext : Type 0 where
  pub store_id : ℕ
  pub store_name : Text
  pub table_id : ℕ
  pub table_name : Text

module _ (sha256 : Text → Text) where
  abbrev pub new_token : ℕ → ℕ → Option Text → Text → TableQrToken
  new_token id table reason raw = record {
    id = id;
    table_id = table;
    token_hash = sha256 raw;
    token_prefix = token_prefix raw;
    status = active;
    created_reason = reason;
    replaced_by_id = none;
  }

  -- `_insert_active_token`; the hash is unique.
  unfoldable pub insert_active_token :
      ℕ → Option Text → Text → Tokens → Attempt (TableQrToken × Tokens)
  insert_active_token table reason raw st = elim (find (has_hash (sha256 raw)) st.tokens) [
    | some _ ↦ hash_taken
    | none ↦
        let token = new_token st.next_id table reason raw in
        done (token, record st { tokens = token ∷ st.tokens; next_id = suc st.next_id })
  ]

  -- `issue_token`
  unfoldable pub issue_token : ℕ → Option Text → Text → Tokens → Attempt (TableQrToken × Tokens)
  issue_token table reason raw st = elim (st.tables table) [
    | none ↦ value_error
    | some row ↦ elim (st.stores row.store_id) [
      | none ↦ value_error
      | some _ ↦ elim (active_tokens_for_table table st.tokens) [
        | existing ∷ _ ↦ active_token_exists existing.id
        | [] ↦ insert_active_token table reason raw st
      ]
    ]
  ]

  -- `rotate_token`
  unfoldable pub rotate_token : ℕ → Option Text → Text → Tokens → Attempt (TableQrToken × Tokens)
  rotate_token table reason raw st = elim (st.tables table) [
    | none ↦ value_error
    | some _ ↦
        insert_active_token table (reason_or_rotate reason) raw
          (record st { tokens = retire table st.next_id st.tokens })
  ]

  -- `rotate_by_id`
  unfoldable pub rotate_by_id : ℕ → Option Text → Text → Tokens → Attempt (TableQrToken × Tokens)
  rotate_by_id id reason raw st = elim (find (is_token id) st.tokens) [
    | none ↦ value_error
    | some token ↦
        if is_active token.status then rotate_token token.table_id reason raw st else value_error
  ]

  -- `resolve_token`
  abbrev pub is_current : Text → TableQrToken → Bool
  is_current hash t = text_eq t.token_hash hash && is_active t.status

  unfoldable pub resolve_token : Option Text → Tokens → Option ResolvedQrContext
  resolve_token none st = none
  resolve_token (some raw) st = elim (is_empty raw) [
    | true ↦ none
    | false ↦ elim (find (is_current (sha256 raw)) st.tokens) [
      | none ↦ none
      | some token ↦ elim (st.tables token.table_id) [
        | none ↦ none
        | some table ↦ elim (st.stores table.store_id) [
          | none ↦ none
          | some name ↦ some (record {
            store_id = table.store_id;
            store_name = name;
            table_id = token.table_id;
            table_name = table_display_name token.table_id table;
          })
        ]
      ]
    ]
  ]

-- `revoke_by_id`
unfoldable pub revoke_by_id : ℕ → Tokens → Attempt (TableQrToken × Tokens)
revoke_by_id id st = elim (find (is_token id) st.tokens) [
  | none ↦ value_error
  | some token ↦
      if is_active token.status
      then done
          (record token { status = revoked }, record st { tokens = map (revoke_one id) st.tokens })
      else value_error
]
