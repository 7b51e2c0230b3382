-- ===== src/Qr/Rotation.antt =====
-- What a rotation does to the stickers of a table.
use sweetops.Base.{
  ℕ, ◌≡◌, false, Option, some, List, [], ◌∷◌, arith, ◌==◌, find, inl, inr, Bool-cases, Option-cases,
  sym, ◌∙◌, ◌≢◌, ◌≤◌, ◌+◌, refl, true, none, if◌then◌else◌,
}
use sweetops.Text.{Text, text_eq, text_eq_refl, text_eq→eq, is_empty}
use sweetops.Qr.{
  TableQrToken, Table, Tokens, done, reason_or_rotate, retire, is_current, has_hash,
  insert_active_token, rotate_token, resolve_token, new_token, ResolvedQrContext,
  table_display_name,
}

-- The tokens with a hash, by number; the hash is unique in models/table_qr_token.py.
abbrev pub count_hash : Text → List TableQrToken → ℕ
count_hash hash [] = 0
count_hash hash (t ∷ ts) = (if has_hash hash t then 1 else 0) + count_hash hash ts

abbrev pub HasUniqueHashes : Tokens → Type 0
HasUniqueHashes st = (hash : Text) → count_hash hash st.tokens ≤ 1

none-current :
    (sha256 : Text → Text) (hash : Text) (ts : List TableQrToken)
    → count_hash hash ts ≡ 0
    → find (is_current sha256 hash) ts ≡ none
none-current sha256 hash [] h = refl
none-current sha256 hash (t ∷ ts) h = ground (arith, none-current sha256 hash ts)

retire-count_hash :
    (hash : Text) (table id : ℕ) (ts : List TableQrToken)
    → count_hash hash (retire table id ts) ≡ count_hash hash ts
unfolding retire
retire-count_hash hash table id [] = refl
retire-count_hash hash table id (t ∷ ts) = ground (arith, retire-count_hash hash table id ts)

-- The current token of a table is not current once it is retired.
retired_current :
    (sha256 : Text → Text) (hash : Text) (table id : ℕ) (ts : List TableQrToken) (t : TableQrToken)
    → count_hash hash ts ≤ 1
    → find (is_current sha256 hash) ts ≡ some t
    → t.table_id ≡ table
    → find (is_current sha256 hash) (retire table id ts) ≡ none
unfolding retire
retired_current sha256 hash table id [] t one h mine = absurd (ground arith)
retired_current sha256 hash table id (u ∷ ts) t one h mine =
    elim (Bool-cases (is_current sha256 hash u)) [
      | inl e ↦
          let same : u ≡ t = (let w = rw e at h in ground (arith, w)) in
          let here : (u.table_id == table) ≡ true = ground arith in
          let left : count_hash hash ts ≡ 0 = ground arith in
          let rest =
            none-current sha256 hash (retire table id ts)
              (retire-count_hash hash table id ts ∙ left) in
          ground (arith, rest)
      | inr e ↦
          let rest = retired_current sha256 hash table id ts t (ground arith) (rw e at h) mine in
          ground (arith, rest)
    ]

-- A sticker that resolves has a current token, of the table that it resolves to.
resolved-current :
    (sha256 : Text → Text) (old : Text) (st : Tokens) (ctx : ResolvedQrContext)
    → resolve_token sha256 (some old) st ≡ some ctx
    → (t : TableQrToken) × (find (is_current sha256 (sha256 old)) st.tokens ≡ some t)
      × (ctx.table_id ≡ t.table_id)
unfolding resolve_token
resolved-current sha256 old st ctx h =
    elim (Option-cases (find (is_current sha256 (sha256 old)) st.tokens)) [
      | inl e ↦ absurd (ground arith)
      | inr (t, e) ↦ (t, e, ground arith)
    ]

resolve-none :
    (sha256 : Text → Text) (old : Text) (st : Tokens)
    → find (is_current sha256 (sha256 old)) st.tokens ≡ none
    → resolve_token sha256 (some old) st ≡ none
unfolding resolve_token
resolve-none sha256 old st e = elim (Bool-cases (is_empty old)) [
  | inl empty ↦ rw (empty, resolve_token) refl
  | inr full ↦ rw (full, e, resolve_token) refl
]

module _ (sha256 : Text → Text) (table : ℕ) (reason : Option Text) (raw : Text) (st st' : Tokens)
    (t : TableQrToken) (rotated : rotate_token sha256 table reason raw st ≡ done (t, st')) where
  rotated_tokens :
      (st'.tokens
        ≡ new_token sha256 st.next_id table (reason_or_rotate reason) raw
          ∷ retire table st.next_id st.tokens)
      × (st'.tables ≡ st.tables)
      × (st'.stores ≡ st.stores)
  unfolding rotate_token insert_active_token
  rotated_tokens = (ground arith, ground arith, ground arith)

  -- While the tokens' hashes are unique, a sticker that resolved to the table before its rotation
  -- resolves to nothing afterwards, unless its hash is the new sticker's.
  pub rotate_token-resolve_token :
      (old : Text) (ctx : ResolvedQrContext)
      → HasUniqueHashes st
      → resolve_token sha256 (some old) st ≡ some ctx
      → ctx.table_id ≡ table
      → sha256 raw ≢ sha256 old
      → resolve_token sha256 (some old) st' ≡ none
  rotate_token-resolve_token old ctx one h here apart =
      let (tokens, _, _) = rotated_tokens in
      let (u, e, same) = resolved-current sha256 old st ctx h in
      let gone =
        retired_current sha256 (sha256 old) table st.next_id st.tokens u (one (sha256 old)) e
          (sym same ∙ here) in
      let other : text_eq (sha256 raw) (sha256 old) ≡ false =
        elim (Bool-cases (text_eq (sha256 raw) (sha256 old))) [
          | inl k ↦ absurd (apart (text_eq→eq (sha256 raw) (sha256 old) k))
          | inr k ↦ k
        ] in
      resolve-none sha256 old st' (ground (arith, tokens, other, gone))

  -- The new sticker resolves to the table and its store.
  pub rotate_token-resolve_token_new :
      (row : Table) (name : Text)
      → is_empty raw ≡ false
      → st.tables table ≡ some row
      → st.stores row.store_id ≡ some name
      → resolve_token sha256 (some raw) st'
        ≡ some (record {
          store_id = row.store_id;
          store_name = name;
          table_id = table;
          table_name = table_display_name table row;
        })
  unfolding resolve_token
  rotate_token-resolve_token_new row name full here stored =
      let (tokens, tables, stores) = rotated_tokens in
      ground (arith, tokens, tables, stores, text_eq_refl (sha256 raw))
