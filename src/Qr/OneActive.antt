-- ===== src/Qr/OneActive.antt =====
-- At most one active token for each table.
use sweetops.Base.{
  ℕ, ◌≡◌, refl, Option, List, [], ◌∷◌, arith, map, if◌then◌else◌, find, inl, inr, Option-cases, ◌≤◌,
  ◌+◌,
}
use sweetops.Text.{Text}
use sweetops.Qr.{
  TableQrToken, Tokens, Attempt, done, value_error, active_token_exists, hash_taken, is_active_of,
  active_tokens_for_table, reason_or_rotate, is_token, retire, revoke_one, insert_active_token,
  issue_token, rotate_token, rotate_by_id, revoke_by_id,
}

-- The active tokens of a table, by number.
abbrev pub count_active : ℕ → List TableQrToken → ℕ
count_active table [] = 0
count_active table (t ∷ ts) = (if is_active_of table t then 1 else 0) + count_active table ts

abbrev pub IsOneActive : Tokens → Type 0
IsOneActive st = (table : ℕ) → count_active table st.tokens ≤ 1

retire-none : (table id : ℕ) (ts : List TableQrToken) → count_active table (retire table id ts) ≡ 0
unfolding retire
retire-none table id [] = refl
retire-none table id (t ∷ ts) = ground (arith, retire-none table id ts)

retire-others :
    (table id other : ℕ) (ts : List TableQrToken)
    → count_active other (retire table id ts) ≤ count_active other ts
unfolding retire
retire-others table id other [] = omega arith
retire-others table id other (t ∷ ts) = ground (arith, retire-others table id other ts)

revoke-fewer :
    (id table : ℕ) (ts : List TableQrToken)
    → count_active table (map (revoke_one id) ts) ≤ count_active table ts
revoke-fewer id table [] = omega arith
revoke-fewer id table (t ∷ ts) = ground (arith, revoke-fewer id table ts)

no_active :
    (table : ℕ) (ts : List TableQrToken)
    → active_tokens_for_table table ts ≡ []
    → count_active table ts ≡ 0
unfolding active_tokens_for_table
no_active table [] h = refl
no_active table (t ∷ ts) h = ground (arith, no_active table ts)

module _ (sha256 : Text → Text) where
  insert-IsOneActive :
      (table : ℕ) (reason : Option Text) (raw : Text) (st st' : Tokens) (t : TableQrToken)
      → ((other : ℕ) → count_active other st.tokens ≤ 1)
      → count_active table st.tokens ≡ 0
      → insert_active_token sha256 table reason raw st ≡ done (t, st')
      → IsOneActive st'
  unfolding insert_active_token
  insert-IsOneActive table reason raw st st' t one none_left h other = ground (arith, one other)

  issue-IsOneActive :
      (table : ℕ) (reason : Option Text) (raw : Text) (st st' : Tokens) (t : TableQrToken)
      → IsOneActive st
      → issue_token sha256 table reason raw st ≡ done (t, st')
      → IsOneActive st'
  unfolding issue_token
  issue-IsOneActive table reason raw st st' t one h =
      insert-IsOneActive table reason raw st st' t one (no_active table st.tokens (ground arith))
        (ground arith)

  rotate-IsOneActive :
      (table : ℕ) (reason : Option Text) (raw : Text) (st st' : Tokens) (t : TableQrToken)
      → IsOneActive st
      → rotate_token sha256 table reason raw st ≡ done (t, st')
      → IsOneActive st'
  unfolding rotate_token
  rotate-IsOneActive table reason raw st st' t one h =
      let retired = record st { tokens = retire table st.next_id st.tokens } in
      insert-IsOneActive table (reason_or_rotate reason) raw retired st' t
        (λ other. omega (arith, one other, retire-others table st.next_id other st.tokens))
        (retire-none table st.next_id st.tokens) (ground arith)

  rotate_by_id-IsOneActive :
      (id : ℕ) (reason : Option Text) (raw : Text) (st st' : Tokens) (t : TableQrToken)
      → IsOneActive st
      → rotate_by_id sha256 id reason raw st ≡ done (t, st')
      → IsOneActive st'
  unfolding rotate_by_id
  rotate_by_id-IsOneActive id reason raw st st' t one h =
      elim (Option-cases (find (is_token id) st.tokens)) [
        | inl e ↦ absurd (ground arith)
        | inr (token, e) ↦ rotate-IsOneActive token.table_id reason raw st st' t one (ground arith)
      ]

revoke-IsOneActive :
    (id : ℕ) (st st' : Tokens) (t : TableQrToken)
    → IsOneActive st
    → revoke_by_id id st ≡ done (t, st')
    → IsOneActive st'
unfolding revoke_by_id
revoke-IsOneActive id st st' t one h table =
    ground (arith, one table, revoke-fewer id table st.tokens)

-- The commands of the staff, and what a list of them leaves; one that raises changes nothing.
pub data Command : Type 0 where
  issue : ℕ → Option Text → Text → Command
  rotate : ℕ → Option Text → Text → Command
  rotate_id : ℕ → Option Text → Text → Command
  revoke_id : ℕ → Command

module _ (sha256 : Text → Text) where
  abbrev pub attempt : Command → Tokens → Attempt (TableQrToken × Tokens)
  attempt (issue table reason raw) st = issue_token sha256 table reason raw st
  attempt (rotate table reason raw) st = rotate_token sha256 table reason raw st
  attempt (rotate_id id reason raw) st = rotate_by_id sha256 id reason raw st
  attempt (revoke_id id) st = revoke_by_id id st

  abbrev pub after_attempt : Attempt (TableQrToken × Tokens) → Tokens → Tokens
  after_attempt (done (_, st')) st = st'
  after_attempt value_error st = st
  after_attempt (active_token_exists _) st = st
  after_attempt hash_taken st = st

  abbrev pub run : List Command → Tokens → Tokens
  run [] st = st
  run (c ∷ cs) st = run cs (after_attempt (attempt c st) st)

  attempt-IsOneActive :
      (c : Command) (st st' : Tokens) (t : TableQrToken)
      → IsOneActive st
      → attempt c st ≡ done (t, st')
      → IsOneActive st'
  attempt-IsOneActive (issue table reason raw) st st' t =
      issue-IsOneActive sha256 table reason raw st st' t
  attempt-IsOneActive (rotate table reason raw) st st' t =
      rotate-IsOneActive sha256 table reason raw st st' t
  attempt-IsOneActive (rotate_id id reason raw) st st' t =
      rotate_by_id-IsOneActive sha256 id reason raw st st' t
  attempt-IsOneActive (revoke_id id) st st' t = revoke-IsOneActive id st st' t

  after_attempt-IsOneActive :
      (c : Command) (st : Tokens) → IsOneActive st → IsOneActive (after_attempt (attempt c st) st)
  after_attempt-IsOneActive c st one = go (attempt c st) refl
    where
      go :
          (r : Attempt (TableQrToken × Tokens))
          → attempt c st ≡ r
          → IsOneActive (after_attempt r st)
      go (done (t, st')) e = attempt-IsOneActive c st st' t one e
      go value_error e = one
      go (active_token_exists _) e = one
      go hash_taken e = one

  -- Whatever the staff do, in any order, no table ever has two active tokens.
  pub run-IsOneActive : (cs : List Command) (st : Tokens) → IsOneActive st → IsOneActive (run cs st)
  run-IsOneActive [] st one = one
  run-IsOneActive (c ∷ cs) st one =
      run-IsOneActive cs (after_attempt (attempt c st) st) (after_attempt-IsOneActive c st one)
