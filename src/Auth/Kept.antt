-- ===== src/Auth/Kept.antt =====
-- Changes of the sessions that keep a revocation, of apps/api/app/services/auth_service.py.
use sweetops.Base.{
  ℕ, ◌≡◌, refl, true, false, Option, none, some, List, [], ◌∷◌, arith, ◌==◌, map, find, inl, inr,
  Bool-cases,
}
use sweetops.Text.{Text}
use sweetops.Auth.{AuthSession, Accounts}
use sweetops.Auth.Sessions.{has_token, revoked_or, revoke, update_session, revoke_of, seen}

-- The session of a token's hash, and its revocation.
abbrev pub IsRevoked : Text → Accounts → Type 0
IsRevoked hash acc =
    (s : AuthSession) × (mark : ℕ × Text) × (find (has_token hash) acc.sessions ≡ some s)
    × (s.revoked ≡ some mark)

-- A change that keeps each session's token, and its revocation.
pub record KeepsRevoked (change : AuthSession → AuthSession) : Type 0 where
  pub token : (s : AuthSession) → (change s).token_hash ≡ s.token_hash
  pub revocation :
      (s : AuthSession) (mark : ℕ × Text) → s.revoked ≡ some mark → (change s).revoked ≡ some mark

pub find-map :
    (change : AuthSession → AuthSession) (hash : Text) (s : AuthSession) (ss : List AuthSession)
    → ((t : AuthSession) → (change t).token_hash ≡ t.token_hash)
    → find (has_token hash) ss ≡ some s
    → find (has_token hash) (map change ss) ≡ some (change s)
find-map change hash s [] keeps h = cc
find-map change hash s (t ∷ ss) keeps h = elim (Bool-cases (has_token hash t)) [
  | inl e ↦
      let same : t ≡ s = ground arith in
      let e' : has_token hash (change t) ≡ true = rw (keeps t) e in rw e' (cc)
  | inr e ↦
      let e' : has_token hash (change t) ≡ false = rw (keeps t) e in
      rw e' (find-map change hash s ss keeps (rw e at h))
]

pub map-IsRevoked :
    (change : AuthSession → AuthSession) (hash : Text) (acc acc' : Accounts)
    → KeepsRevoked change
    → acc'.sessions ≡ map change acc.sessions
    → IsRevoked hash acc
    → IsRevoked hash acc'
map-IsRevoked change hash acc acc' keeps moved (s, mark, here, gone) = (
  change s,
  mark,
  rw moved (find-map change hash s acc.sessions keeps.token here),
  keeps.revocation s mark gone,
)

pub revoked_or-some :
    (r : Option (ℕ × Text)) (mark : ℕ × Text) → (m : ℕ × Text) × (revoked_or r mark ≡ some m)
revoked_or-some none mark = (mark, refl)
revoked_or-some (some earlier) mark = (earlier, refl)

pub update-KeepsRevoked :
    (id : ℕ) (change : AuthSession → AuthSession)
    → KeepsRevoked change
    → KeepsRevoked (update_session id change)
update-KeepsRevoked id change keeps = record {
  token = λ s. elim (Bool-cases (s.id == id)) [ inl e ↦ rw e (keeps.token s) | inr e ↦ rw e refl ];
  revocation = λ s mark gone. elim (Bool-cases (s.id == id)) [
    | inl e ↦ rw e (keeps.revocation s mark gone)
    | inr e ↦ rw e gone
  ];
}

pub revoke-KeepsRevoked : (now : ℕ) (reason : Text) → KeepsRevoked (revoke now reason)
revoke-KeepsRevoked now reason = record {
  token = λ s. refl;
  revocation = λ s mark gone. rw gone refl;
}

pub revoke_of-KeepsRevoked :
    (user now : ℕ) (reason : Text) → KeepsRevoked (revoke_of user now reason)
revoke_of-KeepsRevoked user now reason = record {
  token = λ s. elim (Bool-cases (s.user_id == user)) [ inl e ↦ rw e refl | inr e ↦ rw e refl ];
  revocation = λ s mark gone. elim (Bool-cases (s.user_id == user)) [
    | inl e ↦ rw (e, gone) refl
    | inr e ↦ rw e gone
  ];
}

pub seen-KeepsRevoked : (now : ℕ) → KeepsRevoked (seen now)
seen-KeepsRevoked now = record { token = λ s. refl; revocation = λ s mark gone. gone }
