-- ===== src/Auth/Lockout.antt =====
-- How many passwords can be tried against one account, of `authenticate` in
-- apps/api/app/services/auth_service.py, when logins run side by side.
use mathlib.Core.Path.{subst}
use sweetops.Base.{
  sym, ℕ, suc, ◌+◌, ◌≤◌, ◌<◌, ◌≡◌, refl, true, false, some, List, [], ◌∷◌, arith, ◌==◌, leb, inl,
  inr, Bool-cases,
}
use sweetops.Auth.{Settings, Primitives, User, Accounts, until_after, verify_password, failed}
use sweetops.Auth.Sessions.{compares}
use sweetops.Auth.Moves.{
  Pending, Move, starts, finishes, wait_for, at_place, without, finish, tried, under_way, AtMost,
  AllWrong, AllPending, at_once, elsewhere, reads, start-Begins, stays, counts, finish-Turns,
  finish-names, without-AllPending,
}

module _ (settings : Settings) (prims : Primitives) (uid : ℕ) where
  -- While the account is locked, no login to it gets as far as its password.
  locked-tried :
      (moves : List Move) (from until : ℕ) (row : User) (acc : Accounts) (flight : List Pending)
      → acc.users uid ≡ some row
      → row.locked_until ≡ some until
      → from + settings.login_lockout ≤ until
      → AllPending settings prims uid from flight
      → AllWrong settings prims uid from row.password_hash acc.names moves
      → tried settings prims uid moves acc flight ≡ 0
  locked-tried [] from until row acc flight here locked long pending wrong = refl
  locked-tried (starts a ∷ moves) from until row acc flight here locked long pending
        (late, early, misses, wrong) =
      elim (start-Begins settings prims uid a row acc here) [
        | at_once login s ↦ rw s (
            omega
              (arith, locked-tried moves from until row acc flight here locked long pending wrong))
        | elsewhere id user other s ↦ rw s (
            rw other (
              omega (
                arith,
                locked-tried moves from until row acc (wait_for a (compares id user) flight) here
                    locked long ((λ own. absurd (ground arith)), pending) wrong,
              )))
        | reads free _ _ ↦
            let free' : until_after (some until) a.now ≡ false = rw locked at free in
            absurd (ground arith)
      ]
  locked-tried (finishes k ∷ moves) from until row acc flight here locked long pending wrong =
      let rest = without-AllPending settings prims uid from k flight pending in
      let names = finish-names settings prims uid (at_place k flight) acc in
      let wrong' : AllWrong settings prims uid from row.password_hash
          (finish settings prims uid (at_place k flight) acc).names moves =
        subst (λ n. AllWrong settings prims uid from row.password_hash n moves) (sym names) wrong in
      elim (finish-Turns settings prims uid from k row acc flight here pending) [
        | stays left _ ↦
            locked-tried moves from until row (finish settings prims uid (at_place k flight) acc)
              (without k flight) left locked long rest wrong'
        | counts now later left _ ↦
            elim (Bool-cases
              (leb settings.login_max_failed_attempts (suc row.failed_login_count))) [
                | inl last ↦
                    locked-tried moves from (now + settings.login_lockout) (failed settings now row)
                      (finish settings prims uid (at_place k flight) acc) (without k flight) left
                      (rw last refl) (omega (arith, later)) rest wrong'
                | inr more ↦
                    locked-tried moves from until (failed settings now row)
                      (finish settings prims uid (at_place k flight) acc) (without k flight) left
                      (rw more locked) long rest wrong'
              ]
      ]

  tried-under_way :
      (moves : List Move) (from parallel : ℕ) (row : User) (acc : Accounts) (flight : List Pending)
      → acc.users uid ≡ some row
      → row.failed_login_count < settings.login_max_failed_attempts
      → AllPending settings prims uid from flight
      → AllWrong settings prims uid from row.password_hash acc.names moves
      → AtMost settings prims uid parallel moves acc flight
      → row.failed_login_count
          + under_way settings prims uid flight
          + tried settings prims uid moves acc flight
        < settings.login_max_failed_attempts + parallel
  unfolding verify_password
  tried-under_way [] from parallel row acc flight here left pending wrong few = omega arith
  tried-under_way (starts a ∷ moves) from parallel row acc flight here left pending
        (late, early, misses, wrong) (_, few) =
      elim (start-Begins settings prims uid a row acc here) [
        | at_once login s ↦ rw s (
            omega (
              arith,
              tried-under_way moves from parallel row acc flight here left pending wrong
                  (rw s at few),
            ))
        | elsewhere id user other s ↦
            let next =
              tried-under_way moves from parallel row acc (wait_for a (compares id user) flight)
                here left ((λ own. absurd (ground arith)), pending) wrong (rw s at few) in
            let next' : row.failed_login_count
                  + (0 + under_way settings prims uid flight)
                  + tried settings prims uid moves acc (wait_for a (compares id user) flight)
                < settings.login_max_failed_attempts + parallel =
              rw other at next in
            rw s (rw other (omega (arith, next')))
        | reads free named s ↦
            let own : (uid == uid) ≡ true = ground arith in
            let next =
              tried-under_way moves from parallel row acc (wait_for a (compares uid row) flight)
                here left ((λ same. (late, misses named)), pending) wrong (rw s at few) in
            let next' : row.failed_login_count
                  + (1 + under_way settings prims uid flight)
                  + tried settings prims uid moves acc (wait_for a (compares uid row) flight)
                < settings.login_max_failed_attempts + parallel =
              rw own at next in
            rw s (rw own (omega (arith, next')))
      ]
  tried-under_way (finishes k ∷ moves) from parallel row acc flight here left pending wrong
        (now_few, few) =
      let rest = without-AllPending settings prims uid from k flight pending in
      let names = finish-names settings prims uid (at_place k flight) acc in
      let wrong' : AllWrong settings prims uid from row.password_hash
          (finish settings prims uid (at_place k flight) acc).names moves =
        subst (λ n. AllWrong settings prims uid from row.password_hash n moves) (sym names) wrong in
      elim (finish-Turns settings prims uid from k row acc flight here pending) [
        | stays kept same ↦ omega (
          arith,
          same,
          tried-under_way moves from parallel row
              (finish settings prims uid (at_place k flight) acc) (without k flight) kept left rest
              wrong' few,
        )
        | counts now later kept more ↦
            elim (Bool-cases
              (leb settings.login_max_failed_attempts (suc row.failed_login_count))) [
                | inl last ↦ omega (
                  arith,
                  left,
                  now_few,
                  locked-tried moves from (now + settings.login_lockout) (failed settings now row)
                      (finish settings prims uid (at_place k flight) acc) (without k flight) kept
                      (rw last refl) (omega (arith, later)) rest wrong',
                )
                | inr room ↦ omega (
                  arith,
                  more,
                  tried-under_way moves from parallel (failed settings now row)
                      (finish settings prims uid (at_place k flight) acc) (without k flight) kept
                      (ground arith) rest wrong' few,
                )
              ]
      ]

  -- As long as every login has a wrong password, all start within one lockout of the first, and at
  -- most `parallel` logins to the account are ever under way between their two halves, fewer
  -- passwords are compared with an account's than it has failed attempts left and `parallel`
  -- together: then it is locked. The halves of logins, to this account and to others, come in any
  -- order, and one that never finishes counts as compared.
  pub tried-bounded :
      (moves : List Move) (from parallel : ℕ) (row : User) (acc : Accounts)
      → acc.users uid ≡ some row
      → row.failed_login_count < settings.login_max_failed_attempts
      → AllWrong settings prims uid from row.password_hash acc.names moves
      → AtMost settings prims uid parallel moves acc []
      → row.failed_login_count + tried settings prims uid moves acc []
        < settings.login_max_failed_attempts + parallel
  tried-bounded moves from parallel row acc here left wrong few =
      omega (arith, tried-under_way moves from parallel row acc [] here left tt wrong few)
