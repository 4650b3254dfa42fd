-- ===== src/Git/Pushing.antt =====
-- What a push guarantees where it answers no error, and how many commands it takes.
use narrative_ai_agent.Prelude.{
  ◌+◌, ◌≤◌, ◌≡◌, sym, ap, ◌||◌, none, ◌∷◌, length, Result, ok, arith, Bool-cases, Option-cases, inl,
  inr,
}
use narrative_ai_agent.Prelude.Text.{Text, has_infix}
use narrative_ai_agent.Git.{
  Command, Answer, Operator, Log, GitError, then_run, retry, first_push, sync_rebase, pull, push,
  fetch, rebase, rejected, pull_failed, fetch_failed, rebase_failed, push_after_rebase_failed,
  rebase_again, push_again, finish,
}

module _ (git : Log → Command → Answer) where
  -- A chain that answers has run its first command without a failure.
  then_run-ok :
      {A : Type 0} (command : Command) (failed_with : Text → GitError)
      (next : Log → Result GitError A × Log) (log log' : Log) (a : A)
      → then_run git command failed_with next log ≡ (ok a, log')
      → ((git log command).failure ≡ none) × (next (command ∷ log) ≡ (ok a, log'))
  unfolding then_run
  then_run-ok command failed_with next log log' a done =
      elim (Option-cases (git log command).failure) [
        | inl fine ↦ (fine, ground arith)
        | inr (e, fails) ↦ ground arith
      ]

  -- The last command of the log is a push that git has not refused.
  abbrev IsPushed : Operator → Log → Type 0
  IsPushed o log' =
      (before : Log) × (log' ≡ push git o ∷ before) × ((git before (push git o)).failure ≡ none)

  retry-ok : (o : Operator) (log log' : Log) → retry git o log ≡ (ok tt, log') → IsPushed o log'
  unfolding retry rebase_again push_again finish
  retry-ok o log log' done =
      let (fetched, then_rebase) =
        then_run-ok (fetch git o) fetch_failed (rebase_again git o) log log' tt done in
      let (rebased, then_push) =
        then_run-ok (rebase git o) rebase_failed (push_again git o) (fetch git o ∷ log) log' tt
          then_rebase in
      let before = rebase git o ∷ fetch git o ∷ log in
      let (pushed, last) =
        then_run-ok (push git o) push_after_rebase_failed (finish git) before log' tt then_push in
      (before, sym (ap (λ r. r.1) last), pushed)

  first_push-ok :
      (o : Operator) (log log' : Log) → first_push git o log ≡ (ok tt, log') → IsPushed o log'
  unfolding first_push
  first_push-ok o log log' done = elim (Option-cases (git log (push git o)).failure) [
    | inl fine ↦ (log, ground arith, fine)
    | inr (e, fails) ↦
        elim (Bool-cases
          (has_infix (rejected git) e || has_infix (rejected git) (git log (push git o)).output)) [
            | inl again ↦ retry-ok o (push git o ∷ log) log' (ground arith)
            | inr refused ↦ ground arith
          ]
  ]

  -- SyncRebase answers no error only where the last command that it has run is a push of the branch that git has not
  -- refused.
  pub sync_rebase-pushed :
      (o : Operator) (log log' : Log)
      → sync_rebase git o log ≡ (ok tt, log')
      → (before : Log) × (log' ≡ push git o ∷ before) × ((git before (push git o)).failure ≡ none)
  unfolding sync_rebase
  sync_rebase-pushed o log log' done = elim (Bool-cases o.remote_disabled) [
    | inl disabled ↦ ground arith
    | inr enabled ↦
        let chain : then_run git (pull git o) pull_failed (first_push git o) log ≡ (ok tt, log') =
          ground arith in
        first_push-ok o (pull git o ∷ log) log'
          (then_run-ok (pull git o) pull_failed (first_push git o) log log' tt chain).1
  ]

  -- SyncRebase runs at most five commands, whatever git answers.
  sync_rebase-bounded :
      (o : Operator) (log : Log) → length (sync_rebase git o log).1 ≤ length log + 5
  unfolding sync_rebase then_run first_push retry
  sync_rebase-bounded o log = ground arith
