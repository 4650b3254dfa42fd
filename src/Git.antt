-- ===== src/Git.antt =====
-- internal/adapter/gitops/operator.go and internal/messaging/handler/autosave.go: committing, pushing with one retry, and
-- the save after every so many replies. The git command is a parameter: what it answers may depend on the
-- commands that it has been given before.
pub mod Pushing
pub mod Saving
use narrative_ai_agent.Prelude.{
  ℕ, zero, suc, ◌+◌, ◌-◌, ◌%◌, Bool, true, false, not, ◌&&◌, ◌||◌, Option, none, some, List, [],
  ◌∷◌, ◌++◌, if◌then◌else◌, ◌==◌, keep, length, map, Result, ok, err,
}
use narrative_ai_agent.Prelude.Int.{ℤ, pos, negsuc}
use narrative_ai_agent.Prelude.Text.{Text, lit, is_empty, trim_space, has_infix}
use narrative_ai_agent.Repositories.Plan.{lines}

-- A git command, as its arguments.
abbrev pub Command : Type 0
Command = List Text

-- The output of a command, and its error, where it failed.
pub record Answer : Type 0 where
  pub output : Text
  pub failure : Option Text

pub record CommitResult : Type 0 where
  pub hash : Text
  pub files_changed : List Text
  pub is_no_op : Bool

pub data GitError : Type 0 where
  run_failed : Text → GitError
  remote_is_disabled : GitError
  pull_failed : Text → GitError
  push_failed : Text → GitError
  fetch_failed : Text → GitError
  rebase_failed : Text → GitError
  push_after_rebase_failed : Text → GitError

pub record Operator : Type 0 where
  pub remote : Text
  pub branch : Text
  pub author : Text
  pub email : Text
  pub remote_disabled : Bool

-- The commands given so far, the latest first.
abbrev pub Log : Type 0
Log = List Command

module _ (git : Log → Command → Answer) where
  -- One command: what it answers, and the log with it.
  abbrev pub run : Command → Log → Answer × Log
  run command log = (git log command, command ∷ log)

  -- The rest of a chain of commands runs where the command did not fail.
  unfoldable pub then_run :
      {A : Type 0}
      → Command
      → (Text → GitError)
      → (Log → Result GitError A × Log)
      → Log
      → Result GitError A × Log
  then_run command failed_with next log =
      let (answer, log') = run command log in
      elim answer.failure [ some e ↦ (err (failed_with e), log') | none ↦ next log' ]

  abbrev pub pull : Operator → Command
  pull o = lit "pull" ∷ lit "--rebase" ∷ o.remote ∷ o.branch ∷ []

  abbrev pub push : Operator → Command
  push o = lit "push" ∷ o.remote ∷ o.branch ∷ []

  abbrev pub fetch : Operator → Command
  fetch o = lit "fetch" ∷ o.remote ∷ []

  abbrev pub rebase : Operator → Command
  rebase o = lit "rebase" ∷ (o.remote ++ lit "/" ++ o.branch) ∷ []

  abbrev pub rejected : Text
  rejected = lit "[rejected]"

  finish : Log → Result GitError (Unit {0}) × Log
  finish log = (ok tt, log)

  push_again : Operator → Log → Result GitError (Unit {0}) × Log
  unfolding then_run finish
  push_again o log = then_run (push o) push_after_rebase_failed finish log

  rebase_again : Operator → Log → Result GitError (Unit {0}) × Log
  unfolding then_run push_again
  rebase_again o log = then_run (rebase o) rebase_failed (push_again o) log

  -- From the rejected push on.
  retry : Operator → Log → Result GitError (Unit {0}) × Log
  unfolding then_run rebase_again
  retry o log = then_run (fetch o) fetch_failed (rebase_again o) log

  first_push : Operator → Log → Result GitError (Unit {0}) × Log
  unfolding retry has_infix
  first_push o log =
      let (answer, log') = run (push o) log in
      elim answer.failure [
        | none ↦ (ok tt, log')
        | some e ↦
            if has_infix rejected e || has_infix rejected answer.output
            then retry o log'
            else (err (push_failed e), log')
      ]

  unfoldable pub sync_rebase : Operator → Log → Result GitError (Unit {0}) × Log
  unfolding then_run first_push
  sync_rebase o log =
      if o.remote_disabled
      then (err remote_is_disabled, log)
      else then_run (pull o) pull_failed (first_push o) log

  abbrev pub commit : Text → Command
  commit message = lit "commit" ∷ lit "-m" ∷ message ∷ []

  trimmed_lines : Text → List Text
  unfolding lines trim_space
  trimmed_lines files = keep (λ l. not (is_empty l)) (map trim_space (lines files))

  -- The result of a commit that git has made. The hash is what git answers, be it an error.
  described : Log → Result GitError CommitResult × Log
  unfolding trimmed_lines trim_space
  described log =
      let (hash, log') = run (lit "rev-parse" ∷ lit "--short" ∷ lit "HEAD" ∷ []) log in
      let (files, log'') =
        run (lit "show" ∷ lit "--name-only" ∷ lit "--pretty=format:" ∷ []) log' in
      (
        ok (record {
          hash = trim_space hash.output;
          files_changed = trimmed_lines files.output;
          is_no_op = false;
        }),
        log'',
      )

  abbrev no_changes : CommitResult
  no_changes = record { hash = []; files_changed = []; is_no_op = true }

  is_nothing : Text → Bool
  unfolding has_infix
  is_nothing e = has_infix (lit "nothing to commit") e || has_infix (lit "no changes added") e

  do_commit : Text → Log → Result GitError CommitResult × Log
  unfolding described is_nothing
  do_commit message log =
      let (answer, log') = run (commit message) log in
      elim answer.failure [
        | none ↦ described log'
        | some e ↦ if is_nothing e then (ok no_changes, log') else (err (run_failed e), log')
      ]

  unfoldable pub commit_all : Operator → Text → Log → Result GitError CommitResult × Log
  unfolding then_run do_commit
  commit_all o message log =
      then_run (lit "config" ∷ lit "user.name" ∷ o.author ∷ []) run_failed
        (then_run (lit "config" ∷ lit "user.email" ∷ o.email ∷ []) run_failed
          (then_run (lit "add" ∷ lit "-A" ∷ []) run_failed (do_commit message)))
        log
