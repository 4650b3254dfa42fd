-- ===== src/Git/Saving.antt =====
-- internal/messaging/handler/autosave.go: the save of the game after every so many replies of the narrative, recorded in
-- system_state.md. The rendering of numbers and errors is a parameter.
use Prim.Native.Nat.{ℕ, zero, suc, ◌+◌, ◌-◌, ◌*◌, ◌/◌, ◌%◌, ◌<◌}
use native.Mathlib.Nat.{mod-lt, div-add-mod, mul-mod_right, mul-suc}
use narrative_ai_agent.Prelude.{
  ◌≡◌, refl, ap, ◌∙◌, Bool, true, ◌&&◌, not, Option, none, some, List, [], ◌∷◌, ◌++◌, if◌then◌else◌,
  ◌==◌, length, ==_iff, Result, ok, err, arith, Bool-cases, inl, inr,
}
use narrative_ai_agent.Prelude.Int.{ℤ, pos}
use narrative_ai_agent.Prelude.Text.{Text, lit, is_empty}
use narrative_ai_agent.SystemState.{SystemState, SystemFile, record_autosave}
use narrative_ai_agent.Git.{
  Command, Answer, Operator, Log, GitError, CommitResult, commit_all, sync_rebase,
}

-- The counter of the replies, the commands that git has run, and system_state.md.
pub record Saver : Type 0 where
  pub count : ℕ
  pub log : Log
  pub file : SystemFile

-- The warning sign, with its variation selector, and a blank.
abbrev pub warning : Text
warning = lit "⚠" ++ (0xfe0f ∷ lit " ")

module _ (Time : Type 0) (zero_time : Time) (parse : Text → Result Text (SystemState Time))
    (marshal : SystemState Time → Result Text Text) (git : Log → Command → Answer)
    (show_int : ℤ → Text) (show_error : GitError → Text) where
  file_lines : List Text → Text
  file_lines [] = []
  file_lines (f ∷ fs) = lit "\n  - " ++ f ++ file_lines fs

  unfoldable build_auto_save_notify : CommitResult → Bool → Text
  unfolding file_lines
  build_auto_save_notify res verbose =
      lit "✅ сохранено: commit "
      ++ res.hash
      ++ (if verbose
          then lit "\n  файлов: "
            ++ show_int (pos (length res.files_changed))
            ++ file_lines res.files_changed
          else [])

  push_status : Operator → Text → Log → Text × Log
  unfolding sync_rebase
  push_status o body log =
      let (r, log') = sync_rebase git o log in
      (
        body ++ elim r [
          | ok u ↦ lit "\ngit push ok."
          | err e ↦ lit "\n" ++ warning ++ lit "push: " ++ show_error e
        ],
        log',
      )

  -- From the result of the commit on.
  after_commit : Operator → Bool → Bool → Time → Result GitError CommitResult → Saver → Text × Saver
  unfolding build_auto_save_notify push_status record_autosave
  after_commit o sys_wired verbose now (err e) s = (warning ++ lit "auto-save: " ++ show_error e, s)
  after_commit o sys_wired verbose now (ok res) s =
      if res.is_no_op
      then ([], s)
      else (let file' =
            if sys_wired && not (is_empty res.hash)
            then (record_autosave Time zero_time parse marshal res.hash now s.file).1
            else s.file in
          let body = build_auto_save_notify res verbose in
          if o.remote_disabled
          then (body ++ lit "\n(push пропущен: remote_disabled=true)", record s { file = file' })
          else (let (text, log') = push_status o body s.log in
              (text, record s { log = log'; file = file' })))

  unfoldable pub run_auto_save : Operator → Bool → Bool → Time → Saver → Text × Saver
  unfolding commit_all after_commit
  run_auto_save o sys_wired verbose now s =
      let (r, log') = commit_all git o (lit "auto: save") s.log in
      after_commit o sys_wired verbose now r (record s { log = log' })

  abbrev pub counted : Saver → Saver
  counted s = record s { count = s.count + 1 }

  unfoldable pub maybe_auto_save : ℕ → Option Operator → Bool → Bool → Time → Saver → Text × Saver
  unfolding run_auto_save
  maybe_auto_save threshold none sys_wired verbose now s = ([], s)
  maybe_auto_save threshold (some o) sys_wired verbose now s =
      if threshold == 0
      then ([], s)
      else if (s.count + 1) % threshold == 0
      then run_auto_save o sys_wired verbose now (counted s)
      else ([], counted s)

  after_commit-count :
      (o : Operator) (sys_wired verbose : Bool) (now : Time) (r : Result GitError CommitResult)
      (s : Saver)
      → (after_commit o sys_wired verbose now r s).1.count ≡ s.count
  unfolding after_commit
  after_commit-count o sys_wired verbose now (err e) s = refl
  after_commit-count o sys_wired verbose now (ok res) s = elim (Bool-cases res.is_no_op) [
    | inl e ↦ rw e refl
    | inr e ↦ elim (Bool-cases o.remote_disabled) [
      | inl d ↦ rw (e, d) refl
      | inr d ↦ rw (e, d) refl
    ]
  ]

  module _ (threshold : ℕ) (o : Operator) (sys_wired verbose : Bool) (now : Time)
      (positive : zero < threshold) where
    abbrev reply : Saver → Text × Saver
    reply s = maybe_auto_save threshold (some o) sys_wired verbose now s

    -- The state after so many replies.
    abbrev pub replies : ℕ → Saver → Saver
    replies zero s = s
    replies (suc n) s = replies n (reply s).1

    reply-count : (s : Saver) → (reply s).1.count ≡ s.count + 1
    unfolding maybe_auto_save run_auto_save
    reply-count s =
        let counting = after_commit-count o sys_wired verbose now in
        elim (Bool-cases ((s.count + 1) % threshold == 0)) [
          | inl e ↦ ground (arith, counting)
          | inr e ↦ ground arith
        ]

    replies-count : (n : ℕ) (s : Saver) → (replies n s).count ≡ s.count + n
    replies-count zero s = omega arith
    replies-count (suc n) s = omega (arith, replies-count n (reply s).1, reply-count s)

    -- The replies until the counter is a multiple of the threshold.
    abbrev missing : ℕ → ℕ
    missing c = threshold - 1 - c % threshold

    missing-multiple : (c : ℕ) → (c + missing c + 1) % threshold ≡ 0
    missing-multiple c =
        let below = mod-lt c positive in
        let parts = div-add-mod c threshold in
        let sum : c + missing c + 1 ≡ threshold * suc (c / threshold) =
          omega (arith, mul-suc threshold (c / threshold)) in
        ap (λ n. n % threshold) sum ∙ mul-mod_right threshold (suc (c / threshold))

    -- The game is saved again and again: where a threshold is set and git is there, within every run of so many replies
    -- as the threshold there is one that runs the save, whatever the counter was.
    pub maybe_auto_save-due :
        (s : Saver)
        → (k : ℕ) × (k < threshold)
          × (maybe_auto_save threshold (some o) sys_wired verbose now (replies k s)
              ≡ run_auto_save o sys_wired verbose now (counted (replies k s)))
    unfolding maybe_auto_save
    maybe_auto_save-due s =
        let k = missing s.count in
        let due : (((replies k s).count + 1) % threshold == 0) ≡ true =
          (==_iff _ _).1
            (ap (λ n. (n + 1) % threshold) (replies-count k s) ∙ missing-multiple s.count) in
        (k, omega (arith, mod-lt s.count positive), ground arith)
