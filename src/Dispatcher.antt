-- ===== src/Dispatcher.antt =====
-- internal/dispatcher/dispatcher.go: the text commands, which call the tools and commit what they have changed. What git and
-- the tools without a model answer is a parameter, as are the rendering of numbers and errors and the game
-- master, which answers everything that is not a command.
pub mod Commits
use narrative_ai_agent.Prelude.{
  ℕ, Bool, true, false, not, ◌&&◌, ◌||◌, Option, none, some, List, [], ◌∷◌, ◌++◌, if◌then◌else◌,
  length, Result, ok, err, is_nil,
}
use narrative_ai_agent.Prelude.Int.{ℤ, pos}
use narrative_ai_agent.Prelude.Text.{Text, lit, is_empty, text_eq, atoi, join}
use narrative_ai_agent.Repositories.{
  Store, Info, Action, Error, bad_days, git_failed, already_launched, pure, raise, lift, ◌>>=◌,
  ◌>>◌, loaded, invalidate,
}
use narrative_ai_agent.Repositories.Files.{load_info}
use narrative_ai_agent.Tools.Archive.{Hooks, archive_chronicle_day}
use narrative_ai_agent.Tools.World.{LeaveResult, leave, return_world}
use narrative_ai_agent.Session.{SessionContext, Seeds, start, launch}
use narrative_ai_agent.Git.{CommitResult, GitError, remote_is_disabled}
use narrative_ai_agent.Git.Saving.{warning}

pub record IncomingMessage : Type 0 where
  pub chat_id : Text
  pub text : Text
  pub command : Text
  args : List Text

-- What the git operator answers.
pub record GitAnswers : Type 0 where
  pub commit_all : Text → Result GitError CommitResult
  pub sync_rebase : Result GitError (Unit {0})
  pub remote_disabled : Bool

-- What the commands call outside the modelled tools.
pub record Outside : Type 0 where
  pub git : Option GitAnswers
  -- Whether the toolset is there, the snapshot of a character in a world, and the two maintenances.
  pub tools_wired : Bool
  pub me : Text → Text → Action Text
  pub maintain_npcs : Text → Action (List Text)
  pub maintain_lore : Text → Action Bool
  pub reload : Action (Unit {0})
  pub gm_wired : Bool
  pub reset_conversations : Action (Unit {0})
  pub reply : IncomingMessage → Action Text
  pub verbose_save : Bool
  pub show_int : ℤ → Text
  pub show_git_error : GitError → Text
  pub show_error : Error → Text
  pub help : Text

abbrev record_commit : Text → Store → Store
record_commit message s = record s { commits = message ∷ s.commits }

-- `d.commit`: the answer of git is dropped.
unfoldable pub commit : Option GitAnswers → Text → Action (Unit {0})
commit none message s = (ok tt, s)
commit (some git) message s = (ok tt, record_commit message s)

-- A commit whose answer counts.
unfoldable commit_for : GitAnswers → Text → Action CommitResult
commit_for git message s = (
  elim (git.commit_all message) [ ok res ↦ ok res | err e ↦ err git_failed ],
  record_commit message s,
)

unfoldable pub info_exists : Action Bool
info_exists s = (ok s.info_exists, s)

-- The reply for `err`, and for what `f` makes of a value.
unfoldable attempt :
    {A : Type 0} → Action A → (Error → Action Text) → (A → Action Text) → Action Text
attempt call failed f s = let (r, s') = call s in elim r [ ok a ↦ f a s' | err e ↦ failed e s' ]

module _ (to_lower : ℕ → ℕ) (seeds : Seeds) (hooks : Hooks) (o : Outside) where
  file_lines : List Text → Text
  file_lines [] = []
  file_lines (f ∷ fs) = lit "  - " ++ f ++ lit "\n" ++ file_lines fs

  unfoldable format_commit_result : CommitResult → Bool → Text
  unfolding file_lines
  format_commit_result res verbose =
      if res.is_no_op
      then lit "нечего коммитить (no changes)."
      else if verbose
      then lit "✅ сохранено: commit "
        ++ res.hash
        ++ lit "\n  файлов: "
        ++ o.show_int (pos (length res.files_changed))
        ++ lit "\n"
        ++ file_lines res.files_changed
      else lit "✅ сохранено: commit " ++ res.hash

  start_warnings : SessionContext → Text
  start_warnings sc =
      (if sc.sync_chronicle_ahead
        then lit "\n"
          ++ warning
          ++ lit "chronicle опережает world state — галлюцинация? Спросить игрока."
        else [])
      ++ (if sc.sync_state_ahead
          then lit "\n"
            ++ warning
            ++ lit "world state опережает chronicle — дописать недостающие дни."
          else [])

  -- `if !Exists(InfoFile)`, with the reply for it.
  where_launched : Text → Action Text → Action Text
  unfolding info_exists ◌>>=◌
  where_launched otherwise call = do there ← info_exists; if there then call else pure otherwise

  unfoldable cmd_start : Action Text
  unfolding where_launched start start_warnings ◌>>=◌
  cmd_start =
      where_launched
        (lit
          "Нет активной сессии. Используйте /launch <персонаж> <мир> для первоначальной настройки.")
        (do
          sc ← start
          pure (
              lit "**Сессия запущена**\nПерсонаж: "
              ++ sc.character
              ++ lit "\nМир: "
              ++ sc.world
              ++ lit "\n\n**world state**\n"
              ++ sc.state
              ++ start_warnings sc))

  is_launched : Error → Bool
  is_launched already_launched = true
  is_launched _ = false

  unfoldable cmd_launch : List Text → Action Text
  unfolding join launch attempt commit is_launched ◌>>=◌
  cmd_launch (char_name ∷ world_name ∷ rest) =
      attempt
        (launch to_lower seeds false
          (record {
            display_name = char_name;
            dir = char_name;
            true_nature = lit "(опишите позже)";
            philosophy = [];
          })
          (record {
            display_name = world_name;
            dir = world_name;
            is_known = false;
            canon = join (lit " ") rest;
          }))
        (λ e.
          if is_launched e
          then pure (lit "Сессия уже инициализирована. Используйте /status для просмотра.")
          else raise e)
        (λ u. (do
          commit o.git (lit "first launch: " ++ char_name ++ lit " / " ++ world_name)
          pure (
              lit "**Создано**\nПерсонаж: "
              ++ char_name
              ++ lit "\nМир: "
              ++ world_name
              ++ lit "\nИспользуйте /start для просмотра world state.")))
  cmd_launch _ = pure (lit "Использование: /launch <имя_перса> <имя_мира> [канон/сценарий...]")

  unfoldable cmd_status : Action Text
  unfolding where_launched start ◌>>=◌
  cmd_status = where_launched (lit "Нет активной сессии. /launch сначала.") (do
    sc ← start
    pure (
        lit "Персонаж: "
        ++ sc.character
        ++ lit "\nМир: "
        ++ sc.world
        ++ lit "\n\n**world state**\n"
        ++ sc.state))

  me_of : Info → Action Text
  me_of info =
      if is_empty info.active_character
      then pure (lit "Нет активного персонажа. /launch сначала.")
      else o.me info.active_character info.active_world

  unfoldable cmd_me : Action Text
  unfolding where_launched load_info me_of ◌>>=◌
  cmd_me =
      if o.tools_wired
      then where_launched (lit "Нет активной сессии. /launch сначала.")
          (do info ← load_info; me_of info)
      else pure (lit "character_update не подключён.")

  abbrev commit_message : List Text → Text
  commit_message [] = lit "auto: maintenance"
  commit_message (a ∷ as') = join (lit " ") (a ∷ as')

  unfoldable cmd_commit : List Text → Action Text
  unfolding commit_for format_commit_result join ◌>>=◌
  cmd_commit args = elim o.git [
    | none ↦ pure (lit "git не инициализирован (тестовый режим).")
    | some git ↦ do
      res ← commit_for git (commit_message args)
      pure (format_commit_result res false)
  ]

  pushed_note : Result GitError (Unit {0}) → Text
  pushed_note (ok u) = lit "\ngit push ok."
  pushed_note (err remote_is_disabled) = []
  pushed_note (err e) = lit "\n" ++ warning ++ lit "push: " ++ o.show_git_error e

  unfoldable cmd_save : Action Text
  unfolding commit_for format_commit_result pushed_note ◌>>=◌
  cmd_save = elim o.git [
    | none ↦ pure (lit "git не инициализирован (тестовый режим).")
    | some git ↦ do
      res ← commit_for git (lit "auto: save")
      pure (
          format_commit_result res o.verbose_save
          ++ (if git.remote_disabled || res.is_no_op then [] else pushed_note git.sync_rebase))
  ]

  unfoldable cmd_push : Action Text
  cmd_push = elim o.git [
    | none ↦ pure (lit "git не инициализирован.")
    | some git ↦
        if git.remote_disabled
        then pure (lit "git push пропущен: remote_disabled=true (только локальные коммиты).")
        else elim git.sync_rebase [
          | ok u ↦ pure (lit "git push выполнен.")
          | err e ↦ raise git_failed
        ]
  ]

  -- An error of the lore maintenance is only logged.
  maintained : List Text → Text
  unfolding join
  maintained touched =
      if is_nil touched
      then lit "Обслуживание выполнено. Выжимка NPC: не требуется."
      else lit "Обслуживание выполнено. Выжимка NPC: " ++ join (lit ", ") touched

  unfoldable cmd_maintenance : Action Text
  unfolding where_launched start commit attempt maintained ◌>>=◌
  cmd_maintenance = where_launched (lit "Нет активного мира.") (do
    sc ← start
    touched ← o.maintain_npcs sc.world
    commit o.git (lit "maintenance: " ++ sc.world)
    attempt (o.maintain_lore sc.world) (λ e. pure (maintained touched))
        (λ changed. pure (maintained touched)))

  parsed_day : Text → Result Error ℤ
  unfolding atoi
  parsed_day t = elim (atoi t) [ none ↦ err bad_days | some day ↦ ok day ]

  unfoldable cmd_end_day : List Text → Action Text
  unfolding parsed_day join start archive_chronicle_day commit ◌>>=◌
  cmd_end_day (number ∷ word ∷ words) = do
    day ← lift (parsed_day number)
    sc ← start
    archive_chronicle_day hooks sc.world day (join (lit " ") (word ∷ words))
    commit o.git (lit "День " ++ o.show_int day)
    pure (lit "День " ++ o.show_int day ++ lit " заархивирован в chronicle.")
  cmd_end_day _ = pure (lit "Использование: /endday <номер_дня> <краткая_выжимка...>")

  unfoldable pub left_reply : LeaveResult → Text
  left_reply res =
      lit "Мир "
      ++ res.from_world
      ++ lit " (день "
      ++ o.show_int res.from_day
      ++ lit ") покинут.\nАктивный мир: "
      ++ res.new_world
      ++ (if res.new_world_init then lit " (инициализирован)" else [])

  unfoldable pub cmd_leave : List Text → Action Text
  unfolding join start leave commit left_reply ◌>>=◌
  cmd_leave [] = pure (lit "Использование: /leave <новый_мир> [прошло_времени]")
  cmd_leave (to ∷ words) = do
    sc ← start
    res ← leave to_lower o.show_int sc.world to (join (lit " ") words) sc.character
    commit o.git (lit "world leave: " ++ sc.world ++ lit " -> " ++ to)
    pure (left_reply res)

  unfoldable pub cmd_return : List Text → Action Text
  unfolding return_world commit ◌>>=◌
  cmd_return (world ∷ days ∷ rest) = do
    note ← return_world to_lower o.show_int world days
    commit o.git (lit "world return: " ++ world)
    pure note
  cmd_return _ = pure (lit "Использование: /return <мир> <дней_прошло>")

  abbrev reloaded : Text
  reloaded =
      lit "✅ reload ok. backed by: files. Следующий ход подхватит свежие данные, чат сброшен."

  forget : Action Text
  unfolding invalidate ◌>>=◌
  forget =
      if o.gm_wired
      then (do invalidate (lit "reload"); o.reset_conversations; pure reloaded)
      else pure reloaded

  unfoldable cmd_reload : Action Text
  unfolding attempt forget
  cmd_reload =
      if o.tools_wired
      then attempt o.reload (λ e. pure (warning ++ lit "reload: " ++ o.show_error e)) (λ u. forget)
      else pure (lit "toolset не подключён.")

  -- The switch over the commands. An unknown one is answered with nothing.
  unfoldable handle : IncomingMessage → Action Text
  unfolding cmd_start cmd_launch cmd_status cmd_me cmd_commit cmd_save cmd_push cmd_maintenance
      cmd_end_day cmd_leave cmd_return cmd_reload text_eq
  handle msg =
      let is : Text → Bool = λ name. text_eq msg.command name in
      if is_empty msg.command
      then o.reply msg
      else if is (lit "start")
      then cmd_start
      else if is (lit "launch")
      then cmd_launch msg.args
      else if is (lit "status")
      then cmd_status
      else if is (lit "me")
      then cmd_me
      else if is (lit "commit")
      then cmd_commit msg.args
      else if is (lit "save")
      then cmd_save
      else if is (lit "push")
      then cmd_push
      else if is (lit "maintenance")
      then cmd_maintenance
      else if is (lit "endday")
      then cmd_end_day msg.args
      else if is (lit "leave")
      then cmd_leave msg.args
      else if is (lit "return")
      then cmd_return msg.args
      else if is (lit "reload")
      then cmd_reload
      else if is (lit "help")
      then pure o.help
      else pure []
