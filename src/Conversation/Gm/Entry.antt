-- ===== src/Conversation/Gm/Entry.antt =====
-- Which history the second answer of a chat starts from.
use narrative_ai_agent.Prelude.{
  ◌≡◌, refl, ap, ◌∙◌, ◌==◌, true, false, List, [], ◌∷◌, ◌++◌, arith, length, length-append,
}
use narrative_ai_agent.Prelude.Text.{Text}
use narrative_ai_agent.Conversation.{
  Message, is_user, is_turn_start, trim_trailing_assistant, last_user_index,
}
use narrative_ai_agent.Conversation.History.{
  NonePass, last_index-append, set_content-append, trim_trailing_assistant-append, take-append_cons,
}
use narrative_ai_agent.Conversation.Services.{Settings, Services}
use narrative_ai_agent.Conversation.Gm.{
  Gm, count_turn, refused, run_chat, regenerate_last, edit_and_regenerate,
}

length-cut :
    (front : List Message) (m x : Message) (back : List Message)
    → (length (front ++ (m ∷ [])) == length (front ++ (m ∷ x ∷ back))) ≡ false
length-cut front m x back =
    ground (arith, length-append front (m ∷ []), length-append front (m ∷ x ∷ back))

module _ {W : Type 0} (cfg : Settings) (svc : Services W) (chat : Text) (g : Gm W) where
  -- Where something follows the last user or system message of a chat, `RegenerateLast` runs the turn again
  -- on the history up to that message.
  pub regenerate_last-reruns :
      (front : List Message) (m x : Message) (back : List Message)
      → g.conversations chat ≡ front ++ (m ∷ x ∷ back)
      → is_turn_start m ≡ true
      → NonePass is_turn_start (x ∷ back)
      → regenerate_last cfg svc chat g ≡ run_chat cfg svc chat (front ++ (m ∷ [])) (count_turn g)
  unfolding regenerate_last
  regenerate_last-reruns front m x back e start rest =
      rw
        (
          regenerate_last,
          e,
          trim_trailing_assistant-append front m (x ∷ back) start rest,
          length-cut front m x back,
        )
        refl

  -- Where nothing follows the last user or system message of a chat, as after a turn that failed before an
  -- answer, `RegenerateLast` refuses and leaves the histories as they are.
  pub regenerate_last-refused :
      (front : List Message) (m : Message)
      → g.conversations chat ≡ front ++ (m ∷ [])
      → is_turn_start m ≡ true
      → regenerate_last cfg svc chat g ≡ refused (count_turn g)
  unfolding regenerate_last
  regenerate_last-refused front m e start =
      let same : (length (front ++ (m ∷ [])) == length (front ++ (m ∷ []))) ≡ true = ground arith in
      rw (regenerate_last, e, trim_trailing_assistant-append front m [] start tt, same) refl

  -- Where only assistant and tool messages follow the last user message of a chat, `EditAndRegenerate` runs
  -- the turn again on the history up to that message, with its content replaced, whoever wrote it.
  pub edit_and_regenerate-reruns :
      (body : Text) (front : List Message) (m : Message) (back : List Message)
      → g.conversations chat ≡ front ++ (m ∷ back)
      → is_user m ≡ true
      → NonePass is_turn_start back
      → edit_and_regenerate cfg svc chat body g
        ≡ run_chat cfg svc chat (front ++ (record m { content = body } ∷ [])) (count_turn g)
  unfolding edit_and_regenerate last_user_index
  edit_and_regenerate-reruns body front m back e hit rest =
      let cut : trim_trailing_assistant (g.conversations chat) ≡ front ++ (m ∷ []) =
        ap trim_trailing_assistant e
        ∙ trim_trailing_assistant-append front m back (ground arith) rest in
      rw
        (
          edit_and_regenerate,
          cut,
          last_index-append is_user front m [] hit tt,
          cut,
          set_content-append front m body,
          take-append_cons front (record m { content = body }) [],
        )
        refl
