-- ===== src/Store/Chats.antt =====
-- The chat and message methods of store.go.
use Prim.Native.String
use nice_agent.Prelude.{
  ℕ, String, Bool, ◌&&◌, not, false, Option, none, some, List, [], ◌∷◌, ◌++◌, lookup, put, value_or,
  leb, ◌==◌, length, if◌then◌else◌,
}
use nice_agent.Protocol.Run.{Run, queued, zero_run_usage}
use nice_agent.Protocol.Chat.{ChatSession, Message, MessageRole, user, assistant, Workspace}
use nice_agent.Store.{Store, Result, ok, err, not_found}

-- `s.messages[chatID]`
abbrev pub messages_of : Store → String → List Message
messages_of s chat_id = value_or [] (lookup chat_id s.messages)

-- `content[:max]` cuts bytes, and may cut a character in two. A `String` holds whole characters, so
-- the cut is an argument, `cut`.
title_from_content : (String → String) → String → String
title_from_content cut content =
    if leb (String.len content) 42 then content else String.◌++◌ (cut content) "..."

unfoldable pub create_chat :
    ℕ → String → String → String → String → Store → Result ChatSession × Store
create_chat now new_id user_id project_id title s =
    let chat : ChatSession = record {
      id = new_id;
      user_id = user_id;
      project_id = project_id;
      title = if title == "" then "New chat" else title;
      archived = false;
      last_run_id = "";
      created_at = now;
      updated_at = now;
      message_count = 0;
    } in
    (ok chat, record s { chats = put chat.id chat s.chats })

unfoldable pub get_chat : String → Store → Result (ChatSession × List Message)
get_chat chat_id s = elim (lookup chat_id s.chats) [
  | none ↦ err not_found
  | some chat ↦
      let msgs = messages_of s chat_id in ok (record chat { message_count = length msgs }, msgs)
]

unfoldable pub set_chat_archived : ℕ → String → String → Bool → Store → Result ChatSession × Store
set_chat_archived now chat_id user_id archived s = elim (lookup chat_id s.chats) [
  | none ↦ (err not_found, s)
  | some chat ↦
      if chat.user_id == user_id
      then (let chat' = record chat {
        archived = archived;
        updated_at = now;
        message_count = length (messages_of s chat.id);
      } in
          (ok chat', record s { chats = put chat_id chat' s.chats }))
      else (err not_found, s)
]

-- The identifiers that `AddUserMessage` draws.
pub record NewIds : Type 0 where
  pub msg : String
  pub run : String
  pub ws : String

unfoldable pub new_run : ℕ → NewIds → String → String → Run
new_run now ids chat_id user_id = record {
  id = ids.run;
  chat_id = chat_id;
  user_id = user_id;
  workspace_id = ids.ws;
  attempt_id = "";
  claimed_by = "";
  lease_expires_at = none;
  attempt_count = 0;
  status = queued;
  error = "";
  usage = zero_run_usage;
  created_at = now;
  updated_at = now;
  started_at = none;
  finished_at = none;
}

-- What `AddUserMessage` writes once the chat is found and is the user's.
unfoldable pub write_user_message :
    ℕ
    → (String → String)
    → NewIds
    → String
    → String
    → String
    → ChatSession
    → Store
    → Result (Message × Run) × Store
unfolding title_from_content
write_user_message now cut ids chat_id user_id content chat s =
    let msg : Message = record {
      id = ids.msg;
      chat_id = chat_id;
      run_id = ids.run;
      role = user;
      content = content;
      created_at = now;
    } in
    let run = new_run now ids chat_id user_id in
    let workspace : Workspace = record {
      id = run.workspace_id;
      user_id = user_id;
      project_id = chat.project_id;
      chat_id = chat_id;
      run_id = run.id;
      root_path = run.workspace_id;
      created_at = now;
    } in
    let titled = chat.title == "New chat" && not (content == "") in
    let chat' = record chat {
      last_run_id = run.id;
      updated_at = now;
      title = if titled then title_from_content cut content else chat.title;
    } in
    (
      ok (msg, run),
      record s {
        messages = put chat_id (messages_of s chat_id ++ msg ∷ []) s.messages;
        chats = put chat_id chat' s.chats;
        runs = put run.id run s.runs;
        workspaces = put run.workspace_id workspace s.workspaces;
      },
    )

unfoldable pub add_user_message :
    ℕ
    → (String → String)
    → NewIds
    → String
    → String
    → String
    → Store
    → Result (Message × Run) × Store
unfolding write_user_message
add_user_message now cut ids chat_id user_id content s = elim (lookup chat_id s.chats) [
  | none ↦ (err not_found, s)
  | some chat ↦
      if chat.user_id == user_id
      then write_user_message now cut ids chat_id user_id content chat s
      else (err not_found, s)
]

unfoldable pub add_assistant_message :
    ℕ → String → String → String → String → Store → Result Message × Store
add_assistant_message now new_id chat_id run_id content s =
    let msg : Message = record {
      id = new_id;
      chat_id = chat_id;
      run_id = run_id;
      role = assistant;
      content = content;
      created_at = now;
    } in
    elim (lookup chat_id s.chats) [
      | none ↦ (err not_found, s)
      | some chat ↦ (
        ok msg,
        record s {
          messages = put chat_id (messages_of s chat_id ++ msg ∷ []) s.messages;
          chats = put chat_id (record chat { updated_at = msg.created_at }) s.chats;
        },
      )
    ]

abbrev is_user : MessageRole → Bool
is_user user = Bool.true
is_user _ = false

-- The last user message: the loop runs from the end of the list.
last_user : List Message → Option Message
last_user [] = none
last_user (msg ∷ msgs) = elim (last_user msgs) [
  | none ↦ if is_user msg.role then some msg else none
  | some later ↦ some later
]

pub latest_user_message : String → Store → Option Message
unfolding last_user
latest_user_message chat_id s = last_user (messages_of s chat_id)
