-- ===== src/Server/Chats.antt =====
-- The handlers of chats in server.go. A new message is in Server/Messages.
use nice_agent.Prelude.{String, Bool, true, false, List, [], ◌∷◌, ◌==◌, if◌then◌else◌, not}
use nice_agent.Protocol.Json.{str}
use nice_agent.ActionPolicy.{write}
use nice_agent.Store.{Store, ok, err}
use nice_agent.Store.Chats.{get_chat, create_chat, set_chat_archived}
use nice_agent.Store.Listing.{list_chats}
use nice_agent.Server.{
  Server, Draw, Request, Method, get, post, other_method, Subject, Response, one_chat,
  chat_messages, chat_list, write_error, write_json, write_store_err, audit_allow, audit_deny,
  require_action,
}
use nice_agent.Server.Access.{actor_can_read_chat, actor_can_read_chat_id}

abbrev pub chat_subject : String → String → Subject
chat_subject action chat_id = record {
  action = action;
  resource_type = "chat";
  resource_id = chat_id;
  run_id = "";
}

unfoldable pub create_chat_for : Server → Draw → Request → Store → Response × Store
create_chat_for server d r s =
    let (created, t) = create_chat d.now d.new_id r.actor.user_id r.actor.project_id r.title s in
    elim created [
      | err e ↦ (write_store_err e, t)
      | ok chat ↦ (
        write_json 201 (one_chat chat),
        audit_allow server d r (chat_subject "chat.create" chat.id) (("title", str chat.title) ∷ [])
            t,
      )
    ]

unfoldable pub chats : Server → Draw → Request → Store → Response × Store
chats server d r s = elim r.method [
  | get ↦ (
    write_json 200
        (chat_list (list_chats server.lower r.actor.user_id r.actor.project_id r.list_options s)),
    s,
  )
  | post ↦
      require_action server d r (chat_subject "chat.create" "") write (create_chat_for server d r) s
  | other_method ↦ (write_error 405 "method not allowed", s)
]

unfoldable pub read_chat : Server → Draw → Request → String → Store → Response × Store
read_chat server d r chat_id s = elim (get_chat chat_id s) [
  | err e ↦ (write_store_err e, s)
  | ok (chat, messages) ↦
      if actor_can_read_chat r.actor chat
      then (write_json 200 (chat_messages chat messages), s)
      else (
        write_error 404 "not found",
        audit_deny server d r (chat_subject "chat.read" chat_id) "actor cannot read chat" [] s,
      )
]

-- After the tests of archiving and restoring.
unfoldable pub set_archived :
    Server → Draw → Request → String → String → Bool → Store → Response × Store
set_archived server d r action chat_id archived s =
    let (changed, t) = set_chat_archived d.now chat_id r.actor.user_id archived s in
    elim changed [
      | err e ↦ (write_store_err e, t)
      | ok chat ↦ (
        write_json 200 (one_chat chat),
        audit_allow server d r (chat_subject action chat.id) [] t,
      )
    ]

unfoldable pub archive_chat :
    Server → Draw → Request → String → String → String → Bool → Store → Response × Store
archive_chat server d r action reason chat_id archived s =
    if not (actor_can_read_chat_id r.actor chat_id s)
    then (
      write_error 404 "not found",
      audit_deny server d r (chat_subject action chat_id) reason [] s,
    )
    else require_action server d r (chat_subject action chat_id) write
        (set_archived server d r action chat_id archived) s

-- The routes under a chat, by the method and the parts of the path after the chat; `create_message` is
-- the handler of its messages.
unfoldable pub chat_route :
    Server
    → Draw
    → (String → Store → Response × Store)
    → Request
    → String
    → Method
    → List String
    → Store
    → Response × Store
chat_route server d create_message r chat_id get [] s = read_chat server d r chat_id s
chat_route server d create_message r chat_id post (part ∷ []) s =
    if part == "messages"
    then create_message chat_id s
    else if part == "archive"
    then archive_chat server d r "chat.archive" "actor cannot archive chat" chat_id true s
    else if part == "restore"
    then archive_chat server d r "chat.restore" "actor cannot restore chat" chat_id false s
    else (write_error 404 "chat route not found", s)
chat_route server d create_message r chat_id method rest s =
    (write_error 404 "chat route not found", s)

unfoldable pub chat_subroutes :
    Server → Draw → (String → Store → Response × Store) → Request → Store → Response × Store
chat_subroutes server d create_message r s = elim r.parts [
  | [] ↦ (write_error 404 "chat route not found", s)
  | chat_id ∷ rest ↦ chat_route server d create_message r chat_id r.method rest s
]
