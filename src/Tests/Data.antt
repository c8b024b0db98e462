-- ===== src/Tests/Data.antt =====
-- A store with one chat, one claimed run and two artifacts.
use nice_agent.Prelude.{false, none, some, [], ◌∷◌}
use nice_agent.Protocol.Run.{Run, running, zero_run_usage}
use nice_agent.Protocol.Chat.{ChatSession, Artifact}
use nice_agent.Store.{Store, new_store}
use nice_agent.Protocol.Invitation.{Invitation, pending, InvitationEmailDelivery, email_pending}
use nice_agent.Sink.Calls.{Outside, World}

abbrev pub chat : ChatSession
chat = record {
  id = "chat_1";
  user_id = "demo-user";
  project_id = "demo-project";
  title = "New chat";
  archived = false;
  last_run_id = "run_1";
  created_at = 10;
  updated_at = 10;
  message_count = 0;
}

abbrev pub queued_run : Run
queued_run = record {
  id = "run_1";
  chat_id = "chat_1";
  user_id = "demo-user";
  workspace_id = "ws_1";
  attempt_id = "";
  claimed_by = "";
  lease_expires_at = none;
  attempt_count = 0;
  status = nice_agent.Protocol.Run.queued;
  error = "";
  usage = zero_run_usage;
  created_at = 10;
  updated_at = 10;
  started_at = none;
  finished_at = none;
}

abbrev pub claimed : Run
claimed = record queued_run {
  attempt_id = "attempt_a";
  claimed_by = "runtime_a";
  lease_expires_at = some 600;
  attempt_count = 1;
  status = running;
  started_at = some 20;
  updated_at = 20;
}

abbrev pub report : Artifact
report = record {
  id = "art_1";
  run_id = "run_1";
  chat_id = "chat_1";
  user_id = "demo-user";
  project_id = "demo-project";
  workspace_id = "ws_1";
  path = "output/report.txt";
  name = "report.txt";
  mime_type = "text/plain";
  size_bytes = 12;
  sha256 = "";
  storage_backend = "local";
  storage_key = "";
  created_at = 15;
  expires_at = some 40;
  deleted_at = none;
}

-- The run waits in the queue.
abbrev pub waiting : Store
waiting = record (new_store 5) { chats = ("chat_1", chat) ∷ []; runs = ("run_1", queued_run) ∷ [] }

-- The run is claimed, and an artifact is there.
abbrev pub busy : Store
busy = record waiting { runs = ("run_1", claimed) ∷ []; artifacts = ("art_1", report) ∷ [] }

abbrev pub outside : Outside
outside = record { now = λ n. n; fresh = λ n. "new_id" }

abbrev pub world : World
world = record { store = busy; calls = 0 }

-- An invitation to the organization, and a mail for it that waits.
abbrev pub invitation : Invitation
invitation = record {
  id = "inv_1";
  token = "invite_token_1";
  organization_id = "demo-org";
  project_id = "";
  email = "bob@example.com";
  role = "member";
  status = pending;
  invited_by_user_id = "demo-user";
  accepted_by_user_id = "";
  created_at = 10;
  expires_at = 604800000000010;
  accepted_at = none;
}

abbrev pub mail : InvitationEmailDelivery
mail = record {
  id = "invmail_1";
  invitation_id = "inv_1";
  invitation = invitation;
  status = email_pending;
  attempts = 0;
  max_attempts = 3;
  next_attempt_at = 10;
  locked_by = "";
  locked_until = none;
  last_error = "";
  sent_at = none;
  created_at = 10;
  updated_at = 10;
}

abbrev pub invited : Store
invited = record (new_store 5) {
  invitations = ("invite_token_1", invitation) ∷ [];
  email_deliveries = ("invmail_1", mail) ∷ [];
}
