-- ===== src/Store/Identities.antt =====
-- Bound identities and browser sessions in store.go.
use Prim.Native.String
use nice_agent.Prelude.{
  ℕ, String, Bool, true, false, not, ◌||◌, ◌&&◌, Option, none, some, lookup, put, eqb, ltb, ◌==◌,
  if◌then◌else◌, or_else, trim_space, to_lower, pair_key, Char,
}
use nice_agent.Protocol.Identity.{UserIdentity, OidcBrowserSession}
use nice_agent.Store.{Store, Result, ok, err, invalid_input, identity_conflict}
use nice_agent.Store.Members.{filled_user, user_of}

-- The identity with its texts trimmed.
abbrev pub trimmed : (Char → Char) → UserIdentity → UserIdentity
trimmed lower identity = record identity {
  provider = to_lower lower (trim_space identity.provider);
  issuer = trim_space identity.issuer;
  subject = trim_space identity.subject;
  user_id = trim_space identity.user_id;
  email = to_lower lower (trim_space identity.email);
  name = trim_space identity.name;
}

-- `identityKey`
abbrev pub identity_key : UserIdentity → String
identity_key identity = pair_key identity.provider (pair_key identity.issuer identity.subject)

-- `userIdentityKey`
abbrev pub user_identity_key : UserIdentity → String
user_identity_key identity = pair_key identity.provider identity.user_id

-- `existingKey, ok := s.userIdentities[userKey]; ok && existingKey != key`
abbrev pub bound_elsewhere : String → Option String → Bool
bound_elsewhere key none = false
bound_elsewhere key (some existing_key) = not (existing_key == key)

-- A first binding.
unfoldable pub bind_new : ℕ → String → UserIdentity → Store → Result UserIdentity × Store
bind_new now new_id identity s =
    let user = user_of s identity.user_id in
    let email =
      or_else identity.email
        (or_else user.email (String.◌++◌ identity.user_id "@niceagent.local")) in
    let bound = record identity { id = new_id; created_at = now; updated_at = now } in
    let key = identity_key identity in
    (
      ok bound,
      record s {
        users =
            put identity.user_id (filled_user now identity.user_id email identity.name user)
              s.users;
        identities = put key bound s.identities;
        user_identities = put (user_identity_key identity) key s.user_identities;
      },
    )

-- `BindUserIdentity` with the identity already trimmed.
unfoldable pub bind_trimmed : ℕ → String → UserIdentity → Store → Result UserIdentity × Store
bind_trimmed now new_id identity s =
    if identity.provider == ""
      || identity.issuer == ""
      || identity.subject == ""
      || identity.user_id == ""
    then (err invalid_input, s)
    else elim (lookup (identity_key identity) s.identities) [
      | some existing ↦
          if existing.user_id == identity.user_id
          then (let renewed = record existing {
            email = or_else identity.email existing.email;
            name = or_else identity.name existing.name;
            updated_at = now;
          } in
              (
                ok renewed,
                record s { identities = put (identity_key identity) renewed s.identities },
              ))
          else (err identity_conflict, s)
      | none ↦
          if bound_elsewhere (identity_key identity)
            (lookup (user_identity_key identity) s.user_identities)
          then (err identity_conflict, s)
          else bind_new now new_id identity s
    ]

unfoldable pub bind_user_identity :
    (Char → Char) → ℕ → String → UserIdentity → Store → Result UserIdentity × Store
bind_user_identity lower now new_id identity s = bind_trimmed now new_id (trimmed lower identity) s

-- `t`, or `d` where it is the zero time.
abbrev or_time : ℕ → ℕ → ℕ
or_time t d = if eqb t 0 then d else t

-- `existing.CreatedAt`, the zero time where there is no session
abbrev created_of : Option OidcBrowserSession → ℕ
created_of none = 0
created_of (some existing) = existing.created_at

unfoldable pub upsert_oidc_browser_session :
    ℕ → OidcBrowserSession → Store → Result (Unit {0}) × Store
upsert_oidc_browser_session now session s =
    let id = trim_space session.id in
    let user_id = trim_space session.user_id in
    let project_id = trim_space session.project_id in
    if id == "" || user_id == "" || project_id == "" || eqb session.expires_at 0
    then (err invalid_input, s)
    else (let existing_created_at = created_of (lookup id s.oidc_sessions) in
        (
          ok tt,
          record s {
            oidc_sessions =
                put id
                  (record session {
                    id = id;
                    user_id = user_id;
                    project_id = project_id;
                    refresh_token_hash = trim_space session.refresh_token_hash;
                    created_at = or_time (or_time session.created_at existing_created_at) now;
                    updated_at = or_time session.updated_at now;
                  })
                  s.oidc_sessions;
          },
        ))

-- `clock` is read where `revoked_at` is the zero time.
unfoldable pub revoke_oidc_browser_session : ℕ → String → ℕ → Store → Result (Unit {0}) × Store
revoke_oidc_browser_session clock session_id revoked_at s =
    let session_id = trim_space session_id in
    let at = or_time revoked_at clock in
    if session_id == "" then (err invalid_input, s) else elim (lookup session_id s.oidc_sessions) [
      | none ↦ (ok tt, s)
      | some session ↦ (
        ok tt,
        record s {
          oidc_sessions =
              put session_id (record session { revoked_at = some at; updated_at = at })
                s.oidc_sessions;
        },
      )
    ]

abbrev is_none : Option ℕ → Bool
is_none none = true
is_none (some _) = false

unfoldable pub is_oidc_browser_session_active : ℕ → String → String → ℕ → Store → Bool
is_oidc_browser_session_active clock session_id user_id now s =
    let session_id = trim_space session_id in
    let user_id = trim_space user_id in
    if session_id == "" || user_id == "" then false else elim (lookup session_id s.oidc_sessions) [
      | none ↦ false
      | some session ↦
          session.user_id == user_id
          && is_none session.revoked_at
          && ltb (or_time now clock) session.expires_at
    ]
