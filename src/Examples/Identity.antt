-- ===== src/Examples/Identity.antt =====
-- Logins, sessions, domains and webhooks.
use sentry_load.Prelude.{
  ℕ, ◌+◌, ◌≤◌, ◌<◌, ◌≡◌, ◌≢◌, refl, ◌⊎◌, inl, inr, Bool, true, false, not, ◌&&◌, ◌||◌, List, [],
  ◌∷◌, ◌++◌, Option, none, some, arith, Text, bytes, text_eq, ltb, ◌==◌, if◌then◌else◌, All, pos,
  lookup, length,
}
use sentry_load.Strings.{to_lower, has_suffix, split}
use sentry_load.Coordinator.Persister.{User, VerifiedDomain, Persister}
use sentry_load.Coordinator.AuthState.{StateStore, is_live}
use sentry_load.Coordinator.DomainStore.{
  DomainStore, new_domain_store, set_verified, load_domain_store, mark_verified, is_verified,
  challenge, is_valid_domain_name, is_valid_webhook_url, localhost,
}
use sentry_load.Coordinator.DomainStore.Names.{IsHostByte, is_valid_domain_name_shape}
use sentry_load.Coordinator.DomainStore.Verified.{
  KeepsDomains, IsSynced, has_row, mark_verified_durable,
}
use sentry_load.Coordinator.UserStore.{
  UserStore, session_ttl, user_id_for_github, get_by_id, get_by_github, find_or_create,
  issue_session,
}
use sentry_load.Coordinator.UserStore.Users.{login_resolves}
use sentry_load.Coordinator.Api.{verify_domain_response, webhook_response}
use sentry_load.Coordinator.Verify.{handle_verify_domain}
use sentry_load.Coordinator.Verify.Proof.{proven, verify_domain_sound, proof_serves_anyone}
use sentry_load.Coordinator.Login.{require_auth, handle_github_callback}
use sentry_load.Coordinator.Login.Bearer.{admitted, bearer_admits}
use sentry_load.Coordinator.Login.Callback.{callback_uses_state_up}
use sentry_load.Coordinator.Reports.{handle_set_webhook}
use sentry_load.Coordinator.Reports.Scope.{set_webhook_effect}
use sentry_load.Examples.World.{whole, no_db, services, config, ann, bob, users, server}

ne_id : config.github_client_id ≢ []
unfolding bytes
ne_id e = cc

ne_c : bytes "c" ≢ []
unfolding bytes
ne_c e = cc

ne_s : bytes "s" ≢ []
unfolding bytes
ne_s e = cc

ne_token : bytes "07" ≢ []
unfolding bytes
ne_token e = cc

abbrev states : StateStore
states = record { issued = (bytes "s", 0) ∷ [] }

callback_uses_state_up_example :
    let s' = (handle_github_callback services config (bytes "c") (bytes "s") none 5 server).0 in
    let (s'', r) = handle_github_callback services config (bytes "d") (bytes "s") none 6 s' in
    ((r.status ≡ 400) × (s''.users ≡ s'.users) × (is_live (bytes "s") 6 s''.auth_states ≡ false))
    × let (t, refusal) = handle_github_callback services config [] (bytes "s") none 5 server in
      (refusal.status ≡ 400) × (t ≡ server)
callback_uses_state_up_example =
    callback_uses_state_up services config (bytes "c") (bytes "d") (bytes "s") none none 5 6 server
      ne_id ne_c ne_s

abbrev token : Text
token = bytes "07"

issued :
    (issue_session services.persister services.sha256 ann.id
      (some (7 ∷ []))
      100
      server.db
      server.users).2
    ≡ some token
unfolding issue_session sentry_load.Coordinator.DomainStore.random_token bytes
issued = refl

bearer_admits_example :
    let users' =
      (issue_session services.persister services.sha256 ann.id
        (some (7 ∷ []))
        100
        server.db
        server.users).1 in
    admitted
      (require_auth services (bytes "Bearer " ++ token) 200 (record server { users = users' }))
    ≡ (if ltb 200 (100 + session_ttl) then get_by_id ann.id users' else none)
bearer_admits_example =
    bearer_admits services ann.id token (some (7 ∷ [])) 100 200 server issued ne_token

abbrev renamed : User
renamed = record ann { github_login = bytes "anna" }

logged_in : (find_or_create no_db (pos 7) (bytes "anna") tt users).2 ≡ some renamed
unfolding find_or_create lookup sentry_load.Prelude.insert sentry_load.Prelude.int_beq
logged_in = refl

login_resolves_example :
    let s' = (find_or_create no_db (pos 7) (bytes "anna") tt users).1 in
    (get_by_github (pos 7) s' ≡ some renamed)
    × (get_by_id renamed.id s' ≡ some renamed)
    × (renamed ≡ elim (get_by_github (pos 7) users) [
      | none ↦ record {
        id = user_id_for_github (pos 7);
        github_id = pos 7;
        github_login = bytes "anna";
        webhook_url = [];
      }
      | some known ↦ record known { github_login = bytes "anna" }
    ])
login_resolves_example = login_resolves no_db (pos 7) (bytes "anna") tt users renamed logged_in

-- A database of verified domains whose writes succeed.
abbrev rows_db : Persister (List VerifiedDomain)
rows_db = record {
  save_user = λ u p. (p, true);
  load_users = λ p. some [];
  save_session = λ s p. (p, true);
  load_sessions = λ now p. (p, some []);
  save_verified_domain = λ v p. (v ∷ p, true);
  load_verified_domains = λ p. some p;
}

rows_db-KeepsDomains : KeepsDomains rows_db
unfolding has_row
rows_db-KeepsDomains = record {
  saved = λ v p vs e h. (v ∷ p, refl, λ d o. ground arith);
  refused = λ v p h. absurd (ground arith);
}

empty-IsSynced : IsSynced rows_db rows_db-KeepsDomains [] new_domain_store
unfolding has_row is_verified sentry_load.Prelude.lookup_or lookup
empty-IsSynced = record { rows = []; loaded = refl; agree = λ d o. refl }

mark_verified_durable_example :
    let (p', s', saved) =
      mark_verified (some rows_db) (bytes "b.io") (bytes "gh-7") [] new_domain_store in
    IsSynced rows_db rows_db-KeepsDomains p' s'
    × ((d o : Text)
        → is_verified d o s' ≡ (
            (saved && (bytes "b.io" == d && bytes "gh-7" == o))
            || is_verified d o new_domain_store))
    × ((r : DomainStore) × (load_domain_store (some rows_db) p' ≡ some r)
        × ((d o : Text) → is_verified d o r ≡ is_verified d o s'))
mark_verified_durable_example =
    mark_verified_durable rows_db rows_db-KeepsDomains (bytes "b.io") (bytes "gh-7") []
      new_domain_store empty-IsSynced

verify_domain_sound_example :
    let (s', r) = handle_verify_domain services (bytes "b.io") ann (some (bytes "dns")) server in
    ((d o : Text)
      → (is_verified d o s'.domains ≡ is_verified d o server.domains)
        ⊎ ((proven services (bytes "b.io") (some (bytes "dns")) server ≡ true)
            × (d ≡ bytes "b.io")
            × (o ≡ ann.id)))
    × ((d : Text) → challenge d s'.domains ≡ challenge d server.domains)
verify_domain_sound_example =
    verify_domain_sound services (bytes "b.io") ann (some (bytes "dns")) server

ann_verified :
    (handle_verify_domain services (bytes "b.io") ann (some (bytes "dns")) server).1.body
    ≡ verify_domain_response (bytes "b.io") true
unfolding handle_verify_domain sentry_load.Prelude.same bytes challenge lookup mark_verified
ann_verified = refl

proof_serves_anyone_example :
    let (s', r) = handle_verify_domain services (bytes "b.io") bob (some (bytes "dns")) server in
    (r.body ≡ verify_domain_response (bytes "b.io") true)
    × (is_verified (bytes "b.io") bob.id s'.domains ≡ true)
proof_serves_anyone_example =
    proof_serves_anyone services (bytes "b.io") ann bob (some (bytes "dns")) server refl
      ann_verified

valid_name : is_valid_domain_name services.parse_ip (bytes "a-1.io") ≡ true
unfolding is_valid_domain_name bytes sentry_load.Prelude.same to_lower has_suffix
    sentry_load.Strings.cut_prefix split
valid_name = refl

is_valid_domain_name_shape_example :
    (0 < length (bytes "a-1.io"))
    × (length (bytes "a-1.io") ≤ 253)
    × All IsHostByte (bytes "a-1.io")
    × (services.parse_ip (bytes "a-1.io") ≡ false)
    × ((to_lower (bytes "a-1.io") == localhost) ≡ false)
    × (has_suffix (to_lower (bytes "a-1.io")) (bytes ".localhost") ≡ false)
    × (1 < length (split b'.' (bytes "a-1.io")))
    × All (λ l. l ≢ []) (split b'.' (bytes "a-1.io"))
is_valid_domain_name_shape_example =
    is_valid_domain_name_shape services.parse_ip (bytes "a-1.io") valid_name

knows_ann : get_by_id ann.id server.users ≡ some ann
unfolding get_by_id lookup sentry_load.Coordinator.UserStore.add_user sentry_load.Prelude.insert
    sentry_load.Prelude.same bytes
knows_ann = refl

set_webhook_effect_example :
    let (s', r) = handle_set_webhook services ann (some (bytes "c.io")) server in
    ((url : Text) × (r.body ≡ webhook_response url)
      × ((url ≡ []) ⊎ (is_valid_webhook_url services.parse_ip services.parse_url url ≡ true))
      × (get_by_id ann.id s'.users ≡ some (record ann { webhook_url = url })))
    ⊎ ((r.status ≢ 200) × (s'.users ≡ server.users))
set_webhook_effect_example =
    set_webhook_effect services ann ann (some (bytes "c.io")) server knows_ann
