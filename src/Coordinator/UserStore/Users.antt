-- ===== src/Coordinator/UserStore/Users.antt =====
-- On FindOrCreate (coordinator/userstore.go) and the maps that share its users.
use sentry_load.Prelude.{
  ◌≡◌, [], Option, none, some, arith, Text, text_eq, nat_eq, int_eq, ℤ, map_laws,
}
use sentry_load.Coordinator.Persister.{Persister, User}
use sentry_load.Coordinator.UserStore.{
  UserStore, user_id_for_github, deref, get_by_id, get_by_github, add_user, find_or_create,
}

module _ {P : Type 0} (persist : Option (Persister P)) where
  -- A login leaves its account, and the ID of its user, resolving to one user with the login's name;
  -- a user who was there keeps the ID and the webhook, and a new one gets the ID of the account and
  -- no webhook.
  pub login_resolves :
      (github_id : ℤ) (login : Text) (p : P) (s : UserStore) (u : User)
      → (find_or_create persist github_id login p s).2 ≡ some u
      → let s' = (find_or_create persist github_id login p s).1 in
        (get_by_github github_id s' ≡ some u)
        × (get_by_id u.id s' ≡ some u)
        × (u ≡ elim (get_by_github github_id s) [
          | none ↦ record {
            id = user_id_for_github github_id;
            github_id = github_id;
            github_login = login;
            webhook_url = [];
          }
          | some known ↦ record known { github_login = login }
        ])
  unfolding find_or_create get_by_github get_by_id deref add_user
  login_resolves github_id login p s u h =
      (grind (arith, map_laws), grind (arith, map_laws), grind (arith, map_laws))

  -- A login that the database refuses leaves the store as it was.
  pub refused_login_keeps :
      (github_id : ℤ) (login : Text) (p : P) (s : UserStore)
      → (find_or_create persist github_id login p s).2 ≡ none
      → (find_or_create persist github_id login p s).1 ≡ s
  unfolding find_or_create
  refused_login_keeps github_id login p s h = ground arith
