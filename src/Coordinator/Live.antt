-- ===== src/Coordinator/Live.antt =====
-- coordinator/live.go: the handler that follows a test over a WebSocket. The connection is what the
-- client was sent; whether a write succeeds is an argument. The loop is a function for each of its
-- rounds, so that messages of the results stream come between them.
pub mod Ends
use sentry_load.Prelude.{
  ℕ, zero, suc, Bool, true, false, not, ◌&&◌, List, [], ◌∷◌, ◌++◌, Option, none, some, Text,
  text_eq, nat_eq, bytes, if◌then◌else◌, Map, lookup, insert, Float,
}
use sentry_load.Coordinator.UserStore.{user_for_session}
use sentry_load.Coordinator.Snapshot.{TestSnapshot}
use sentry_load.Coordinator.TestStore.{Channel, TestStore, subscribe, unsubscribe, snapshot}
use sentry_load.Coordinator.Api.{Services, Server, Response, write_error}

-- A connection: the test, the channel of its subscription, what was sent, whether the handler runs
-- and whether it closed the connection gracefully.
pub record Live (F : Type 0) : Type 0 where
  pub test_id : Text
  pub channel : ℕ
  pub sent : List (TestSnapshot F)
  pub running : Bool
  pub graceful : Bool

module _ {F : Type 0} where
  -- return, with the deferred unsubscribe
  unfoldable pub end_live : TestStore F → Live F → TestStore F × Live F
  end_live s l = (unsubscribe l.test_id l.channel s, record l { running = false })

  -- WriteJSON and what follows it, the same for the first snapshot and for the later ones.
  unfoldable pub send_snapshot : Bool → TestSnapshot F → TestStore F → Live F → TestStore F × Live F
  unfolding end_live
  send_snapshot written snap s l =
      let l' = record l { sent = l.sent ++ snap ∷ [] } in
      if not written
      then end_live s l
      else if snap.done
      then end_live s (record l' { graceful = true })
      else (s, l')

  -- A round of the loop that selects the channel; it waits while the channel is empty and open.
  unfoldable pub live_round : Bool → TestStore F → Live F → TestStore F × Live F
  unfolding send_snapshot
  live_round written s l = elim l.running [
    | false ↦ (s, l)
    | true ↦ elim (lookup l.channel s.channels) [
      | none ↦ (s, l)
      | some c ↦ elim c.buffer [
        | [] ↦ if c.closed then end_live s l else (s, l)
        | snap ∷ rest ↦
            send_snapshot written snap
              (record s { channels = insert l.channel (record c { buffer = rest }) s.channels }) l
      ]
    ]
  ]

  -- A round that selects `closed`: the client went away.
  unfoldable pub client_closes : TestStore F → Live F → TestStore F × Live F
  client_closes s l = if l.running then end_live s l else (s, l)

  -- Rounds with nothing between them, each write a success.
  unfoldable pub live_rounds : ℕ → TestStore F → Live F → TestStore F × Live F
  unfolding live_round
  live_rounds zero s l = (s, l)
  live_rounds (suc n) s l = let (s', l') = live_round true s l in live_rounds n s' l'

module _ {F : Type 0} ⦃fl : Float F⦄ where
  -- From Subscribe to the loop.
  unfoldable pub start_live : Bool → Text → Text → TestStore F → TestStore F × Live F
  unfolding send_snapshot
  start_live written id owner_id s =
      let (s', ch) = subscribe id s in
      let l : Live F = record {
        test_id = id;
        channel = ch;
        sent = [];
        running = true;
        graceful = false;
      } in
      elim (snapshot id owner_id s') [
        | none ↦ (s', l)
        | some initial ↦ send_snapshot written initial s' l
      ]

-- A refusal, or the connection.
pub data Opened (F : Type 0) : Type 0 where
  refused : Response F → Opened F
  not_upgraded : Opened F
  opened : Live F → Opened F

module _ {F P R H : Type 0} ⦃fl : Float F⦄ (sv : Services F P R H) where
  -- handleTestLive up to its loop; `upgraded` and `written` say whether Upgrade and the first
  -- write succeed.
  unfoldable pub handle_test_live :
      Text → Text → ℕ → Bool → Bool → Server F P R H → Server F P R H × Opened F
  unfolding start_live
  handle_test_live token id now upgraded written s =
      let (users', session) = user_for_session sv.sha256 token now s.users in
      let s' = record s { users = users' } in
      elim session [
        | none ↦ (s', refused (write_error 401 (bytes "missing or invalid token")))
        | some user ↦ elim (snapshot id user.id s.tests) [
          | none ↦ (s', refused (write_error 404 (bytes "unknown test id")))
          | some _ ↦
              if upgraded
              then (let (tests', l) = start_live written id user.id s.tests in
                  (record s' { tests = tests' }, opened l))
              else (s', not_upgraded)
        ]
      ]
