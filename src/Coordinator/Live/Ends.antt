-- ===== src/Coordinator/Live/Ends.antt =====
-- How the loop of handleTestLive (coordinator/live.go) ends, with notifySubscribers of
-- coordinator/teststore.go on the other side of its channel.
use sentry_load.Prelude.{
  ℕ, zero, suc, ◌≤◌, ◌<◌, ◌≡◌, refl, sym, ap, subst, ◌∙◌, inl, inr, Bool, true, false, ◌||◌, List,
  [], ◌∷◌, ◌++◌, some, arith, length, length-append, Text, text_eq, nat_eq, ◌==◌, if◌then◌else◌,
  Bool-cases, Option-cases, Map, lookup, lookup_or, insert, lookup-insert, lookup-insert_self,
  append_assoc, Float,
}
use sentry_load.Coordinator.Snapshot.{SubJobState, TestSnapshot, build_snapshot}
use sentry_load.Coordinator.Snapshot.Merge.{build_snapshot_flags}
use sentry_load.Coordinator.TestStore.{
  Channel, TestStore, channel_capacity, offer, offer_all, notify_subscribers, change_sub_job,
}
use sentry_load.Coordinator.TestStore.Runs.{Message, receive, about, receive_lem, job_of, new_state}
use sentry_load.Coordinator.Live.{Live, end_live, send_snapshot, live_round, live_rounds}

unfoldable pub contains : ℕ → List ℕ → Bool
contains ch [] = false
contains ch (c ∷ cs) = c == ch || contains ch cs

module _ {F : Type 0} where
  unfoldable pub has_done : List (TestSnapshot F) → Bool
  has_done [] = false
  has_done (snap ∷ snaps) = snap.done || has_done snaps

  has_done-append :
      (xs ys : List (TestSnapshot F)) → has_done (xs ++ ys) ≡ (has_done xs || has_done ys)
  unfolding has_done
  has_done-append [] ys = refl
  has_done-append (x ∷ xs) ys = ground (arith, has_done-append xs ys)

  -- A channel that a loop reads, with a snapshot waiting in it that is done.
  record Waits (ch : ℕ) (channels : Map ℕ (Channel F)) : Type 0 where
    pub state : Channel F
    pub found : lookup ch channels ≡ some state
    pub done_waits : has_done state.buffer ≡ true
    pub fits : length state.buffer ≤ channel_capacity

  offer-done :
      (snap : TestSnapshot F) (c : Channel F)
      → has_done c.buffer ≡ true
      → length c.buffer ≤ channel_capacity
      → (has_done (offer snap c).buffer ≡ true) × (length (offer snap c).buffer ≤ channel_capacity)
  unfolding offer
  offer-done snap c h k =
      ground (arith, has_done-append c.buffer (snap ∷ []), length-append c.buffer (snap ∷ []))

  offer-first :
      (snap : TestSnapshot F) (c : Channel F)
      → snap.done ≡ true
      → length c.buffer < channel_capacity
      → (has_done (offer snap c).buffer ≡ true) × (length (offer snap c).buffer ≤ channel_capacity)
  unfolding offer has_done
  offer-first snap c h k =
      ground (arith, has_done-append c.buffer (snap ∷ []), length-append c.buffer (snap ∷ []))

  -- A snapshot that is waiting stays.
  offer_all-keeps :
      (snap : TestSnapshot F) (ch : ℕ) (subs : List ℕ) (m : Map ℕ (Channel F))
      → Waits ch m
      → Waits ch (offer_all snap subs m)
  unfolding offer_all
  offer_all-keeps snap ch [] m w = w
  offer_all-keeps snap ch (j ∷ subs) m w = elim (Option-cases (lookup j m)) [
    | inl e ↦ rw (offer_all, e) (offer_all-keeps snap ch subs m w)
    | inr (c, e) ↦
        rw (offer_all, e) (offer_all-keeps snap ch subs (insert j (offer snap c) m) (offered c e))
  ]
    where
      offered : (c : Channel F) → lookup j m ≡ some c → Waits ch (insert j (offer snap c) m)
      offered c e = elim (Bool-cases (j == ch)) [
        | inl same ↦
            let d = offer-done snap w.state w.done_waits w.fits in
            record {
              state = offer snap w.state;
              found = ground (arith, lookup-insert j ch (offer snap c) m, w.found);
              done_waits = d.0;
              fits = d.1;
            }
        | inr other ↦ record {
          state = w.state;
          found = ground (arith, lookup-insert j ch (offer snap c) m, w.found);
          done_waits = w.done_waits;
          fits = w.fits;
        }
      ]

  -- A channel with room gets the snapshot.
  offer_all-reaches :
      (snap : TestSnapshot F) (ch : ℕ) (c : Channel F) (subs : List ℕ) (m : Map ℕ (Channel F))
      → snap.done ≡ true
      → contains ch subs ≡ true
      → lookup ch m ≡ some c
      → length c.buffer < channel_capacity
      → Waits ch (offer_all snap subs m)
  unfolding offer_all contains
  offer_all-reaches snap ch c [] m d k found room = absurd (ground arith)
  offer_all-reaches snap ch c (j ∷ subs) m d k found room = elim (Bool-cases (j == ch)) [
    | inl same ↦
        let at_j : lookup j m ≡ some c = ground arith in
        let first = offer-first snap c d room in
        rw (offer_all, at_j)
          (offer_all-keeps snap ch subs (insert j (offer snap c) m) (record {
            state = offer snap c;
            found = ground (arith, lookup-insert j ch (offer snap c) m);
            done_waits = first.0;
            fits = first.1;
          }))
    | inr other ↦ elim (Option-cases (lookup j m)) [
      | inl e ↦ rw (offer_all, e) (offer_all-reaches snap ch c subs m d (ground arith) found room)
      | inr (b, e) ↦
          rw (offer_all, e)
            (offer_all-reaches snap ch c subs (insert j (offer snap b) m) d (ground arith)
              (ground (arith, lookup-insert j ch (offer snap b) m)) room)
    ]
  ]

  -- What is sent of a channel's snapshots: those up to the first that is done.
  unfoldable pub up_to_done : List (TestSnapshot F) → List (TestSnapshot F)
  up_to_done [] = []
  up_to_done (snap ∷ snaps) = if snap.done then snap ∷ [] else snap ∷ up_to_done snaps

  up_to_done_lem :
      (snap : TestSnapshot F) (rest : List (TestSnapshot F))
      → (snap.done ≡ true → up_to_done (snap ∷ rest) ≡ snap ∷ [])
        × (snap.done ≡ false → up_to_done (snap ∷ rest) ≡ snap ∷ up_to_done rest)
  unfolding up_to_done
  up_to_done_lem snap rest = ground arith

  rounds_stopped :
      (n : ℕ) (s : TestStore F) (l : Live F) → l.running ≡ false → live_rounds n s l ≡ (s, l)
  unfolding live_rounds live_round
  rounds_stopped zero s l h = refl
  rounds_stopped (suc n) s l h = ground (arith, rounds_stopped n s l h)

  round_lem :
      (s : TestStore F) (l : Live F) (c : Channel F) (snap : TestSnapshot F)
      (rest : List (TestSnapshot F))
      → l.running ≡ true
      → lookup l.channel s.channels ≡ some c
      → c.buffer ≡ snap ∷ rest
      → live_round true s l
        ≡ send_snapshot true snap
            (record s { channels = insert l.channel (record c { buffer = rest }) s.channels })
            l
  unfolding live_round
  round_lem s l c snap rest r e b = ground (arith, r, e, b)

  abbrev pub EndsWith : List (TestSnapshot F) → TestStore F × Live F → Type 0
  EndsWith sent p = (p.1.running ≡ false) × (p.1.graceful ≡ true) × (p.1.sent ≡ sent)

  ended : (s : TestStore F) (l : Live F) → l.graceful ≡ true → EndsWith l.sent (end_live s l)
  unfolding end_live
  ended s l h = (refl, h, refl)

  drains :
      (n : ℕ) (buffer : List (TestSnapshot F)) (s : TestStore F) (l : Live F) (c : Channel F)
      → l.running ≡ true
      → lookup l.channel s.channels ≡ some c
      → c.buffer ≡ buffer
      → has_done buffer ≡ true
      → length buffer ≤ n
      → EndsWith (l.sent ++ up_to_done buffer) (live_rounds n s l)
  unfolding live_rounds has_done
  drains n [] s l c r e b d k = absurd (ground arith)
  drains zero (snap ∷ rest) s l c r e b d k = absurd (omega (arith, k))
  drains (suc n) (snap ∷ rest) s l c r e b d k =
      let s' : TestStore F = record s {
        channels = insert l.channel (record c { buffer = rest }) s.channels;
      } in
      let l' : Live F = record l { sent = l.sent ++ snap ∷ [] } in
      elim (Bool-cases snap.done) [
        | inl last ↦
            let over : TestStore F × Live F = end_live s' (record l' { graceful = true }) in
            let sent : live_round true s l ≡ over =
              round_lem s l c snap rest r e b ∙ unfold send_snapshot in rw last refl in
            let stop : live_rounds n over.0 over.1 ≡ over =
              rounds_stopped n over.0 over.1 (ended s' (record l' { graceful = true }) refl).0 in
            let all : live_rounds (suc n) s l ≡ over =
              ap (λ p. live_rounds n p.0 p.1) sent ∙ stop in
            rw all (
              subst (λ x. EndsWith (l.sent ++ x) over) (sym ((up_to_done_lem snap rest).0 last))
                (ended s' (record l' { graceful = true }) refl))
        | inr more ↦
            let sent : live_round true s l ≡ (s', l') =
              round_lem s l c snap rest r e b ∙ unfold send_snapshot in rw more refl in
            let later =
              drains n rest s' l' (record c { buffer = rest }) r
                (lookup-insert_self l.channel _ s.channels) refl (ground arith) (omega arith) in
            let all : live_rounds (suc n) s l ≡ live_rounds n s' l' =
              ap (λ p. live_rounds n p.0 p.1) sent in
            rw all (
              subst (λ x. EndsWith x (live_rounds n s' l'))
                (append_assoc l.sent (snap ∷ []) (up_to_done rest)
                  ∙ ap (λ x. l.sent ++ x) (sym ((up_to_done_lem snap rest).1 more)))
                later)
      ]

module _ {F : Type 0} ⦃fl : Float F⦄ where
  finishing-Waits :
      (t j : Text) (f : SubJobState F → SubJobState F) (s : TestStore F) (ch : ℕ) (c : Channel F)
      → (change_sub_job t j f s).1 ≡ true
      → contains ch (lookup_or [] t s.subscribers) ≡ true
      → lookup ch s.channels ≡ some c
      → length c.buffer < channel_capacity
      → Waits ch (change_sub_job t j f s).0.channels
  unfolding change_sub_job notify_subscribers
  finishing-Waits t j f s ch c h subscribed found room = elim (Option-cases (lookup t s.tests)) [
    | inl e ↦ absurd (ground arith)
    | inr (t', e) ↦ elim (Option-cases (lookup j t'.sub_jobs)) [
      | inl e' ↦ absurd (ground arith)
      | inr (sj, e') ↦
          let state' = record t' { sub_jobs = insert j (f sj) t'.sub_jobs } in
          let snap = build_snapshot state' in
          let done : snap.done ≡ true = ground (arith, (build_snapshot_flags state').0) in
          rw (change_sub_job, e, e', notify_subscribers)
            (offer_all-reaches snap ch c (lookup_or [] t s.subscribers) s.channels done subscribed
              found room)
    ]
  ]

  -- When a message of the results stream finishes a test, a running loop that is subscribed to it
  -- and whose channel has room ends within four rounds that write: it sends what waits in its
  -- channel, in order and up to a snapshot that is done, and closes the connection gracefully.
  pub live_ends_with_test :
      (m : Message F) (s : TestStore F) (l : Live F) (c : Channel F)
      → (receive m s).1 ≡ true
      → about m ≡ l.test_id
      → l.running ≡ true
      → contains l.channel (lookup_or [] l.test_id s.subscribers) ≡ true
      → lookup l.channel s.channels ≡ some c
      → length c.buffer < channel_capacity
      → (waiting : Channel F) × (lookup l.channel (receive m s).0.channels ≡ some waiting)
        × (has_done waiting.buffer ≡ true)
        × EndsWith
            (l.sent ++ up_to_done waiting.buffer)
            (live_rounds channel_capacity (receive m s).0 l)
  live_ends_with_test m s l c h same running subscribed found room =
      let w =
        finishing-Waits (about m) (job_of m) (new_state m) s l.channel c (rw (← receive_lem m s) h)
          (rw same subscribed) found room in
      rw (receive_lem m s) (
        w.state,
        w.found,
        w.done_waits,
        drains channel_capacity w.state.buffer _ l w.state running w.found refl w.done_waits w.fits,
      )
