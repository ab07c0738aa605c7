-- ===== src/Coordinator/CreateTest/Submit.antt =====
-- On the answers of handleCreateTest (coordinator/handlers.go) and the server they leave.
use sentry_load.Prelude.{
  ℕ, suc, ◌<◌, min, subst, ◌≡◌, refl, sym, ◌∙◌, ap, ◌⊎◌, inl, inr, true, false, List, [], ◌++◌,
  Option, none, some, arith, map, Text, Bool-cases, Option-cases, ltb, ◌==◌, nat_eq, Float,
}
use sentry_load.Coordinator.Jobs.{SubJobSpec, build_sub_jobs}
use sentry_load.Coordinator.Persister.{User}
use sentry_load.Coordinator.Enqueue.{jobs_stream, job_fields, count_live_workers, enqueue}
use sentry_load.Coordinator.Enqueue.Published.{Appends, enqueue_sent}
use sentry_load.Coordinator.TestStore.{register}
use sentry_load.Coordinator.Api.{Services, Config, Server, Response, Checked, pass, stop}
use sentry_load.Coordinator.CreateTest.{
  CreateTestRequest, Plan, check_create_test, launch, submit, handle_create_test, set_live,
  clamp_warning, count_no_capacity, count_created,
}
use sentry_load.Coordinator.CreateTest.Guards.{check_create_test_stop}

pub Checked-cases :
    {F A : Type 0} (c : Checked F A) → ((r : Response F) × (c ≡ stop r)) ⊎ ((a : A) × (c ≡ pass a))
Checked-cases (pass a) = inr (a, refl)
Checked-cases (stop r) = inl (r, refl)

module _ {F P R H : Type 0} ⦃fl : Float F⦄ (sv : Services F P R H) (cfg : Config) where
  -- The test that a plan stands for, run with `fanout` sub-jobs, is on the stream and in the store.
  pub record Launched (laws : Appends sv.redis) (plan : Plan) (fanout : ℕ) (user : User) (now : ℕ)
      (s s' : Server F P R H) : Type 0 where
    pub published :
        laws.entries jobs_stream s'.queue
        ≡ laws.entries jobs_stream s.queue
          ++ map
              (job_fields (sv.new_id s.drawn) plan.url plan.ramp_pattern plan.duration_seconds)
              (build_sub_jobs sv.new_id (suc s.drawn) plan.vus fanout)
    pub registered :
        s'.tests
        ≡ register
            (sv.new_id s.drawn)
            user.id
            plan.url
            (map
              (λ (j : SubJobSpec). j.job_id)
              (build_sub_jobs sv.new_id (suc s.drawn) plan.vus fanout))
            now
            s.tests

  launch-Launched :
      (laws : Appends sv.redis) (plan : Plan) (warning : Text) (user : User) (now : ℕ)
      (s : Server F P R H)
      → (launch sv cfg plan warning user now s).1.status ≡ 202
      → Launched laws plan plan.fanout user now s (launch sv cfg plan warning user now s).0
  unfolding launch count_created
  launch-Launched laws plan warning user now s h =
      let out =
        (enqueue sv.redis sv.new_id plan.url plan.ramp_pattern plan.vus plan.duration_seconds
          plan.fanout s.drawn s.queue).2 in
      elim (Option-cases out) [
        | inl e ↦ absurd (ground arith)
        | inr ((test_id, job_ids), e) ↦
            let (id, ids, sent) =
              enqueue_sent sv.redis laws sv.new_id plan.url plan.ramp_pattern plan.vus
                plan.duration_seconds plan.fanout s.drawn s.queue test_id job_ids e in
            let shown : (launch sv cfg plan warning user now s).0.queue
                ≡ (enqueue sv.redis sv.new_id plan.url plan.ramp_pattern plan.vus
                    plan.duration_seconds plan.fanout s.drawn s.queue).0 =
              rw (e, launch) refl in
            let stored : (launch sv cfg plan warning user now s).0.tests
                ≡ register test_id user.id plan.url job_ids now s.tests =
              rw (e, launch) refl in
            record {
              published =
                  ap (laws.entries jobs_stream) shown
                  ∙ (sent
                      ∙ ap
                          (λ (t : Text).
                            laws.entries jobs_stream s.queue
                            ++ map (job_fields t plan.url plan.ramp_pattern plan.duration_seconds)
                                (build_sub_jobs sv.new_id (suc s.drawn) plan.vus plan.fanout))
                          id);
              registered =
                  stored
                  ∙ (ap (λ (t : Text). register t user.id plan.url job_ids now s.tests) id
                      ∙ ap
                          (λ (l : List Text).
                            register (sv.new_id s.drawn) user.id plan.url l now s.tests)
                          ids);
            }
      ]

  -- launch never answers 202 without a launch, and leaves the identities alone.
  launch_keeps :
      (plan : Plan) (warning : Text) (user : User) (now : ℕ) (s : Server F P R H)
      → let s' = (launch sv cfg plan warning user now s).0 in
        (s'.domains ≡ s.domains)
        × (s'.users ≡ s.users)
        × (((launch sv cfg plan warning user now s).1.status ≡ 202) ⊎ (s'.tests ≡ s.tests))
  unfolding launch count_created
  launch_keeps plan warning user now s = ground arith

  -- What an accepted submission went through, and what it left.
  pub record Accepted (laws : Appends sv.redis) (user : User) (now : ℕ)
      (body : Option CreateTestRequest) (s s' : Server F P R H) : Type 0 where
    pub plan : Plan
    pub live : ℕ
    pub checked : check_create_test sv cfg user now body s ≡ pass plan
    pub counted : count_live_workers sv.redis s.queue ≡ some live
    pub live_pos : 0 < live
    pub launched : Launched laws plan (min live plan.fanout) user now s s'

  submit_low :
      (plan : Plan) (user : User) (now live : ℕ) (s : Server F P R H)
      → count_live_workers sv.redis s.queue ≡ some live
      → (live == 0) ≡ false
      → ltb live plan.fanout ≡ true
      → submit sv cfg plan user now s
        ≡ launch sv cfg
            (record plan { fanout = live })
            (clamp_warning plan.fanout live)
            user
            now
            (set_live live s)
  unfolding submit set_live
  submit_low plan user now live s e nonzero low = ground arith

  submit_enough :
      (plan : Plan) (user : User) (now live : ℕ) (s : Server F P R H)
      → count_live_workers sv.redis s.queue ≡ some live
      → (live == 0) ≡ false
      → ltb live plan.fanout ≡ false
      → submit sv cfg plan user now s ≡ launch sv cfg plan [] user now (set_live live s)
  unfolding submit set_live
  submit_enough plan user now live s e nonzero enough = ground arith

  submit_none :
      (plan : Plan) (user : User) (now live : ℕ) (s : Server F P R H)
      → count_live_workers sv.redis s.queue ≡ some live
      → (live == 0) ≡ true
      → (submit sv cfg plan user now s).1.status ≡ 503
  unfolding submit set_live
  submit_none plan user now live s e zero = ground arith

  submit_live :
      (laws : Appends sv.redis) (plan : Plan) (user : User) (now live : ℕ) (s : Server F P R H)
      → count_live_workers sv.redis s.queue ≡ some live
      → (submit sv cfg plan user now s).1.status ≡ 202
      → (0 < live)
        × Launched laws plan (min live plan.fanout) user now s (submit sv cfg plan user now s).0
  unfolding set_live
  submit_live laws plan user now live s e h = elim (Bool-cases (live == 0)) [
    | inl zero ↦ absurd (ground (arith, submit_none plan user now live s e zero))
    | inr nonzero ↦ elim (Bool-cases (ltb live plan.fanout)) [
      | inl low ↦
          let fewer : live ≡ min live plan.fanout = ground arith in
          let same_run = submit_low plan user now live s e nonzero low in
          let l =
            launch-Launched laws (record plan { fanout = live }) (clamp_warning plan.fanout live)
              user now (set_live live s)
              (ap (λ (o : Server F P R H × Response F). o.1.status) (sym same_run) ∙ h) in
          (
            ground arith,
            subst (λ (n : ℕ). Launched laws plan n user now s (submit sv cfg plan user now s).0)
                fewer
                (subst (λ (o : Server F P R H × Response F). Launched laws plan live user now s o.0)
                  (sym same_run) (record { published = l.published; registered = l.registered })),
          )
      | inr enough ↦
          let enough_live : plan.fanout ≡ min live plan.fanout = ground arith in
          let same_run = submit_enough plan user now live s e nonzero enough in
          let l =
            launch-Launched laws plan [] user now (set_live live s)
              (ap (λ (o : Server F P R H × Response F). o.1.status) (sym same_run) ∙ h) in
          (
            ground arith,
            subst (λ (n : ℕ). Launched laws plan n user now s (submit sv cfg plan user now s).0)
                enough_live
                (subst
                  (λ (o : Server F P R H × Response F).
                    Launched laws plan plan.fanout user now s o.0)
                  (sym same_run) (record { published = l.published; registered = l.registered })),
          )
    ]
  ]

  submit_unavailable :
      (plan : Plan) (user : User) (now : ℕ) (s : Server F P R H)
      → count_live_workers sv.redis s.queue ≡ none
      → (submit sv cfg plan user now s).1.status ≡ 500
  unfolding submit
  submit_unavailable plan user now s e = ground arith

  handled_stop :
      (user : User) (now : ℕ) (body : Option CreateTestRequest) (s : Server F P R H)
      (r : Response F)
      → check_create_test sv cfg user now body s ≡ stop r
      → handle_create_test sv cfg user now body s ≡ (s, r)
  unfolding handle_create_test
  handled_stop user now body s r e = rw (e, handle_create_test) refl

  handled_pass :
      (user : User) (now : ℕ) (body : Option CreateTestRequest) (s : Server F P R H) (plan : Plan)
      → check_create_test sv cfg user now body s ≡ pass plan
      → handle_create_test sv cfg user now body s ≡ submit sv cfg plan user now s
  unfolding handle_create_test
  handled_pass user now body s plan e = rw (e, handle_create_test) refl

  -- A submission is answered 202 only if the guards made a plan of it and a worker is live. The test
  -- then runs on as many workers as were planned, or on those that are live if these are fewer: its
  -- messages follow what was on the jobs stream, the sub-jobs of the plan's load and nothing else,
  -- and the test is registered to its user under the ID and the job IDs that the messages carry.
  pub create_test-Accepted :
      (laws : Appends sv.redis) (user : User) (now : ℕ) (body : Option CreateTestRequest)
      (s : Server F P R H)
      → (handle_create_test sv cfg user now body s).1.status ≡ 202
      → Accepted laws user now body s (handle_create_test sv cfg user now body s).0
  create_test-Accepted laws user now body s h =
      elim (Checked-cases (check_create_test sv cfg user now body s)) [
        | inl (r, e) ↦ absurd (
            ground (
              arith,
              handled_stop user now body s r e,
              check_create_test_stop sv cfg user now body s r e,
            ))
        | inr (plan, e) ↦
            let run = handled_pass user now body s plan e in
            let h' : (submit sv cfg plan user now s).1.status ≡ 202 =
              ap (λ (o : Server F P R H × Response F). o.1.status) (sym run) ∙ h in
            elim (Option-cases (count_live_workers sv.redis s.queue)) [
              | inl unavailable ↦
                  absurd (ground (arith, submit_unavailable plan user now s unavailable))
              | inr (live, counted) ↦
                  let (live_pos, launched) = submit_live laws plan user now live s counted h' in
                  record {
                    plan = plan;
                    live = live;
                    checked = e;
                    counted = counted;
                    live_pos = live_pos;
                    launched =
                        subst
                          (λ (o : Server F P R H × Response F).
                            Launched laws plan (min live plan.fanout) user now s o.0)
                          (sym run) launched;
                  }
            ]
      ]

  -- Any answer but 202 leaves the tests and the cooldowns as they were, and no answer touches users
  -- or domains.
  pub create_test_refused :
      (user : User) (now : ℕ) (body : Option CreateTestRequest) (s : Server F P R H)
      → let (s', r) = handle_create_test sv cfg user now body s in
        (s'.users ≡ s.users) × (s'.domains ≡ s.domains) × ((r.status ≡ 202) ⊎ (s'.tests ≡ s.tests))
  unfolding handle_create_test submit launch set_live count_no_capacity count_created
  create_test_refused user now body s = ground arith
