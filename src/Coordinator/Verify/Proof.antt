-- ===== src/Coordinator/Verify/Proof.antt =====
-- On handleVerifyDomain (coordinator/handlers.go).
use sentry_load.Prelude.{
  ◌≡◌, refl, ◌∙◌, ap, ◌⊎◌, inl, inr, Bool, true, false, [], Option, none, some, arith, Text,
  text_eq, ◌==◌, same_iff,
}
use sentry_load.Coordinator.Persister.{User}
use sentry_load.Coordinator.DomainStore.{is_verified, challenge, mark_verified, set_verified}
use sentry_load.Coordinator.DomainStore.Verified.{is_verified-set}
use sentry_load.Coordinator.Api.{Services, Server, verify_domain_response}
use sentry_load.Coordinator.Verify.{run_proof, record_proof, handle_verify_domain}

module _ {F P R H : Type 0} (sv : Services F P R H) where
  -- The proof that was asked for holds of the challenge that is outstanding.
  unfoldable pub proven : Text → Option Text → Server F P R H → Bool
  proven domain none s = false
  proven domain (some method) s = elim (challenge domain s.domains) [
    | none ↦ false
    | some token ↦ elim (run_proof sv method domain token) [
      | none ↦ false
      | some none ↦ false
      | some (some verified) ↦ verified
    ]
  ]

  verify_domain_cases :
      (domain : Text) (user : User) (body : Option Text) (s : Server F P R H)
      → let s' = (handle_verify_domain sv domain user body s).0 in
        (s'.domains ≡ s.domains)
        ⊎ ((proven domain body s ≡ true) × (s'.domains ≡ set_verified domain user.id s.domains))
  unfolding handle_verify_domain record_proof proven mark_verified
  verify_domain_cases domain user body s = ground arith

  -- A verification request changes who is verified for what only where the domain's outstanding
  -- challenge is proven by the method that was asked for, and then for this domain and this user
  -- alone; no challenge is used up.
  pub verify_domain_sound :
      (domain : Text) (user : User) (body : Option Text) (s : Server F P R H)
      → let (s', r) = handle_verify_domain sv domain user body s in
        ((d o : Text)
          → (is_verified d o s'.domains ≡ is_verified d o s.domains)
            ⊎ ((proven domain body s ≡ true) × (d ≡ domain) × (o ≡ user.id)))
        × ((d : Text) → challenge d s'.domains ≡ challenge d s.domains)
  verify_domain_sound domain user body s = elim (verify_domain_cases domain user body s) [
    | inl e ↦ (λ d o. inl (ap (is_verified d o) e), λ d. ap (challenge d) e)
    | inr (p, e) ↦ (
      λ d o.
          unfold proven in
          ground (
            arith,
            ap (is_verified d o) e,
            is_verified-set domain user.id d o s.domains,
            same_iff domain d,
            same_iff user.id o,
          ),
      λ d. ap (challenge d) e ∙ unfold challenge set_verified in refl,
    )
  ]

  verified_inv :
      (domain : Text) (user : User) (body : Option Text) (s : Server F P R H)
      → (handle_verify_domain sv domain user body s).1.body ≡ verify_domain_response domain true
      → (proven domain body s ≡ true) × ((domain == []) ≡ false)
  unfolding handle_verify_domain record_proof proven mark_verified
  verified_inv domain user body s h = ground arith

  proven_verifies :
      (domain : Text) (user : User) (body : Option Text) (s : Server F P R H)
      → sv.persister ≡ none
      → (domain == []) ≡ false
      → proven domain body s ≡ true
      → let (s', r) = handle_verify_domain sv domain user body s in
        (r.body ≡ verify_domain_response domain true)
        × (s'.domains ≡ set_verified domain user.id s.domains)
  unfolding handle_verify_domain record_proof proven mark_verified
  proven_verifies domain user body s no_db named p = ground arith

  -- A proven challenge verifies its domain for whoever asks, whoever it was issued to: where the
  -- answer to one user is that the domain is verified and the store has no database, the same
  -- request of any other user gets the same answer and verifies the domain for them.
  pub proof_serves_anyone :
      (domain : Text) (issuer other : User) (body : Option Text) (s : Server F P R H)
      → sv.persister ≡ none
      → (handle_verify_domain sv domain issuer body s).1.body ≡ verify_domain_response domain true
      → let (s', r) = handle_verify_domain sv domain other body s in
        (r.body ≡ verify_domain_response domain true)
        × (is_verified domain other.id s'.domains ≡ true)
  proof_serves_anyone domain issuer other body s no_db h =
      let (p, named) = verified_inv domain issuer body s h in
      let (answer, stored) = proven_verifies domain other body s no_db named p in
      (
        answer,
        ground (
          arith,
          ap (is_verified domain other.id) stored,
          is_verified-set domain other.id domain other.id s.domains,
          same_iff domain domain,
          same_iff other.id other.id,
        ),
      )
