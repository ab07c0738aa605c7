-- ===== src/Coordinator/Verify.antt =====
-- coordinator/verify.go and the two handlers of coordinator/handlers.go that use it: the challenge
-- of a domain, and the check of its proof. The resolver and the HTTP client are services.
pub mod Proof
use sentry_load.Prelude.{
  ℕ, Bool, true, false, ◌||◌, List, [], ◌∷◌, ◌++◌, Option, none, some, Text, text_eq, nat_eq, bytes,
  ◌==◌, if◌then◌else◌,
}
use sentry_load.Strings.{trim_space}
use sentry_load.Coordinator.Persister.{User}
use sentry_load.Coordinator.DomainStore.{
  is_valid_domain_name, issue_challenge, challenge, mark_verified,
}
use sentry_load.Coordinator.Api.{
  Services, Server, HttpResponse, Response, create_domain_response, verify_domain_response,
  write_json, write_error,
}

abbrev pub verify_txt_prefix : Text
verify_txt_prefix = bytes "_sentryload-verify."

abbrev pub verify_well_known_path : Text
verify_well_known_path = bytes "/.well-known/sentry-load-verify.txt"

-- The loop over the records.
unfoldable pub has_record : Text → List Text → Bool
has_record token [] = false
has_record token (r ∷ rs) = r == token || has_record token rs

module _ {F P R H : Type 0} (sv : Services F P R H) where
  -- `none` is the error of the lookup.
  unfoldable pub verify_domain_txt : Text → Text → Option Bool
  unfolding has_record
  verify_domain_txt domain token = elim (sv.lookup_txt (verify_txt_prefix ++ domain)) [
    | none ↦ none
    | some records ↦ some (has_record token records)
  ]

  unfoldable pub verify_domain_well_known : Text → Text → Option Bool
  verify_domain_well_known domain token =
      elim (sv.http_get (bytes "https://" ++ domain ++ verify_well_known_path)) [
        | none ↦ none
        | some resp ↦
            if resp.status_code == 200
            then elim resp.content [ none ↦ none | some body ↦ some (trim_space body == token) ]
            else some false
      ]

  -- The switch over the method; the outer `none` is its default case.
  unfoldable pub run_proof : Text → Text → Text → Option (Option Bool)
  unfolding verify_domain_txt verify_domain_well_known
  run_proof method domain token =
      if method == bytes "dns"
      then some (verify_domain_txt domain token)
      else if method == bytes "well-known"
      then some (verify_domain_well_known domain token)
      else none

  -- `body` is the field `domain` of the request, or `none` where it does not decode.
  unfoldable pub handle_create_domain_challenge :
      Option Text → Option (List ℕ) → Server F P R H → Server F P R H × Response F
  handle_create_domain_challenge none random s = (s, write_error 400 (bytes "invalid JSON body"))
  handle_create_domain_challenge (some field) random s =
      let domain = trim_space field in
      let (domains', token) = issue_challenge domain random s.domains in
      if domain == []
      then (s, write_error 400 (bytes "domain is required"))
      else if is_valid_domain_name sv.parse_ip domain
      then elim token [
        | none ↦ (s, write_error 500 (bytes "failed to issue challenge"))
        | some t ↦ (
          record s { domains = domains' },
          write_json 200 (
              create_domain_response domain t (verify_txt_prefix ++ domain) t
                (bytes "https://" ++ domain ++ verify_well_known_path)),
        )
      ]
      else (
        s,
        write_error 400 (
            bytes
              "domain must be a public hostname, not an IP address or a local/internal-looking name"),
      )

  -- From the answer of the proof on; a proof that could not be run counts as none.
  unfoldable pub record_proof :
      Text → User → Option Bool → Server F P R H → Server F P R H × Response F
  record_proof domain user none s = (s, write_json 200 (verify_domain_response domain false))
  record_proof domain user (some false) s =
      (s, write_json 200 (verify_domain_response domain false))
  record_proof domain user (some true) s =
      let (db', domains', saved) = mark_verified sv.persister domain user.id s.db s.domains in
      let s' = record s { db = db'; domains = domains' } in
      if saved
      then (s', write_json 200 (verify_domain_response domain true))
      else (s', write_error 500 (bytes "verification succeeded but could not be saved; try again"))

  -- `body` is the field `method` of the request.
  unfoldable pub handle_verify_domain :
      Text → User → Option Text → Server F P R H → Server F P R H × Response F
  unfolding run_proof record_proof
  handle_verify_domain domain user body s =
      if domain == [] then (s, write_error 400 (bytes "domain is required")) else elim body [
        | none ↦ (s, write_error 400 (bytes "invalid JSON body"))
        | some method ↦ elim (challenge domain s.domains) [
          | none ↦ (
            s,
            write_error 404 (bytes "no outstanding challenge for this domain; POST /domains first"),
          )
          | some token ↦ elim (run_proof method domain token) [
            | none ↦ (s, write_error 400 (bytes "method must be \"dns\" or \"well-known\""))
            | some proof ↦ record_proof domain user proof s
          ]
        ]
      ]
