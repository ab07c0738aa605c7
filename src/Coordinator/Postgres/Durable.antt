-- ===== src/Coordinator/Postgres/Durable.antt =====
-- SaveVerifiedDomain and LoadVerifiedDomains of coordinator/identitystore.go under the stores of
-- coordinator/domainstore.go.
use sentry_load.Prelude.{
  ℕ, ◌≡◌, true, ◌&&◌, ◌||◌, List, [], ◌∷◌, some, arith, Text, text_eq, ◌==◌, same_iff,
}
use sentry_load.Coordinator.Persister.{VerifiedDomain}
use sentry_load.Coordinator.DomainStore.Verified.{has_row, KeepsDomains}
use sentry_load.Coordinator.Postgres.{DomainRow, Database}
use sentry_load.Coordinator.Postgres.Identity.{
  upserted_domain, scan_domains, save_verified_domain, load_verified_domains, postgres_identity,
}

has_row-upserted :
    (v : VerifiedDomain) (now : ℕ) (rows : List DomainRow) (d o : Text)
    → has_row d o (scan_domains (upserted_domain v now rows))
      ≡ ((v.domain == d && v.owner_id == o) || has_row d o (scan_domains rows))
unfolding has_row scan_domains upserted_domain
has_row-upserted v now [] d o = ground arith
has_row-upserted v now (r ∷ rows) d o = ground (
  arith,
  has_row-upserted v now rows d o,
  same_iff r.domain v.domain,
  same_iff r.owner_id v.owner_id,
)

module _ {F : Type 0} where
  saved_row :
      (v : VerifiedDomain) (p : Database F) (vs : List VerifiedDomain)
      → load_verified_domains p ≡ some vs
      → (save_verified_domain v p).1 ≡ true
      → (load_verified_domains (save_verified_domain v p).0
          ≡ some (scan_domains (upserted_domain v p.env.clock p.tables.verified_domains)))
        × (vs ≡ scan_domains p.tables.verified_domains)
  unfolding load_verified_domains save_verified_domain
  saved_row v p vs h k = ground arith

  -- The statements on verified_domains are what the store of verified domains relies on: a write
  -- that succeeds adds its pair to those that a load returns and takes none away, and one that
  -- fails changes nothing.
  pub postgres_identity-KeepsDomains : KeepsDomains (postgres_identity {F = F})
  postgres_identity-KeepsDomains = record {
    saved = λ v p vs h k.
        let (loaded, old) = saved_row v p vs h k in
        (_, loaded, λ d o. rw old (has_row-upserted v p.env.clock p.tables.verified_domains d o));
    refused = λ v p h. unfold save_verified_domain in ground arith;
  }
