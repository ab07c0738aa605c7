-- ===== src/Coordinator/DomainStore/Verified.antt =====
-- On MarkVerified, IssueChallenge and LoadDomainStore (coordinator/domainstore.go).
use sentry_load.Prelude.{
  ℕ, ◌≡◌, refl, ◌∙◌, inl, inr, Bool, true, false, ◌&&◌, ◌||◌, List, [], ◌∷◌, Option, none, some,
  arith, Text, text_eq, ◌==◌, if◌then◌else◌, Bool-cases, Option-cases, same_iff, Map, lookup,
  lookup_or, insert, lookup-insert,
}
use sentry_load.Coordinator.Persister.{Persister, VerifiedDomain}
use sentry_load.Coordinator.DomainStore.{
  DomainStore, new_domain_store, set_verified, set_all_verified, load_domain_store, mark_verified,
  is_verified, issue_challenge, challenge, random_token,
}

-- Is the pair among the rows?
unfoldable pub has_row : Text → Text → List VerifiedDomain → Bool
has_row domain owner_id [] = false
has_row domain owner_id (v ∷ vs) =
    (v.domain == domain && v.owner_id == owner_id) || has_row domain owner_id vs

pub is_verified-set :
    (domain owner d o : Text) (s : DomainStore)
    → is_verified d o (set_verified domain owner s)
      ≡ ((domain == d && owner == o) || is_verified d o s)
unfolding is_verified set_verified lookup_or
is_verified-set domain owner d o s =
    let inner : Map Text Bool = elim (lookup domain s.verified) [ none ↦ [] | some v ↦ v ] in
    let inner' = insert owner true inner in
    ground (
      arith,
      lookup-insert domain d inner' s.verified,
      lookup-insert owner o true inner,
      same_iff domain d,
      same_iff owner o,
    )

is_verified-set_all :
    (vs : List VerifiedDomain) (d o : Text) (s : DomainStore)
    → is_verified d o (set_all_verified vs s) ≡ (has_row d o vs || is_verified d o s)
unfolding set_all_verified has_row
is_verified-set_all [] d o s = refl
is_verified-set_all (v ∷ vs) d o s = ground (
  arith,
  is_verified-set_all vs d o (set_verified v.domain v.owner_id s),
  is_verified-set v.domain v.owner_id d o s,
)

is_verified-new : (d o : Text) → is_verified d o new_domain_store ≡ false
unfolding is_verified lookup_or lookup
is_verified-new d o = refl

-- What the store relies on of the database: a write that succeeds adds its row to those that are
-- loaded, and a write that fails changes none of them.
pub record KeepsDomains {P : Type 0} (db : Persister P) : Type 0 where
  pub saved :
      (v : VerifiedDomain) (p : P) (vs : List VerifiedDomain)
      → db.load_verified_domains p ≡ some vs
      → (db.save_verified_domain v p).1 ≡ true
      → (vs' : List VerifiedDomain) × (db.load_verified_domains (db.save_verified_domain v p).0
          ≡ some vs')
        × ((d o : Text) → has_row d o vs' ≡ ((v.domain == d && v.owner_id == o) || has_row d o vs))
  pub refused :
      (v : VerifiedDomain) (p : P)
      → (db.save_verified_domain v p).1 ≡ false
      → db.load_verified_domains (db.save_verified_domain v p).0 ≡ db.load_verified_domains p

module _ {P : Type 0} (db : Persister P) (laws : KeepsDomains db) where
  -- Memory and database hold the same verifications.
  pub record IsSynced (p : P) (s : DomainStore) : Type 0 where
    pub rows : List VerifiedDomain
    pub loaded : db.load_verified_domains p ≡ some rows
    pub agree : (d o : Text) → is_verified d o s ≡ has_row d o rows

  load_agrees :
      (p : P) (s : DomainStore)
      → IsSynced p s
      → (r : DomainStore) × (load_domain_store (some db) p ≡ some r)
        × ((d o : Text) → is_verified d o r ≡ is_verified d o s)
  unfolding load_domain_store
  load_agrees p s sync = (
    set_all_verified sync.rows new_domain_store,
    rw (sync.loaded, load_domain_store),
    λ d o. ground (
      arith,
      is_verified-set_all sync.rows d o new_domain_store,
      is_verified-new d o,
      sync.agree d o,
    ),
  )

  mark_verified-IsSynced :
      (domain owner : Text) (p : P) (s : DomainStore)
      → IsSynced p s
      → let (p', s', saved) = mark_verified (some db) domain owner p s in IsSynced p' s'
  unfolding mark_verified
  mark_verified-IsSynced domain owner p s sync =
      let v : VerifiedDomain = record { domain = domain; owner_id = owner } in
      elim (Bool-cases (db.save_verified_domain v p).1) [
        | inl done ↦
            let (vs, e, row) = laws.saved v p sync.rows sync.loaded done in
            rw done (record {
              rows = vs;
              loaded = e;
              agree = λ d o.
                  ground (arith, is_verified-set domain owner d o s, row d o, sync.agree d o);
            })
        | inr failed ↦ rw failed (record {
          rows = sync.rows;
          loaded = laws.refused v p failed ∙ sync.loaded;
          agree = sync.agree;
        })
      ]

  -- Where memory and database agree, MarkVerified keeps them so, whether its write succeeds or
  -- not; it verifies the domain for its user and nobody else if the write succeeds, and changes no
  -- verification if it fails; and the store that a restart loads answers like the one in memory.
  pub mark_verified_durable :
      (domain owner : Text) (p : P) (s : DomainStore)
      → IsSynced p s
      → let (p', s', saved) = mark_verified (some db) domain owner p s in
        IsSynced p' s'
        × ((d o : Text)
            → is_verified d o s' ≡ ((saved && (domain == d && owner == o)) || is_verified d o s))
        × ((r : DomainStore) × (load_domain_store (some db) p' ≡ some r)
            × ((d o : Text) → is_verified d o r ≡ is_verified d o s'))
  mark_verified_durable domain owner p s sync =
      let kept = mark_verified-IsSynced domain owner p s sync in
      (
        kept,
        λ d o. unfold mark_verified in ground (arith, is_verified-set domain owner d o s),
        load_agrees _ _ kept,
      )

-- A challenge that is issued is the one outstanding for its domain, the others stay, and no
-- verification changes. Without random bytes nothing changes.
pub issue_challenge_effect :
    (domain d o : Text) (random : Option (List ℕ)) (s : DomainStore)
    → let (s', token) = issue_challenge domain random s in
      (token ≡ random_token random)
      × (challenge d s' ≡ (elim (random_token random) [
        | none ↦ challenge d s
        | some t ↦ if domain == d then some t else challenge d s
      ]))
      × (is_verified d o s' ≡ is_verified d o s)
unfolding issue_challenge challenge is_verified
issue_challenge_effect domain d o random s = elim (Option-cases (random_token random)) [
  | inl e ↦ ground arith
  | inr (t, e) ↦ ground (arith, lookup-insert domain d t s.challenges)
]
