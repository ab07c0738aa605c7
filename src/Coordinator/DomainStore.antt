-- ===== src/Coordinator/DomainStore.antt =====
-- coordinator/domainstore.go: verification challenges and verified domains, and the test of the
-- names that the coordinator may contact. `rand.Read` is the argument `random` (`none` is its
-- error), `net.ParseIP` and `url.Parse` are parameters.
pub mod Names
pub mod Verified
use sentry_load.Prelude.{
  ℕ, zero, suc, ◌+◌, ◌-◌, ◌/◌, ◌%◌, Bool, true, false, not, ◌&&◌, ◌||◌, List, [], ◌∷◌, ◌++◌, Option,
  none, some, length, Text, text_eq, nat_eq, ltb, leb, ◌==◌, if◌then◌else◌, bytes, Map, lookup,
  lookup_or, insert,
}
use sentry_load.Strings.{split, to_lower, has_suffix}
use sentry_load.Coordinator.Persister.{Persister, VerifiedDomain}

hex_digit : ℕ → ℕ
hex_digit n = if ltb n 10 then b'0' + n else b'a' + n - 10

-- hex.EncodeToString
hex : List ℕ → Text
unfolding hex_digit
hex [] = []
hex (b ∷ bs) = hex_digit (b / 16) ∷ hex_digit (b % 16) ∷ hex bs

-- randomToken: `random` is what rand.Read filled its 16 bytes with.
unfoldable pub random_token : Option (List ℕ) → Option Text
unfolding hex
random_token none = none
random_token (some b) = some (hex b)

pub record DomainStore : Type 0 where
  pub challenges : Map Text Text
  pub verified : Map Text (Map Text Bool)

abbrev pub new_domain_store : DomainStore
new_domain_store = record { challenges = []; verified = [] }

-- s.verified[domain][ownerID] = true, with the inner map made if it is missing
unfoldable pub set_verified : Text → Text → DomainStore → DomainStore
set_verified domain owner_id s = record s {
  verified = insert domain (insert owner_id true (lookup_or [] domain s.verified)) s.verified;
}

unfoldable pub set_all_verified : List VerifiedDomain → DomainStore → DomainStore
unfolding set_verified
set_all_verified [] s = s
set_all_verified (v ∷ vs) s = set_all_verified vs (set_verified v.domain v.owner_id s)

unfoldable pub issue_challenge : Text → Option (List ℕ) → DomainStore → DomainStore × Option Text
issue_challenge domain random s = elim (random_token random) [
  | none ↦ (s, none)
  | some token ↦ (record s { challenges = insert domain token s.challenges }, some token)
]

unfoldable pub challenge : Text → DomainStore → Option Text
challenge domain s = lookup domain s.challenges

unfoldable pub is_verified : Text → Text → DomainStore → Bool
is_verified domain owner_id s = lookup_or false owner_id (lookup_or [] domain s.verified)

module _ {P : Type 0} (persist : Option (Persister P)) where
  -- The domains of the database; `none` is an error.
  unfoldable pub load_domain_store : P → Option DomainStore
  unfolding set_all_verified
  load_domain_store p = elim persist [
    | none ↦ some new_domain_store
    | some db ↦ elim (db.load_verified_domains p) [
      | none ↦ none
      | some vs ↦ some (set_all_verified vs new_domain_store)
    ]
  ]

  -- The database is written first; `false` is the error of that write.
  unfoldable pub mark_verified : Text → Text → P → DomainStore → P × DomainStore × Bool
  unfolding set_verified
  mark_verified domain owner_id p s = elim persist [
    | none ↦ (p, set_verified domain owner_id s, true)
    | some db ↦
        let (p', saved) =
          db.save_verified_domain (record { domain = domain; owner_id = owner_id }) p in
        if saved then (p', set_verified domain owner_id s, true) else (p', s, false)
  ]

unfoldable pub is_letter_or_digit : ℕ → Bool
is_letter_or_digit c =
    (leb b'a' c && leb c b'z') || (leb b'A' c && leb c b'Z') || (leb b'0' c && leb c b'9')

-- After a letter or digit of a label: letters, digits and hyphens that end in a letter or digit.
unfoldable pub label_rest : Bool → Text → Bool
unfolding is_letter_or_digit
label_rest ends_well [] = ends_well
label_rest ends_well (c ∷ s) =
    let alnum = is_letter_or_digit c in (alnum || c == b'-') && label_rest alnum s

-- [a-zA-Z0-9]([a-zA-Z0-9-]*[a-zA-Z0-9])?
unfoldable pub is_label : Text → Bool
unfolding label_rest
is_label [] = false
is_label (c ∷ s) = is_letter_or_digit c && label_rest true s

unfoldable pub all_labels : List Text → Bool
unfolding is_label
all_labels [] = true
all_labels (l ∷ ls) = is_label l && all_labels ls

-- hostnameRE: two labels or more between dots. No label holds a dot, so the pieces between dots
-- are the only way to match.
unfoldable pub matches_hostname : Text → Bool
unfolding all_labels
matches_hostname s = let labels = split b'.' s in ltb 1 (length labels) && all_labels labels

abbrev pub localhost : Text
localhost = bytes "localhost"

-- `parse_ip s` says that net.ParseIP(s) is not nil.
unfoldable pub is_valid_domain_name : (parse_ip : Text → Bool) → Text → Bool
unfolding matches_hostname
is_valid_domain_name parse_ip domain =
    if length domain == 0 || ltb 253 (length domain)
    then false
    else if parse_ip domain
    then false
    else let lower = to_lower domain in
      if lower == localhost || has_suffix lower (bytes ".localhost")
      then false
      else matches_hostname domain

-- What the program reads of a parsed URL.
pub record Url : Type 0 where
  pub scheme : Text
  pub hostname : Text

unfoldable pub is_valid_webhook_url :
    (parse_ip : Text → Bool) (parse_url : Text → Option Url) → Text → Bool
unfolding is_valid_domain_name
is_valid_webhook_url parse_ip parse_url raw = elim (parse_url raw) [
  | none ↦ false
  | some u ↦
      if not (u.scheme == bytes "https") || u.hostname == []
      then false
      else is_valid_domain_name parse_ip u.hostname
]
