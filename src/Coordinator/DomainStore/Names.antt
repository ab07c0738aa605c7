-- ===== src/Coordinator/DomainStore/Names.antt =====
-- On isValidDomainName and isValidWebhookURL (coordinator/domainstore.go).
use sentry_load.Prelude.{
  ℕ, ◌≤◌, ◌<◌, ◌≡◌, ◌≢◌, same_iff, inl, inr, Bool, true, false, ◌||◌, List, [], ◌∷◌, Option, some,
  arith, length, All, Text, text_eq, nat_eq, ◌==◌, bytes, Bool-cases, Option-cases,
}
use sentry_load.Strings.{push_front, split, to_lower, has_suffix}
use sentry_load.Coordinator.DomainStore.{
  Url, is_letter_or_digit, label_rest, is_label, all_labels, localhost, is_valid_domain_name,
  is_valid_webhook_url,
}

-- A byte that hostnameRE lets a label hold.
unfoldable pub is_label_byte : ℕ → Bool
is_label_byte c = is_letter_or_digit c || c == b'-'

abbrev pub IsHostByte : ℕ → Type 0
IsHostByte c = (is_label_byte c || c == b'.') ≡ true

label_rest-All : (b : Bool) (s : Text) → label_rest b s ≡ true → All (λ c. is_label_byte c ≡ true) s
unfolding label_rest is_label_byte
label_rest-All b [] h = tt
label_rest-All b (c ∷ s) h = (ground arith, label_rest-All (is_letter_or_digit c) s (ground arith))

is_label-All : (s : Text) → is_label s ≡ true → All (λ c. is_label_byte c ≡ true) s
unfolding is_label is_label_byte
is_label-All [] h = tt
is_label-All (c ∷ s) h = (ground arith, label_rest-All true s (ground arith))

abbrev Pieces : List Text → Type 0
Pieces = All (All (λ c. is_label_byte c ≡ true))

all_labels-Pieces : (ls : List Text) → all_labels ls ≡ true → Pieces ls
unfolding all_labels
all_labels-Pieces [] h = tt
all_labels-Pieces (l ∷ ls) h = (is_label-All l (ground arith), all_labels-Pieces ls (ground arith))

Pieces-push_front :
    (x : ℕ) (ls : List Text) → Pieces (push_front x ls) → (is_label_byte x ≡ true) × Pieces ls
unfolding push_front
Pieces-push_front x [] h = (h.0.0, tt)
Pieces-push_front x (l ∷ ls) h = (h.0.0, (h.0.1, h.1))

split-All : (s : Text) → Pieces (split b'.' s) → All IsHostByte s
unfolding split
split-All [] h = tt
split-All (x ∷ s) h = elim (Bool-cases (x == b'.')) [
  | inl e ↦ let p = rw e at h in (ground arith, split-All s p.1)
  | inr e ↦
      let p = Pieces-push_front x (split b'.' s) (rw e at h) in
      (ground (arith, p.0), split-All s p.1)
]

nonempty_labels : (ls : List Text) → all_labels ls ≡ true → All (λ l. l ≢ []) ls
unfolding all_labels is_label
nonempty_labels [] h = tt
nonempty_labels ([] ∷ ls) h = absurd (ground arith)
nonempty_labels ((c ∷ l) ∷ ls) h = (λ e. cc, nonempty_labels ls (ground arith))

matches-valid :
    (parse_ip : Text → Bool) (domain : Text)
    → is_valid_domain_name parse_ip domain ≡ true
    → (1 < length (split b'.' domain)) × (all_labels (split b'.' domain) ≡ true)
unfolding is_valid_domain_name
matches-valid parse_ip domain h = ground arith

-- A name that passes the test has between 1 and 253 bytes, each a letter, a digit, a hyphen or a
-- dot; it is no IP address; in lower case it is not `localhost` and does not end in
-- `.localhost`; and its dots part it into two labels or more, none of them empty.
pub is_valid_domain_name_shape :
    (parse_ip : Text → Bool) (domain : Text)
    → is_valid_domain_name parse_ip domain ≡ true
    → (0 < length domain)
      × (length domain ≤ 253)
      × All IsHostByte domain
      × (parse_ip domain ≡ false)
      × ((to_lower domain == localhost) ≡ false)
      × (has_suffix (to_lower domain) (bytes ".localhost") ≡ false)
      × (1 < length (split b'.' domain))
      × All (λ l. l ≢ []) (split b'.' domain)
unfolding is_valid_domain_name
is_valid_domain_name_shape parse_ip domain h =
    let m = matches-valid parse_ip domain h in
    (
      ground arith,
      ground arith,
      split-All domain (all_labels-Pieces (split b'.' domain) m.1),
      ground arith,
      ground arith,
      ground arith,
      m.0,
      nonempty_labels (split b'.' domain) m.1,
    )

-- A webhook that passes the test is an https URL whose host passes the test of domain names.
pub is_valid_webhook_url_shape :
    (parse_ip : Text → Bool) (parse_url : Text → Option Url) (raw : Text)
    → is_valid_webhook_url parse_ip parse_url raw ≡ true
    → (u : Url) × (parse_url raw ≡ some u)
      × (u.scheme ≡ bytes "https")
      × (is_valid_domain_name parse_ip u.hostname ≡ true)
unfolding is_valid_webhook_url
is_valid_webhook_url_shape parse_ip parse_url raw h = elim (Option-cases (parse_url raw)) [
  | inl e ↦ absurd (ground arith)
  | inr (u, e) ↦ (u, e, ground (arith, same_iff u.scheme (bytes "https")), ground arith)
]
