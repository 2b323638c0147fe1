-- ===== src/SenderPolicy/Laws.antt =====
-- Whose mail applications/inbound_sender_policy.py accepts.
use Prim.Native.String.{slice, len, ◌++◌}
use push_it_server.Prelude.{
  ◌≡◌, refl, subst, ◌↔◌, ◌⊎◌, inl, inr, String, Bool, true, false, ◌||◌, some, List, [], ◌∷◌, arith,
  str_eq, eq_iff, starts_with, Bool-cases, In,
}
use push_it_server.Models.{Application, mode_anyone}
use push_it_server.SenderPolicy.{entry_matches, any_entry, sender_matches, evaluate_sender_policy}
use push_it_server.SenderPolicy.Text.{after_at, ends_with, ends_with_iff}

-- What an entry stands for: an address, the domain after "@", or after "@*." a domain and every
-- domain that ends in a dot and it.
abbrev pub Covers : String → String → String → Type 0
Covers entry sender domain =
    ((starts_with entry "@*." ≡ false) × ((entry ≡ sender) ⊎ (entry ≡ "@" ++ domain)))
    ⊎ ((starts_with entry "@*." ≡ true)
        × (str_eq (slice entry 3 (len entry)) "" ≡ false)
        × ((domain ≡ slice entry 3 (len entry))
            ⊎ ((labels : String) × (domain ≡ labels ++ ("." ++ slice entry 3 (len entry))))))

or_iff : (a b : Bool) → ((a || b) ≡ true) ↔ ((a ≡ true) ⊎ (b ≡ true))
or_iff true b = (λ h. inl refl, λ h. refl)
or_iff false b = (λ h. inr h, elim [ inl e ↦ cc | inr e ↦ e ])

entry_matches-Covers :
    (sender domain entry : String)
    → entry_matches sender domain entry ≡ true
    → Covers entry sender domain
unfolding entry_matches
entry_matches-Covers sender domain entry h = elim (Bool-cases (starts_with entry "@*.")) [
  | inr e ↦ elim ((or_iff (str_eq entry sender) (str_eq entry ("@" ++ domain))).0 (ground arith)) [
    | inl p ↦ inl (e, inl ((eq_iff entry sender).0 p))
    | inr p ↦ inl (e, inr ((eq_iff entry ("@" ++ domain)).0 p))
  ]
  | inl e ↦
      let base = slice entry 3 (len entry) in
      elim ((or_iff (str_eq domain base) (ends_with domain ("." ++ base))).0 (ground arith)) [
        | inl p ↦ inr (e, ground arith, inl ((eq_iff domain base).0 p))
        | inr p ↦ inr (e, ground arith, inr ((ends_with_iff domain ("." ++ base)).0 p))
      ]
]

Covers-entry_matches :
    (sender domain entry : String)
    → Covers entry sender domain
    → entry_matches sender domain entry ≡ true
unfolding entry_matches
Covers-entry_matches sender domain entry (inl (e, inl p)) = rw (e, (eq_iff entry sender).1 p) refl
Covers-entry_matches sender domain entry (inl (e, inr p)) = rw e (
    (or_iff (str_eq entry sender) (str_eq entry ("@" ++ domain))).1
      (inr ((eq_iff entry ("@" ++ domain)).1 p)))
Covers-entry_matches sender domain entry (inr (e, u, inl p)) =
    rw (e, u, (eq_iff domain (slice entry 3 (len entry))).1 p) refl
Covers-entry_matches sender domain entry (inr (e, u, inr p)) =
    let base = slice entry 3 (len entry) in
    rw (e, u)
      ((or_iff (str_eq domain base) (ends_with domain ("." ++ base))).1
        (inr ((ends_with_iff domain ("." ++ base)).1 p)))

module _ (normalise : String → String) where
  any_entry_found :
      (sender domain : String) (entries : List String)
      → any_entry normalise sender domain entries ≡ true
      → (entry : String) × In entry entries × Covers (normalise entry) sender domain
  unfolding any_entry
  any_entry_found sender domain [] h = cc
  any_entry_found sender domain (e ∷ entries) h =
      elim ((or_iff (entry_matches sender domain (normalise e))
          (any_entry normalise sender domain entries)).0
        h) [
          | inl p ↦ (e, inl refl, entry_matches-Covers sender domain (normalise e) p)
          | inr p ↦ let (x, i, c) = any_entry_found sender domain entries p in (x, inr i, c)
        ]

  found-any_entry :
      (sender domain entry : String) (entries : List String)
      → In entry entries
      → Covers (normalise entry) sender domain
      → any_entry normalise sender domain entries ≡ true
  unfolding any_entry
  found-any_entry sender domain entry [] i c = elim i [ ]
  found-any_entry sender domain entry (e ∷ entries) (inl p) c =
      (or_iff (entry_matches sender domain (normalise e))
          (any_entry normalise sender domain entries)).1
        (inl (
          Covers-entry_matches sender domain (normalise e)
            (subst (λ x. Covers (normalise x) sender domain) p c)))
  found-any_entry sender domain entry (e ∷ entries) (inr i) c =
      (or_iff (entry_matches sender domain (normalise e))
          (any_entry normalise sender domain entries)).1
        (inr (found-any_entry sender domain entry entries i c))

-- A sender with a domain matches a list exactly when one of its entries, normalised, is the sender's
-- address, "@" and its domain, or "@*." and a text that the domain is or that the domain ends in
-- after a dot; so a wildcard never matches in the middle of a label.
pub sender_matches_iff :
    (normalise : String → String) (sender domain : String) (entries : List String)
    → after_at (normalise sender) ≡ some domain
    → str_eq domain "" ≡ false
    → (sender_matches normalise sender entries ≡ true)
      ↔ ((entry : String) × In entry entries × Covers (normalise entry) (normalise sender) domain)
unfolding sender_matches
sender_matches_iff normalise sender domain entries a u = (
  λ h. any_entry_found normalise (normalise sender) domain entries (ground arith),
  λ (entry, i, c).
      let found = found-any_entry normalise (normalise sender) domain entry entries i c in
      ground (arith, found),
)

-- A sender's mail is accepted exactly when the sender is the owner, whatever the lists, or is not on
-- the blocklist, and the application takes mail from anyone or has the sender on its allowlist.
pub evaluate_sender_policy_accepted :
    (normalise : String → String) (application : Application) (raw_sender : String)
    → let sender = normalise raw_sender in
      let owner_email = normalise application.owner.email in
      ((evaluate_sender_policy normalise application raw_sender).accepted ≡ true) ↔ (
        ((str_eq owner_email "" ≡ false) × (sender ≡ owner_email))
        ⊎ ((sender_matches normalise sender application.inbound_sender_blocklist ≡ false)
            × ((application.inbound_sender_mode ≡ mode_anyone)
                ⊎ (sender_matches normalise sender application.inbound_sender_allowlist ≡ true))))
unfolding evaluate_sender_policy
evaluate_sender_policy_accepted normalise application raw_sender =
    let e = eq_iff (normalise raw_sender) (normalise application.owner.email) in ground (arith, e)
