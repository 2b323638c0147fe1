-- ===== src/MagicLink/Laws.antt =====
-- What a magic link of accounts/magic_link.py gives, and how often.
use push_it_server.Prelude.{
  ℕ, suc, ◌≤◌, ◌≡◌, refl, sym, ap, ◌∙◌, inl, inr, String, Bool, true, not, ◌&&◌, ◌||◌, none, some,
  List, [], ◌∷◌, arith, ◌==◌, ==→eq, ◌<◌, subst, if◌then◌else◌, select, update_where, All, length,
  is_some, Bool-cases, Option-cases,
}
use push_it_server.MagicLink.{
  MagicLinkToken, Links, is_valid, find_link, read_link, is_consumable, consume_link,
  verify_magic_link,
}

-- Requests whose UPDATE comes for the row of a token, each with its clock and what it has read.
pub consume_all : List (ℕ × MagicLinkToken) → Links → ℕ × Links
consume_all [] s = (0, s)
consume_all ((now, t) ∷ rest) s =
    let (user, after) = consume_link now t s in
    let (sessions, last) = consume_all rest after in
    ((if is_some user then suc sessions else sessions), last)

-- the row with an identifier has been used
abbrev pub all_used : ℕ → List MagicLinkToken → Bool
all_used id [] = true
all_used id (t ∷ ts) = (not (t.id == id) || is_some t.used_at) && all_used id ts

used_stays :
    (now id : ℕ) (t : MagicLinkToken) (ts : List MagicLinkToken)
    → all_used id ts ≡ true
    → all_used id (
        update_where
          (is_consumable now t)
          (λ (row : MagicLinkToken). record row { used_at = some now })
          ts)
      ≡ true
unfolding is_consumable
used_stays now id t [] h = refl
used_stays now id t (r ∷ ts) h = ground (arith, used_stays now id t ts)

used_refuses :
    (now : ℕ) (t : MagicLinkToken) (ts : List MagicLinkToken)
    → all_used t.id ts ≡ true
    → length (select (is_consumable now t) ts) ≡ 0
unfolding is_consumable
used_refuses now t [] h = refl
used_refuses now t (r ∷ ts) h = ground (arith, used_refuses now t ts)

-- the number of rows with an identifier
abbrev pub count_id : ℕ → List MagicLinkToken → ℕ
count_id id ts = length (select (λ (r : MagicLinkToken). r.id == id) ts)

count_id-consume :
    (now id : ℕ) (t : MagicLinkToken) (ts : List MagicLinkToken)
    → count_id id (
        update_where
          (is_consumable now t)
          (λ (row : MagicLinkToken). record row { used_at = some now })
          ts)
      ≡ count_id id ts
unfolding is_consumable
count_id-consume now id t [] = refl
count_id-consume now id t (r ∷ ts) = ground (arith, count_id-consume now id t ts)

absent-all_used :
    (now : ℕ) (t : MagicLinkToken) (ts : List MagicLinkToken)
    → count_id t.id ts ≡ 0
    → (all_used t.id ts ≡ true) × (length (select (is_consumable now t) ts) ≡ 0)
unfolding is_consumable
absent-all_used now t [] h = (refl, refl)
absent-all_used now t (r ∷ ts) h =
    let (a, b) : (count_id t.id ts ≡ 0 → all_used t.id ts ≡ true)
        × (count_id t.id ts ≡ 0 → length (select (is_consumable now t) ts) ≡ 0) =
      (λ k. (absent-all_used now t ts k).0, λ k. (absent-all_used now t ts k).1) in
    (ground (arith, a), ground (arith, b))

consumed-all_used :
    (now : ℕ) (t : MagicLinkToken) (ts : List MagicLinkToken)
    → count_id t.id ts ≤ 1
    → length (select (is_consumable now t) ts) ≡ 1
    → all_used t.id (
        update_where
          (is_consumable now t)
          (λ (row : MagicLinkToken). record row { used_at = some now })
          ts)
      ≡ true
unfolding is_consumable
consumed-all_used now t [] u h = cc
consumed-all_used now t (r ∷ ts) u h = elim (Bool-cases (r.id == t.id)) [
  | inl e ↦
      let (a, b) = absent-all_used now t ts (ground arith) in
      ground (arith, used_stays now t.id t ts a, a, b)
  | inr e ↦ ground (arith, consumed-all_used now t ts)
]

-- every request of a list has read the row with the identifier
abbrev pub AreFor : ℕ → List (ℕ × MagicLinkToken) → Type 0
AreFor id requests = All (λ r. r.1.id ≡ id) requests

used-consume_all :
    (id : ℕ) (requests : List (ℕ × MagicLinkToken)) (s : Links)
    → AreFor id requests
    → all_used id s.tokens ≡ true
    → (consume_all requests s).0 ≡ 0
unfolding consume_link consume_all
used-consume_all id [] s a h = refl
used-consume_all id ((now, t) ∷ rest) s a h =
    let none_left = used_refuses now t s.tokens (ap (λ i. all_used i s.tokens) a.0 ∙ h) in
    rw none_left
      (used-consume_all id rest (consume_link now t s).1 a.1 (used_stays now id t s.tokens h))

-- However many requests have read the row of a link, and in whatever order their updates come, at
-- most one of them gets a session.
pub consume_all_once :
    (id : ℕ) (requests : List (ℕ × MagicLinkToken)) (s : Links)
    → AreFor id requests
    → count_id id s.tokens ≤ 1
    → (consume_all requests s).0 ≤ 1
unfolding consume_link consume_all
consume_all_once id [] s a u = omega arith
consume_all_once id ((now, t) ∷ rest) s a u =
    let after = (consume_link now t s).1 in
    elim (Bool-cases (length (select (is_consumable now t) s.tokens) == 1)) [
      | inl e ↦
          let used =
            consumed-all_used now t s.tokens (subst (λ i. count_id i s.tokens ≤ 1) (sym a.0) u)
              (==→eq (length (select (is_consumable now t) s.tokens)) 1 e) in
          ground (
            arith,
            used-consume_all id rest after a.1 (ap (λ i. all_used i after.tokens) (sym a.0) ∙ used),
          )
      | inr e ↦ rw e (
          consume_all_once id rest after a.1
            (subst (λ k. k ≤ 1) (sym (count_id-consume now id t s.tokens)) u))
    ]

find_link-verified :
    (sha256 : String → String) (now : ℕ) (token : String) (s : Links) (t : MagicLinkToken)
    → read_link sha256 now token s ≡ some t
    → (find_link sha256 token s.tokens ≡ some t) × (t.used_at ≡ none) × (now < t.expires_at)
unfolding read_link is_valid
find_link-verified sha256 now token s t h = elim (Option-cases (find_link sha256 token s.tokens)) [
  | inl e ↦ ground arith
  | inr (r, e) ↦ ground arith
]

-- A session is only given for the user of a token that was read by the digest of the link, unused
-- and not yet expired, and whose row was unused and not expired when it was consumed.
pub verify_magic_link_user :
    (sha256 : String → String) (read_at now : ℕ) (token : String) (meanwhile : Links → Links)
    → (s : Links) (user : ℕ)
    → (verify_magic_link sha256 read_at now token meanwhile s).0 ≡ some user
    → (t : MagicLinkToken) × (find_link sha256 token s.tokens ≡ some t)
      × (t.user ≡ user)
      × (t.used_at ≡ none)
      × (read_at < t.expires_at)
      × (length (select (is_consumable now t) (meanwhile s).tokens) ≡ 1)
unfolding verify_magic_link consume_link
verify_magic_link_user sha256 read_at now token meanwhile s user h =
    elim (Option-cases (read_link sha256 read_at token s)) [
      | inl e ↦ ground arith
      | inr (t, e) ↦
          let (found, fresh, alive) = find_link-verified sha256 read_at token s t e in
          (
            t,
            found,
            ground arith,
            fresh,
            alive,
            ground (arith, ==→eq (length (select (is_consumable now t) (meanwhile s).tokens)) 1),
          )
    ]
