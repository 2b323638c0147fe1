-- ===== src/Devices/Tokens.antt =====
-- The rows of devices by their push token, of which no two rows have the same.
use push_it_server.Prelude.{
  ℕ, ◌≡◌, refl, subst, true, false, not, Option, none, some, List, [], ◌∷◌, inl, inr, ◌==◌, ==_self,
  first, select, update_where, arith, Bool-cases, All, String, str_eq, eq_iff,
}
use push_it_server.Models.{Device}

abbrev pub find_token : String → List Device → Option Device
find_token token ds = first (λ d. str_eq d.push_token token) ds

-- The constraints of the table: no two rows have one key or one push token.
abbrev pub AreKeyed : List Device → Type 0
AreKeyed [] = Unit
AreKeyed (d ∷ ds) =
    All (λ (e : Device). ((e.id == d.id) ≡ false) × (str_eq e.push_token d.push_token ≡ false)) ds
    × AreKeyed ds

abbrev pub without : ℕ → List Device → List Device
without id ds = select (λ (d : Device). not (d.id == id)) ds

pub found_token :
    (token : String) (ds : List Device) (d : Device)
    → find_token token ds ≡ some d
    → d.push_token ≡ token
found_token token [] d h = cc
found_token token (e ∷ ds) d h = elim (Bool-cases (str_eq e.push_token token)) [
  | inl k ↦ (eq_iff d.push_token token).0 (ground arith)
  | inr k ↦ found_token token ds d (ground arith)
]

found-All :
    (P : Device → Type 0) (token : String) (ds : List Device) (d : Device)
    → find_token token ds ≡ some d
    → All P ds
    → P d
found-All P token [] d h a = absurd (ground arith)
found-All P token (e ∷ ds) d h a = elim (Bool-cases (str_eq e.push_token token)) [
  | inl k ↦ subst P (ground arith) a.0
  | inr k ↦ found-All P token ds d (ground arith) a.1
]

-- saving a row that was found
pub find-saved :
    (token : String) (saved : Device) (ds : List Device) (d : Device)
    → saved.push_token ≡ token
    → saved.id ≡ d.id
    → find_token token ds ≡ some d
    → find_token token (update_where (λ row. row.id == saved.id) (λ row. saved) ds) ≡ some saved
find-saved token saved [] d e i h = cc
find-saved token saved (r ∷ ds) d e i h =
    let hit : str_eq saved.push_token token ≡ true = (eq_iff saved.push_token token).1 e in
    ground (arith, find-saved token saved ds d)

-- saving a row under a token that no row has
pub find-renamed :
    (previous token : String) (saved : Device) (ds : List Device) (d : Device)
    → saved.push_token ≡ token
    → saved.id ≡ d.id
    → find_token previous ds ≡ some d
    → find_token token ds ≡ none
    → find_token token (update_where (λ row. row.id == saved.id) (λ row. saved) ds) ≡ some saved
find-renamed previous token saved [] d e i h n = cc
find-renamed previous token saved (r ∷ ds) d e i h n =
    let hit : str_eq saved.push_token token ≡ true = (eq_iff saved.push_token token).1 e in
    ground (arith, find-renamed previous token saved ds d)

pub find-without :
    (token : String) (ds : List Device) (id : ℕ) (d : Device)
    → find_token token ds ≡ some d
    → (d.id == id) ≡ false
    → find_token token (without id ds) ≡ some d
find-without token [] id d h k = cc
find-without token (r ∷ ds) id d h k = ground (arith, find-without token ds id d)

none-without :
    (token : String) (ds : List Device) (id : ℕ)
    → find_token token ds ≡ none
    → find_token token (without id ds) ≡ none
none-without token [] id h = refl
none-without token (r ∷ ds) id h = ground (arith, none-without token ds id)

unheld :
    (token other : String) (ds : List Device)
    → str_eq other token ≡ true
    → All (λ (e : Device). str_eq e.push_token other ≡ false) ds
    → find_token token ds ≡ none
unheld token other ds h a = subst (λ t. find_token t ds ≡ none) ((eq_iff other token).0 h) (go ds a)
  where
    go :
        (ds : List Device)
        → All (λ (e : Device). str_eq e.push_token other ≡ false) ds
        → find_token other ds ≡ none
    go [] a = refl
    go (d ∷ ds) a = ground (arith, go ds a.1)

All-map :
    {P Q : Device → Type 0} → ((d : Device) → P d → Q d) → (ds : List Device) → All P ds → All Q ds
All-map f [] a = tt
All-map f (d ∷ ds) a = (f d a.0, All-map f ds a.1)

-- once its only holder is deleted, a token is free
pub freed :
    (token : String) (ds : List Device) (d : Device)
    → AreKeyed ds
    → find_token token ds ≡ some d
    → find_token token (without d.id ds) ≡ none
freed token [] d k h = refl
freed token (r ∷ ds) d k h = elim (Bool-cases (str_eq r.push_token token)) [
  | inl e ↦
      let same : r ≡ d = ground arith in
      let gone : (r.id == d.id) ≡ true =
        subst (λ (x : Device). (r.id == x.id) ≡ true) same (==_self r.id) in
      ground (
        arith,
        none-without token ds d.id,
        unheld token r.push_token ds e (All-map (λ x q. q.1) ds k.0),
      )
  | inr e ↦ ground (arith, freed token ds d k.1)
]

-- rows with different tokens have different keys
pub keys_differ :
    (previous token : String) (ds : List Device) (old clash : Device)
    → AreKeyed ds
    → str_eq previous token ≡ false
    → find_token previous ds ≡ some old
    → find_token token ds ≡ some clash
    → (old.id == clash.id) ≡ false
keys_differ previous token [] old clash k n h g = absurd (ground arith)
keys_differ previous token (r ∷ ds) old clash k n h g =
    elim (Bool-cases (str_eq r.push_token previous)) [
      | inl e ↦ elim (Bool-cases (str_eq r.push_token token)) [
        | inl f ↦ absurd (
            ground (
              arith,
              (eq_iff r.push_token previous).0 e,
              (eq_iff r.push_token token).0 f,
              eq_iff previous token,
            ))
        | inr f ↦
            let same : r ≡ old = ground arith in
            let other =
              found-All (λ (x : Device). (x.id == r.id) ≡ false) token ds clash (ground arith)
                (All-map (λ x q. q.0) ds k.0) in
            subst (λ (x : Device). (x.id == clash.id) ≡ false) same (ground (arith, other))
      ]
      | inr e ↦ elim (Bool-cases (str_eq r.push_token token)) [
        | inl f ↦
            let same : r ≡ clash = ground arith in
            let other =
              found-All (λ (x : Device). (x.id == r.id) ≡ false) previous ds old (ground arith)
                (All-map (λ x q. q.0) ds k.0) in
            subst (λ (x : Device). (old.id == x.id) ≡ false) same other
        | inr f ↦ keys_differ previous token ds old clash k.1 n (ground arith) (ground arith)
      ]
    ]
