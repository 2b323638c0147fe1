-- ===== src/Devices/Unlinking.antt =====
-- The requests of devices/api_views_app_token.py that take a link down.
use push_it_server.Prelude.{
  ℕ, ◌≡◌, refl, sym, ap, subst, inl, inr, ◌⊎◌, Bool, true, false, ◌&&◌, Option, none, some, [], ◌∷◌,
  ◌==◌, first, update_where, arith, Bool-cases, Option-cases, String, str_eq, is_some, eq_iff, In,
  All, List, ==→eq,
}
use push_it_server.Models.{DeviceApplicationLink, Device, UnlinkSource}
use push_it_server.Store.{Store}
use push_it_server.Devices.{is_link, belongs_to, unlink, unlink_device}
use push_it_server.Devices.Merge.{Links, find_link}
use push_it_server.Devices.Unique.{IsTidy, unlink-IsTidy}

abbrev pub find_active : ℕ → ℕ → Links → Option DeviceApplicationLink
find_active d a ls = first (λ l. is_link d a l && l.is_active) ls

find-unlinked :
    (now d a : ℕ) (source : UnlinkSource) (ls : Links)
    → find_active d a (update_where (is_link d a) (unlink now source) ls) ≡ none
find-unlinked now d a source [] = refl
find-unlinked now d a source (l ∷ ls) = ground (arith, find-unlinked now d a source ls)

pub other-unlinked :
    (now d a e b : ℕ) (source : UnlinkSource) (ls : Links)
    → ((e == d) && (b == a)) ≡ false
    → find_link e b (update_where (is_link d a) (unlink now source) ls) ≡ find_link e b ls
other-unlinked now d a e b source [] h = refl
other-unlinked now d a e b source (l ∷ ls) h = ground (arith, other-unlinked now d a e b source ls)

-- A device of the user with the push token, as the requests look it up.
abbrev pub has_token : ℕ → String → Device → Bool
has_token user push_token d = str_eq d.push_token push_token && belongs_to user d

-- The answer of an unlinking and the state it leaves, where it has found the device `d`.
pub record Unlinked (user : ℕ) (push_token : String) (application : ℕ) (s t : Store)
    (unlinked : Bool) (d : Device) : Type 0 where
  pub there : In d s.devices
  pub token : d.push_token ≡ push_token
  pub owner : d.user ≡ some user
  pub undone : find_active d.id application t.links ≡ none
  pub answered : unlinked ≡ is_some (find_active d.id application s.links)
  pub others :
      (e b : ℕ)
      → ((e == d.id) && (b == application)) ≡ false
      → find_link e b t.links ≡ find_link e b s.links

first-none : (p : Device → Bool) (ds : List Device) → first p ds ≡ none → All (λ d. p d ≡ false) ds
first-none p [] h = tt
first-none p (d ∷ ds) h = (ground arith, first-none p ds (ground arith))

first-found :
    (user : ℕ) (push_token : String) (ds : List Device) (d : Device)
    → first (has_token user push_token) ds ≡ some d
    → In d ds × (d.push_token ≡ push_token) × (d.user ≡ some user)
first-found user push_token [] d h = absurd (ground arith)
first-found user push_token (x ∷ ds) d h = elim (Bool-cases (has_token user push_token x)) [
  | inl e ↦
      let same : x ≡ d = ground arith in
      let token = (eq_iff x.push_token push_token).0 (ground arith) in
      let owner = owner_is x.user (ground arith) in
      subst (λ y. In y (x ∷ ds) × (y.push_token ≡ push_token) × (y.user ≡ some user)) same
        (inl refl, token, owner)
  | inr e ↦
      let (i, token, owner) = first-found user push_token ds d (ground arith) in
      (inr i, token, owner)
]
  where
    owner_is : (o : Option ℕ) → elim o [ none ↦ false | some k ↦ k == user ] ≡ true → o ≡ some user
    owner_is none h = absurd (ground arith)
    owner_is (some k) h = ap some (==→eq k user h)

-- A request to unlink changes nothing, and tells so, where no row is a device of the user with the
-- push token. Otherwise it finds such a row: afterwards that device has no active link to the
-- application, no other link is touched, and the answer tells whether there was an active link.
pub unlink_device_lem :
    (source : UnlinkSource) (now user : ℕ) (push_token : String) (application : ℕ) (s : Store)
    → let (t, found, unlinked) = unlink_device source now user push_token application s in
      ((found ≡ none)
        × (unlinked ≡ false)
        × (t ≡ s)
        × All (λ d. has_token user push_token d ≡ false) s.devices)
      ⊎ ((d : Device) × (found ≡ some d.id) × Unlinked user push_token application s t unlinked d)
unfolding unlink_device
unlink_device_lem source now user push_token a s =
    elim (Option-cases (first (has_token user push_token) s.devices)) [
      | inl e ↦
          rw (unlink_device, e)
            (inl (refl, refl, refl, first-none (has_token user push_token) s.devices e))
      | inr (d, e) ↦
          let (there, token, owner) = first-found user push_token s.devices d e in
          elim (Option-cases (find_active d.id a s.links)) [
            | inl f ↦
                rw (unlink_device, e, f)
                  (inr (
                    d,
                    refl,
                    record {
                      there = there;
                      token = token;
                      owner = owner;
                      undone = f;
                      answered = ap is_some (sym f);
                      others = λ x b h. refl;
                    },
                  ))
            | inr (l, f) ↦
                rw (unlink_device, e, f)
                  (inr (
                    d,
                    refl,
                    record {
                      there = there;
                      token = token;
                      owner = owner;
                      undone = find-unlinked now d.id a source s.links;
                      answered = ap is_some (sym f);
                      others = λ x b h. other-unlinked now d.id a x b source s.links h;
                    },
                  ))
          ]
    ]

pub unlink_device-IsTidy :
    (source : UnlinkSource) (now user : ℕ) (push_token : String) (application : ℕ) (s : Store)
    → IsTidy s.links
    → IsTidy (unlink_device source now user push_token application s).0.links
unfolding unlink_device
unlink_device-IsTidy source now user push_token a s t =
    elim (Option-cases
      (first (λ d. str_eq d.push_token push_token && belongs_to user d) s.devices)) [
        | inl e ↦ rw (unlink_device, e) t
        | inr (d, e) ↦ elim (Option-cases (find_active d.id a s.links)) [
          | inl f ↦ rw (unlink_device, e, f) t
          | inr (l, f) ↦
              rw (unlink_device, e, f) (unlink-IsTidy (is_link d.id a) now source s.links t)
        ]
      ]
