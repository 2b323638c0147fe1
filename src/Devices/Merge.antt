-- ===== src/Devices/Merge.antt =====
-- What the merging of two devices does to their links (devices/api_views_app_token.py), by the link
-- that a device and an application have.
use push_it_server.Prelude.{
  ℕ, ◌≡◌, refl, sym, ap, subst, ◌∙◌, inl, inr, false, not, ◌&&◌, Option, none, some, List, [], ◌∷◌,
  ◌==◌, ==→eq, if◌then◌else◌, first, select, update_where, arith, Bool-cases, Option-cases,
}
use push_it_server.Models.{DeviceApplicationLink}
use push_it_server.Devices.{
  is_link, reactivate, link_to, move_link, merge_link, merge_links, merged_links,
}

abbrev pub Links : Type 0
Links = List DeviceApplicationLink

abbrev pub find_link : ℕ → ℕ → Links → Option DeviceApplicationLink
find_link device application ls = first (is_link device application) ls

-- The constraint uniq_device_application.
abbrev pub AreDistinct : Links → Type 0
AreDistinct [] = Unit
AreDistinct (l ∷ ls) = (find_link l.device l.application ls ≡ none) × AreDistinct ls

-- the applications of the links differ
abbrev pub AreApart : Links → Type 0
AreApart [] = Unit
AreApart (l ∷ ls) = (link_to l.application ls ≡ none) × AreApart ls

pub link_to-select :
    (device application : ℕ) (ls : Links)
    → link_to application (select (λ l. l.device == device) ls) ≡ find_link device application ls
link_to-select device application [] = refl
link_to-select device application (l ∷ ls) = ground (arith, link_to-select device application ls)

pub AreApart-select :
    (device : ℕ) (ls : Links) → AreDistinct ls → AreApart (select (λ l. l.device == device) ls)
AreApart-select device [] u = tt
AreApart-select device (l ∷ ls) u = elim (Bool-cases (l.device == device)) [
  | inl e ↦ rw e (
    link_to-select device l.application ls
        ∙ subst (λ x. find_link x l.application ls ≡ none) (==→eq l.device device e) u.0,
    AreApart-select device ls u.1,
  )
  | inr e ↦ rw e (AreApart-select device ls u.1)
]

-- Moving a link.
module _ (source target a : ℕ) where
  abbrev moved : Links → Links
  moved ls = update_where (is_link source a) (move_link target) ls

  pub find-moved_target :
      (ls : Links)
      → find_link target a ls ≡ none
      → find_link target a (moved ls)
        ≡ elim (find_link source a ls) [ none ↦ none | some l ↦ some (move_link target l) ]
  find-moved_target [] h = refl
  find-moved_target (l ∷ ls) h = ground (arith, find-moved_target ls)

  pub find-moved_other :
      (d b : ℕ) (ls : Links)
      → ((d == target) && (b == a)) ≡ false
      → ((d == source) && (b == a)) ≡ false
      → find_link d b (moved ls) ≡ find_link d b ls
  find-moved_other d b [] h k = refl
  find-moved_other d b (l ∷ ls) h k = ground (arith, find-moved_other d b ls)

-- Reactivating one.
find-reactivated :
    (device a d b : ℕ) (ls : Links)
    → find_link d b (update_where (is_link device a) reactivate ls) ≡ elim (find_link d b ls) [
      | none ↦ none
      | some l ↦ some (if (d == device) && (b == a) then reactivate l else l)
    ]
find-reactivated device a d b [] = refl
find-reactivated device a d b (l ∷ ls) = ground (arith, find-reactivated device a d b ls)

-- One round of the loop concerns one application.
module _ (source target : ℕ) (target_links : Links) where
  pub merge_link-other :
      (d b : ℕ) (l : DeviceApplicationLink) (ls : Links)
      → (l.application == b) ≡ false
      → find_link d b (merge_link source target target_links l ls) ≡ find_link d b ls
  unfolding merge_link
  merge_link-other d b l ls h = elim (Option-cases (link_to l.application target_links)) [
    | inl e ↦
        rw (e, merge_link)
          (find-moved_other source target l.application d b ls (ground arith) (ground arith))
    | inr (t, e) ↦ elim (Bool-cases (l.is_active && not t.is_active)) [
      | inl k ↦
          rw (e, k, merge_link)
            (find-reactivated target l.application d b ls
              ∙ ground (arith, Option-cases (find_link d b ls)))
      | inr k ↦ rw (e, k, merge_link) refl
    ]
  ]

  merge_links-other :
      (d b : ℕ) (links ls : Links)
      → link_to b links ≡ none
      → find_link d b (merge_links source target target_links links ls) ≡ find_link d b ls
  unfolding merge_links
  merge_links-other d b [] ls h = refl
  merge_links-other d b (l ∷ links) ls h =
      merge_links-other d b links (merge_link source target target_links l ls) (ground arith)
      ∙ merge_link-other d b l ls (ground arith)

  -- what the loop makes of the link of `target`, by what the links were
  abbrev joined :
      Option DeviceApplicationLink
      → Option DeviceApplicationLink
      → Option DeviceApplicationLink
      → Option DeviceApplicationLink
      → Option DeviceApplicationLink
  joined t none of_target of_source = of_target
  joined none (some l) of_target none = none
  joined none (some l) of_target (some m) = some (move_link target m)
  joined (some t) (some l) none of_source = none
  joined (some t) (some l) (some e) of_source =
      some (if l.is_active && not t.is_active then reactivate e else e)

  merge_link-same :
      (a : ℕ) (l : DeviceApplicationLink) (ls : Links)
      → l.application ≡ a
      → (link_to a target_links ≡ none → find_link target a ls ≡ none)
      → find_link target a (merge_link source target target_links l ls)
        ≡ joined (link_to a target_links) (some l) (find_link target a ls) (find_link source a ls)
  unfolding merge_link
  merge_link-same a l ls h n =
      subst
        (λ x.
          (link_to x target_links ≡ none → find_link target x ls ≡ none)
          → find_link target x (merge_link source target target_links l ls)
            ≡ joined (link_to x target_links) (some l) (find_link target x ls)
                (find_link source x ls))
        h go n
    where
      go :
          (link_to l.application target_links ≡ none → find_link target l.application ls ≡ none)
          → find_link target l.application (merge_link source target target_links l ls)
            ≡ joined
                (link_to l.application target_links)
                (some l)
                (find_link target l.application ls)
                (find_link source l.application ls)
      go n = elim (Option-cases (link_to l.application target_links)) [
        | inl e ↦
            rw (e, merge_link)
              (find-moved_target source target l.application ls (n e)
                ∙ ground (arith, n, Option-cases (find_link source l.application ls)))
        | inr (t, e) ↦ elim (Bool-cases (l.is_active && not t.is_active)) [
          | inl k ↦
              rw (e, k, merge_link)
                (find-reactivated target l.application target l.application ls
                  ∙ ground (arith, Option-cases (find_link target l.application ls)))
          | inr k ↦
              rw (e, k, merge_link)
                (ground (arith, Option-cases (find_link target l.application ls)))
        ]
      ]

  merge_links_lem :
      (a : ℕ) (links ls : Links)
      → AreApart links
      → (link_to a target_links ≡ none → find_link target a ls ≡ none)
      → find_link target a (merge_links source target target_links links ls)
        ≡ joined
            (link_to a target_links)
            (link_to a links)
            (find_link target a ls)
            (find_link source a ls)
  unfolding merge_links
  merge_links_lem a [] ls u n = refl
  merge_links_lem a (l ∷ links) ls u n =
      let next = merge_link source target target_links l ls in
      elim (Bool-cases (l.application == a)) [
        | inl e ↦ rw e (
            merge_links-other target a links next
              (subst (λ x. link_to x links ≡ none) (==→eq l.application a e) u.0)
            ∙ merge_link-same a l ls (==→eq l.application a e) n)
        | inr e ↦
            let of_target = merge_link-other target a l ls e in
            let of_source = merge_link-other source a l ls e in
            rw e (
              merge_links_lem a links next u.1 (λ h. of_target ∙ n h)
              ∙ ap
                  (λ o.
                    joined (link_to a target_links) (link_to a links) o (find_link source a next))
                  of_target
              ∙ ap
                  (λ o. joined (link_to a target_links) (link_to a links) (find_link target a ls) o)
                  of_source)
      ]

find-select :
    (source d a : ℕ) (ls : Links)
    → (d == source) ≡ false
    → find_link d a (select (λ l. not (l.device == source)) ls) ≡ find_link d a ls
find-select source d a [] h = refl
find-select source d a (l ∷ ls) h = ground (arith, find-select source d a ls)

-- The link that a device keeps for an application when another one is merged into it.
abbrev pub combine :
    ℕ → Option DeviceApplicationLink → Option DeviceApplicationLink → Option DeviceApplicationLink
combine target none none = none
combine target none (some l) = some (move_link target l)
combine target (some e) none = some e
combine target (some e) (some l) = some (if l.is_active && not e.is_active then reactivate e else e)

-- Merging a device into another one leaves the other with exactly the links that either had: its own
-- where it had one, active if either was, and else the merged device's.
pub merged_links_lem :
    (source target : ℕ) (ls : Links)
    → AreDistinct ls
    → (target == source) ≡ false
    → (a : ℕ)
    → find_link target a (merged_links source target ls)
      ≡ combine target (find_link target a ls) (find_link source a ls)
unfolding merged_links
merged_links_lem source target ls u h a =
    let of_target = select (λ (l : DeviceApplicationLink). l.device == target) ls in
    let of_source = select (λ (l : DeviceApplicationLink). l.device == source) ls in
    find-select source target a (merge_links source target of_target of_source ls) h
    ∙ merge_links_lem source target of_target a of_source ls (AreApart-select source ls u)
        (λ e. sym (link_to-select target a ls) ∙ e)
    ∙ ap
        (λ o.
          joined source target of_target o (link_to a of_source) (find_link target a ls)
            (find_link source a ls))
        (link_to-select target a ls)
    ∙ ap
        (λ o.
          joined source target of_target (find_link target a ls) o (find_link target a ls)
            (find_link source a ls))
        (link_to-select source a ls)
    ∙ joined-combine (find_link target a ls) (find_link source a ls)
  where
    joined-combine :
        (t s : Option DeviceApplicationLink)
        → joined source target
            (select (λ (l : DeviceApplicationLink). l.device == target) ls)
            t
            s
            t
            s
          ≡ combine target t s
    joined-combine none none = refl
    joined-combine none (some l) = refl
    joined-combine (some t) none = refl
    joined-combine (some t) (some l) = refl
