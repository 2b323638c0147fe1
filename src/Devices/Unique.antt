-- ===== src/Devices/Unique.antt =====
-- The operations on devices keep one link for a device and an application, and no trace of an
-- unlinking on an active link (devices/api_views_app_token.py).
use push_it_server.Prelude.{
  ℕ, ◌≡◌, refl, sym, subst, ◌∙◌, inl, inr, Bool, true, not, ◌&&◌, none, [], ◌∷◌, ◌==◌, ==→eq,
  select, update_where, arith, Bool-cases, Option-cases, All,
}
use push_it_server.Models.{DeviceApplicationLink, UnlinkSource}
use push_it_server.Devices.{
  is_link, reactivate, unlink, link_to, move_link, merge_link, merge_links, merged_links,
}
use push_it_server.Devices.Merge.{
  Links, find_link, AreDistinct, AreApart, AreApart-select, link_to-select, merge_link-other,
  find-moved_other, find-moved_target,
}

-- an active link has no trace of an unlinking
abbrev pub IsClean : DeviceApplicationLink → Type 0
IsClean l = l.is_active ≡ true → (l.unlinked_at ≡ none) × (l.unlink_source ≡ none)

pub record IsTidy (ls : Links) : Type 0 where
  pub distinct : AreDistinct ls
  pub clean : All IsClean ls

-- Updates that keep the keys.
module _ (p : DeviceApplicationLink → Bool) (f : DeviceApplicationLink → DeviceApplicationLink)
    (same : (l : DeviceApplicationLink)
      → ((f l).device ≡ l.device) × ((f l).application ≡ l.application))
    (tidies : (l : DeviceApplicationLink) → IsClean (f l)) where
  find-update :
      (d a : ℕ) (ls : Links) → find_link d a ls ≡ none → find_link d a (update_where p f ls) ≡ none
  find-update d a [] h = refl
  find-update d a (l ∷ ls) h = ground (arith, same l, find-update d a ls)

  AreDistinct-update : (ls : Links) → AreDistinct ls → AreDistinct (update_where p f ls)
  AreDistinct-update [] u = tt
  AreDistinct-update (l ∷ ls) u = elim (Bool-cases (p l)) [
    | inl e ↦ rw e (
      rw ((same l).0, (same l).1) (find-update l.device l.application ls u.0),
      AreDistinct-update ls u.1,
    )
    | inr e ↦ rw e (find-update l.device l.application ls u.0, AreDistinct-update ls u.1)
  ]

  All-update : (ls : Links) → All IsClean ls → All IsClean (update_where p f ls)
  All-update [] c = tt
  All-update (l ∷ ls) c = elim (Bool-cases (p l)) [
    | inl e ↦ rw e (tidies l, All-update ls c.1)
    | inr e ↦ rw e (c.0, All-update ls c.1)
  ]

  update-IsTidy : (ls : Links) → IsTidy ls → IsTidy (update_where p f ls)
  update-IsTidy ls t = record {
    distinct = AreDistinct-update ls t.distinct;
    clean = All-update ls t.clean;
  }

pub unlink-IsTidy :
    (p : DeviceApplicationLink → Bool) (now : ℕ) (source : UnlinkSource) (ls : Links)
    → IsTidy ls
    → IsTidy (update_where p (unlink now source) ls)
unlink-IsTidy p now source = update-IsTidy p (unlink now source) (λ l. (refl, refl)) (λ l e. cc)

pub reactivate-IsTidy :
    (p : DeviceApplicationLink → Bool) (ls : Links)
    → IsTidy ls
    → IsTidy (update_where p reactivate ls)
reactivate-IsTidy p = update-IsTidy p reactivate (λ l. (refl, refl)) (λ l e. (refl, refl))

-- Moving a link to a key that is free.
module _ (source target a : ℕ) where
  abbrev moved : Links → Links
  moved ls = update_where (is_link source a) (move_link target) ls

  AreDistinct-moved :
      (ls : Links) → find_link target a ls ≡ none → AreDistinct ls → AreDistinct (moved ls)
  AreDistinct-moved [] h u = tt
  AreDistinct-moved (l ∷ ls) h u =
      let rest : AreDistinct (moved ls) = AreDistinct-moved ls (ground arith) u.1 in
      elim (Bool-cases (is_link source a l)) [
        | inl e ↦
            let free : find_link source a ls ≡ none =
              subst (λ x. find_link x a ls ≡ none) (==→eq l.device source (ground arith))
                (subst (λ x. find_link l.device x ls ≡ none) (==→eq l.application a (ground arith))
                  u.0) in
            rw e (
              subst (λ x. find_link target x (moved ls) ≡ none)
                  (sym (==→eq l.application a (ground arith)))
                  (find-moved_target source target a ls (ground arith) ∙ rw free refl),
              rest,
            )
        | inr e ↦ rw e (
          find-moved_other source target a l.device l.application ls (ground arith) (ground arith)
              ∙ u.0,
          rest,
        )
      ]

  All-moved : (ls : Links) → All IsClean ls → All IsClean (moved ls)
  All-moved [] c = tt
  All-moved (l ∷ ls) c = elim (Bool-cases (is_link source a l)) [
    | inl e ↦ rw e (c.0, All-moved ls c.1)
    | inr e ↦ rw e (c.0, All-moved ls c.1)
  ]

module _ (source target : ℕ) (target_links : Links) where
  merge_link-IsTidy :
      (l : DeviceApplicationLink) (ls : Links)
      → (link_to l.application target_links ≡ none → find_link target l.application ls ≡ none)
      → IsTidy ls
      → IsTidy (merge_link source target target_links l ls)
  unfolding merge_link
  merge_link-IsTidy l ls n t = elim (Option-cases (link_to l.application target_links)) [
    | inl e ↦
        rw (e, merge_link)
          (record {
            distinct = AreDistinct-moved source target l.application ls (n e) t.distinct;
            clean = All-moved source target l.application ls t.clean;
          })
    | inr (x, e) ↦ elim (Bool-cases (l.is_active && not x.is_active)) [
      | inl k ↦ rw (e, k, merge_link) (reactivate-IsTidy (is_link target l.application) ls t)
      | inr k ↦ rw (e, k, merge_link) t
    ]
  ]

  -- every link that has yet to be moved has a free key
  abbrev AreFree : Links → Links → Type 0
  AreFree links ls =
      All
        (λ (l : DeviceApplicationLink).
          link_to l.application target_links ≡ none → find_link target l.application ls ≡ none)
        links

  AreFree-merge_link :
      (l : DeviceApplicationLink) (links ls : Links)
      → link_to l.application links ≡ none
      → AreFree links ls
      → AreFree links (merge_link source target target_links l ls)
  AreFree-merge_link l [] ls h k = tt
  AreFree-merge_link l (m ∷ links) ls h k = (
    λ e.
        merge_link-other source target target_links target m.application l ls (ground arith)
        ∙ k.0 e,
    AreFree-merge_link l links ls (ground arith) k.1,
  )

  merge_links-IsTidy :
      (links ls : Links)
      → AreApart links
      → AreFree links ls
      → IsTidy ls
      → IsTidy (merge_links source target target_links links ls)
  unfolding merge_links
  merge_links-IsTidy [] ls u k t = t
  merge_links-IsTidy (l ∷ links) ls u k t =
      merge_links-IsTidy links (merge_link source target target_links l ls) u.1
        (AreFree-merge_link l links ls u.0 k.1) (merge_link-IsTidy l ls k.0 t)

find-select-none :
    (p : DeviceApplicationLink → Bool) (d a : ℕ) (ls : Links)
    → find_link d a ls ≡ none
    → find_link d a (select p ls) ≡ none
find-select-none p d a [] h = refl
find-select-none p d a (l ∷ ls) h = ground (arith, find-select-none p d a ls)

select-IsTidy : (p : DeviceApplicationLink → Bool) (ls : Links) → IsTidy ls → IsTidy (select p ls)
select-IsTidy p [] t = t
select-IsTidy p (l ∷ ls) t =
    let rest = select-IsTidy p ls (record { distinct = t.distinct.1; clean = t.clean.1 }) in
    elim (Bool-cases (p l)) [
      | inl e ↦ rw e (record {
        distinct = (find-select-none p l.device l.application ls t.distinct.0, rest.distinct);
        clean = (t.clean.0, rest.clean);
      })
      | inr e ↦ rw e rest
    ]

pub merged_links-IsTidy :
    (source target : ℕ) (ls : Links) → IsTidy ls → IsTidy (merged_links source target ls)
unfolding merged_links
merged_links-IsTidy source target ls t =
    let of_target = select (λ (l : DeviceApplicationLink). l.device == target) ls in
    let of_source = select (λ (l : DeviceApplicationLink). l.device == source) ls in
    select-IsTidy (λ l. not (l.device == source)) (merge_links source target of_target of_source ls)
      (merge_links-IsTidy source target of_target of_source ls
        (AreApart-select source ls t.distinct) (free of_source) t)
  where
    free :
        (links : Links)
        → AreFree source target
            (select (λ (l : DeviceApplicationLink). l.device == target) ls)
            links
            ls
    free [] = tt
    free (l ∷ links) = ((λ e. sym (link_to-select target l.application ls) ∙ e), free links)
