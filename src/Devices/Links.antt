-- ===== src/Devices/Links.antt =====
-- The links of devices and applications over the requests of devices/api_views_app_token.py.
use push_it_server.Prelude.{
  ℕ, ◌≡◌, refl, subst, inl, inr, Bool, true, false, ◌&&◌, none, some, [], ◌∷◌, ◌==◌, first,
  update_where, arith, Bool-cases, Option-cases, String,
}
use push_it_server.Models.{DeviceApplicationLink, Device, takeover}
use push_it_server.Store.{Store, save_device}
use push_it_server.Devices.{
  DeviceData, merge_device_into, apply_device_fields, apply_and_save, rotate_to, rotate_row,
  is_link, reactivate, rotate_push_token, insert_or_update, upsert_authenticated_device, is_foreign,
  select_existing_device, previous_token, unlink, link_device,
}
use push_it_server.Devices.Merge.{Links, find_link}
use push_it_server.Devices.Unique.{IsTidy, unlink-IsTidy, reactivate-IsTidy, merged_links-IsTidy}

module _ (now user : ℕ) (validated_data : DeviceData) where
  apply_and_save-IsTidy :
      (d : Device) (s : Store)
      → IsTidy s.links
      → IsTidy (apply_and_save now user validated_data d s).1.links
  unfolding apply_and_save apply_device_fields save_device
  apply_and_save-IsTidy d s t = elim (Bool-cases (is_foreign d.user user)) [
    | inl e ↦
        rw (apply_and_save, apply_device_fields, e)
          (unlink-IsTidy (λ l. (l.device == d.id) && l.is_active) now takeover s.links t)
    | inr e ↦ rw (apply_and_save, apply_device_fields, e) t
  ]

  rotate_push_token-IsTidy :
      (strip : String → String) (d : Device) (s u : Store)
      → rotate_push_token strip now user validated_data s ≡ some (d, u)
      → IsTidy s.links
      → IsTidy u.links
  unfolding rotate_push_token rotate_row rotate_to merge_device_into
  rotate_push_token-IsTidy strip d s u h t =
      elim (Option-cases
        (select_existing_device (previous_token strip now user validated_data) s)) [
          | inl e ↦ absurd (ground arith)
          | inr (old, e) ↦
              let renamed : Device = record old { push_token = validated_data.push_token } in
              elim (Option-cases (select_existing_device validated_data.push_token s)) [
                | inl f ↦
                    let same : apply_and_save now user validated_data renamed s ≡ (d, u) =
                      ground arith in
                    subst (λ x. IsTidy x.1.links) same (apply_and_save-IsTidy renamed s t)
                | inr (clash, f) ↦
                    let merged = merge_device_into clash.id old.id s in
                    let same : apply_and_save now user validated_data renamed merged ≡ (d, u) =
                      ground arith in
                    subst (λ x. IsTidy x.1.links) same
                      (apply_and_save-IsTidy renamed (merge_device_into clash.id old.id s)
                        (merged_links-IsTidy clash.id old.id s.links t))
              ]
        ]

  -- Identifying a device, with a rotation of its token, a merge and a takeover as they come, keeps at
  -- most one link for each device and application, and no trace of an unlinking on an active link,
  -- where what other requests commit meanwhile does.
  pub upsert_authenticated_device-IsTidy :
      (strip : String → String) (meanwhile : Store → Store) (s : Store)
      → IsTidy s.links
      → IsTidy (meanwhile s).links
      → IsTidy (upsert_authenticated_device strip now user validated_data meanwhile s).1.links
  unfolding upsert_authenticated_device insert_or_update
  upsert_authenticated_device-IsTidy strip meanwhile s t m =
      elim (Option-cases (rotate_push_token strip now user validated_data s)) [
        | inr ((d, u), e) ↦
            rw (upsert_authenticated_device, e) (rotate_push_token-IsTidy strip d s u e t)
        | inl e ↦ elim (Option-cases (select_existing_device validated_data.push_token s)) [
          | inr (d, f) ↦ rw (upsert_authenticated_device, e, f) (apply_and_save-IsTidy d s t)
          | inl f ↦
              elim (Option-cases (select_existing_device validated_data.push_token (meanwhile s))) [
                | inl g ↦ rw (upsert_authenticated_device, insert_or_update, e, f, g) m
                | inr (d, g) ↦
                    rw (upsert_authenticated_device, insert_or_update, e, f, g)
                      (apply_and_save-IsTidy d (meanwhile s) m)
              ]
        ]
      ]

  none_left :
      (id : ℕ) (ls : Links)
      → first
          (λ l. (l.device == id) && l.is_active)
          (update_where (λ l. (l.device == id) && l.is_active) (unlink now takeover) ls)
        ≡ none
  none_left id [] = refl
  none_left id (l ∷ ls) = ground (arith, none_left id ls)

  -- Without a rotation, a device that another user identified before loses every active link, so that
  -- no application of that user reaches it any longer; one that is the user's own, or nobody's, keeps
  -- all its links as they are.
  pub upsert_authenticated_device_taken_over :
      (strip : String → String) (meanwhile : Store → Store) (d : Device) (s : Store)
      → rotate_push_token strip now user validated_data s ≡ none
      → select_existing_device validated_data.push_token s ≡ some d
      → let t = (upsert_authenticated_device strip now user validated_data meanwhile s).1 in
        (is_foreign d.user user ≡ true
          → first (λ l. (l.device == d.id) && l.is_active) t.links ≡ none)
        × (is_foreign d.user user ≡ false → t.links ≡ s.links)
  unfolding upsert_authenticated_device apply_and_save apply_device_fields save_device
  upsert_authenticated_device_taken_over strip meanwhile d s e f =
      rw (upsert_authenticated_device, e, f)
        (
          (λ h. rw (apply_and_save, apply_device_fields, h) (none_left d.id s.links)),
          (λ h. rw (apply_and_save, apply_device_fields, h) refl),
        )

-- Linking.
abbrev pub is_linked : ℕ → ℕ → Links → Bool
is_linked d a ls = elim (find_link d a ls) [ none ↦ false | some l ↦ l.is_active ]

find-reactivated :
    (d a : ℕ) (l : DeviceApplicationLink) (ls : Links)
    → find_link d a ls ≡ some l
    → find_link d a (update_where (is_link d a) reactivate ls) ≡ some (reactivate l)
find-reactivated d a l [] h = cc
find-reactivated d a l (m ∷ ls) h = ground (arith, find-reactivated d a l ls)

-- After the request to link, the device has an active link to the application; a second request
-- finds it and changes nothing.
pub link_device_twice :
    (device application : ℕ) (s : Store)
    → let t = (link_device device application s).0 in
      (is_linked device application t.links ≡ true)
      × (link_device device application t ≡ (t, false))
unfolding link_device
link_device_twice d a s = elim (Option-cases (find_link d a s.links)) [
  | inl e ↦ ground arith
  | inr (l, e) ↦ elim (Bool-cases l.is_active) [
    | inl h ↦ ground arith
    | inr h ↦ ground (arith, find-reactivated d a l s.links e)
  ]
]

pub link_device-IsTidy :
    (device application : ℕ) (s : Store)
    → IsTidy s.links
    → IsTidy (link_device device application s).0.links
unfolding link_device
link_device-IsTidy d a s t = elim (Option-cases (find_link d a s.links)) [
  | inl e ↦
      rw (link_device, e)
        (record { distinct = (e, t.distinct); clean = ((λ h. (refl, refl)), t.clean) })
  | inr (l, e) ↦ elim (Bool-cases l.is_active) [
    | inl h ↦ rw (link_device, e, h) t
    | inr h ↦ rw (link_device, e, h) (reactivate-IsTidy (is_link d a) s.links t)
  ]
]
