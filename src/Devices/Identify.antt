-- ===== src/Devices/Identify.antt =====
-- What identifying a device leaves behind: _upsert_authenticated_device of
-- devices/api_views_app_token.py.
use push_it_server.Prelude.{
  ℕ, ◌≡◌, refl, ap, subst, ◌∙◌, inl, inr, true, false, none, some, ◌==◌, update_where, arith,
  Option-cases, String, str_eq, eq_iff,
}
use push_it_server.Models.{Device, DeviceTokenStatus}
use push_it_server.Store.{Store, save_device}
use push_it_server.Devices.{
  DeviceData, with_fields, merge_device_into, apply_device_fields, apply_and_save, rotate_to,
  rotate_row, rotate_push_token, insert_or_update, upsert_authenticated_device,
  select_existing_device, previous_token,
}
use push_it_server.Devices.Tokens.{
  AreKeyed, find_token, find-saved, find-renamed, find-without, freed, keys_differ, found_token,
}

-- The device is the row with the push token; it is the user's, and fully alive.
pub record IsIdentified (user : ℕ) (push_token : String) (d : Device) (s : Store) : Type 0 where
  pub stored : select_existing_device push_token s ≡ some d
  pub owned : d.user ≡ some user
  pub active : d.is_active ≡ true
  pub valid : d.push_token_status ≡ DeviceTokenStatus.active
  pub never_invalidated : d.invalidated_at ≡ none
  pub no_failures : d.failure_count ≡ 0

module _ (now user : ℕ) (validated_data : DeviceData) where
  saved_at :
      (d : Device) (s : Store)
      → select_existing_device validated_data.push_token
          (save_device (with_fields now user validated_data d) s)
        ≡ some (with_fields now user validated_data d)
      → (t : Store) → t.devices ≡ s.devices
      → IsIdentified user validated_data.push_token
          (with_fields now user validated_data d)
          (save_device (with_fields now user validated_data d) t)
  unfolding select_existing_device save_device
  saved_at d s h t e = record {
    stored =
        ap
          (λ ds. find_token validated_data.push_token (
            update_where (λ row. row.id == d.id) (λ row. with_fields now user validated_data d) ds))
          e
        ∙ h;
    owned = refl;
    active = refl;
    valid = refl;
    never_invalidated = refl;
    no_failures = refl;
  }

  taken_over-devices :
      (d : Device) (s : Store)
      → (apply_device_fields now user validated_data d s).1.devices ≡ s.devices
  unfolding apply_device_fields
  taken_over-devices d s = ground arith

  apply_and_save-IsIdentified :
      (d : Device) (s : Store)
      → select_existing_device validated_data.push_token
          (save_device (with_fields now user validated_data d) s)
        ≡ some (with_fields now user validated_data d)
      → IsIdentified user validated_data.push_token
          (apply_and_save now user validated_data d s).0
          (apply_and_save now user validated_data d s).1
  unfolding apply_and_save apply_device_fields
  apply_and_save-IsIdentified d s h =
      saved_at d s h (apply_device_fields now user validated_data d s).1 (taken_over-devices d s)

  update-IsIdentified :
      (d : Device) (s : Store)
      → select_existing_device validated_data.push_token s ≡ some d
      → IsIdentified user validated_data.push_token
          (apply_and_save now user validated_data d s).0
          (apply_and_save now user validated_data d s).1
  unfolding select_existing_device save_device
  update-IsIdentified d s h = apply_and_save-IsIdentified d s (
      find-saved validated_data.push_token (with_fields now user validated_data d) s.devices d
        (found_token validated_data.push_token s.devices d h) refl h)

  rotate_to-IsIdentified :
      (previous : String) (old : Device) (s : Store)
      → select_existing_device previous s ≡ some old
      → select_existing_device validated_data.push_token s ≡ none
      → IsIdentified user validated_data.push_token
          (rotate_to now user validated_data old s).0
          (rotate_to now user validated_data old s).1
  unfolding select_existing_device save_device rotate_to
  rotate_to-IsIdentified previous old s h n =
      let renamed : Device = record old { push_token = validated_data.push_token } in
      apply_and_save-IsIdentified renamed s (
        find-renamed previous validated_data.push_token
          (with_fields now user validated_data renamed) s.devices old refl refl h n)

  insert_or_update-IsIdentified :
      (strip : String → String) (s : Store)
      → let r = insert_or_update strip now user validated_data s in
        IsIdentified user validated_data.push_token r.0.0 r.1
  unfolding insert_or_update select_existing_device
  insert_or_update-IsIdentified strip s =
      elim (Option-cases (select_existing_device validated_data.push_token s)) [
        | inl e ↦
            rw (insert_or_update, e)
              (record {
                stored =
                    rw ((eq_iff validated_data.push_token validated_data.push_token).1 refl) refl;
                owned = refl;
                active = refl;
                valid = refl;
                never_invalidated = refl;
                no_failures = refl;
              })
        | inr (d, e) ↦ rw (insert_or_update, e) (update-IsIdentified d s e)
      ]

  rotate_row-IsIdentified :
      (previous : String) (old d : Device) (s t : Store)
      → AreKeyed s.devices
      → str_eq previous validated_data.push_token ≡ false
      → select_existing_device previous s ≡ some old
      → rotate_row now user validated_data old s ≡ some (d, t)
      → IsIdentified user validated_data.push_token d t
  unfolding rotate_row select_existing_device merge_device_into
  rotate_row-IsIdentified previous old d s t k n h r =
      elim (Option-cases (select_existing_device validated_data.push_token s)) [
        | inl e ↦
            let same : rotate_to now user validated_data old s ≡ (d, t) = ground arith in
            subst (λ x. IsIdentified user validated_data.push_token x.0 x.1) same
              (rotate_to-IsIdentified previous old s h e)
        | inr (clash, e) ↦
            let merged = merge_device_into clash.id old.id s in
            let same : rotate_to now user validated_data old merged ≡ (d, t) = ground arith in
            subst (λ x. IsIdentified user validated_data.push_token x.0 x.1) same
              (rotate_to-IsIdentified previous old merged
                (find-without previous s.devices clash.id old h
                  (keys_differ previous validated_data.push_token s.devices old clash k n h e))
                (freed validated_data.push_token s.devices clash k e))
      ]

  -- Whichever way the upsert takes, a rotation, an update, an insertion or the update after a lost
  -- race for the insertion, the device that it returns is the row with the push token; it belongs to
  -- the user, is active with a valid token, and has no failures left. Before, no two rows may have
  -- the same key or the same token.
  pub upsert_authenticated_device-IsIdentified :
      (strip : String → String) (meanwhile : Store → Store) (s : Store)
      → AreKeyed s.devices
      → let r = upsert_authenticated_device strip now user validated_data meanwhile s in
        IsIdentified user validated_data.push_token r.0.0 r.1
  unfolding upsert_authenticated_device rotate_push_token
  upsert_authenticated_device-IsIdentified strip meanwhile s k =
      elim (Option-cases (rotate_push_token strip now user validated_data s)) [
        | inr ((d, t), e) ↦
            rw (upsert_authenticated_device, e) (rotated-IsIdentified strip d s t k e)
        | inl e ↦ elim (Option-cases (select_existing_device validated_data.push_token s)) [
          | inr (d, f) ↦ rw (upsert_authenticated_device, e, f) (update-IsIdentified d s f)
          | inl f ↦
              rw (upsert_authenticated_device, e, f)
                (insert_or_update-IsIdentified strip (meanwhile s))
        ]
      ]
    where
      rotated-IsIdentified :
          (strip : String → String) (d : Device) (s t : Store)
          → AreKeyed s.devices
          → rotate_push_token strip now user validated_data s ≡ some (d, t)
          → IsIdentified user validated_data.push_token d t
      rotated-IsIdentified strip d s t k h =
          let previous = previous_token strip now user validated_data in
          elim (Option-cases (select_existing_device previous s)) [
            | inl e ↦ absurd (ground (arith, rotate_push_token))
            | inr (old, e) ↦
                rotate_row-IsIdentified previous old d s t k (ground (arith, rotate_push_token)) e
                  (ground (arith, rotate_push_token))
          ]
