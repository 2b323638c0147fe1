-- ===== src/Views/Hiding.antt =====
-- The soft deletion of a notification: NotificationDetailApiView.destroy of notifications/api_views.py.
use push_it_server.Prelude.{
  ℕ, ◌≡◌, ◌≢◌, refl, sym, ap, subst, ◌∙◌, inl, inr, Bool, true, false, List, [], ◌∷◌, map, select,
  update_where, is_empty, In, arith, Bool-cases, if◌then◌else◌,
}
use push_it_server.Models.{Notification, NotificationStatus}
use push_it_server.Store.{Store}
use push_it_server.Views.{no_content_204, is_unfinished, is_owned, may_hide, hide, destroy}

-- what the statistics count
abbrev pub outline : List Notification → List (ℕ × NotificationStatus)
outline ns = map (λ n. (n.id, n.status)) ns

module _ (owner_filter : Notification → Bool) (pk : ℕ) where
  abbrev hidden : List Notification → List Notification
  hidden ns = update_where (may_hide owner_filter pk) hide ns

  hidden-outline : (ns : List Notification) → outline (hidden ns) ≡ outline ns
  hidden-outline [] = refl
  hidden-outline (n ∷ ns) = ground (arith, hidden-outline ns)

  nothing_left : (ns : List Notification) → select (may_hide owner_filter pk) (hidden ns) ≡ []
  nothing_left [] = refl
  nothing_left (n ∷ ns) = elim (Bool-cases (may_hide owner_filter pk n)) [
    | inl e ↦ rw e (nothing_left ns)
    | inr e ↦ rw e (rw e (nothing_left ns))
  ]

  hidden-In :
      (ns : List Notification) (n : Notification)
      → In n ns
      → may_hide owner_filter pk n ≡ false
      → In n (hidden ns)
  hidden-In [] n i h = i
  hidden-In (r ∷ ns) n (inl e) h =
      inl (e ∙ sym (ap (λ b. if b then hide r else r) (ap (may_hide owner_filter pk) (sym e) ∙ h)))
  hidden-In (r ∷ ns) n (inr i) h = inr (hidden-In ns n i h)

  none-hideable :
      (ns : List Notification)
      → is_empty (select (may_hide owner_filter pk) ns) ≡ true
      → select (may_hide owner_filter pk) ns ≡ []
  none-hideable ns h = emptied (select (may_hide owner_filter pk) ns) h
    where
      emptied : (xs : List Notification) → is_empty xs ≡ true → xs ≡ []
      emptied [] h = refl
      emptied (x ∷ xs) h = absurd (ground arith)

  unchanged :
      (s : Store)
      → is_empty (select (may_hide owner_filter pk) s.notifications) ≡ true
      → (destroy owner_filter pk s).0 ≡ s
  unfolding destroy
  unchanged s e = ground arith

  never_again :
      (t : Store)
      → select (may_hide owner_filter pk) t.notifications ≡ []
      → (destroy owner_filter pk t).1 ≢ no_content_204
  unfolding destroy
  never_again t e h =
      elim (Bool-cases (is_empty (select (is_owned owner_filter pk) t.notifications))) [
        | inl f ↦ ground (arith, ap is_empty e)
        | inr f ↦ ground (arith, ap is_empty e)
      ]

  -- Whatever the request to hide a notification answers, afterwards no visible notification of the
  -- owner with the key is left but one that is scheduled, queued or being sent, which stays as it was;
  -- every row keeps its key and its status, for the statistics; and a second request never succeeds.
  pub destroy_lem :
      (s : Store)
      → let t = (destroy owner_filter pk s).0 in
        (select (may_hide owner_filter pk) t.notifications ≡ [])
        × (outline t.notifications ≡ outline s.notifications)
        × ((n : Notification)
            → In n s.notifications
            → is_unfinished n.status ≡ true
            → In n t.notifications)
        × ((destroy owner_filter pk t).1 ≢ no_content_204)
  unfolding destroy
  destroy_lem s = elim (Bool-cases (is_empty (select (may_hide owner_filter pk) s.notifications))) [
    | inr e ↦
        let t : Store = record s { notifications = hidden s.notifications } in
        rw (destroy, e)
          (
            nothing_left s.notifications,
            hidden-outline s.notifications,
            (λ n i h. hidden-In s.notifications n i (ground arith)),
            never_again t (nothing_left s.notifications),
          )
    | inl e ↦
        let none = none-hideable s.notifications e in
        subst
          (λ (t : Store).
            (select (may_hide owner_filter pk) t.notifications ≡ [])
            × (outline t.notifications ≡ outline s.notifications)
            × ((n : Notification)
                → In n s.notifications
                → is_unfinished n.status ≡ true
                → In n t.notifications)
            × ((destroy owner_filter pk t).1 ≢ no_content_204))
          (sym (unchanged s e)) (none, refl, (λ n i h. i), never_again s none)
  ]
