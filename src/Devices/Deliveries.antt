-- ===== src/Devices/Deliveries.antt =====
-- What the merging of two devices does to their deliveries (devices/api_views_app_token.py).
use push_it_server.Prelude.{
  ℕ, ◌+◌, ◌≤◌, ◌≡◌, refl, sym, ap, subst, ◌∙◌, ◌⊎◌, inl, inr, Bool, true, false, not, ◌&&◌, ◌||◌,
  List, [], ◌∷◌, ◌==◌, ==→eq, if◌then◌else◌, select, update_where, arith, Bool-cases, contains, map,
}
use push_it_server.Models.{NotificationDelivery}
use push_it_server.Targets.{has_delivery}
use push_it_server.Targets.Rows.{
  count_rows, AreUnique, has_delivery-count_rows, count_rows-has_delivery,
}
use push_it_server.Devices.{merged_deliveries}

-- The deliveries of a merge.
module _ (source target n : ℕ) (apart : (target == source) ≡ false) where
  count-merged :
      (already : List ℕ) (ds : List NotificationDelivery)
      → count_rows n target (
          select
            (λ d. not (d.device == source))
            (update_where
              (λ d. (d.device == source) && not (contains already d.notification))
              (λ (d : NotificationDelivery). record d { device = target })
              ds))
        ≡ count_rows n target ds + (if contains already n then 0 else count_rows n source ds)
  count-merged already [] = ground arith
  count-merged already (d ∷ ds) =
      let rest = count-merged already ds in
      elim (Bool-cases (d.notification == n)) [
        | inl e ↦ ground (arith, rest, ap (contains already) (==→eq d.notification n e))
        | inr e ↦ ground (arith, rest)
      ]

already-has_delivery :
    (target n : ℕ) (ds : List NotificationDelivery)
    → contains (map (λ d. d.notification) (select (λ d. d.device == target) ds)) n
      ≡ has_delivery n target ds
unfolding contains has_delivery
already-has_delivery target n [] = refl
already-has_delivery target n (d ∷ ds) = ground (arith, already-has_delivery target n ds)

-- After the merge, the kept device has a delivery of exactly the notifications of which either had one.
pub merged_deliveries_lem :
    (source target n : ℕ) (ds : List NotificationDelivery)
    → (target == source) ≡ false
    → has_delivery n target (merged_deliveries source target ds)
      ≡ (has_delivery n target ds || has_delivery n source ds)
unfolding merged_deliveries
merged_deliveries_lem source target n ds h =
    let already =
      map (λ (d : NotificationDelivery). d.notification) (select (λ d. d.device == target) ds) in
    counted n target (merged_deliveries source target ds) _
      (count-merged source target n h already ds
        ∙ ap (λ b. count_rows n target ds + (if b then 0 else count_rows n source ds))
            (already-has_delivery target n ds))
      (ground (
        arith,
        has_delivery-count_rows n target ds,
        count_rows-has_delivery n target ds,
        has_delivery-count_rows n source ds,
        count_rows-has_delivery n source ds,
      ))
  where
    counted :
        (n device : ℕ) (ds : List NotificationDelivery) (k : ℕ)
        → count_rows n device ds ≡ k
        → {b : Bool} → (((b ≡ true) × (1 ≤ k)) ⊎ ((b ≡ false) × (k ≡ 0)))
        → has_delivery n device ds ≡ b
    counted n device ds k e (inl (u, l)) =
        ground (arith, has_delivery-count_rows n device ds, count_rows-has_delivery n device ds)
    counted n device ds k e (inr (u, l)) =
        ground (arith, has_delivery-count_rows n device ds, count_rows-has_delivery n device ds)

count-merged_other :
    (source target n d : ℕ) (already : List ℕ) (ds : List NotificationDelivery)
    → (d == target) ≡ false
    → count_rows n d (
        select
          (λ r. not (r.device == source))
          (update_where
            (λ r. (r.device == source) && not (contains already r.notification))
            (λ (r : NotificationDelivery). record r { device = target })
            ds))
      ≤ count_rows n d ds
count-merged_other source target n d already [] h = omega arith
count-merged_other source target n d already (r ∷ ds) h =
    ground (arith, count-merged_other source target n d already ds)

pub merged_deliveries-AreUnique :
    (source target : ℕ) (ds : List NotificationDelivery)
    → (target == source) ≡ false
    → AreUnique ds
    → AreUnique (merged_deliveries source target ds)
unfolding merged_deliveries
merged_deliveries-AreUnique source target ds h u n d =
    let already =
      map (λ (r : NotificationDelivery). r.notification) (select (λ r. r.device == target) ds) in
    elim (Bool-cases (d == target)) [
      | inl e ↦
          subst (λ x. count_rows n x (merged_deliveries source target ds) ≤ 1)
            (sym (==→eq d target e))
            (ground (
              arith,
              u n target,
              u n source,
              already-has_delivery target n ds,
              count-merged source target n h already ds,
              has_delivery-count_rows n target ds,
              count_rows-has_delivery n target ds,
            ))
      | inr e ↦ omega (arith, u n d, count-merged_other source target n d already ds e)
    ]
