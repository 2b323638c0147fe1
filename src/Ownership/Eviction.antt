-- ===== src/Ownership/Eviction.antt =====
-- Evicting a device: ApplicationDeviceEvictApiView of applications/api_views.py.
use push_it_server.Prelude.{
  ℕ, ◌≡◌, refl, inl, inr, ◌⊎◌, false, ◌&&◌, none, some, [], ◌∷◌, ◌==◌, update_where, arith,
  Bool-cases, Option-cases,
}
use push_it_server.Models.{DeviceApplicationLink, owner_eviction}
use push_it_server.Store.{Store}
use push_it_server.Devices.{is_link, unlink}
use push_it_server.Devices.Merge.{Links, find_link}
use push_it_server.Devices.Links.{is_linked}
use push_it_server.Devices.Unlinking.{other-unlinked}
use push_it_server.Ownership.{evict_device}

find-evicted :
    (now d a : ℕ) (ls : Links)
    → is_linked d a (update_where (is_link d a) (unlink now owner_eviction) ls) ≡ false
find-evicted now d a [] = refl
find-evicted now d a (l ∷ ls) = ground (arith, find-evicted now d a ls)

-- Where a device has, or had, a link to the application, its eviction leaves it without an active one,
-- touches no other link of any device, and may be repeated without effect; where it never had one, it
-- is refused.
pub evict_device_lem :
    (now later application device : ℕ) (s : Store)
    → ((find_link device application s.links ≡ none)
        × (evict_device now application device s ≡ none))
      ⊎ ((t : Store) × (evict_device now application device s ≡ some t)
          × (is_linked device application t.links ≡ false)
          × (evict_device later application device t ≡ some t)
          × ((e b : ℕ)
              → ((e == device) && (b == application)) ≡ false
              → find_link e b t.links ≡ find_link e b s.links))
unfolding evict_device
evict_device_lem now later a d s = elim (Option-cases (find_link d a s.links)) [
  | inl e ↦ inl (e, rw (evict_device, e) refl)
  | inr (l, e) ↦ elim (Bool-cases l.is_active) [
    | inl h ↦
        let ls = update_where (is_link d a) (unlink now owner_eviction) s.links in
        let t : Store = record s { links = ls } in
        inr (
          t,
          rw (evict_device, e, h) refl,
          find-evicted now d a s.links,
          ground (arith, find-evicted now d a s.links, found now d a l s.links e),
          λ x b k. other-unlinked now d a x b owner_eviction s.links k,
        )
    | inr h ↦
        inr (
          s,
          rw (evict_device, e, h) refl,
          ground arith,
          rw (evict_device, e, h) refl,
          λ x b k. refl,
        )
  ]
]
  where
    found :
        (now d a : ℕ) (l : DeviceApplicationLink) (ls : Links)
        → find_link d a ls ≡ some l
        → find_link d a (update_where (is_link d a) (unlink now owner_eviction) ls)
          ≡ some (unlink now owner_eviction l)
    found now d a l [] h = absurd (ground arith)
    found now d a l (m ∷ ls) h = ground (arith, found now d a l ls)
