-- ===== src/Lifecycle/Rules.antt =====
-- What the statechart of a notification implies.
use push_it_server.Prelude.{
  ℕ, ◌+◌, ◌≤◌, ◌<◌, ◌≡◌, refl, sym, ap, subst, ◌∙◌, ◌⊎◌, inl, inr, Bool, true, false, List, [], ◌∷◌,
  In, select, update_where, All, arith, if◌then◌else◌, Bool-cases,
}
use push_it_server.Models.{Notification, NotificationStatus}
use push_it_server.Queueing.{same_status}
use push_it_server.Lifecycle.{
  Table, IsSound, Move, Step, create, change, forget, Steps, done, after, AreBelow, IsConsistent,
}

AreBelow-weaken : (a b : ℕ) (ns : List Notification) → a ≤ b → AreBelow a ns → AreBelow b ns
AreBelow-weaken a b [] h k = tt
AreBelow-weaken a b (n ∷ ns) h k = (omega (arith, h, k.0), k.1)

AreBelow-select :
    (p : Notification → Bool) (next : ℕ) (ns : List Notification)
    → AreBelow next ns
    → AreBelow next (select p ns)
AreBelow-select p next [] k = tt
AreBelow-select p next (n ∷ ns) k = elim (Bool-cases (p n)) [
  | inl e ↦ rw e (k.0, AreBelow-select p n.id ns k.1)
  | inr e ↦
      rw e (
        AreBelow-weaken n.id next (select p ns) (omega (arith, k.0))
          (AreBelow-select p n.id ns k.1))
]

All-select :
    (P : Notification → Type 0) (p : Notification → Bool) (ns : List Notification)
    → All P ns
    → All P (select p ns)
All-select P p [] a = tt
All-select P p (n ∷ ns) a = elim (Bool-cases (p n)) [
  | inl e ↦ rw e (a.0, All-select P p ns a.1)
  | inr e ↦ rw e (All-select P p ns a.1)
]

module _ (p : Notification → Bool) (f : Notification → Notification) where
  AreBelow-update :
      (next : ℕ) (ns : List Notification)
      → ((n : Notification) → In n ns → p n ≡ true → Move n (f n))
      → AreBelow next ns
      → AreBelow next (update_where p f ns)
  AreBelow-update next [] m k = tt
  AreBelow-update next (n ∷ ns) m k = elim (Bool-cases (p n)) [
    | inl e ↦
        let i = (m n (inl refl) e).same_row in
        rw e (
          subst (λ x. x < next) (sym i) k.0,
          subst (λ x. AreBelow x (update_where p f ns)) (sym i)
              (AreBelow-update n.id ns (λ r j. m r (inr j)) k.1),
        )
    | inr e ↦ rw e (k.0, AreBelow-update n.id ns (λ r j. m r (inr j)) k.1)
  ]

  All-update :
      (ns : List Notification)
      → ((n : Notification) → In n ns → p n ≡ true → Move n (f n))
      → All IsSound ns
      → All IsSound (update_where p f ns)
  All-update [] m a = tt
  All-update (n ∷ ns) m a = elim (Bool-cases (p n)) [
    | inl e ↦ rw e ((m n (inl refl) e).sound a.0, All-update ns (λ r j. m r (inr j)) a.1)
    | inr e ↦ rw e (a.0, All-update ns (λ r j. m r (inr j)) a.1)
  ]

pub Step-IsConsistent : {s t : Table} → Step s t → IsConsistent s → IsConsistent t
Step-IsConsistent {s} {t} (create n i a e x) c = record {
  keyed = rw (e, x) (omega (arith, i), subst (λ k. AreBelow k s.rows) (sym i) c.keyed);
  sound = rw e (a, c.sound);
}
Step-IsConsistent {s} {t} (change p f m e x) c = record {
  keyed = rw (e, x) (AreBelow-update p f s.next s.rows m c.keyed);
  sound = rw e (All-update p f s.rows m c.sound);
}
Step-IsConsistent {s} {t} (forget p e x) c = record {
  keyed = rw (e, x) (AreBelow-select p s.next s.rows c.keyed);
  sound = rw e (All-select IsSound p s.rows c.sound);
}

pub Steps-IsConsistent : {s t : Table} → Steps s t → IsConsistent s → IsConsistent t
Steps-IsConsistent {s} {t} (done e x) c = record {
  keyed = subst (λ k. AreBelow k t.rows) x (subst (AreBelow s.next) e c.keyed);
  sound = subst (All IsSound) e c.sound;
}
Steps-IsConsistent (after a r) c = Steps-IsConsistent r (Step-IsConsistent a c)

moved : {s t w : Table} → s.rows ≡ t.rows → s.next ≡ t.next → Step t w → Step s w
moved e x (create n i q g z) =
    create n (i ∙ sym x) q (g ∙ ap (λ ns. n ∷ ns) (sym e)) (z ∙ ap (λ k. k + 1) (sym x))
moved e x (change p f q g z) =
    change p f (λ n j h. q n (subst (λ ns. In n ns) e j) h) (g ∙ ap (update_where p f) (sym e))
      (z ∙ sym x)
moved e x (forget p g z) = forget p (g ∙ ap (select p) (sym e)) (z ∙ sym x)

pub Steps-trans : {s t u : Table} → Steps s t → Steps t u → Steps s u
Steps-trans (done e x) (done f y) = done (e ∙ f) (x ∙ y)
Steps-trans (done e x) (after a r) = after (moved e x a) r
Steps-trans (after a r) q = after a (Steps-trans r q)

pub In-below :
    (next : ℕ) (ns : List Notification) (n : Notification)
    → AreBelow next ns
    → In n ns
    → n.id < next
In-below next [] n k i = elim i [ ]
In-below next (r ∷ ns) n k (inl e) = subst (λ x. x.id < next) (sym e) k.0
In-below next (r ∷ ns) n k (inr i) = omega (arith, k.0, In-below r.id ns n k.1 i)

-- One row has a key.
pub In-unique :
    (next : ℕ) (ns : List Notification) (n m : Notification)
    → AreBelow next ns
    → In n ns
    → In m ns
    → m.id ≡ n.id
    → m ≡ n
In-unique next [] n m k i j e = elim i [ ]
In-unique next (r ∷ ns) n m k (inl p) (inl q) e = q ∙ sym p
In-unique next (r ∷ ns) n m k (inl p) (inr j) e =
    absurd (omega (arith, e, ap (λ (x : Notification). x.id) p, In-below r.id ns m k.1 j))
In-unique next (r ∷ ns) n m k (inr i) (inl q) e =
    absurd (omega (arith, e, ap (λ (x : Notification). x.id) q, In-below r.id ns n k.1 i))
In-unique next (r ∷ ns) n m k (inr i) (inr j) e = In-unique r.id ns n m k.1 i j e

pub In-select :
    (p : Notification → Bool) (ns : List Notification) (n : Notification)
    → In n (select p ns)
    → In n ns
In-select p [] n i = i
In-select p (r ∷ ns) n i = elim (Bool-cases (p r)) [
  | inl e ↦ elim (subst (In n) (ap (λ b. if b then r ∷ select p ns else select p ns) e) i) [
    | inl q ↦ inl q
    | inr j ↦ inr (In-select p ns n j)
  ]
  | inr e ↦
      inr
        (In-select p ns n (subst (In n) (ap (λ b. if b then r ∷ select p ns else select p ns) e) i))
]

-- where an updated row comes from
pub In-update :
    (p : Notification → Bool) (f : Notification → Notification) (ns : List Notification)
    (m : Notification)
    → In m (update_where p f ns)
    → (n : Notification) × In n ns × (((p n ≡ false) × (m ≡ n)) ⊎ ((p n ≡ true) × (m ≡ f n)))
In-update p f [] m i = elim i [ ]
In-update p f (r ∷ ns) m (inl e) = elim (Bool-cases (p r)) [
  | inl h ↦ (r, inl refl, inr (h, e ∙ ap (λ b. if b then f r else r) h))
  | inr h ↦ (r, inl refl, inl (h, e ∙ ap (λ b. if b then f r else r) h))
]
In-update p f (r ∷ ns) m (inr i) = let (n, j, q) = In-update p f ns m i in (n, inr j, q)

pub same_status_self : (a : NotificationStatus) → same_status a a ≡ true
same_status_self a = ground arith
