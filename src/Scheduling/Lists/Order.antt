-- ===== src/Scheduling/Lists/Order.antt =====
-- The ordering of lists in notifications/scheduling.py.
use push_it_server.Prelude.{
  ℕ, ◌+◌, ◌≡◌, refl, ap, ◌∙◌, inl, inr, Bool, true, false, ◌||◌, Option, List, [], ◌∷◌, ◌++◌, arith,
  if◌then◌else◌, select, length, All, is_some, is_none, Bool-cases,
}
use push_it_server.Models.{Notification}
use push_it_server.Scheduling.Lists.{insert_by, sort_by, in_order, order_notifications_by_effective}

-- every member is before every later one
abbrev pub AreOrdered : (Notification → Notification → Bool) → List Notification → Type 0
AreOrdered before [] = Unit
AreOrdered before (n ∷ ns) = All (λ m. before n m ≡ true) ns × AreOrdered before ns

-- The order of the list: those with an instant first, by the key.
abbrev pub comes_before : (ℕ → Option ℕ) → Bool → Notification → Notification → Bool
comes_before effective descending a b =
    if is_none (effective a.id)
    then is_none (effective b.id)
    else is_none (effective b.id) || in_order effective descending a b

module _ (before : Notification → Notification → Bool)
    (total : (a b : Notification) → before a b ≡ false → before b a ≡ true)
    (trans : (a b c : Notification)
      → before a b ≡ true
      → before b c ≡ true
      → before a c ≡ true) where
  All-insert_by :
      (P : Notification → Type 0) (x : Notification) (ns : List Notification)
      → P x
      → All P ns
      → All P (insert_by before x ns)
  All-insert_by P x [] h a = (h, tt)
  All-insert_by P x (y ∷ ys) h a = elim (Bool-cases (before x y)) [
    | inl e ↦ rw e (h, a)
    | inr e ↦ rw e (a.0, All-insert_by P x ys h a.1)
  ]

  All-trans :
      (x y : Notification) (ns : List Notification)
      → before x y ≡ true
      → All (λ m. before y m ≡ true) ns
      → All (λ m. before x m ≡ true) ns
  All-trans x y [] e a = tt
  All-trans x y (n ∷ ns) e a = (trans x y n e a.0, All-trans x y ns e a.1)

  insert_by-AreOrdered :
      (x : Notification) (ns : List Notification)
      → AreOrdered before ns
      → AreOrdered before (insert_by before x ns)
  insert_by-AreOrdered x [] o = (tt, tt)
  insert_by-AreOrdered x (y ∷ ys) o = elim (Bool-cases (before x y)) [
    | inl e ↦ rw e ((e, All-trans x y ys e o.0), o)
    | inr e ↦ rw e (
      All-insert_by (λ m. before y m ≡ true) x ys (total x y e) o.0,
      insert_by-AreOrdered x ys o.1,
    )
  ]

  sort_by-AreOrdered : (ns : List Notification) → AreOrdered before (sort_by before ns)
  sort_by-AreOrdered [] = tt
  sort_by-AreOrdered (n ∷ ns) = insert_by-AreOrdered n (sort_by before ns) (sort_by-AreOrdered ns)

  All-sort_by :
      (P : Notification → Type 0) (ns : List Notification) → All P ns → All P (sort_by before ns)
  All-sort_by P [] a = tt
  All-sort_by P (n ∷ ns) a = All-insert_by P n (sort_by before ns) a.0 (All-sort_by P ns a.1)

in_order_total :
    (effective : ℕ → Option ℕ) (descending : Bool) (a b : Notification)
    → in_order effective descending a b ≡ false
    → in_order effective descending b a ≡ true
in_order_total effective true a b h = ground arith
in_order_total effective false a b h = ground arith

in_order_trans :
    (effective : ℕ → Option ℕ) (descending : Bool) (a b c : Notification)
    → in_order effective descending a b ≡ true
    → in_order effective descending b c ≡ true
    → in_order effective descending a c ≡ true
in_order_trans effective true a b c h k = ground arith
in_order_trans effective false a b c h k = ground arith

select-All :
    (p : Notification → Bool) (ns : List Notification) → All (λ n. p n ≡ true) (select p ns)
select-All p [] = tt
select-All p (n ∷ ns) = elim (Bool-cases (p n)) [
  | inl e ↦ rw e (e, select-All p ns)
  | inr e ↦ rw e (select-All p ns)
]

module _ (effective : ℕ → Option ℕ) (descending : Bool) where
  IsAbsent : Notification → Type 0
  IsAbsent n = is_none (effective n.id) ≡ true

  IsGiven : Notification → Type 0
  IsGiven n = is_some (effective n.id) ≡ true

  IsAbsent-AreOrdered :
      (ns : List Notification) → All IsAbsent ns → AreOrdered (comes_before effective descending) ns
  unfolding IsAbsent
  IsAbsent-AreOrdered [] a = tt
  IsAbsent-AreOrdered (n ∷ ns) a = (later ns a.1, IsAbsent-AreOrdered ns a.1)
    where
      later :
          (ms : List Notification)
          → All IsAbsent ms
          → All (λ m. comes_before effective descending n m ≡ true) ms
      later [] b = tt
      later (m ∷ ms) b = (rw (a.0, b.0) refl, later ms b.1)

  append-AreOrdered :
      (front back : List Notification)
      → All IsGiven front
      → AreOrdered (in_order effective descending) front
      → All IsAbsent back
      → AreOrdered (comes_before effective descending) (front ++ back)
  unfolding IsAbsent IsGiven
  append-AreOrdered [] back g o b = IsAbsent-AreOrdered back b
  append-AreOrdered (n ∷ front) back g o b =
      (later front o.0, append-AreOrdered front back g.1 o.1 b)
    where
      behind :
          (ms : List Notification)
          → All IsAbsent ms
          → All (λ m. comes_before effective descending n m ≡ true) ms
      behind [] c = tt
      behind (m ∷ ms) c = (ground (arith, g.0, c.0), behind ms c.1)

      later :
          (ms : List Notification)
          → All (λ m. in_order effective descending n m ≡ true) ms
          → All (λ m. comes_before effective descending n m ≡ true) (ms ++ back)
      later [] c = behind back b
      later (m ∷ ms) c = (ground (arith, g.0, c.0), later ms c.1)

count_insert_by :
    (before : Notification → Notification → Bool) (p : Notification → Bool) (x : Notification)
    (ns : List Notification)
    → length (select p (insert_by before x ns)) ≡ length (select p (x ∷ ns))
count_insert_by before p x [] = refl
count_insert_by before p x (y ∷ ys) = ground (arith, count_insert_by before p x ys)

count_sort_by :
    (before : Notification → Notification → Bool) (p : Notification → Bool) (ns : List Notification)
    → length (select p (sort_by before ns)) ≡ length (select p ns)
count_sort_by before p [] = refl
count_sort_by before p (n ∷ ns) =
    count_insert_by before p n (sort_by before ns) ∙ ground (arith, count_sort_by before p ns)

count_append :
    (p : Notification → Bool) (xs ys : List Notification)
    → length (select p (xs ++ ys)) ≡ length (select p xs) + length (select p ys)
count_append p [] ys = omega arith
count_append p (x ∷ xs) ys = ground (arith, count_append p xs ys)

count_split :
    (effective : ℕ → Option ℕ) (p : Notification → Bool) (ns : List Notification)
    → length (select p (select (λ n. is_some (effective n.id)) ns))
        + length (select p (select (λ n. is_none (effective n.id)) ns))
      ≡ length (select p ns)
count_split effective p [] = refl
count_split effective p (n ∷ ns) = ground (arith, count_split effective p ns)

-- The list that is returned has the given notifications, each as often as before, with those that
-- have an effective instant first, by instant and then by identifier, up or down as asked.
pub order_notifications_by_effective_lem :
    (effective : ℕ → Option ℕ) (descending : Bool) (ns : List Notification)
    (p : Notification → Bool)
    → let out = order_notifications_by_effective effective descending ns in
      AreOrdered (comes_before effective descending) out
      × (length (select p out) ≡ length (select p ns))
unfolding order_notifications_by_effective IsAbsent IsGiven
order_notifications_by_effective_lem effective descending ns p =
    let before = in_order effective descending in
    let given = select (λ (n : Notification). is_some (effective n.id)) ns in
    let absent = select (λ (n : Notification). is_none (effective n.id)) ns in
    let total = in_order_total effective descending in
    let trans = in_order_trans effective descending in
    (
      append-AreOrdered effective descending (sort_by before given) absent
          (All-sort_by before total trans (λ n. is_some (effective n.id) ≡ true) given
            (select-All (λ n. is_some (effective n.id)) ns))
          (sort_by-AreOrdered before total trans given)
          (select-All (λ n. is_none (effective n.id)) ns),
      count_append p (sort_by before given) absent
          ∙ ap (λ k. k + length (select p absent)) (count_sort_by before p given)
          ∙ count_split effective p ns,
    )
