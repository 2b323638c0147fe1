-- ===== src/SenderPolicy/Text.antt =====
-- The operations of Python's str that applications/inbound_sender_policy.py uses.
use Prim.Native.String.{String, [], ◌∷◌, ◌++◌}
use Prim.Native.String.append
use push_it_server.Prelude.{
  ◌≡◌, refl, sym, ap, ◌∙◌, ◌↔◌, inl, inr, Bool, true, ◌||◌, Option, none, some, str_eq, eq_iff,
  if◌then◌else◌, Bool-cases, arith,
}

-- `rpartition("@")[2]`, and `none` where there is no "@"
unfoldable pub after_at : String → Option String
after_at [] = none
after_at (c ∷ s) = elim (after_at s) [
  | some domain ↦ some domain
  | none ↦ if str_eq (c ∷ []) "@" then some s else none
]

-- `endswith`
unfoldable pub ends_with : String → String → Bool
ends_with [] t = str_eq [] t
ends_with (c ∷ s) t = let rest = ends_with s t in str_eq (c ∷ s) t || rest

-- A text ends with another exactly when it is some text followed by it.
pub ends_with_iff : (s t : String) → (ends_with s t ≡ true) ↔ ((p : String) × (s ≡ p ++ t))
unfolding ends_with
ends_with_iff s t = (split s, λ (p, e). ap (λ u. ends_with u t) e ∙ joined p)
  where
    split : (u : String) → ends_with u t ≡ true → (p : String) × (u ≡ p ++ t)
    split [] h = ([], (eq_iff [] t).0 h ∙ sym (append.nil t))
    split (c ∷ u) h = elim (Bool-cases (str_eq (c ∷ u) t)) [
      | inl e ↦ ([], (eq_iff (c ∷ u) t).0 e ∙ sym (append.nil t))
      | inr e ↦
          let (p, q) = split u (ground arith) in
          (c ∷ p, ap (λ v. c ∷ v) q ∙ sym (append.cons c p t))
    ]

    whole : (u : String) → ends_with u u ≡ true
    whole [] = refl
    whole (c ∷ u) = rw ((eq_iff (c ∷ u) (c ∷ u)).1 refl) refl

    joined : (p : String) → ends_with (p ++ t) t ≡ true
    joined [] = ap (λ v. ends_with v t) (append.nil t) ∙ whole t
    joined (c ∷ p) = ap (λ v. ends_with v t) (append.cons c p t) ∙ ground (arith, joined p)
