-- ===== src/Core/Memory/Sorting.antt =====
-- An order that `sort.Slice` may leave a slice in: insertion behind newer users.
use mathlib.Core.List.{Perm}
use mathlib.Core.List.Perm
use maxwell_go_spine.Prelude.{
  ◌≤◌, List, [], ◌∷◌, All, leb, leb→le, if◌then◌else◌, Bool-cases, inl, inr, arith,
}
use maxwell_go_spine.Core.User.{User}
use maxwell_go_spine.Core.Memory.Listing.{NewestFirst, Arranges}

place : User → List User → List User
place u [] = u ∷ []
place u (v ∷ vs) =
    let rest = place u vs in if leb v.created_at u.created_at then u ∷ v ∷ vs else v ∷ rest

unfoldable pub newest_first_order : List User → List User
unfolding place
newest_first_order [] = []
newest_first_order (u ∷ us) = place u (newest_first_order us)

place-perm : (u : User) (l : List User) → Perm (place u l) (u ∷ l)
unfolding place
place-perm u [] = Perm.refl (u ∷ [])
place-perm u (v ∷ vs) = elim (Bool-cases (leb v.created_at u.created_at)) [
  | inl e ↦ rw e (Perm.refl (u ∷ v ∷ vs))
  | inr e ↦ rw e (Perm.trans (Perm.cons v (place-perm u vs)) (Perm.swap u v vs))
]

abbrev Older : User → User → Type 0
Older u v = v.created_at ≤ u.created_at

All-trans : (u v : User) (l : List User) → Older v u → All (Older u) l → All (Older v) l
All-trans u v [] h a = tt
All-trans u v (w ∷ l) h a = (omega arith, All-trans u v l h a.1)

All-place : (u v : User) (l : List User) → Older v u → All (Older v) l → All (Older v) (place u l)
unfolding place
All-place u v [] h a = (h, tt)
All-place u v (w ∷ l) h a = elim (Bool-cases (leb w.created_at u.created_at)) [
  | inl e ↦ rw e (h, a)
  | inr e ↦ rw e (a.0, All-place u v l h a.1)
]

place-NewestFirst : (u : User) (l : List User) → NewestFirst l → NewestFirst (place u l)
unfolding place
place-NewestFirst u [] s = (tt, tt)
place-NewestFirst u (v ∷ l) s = elim (Bool-cases (leb v.created_at u.created_at)) [
  | inl e ↦ let h = leb→le v.created_at u.created_at e in rw e ((h, All-trans v u l h s.0), s)
  | inr e ↦
      let h : u.created_at ≤ v.created_at = ground arith in
      rw e (All-place u v l h s.0, place-NewestFirst u l s.1)
]

newest_first_order-perm : (l : List User) → Perm (newest_first_order l) l
unfolding newest_first_order
newest_first_order-perm [] = Perm.refl []
newest_first_order-perm (u ∷ us) =
    Perm.trans (place-perm u (newest_first_order us)) (Perm.cons u (newest_first_order-perm us))

newest_first_order-NewestFirst : (l : List User) → NewestFirst (newest_first_order l)
unfolding newest_first_order
newest_first_order-NewestFirst [] = tt
newest_first_order-NewestFirst (u ∷ us) =
    place-NewestFirst u (newest_first_order us) (newest_first_order-NewestFirst us)

pub newest_first_order-Arranges : Arranges (λ n. newest_first_order)
newest_first_order-Arranges = record {
  same_users = λ n. newest_first_order-perm;
  newest_first = λ n. newest_first_order-NewestFirst;
}
