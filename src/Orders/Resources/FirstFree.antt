-- ===== src/Orders/Resources/FirstFree.antt =====
-- The choice of a work post among those of a branch.
use wash_flow.Prelude.{
  ℕ, ◌≡◌, ◌↔◌, refl, inl, inr, List, [], ◌∷◌, ◌++◌, arith, All, ok, err, Error, ap, sym, ◌∙◌,
  conflict, bad_request, Result-cases,
}
use wash_flow.Database.{Db, WorkPost}
use wash_flow.Scheduling.{reserve_slot}
use wash_flow.Orders.Employees.{Reservation}
use wash_flow.Orders.Resources.{reserve_post, first_free_post}

abbrev pub overlaps : Error
overlaps = conflict "The requested time slot overlaps with an existing booking"

-- The reservation of the post was refused as a conflict.
abbrev pub IsTaken : Db → Reservation → WorkPost → Type 0
IsTaken db params wp = reserve_post db params wp.id ≡ err overlaps

reserve_post-err :
    (db : Db) (params : Reservation) (id : ℕ) (e : Error)
    → reserve_post db params id ≡ err e
    → e ≡ overlaps
unfolding reserve_post reserve_slot
reserve_post-err db params id e h = ground arith

-- The posts before the one taken were refused, and it was not.
abbrev pub IsFirstFree : Db → Reservation → List WorkPost → ℕ → Type 0
IsFirstFree db params wps id =
    (before after : List WorkPost) × (wp : WorkPost) × (wps ≡ before ++ (wp ∷ after))
    × All (IsTaken db params) before
    × (reserve_post db params wp.id ≡ ok tt)
    × (wp.id ≡ id)

IsFirstFree-skip :
    (db : Db) (params : Reservation) (wp : WorkPost) (wps : List WorkPost) (id : ℕ)
    → IsTaken db params wp
    → IsFirstFree db params wps id
    → IsFirstFree db params (wp ∷ wps) id
IsFirstFree-skip db params wp wps id taken (before, after, free, split, all, reserved, same) =
    (wp ∷ before, after, free, ap (λ l. wp ∷ l) split, (taken, all), reserved, same)

first_free_post_free :
    (db : Db) (params : Reservation) (wp : WorkPost) (wps : List WorkPost)
    → reserve_post db params wp.id ≡ ok tt
    → first_free_post db params (wp ∷ wps) ≡ ok wp.id
unfolding first_free_post
first_free_post_free db params wp wps h = ground arith

first_free_post_taken :
    (db : Db) (params : Reservation) (wp : WorkPost) (wps : List WorkPost)
    → IsTaken db params wp
    → first_free_post db params (wp ∷ wps) ≡ first_free_post db params wps
unfolding first_free_post
first_free_post_taken db params wp wps h = ground arith

-- The loop over the work posts takes the first one that can be reserved, after those before it were
-- all refused for a conflict, and it gives up exactly when every post was.
pub first_free_post-first :
    (db : Db) (params : Reservation) (wps : List WorkPost)
    → ((id : ℕ) → first_free_post db params wps ≡ ok id → IsFirstFree db params wps id)
      × ((first_free_post db params wps
            ≡ err (bad_request "No available work posts for the requested time"))
          ↔ All (IsTaken db params) wps)
first_free_post-first db params [] =
    unfold first_free_post in ((λ id h. cc), ((λ _. tt), (λ _. refl)))
first_free_post-first db params (wp ∷ wps) = elim (Result-cases (reserve_post db params wp.id)) [
  | inl (tt, free) ↦
      let taken = first_free_post_free db params wp wps free in
      (
        λ id h. ([], wps, wp, refl, tt, free, ground arith),
        (λ h. absurd (ground arith), λ (all, _). absurd (ground arith)),
      )
  | inr (e, refused) ↦
      let taken : IsTaken db params wp =
        refused ∙ ap err (reserve_post-err db params wp.id e refused) in
      let passed = first_free_post_taken db params wp wps taken in
      let (first, (out, none_left)) = first_free_post-first db params wps in
      (
        λ id h. IsFirstFree-skip db params wp wps id taken (first id (sym passed ∙ h)),
        (λ h. (taken, out (sym passed ∙ h)), λ (_, all). passed ∙ none_left all),
      )
]
