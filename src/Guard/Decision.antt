-- ===== src/Guard/Decision.antt =====
-- What the guard lets pass.
use wealth_track.Prelude.{
  ◌≡◌, ◌⊎◌, refl, Bool, true, false, List, [], ◌∷◌, Option, none, some, All, all, any, not, arith,
  Bool-cases, inl, inr,
}
use wealth_track.Prelude.Text.{Text, includes}
use wealth_track.Prelude.Action.{Result, ok, err, unauthorized, forbidden}
use wealth_track.Guard.{
  Headers, HeaderActor, permissions_of, first_of, given, with_actor, can_activate,
}

all-All : {A : Type 0} (p : A → Bool) (xs : List A) → all p xs ≡ true → All (λ x. p x ≡ true) xs
all-All p [] h = tt
all-All p (x ∷ xs) h = (ground arith, all-All p xs (ground arith))

any_of_all-false :
    {A : Type 0} (p : A → Bool) (xs : List A) → all p xs ≡ false → any (λ x. not (p x)) xs ≡ true
any_of_all-false p [] h = cc
any_of_all-false p (x ∷ xs) h = ground (arith, any_of_all-false p xs)

-- Whether anything is required.
abbrev pub has_some : List Text → Bool
has_some [] = false
has_some (r ∷ required) = true

-- How the guard decides: the cases exclude one another.
pub data Passes (required : List Text) (headers : Headers)
    : Result (Option HeaderActor) → Type 0 where
  free : required ≡ [] → Passes required headers (ok none)
  allowed :
      (actor : HeaderActor)
      → has_some required ≡ true
      → given (first_of headers.actor_id) ≡ some actor.actor_id
      → given (first_of headers.actor_type) ≡ some actor.actor_type
      → actor.session_id ≡ first_of headers.session_id
      → actor.permissions ≡ permissions_of headers.permissions
      → All (λ r. includes (permissions_of headers.permissions) r ≡ true) required
      → Passes required headers (ok (some actor))
  anonymous :
      has_some required ≡ true
      → (given (first_of headers.actor_id) ≡ none) ⊎ (given (first_of headers.actor_type) ≡ none)
      → Passes required headers (err (unauthorized "Missing actor headers"))
  lacking :
      (id actor_type : Text)
      → given (first_of headers.actor_id) ≡ some id
      → given (first_of headers.actor_type) ≡ some actor_type
      → any (λ r. not (includes (permissions_of headers.permissions) r)) required ≡ true
      → Passes required headers (err (forbidden "Missing required permission"))

with_actor-Passes :
    (required : List Text) (headers : Headers) (id actor_type : Option Text)
    → has_some required ≡ true
    → given (first_of headers.actor_id) ≡ id
    → given (first_of headers.actor_type) ≡ actor_type
    → Passes required headers (with_actor required headers id actor_type)
unfolding with_actor
with_actor-Passes required headers none actor_type n e f = anonymous n (inl e)
with_actor-Passes required headers (some id) none n e f = anonymous n (inr f)
with_actor-Passes required headers (some id) (some actor_type) n e f =
    elim (Bool-cases (all (includes (permissions_of headers.permissions)) required)) [
      | inl h ↦ rw h (allowed _ n e f refl refl (all-All _ required h))
      | inr h ↦ rw h (lacking id actor_type e f (any_of_all-false _ required h))
    ]

-- The guard lets a request pass when nothing is required. Otherwise it throws that headers are missing
-- for a request without an identifier or a type of the actor; it throws that a permission is missing
-- for one with both, when the permissions of its header lack a required one; and it puts the actor
-- into the request, with the identifier, the type, the session and the permissions of the headers,
-- when they have every required one.
pub can_activate-Passes :
    (required : List Text) (headers : Headers)
    → Passes required headers (can_activate required headers)
unfolding can_activate
can_activate-Passes [] headers = free refl
can_activate-Passes (r ∷ required) headers =
    with_actor-Passes (r ∷ required) headers _ _ refl refl refl
