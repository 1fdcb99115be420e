-- ===== src/Guard.antt =====
-- apps/api/src/common/guards/permission.guard.ts: the guard that reads the actor from the headers.
pub mod Decision
use wealth_track.Prelude.{
  ℕ, Bool, true, false, not, ◌&&◌, ◌||◌, List, [], ◌∷◌, ◌++◌, map, Option, none, some, or_else,
  filter, all, ◌==◌, if◌then◌else◌,
}
use wealth_track.Prelude.Text.{Text, codes, is_empty, includes, trim}
use wealth_track.Prelude.Action.{Result, ok, err, unauthorized, forbidden}

-- A header: missing, given once, or given several times.
pub data Header : Type 0 where
  missing : Header
  once : Text → Header
  several : List Text → Header

pub record Headers : Type 0 where
  pub actor_id : Header
  pub actor_type : Header
  pub session_id : Header
  pub permissions : Header

-- `Array.isArray(header) ? header[0] : header`
unfoldable pub first_of : Header → Option Text
first_of missing = none
first_of (once s) = some s
first_of (several []) = none
first_of (several (s ∷ ss)) = some s

-- `values.join(',')`
unfoldable pub join : List Text → Text
join [] = []
join (s ∷ []) = s
join (s ∷ t ∷ ss) = let rest = join (t ∷ ss) in s ++ b',' ∷ rest

unfoldable pub raw_permissions : Header → Text
unfolding join
raw_permissions missing = []
raw_permissions (once s) = s
raw_permissions (several ss) = join ss

-- `s.split(',')`
abbrev add_to_first : ℕ → List Text → List Text
add_to_first c [] = (c ∷ []) ∷ []
add_to_first c (s ∷ ss) = (c ∷ s) ∷ ss

unfoldable pub split : Text → List Text
split [] = [] ∷ []
split (c ∷ s) = let rest = split s in if c == b',' then [] ∷ rest else add_to_first c rest

unfoldable pub permissions_of : Header → List Text
unfolding raw_permissions split trim
permissions_of header = filter (λ s. not (is_empty s)) (map trim (split (raw_permissions header)))

-- The actor that the guard puts into the request. Its type is the text of the header.
pub record HeaderActor : Type 0 where
  pub actor_id : Text
  pub actor_type : Text
  pub session_id : Option Text
  pub permissions : List Text

abbrev given : Option Text → Option Text
given none = none
given (some s) = if is_empty s then none else some s

with_actor : List Text → Headers → Option Text → Option Text → Result (Option HeaderActor)
unfolding permissions_of first_of
with_actor required headers none actor_type = err (unauthorized "Missing actor headers")
with_actor required headers (some id) none = err (unauthorized "Missing actor headers")
with_actor required headers (some id) (some actor_type) =
    let permissions = permissions_of headers.permissions in
    if all (includes permissions) required
    then ok (
        some (record {
          actor_id = id;
          actor_type = actor_type;
          session_id = first_of headers.session_id;
          permissions = permissions;
        }))
    else err (forbidden "Missing required permission")

-- `canActivate`: the actor that is put into the request, if one is, or the exception.
unfoldable pub can_activate : List Text → Headers → Result (Option HeaderActor)
unfolding first_of with_actor
can_activate [] headers = ok none
can_activate (r ∷ required) headers =
    with_actor (r ∷ required) headers (given (first_of headers.actor_id))
      (given (first_of headers.actor_type))
