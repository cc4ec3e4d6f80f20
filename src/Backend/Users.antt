-- ===== src/Backend/Users.antt =====
-- accounts/permissions.py: who a request is for, and what it may do. A user's id is the text of its
-- UUID; a path that is no UUID finds no user by id.
use fox_runner_server.Prelude.{String, none, some, Bool, ◌||◌, List, find, str_eq, if◌then◌else◌}
use fox_runner_server.Backend.Exec.{Reply, done, http}

pub record User : Type 0 where
  pub id : String
  pub email : String
  pub is_superuser : Bool
  pub is_active : Bool
  pub is_verified : Bool
  pub timezone_name : String

unfoldable pub require_superuser : User → Reply (Unit {0})
require_superuser user = if user.is_superuser then done tt else http 403 "Superuser requis."

unfoldable pub by_email : List User → String → Reply User
by_email users user_id = elim (find (λ (u : User). str_eq u.email user_id) users) [
  | none ↦ http 404 "Utilisateur introuvable."
  | some u ↦ done u
]

unfoldable pub resolve_user : List User → String → Reply User
resolve_user users user_id = elim (find (λ (u : User). str_eq u.id user_id) users) [
  | none ↦ by_email users user_id
  | some u ↦ done u
]

abbrev pub scope_refused : Reply (Unit {0})
scope_refused = http 403 "Acces utilisateur refuse."

unfoldable pub require_user_scope : List User → String → User → Reply (Unit {0})
require_user_scope users user_id actor =
    if actor.is_superuser then done tt else elim (resolve_user users user_id) [
      | http _ _ ↦ scope_refused
      | done target ↦ if str_eq target.id actor.id then done tt else scope_refused
    ]

unfoldable pub require_self_or_superuser : User → User → Reply (Unit {0})
require_self_or_superuser actor target =
    if actor.is_superuser || str_eq actor.id target.id
    then done tt
    else http 403 "Acces interdit a cet utilisateur."
