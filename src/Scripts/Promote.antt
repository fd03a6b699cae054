-- ===== src/Scripts/Promote.antt =====
-- src/scripts/admin-promote.ts: the arguments of the script. `startsWith('--')` is a parameter.
pub mod Arguments
use text.Mathlib.Text.{◌==◌ as str_eq}
use componi_back_nest.Prelude.{
  String, Bool, true, false, Option, none, some, List, [], ◌∷◌, if◌then◌else◌,
}
use componi_back_nest.Entities.Accounts.{UserRole}

pub record Args : Type 0 where
  pub user_id : String
  pub role : UserRole
  pub reason : String
  pub confirm : String

-- Partial<Args>, in which the role is any text.
pub record Flags : Type 0 where
  pub user_id : Option String
  pub role : Option String
  pub reason : Option String
  pub confirm : Option String

-- What the process ends with.
pub data Death : Type 0 where
  unknown_flag : String → Death
  missing_user_id : Death
  missing_role : Death
  missing_reason : Death
  missing_confirm : Death
  invalid_role : String → Death

pub data Parsed (A : Type 0) : Type 0 where
  args : A → Parsed A
  died : Death → Parsed A

abbrev pub no_flags : Flags
no_flags = record { user_id = none; role = none; reason = none; confirm = none }

-- The switch. None stands for its default.
unfoldable pub set_flag : String → Option String → Flags → Option Flags
set_flag k v out =
    if str_eq k "--user-id"
    then some (record out { user_id = v })
    else if str_eq k "--role"
    then some (record out { role = v })
    else if str_eq k "--reason"
    then some (record out { reason = v })
    else if str_eq k "--confirm"
    then some (record out { confirm = v })
    else none

-- The loop over argv; a flag takes the next argument with it.
unfoldable pub read_flags : (String → Bool) → List String → Flags → Parsed Flags
unfolding set_flag
read_flags is_flag [] out = args out
read_flags is_flag (k ∷ []) out = elim (is_flag k) [
  | false ↦ args out
  | true ↦ elim (set_flag k none out) [ none ↦ died (unknown_flag k) | some out' ↦ args out' ]
]
read_flags is_flag (k ∷ v ∷ rest) out = elim (is_flag k) [
  | false ↦ read_flags is_flag (v ∷ rest) out
  | true ↦ elim (set_flag k (some v) out) [
    | none ↦ died (unknown_flag k)
    | some out' ↦ read_flags is_flag rest out'
  ]
]

-- `!s`: no text, or the empty one.
unfoldable pub given : Option String → Option String
given none = none
given (some s) = if str_eq s "" then none else some s

-- ALLOWED_ROLES.includes(role)
unfoldable pub allowed_role : String → Option UserRole
allowed_role s =
    if str_eq s "user"
    then some UserRole.user
    else if str_eq s "moderator"
    then some UserRole.moderator
    else if str_eq s "admin"
    then some UserRole.admin
    else none

-- `if (!value) die(...)`
unfoldable pub or_die : {A B : Type 0} → Option A → Death → (A → Parsed B) → Parsed B
or_die none d k = died d
or_die (some a) d k = k a

unfoldable pub check_flags : Flags → Parsed Args
unfolding or_die
check_flags out = or_die (given out.user_id) missing_user_id (λ user_id.
    or_die (given out.role) missing_role (λ role.
      or_die (given out.reason) missing_reason (λ reason.
        or_die (given out.confirm) missing_confirm (λ confirm.
          or_die (allowed_role role) (invalid_role role) (λ allowed.
            args (record {
              user_id = user_id;
              role = allowed;
              reason = reason;
              confirm = confirm;
            }))))))

unfoldable pub and_then : {A B : Type 0} → Parsed A → (A → Parsed B) → Parsed B
and_then (died d) k = died d
and_then (args a) k = k a

unfoldable pub parse_args : (String → Bool) → List String → Parsed Args
unfolding and_then
parse_args is_flag argv = and_then (read_flags is_flag argv no_flags) check_flags
