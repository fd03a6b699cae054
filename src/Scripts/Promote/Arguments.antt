-- ===== src/Scripts/Promote/Arguments.antt =====
-- The usage of the script.
use text.Mathlib.Text.{◌==◌ as str_eq}
use componi_back_nest.Prelude.{
  ◌≡◌, refl, String, Bool, true, false, Option, none, some, subst, ap, List, [], ◌∷◌, arith,
}
use componi_back_nest.Entities.Accounts.{UserRole}
use componi_back_nest.Scripts.Promote.{
  Args, Flags, Parsed, Death, missing_user_id, missing_role, missing_reason, missing_confirm,
  invalid_role, args, died, parse_args, read_flags, set_flag, given, allowed_role, or_die,
  check_flags, and_then, no_flags,
}

abbrev pub role_text : UserRole → String
role_text UserRole.user = "user"
role_text UserRole.moderator = "moderator"
role_text UserRole.admin = "admin"

-- The command line of the usage.
abbrev pub usage : Args → List String
usage a =
    "--user-id"
    ∷ a.user_id
    ∷ "--role"
    ∷ role_text a.role
    ∷ "--reason"
    ∷ a.reason
    ∷ "--confirm"
    ∷ a.confirm
    ∷ []

text_given : (role : UserRole) → str_eq (role_text role) "" ≡ false
text_given UserRole.user = refl
text_given UserRole.moderator = refl
text_given UserRole.admin = refl

text_allowed : (role : UserRole) → allowed_role (role_text role) ≡ some role
unfolding allowed_role
text_allowed UserRole.user = refl
text_allowed UserRole.moderator = refl
text_allowed UserRole.admin = refl

-- The texts that an operator has to give.
pub record IsComplete (a : Args) : Type 0 where
  pub user : str_eq a.user_id "" ≡ false
  pub why : str_eq a.reason "" ≡ false
  pub secret : str_eq a.confirm "" ≡ false

-- The flags of the script are flags to `startsWith`.
pub record HasFlags (is_flag : String → Bool) : Type 0 where
  pub user : is_flag "--user-id" ≡ true
  pub role : is_flag "--role" ≡ true
  pub why : is_flag "--reason" ≡ true
  pub secret : is_flag "--confirm" ≡ true

-- The result, or another value.
result_or : {A : Type 0} → A → Parsed A → A
result_or a (args b) = b
result_or a (died d) = a

-- What holds of the result, if there is one.
record Holds {A : Type 0} (P : A → Type 0) (r : Parsed A) : Type 0 where
  result : (a : A) → r ≡ args a → P a

args-Holds : {A : Type 0} (P : A → Type 0) (a : A) → P a → Holds P (args a)
unfolding result_or
args-Holds P a h = record { result = λ b e. subst P (ap (result_or a) e) h }

died-Holds : {A : Type 0} (P : A → Type 0) (d : Death) → Holds P (died d)
died-Holds P d = record { result = λ b e. ground (arith, e) }

or_die_keeps :
    {A B : Type 0} (P : B → Type 0) (o : Option A) (d : Death) (k : A → Parsed B)
    → ((a : A) → o ≡ some a → Holds P (k a))
    → Holds P (or_die o d k)
unfolding or_die
or_die_keeps P none d k h = died-Holds P d
or_die_keeps P (some a) d k h = h a refl

given_text : (o : Option String) (s : String) → given o ≡ some s → str_eq s "" ≡ false
unfolding given
given_text none s e = ground (arith, e)
given_text (some t) s e = ground (arith, e)

check_flags-IsComplete : (out : Flags) → Holds IsComplete (check_flags out)
unfolding check_flags
check_flags-IsComplete out =
    or_die_keeps IsComplete (given out.user_id) missing_user_id _ (λ user_id user.
      or_die_keeps IsComplete (given out.role) missing_role _ (λ role named.
        or_die_keeps IsComplete (given out.reason) missing_reason _ (λ reason why.
          or_die_keeps IsComplete (given out.confirm) missing_confirm _ (λ confirm secret.
            or_die_keeps IsComplete (allowed_role role) (invalid_role role) _ (λ allowed is_role.
              args-Holds IsComplete _ (record {
                user = given_text out.user_id user_id user;
                why = given_text out.reason reason why;
                secret = given_text out.confirm confirm secret;
              }))))))

read-IsComplete : (r : Parsed Flags) → Holds IsComplete (and_then r check_flags)
unfolding and_then
read-IsComplete (died d) = died-Holds IsComplete d
read-IsComplete (args out) = check_flags-IsComplete out

parse_args-IsComplete :
    (is_flag : String → Bool) (argv : List String) (a : Args)
    → parse_args is_flag argv ≡ args a
    → IsComplete a
unfolding parse_args
parse_args-IsComplete is_flag argv a e =
    (read-IsComplete (read_flags is_flag argv no_flags)).result a e

usage_parses :
    (is_flag : String → Bool) (a : Args)
    → HasFlags is_flag
    → IsComplete a
    → parse_args is_flag (usage a) ≡ args a
unfolding parse_args read_flags set_flag given allowed_role or_die check_flags and_then
usage_parses is_flag a f h =
    rw
      (
        f.user,
        f.role,
        f.why,
        f.secret,
        h.user,
        h.why,
        h.secret,
        text_given a.role,
        text_allowed a.role,
      )
      refl

-- If the four flags of the script are flags to `startsWith`: arguments whose texts are not empty
-- parse from their usage line, and the texts of the arguments of any command line that parses are
-- not empty, so that these parse again from their usage line.
pub parse_args-usage :
    (is_flag : String → Bool) (argv : List String) (a : Args)
    → HasFlags is_flag
    → (IsComplete a → parse_args is_flag (usage a) ≡ args a)
      × (parse_args is_flag argv ≡ args a → IsComplete a × (parse_args is_flag (usage a) ≡ args a))
parse_args-usage is_flag argv a f = (
  usage_parses is_flag a f,
  λ e. let h = parse_args-IsComplete is_flag argv a e in (h, usage_parses is_flag a f h),
)
