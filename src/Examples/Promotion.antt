-- ===== src/Examples/Promotion.antt =====
-- The command line in the usage of the script.
use text.Mathlib.Text.{◌==◌ as str_eq}
use componi_back_nest.Prelude.{◌≡◌, ◌||◌, refl, String, Bool, List, [], ◌∷◌}
use componi_back_nest.Entities.Accounts.{UserRole}
use componi_back_nest.Scripts.Promote.{Args, args, parse_args}
use componi_back_nest.Scripts.Promote.Arguments.{IsComplete, usage, parse_args-usage}

-- What starts with "--" among the words of this command line.
abbrev is_flag : String → Bool
is_flag s =
    str_eq s "--user-id"
    || str_eq s "--role"
    || str_eq s "--reason"
    || str_eq s "--confirm"
    || str_eq s "--help"

abbrev founder : Args
founder = record {
  user_id = "1";
  role = UserRole.admin;
  reason = "Founder bootstrap";
  confirm = "secret";
}

-- The flags in another order, with a word that is none.
abbrev founding : List String
founding =
    "now" ∷ "--role" ∷ "admin" ∷ "--confirm" ∷ "secret" ∷ "--reason" ∷ "Founder bootstrap"
    ∷ "--user-id" ∷ "1" ∷ []

parse_args-usage_example :
    (IsComplete founder → parse_args is_flag (usage founder) ≡ args founder)
    × (parse_args is_flag founding ≡ args founder
        → IsComplete founder × (parse_args is_flag (usage founder) ≡ args founder))
parse_args-usage_example =
    parse_args-usage is_flag founding founder
      (record { user = refl; role = refl; why = refl; secret = refl })
