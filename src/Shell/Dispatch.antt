-- ===== src/Shell/Dispatch.antt =====
-- `do_shell` of src/fs/shell.c from the words of a line to the command that runs.
pub mod Runs
use ios.Prelude.{
  ℕ, Bool, true, false, not, ◌&&◌, ◌||◌, List, [], ◌∷◌, Option, none, some, ◌==◌, if◌then◌else◌, ℤ,
  pos, negsuc,
}
use ios.Text.{strcmp}

pub data Command : Type 0 where
  cd mount touch fill ls format mkdir rm rmdir exit cat clear echo conn setid sendmsg encrypt
        decrypt :
      Command

-- `g_commands`: the names, and the conditions.
abbrev pub commands : List Command
commands =
    cd ∷ mount ∷ touch ∷ fill ∷ ls ∷ format ∷ mkdir ∷ rm ∷ rmdir ∷ exit ∷ cat ∷ clear ∷ echo ∷ conn
    ∷ setid ∷ sendmsg ∷ encrypt ∷ decrypt ∷ []

abbrev pub name_of : Command → List ℕ
name_of cd = b'c' ∷ b'd' ∷ []
name_of mount = b'm' ∷ b'o' ∷ b'u' ∷ b'n' ∷ b't' ∷ []
name_of touch = b't' ∷ b'o' ∷ b'u' ∷ b'c' ∷ b'h' ∷ []
name_of fill = b'f' ∷ b'i' ∷ b'l' ∷ b'l' ∷ []
name_of ls = b'l' ∷ b's' ∷ []
name_of format = b'f' ∷ b'o' ∷ b'r' ∷ b'm' ∷ b'a' ∷ b't' ∷ []
name_of mkdir = b'm' ∷ b'k' ∷ b'd' ∷ b'i' ∷ b'r' ∷ []
name_of rm = b'r' ∷ b'm' ∷ []
name_of rmdir = b'r' ∷ b'm' ∷ b'd' ∷ b'i' ∷ b'r' ∷ []
name_of exit = b'e' ∷ b'x' ∷ b'i' ∷ b't' ∷ []
name_of cat = b'c' ∷ b'a' ∷ b't' ∷ []
name_of clear = b'c' ∷ b'l' ∷ b'e' ∷ b'a' ∷ b'r' ∷ []
name_of echo = b'e' ∷ b'c' ∷ b'h' ∷ b'o' ∷ []
name_of conn = b'c' ∷ b'o' ∷ b'n' ∷ b'n' ∷ []
name_of setid = b's' ∷ b'e' ∷ b't' ∷ b'i' ∷ b'd' ∷ []
name_of sendmsg = b's' ∷ b'e' ∷ b'n' ∷ b'd' ∷ b'm' ∷ b's' ∷ b'g' ∷ []
name_of encrypt = b'e' ∷ b'n' ∷ b'c' ∷ b'r' ∷ b'y' ∷ b'p' ∷ b't' ∷ []
name_of decrypt = b'd' ∷ b'e' ∷ b'c' ∷ b'r' ∷ b'y' ∷ b'p' ∷ b't' ∷ []

-- COND_MOUNT, COND_UMOUNT, or none.
pub data Condition : Type 0 where
  needs_mount needs_umount anytime : Condition

abbrev pub condition_of : Command → Condition
condition_of mount = needs_umount
condition_of format = needs_umount
condition_of exit = anytime
condition_of clear = anytime
condition_of echo = anytime
condition_of conn = anytime
condition_of setid = anytime
condition_of sendmsg = anytime
condition_of _ = needs_mount

-- `checkConditions` gives 0.
unfoldable pub check_conditions : Bool → Condition → Bool
check_conditions mounted needs_mount = mounted
check_conditions mounted needs_umount = not mounted
check_conditions mounted anytime = true

abbrev pub same_text : List ℕ → List ℕ → Bool
same_text s t = elim (strcmp s t) [ pos n ↦ n == 0 | negsuc n ↦ false ]

-- -h or --help as the only argument.
unfoldable pub is_help : List (List ℕ) → Bool
is_help [] = false
is_help (w ∷ []) = false
is_help (w ∷ a ∷ []) =
    same_text a (b'-' ∷ b'h' ∷ []) || same_text a (b'-' ∷ b'-' ∷ b'h' ∷ b'e' ∷ b'l' ∷ b'p' ∷ [])
is_help (w ∷ a ∷ b ∷ ws) = false

abbrev pub arrow : List ℕ
arrow = b'>' ∷ []

-- The arguments and the file that the output goes to; nothing when no file follows the arrow.
pub record Parsed : Type 0 where
  pub argv : List (List ℕ)
  pub redirect : Option (List ℕ)

abbrev pub with_argument : List ℕ → Option Parsed → Option Parsed
with_argument w none = none
with_argument w (some p) = some (record { argv = w ∷ p.argv; redirect = p.redirect })

abbrev pub to_file : List (List ℕ) → Option Parsed
to_file [] = none
to_file (file ∷ ws) = some (record { argv = []; redirect = some file })

-- The loop that looks for the arrow.
unfoldable pub parse_redirect : List (List ℕ) → Option Parsed
parse_redirect [] = some (record { argv = []; redirect = none })
parse_redirect (w ∷ ws) =
    let rest = parse_redirect ws in if same_text w arrow then to_file ws else with_argument w rest

-- The loop over `g_commands`.
unfoldable pub find_command : List ℕ → List Command → Option Command
find_command name [] = none
find_command name (c ∷ cs) =
    let rest = find_command name cs in if same_text (name_of c) name then some c else rest

pub data Action : Type 0 where
  nothing unknown : Action
  run : Command → List (List ℕ) → Option (List ℕ) → Action

abbrev pub action_of : Bool → List (List ℕ) → Option (List ℕ) → Option Command → Action
action_of mounted argv redirect none = unknown
action_of mounted argv redirect (some c) =
    if is_help argv || check_conditions mounted (condition_of c)
    then run c argv redirect
    else nothing

abbrev pub parsed_action : Bool → Option Parsed → Action
parsed_action mounted none = nothing
parsed_action mounted (some p) = elim p.argv [
  | [] ↦ nothing
  | w ∷ ws ↦ action_of mounted (w ∷ ws) p.redirect (find_command w commands)
]

-- What `do_shell` does with the words of one line; no words, nothing.
unfoldable pub dispatch : Bool → List (List ℕ) → Action
dispatch mounted words = parsed_action mounted (parse_redirect words)
