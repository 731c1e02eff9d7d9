-- ===== src/Shell/Dispatch/Runs.antt =====
-- Which command `do_shell` of src/fs/shell.c runs, and with which arguments.
use ios.Prelude.{
  ℕ, ◌≡◌, ◌≢◌, ◌⊎◌, Bool, true, false, ◌||◌, List, [], ◌∷◌, ◌++◌, Option, none, some, All,
}
use ios.Shell.Dispatch.{
  Command, commands, name_of, condition_of, check_conditions, is_help, arrow, Parsed, Action,
  nothing, unknown, run,
}

-- The words are the arguments, and behind an arrow the file that the output goes to.
abbrev pub Splits : List (List ℕ) → List (List ℕ) → Option (List ℕ) → Type 0
Splits words argv none = words ≡ argv
Splits words argv (some file) = (rest : List (List ℕ)) × (words ≡ argv ++ arrow ∷ file ∷ rest)

-- A command with this name; no command.
abbrev pub IsNamed : List (List ℕ) → Command → Type 0
IsNamed argv c = (ws : List (List ℕ)) × (argv ≡ name_of c ∷ ws)

abbrev pub NotNamed : List (List ℕ) → Type 0
NotNamed argv =
    (w : List ℕ) × (ws : List (List ℕ)) × (argv ≡ w ∷ ws) × All (λ c. name_of c ≢ w) commands

abbrev pub NoArrow : List (List ℕ) → Type 0
NoArrow = All (λ w. w ≢ arrow)

-- Why a line does what it does.
abbrev pub Explains : Bool → List (List ℕ) → Action → Type 0
Explains mounted words (run c argv redirect) =
    Splits words argv redirect
    × NoArrow argv
    × IsNamed argv c
    × ((is_help argv || check_conditions mounted (condition_of c)) ≡ true)
Explains mounted words unknown =
    (argv : List (List ℕ)) × (redirect : Option (List ℕ)) × Splits words argv redirect
    × NoArrow argv
    × NotNamed argv
Explains mounted words nothing =
    ((argv : List (List ℕ)) × (words ≡ argv ++ arrow ∷ []))
    ⊎ ((redirect : Option (List ℕ)) × Splits words [] redirect)
    ⊎ ((argv : List (List ℕ)) × (redirect : Option (List ℕ)) × (c : Command) × Splits words argv
          redirect
        × IsNamed argv c
        × ((is_help argv || check_conditions mounted (condition_of c)) ≡ false))

-- What the search for the arrow finds.
abbrev IsParsed : List (List ℕ) → Option Parsed → Type 0
IsParsed words none = (argv : List (List ℕ)) × (words ≡ argv ++ arrow ∷ [])
IsParsed words (some p) = Splits words p.argv p.redirect × NoArrow p.argv

-- The search for a name.
abbrev IsFound : List ℕ → List Command → Option Command → Type 0
IsFound name cs none = All (λ c. name_of c ≢ name) cs
IsFound name cs (some c) = name_of c ≡ name
