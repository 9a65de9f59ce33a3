-- ===== src/Verify/Passing.antt =====
-- What a result of Run says (verify/run.go).
use modulex.Prelude.{
  String, ◌≡◌, Bool, true, false, not, ◌&&◌, ◌||◌, ◌==◌, if◌then◌else◌, List, [], ◌∷◌, Option, none,
  some,
}
use modulex.Verify.{CheckSpec}
use modulex.Verify.Running.{Status, Result, ToolStatus, Environment, missing_make_target}

-- Whether a tool of the name is in the list.
abbrev pub lists : String → List ToolStatus → Bool
lists name [] = false
lists name (t ∷ ts) = t.name == name || lists name ts

-- Whether the tool is present by what the list says of it last.
abbrev pub has_tool : String → List ToolStatus → Bool
has_tool name [] = false
has_tool name (t ∷ ts) = if lists name ts then has_tool name ts else t.name == name && t.present

-- The tool that the check needs is there, if it needs one.
abbrev pub is_equipped : List ToolStatus → CheckSpec → Bool
is_equipped tools c = c.required_tool == "" || has_tool c.required_tool tools

-- The check may use the network, if it does.
abbrev pub is_allowed : Bool → CheckSpec → Bool
is_allowed allow_network c = not c.networked || allow_network

-- What the status of the result of a check says, with its message: passed or failed, with the output of the
-- command, that it was run and ended so; skipped, that only the network was missing; unavailable, that
-- the tool was missing, or the target of make for a check that was not skipped.
abbrev pub Reports :
    Environment → List ToolStatus → Bool → CheckSpec → Status → Option String → Type 0
Reports env tools allow_network c Status.pass message =
    (is_equipped tools c ≡ true)
    × (is_allowed allow_network c ≡ true)
    × (missing_make_target env c ≡ false)
    × ((env.execute c.dir c.command).1 ≡ true)
    × (message ≡ some (env.execute c.dir c.command).0)
Reports env tools allow_network c Status.fail message =
    (is_equipped tools c ≡ true)
    × (is_allowed allow_network c ≡ true)
    × (missing_make_target env c ≡ false)
    × ((env.execute c.dir c.command).1 ≡ false)
    × (message ≡ some (env.execute c.dir c.command).0)
Reports env tools allow_network c Status.skipped message =
    (is_equipped tools c ≡ true) × (is_allowed allow_network c ≡ false) × (message ≡ none)
Reports env tools allow_network c Status.unavailable message =
    ((is_equipped tools c && not (is_allowed allow_network c && missing_make_target env c)) ≡ false)
    × (message ≡ none)

-- The results are those of the checks, one for each, in their order.
abbrev pub AreReports : Environment → List ToolStatus → Bool → List CheckSpec → List Result → Type 0
AreReports env tools allow_network [] [] = Unit
AreReports env tools allow_network [] (r ∷ rs) = ⊥
AreReports env tools allow_network (c ∷ cs) [] = ⊥
AreReports env tools allow_network (c ∷ cs) (r ∷ rs) =
    (r.name ≡ c.name)
    × Reports env tools allow_network c r.status r.message
    × AreReports env tools allow_network cs rs

module _ (env : Environment) (tools : List ToolStatus) (allow_network : Bool) where
  abbrev IsResult : CheckSpec → Result → Type 0
  IsResult c r = (r.name ≡ c.name) × Reports env tools allow_network c r.status r.message
