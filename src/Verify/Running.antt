-- ===== src/Verify/Running.antt =====
-- The run of checks (verify/run.go: Run, toolPresence, runOne, missingMakeTarget). What
-- the processes and the file system answer is given for each command; the text of the reasons and the
-- duration are not modelled, and the output is not truncated.
use modulex.Prelude.{
  ℕ, String, Bool, true, false, not, ◌&&◌, ◌||◌, ◌==◌, if◌then◌else◌, Option, none, some, List, [],
  ◌∷◌, Assoc, lookup, insert, cut_prefix,
}
use modulex.Verify.{Category, CheckSpec, is_safe_char, all_chars}
use modulex.Prelude.{nat_eq}

-- provenance.Status
pub data Status : Type 0 where
  pass fail skipped unavailable : Status

-- provenance.VerificationResult; the message is the output of the command, if it was run.
pub record Result : Type 0 where
  pub name : String
  pub category : Category
  pub status : Status
  pub message : Option String

-- discovery.ToolStatus
pub record ToolStatus : Type 0 where
  pub name : String
  pub present : Bool

-- How `make -n` on a target ends.
pub data Probe : Type 0 where
  defined no_rule broken : Probe

-- The answers of the environment, by directory and target or command: whether there is a makefile, the
-- dry run of make, if make is there, and the output of a command with its success.
pub record Environment : Type 0 where
  pub has_makefile : String → Bool
  pub probe : String → String → Option Probe
  pub execute : String → String → String × Bool

-- toolPresence
unfoldable pub tool_presence : List ToolStatus → Assoc Bool → Assoc Bool
tool_presence [] present = present
tool_presence (t ∷ ts) present = tool_presence ts (insert t.name t.present present)

-- `present[name]`, false for a missing key.
abbrev pub is_present : String → Assoc Bool → Bool
is_present name present = elim (lookup name present) [ none ↦ false | some b ↦ b ]

-- A character of makeCommandRe: a letter, a digit, `.`, `_` or `-`.
abbrev pub is_target_char : ℕ → Bool
is_target_char c = is_safe_char c && not (nat_eq c 47)

abbrev pub target_text : Option String → Option String
target_text none = none
target_text (some t) = if not (t == "") && all_chars is_target_char t then some t else none

-- The target of a command that makeCommandRe matches.
unfoldable pub make_target : String → Option String
unfolding cut_prefix all_chars
make_target command = target_text (cut_prefix "make " command)

abbrev pub is_undefined : Option Probe → Bool
is_undefined none = true
is_undefined (some Probe.no_rule) = true
is_undefined (some _) = false

-- missingMakeTarget: whether it gives a reason.
unfoldable pub missing_make_target : Environment → CheckSpec → Bool
unfolding make_target
missing_make_target env c = elim (make_target c.command) [
  | none ↦ false
  | some t ↦ not (env.has_makefile c.dir) || is_undefined (env.probe c.dir t)
]

abbrev pub result_of : CheckSpec → Status → Option String → Result
result_of c status message = record {
  name = c.name;
  category = c.category;
  status = status;
  message = message;
}

abbrev pub executed : CheckSpec → String × Bool → Result
executed c (output, succeeded) =
    result_of c (if succeeded then Status.pass else Status.fail) (some output)

-- runOne
unfoldable pub run_one : Environment → Assoc Bool → Bool → CheckSpec → Result
unfolding missing_make_target
run_one env present allow_network c =
    if not (c.required_tool == "") && not (is_present c.required_tool present)
    then result_of c Status.unavailable none
    else if c.networked && not allow_network
    then result_of c Status.skipped none
    else if missing_make_target env c
    then result_of c Status.unavailable none
    else executed c (env.execute c.dir c.command)

abbrev pub run_all : Environment → Assoc Bool → Bool → List CheckSpec → List Result
run_all env present allow_network [] = []
run_all env present allow_network (c ∷ cs) =
    run_one env present allow_network c ∷ run_all env present allow_network cs

-- Run
unfoldable pub run : Environment → List CheckSpec → List ToolStatus → Bool → List Result
unfolding tool_presence run_one
run env checks tools allow_network = run_all env (tool_presence tools []) allow_network checks
