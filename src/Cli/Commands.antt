-- ===== src/Cli/Commands.antt =====
-- cli/cerynthctl/src/commands.rs, and the usage text of main.rs. An argument vector is a list; the
-- first argument is the program's name.
pub mod Usage
use text.Mathlib.Text.{◌==◌ as str_eq}
use cerynth_os.Base.{String, Option, none, some, List, [], ◌∷◌, if◌then◌else◌}
use cerynth_os.Ipc.Profiles.{Profile, balanced, interactive, performance, background, profile_name}
use cerynth_os.Ipc.Messages.{Request}

-- `profile set`, from its argument on.
unfoldable pub parse_set : List String → Option Request
parse_set [] = none
parse_set (name ∷ rest) =
    if str_eq name "balanced"
    then some (Request.set_profile balanced)
    else if str_eq name "interactive"
    then some (Request.set_profile interactive)
    else if str_eq name "performance"
    then some (Request.set_profile performance)
    else if str_eq name "background"
    then some (Request.set_profile background)
    else none

unfoldable pub parse_profile_command : List String → Option Request
parse_profile_command [] = none
parse_profile_command (verb ∷ rest) =
    if str_eq verb "get"
    then some Request.get_profile
    else if str_eq verb "set"
    then parse_set rest
    else none

unfoldable pub parse_adaptation_command : List String → Option Request
parse_adaptation_command [] = none
parse_adaptation_command (verb ∷ rest) =
    if str_eq verb "pause"
    then some Request.pause_adaptation
    else if str_eq verb "resume"
    then some Request.resume_adaptation
    else none

unfoldable pub parse_verb : String → List String → Option Request
parse_verb verb rest =
    if str_eq verb "status"
    then some Request.status
    else if str_eq verb "start"
    then some Request.start
    else if str_eq verb "stop"
    then some Request.stop
    else if str_eq verb "restart"
    then some Request.restart
    else if str_eq verb "profile"
    then parse_profile_command rest
    else if str_eq verb "adaptation"
    then parse_adaptation_command rest
    else none

unfoldable pub parse_command : List String → Option Request
parse_command [] = none
parse_command (program ∷ []) = none
parse_command (program ∷ verb ∷ rest) = parse_verb verb rest

-- The usage text: the arguments that ask for a request.
unfoldable pub usage : Request → List String
usage Request.status = "status" ∷ []
usage Request.start = "start" ∷ []
usage Request.stop = "stop" ∷ []
usage Request.restart = "restart" ∷ []
usage Request.get_profile = "profile" ∷ "get" ∷ []
usage (Request.set_profile p) = "profile" ∷ "set" ∷ profile_name p ∷ []
usage Request.pause_adaptation = "adaptation" ∷ "pause" ∷ []
usage Request.resume_adaptation = "adaptation" ∷ "resume" ∷ []
