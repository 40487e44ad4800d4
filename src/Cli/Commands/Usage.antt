-- ===== src/Cli/Commands/Usage.antt =====
-- cli/cerynthctl: the parser against the usage text.
use text.Mathlib.TextEquality.{eq_iff}
use cerynth_os.Base.{String, ◌≡◌, ◌↔◌, some, List, [], ◌∷◌, arith, take, length}
use cerynth_os.Ipc.Profiles.{Profile, balanced, interactive, performance, background, profile_name}
use cerynth_os.Ipc.Messages.{Request}
use cerynth_os.Cli.Commands.{
  parse_set, parse_profile_command, parse_adaptation_command, parse_verb, parse_command, usage,
}

-- The arguments begin with the command; what follows it is not read.
abbrev pub Asks : List String → Request → Type 0
Asks args r = take (length (usage r)) args ≡ usage r

parse_set-Asks :
    (args : List String) (r : Request) → parse_set args ≡ some r → Asks ("profile" ∷ "set" ∷ args) r
unfolding parse_set usage profile_name
parse_set-Asks [] r h = cc
parse_set-Asks (name ∷ rest) r h = ground (
  arith,
  eq_iff name "balanced",
  eq_iff name "interactive",
  eq_iff name "performance",
  eq_iff name "background",
)

parse_profile_command-Asks :
    (args : List String) (r : Request)
    → parse_profile_command args ≡ some r
    → Asks ("profile" ∷ args) r
unfolding parse_profile_command usage
parse_profile_command-Asks [] r h = cc
parse_profile_command-Asks (verb ∷ rest) r h =
    ground (arith, eq_iff verb "get", eq_iff verb "set", parse_set-Asks rest r)

parse_adaptation_command-Asks :
    (args : List String) (r : Request)
    → parse_adaptation_command args ≡ some r
    → Asks ("adaptation" ∷ args) r
unfolding parse_adaptation_command usage
parse_adaptation_command-Asks [] r h = cc
parse_adaptation_command-Asks (verb ∷ rest) r h =
    ground (arith, eq_iff verb "pause", eq_iff verb "resume")

parse_verb-Asks :
    (verb : String) (rest : List String) (r : Request)
    → parse_verb verb rest ≡ some r
    → Asks (verb ∷ rest) r
unfolding parse_verb usage
parse_verb-Asks verb rest r h = ground (
  arith,
  eq_iff verb "status",
  eq_iff verb "start",
  eq_iff verb "stop",
  eq_iff verb "restart",
  eq_iff verb "profile",
  eq_iff verb "adaptation",
  parse_profile_command-Asks rest r,
  parse_adaptation_command-Asks rest r,
)

set_names :
    (name : String) (rest : List String) (p : Profile)
    → name ≡ profile_name p
    → parse_set (name ∷ rest) ≡ some (Request.set_profile p)
unfolding parse_set profile_name
set_names name rest balanced e = rw (e, parse_set)
set_names name rest interactive e = rw (e, parse_set)
set_names name rest performance e = rw (e, parse_set)
set_names name rest background e = rw (e, parse_set)

Asks-parse_verb :
    (verb : String) (rest : List String) (r : Request)
    → Asks (verb ∷ rest) r
    → parse_verb verb rest ≡ some r
unfolding parse_verb parse_profile_command parse_adaptation_command usage
Asks-parse_verb verb rest Request.status h = let e : verb ≡ "status" = cc in rw (e, parse_verb)
Asks-parse_verb verb rest Request.start h = let e : verb ≡ "start" = cc in rw (e, parse_verb)
Asks-parse_verb verb rest Request.stop h = let e : verb ≡ "stop" = cc in rw (e, parse_verb)
Asks-parse_verb verb rest Request.restart h = let e : verb ≡ "restart" = cc in rw (e, parse_verb)
Asks-parse_verb verb [] Request.get_profile h = cc
Asks-parse_verb verb (sub ∷ rest) Request.get_profile h =
    let e : verb ≡ "profile" = cc in
    let k : sub ≡ "get" = cc in rw (e, k, parse_verb, parse_profile_command)
Asks-parse_verb verb [] Request.pause_adaptation h = cc
Asks-parse_verb verb (sub ∷ rest) Request.pause_adaptation h =
    let e : verb ≡ "adaptation" = cc in
    let k : sub ≡ "pause" = cc in rw (e, k, parse_verb, parse_adaptation_command)
Asks-parse_verb verb [] Request.resume_adaptation h = cc
Asks-parse_verb verb (sub ∷ rest) Request.resume_adaptation h =
    let e : verb ≡ "adaptation" = cc in
    let k : sub ≡ "resume" = cc in rw (e, k, parse_verb, parse_adaptation_command)
Asks-parse_verb verb [] (Request.set_profile p) h = cc
Asks-parse_verb verb (sub ∷ []) (Request.set_profile p) h = cc
Asks-parse_verb verb (sub ∷ name ∷ rest) (Request.set_profile p) h =
    let e : verb ≡ "profile" = cc in
    let k : sub ≡ "set" = cc in
    let l : name ≡ profile_name p = cc in
    rw (e, k, parse_verb, parse_profile_command) (set_names name rest p l)

parse_args-Asks :
    (program : String) (args : List String) (r : Request)
    → parse_command (program ∷ args) ≡ some r
    → Asks args r
unfolding parse_command
parse_args-Asks program [] r h = cc
parse_args-Asks program (verb ∷ rest) r h = parse_verb-Asks verb rest r h

Asks-parse_args :
    (program : String) (args : List String) (r : Request)
    → Asks args r
    → parse_command (program ∷ args) ≡ some r
unfolding parse_command usage
Asks-parse_args program [] r h = absurd (ground arith)
Asks-parse_args program (verb ∷ rest) r h = Asks-parse_verb verb rest r h

-- The command line asks for a request exactly when it begins, behind the program's name, with the
-- command that the usage text gives for the request.
pub parse_command_iff :
    (program : String) (args : List String) (r : Request)
    → (parse_command (program ∷ args) ≡ some r) ↔ (take (length (usage r)) args ≡ usage r)
parse_command_iff program args r = (parse_args-Asks program args r, Asks-parse_args program args r)
