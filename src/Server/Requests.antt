-- ===== src/Server/Requests.antt =====
-- server.go: what the requests of a channel come to.
use metassh.Base.{
  ℕ, suc, ◌+◌, ◌≡◌, ap, ◌∙◌, Bool, true, false, List, [], ◌∷◌, length, All, Str, Outcome, ok, panic,
  ◌>>=◌,
}
use metassh.Base.{is_space}
use metassh.Store.Methods.{Job}
use metassh.Mux.Wire.{IsU32, push_string, pull_uint32-put_uint32}
use metassh.Run.Program.{Program}
use metassh.Cli.Flags.{CliEnv}
use metassh.Cli.Dispatch.{Next, run_line}
use metassh.Cli.Session.{run_line_blank}
use metassh.Server.Channel.{
  SshRequest, readline_over, exec, ChannelEvent, rejected, closed, sized, wired, readline_cli, Desk,
  after_exec, on_program, handle_exec, handle_requests,
}

-- The sessions for readline that were started.
abbrev pub readline_count : List ChannelEvent → ℕ
readline_count [] = 0
readline_count (readline_cli lines ∷ evs) = suc (readline_count evs)
readline_count (rejected msg ∷ evs) = readline_count evs
readline_count (closed ∷ evs) = readline_count evs
readline_count (sized ws ∷ evs) = readline_count evs
readline_count (wired ∷ evs) = readline_count evs
readline_count (readline_over ∷ evs) = readline_count evs

-- The sessions that ended.
abbrev pub over_count : List ChannelEvent → ℕ
over_count [] = 0
over_count (readline_over ∷ evs) = suc (over_count evs)
over_count (readline_cli lines ∷ evs) = over_count evs
over_count (rejected msg ∷ evs) = over_count evs
over_count (closed ∷ evs) = over_count evs
over_count (sized ws ∷ evs) = over_count evs
over_count (wired ∷ evs) = over_count evs

abbrev pub taken : Bool → ℕ
taken true = 1
taken false = 0

-- The sessions that run, of which the flag tells, are those from before and those started since,
-- less those that ended.
abbrev pub Claims : Desk → Desk → Type 0
Claims d d' =
    readline_count d'.events + over_count d.events + taken d.readline_session
    ≡ readline_count d.events + over_count d'.events + taken d'.readline_session

-- A job that returns keeps the account of the sessions.
abbrev Accounts : {A : Type 0} → Job Desk A → Type 0
Accounts {A} job = (d d' : Desk) (a : A) → job d ≡ ok (d', a) → Claims d d'

-- An exec request whose command is blank, be it empty, ends the program with a panic.
pub handle_requests-blank :
    (env : CliEnv) (text : Str) (reqs : List SshRequest) (d : Desk)
    → All (λ c. is_space c ≡ true) text
    → IsU32 (length text)
    → handle_requests env (exec (push_string text) ∷ reqs) d ≡ panic
unfolding handle_requests handle_exec push_string
handle_requests-blank env text reqs d blank small =
    ap
      (λ (m : Outcome (List ℕ × ℕ)). (m >>= λ r. on_program (run_line env r.0) d) >>= λ r.
        after_exec (handle_requests env reqs) r.1 r.0)
      (pull_uint32-put_uint32 (length text) text small)
    ∙ ap
        (λ (m : Outcome (Program × Next)).
          (m >>= λ r. ok (record d { program = r.0 }, r.1)) >>= λ (r : Desk × Next).
          after_exec (handle_requests env reqs) r.1 r.0)
        (run_line_blank env text d.program blank)
