-- ===== src/Mux/RoundTrip.antt =====
-- controlmux.go: the parser reads what a client writes, and nothing beyond.
use metassh.Base.{
  ℕ, ◌+◌, ◌≤◌, ◌≡◌, refl, List, ◌++◌, arith, length, Outcome, ok, panic, blocked, ◌>>=◌,
  ok_injective,
}
use metassh.Mux.Wire.{
  put_uint32, pull_uint32, pull_string, pull_bool, push_string, push_bool, IsU32,
  pull_uint32-put_uint32, pull_bool-push_bool, pull_string-push_string, pull_uint32_takes,
  pull_bool_takes, pull_string_takes,
}
use metassh.Mux.Messages.{NewSessionMsg, parse_new_session}

-- The words of the message are words, and its strings have lengths that a word can hold.
pub record Fits (m : NewSessionMsg) : Type 0 where
  pub msg_type : IsU32 m.msg_type
  pub request_id : IsU32 m.request_id
  pub reserved : IsU32 (length m.reserved)
  pub escape_char : IsU32 m.escape_char
  pub terminal_type : IsU32 (length m.terminal_type)
  pub command : IsU32 (length m.command)

-- How a client writes a request for a new session.
abbrev pub new_session_bytes : NewSessionMsg → List ℕ → List ℕ
new_session_bytes m rest =
    put_uint32 m.msg_type
    ++ (put_uint32 m.request_id
        ++ (push_string m.reserved
            ++ (push_bool m.want_tty
                ++ (push_bool m.want_x11
                    ++ (push_bool m.want_agent
                        ++ (push_bool m.subsystem
                            ++ (put_uint32 m.escape_char
                                ++ (push_string m.terminal_type
                                    ++ (push_string m.command ++ rest)))))))))

-- `parseNewSession` reads back every request that a client writes, whatever follows it.
pub parse_new_session-bytes :
    (m : NewSessionMsg) (rest : List ℕ)
    → Fits m
    → parse_new_session (new_session_bytes m rest) ≡ ok m
unfolding parse_new_session
parse_new_session-bytes m rest fits = rw (
  pull_uint32-put_uint32 _ _ fits.msg_type,
  pull_uint32-put_uint32 _ _ fits.request_id,
  pull_string-push_string _ _ fits.reserved,
  pull_bool-push_bool,
  pull_bool-push_bool,
  pull_bool-push_bool,
  pull_bool-push_bool,
  pull_uint32-put_uint32 _ _ fits.escape_char,
  pull_string-push_string _ _ fits.terminal_type,
  pull_string-push_string _ _ fits.command,
)

-- Every message that the parser may still return accounts for at most `n` bytes.
Within : ℕ → Outcome NewSessionMsg → Type 0
Within n o =
    (m : NewSessionMsg)
    → o ≡ ok m
    → 40 + length m.reserved + length m.terminal_type + length m.command ≤ n

Within-bind :
    {A : Type 0} (n : ℕ) (o : Outcome (List ℕ × A)) (f : List ℕ × A → Outcome NewSessionMsg)
    → ((s : List ℕ) (a : A) → o ≡ ok (s, a) → Within n (f (s, a)))
    → Within n (o >>= f)
unfolding Within
Within-bind n (ok (s, a)) f h m e = h s a refl m e
Within-bind n panic f h m e = cc
Within-bind n blocked f h m e = cc

Within-ok :
    (n : ℕ) (m : NewSessionMsg)
    → 40 + length m.reserved + length m.terminal_type + length m.command ≤ n
    → Within n (ok m)
unfolding Within
Within-ok n m h m' e = rw (← ok_injective e) h

parse_new_session-Within : (s : List ℕ) → Within (length s) (parse_new_session s)
unfolding parse_new_session
parse_new_session-Within s = Within-bind _ (pull_uint32 s) _ λ s1 a p1.
    Within-bind _ (pull_uint32 s1) _ λ s2 b p2. Within-bind _ (pull_string s2) _ λ s3 c p3.
      Within-bind _ (pull_bool s3) _ λ s4 d p4. Within-bind _ (pull_bool s4) _ λ s5 f p5.
        Within-bind _ (pull_bool s5) _ λ s6 g p6. Within-bind _ (pull_bool s6) _ λ s7 h p7.
          Within-bind _ (pull_uint32 s7) _ λ s8 i p8. Within-bind _ (pull_string s8) _ λ s9 j p9.
            Within-bind _ (pull_string s9) _ λ s10 k p10. Within-ok _ _ (
              omega (
                arith,
                pull_uint32_takes s s1 a p1,
                pull_uint32_takes s1 s2 b p2,
                pull_string_takes s2 s3 c p3,
                pull_bool_takes s3 s4 d p4,
                pull_bool_takes s4 s5 f p5,
                pull_bool_takes s5 s6 g p6,
                pull_bool_takes s6 s7 h p7,
                pull_uint32_takes s7 s8 i p8,
                pull_string_takes s8 s9 j p9,
                pull_string_takes s9 s10 k p10,
              ))

-- A request that is parsed holds all that was read: ten words and the three strings.
pub parse_new_session_takes :
    (stream : List ℕ) (m : NewSessionMsg)
    → parse_new_session stream ≡ ok m
    → 40 + length m.reserved + length m.terminal_type + length m.command ≤ length stream
unfolding Within
parse_new_session_takes stream m e = parse_new_session-Within stream m e
