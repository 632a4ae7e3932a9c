-- ===== src/Mux/Replies.antt =====
-- controlmux.go: the answers to hellos and alive checks.
use metassh.Base.{
  ℕ, suc, ◌%◌, ◌^◌, ◌≡◌, refl, ap, true, List, [], ◌∷◌, ◌++◌, arith, leb, if◌then◌else◌, length,
  take, drop, All, Outcome, ok,
}
use metassh.Mux.Wire.{IsByte, put_uint32, put_uint32-uint32}
use metassh.Mux.Messages.{ControlMsg, mux_msg_hello, mux_c_alive_check, mux_s_alive}
use metassh.Mux.Handler.{
  Mux, Action, reply, close_conn, read_again, SessionEnv, hello, alive_check, handle_msg,
}

hello_lem :
    (p : List ℕ)
    → All IsByte p
    → hello p ≡ (if leb 8 (length p) then reply (take 8 p) ∷ read_again ∷ [] else close_conn ∷ [])
unfolding hello
hello_lem [] _ = refl
hello_lem (a ∷ []) _ = refl
hello_lem (a ∷ b ∷ []) _ = refl
hello_lem (a ∷ b ∷ c ∷ []) _ = refl
hello_lem (a ∷ b ∷ c ∷ d ∷ []) _ = refl
hello_lem (a ∷ b ∷ c ∷ d ∷ e ∷ []) _ = refl
hello_lem (a ∷ b ∷ c ∷ d ∷ e ∷ f ∷ []) _ = refl
hello_lem (a ∷ b ∷ c ∷ d ∷ e ∷ f ∷ g ∷ []) _ = refl
hello_lem (a ∷ b ∷ c ∷ d ∷ e ∷ f ∷ g ∷ h ∷ rest) bound =
    ground (arith, put_uint32-uint32 a b c d, put_uint32-uint32 e f g h)

-- A hello is echoed byte for byte and the connection is read again; one that is too short closes it.
pub hello_echo :
    (pid : ℕ) (m : Mux) (msg : ControlMsg) (env : SessionEnv)
    → msg.msg_type ≡ mux_msg_hello
    → All IsByte msg.payload
    → handle_msg pid m msg env
      ≡ ok (
        m,
        if leb 8 (length msg.payload)
            then reply (take 8 msg.payload) ∷ read_again ∷ []
            else close_conn ∷ [],
      )
unfolding handle_msg
hello_echo pid m msg env e h =
    rw e (ap {B = Outcome (Mux × List Action)} (λ acts. ok (m, acts)) (hello_lem msg.payload h))

leb_eight : (n : ℕ) → leb 8 (suc (suc (suc (suc (suc (suc (suc (suc n)))))))) ≡ true
leb_eight n = ground arith

alive_lem :
    (pid : ℕ) (p : List ℕ)
    → All IsByte p
    → alive_check pid p ≡ (
        if leb 8 (length p)
        then reply (put_uint32 mux_s_alive ++ (take 4 (drop 4 p) ++ put_uint32 (pid % 2 ^ 32)))
          ∷ read_again
          ∷ []
        else close_conn ∷ [])
unfolding alive_check
alive_lem pid [] _ = refl
alive_lem pid (a ∷ []) _ = refl
alive_lem pid (a ∷ b ∷ []) _ = refl
alive_lem pid (a ∷ b ∷ c ∷ []) _ = refl
alive_lem pid (a ∷ b ∷ c ∷ d ∷ []) _ = refl
alive_lem pid (a ∷ b ∷ c ∷ d ∷ e ∷ []) _ = refl
alive_lem pid (a ∷ b ∷ c ∷ d ∷ e ∷ f ∷ []) _ = refl
alive_lem pid (a ∷ b ∷ c ∷ d ∷ e ∷ f ∷ g ∷ []) _ = refl
alive_lem pid (a ∷ b ∷ c ∷ d ∷ e ∷ f ∷ g ∷ h ∷ rest) (_, (_, (_, (_, (be, (bf, (bg, (bh, _)))))))) =
    rw (leb_eight (length rest)) (
      ap {B = List Action}
        (λ w. reply (put_uint32 mux_s_alive ++ (w ++ put_uint32 (pid % 2 ^ 32))) ∷ read_again ∷ [])
        (put_uint32-uint32 e f g h be bf bg bh))

-- An alive check is answered with its own request number and the process number; one that is too
-- short closes the connection.
pub alive_check_answer :
    (pid : ℕ) (m : Mux) (msg : ControlMsg) (env : SessionEnv)
    → msg.msg_type ≡ mux_c_alive_check
    → All IsByte msg.payload
    → handle_msg pid m msg env
      ≡ ok (
        m,
        if leb 8 (length msg.payload)
            then reply (
                put_uint32 mux_s_alive
                ++ (take 4 (drop 4 msg.payload) ++ put_uint32 (pid % 2 ^ 32)))
              ∷ read_again
              ∷ []
            else close_conn ∷ [],
      )
unfolding handle_msg
alive_check_answer pid m msg env e h =
    rw e (ap {B = Outcome (Mux × List Action)} (λ acts. ok (m, acts)) (alive_lem pid msg.payload h))
