-- ===== src/Fleet/Race.antt =====
-- resolve.go: the goroutines of one direct dial, step by step. `directConnect` and `sleep` send to
-- the goroutine that started them, which takes what comes first and leaves another goroutine behind
-- for the rest. Any of them may take the next step.
use metassh.Base.{ℕ, ◌+◌, ◌≡◌, Bool, true, false, Option, none, some, Str}
use metassh.Fleet.Resolve.{Dial, connected, refused, late}

-- `directConnect`: in `ssh.Dial`, at the send of its client or of its error, and done.
pub data Dialer : Type 0 where
  at_work : Dialer
  offers : Option Str → Dialer
  gone : Dialer

-- What the `select` took.
pub data Selected : Type 0 where
  waits : Selected
  took : Dial → Selected

-- The goroutine that is left behind: it takes what is left of the timer or of the dial.
pub data Drainer : Type 0 where
  unborn : Drainer
  takes_timer : Drainer
  takes_dial : Drainer
  drained : Drainer

-- `timer` is the buffer of `timeoutChan`. `clients` are those that are open, `served` those with a
-- `remoteHost` goroutine.
pub record Dialling : Type 0 where
  pub dialer : Dialer
  pub asleep : Bool
  pub timer : Bool
  pub selected : Selected
  pub drainer : Drainer
  pub clients : ℕ
  pub served : ℕ

-- `sleep`, at its send, for which the buffer has room.
abbrev pub woken : Dialling → Dialling
woken s = record s { asleep = false; timer = true }

pub data Move (s t : Dialling) : Type 0 where
  dials :
      s.dialer ≡ at_work → t ≡ record s { dialer = offers none; clients = s.clients + 1 } → Move s t
  fails : (err : Str) → s.dialer ≡ at_work → t ≡ record s { dialer = offers (some err) } → Move s t
  wakes : s.asleep ≡ true → s.timer ≡ false → t ≡ woken s → Move s t
  take_client :
      s.selected ≡ waits
      → s.dialer ≡ offers none
      → t ≡ record s {
        dialer = gone;
        selected = took connected;
        served = s.served + 1;
        drainer = takes_timer;
      }
      → Move s t
  take_error :
      (err : Str)
      → s.selected ≡ waits
      → s.dialer ≡ offers (some err)
      → t ≡ record s { dialer = gone; selected = took (refused err); drainer = takes_timer }
      → Move s t
  take_timer :
      s.selected ≡ waits
      → s.timer ≡ true
      → t ≡ record s { timer = false; selected = took late; drainer = takes_dial }
      → Move s t
  drain_timer :
      s.drainer ≡ takes_timer
      → s.timer ≡ true
      → t ≡ record s { timer = false; drainer = drained }
      → Move s t
  -- A client that comes here is not closed.
  drain_dial :
      (r : Option Str)
      → s.drainer ≡ takes_dial
      → s.dialer ≡ offers r
      → t ≡ record s { dialer = gone; drainer = drained }
      → Move s t

pub data Reach (s : Dialling) : Dialling → Type 0 where
  here : Reach s s
  next : {t u : Dialling} → Reach s t → Move t u → Reach s u

abbrev pub dial_begun : Dialling
dial_begun = record {
  dialer = at_work;
  asleep = true;
  timer = false;
  selected = waits;
  drainer = unborn;
  clients = 0;
  served = 0;
}
