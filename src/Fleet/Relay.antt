-- ===== src/Fleet/Relay.antt =====
-- proxy.go: the goroutines of one `proxyConnect`, step by step: the one that dials through the
-- proxy, the timer, the one that selects, and the one that it leaves behind. `TimeoutWaiters` may
-- send to the timer's channel in between, where a send to a full buffer waits. Any of them may take
-- the next step; the requester takes the response at once.
use metassh.Base.{ℕ, ◌+◌, ◌≡◌, Bool, true, false, Option, none, some, Str, is_some}
use metassh.Fleet.Proxy.{Arrival, response, organic, aborted}
use metassh.Fleet.Race.{
  Dialer, at_work, offers, gone, Drainer, unborn, takes_timer, takes_dial, drained,
}

-- `timeout` is the buffer of the timer's channel, and `answer` what the `select` took. The waiter
-- is `registered` until the function returns. `clients` are those that are open, `handed` those in
-- a response.
pub record Relay : Type 0 where
  pub dialer : Dialer
  pub asleep : Bool
  pub timeout : Option Bool
  pub answer : Option Arrival
  pub drainer : Drainer
  pub registered : Bool
  pub aborts : ℕ
  pub clients : ℕ
  pub handed : ℕ

abbrev pub arrival_of : Bool → Arrival
arrival_of true = organic
arrival_of false = aborted

abbrev pub clients_in : Option Str → ℕ
clients_in none = 1
clients_in (some err) = 0

pub data Move (s t : Relay) : Type 0 where
  dials :
      s.dialer ≡ at_work → t ≡ record s { dialer = offers none; clients = s.clients + 1 } → Move s t
  fails : (err : Str) → s.dialer ≡ at_work → t ≡ record s { dialer = offers (some err) } → Move s t
  wakes :
      s.asleep ≡ true
      → s.timeout ≡ none
      → t ≡ record s { asleep = false; timeout = some true }
      → Move s t
  abort_wait :
      s.registered ≡ true
      → s.timeout ≡ none
      → t ≡ record s { timeout = some false; aborts = s.aborts + 1 }
      → Move s t
  respond :
      (r : Option Str)
      → s.answer ≡ none
      → s.dialer ≡ offers r
      → t ≡ record s {
        dialer = gone;
        answer = some response;
        handed = s.handed + clients_in r;
        drainer = takes_timer;
      }
      → Move s t
  give_up :
      (b : Bool)
      → s.answer ≡ none
      → s.timeout ≡ some b
      → t ≡ record s { timeout = none; answer = some (arrival_of b); drainer = takes_dial }
      → Move s t
  unregister :
      is_some s.answer ≡ true → s.registered ≡ true → t ≡ record s { registered = false } → Move s t
  drain_timer :
      (b : Bool)
      → s.drainer ≡ takes_timer
      → s.timeout ≡ some b
      → t ≡ record s { timeout = none; drainer = drained }
      → Move s t
  -- A client that comes here is not closed.
  drain_dial :
      (r : Option Str)
      → s.drainer ≡ takes_dial
      → s.dialer ≡ offers r
      → t ≡ record s { dialer = gone; drainer = drained }
      → Move s t

pub data Reach (s : Relay) : Relay → Type 0 where
  here : Reach s s
  next : {t u : Relay} → Reach s t → Move t u → Reach s u

abbrev pub relay_begun : Relay
relay_begun = record {
  dialer = at_work;
  asleep = true;
  timeout = none;
  answer = none;
  drainer = unborn;
  registered = true;
  aborts = 0;
  clients = 0;
  handed = 0;
}
