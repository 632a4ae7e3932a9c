-- ===== src/Fleet/Addresses.antt =====
-- resolve.go and state.go: a chain whose first link is the address of a target.
use metassh.Base.{◌≡◌, false, Str, str_eq, lookup}
use metassh.Store.Methods.{Job, ◌>>>◌, done}
use metassh.Store.Methods
use metassh.Store.Races.{ptr_of}
use metassh.Fleet.Net.{Net}
use metassh.Fleet.Sweeps.{conns}

-- Only the name of `link` is given a connection.
record Names (link : Str) (net net' : Net) : Type 0 where
  ptr : net'.world.state.ptr ≡ net.world.state.ptr
  apart :
      (j : Str)
      → str_eq (ptr_of link net.world.state) j ≡ false
      → lookup j (conns net') ≡ lookup j (conns net)
