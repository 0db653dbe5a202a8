-- ===== src/Solver.antt =====
-- worker.c: `solver_th`, which asks one blacklist about one address. The resolver library is a
-- parameter.
pub mod Ends
use rblpolicyd.Prelude.{
  ℕ, zero, suc, ◌*◌, Bool, true, false, Option, none, some, List, [], ◌∷◌, Bytes, if◌then◌else◌,
}
use rblpolicyd.Address.{InAddr, is_listed}
use rblpolicyd.CfgFile.{CfgItem}

-- `struct hostent`: whether `h_addrtype` is `AF_INET`, and the addresses.
pub record Hostent : Type 0 where
  pub is_inet : Bool
  pub addr_list : List InAddr

-- What `gethostbyname_r` returns for a buffer of some size: `ERANGE`, or `*hp`, which may be NULL.
pub data Lookup : Type 0 where
  erange : Lookup
  answer : Option Hostent → Lookup

-- `while ((res = gethostbyname_r(...)) == ERANGE) hstbuflen *= 2`; `none` where the fuel runs out
unfoldable pub lookup_loop :
    (resolver : Bytes → ℕ → Lookup) → ℕ → ℕ → Bytes → Option (Option Hostent)
lookup_loop resolver zero hstbuflen hostname = none
lookup_loop resolver (suc fuel) hstbuflen hostname = elim (resolver hostname hstbuflen) [
  | erange ↦ lookup_loop resolver fuel (hstbuflen * 2) hostname
  | answer hp ↦ some hp
]

-- the loop over the addresses, which ends at the first that counts
unfoldable pub any_listed : List InAddr → Bool
any_listed [] = false
any_listed (a ∷ addrlist) = if is_listed a then true else any_listed addrlist

unfoldable pub found_in : Option Hostent → Bool
found_in none = false
found_in (some hp) = if hp.is_inet then any_listed hp.addr_list else false

-- `r->score` for an answer: cleared by the worker, and set where the address is found
unfoldable pub score_of : Option Hostent → CfgItem → ℕ
score_of hp rblitem = if found_in hp then rblitem.weight else 0

unfoldable pub scored : CfgItem → Option (Option Hostent) → Option ℕ
scored rblitem none = none
scored rblitem (some hp) = some (score_of hp rblitem)

-- What `solver_th` leaves in `r->score`.
unfoldable pub solver_th : (resolver : Bytes → ℕ → Lookup) → ℕ → Bytes → CfgItem → Option ℕ
solver_th resolver fuel hostname rblitem = scored rblitem (lookup_loop resolver fuel 1024 hostname)
