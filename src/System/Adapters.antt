-- ===== src/System/Adapters.antt =====
-- src/win32/win32if.cpp: the list of network interfaces on Windows. A pointer into the list is the
-- list from there.
use dns_wrapper.Common.{
  ℕ, zero, suc, ◌≡◌, Bool, true, ◌==◌, ◌!=◌, ltb, if◌then◌else◌, List, [], ◌∷◌, Result, ok, fault,
  arith,
}
use dns_wrapper.Text.{Text, codes}
use dns_wrapper.System.Interfaces.{ec_nomem, ec_misc}

-- `IP_ADAPTER_ADDRESSES`
pub record Adapter : Type 0 where
  pub index : ℕ
  pub name : Text
  pub ipv4_enabled : Bool
  pub ipv6_enabled : Bool

abbrev pub Pointer : Type 0
Pointer = List Adapter

unfoldable pub type : Pointer → Result Text
type [] = fault
type (a ∷ more) = ok (
    if a.ipv4_enabled
    then codes "AF_INET"
    else if a.ipv6_enabled
    then codes "AF_INET6"
    else codes "UNKNOWN")

-- `Interface::operator++`
unfoldable pub next : Pointer → Pointer
next [] = []
next (a ∷ more) = more

-- `WORKING_BUFFER_SIZE`, `MAX_TRIES`, and codes of the system.
abbrev pub working_buffer_size : ℕ
working_buffer_size = 15000

abbrev pub max_tries : ℕ
max_tries = 3

abbrev pub no_error : ℕ
no_error = 0

abbrev pub error_buffer_overflow : ℕ
error_buffer_overflow = 111

-- What `GetAdaptersAddresses` returns: a code, the length it sets, and the list it writes.
pub record Answer : Type 0 where
  pub code : ℕ
  pub size : ℕ
  pub adapters : Pointer

-- What the system does at each try: whether `malloc` gives so many bytes, and the answer to a call.
pub record Adapters : Type 0 where
  pub allocates : ℕ → Bool
  pub call : ℕ → ℕ → Answer

pub data Found : Type 0 where
  exits : ℕ → Found
  found : Pointer → Found

module _ (os : Adapters) where
  -- The loop, with the tries that are left, the number of the try, the length and the last code;
  -- and what follows it.
  unfoldable pub tries : ℕ → ℕ → ℕ → ℕ → Found
  tries zero i len res = if res != no_error then exits ec_misc else found []
  tries (suc n) i len res =
      let answer = os.call i len in
      let again = tries n (suc i) answer.size answer.code in
      if os.allocates len
      then (if answer.code == error_buffer_overflow
          then again
          else if answer.code != no_error
          then exits ec_misc
          else found answer.adapters)
      else exits ec_nomem

  -- `getIfAddrs`
  unfoldable pub get_if_addrs : Found
  unfolding tries
  get_if_addrs = tries max_tries 0 working_buffer_size no_error

-- A system that holds a list, says which length it needs where it is given less, and has memory.
abbrev pub holding : Pointer → ℕ → Adapters
holding adapters need = record {
  allocates = λ n. true;
  call = λ i len.
      if ltb len need
      then record { code = error_buffer_overflow; size = need; adapters = [] }
      else record { code = no_error; size = len; adapters = adapters };
}

-- Whatever length the list needs, it is found within three tries.
pub get_if_addrs-holding :
    (adapters : Pointer) (need : ℕ) → get_if_addrs (holding adapters need) ≡ found adapters
unfolding get_if_addrs tries
get_if_addrs-holding adapters need = ground arith
