-- ===== src/Server/Sets/Socket.antt =====
-- The raw socket on which src/rh-ipset.c talks to the kernel, opened for each request, and the version of
-- its protocol, which is asked for once: `kernel_getsocket`, the four calls that wrap a request, and
-- `check_protocolversion`.
use rahunas.Prelude.{
  ℕ, zero, suc, ◌≡◌, ◌≢◌, refl, ◌⊎◌, inl, inr, Bool, true, List, [], ◌∷◌, Option, Bool-cases, arith,
  ◌==◌, not, if◌then◌else◌, ◌+◌, ◌≤◌,
}
use rahunas.Server.Run.{Run, returned, exits, ◌>>=◌}

-- `shut`: `shutdown` and `close`.
pub data SocketCall : Type 0 where
  socket getsockopt setsockopt shut : SocketCall
  sleep : ℕ → SocketCall

-- The answers, by the whole history: whether a socket is opened, and whether a request fails, and then
-- with which error.
pub record SocketHost : Type 0 where
  pub opens : List SocketCall → Bool
  pub fails : List SocketCall → Option ℕ
  -- the version in the request, which the kernel has written or not
  pub version : List SocketCall → ℕ

-- The argument is how many tries are left.
unfoldable pub getsocket_tries : ℕ → SocketHost → List SocketCall → Run (List SocketCall)
getsocket_tries zero k log = exits
getsocket_tries (suc tries) k log =
    let again = getsocket_tries tries k (sleep 2 ∷ socket ∷ log) in
    if k.opens (socket ∷ log) then returned (socket ∷ log) else again

-- `GETSOCK_TRIES`.
unfoldable pub kernel_getsocket : SocketHost → List SocketCall → Run (List SocketCall)
unfolding getsocket_tries
kernel_getsocket k log = getsocket_tries 5 k log

-- `wrapped_getsockopt` and `wrapped_setsockopt`, by the call that they make: the error, if there is one.
unfoldable pub wrapped_sockopt :
    SocketCall → SocketHost → List SocketCall → Run (Option ℕ × List SocketCall)
unfolding kernel_getsocket
wrapped_sockopt call k log =
    kernel_getsocket k log >>= λ opened. returned (k.fails (call ∷ opened), shut ∷ call ∷ opened)

-- `kernel_getfrom` and `kernel_sendto`: an error is dropped.
unfoldable pub kernel_request : SocketCall → SocketHost → List SocketCall → Run (List SocketCall)
unfolding wrapped_sockopt
kernel_request call k log = wrapped_sockopt call k log >>= λ r. returned r.1

-- The static variable `protocol_version` is 0 until it is set. A version that is not known, and an error,
-- are only printed.
unfoldable pub check_protocolversion : SocketHost → ℕ → List SocketCall → Run (ℕ × List SocketCall)
unfolding wrapped_sockopt
check_protocolversion k protocol_version log =
    if not (protocol_version == 0)
    then returned (protocol_version, log)
    else wrapped_sockopt getsockopt k log >>= λ r. returned (k.version r.1, r.1)

-- The calls on the socket of a history.
abbrev tried : List SocketCall → ℕ
tried [] = 0
tried (socket ∷ log) = suc (tried log)
tried (getsockopt ∷ log) = tried log
tried (setsockopt ∷ log) = tried log
tried (shut ∷ log) = tried log
tried (sleep n ∷ log) = tried log

-- A socket that is given was opened, after no more calls than there were tries.
record Opened (k : SocketHost) (tries : ℕ) (log opened : List SocketCall) : Type 0 where
  answered : k.opens opened ≡ true
  few : tried opened ≤ tries + tried log

-- The search leaves the process or gives a socket.
getsocket_tries-Opened :
    (tries : ℕ) (k : SocketHost) (log : List SocketCall)
    → (getsocket_tries tries k log ≡ exits)
      ⊎ ((opened : List SocketCall) × ((getsocket_tries tries k log ≡ returned opened)
            × Opened k tries log opened))
unfolding getsocket_tries
getsocket_tries-Opened zero k log = inl refl
getsocket_tries-Opened (suc tries) k log = elim (Bool-cases (k.opens (socket ∷ log))) [
  | inl e ↦ inr (socket ∷ log, (rw e refl, record { answered = e; few = omega arith }))
  | inr e ↦ elim (getsocket_tries-Opened tries k (sleep 2 ∷ socket ∷ log)) [
    | inl gone ↦ inl (rw e gone)
    | inr (opened, (gives, o)) ↦
        inr (opened, (rw e gives, record { answered = o.answered; few = omega (arith, o.few) }))
  ]
]

-- A version that was stored and is not 0 is never asked for again, even if the kernel's answer failed.
check_protocolversion-kept :
    (k : SocketHost) (v : ℕ) (log : List SocketCall)
    → v ≢ 0
    → check_protocolversion k v log ≡ returned (v, log)
unfolding check_protocolversion
check_protocolversion-kept k v log ne = let set : not (v == 0) ≡ true = ground arith in rw set refl
