-- ===== src/Session/Ipset.antt =====
-- The changes of the kernel's sets: `set_adtip_nb`, `set_ipiphash_adtip_nb` and
-- `kernel_sendto_handleerrno` of src/rh-ipset.c, and the session part of src/rh-task-ipset.c.
-- The layout of the request in memory, and the check of the protocol's version that decides it, are
-- left out: a request is its operation, the index of the set, and what is added or removed.
use rahunas.Host.{
  Host, SetOp, add_ip, del_ip, test_ip, adt, adt_pair, SockReply, sent, exists, failed,
}
use rahunas.Mac.{parse_mac}
use rahunas.Prelude.{ℕ, Bool, true, false, [], ◌∷◌, Option, none, some}
use rahunas.Session.{Sess, ask, minus_one}
use rahunas.Text.{Bytes}
use rahunas.Utils.Ip.{idtoip}

-- `kernel_sendto_handleerrno(...) == -1`: only `EEXIST` is told.
unfoldable pub kernel_sendto_handleerrno : SockReply → Bool
kernel_sendto_handleerrno exists = true
kernel_sendto_handleerrno sent = false
kernel_sendto_handleerrno failed = false

-- The two switches at the end of both functions. `RH_IS_IN_SET` is 0 and `RH_IS_NOT_IN_SET` is 1.
unfoldable pub adt_result : Bool → SetOp → ℕ
adt_result true add_ip = 0
adt_result true del_ip = 1
adt_result true test_ip = 0
adt_result false test_ip = 1
adt_result false add_ip = 0
adt_result false del_ip = 0

unfoldable pub set_adtip_nb : Host → Option ℕ → ℕ → Bytes → SetOp → Sess → Sess × ℕ
unfolding kernel_sendto_handleerrno adt_result
set_adtip_nb h none adtip adtmac op s = (s, minus_one)
set_adtip_nb h (some index) adtip adtmac op s =
    let asked = ask (adt op index adtip adtmac) s in
    (asked, adt_result (kernel_sendto_handleerrno (h.setsockopt asked.log)) op)

unfoldable pub set_ipiphash_adtip_nb : Host → Option ℕ → ℕ → ℕ → SetOp → Sess → Sess × ℕ
unfolding kernel_sendto_handleerrno adt_result
set_ipiphash_adtip_nb h none ip ip1 op s = (s, minus_one)
set_ipiphash_adtip_nb h (some index) ip ip1 op s =
    let asked = ask (adt_pair op index ip ip1) s in
    (asked, adt_result (kernel_sendto_handleerrno (h.setsockopt asked.log)) op)

-- `parse_ip` leaves an uninitialised variable as it is where the text is no address: `garbage`.
unfoldable pub parse_ip : Host → ℕ → Bytes → ℕ
parse_ip h garbage str = elim (h.inet_aton str) [ none ↦ garbage | some ip ↦ ip ]

-- With the addresses as texts, which nothing calls; the arguments before the texts are what the
-- variables on the stack hold.
unfoldable pub set_adtip : Host → ℕ → Option ℕ → Bytes → Bytes → SetOp → Sess → Sess × ℕ
unfolding set_adtip_nb parse_ip
set_adtip h garbage rahunas_set adtip adtmac op s =
    set_adtip_nb h rahunas_set (parse_ip h garbage adtip)
      (parse_mac adtmac (0 ∷ 0 ∷ 0 ∷ 0 ∷ 0 ∷ 0 ∷ [])) op s

unfoldable pub set_ipiphash_adtip :
    Host → ℕ → ℕ → Option ℕ → Bytes → Bytes → SetOp → Sess → Sess × ℕ
unfolding set_ipiphash_adtip_nb parse_ip
set_ipiphash_adtip h garbage garbage1 rahunas_set ip ip1 op s =
    set_ipiphash_adtip_nb h rahunas_set (parse_ip h garbage ip) (parse_ip h garbage1 ip1) op s

-- `startsess` and `stopsess` of the task.
unfoldable pub sess_ip : Host → Sess → ℕ
unfolding parse_ip idtoip
sess_ip h s = parse_ip h 0 (idtoip h.inet_ntoa (some s.vs.v_map) s.req.id)

unfoldable pub startsess : Host → Sess → Sess × ℕ
unfolding sess_ip set_adtip_nb
startsess h s = set_adtip_nb h s.vs.v_set (sess_ip h s) s.req.mac_address add_ip s

unfoldable pub stopsess : Host → Sess → Sess × ℕ
unfolding sess_ip set_adtip_nb
stopsess h s = set_adtip_nb h s.vs.v_set (sess_ip h s) s.req.mac_address del_ip s
