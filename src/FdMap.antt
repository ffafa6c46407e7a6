-- ===== src/FdMap.antt =====
-- fdmap.c: the table of one slot to a file descriptor, in heaps of 256, and what the program does
-- with every slot when it runs out of descriptors or shuts down.
pub mod Slots
pub mod Idle
use cmogstored.Prelude.{
  ℕ, zero, suc, ◌+◌, ◌/◌, ◌%◌, ◌*◌, ◌^◌, List, [], ◌∷◌, ◌++◌, Bool, true, false, ◌&&◌, Option, none,
  some, ltb, leb, ◌-◌, length, ◌==◌, if◌then◌else◌, get_elem?,
}
use cmogstored.Http.State.{
  FdType, fd_unused, fd_http, fd_httpget, fd_mgmt, fd_iostat, fd_selfwake, fd_selfpipe, fd_accept,
  fd_file, fd_queue, fd_svc,
}

-- struct mog_fd, without the union
pub record MogFd : Type 0 where
  pub fd : ℕ
  pub fd_type : FdType

-- `fd_map` is a list of heaps, and `fd_heaps` is its length
pub record FdMap : Type 0 where
  pub max_fd : ℕ
  pub fd_map : List (List MogFd)

abbrev pub fd_per_heap : ℕ
fd_per_heap = 256

unfoldable pub heap_elem : List (List MogFd) → ℕ → ℕ → Option MogFd
heap_elem [] i j = none
heap_elem (heap ∷ heaps) zero j = get_elem? heap j
heap_elem (heap ∷ heaps) (suc i) j = heap_elem heaps i j

unfoldable pub aref : FdMap → ℕ → Option MogFd
unfolding heap_elem
aref m fd = heap_elem m.fd_map (fd / fd_per_heap) (fd % fd_per_heap)

-- the slots of a new heap, for descriptors from `first` on
unfoldable pub new_heap : ℕ → ℕ → List MogFd
new_heap zero first = []
new_heap (suc n) first = record { fd = first; fd_type = fd_unused } ∷ new_heap n (suc first)

-- `fd_map_init`: the entries of the array, with `open_max` from sysconf(_SC_OPEN_MAX)
abbrev pub slots_of : ℕ → ℕ
slots_of open_max = open_max / fd_per_heap + 1

abbrev pub int_max : ℕ
int_max = 2 ^ 31 - 1

-- One turn of the loop of `grow_ref`. None stands for a write outside the array, or for an overflow
-- of `max_fd`, which is an int.
unfoldable pub grow : ℕ → FdMap → Option FdMap
grow open_max m =
    if ltb (length m.fd_map) (slots_of open_max) && leb (m.max_fd + fd_per_heap) int_max
    then some (record {
      max_fd = m.max_fd + fd_per_heap;
      fd_map = m.fd_map ++ new_heap fd_per_heap m.max_fd ∷ [];
    })
    else none

-- `grow_ref`, for at most so many turns of its loop
unfoldable pub grow_ref : ℕ → ℕ → FdMap → ℕ → Option FdMap
grow_ref open_max zero m fd = some m
grow_ref open_max (suc turns) m fd =
    let rest : Option FdMap = elim (grow open_max m) [
      | none ↦ none
      | some m' ↦ grow_ref open_max turns m' fd
    ] in
    if ltb fd m.max_fd then some m else rest

-- `mog_fd_get`: the map that holds the slot; each turn of the loop raises `max_fd`. None also
-- stands for the assertion "fd too large".
unfoldable pub fd_get : ℕ → FdMap → ℕ → Option (FdMap × Option MogFd)
fd_get open_max m fd =
    if ltb fd m.max_fd
    then some (m, aref m fd)
    else if ltb fd int_max
    then elim (grow_ref open_max (suc fd) m fd) [ none ↦ none | some m' ↦ some (m', aref m' fd) ]
    else none

-- struct tcp_info, the fields that are read
pub record TcpInfo : Type 0 where
  pub established : Bool
  pub last_data_sent : ℕ
  pub last_data_recv : ℕ
  pub last_ack_recv : ℕ
  pub ato : ℕ

unfoldable pub tcp_timedout : TcpInfo → ℕ → Bool
tcp_timedout info msec =
    let send_timedout = ltb msec info.last_data_sent in
    if info.ato == 0
    then send_timedout && ltb msec info.last_ack_recv
    else send_timedout && ltb msec info.last_data_recv

-- What the system says of a descriptor: its TCP_INFO, if getsockopt(2) gives it, whether another
-- thread holds its lock, and whether shutdown(2) would succeed.
pub record Socket : Type 0 where
  pub info : Option TcpInfo
  pub locked : Bool
  pub shutdown_ok : Bool

-- the descriptors that are shut down: none or one
unfoldable pub expire_http : MogFd → Socket → ℕ → List ℕ
expire_http mfd s msec = elim s.info [
  | none ↦ []
  | some info ↦
      if info.established && tcp_timedout info msec && s.shutdown_ok then mfd.fd ∷ [] else []
]

abbrev pub is_http_client : FdType → Bool
is_http_client fd_http = true
is_http_client fd_httpget = true
is_http_client _ = false

unfoldable pub expire_slot : MogFd → Socket → ℕ → List ℕ
expire_slot mfd s msec =
    if s.locked then [] else if is_http_client mfd.fd_type then expire_http mfd s msec else []

-- The loop of `mog_fdmap_expire` over the slots from descriptor 3 on: those that are shut down,
-- in their order; the result of the function is their number. Milliseconds wrap around.
unfoldable pub expire_slots : List MogFd → (ℕ → Socket) → ℕ → List ℕ
unfolding expire_slot
expire_slots [] sock msec = []
expire_slots (mfd ∷ mfds) sock msec =
    expire_slot mfd (sock mfd.fd) msec ++ expire_slots mfds sock msec

abbrev pub msec_of : ℕ → ℕ
msec_of sec = (sec * 1000) % 2 ^ 32

unfoldable pub is_client : FdType → Bool
is_client fd_http = true
is_client fd_httpget = true
is_client fd_mgmt = true
is_client _ = false

-- `mog_fdmap_requeue`, over the slots from the first one: the descriptors in the order in which
-- they are pushed, from the last one down
unfoldable pub fdmap_requeue : List MogFd → List ℕ
unfolding is_client
fdmap_requeue [] = []
fdmap_requeue (mfd ∷ mfds) =
    let rest = fdmap_requeue mfds in if is_client mfd.fd_type then rest ++ mfd.fd ∷ [] else rest
