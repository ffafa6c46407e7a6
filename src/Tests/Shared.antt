-- ===== src/Tests/Shared.antt =====
-- The tables that all clients share, and the limit on open files.
use cmogstored.Prelude.{ℕ, [], ◌∷◌, true, false, some, ◌≡◌, refl, arith, codes, ltb}
use cmogstored.Http.State.{fd_http}
use cmogstored.FsckQueue.Turns.{Clients, fsck_queue_ready-local, fsck_queue_next-local}
use cmogstored.FsckQueue.Turns
use cmogstored.IoUtil.{IoUtil, hash_lookup, cleanup_begin, cleanup_finish}
use cmogstored.IoUtil.Sweep.{
  read, write, run_calls, known, kept, know_calls, unused, Distinct, cleanup-known,
}
use cmogstored.MaxConns.{Rlimit, first_try, set_maxconns}
use cmogstored.MaxConns.Limits.{set_maxconns-stuck}
use cmogstored.Process.{Process}
use cmogstored.FdMap.{MogFd, FdMap, TcpInfo, Socket, fd_get}
use cmogstored.FdMap.Slots.{IsWf, fd_get-IsWf}

abbrev elsewhere : ℕ
elsewhere = 9

abbrev disk : IoUtil
disk = record { st_dev = 8; in_use = true; util = codes "12" }

cleanup-known_example :
    let t =
      cleanup_finish (run_calls (write 8 (codes "34") ∷ read 9 ∷ []) (cleanup_begin (disk ∷ []))) in
    (known (hash_lookup 8 t)
      ≡ kept (
          know_calls 8
            (write 8 (codes "34") ∷ read 9 ∷ [])
            (unused (known (hash_lookup 8 (disk ∷ []))))))
    × Distinct t
unfolding hash_lookup
cleanup-known_example =
    cleanup-known 8 (write 8 (codes "34") ∷ read 9 ∷ []) (disk ∷ []) (refl, true)

abbrev limits : Rlimit
limits = record { rlim_cur = 1024; rlim_max = 4096 }

set_maxconns-stuck_example : set_maxconns 1 10000 limits (λ r. ltb r.rlim_cur 4000) ≡ some limits
unfolding first_try
set_maxconns-stuck_example =
    set_maxconns-stuck 0 10000 limits (λ r. ltb r.rlim_cur 4000) (omega arith) (omega arith)
      (omega arith) refl

abbrev worker : Process
worker = record { pid = 70; id = 0 }

abbrev no_heap : FdMap
no_heap = record { max_fd = 0; fd_map = [] }

fd_get-IsWf_example :
    (m' : FdMap) × (mfd : MogFd) × (fd_get 1024 no_heap 300 ≡ some (m', some mfd))
    × IsWf m'
    × (mfd.fd ≡ 300)
fd_get-IsWf_example =
    fd_get-IsWf 1024 no_heap 300
      (record { numbered = λ i j l k. absurd (omega arith); sized = omega arith }) (omega arith)
      (omega arith)

abbrev quiet : TcpInfo
quiet = record {
  established = true;
  last_data_sent = 7000;
  last_data_recv = 0;
  last_ack_recv = 6000;
  ato = 0;
}

abbrev slot : MogFd
slot = record { fd = 5; fd_type = fd_http }

abbrev socket : Socket
socket = record { info = some quiet; locked = false; shutdown_ok = true }
