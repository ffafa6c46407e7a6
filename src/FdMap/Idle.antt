-- ===== src/FdMap/Idle.antt =====
-- fdmap.c: which connections are dropped, and which are pushed for the shutdown.
use cmogstored.Prelude.{
  ℕ, ◌<◌, [], ◌∷◌, true, false, ◌&&◌, none, some, if◌then◌else◌, ◌≡◌, refl, ◌∙◌, ◌↔◌, ◌⊎◌, inl, inr,
  Bool-cases, arith, Option-cases,
}
use cmogstored.FdMap.{
  MogFd, TcpInfo, Socket, tcp_timedout, expire_http, is_http_client, expire_slot,
}

-- A connection counts as idle exactly if no data has been sent for more than the time given, and
-- nothing has been received either; where the kernel's receive time is not valid, the time of the
-- last ACK is taken for it.
tcp_timedout_iff :
    (info : TcpInfo) (msec : ℕ)
    → (tcp_timedout info msec ≡ true) ↔ (
        (msec < info.last_data_sent)
        × (((info.ato ≡ 0) × (msec < info.last_ack_recv))
            ⊎ ((0 < info.ato) × (msec < info.last_data_recv))))
unfolding tcp_timedout
tcp_timedout_iff info msec = ground arith

expire_http-unknown :
    (mfd : MogFd) (s : Socket) (msec : ℕ) → s.info ≡ none → expire_http mfd s msec ≡ []
unfolding expire_http
expire_http-unknown mfd s msec e = rw e refl

expire_http-known :
    (mfd : MogFd) (s : Socket) (msec : ℕ) (info : TcpInfo)
    → s.info ≡ some info
    → expire_http mfd s msec
      ≡ (if info.established && tcp_timedout info msec && s.shutdown_ok then mfd.fd ∷ [] else [])
unfolding expire_http
expire_http-known mfd s msec info e = rw e refl

-- A slot is shut down exactly if no other thread is closing it, it is an HTTP client's, and its
-- connection is established, idle for longer than the time given, and can be shut down; otherwise
-- nothing is.
expire_slot_iff :
    (mfd : MogFd) (s : Socket) (msec : ℕ)
    → ((expire_slot mfd s msec ≡ mfd.fd ∷ [])
        × (s.locked ≡ false)
        × (is_http_client mfd.fd_type ≡ true)
        × ((info : TcpInfo) × (s.info ≡ some info)
            × (info.established ≡ true)
            × (tcp_timedout info msec ≡ true)
            × (s.shutdown_ok ≡ true)))
      ⊎ ((expire_slot mfd s msec ≡ [])
          × ((s.locked ≡ true)
              ⊎ (is_http_client mfd.fd_type ≡ false)
              ⊎ (s.info ≡ none)
              ⊎ (s.shutdown_ok ≡ false)
              ⊎ ((info : TcpInfo) × (s.info ≡ some info)
                  × ((info.established ≡ false) ⊎ (tcp_timedout info msec ≡ false)))))
unfolding expire_slot
expire_slot_iff mfd s msec = elim (Bool-cases s.locked) [
  | inl busy ↦ rw busy (inr (refl, inl refl))
  | inr free ↦ elim (Bool-cases (is_http_client mfd.fd_type)) [
    | inr other ↦ rw (free, other) (inr (refl, inr (inl refl)))
    | inl http ↦ elim (Option-cases s.info) [
      | inl unknown ↦
          simp (free, http, expire_http-unknown mfd s msec unknown)
            (inr (refl, inr (inr (inl unknown))))
      | inr (info, known) ↦
          let e = expire_http-known mfd s msec info known in
          elim (Bool-cases info.established) [
            | inr closed_ ↦
                let r : expire_http mfd s msec ≡ [] = e ∙ rw closed_ refl in
                simp (free, http, r) (inr (refl, inr (inr (inr (inr (info, known, inl closed_))))))
            | inl est ↦ elim (Bool-cases (tcp_timedout info msec)) [
              | inr fresh ↦
                  let r : expire_http mfd s msec ≡ [] = e ∙ rw (fresh, est) refl in
                  simp (free, http, r) (inr (refl, inr (inr (inr (inr (info, known, inr fresh))))))
              | inl idle ↦ elim (Bool-cases s.shutdown_ok) [
                | inl ok ↦
                    let r : expire_http mfd s msec ≡ mfd.fd ∷ [] = e ∙ rw (idle, est, ok) refl in
                    simp (free, http, r) (inl (refl, refl, refl, (info, known, est, idle, ok)))
                | inr bad ↦
                    let r : expire_http mfd s msec ≡ [] = e ∙ rw (idle, est, bad) refl in
                    simp (free, http, r) (inr (refl, inr (inr (inr (inl bad)))))
              ]
            ]
          ]
    ]
  ]
]
