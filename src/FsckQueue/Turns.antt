-- ===== src/FsckQueue/Turns.antt =====
-- fsck_queue.c: any number of clients on any number of devices, in any order.
use cmogstored.Prelude.{
  ℕ, Bool, ◌+◌, ◌≤◌, ◌<◌, List, [], ◌∷◌, ◌++◌, true, false, Option, none, some, ◌≡◌, refl, ◌≢◌, ◌⊎◌,
  inl, inr, arith, ltb, ◌==◌, if◌then◌else◌, Bool-cases, ==_iff, ◌∙◌,
}
use cmogstored.FsckQueue.{
  FsckQueue, new_queue, fsck_queue_for, put_queue, enter, leave, decrement, fsck_queue_ready,
  fsck_queue_next,
}

-- The clients of one device: `running` have been let in and not left, `waiting` have asked and
-- were not let in, in that order, and `scheduled` were pushed to the active queue by one that left,
-- and have not asked again.
pub record Clients : Type 0 where
  pub running : List ℕ
  pub waiting : List ℕ
  pub scheduled : List ℕ

abbrev pub first : List ℕ → Option ℕ
first [] = none
first (c ∷ cs) = some c

abbrev without_first : List ℕ → List ℕ
without_first [] = []
without_first (c ∷ cs) = cs

-- those who wait after one of them may have been pushed
abbrev still_waiting : Option ℕ → List ℕ → List ℕ
still_waiting none cs = cs
still_waiting (some c) cs = without_first cs

-- a client that was let in, or waits behind the others
abbrev let_in : Bool → ℕ → List ℕ → List ℕ
let_in true c running = c ∷ running
let_in false c running = running

abbrev put_off : Bool → ℕ → List ℕ → List ℕ
put_off true c waiting = waiting
put_off false c waiting = waiting ++ c ∷ []

abbrev push : Option ℕ → List ℕ → List ℕ
push none cs = cs
push (some c) cs = cs ++ c ∷ []

-- One operation on one device. A client asks for the first time, or as the first that is
-- scheduled; or one that runs leaves.
pub data Step : FsckQueue → Clients → FsckQueue → Clients → Type 0 where
  asks :
      (c : ℕ) (fq : FsckQueue) (cl : Clients)
      → Step fq cl (enter c fq).1 (record cl {
        running = let_in (enter c fq).0 c cl.running;
        waiting = put_off (enter c fq).0 c cl.waiting;
      })
  asks_again :
      (c : ℕ) (cs : List ℕ) (fq : FsckQueue) (running waiting : List ℕ)
      → Step fq
          (record { running = running; waiting = waiting; scheduled = c ∷ cs })
          (enter c fq).1
          (record {
            running = let_in (enter c fq).0 c running;
            waiting = put_off (enter c fq).0 c waiting;
            scheduled = cs;
          })
  leaves :
      (c : ℕ) (cs : List ℕ) (fq : FsckQueue) (waiting scheduled : List ℕ)
      → Step fq
          (record { running = c ∷ cs; waiting = waiting; scheduled = scheduled })
          (leave fq).1
          (record {
            running = cs;
            waiting = still_waiting (leave fq).0 waiting;
            scheduled = push (leave fq).0 scheduled;
          })

pub data Reaches : FsckQueue → Clients → Type 0 where
  start :
      (dev : ℕ) → Reaches (new_queue dev) (record { running = []; waiting = []; scheduled = [] })
  step :
      (fq : FsckQueue) (cl : Clients) (fq' : FsckQueue) (cl' : Clients)
      → Reaches fq cl
      → Step fq cl fq' cl'
      → Reaches fq' cl'

abbrev pub count : List ℕ → ℕ
count [] = 0
count (c ∷ cs) = count cs + 1

pub record IsFair (fq : FsckQueue) (cl : Clients) : Type 0 where
  pub one : fq.max_active ≡ 1
  pub counted : fq.active ≡ count cl.running
  pub bounded : count cl.running ≤ 1
  pub remembered : fq.qhead ≡ cl.waiting
  pub in_order : 0 < count cl.running → (leave fq).0 ≡ first cl.waiting
  pub not_stuck : (cl.waiting ≡ []) ⊎ (0 < count cl.running + count cl.scheduled)

waiting_cases : (cs : List ℕ) → (cs ≡ []) ⊎ ((c : ℕ) × (rest : List ℕ) × (cs ≡ c ∷ rest))
waiting_cases [] = inl refl
waiting_cases (c ∷ rest) = inr (c, rest, refl)

enter-dev : (c : ℕ) (fq : FsckQueue) → (enter c fq).1.st_dev ≡ fq.st_dev
unfolding enter
enter-dev c fq = elim (Bool-cases (ltb fq.active fq.max_active)) [
  | inl free ↦ rw free refl
  | inr full ↦ rw full refl
]

leave-dev : (fq : FsckQueue) → (leave fq).1.st_dev ≡ fq.st_dev
unfolding leave
leave-dev fq = elim (Bool-cases (ltb (decrement fq.active) fq.max_active)) [
  | inl free ↦ elim (waiting_cases fq.qhead) [
    | inl empty ↦ rw (free, empty) refl
    | inr (next, rest, some_wait) ↦ rw (free, some_wait) refl
  ]
  | inr full ↦ rw full refl
]

queue_for-put :
    (dev : ℕ) (new : FsckQueue) (fqs : List FsckQueue)
    → fsck_queue_for dev (put_queue new fqs)
      ≡ (if new.st_dev == dev then new else fsck_queue_for dev fqs)
unfolding fsck_queue_for put_queue
queue_for-put dev new [] = refl
queue_for-put dev new (fq ∷ fqs) =
    let ih = queue_for-put dev new fqs in
    elim (Bool-cases (fq.st_dev == new.st_dev)) [
      | inl same ↦
          let s : fq.st_dev ≡ new.st_dev = (==_iff _ _).0 same in
          elim (Bool-cases (new.st_dev == dev)) [
            | inl e ↦ rw (same, e) refl
            | inr e ↦ rw (same, s, e) refl
          ]
      | inr other ↦ elim (Bool-cases (fq.st_dev == dev)) [
        | inl e ↦ let n : (new.st_dev == dev) ≡ false = ground arith in rw (other, e, n) refl
        | inr e ↦ rw (other, e) ih
      ]
    ]

queue_for-dev : (dev : ℕ) (fqs : List FsckQueue) → (fsck_queue_for dev fqs).st_dev ≡ dev
unfolding fsck_queue_for
queue_for-dev dev [] = refl
queue_for-dev dev (fq ∷ fqs) = elim (Bool-cases (fq.st_dev == dev)) [
  | inl same ↦ rw same ((==_iff _ _).0 same)
  | inr other ↦ rw other (queue_for-dev dev fqs)
]

eq_refl : (n : ℕ) → (n == n) ≡ true
eq_refl n = ground arith

-- A client that asks for a device changes the queue of that device, by the step of one queue, and
-- of no other device.
pub fsck_queue_ready-local :
    (client dev d : ℕ) (fqs : List FsckQueue)
    → let r = fsck_queue_ready client (some dev) fqs in
      (r.0 ≡ (enter client (fsck_queue_for dev fqs)).0)
      × (fsck_queue_for dev r.1 ≡ (enter client (fsck_queue_for dev fqs)).1)
      × (d ≢ dev → fsck_queue_for d r.1 ≡ fsck_queue_for d fqs)
unfolding fsck_queue_ready
fsck_queue_ready-local client dev d fqs =
    let fq = (enter client (fsck_queue_for dev fqs)).1 in
    let here : fq.st_dev ≡ dev =
      enter-dev client (fsck_queue_for dev fqs) ∙ queue_for-dev dev fqs in
    (
      refl,
      queue_for-put dev fq fqs ∙ rw (here, eq_refl dev) refl,
      λ far.
          let n : (fq.st_dev == d) ≡ false = rw here (ground arith) in
          queue_for-put d fq fqs ∙ rw n refl,
    )

-- A client that leaves a device changes the queue of that device, by the step of one queue, and
-- of no other device.
pub fsck_queue_next-local :
    (dev d : ℕ) (fqs : List FsckQueue)
    → let r = fsck_queue_next (some dev) fqs in
      (r.0 ≡ (leave (fsck_queue_for dev fqs)).0)
      × (fsck_queue_for dev r.1 ≡ (leave (fsck_queue_for dev fqs)).1)
      × (d ≢ dev → fsck_queue_for d r.1 ≡ fsck_queue_for d fqs)
unfolding fsck_queue_next
fsck_queue_next-local dev d fqs =
    let fq = (leave (fsck_queue_for dev fqs)).1 in
    let here : fq.st_dev ≡ dev = leave-dev (fsck_queue_for dev fqs) ∙ queue_for-dev dev fqs in
    (
      refl,
      queue_for-put dev fq fqs ∙ rw (here, eq_refl dev) refl,
      λ far.
          let n : (fq.st_dev == d) ≡ false = rw here (ground arith) in
          queue_for-put d fq fqs ∙ rw n refl,
    )
