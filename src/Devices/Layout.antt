-- ===== src/Devices/Layout.antt =====
-- The array that `daemon_devices_pollfds` fills, and the indices of `daemon_devices_handle`, in
-- tools/src/daemon_devices.c.
use lg_magic.Devices.{Remote, Devices}
use lg_magic.Devices.Handle.{
  to_list, remote_fds, daemon_devices_pollfds, Target, drained, keyboard_of, motion_of, no_target,
  target_in, target, target_fd,
}
use lg_magic.Prelude.{
  ℕ, zero, suc, ◌+◌, ◌<◌, ◌≡◌, refl, sym, ◌∙◌, inl, inr, Bool, true, false, some, Option-cases,
  List, [], ◌∷◌, ◌++◌, ◌==◌, if◌then◌else◌, take, get_elem?, length, arith,
}

-- The remote of a target is in the list, whose first has the number `base`, and has the descriptor
-- as its keyboard or as its motion sensor.
unfoldable pub IsOwned : {D : Type 0} → ℕ → List (Remote D) → Target → Type 0
IsOwned {D = D} base rs (keyboard_of i fd) =
    (j : ℕ) × (r : Remote D) × (i ≡ base + j) × (get_elem? rs j ≡ some r) × (r.kbd ≡ some fd)
IsOwned {D = D} base rs (motion_of i fd) =
    (j : ℕ) × (r : Remote D) × (i ≡ base + j) × (get_elem? rs j ≡ some r) × (r.imu ≡ some fd)
IsOwned base rs (drained fd) = Unit
IsOwned base rs no_target = Unit

at_start : (n idx : ℕ) → idx ≡ n + 0 → (idx == n) ≡ true
at_start n idx at = ground arith

later : (n idx j : ℕ) → idx ≡ n + suc j → (idx == n) ≡ false
later n idx j at = ground arith

second : (n idx : ℕ) → idx ≡ n + 1 → (idx == n + 1) ≡ true
second n idx at = ground arith

later_still : (n idx j : ℕ) → idx ≡ n + suc (suc j) → (idx == n + 1) ≡ false
later_still n idx j at = ground arith

target_in-remote_fds :
    {D : Type 0} (rs : List (Remote D)) (i n idx j : ℕ)
    → idx ≡ n + j
    → target_fd (target_in rs i n idx) ≡ get_elem? (remote_fds rs) j
unfolding target_in target_fd remote_fds to_list
target_in-remote_fds [] i n idx j at = refl
target_in-remote_fds (r ∷ rs) i n idx zero at = elim (Option-cases r.kbd) [
  | inr (k, kbd) ↦ rw (kbd, at_start n idx at) refl
  | inl no_kbd ↦ elim (Option-cases r.imu) [
    | inr (m, imu) ↦ rw (no_kbd, imu, at_start n idx at) refl
    | inl no_imu ↦ rw (no_kbd, no_imu) (target_in-remote_fds rs (suc i) n idx zero at)
  ]
]
target_in-remote_fds (r ∷ rs) i n idx (suc zero) at = elim (Option-cases r.kbd) [
  | inr (k, kbd) ↦ elim (Option-cases r.imu) [
    | inr (m, imu) ↦ rw (kbd, imu, later n idx 0 at, second n idx at) refl
    | inl no_imu ↦
        rw (kbd, no_imu, later n idx 0 at)
          (target_in-remote_fds rs (suc i) (n + 1) idx zero (omega (arith, at)))
  ]
  | inl no_kbd ↦ elim (Option-cases r.imu) [
    | inr (m, imu) ↦
        rw (no_kbd, imu, later n idx 0 at)
          (target_in-remote_fds rs (suc i) (n + 1) idx zero (omega (arith, at)))
    | inl no_imu ↦ rw (no_kbd, no_imu) (target_in-remote_fds rs (suc i) n idx (suc zero) at)
  ]
]
target_in-remote_fds (r ∷ rs) i n idx (suc (suc j)) at = elim (Option-cases r.kbd) [
  | inr (k, kbd) ↦ elim (Option-cases r.imu) [
    | inr (m, imu) ↦
        rw (kbd, imu, later n idx (suc j) at, later_still n idx j at)
          (target_in-remote_fds rs (suc i) (n + 2) idx j (omega (arith, at)))
    | inl no_imu ↦
        rw (kbd, no_imu, later n idx (suc j) at)
          (target_in-remote_fds rs (suc i) (n + 1) idx (suc j) (omega (arith, at)))
  ]
  | inl no_kbd ↦ elim (Option-cases r.imu) [
    | inr (m, imu) ↦
        rw (no_kbd, imu, later n idx (suc j) at)
          (target_in-remote_fds rs (suc i) (n + 1) idx (suc j) (omega (arith, at)))
    | inl no_imu ↦ rw (no_kbd, no_imu) (target_in-remote_fds rs (suc i) n idx (suc (suc j)) at)
  ]
]

behind_inotify :
    {D : Type 0} (rs : List (Remote D)) (fd j : ℕ)
    → target_fd (if j == 0 then drained fd else target_in rs 0 1 j)
      ≡ get_elem? (fd ∷ remote_fds rs) j
unfolding target_fd
behind_inotify rs fd zero = refl
behind_inotify rs fd (suc j) =
    rw (later 0 (suc j) j (omega arith)) (target_in-remote_fds rs 0 1 (suc j) j (omega arith))

target-pollfds :
    {D : Type 0} (dd : Devices D) (idx : ℕ)
    → target_fd (target dd idx) ≡ get_elem? (to_list dd.inotify ++ remote_fds dd.remotes) idx
unfolding target to_list target_fd
target-pollfds dd idx = elim (Option-cases dd.inotify) [
  | inl absent ↦ rw absent (target_in-remote_fds dd.remotes 0 0 idx idx (omega arith))
  | inr (fd, there) ↦ rw there (behind_inotify dd.remotes fd idx)
]

get_elem?-take :
    {A : Type 0} (n : ℕ) (xs : List A) (i : ℕ)
    → i < length (take n xs)
    → get_elem? (take n xs) i ≡ get_elem? xs i
get_elem?-take zero xs i h = absurd (omega arith)
get_elem?-take (suc n) [] i h = absurd (omega arith)
get_elem?-take (suc n) (x ∷ xs) zero h = refl
get_elem?-take (suc n) (x ∷ xs) (suc i) h = get_elem?-take n xs i (omega (arith, h))

IsOwned-behind :
    {D : Type 0} (base : ℕ) (r : Remote D) (rs : List (Remote D)) (t : Target)
    → IsOwned (suc base) rs t
    → IsOwned base (r ∷ rs) t
unfolding IsOwned
IsOwned-behind base r rs (drained fd) h = tt
IsOwned-behind base r rs no_target h = tt
IsOwned-behind base r rs (keyboard_of i fd) (j, owner, at, there, open_) =
    (suc j, owner, omega (arith, at), there, open_)
IsOwned-behind base r rs (motion_of i fd) (j, owner, at, there, open_) =
    (suc j, owner, omega (arith, at), there, open_)

IsOwned-if :
    {D : Type 0} (b : Bool) (base : ℕ) (rs : List (Remote D)) (t u : Target)
    → IsOwned base rs t
    → IsOwned base rs u
    → IsOwned base rs (if b then t else u)
IsOwned-if true base rs t u left right = left
IsOwned-if false base rs t u left right = right

owns_kbd :
    {D : Type 0} (i : ℕ) (r : Remote D) (rs : List (Remote D)) (fd : ℕ)
    → r.kbd ≡ some fd
    → IsOwned i (r ∷ rs) (keyboard_of i fd)
unfolding IsOwned
owns_kbd i r rs fd open_ = (0, r, omega arith, refl, open_)

owns_imu :
    {D : Type 0} (i : ℕ) (r : Remote D) (rs : List (Remote D)) (fd : ℕ)
    → r.imu ≡ some fd
    → IsOwned i (r ∷ rs) (motion_of i fd)
unfolding IsOwned
owns_imu i r rs fd open_ = (0, r, omega arith, refl, open_)

target_in-IsOwned :
    {D : Type 0} (rs : List (Remote D)) (i n idx : ℕ) → IsOwned i rs (target_in rs i n idx)
unfolding target_in
target_in-IsOwned [] i n idx = unfold IsOwned in tt
target_in-IsOwned (r ∷ rs) i n idx =
    let behind = λ (at : ℕ). IsOwned-behind i r rs _ (target_in-IsOwned rs (suc i) at idx) in
    elim (Option-cases r.kbd) [
      | inl no_kbd ↦ elim (Option-cases r.imu) [
        | inl no_imu ↦ simp (no_kbd, no_imu) (behind n)
        | inr (m, imu) ↦
            simp (no_kbd, imu)
              (IsOwned-if (idx == n) i (r ∷ rs) _ _ (owns_imu i r rs m imu) (behind (n + 1)))
      ]
      | inr (k, kbd) ↦ elim (Option-cases r.imu) [
        | inl no_imu ↦
            simp (kbd, no_imu)
              (IsOwned-if (idx == n) i (r ∷ rs) _ _ (owns_kbd i r rs k kbd) (behind (n + 1)))
        | inr (m, imu) ↦
            simp (kbd, imu)
              (IsOwned-if (idx == n) i (r ∷ rs) _ _ (owns_kbd i r rs k kbd)
                (IsOwned-if (idx == n + 1) i (r ∷ rs) _ _ (owns_imu i r rs m imu) (behind (n + 2))))
      ]
    ]

target-IsOwned : {D : Type 0} (dd : Devices D) (idx : ℕ) → IsOwned 0 dd.remotes (target dd idx)
unfolding target
target-IsOwned dd idx = elim (Option-cases dd.inotify) [
  | inl absent ↦ rw absent (target_in-IsOwned dd.remotes 0 0 idx)
  | inr (fd, there) ↦ rw there (
      IsOwned-if (idx == 0) 0 dd.remotes (drained fd) _ (unfold IsOwned in tt)
        (target_in-IsOwned dd.remotes 0 1 idx))
]

-- At each index of the array that `daemon_devices_pollfds` fills, however long it is: what
-- `daemon_devices_handle` reads from for this index is the descriptor that stands there, and it is
-- the keyboard or the motion sensor of the remote to which the handler is applied, or inotify.
pub target_lem :
    {D : Type 0} (dd : Devices D) (nfds idx : ℕ)
    → idx < length (daemon_devices_pollfds dd nfds)
    → (target_fd (target dd idx) ≡ get_elem? (daemon_devices_pollfds dd nfds) idx)
      × IsOwned 0 dd.remotes (target dd idx)
unfolding daemon_devices_pollfds
target_lem dd nfds idx inside = (
  target-pollfds dd idx
      ∙ sym (get_elem?-take nfds (to_list dd.inotify ++ remote_fds dd.remotes) idx inside),
  target-IsOwned dd idx,
)
