-- ===== src/Devices/Freed.antt =====
-- The remotes that tools/src/daemon_devices.c frees, and those that it takes over.
use lg_magic.Devices.{close_fd, Log, Remote}
use lg_magic.Devices.Open.{close_one, remote_free}
use lg_magic.Devices.Rescan.{Wanted, is_same, Slots, steal, free_rest}
use lg_magic.Prelude.{
  ℕ, ◌≡◌, refl, sym, ◌⊎◌, inl, inr, Bool-cases, Option, none, some, List, [], ◌∷◌, ◌++◌,
}

unfoldable pub In : {A : Type 0} → A → List A → Type 0
In x [] = ⊥
In x (y ∷ ys) = (x ≡ y) ⊎ In x ys

-- The log has a call that closes the descriptor, where there is one.
unfoldable pub IsClosed : Option ℕ → Log → Type 0
IsClosed none log = Unit
IsClosed (some fd) log = In (record { call = close_fd fd; answer = none }) log

unfoldable pub IsFreed : {D : Type 0} → Remote D → Log → Type 0
IsFreed e log =
    IsClosed e.kbd log
    × IsClosed e.imu log
    × IsClosed e.kbd_uinput log
    × IsClosed e.mouse_uinput log

pub In-++ : {A : Type 0} (x : A) (xs ys : List A) → In x xs → In x (xs ++ ys)
unfolding In
In-++ x [] ys h = absurd h
In-++ x (z ∷ zs) ys (inl h) = inl h
In-++ x (z ∷ zs) ys (inr h) = inr (In-++ x zs ys h)

pub In-last : {A : Type 0} (x : A) (xs : List A) → In x (xs ++ x ∷ [])
unfolding In
In-last x [] = inl refl
In-last x (z ∷ zs) = inr (In-last x zs)

close_one-IsClosed : (o fd : Option ℕ) (log : Log) → IsClosed fd log → IsClosed fd (close_one o log)
unfolding close_one IsClosed In
close_one-IsClosed none fd log h = h
close_one-IsClosed (some n) none log h = tt
close_one-IsClosed (some n) (some fd) log h = inr h

close_one_closes : (fd : Option ℕ) (log : Log) → IsClosed fd (close_one fd log)
unfolding close_one IsClosed In
close_one_closes none log = tt
close_one_closes (some fd) log = inl refl

remote_free-IsClosed :
    {D : Type 0} (e : Remote D) (fd : Option ℕ) (log : Log)
    → IsClosed fd log
    → IsClosed fd (remote_free e log)
unfolding remote_free
remote_free-IsClosed e fd log h = close_one-IsClosed e.mouse_uinput fd _ (
    close_one-IsClosed e.kbd_uinput fd _
      (close_one-IsClosed e.imu fd _ (close_one-IsClosed e.kbd fd log h)))

remote_free-IsFreed : {D : Type 0} (e : Remote D) (log : Log) → IsFreed e (remote_free e log)
unfolding remote_free IsFreed
remote_free-IsFreed e log = (
  close_one-IsClosed e.mouse_uinput e.kbd _ (
      close_one-IsClosed e.kbd_uinput e.kbd _
        (close_one-IsClosed e.imu e.kbd _ (close_one_closes e.kbd log))),
  close_one-IsClosed e.mouse_uinput e.imu _
      (close_one-IsClosed e.kbd_uinput e.imu _ (close_one_closes e.imu _)),
  close_one-IsClosed e.mouse_uinput e.kbd_uinput _ (close_one_closes e.kbd_uinput _),
  close_one_closes e.mouse_uinput _,
)

free_rest-IsFreed :
    {D : Type 0} (e : Remote D) (es : Slots D) (log : Log)
    → IsFreed e log
    → IsFreed e (free_rest es log)
unfolding free_rest IsFreed
free_rest-IsFreed e [] log h = h
free_rest-IsFreed e (none ∷ es) log h = free_rest-IsFreed e es log h
free_rest-IsFreed e (some x ∷ es) log (a, b, c, d) = free_rest-IsFreed e es (remote_free x log) (
  remote_free-IsClosed x e.kbd log a,
  remote_free-IsClosed x e.imu log b,
  remote_free-IsClosed x e.kbd_uinput log c,
  remote_free-IsClosed x e.mouse_uinput log d,
)

pub free_rest_frees :
    {D : Type 0} (e : Remote D) (es : Slots D) (log : Log)
    → In (some e) es
    → IsFreed e (free_rest es log)
unfolding free_rest In
free_rest_frees e [] log h = absurd h
free_rest_frees e (none ∷ es) log (inl h) = absurd (cc)
free_rest_frees e (none ∷ es) log (inr h) = free_rest_frees e es log h
free_rest_frees e (some x ∷ es) log (inl h) =
    let same : e ≡ x = cc in
    rw same (free_rest-IsFreed x es (remote_free x log) (remote_free-IsFreed x log))
free_rest_frees e (some x ∷ es) log (inr h) = free_rest_frees e es (remote_free x log) h

pub steal-In :
    {D : Type 0} (e : Remote D) (es : Slots D) (w : Wanted)
    → In (some e) es
    → ((steal es w).0 ≡ some e) ⊎ In (some e) (steal es w).1
unfolding steal In
steal-In e [] w h = absurd h
steal-In e (none ∷ es) w (inl h) = absurd (cc)
steal-In e (none ∷ es) w (inr h) = elim (steal-In e es w h) [
  | inl found ↦ inl found
  | inr there ↦ inr (inr there)
]
steal-In e (some x ∷ es) w (inl h) = elim (Bool-cases (is_same x w)) [
  | inl same ↦ rw same (inl (sym h))
  | inr differs ↦ rw differs (inr (inl h))
]
steal-In e (some x ∷ es) w (inr h) = elim (Bool-cases (is_same x w)) [
  | inl same ↦ rw same (inr (inr h))
  | inr differs ↦ elim (steal-In e es w h) [
    | inl found ↦ rw differs (inl found)
    | inr there ↦ rw differs (inr (inr there))
  ]
]
