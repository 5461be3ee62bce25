-- ===== src/Dbus/Ending.antt =====
-- The loop of `bus_call` of tools/src/dbus_client.c and how many rounds it takes.
use lg_magic.Dbus.Call.{
  CallError, Message, Step, answered, signal_passed, found_step, message_step, u32_at, header_pad,
  check_fixed, received, receive, read_rest, read_message, Reply, await,
}
use lg_magic.Dbus.Chunks.{ReadsFirst, readn-ReadsFirst}
use lg_magic.Dbus.Fields.{Found}
use lg_magic.Dbus.Stream.{ReadError, Stream, all_bytes, readn}
use lg_magic.Prelude.Result.{Result, ok, err, ◌>>=◌, ◌>>◌}
use lg_magic.Prelude.{
  ℕ, zero, suc, ◌+◌, ◌-◌, ◌≤◌, ◌<◌, ◌≡◌, refl, sym, ap, some, List, [], ◌∷◌, ◌==◌, leb, length,
  drop, Bool-cases, leb→le, arith, inl, inr, ◌⊎◌,
}
use mathlib.Core.Path.{subst}

length-drop : (n : ℕ) (xs : List ℕ) → length (drop n xs) ≡ length xs - n
length-drop zero xs = omega arith
length-drop (suc n) [] = omega arith
length-drop (suc n) (x ∷ xs) = omega (arith, length-drop n xs)

-- A result whose stream has `k` bytes less than `n`, or fewer still.
unfoldable Takes : {E A : Type 0} → ℕ → ℕ → Result E (A × Stream) → Type 0
Takes k n (err e) = Unit
Takes k n (ok (a, after)) = length (all_bytes after) + k ≤ n

readn-Takes : (n : ℕ) (s : Stream) → Takes n (length (all_bytes s)) (readn n s)
unfolding Takes ReadsFirst
readn-Takes n s =
    let whole = length (all_bytes s) in
    let (reads, fails) = readn-ReadsFirst n s in
    elim (Bool-cases (leb n whole)) [
      | inl enough ↦
          let inside = leb→le n whole enough in
          let (after, read, bytes_are, end_is) = reads inside in
          subst (Takes n whole) (sym read)
            (omega (arith, inside, ap length bytes_are, length-drop n (all_bytes s)))
      | inr short ↦ subst (Takes n whole) (sym (fails (ground (arith, short)))) tt
    ]

received-Takes :
    (k n : ℕ) (r : Result ReadError (List ℕ × Stream)) → Takes k n r → Takes k n (received r)
unfolding Takes received
received-Takes k n (err e) takes = tt
received-Takes k n (ok got) takes = takes

receive-Takes : (n : ℕ) (s : Stream) → Takes n (length (all_bytes s)) (receive n s)
unfolding receive
receive-Takes n s = received-Takes n (length (all_bytes s)) (readn n s) (readn-Takes n s)

-- Chains of results.
Takes-bind :
    {A B : Type 0} (k n : ℕ) (r : Result CallError (A × Stream))
    (next : A × Stream → Result CallError (B × Stream))
    → Takes k n r
    → ((a : A) (after : Stream) → length (all_bytes after) + k ≤ n → Takes k n (next (a, after)))
    → Takes k n (r >>= next)
unfolding Takes
Takes-bind k n (err e) next takes further = tt
Takes-bind k n (ok (a, after)) next takes further = further a after takes

Takes-check :
    {A : Type 0} (k n : ℕ) (checked : Result CallError (Unit {0}))
    (r : Result CallError (A × Stream))
    → Takes k n r
    → Takes k n (checked >> r)
unfolding Takes
Takes-check k n (err e) r takes = tt
Takes-check k n (ok x) r takes = takes

Takes-le :
    {A : Type 0} (j k m n : ℕ) (r : Result CallError (A × Stream))
    → k + m ≤ n + j
    → Takes j m r
    → Takes k n r
unfolding Takes
Takes-le j k m n (err e) less takes = tt
Takes-le j k m n (ok (a, after)) less takes = omega (arith, takes, less)

-- A message takes up 16 bytes or more.
read_rest-Takes : (fixed : List ℕ) (s : Stream) → Takes 0 (length (all_bytes s)) (read_rest fixed s)
unfolding read_rest Takes
read_rest-Takes fixed s =
    let n = length (all_bytes s) in
    let k = u32_at fixed 12 + header_pad (u32_at fixed 12) + u32_at fixed 4 in
    Takes-check 0 n (check_fixed fixed) _ (
      Takes-bind 0 n (receive k s) _
        (Takes-le k 0 n n (receive k s) (omega arith) (receive-Takes k s)) λ rest after less. less)

read_message-Takes : (s : Stream) → Takes 16 (length (all_bytes s)) (read_message s)
unfolding read_message
read_message-Takes s =
    let n = length (all_bytes s) in
    Takes-bind 16 n (receive 16 s) _ (receive-Takes 16 s) λ fixed after less.
      Takes-le 0 16 (length (all_bytes after)) n (read_rest fixed after) (omega (arith, less))
        (read_rest-Takes fixed after)

-- The stream behind a signal.
unfoldable Passes : ℕ → Step → Type 0
Passes n (answered result) = Unit
Passes n (signal_passed after) = length (all_bytes after) + 16 ≤ n

found_step-Passes :
    (failed : List ℕ) (serial n : ℕ) (m : Message) (after : Stream) (found : Result CallError Found)
    → length (all_bytes after) + 16 ≤ n
    → Passes n (found_step failed serial m after found)
unfolding found_step Passes
found_step-Passes failed serial n m after (err e) less = tt
found_step-Passes failed serial n m after (ok found) less = elim (Bool-cases (m.type == 4)) [
  | inl signal ↦ rw (signal, Passes) less
  | inr reply ↦ rw (reply, Passes) tt
]

message_step-Passes :
    (failed : List ℕ) (serial n : ℕ) (r : Result CallError (Message × Stream))
    → Takes 16 n r
    → Passes n (message_step failed serial r)
unfolding message_step Passes Takes
message_step-Passes failed serial n (err e) takes = tt
message_step-Passes failed serial n (ok (m, after)) takes =
    found_step-Passes failed serial n m after _ takes

Step-cases :
    (step : Step)
    → ((r : Result CallError (Reply × Stream)) × (step ≡ answered r))
      ⊎ ((after : Stream) × (step ≡ signal_passed after))
Step-cases (answered r) = inl (r, refl)
Step-cases (signal_passed after) = inr (after, refl)

-- With more rounds than there are bytes to read, the loop ends.
pub await_ends :
    (failed : List ℕ) (fuel serial : ℕ) (s : Stream)
    → length (all_bytes s) < fuel
    → (result : Result CallError (Reply × Stream)) × (await failed fuel serial s ≡ some result)
unfolding await Passes
await_ends failed zero serial s enough = absurd (omega arith)
await_ends failed (suc fuel) serial s enough =
    let n = length (all_bytes s) in
    let passes = message_step-Passes failed serial n (read_message s) (read_message-Takes s) in
    elim (Step-cases (message_step failed serial (read_message s))) [
      | inl (result, ends) ↦ (result, rw (ends, await) refl)
      | inr (after, signal) ↦
          let less : length (all_bytes after) + 16 ≤ n = subst (Passes n) signal passes in
          let (result, ends) = await_ends failed fuel serial after (omega (arith, less, enough)) in
          (result, rw (signal, await) ends)
    ]
