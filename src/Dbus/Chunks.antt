-- ===== src/Dbus/Chunks.antt =====
-- The reading of tools/src/dbus_client.c and the pieces in which bytes arrive.
use lg_magic.Dbus.Stream.{
  Arrival, arrived, interrupted, closed, broken, silent, ReadError, Stream, arriving, ending,
  all_bytes, readn_from, readn,
}
use lg_magic.Prelude.Result.{Result, ok, err}
use lg_magic.Prelude.{
  ℕ, zero, suc, ◌-◌, ◌≤◌, ◌<◌, ◌≡◌, refl, sym, ap, ◌∙◌, List, [], ◌∷◌, ◌++◌, leb, if◌then◌else◌,
  length, take, drop, length-append, Bool-cases, leb→le, arith, inl, inr,
}
use mathlib.Core.List.{append_assoc}

-- The taking of no more than the front, and of more.
take-append-le :
    (n : ℕ) (front back : List ℕ) → n ≤ length front → take n (front ++ back) ≡ take n front
take-append-le zero front back inside = refl
take-append-le (suc n) [] back inside = absurd (omega arith)
take-append-le (suc n) (x ∷ xs) back inside =
    ap (λ ys. x ∷ ys) (take-append-le n xs back (omega arith))

drop-append-le :
    (n : ℕ) (front back : List ℕ) → n ≤ length front → drop n (front ++ back) ≡ drop n front ++ back
drop-append-le zero front back inside = refl
drop-append-le (suc n) [] back inside = absurd (omega arith)
drop-append-le (suc n) (x ∷ xs) back inside = drop-append-le n xs back (omega arith)

take-append-gt :
    (n : ℕ) (front back : List ℕ)
    → length front ≤ n
    → take n (front ++ back) ≡ front ++ take (n - length front) back
take-append-gt n [] back inside = ap (λ k. take k back) (omega arith)
take-append-gt zero (x ∷ xs) back inside = absurd (omega arith)
take-append-gt (suc n) (x ∷ xs) back inside =
    ap (λ ys. x ∷ ys)
      (take-append-gt n xs back (omega arith) ∙ ap (λ k. xs ++ take k back) (omega arith))

drop-append-gt :
    (n : ℕ) (front back : List ℕ)
    → length front ≤ n
    → drop n (front ++ back) ≡ drop (n - length front) back
drop-append-gt n [] back inside = ap (λ k. drop k back) (omega arith)
drop-append-gt zero (x ∷ xs) back inside = absurd (omega arith)
drop-append-gt (suc n) (x ∷ xs) back inside =
    drop-append-gt n xs back (omega arith) ∙ ap (λ k. drop k back) (omega arith)

-- A reading of `n` bytes of `whole`, of a stream that ends so: the first `n` bytes and a stream
-- with the others where there are so many, and the error at the end of the stream otherwise.
unfoldable pub ReadsFirst :
    ℕ → List ℕ → ReadError → List ℕ → Result ReadError (List ℕ × Stream) → Type 0
ReadsFirst n whole end got result =
    (n ≤ length whole
      → (after : Stream) × (result ≡ ok (got ++ take n whole, after))
        × (all_bytes after ≡ drop n whole)
        × (ending after.coming ≡ end))
    × (length whole < n → result ≡ err end)

-- The bytes that are there are enough, and they are not.
front_has_enough :
    (front : List ℕ) (coming : List Arrival) (got : List ℕ) (n : ℕ)
    → n ≤ length front
    → ReadsFirst n
        (front ++ arriving coming)
        (ending coming)
        got
        (ok (got ++ take n front, record { rbuf = drop n front; coming = coming }))
unfolding ReadsFirst all_bytes
front_has_enough front coming got n inside = (
  (λ enough. (
    record { rbuf = drop n front; coming = coming },
    ap (λ bytes. ok (got ++ bytes, record { rbuf = drop n front; coming = coming }))
        (sym (take-append-le n front (arriving coming) inside)),
    sym (drop-append-le n front (arriving coming) inside),
    refl,
  )),
  λ short. absurd (omega (arith, short, inside, length-append front (arriving coming))),
)

front_is_short :
    (front : List ℕ) (coming : List Arrival) (got : List ℕ) (n : ℕ)
    (result : Result ReadError (List ℕ × Stream))
    → length front < n
    → ReadsFirst (n - length front) (arriving coming) (ending coming) (got ++ front) result
    → ReadsFirst n (front ++ arriving coming) (ending coming) got result
unfolding ReadsFirst
front_is_short front coming got n result short (reads, fails) =
    let k = n - length front in
    (
      (λ enough.
          let (after, result_is, bytes_are, end_is) =
            reads (omega (arith, enough, length-append front (arriving coming))) in
          (
            after,
            result_is
                ∙ ap (λ bytes. ok (bytes, after))
                    (append_assoc got front (take k (arriving coming))
                      ∙ ap (λ bytes. got ++ bytes)
                          (sym (take-append-gt n front (arriving coming) (omega (arith, short))))),
            bytes_are ∙ sym (drop-append-gt n front (arriving coming) (omega (arith, short))),
            end_is,
          )),
      λ too_few. fails (omega (arith, too_few, short, length-append front (arriving coming))),
    )

readn_from-ReadsFirst :
    (coming : List Arrival) (got : List ℕ) (n : ℕ)
    → 0 < n
    → ReadsFirst n (arriving coming) (ending coming) got (readn_from coming got n)
unfolding ReadsFirst arriving ending readn_from all_bytes
readn_from-ReadsFirst [] got n some_left = ((λ inside. absurd (omega arith)), λ short. refl)
readn_from-ReadsFirst (arrived b bs ∷ later) got n some_left =
    elim (Bool-cases (leb n (length (b ∷ bs)))) [
      | inl enough ↦
          rw enough (front_has_enough (b ∷ bs) later got n (leb→le n (length (b ∷ bs)) enough))
      | inr more ↦ rw more (
          front_is_short (b ∷ bs) later got n _ (ground (arith, more)) (
            readn_from-ReadsFirst later (got ++ b ∷ bs) (n - length (b ∷ bs))
              (ground (arith, more))))
    ]
readn_from-ReadsFirst (interrupted ∷ later) got n some_left =
    readn_from-ReadsFirst later got n some_left
readn_from-ReadsFirst (closed ∷ later) got n some_left =
    ((λ inside. absurd (omega arith)), λ short. refl)
readn_from-ReadsFirst (broken ∷ later) got n some_left =
    ((λ inside. absurd (omega arith)), λ short. refl)
readn_from-ReadsFirst (silent ∷ later) got n some_left =
    ((λ inside. absurd (omega arith)), λ short. refl)

pub readn-ReadsFirst :
    (n : ℕ) (s : Stream) → ReadsFirst n (all_bytes s) (ending s.coming) [] (readn n s)
unfolding readn all_bytes
readn-ReadsFirst n s = elim (Bool-cases (leb n (length s.rbuf))) [
  | inl enough ↦ rw enough (front_has_enough s.rbuf s.coming [] n (leb→le n (length s.rbuf) enough))
  | inr more ↦ rw more (
      front_is_short s.rbuf s.coming [] n _ (ground (arith, more))
        (readn_from-ReadsFirst s.coming s.rbuf (n - length s.rbuf) (ground (arith, more))))
]

-- What a reading gives, with the stream behind it as its bytes and its end.
unfoldable pub seen :
    Result ReadError (List ℕ × Stream) → Result ReadError (List ℕ × List ℕ × ReadError)
seen (err e) = err e
seen (ok (got, after)) = ok (got, all_bytes after, ending after.coming)

-- The first `n` bytes, the others and the end, where there are `n`, and the error at the end
-- otherwise.
unfoldable pub first_bytes : ℕ → List ℕ → ReadError → Result ReadError (List ℕ × List ℕ × ReadError)
first_bytes n whole end =
    if leb n (length whole) then ok (take n whole, drop n whole, end) else err end

-- `readn` depends on the bytes alone, and not on the pieces they arrive in: it reads the first `n`
-- where there are so many before the stream ends, leaving the others, and fails with the error at
-- the end otherwise.
pub readn-first_bytes :
    (n : ℕ) (s : Stream) → seen (readn n s) ≡ first_bytes n (all_bytes s) (ending s.coming)
unfolding seen first_bytes ReadsFirst
readn-first_bytes n s =
    let (reads, fails) = readn-ReadsFirst n s in
    elim (Bool-cases (leb n (length (all_bytes s)))) [
      | inl enough ↦
          let inside = leb→le n (length (all_bytes s)) enough in
          let (after, read, bytes_are, end_is) = reads inside in
          rw (read, enough, bytes_are, end_is) refl
      | inr short ↦ rw (fails (ground (arith, short)), short) refl
    ]
