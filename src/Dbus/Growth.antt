-- ===== src/Dbus/Growth.antt =====
-- How the writer of tools/src/dbus_client.c grows: what each operation adds behind the bytes that
-- are written.
use lg_magic.Dbus.Values.{text_bytes}
use lg_magic.Dbus.Writer.{
  Wb, wb_put, wb_u8, wb_u32, wb_pad, wb_str, out_of_memory, pad_bytes, u32_bytes,
}
use lg_magic.Prelude.{
  ℕ, ◌+◌, ◌≡◌, refl, sym, ap, ◌∙◌, Bool, true, false, List, [], ◌∷◌, ◌++◌, ltb, length,
  length-append, Bool-cases, arith, inl, inr,
}
use mathlib.Core.List.{append_assoc}

-- A writer with `n` bytes that ends without the flag `oom` had none before, and has those bytes
-- added.
pub record Grows (n : ℕ) (added : List ℕ) (w after : Wb) : Type 0 where
  pub before : after.oom ≡ false → w.oom ≡ false
  pub grown : after.oom ≡ false → length w.b ≡ n → after.b ≡ w.b ++ added

pub Grows-trans :
    (n : ℕ) (p q : List ℕ) {w between after : Wb}
    → Grows n p w between
    → Grows (n + length p) q between after
    → Grows n (p ++ q) w after
Grows-trans n p q {w} {between} {after} first second = record {
  before = λ fine. first.before (second.before fine);
  grown = λ fine starts.
      let at_between = first.grown (second.before fine) starts in
      let length_between : length between.b ≡ n + length p =
        ap length at_between ∙ (length-append w.b p ∙ ap (λ k. k + length p) starts) in
      second.grown fine length_between
      ∙ (ap (λ bytes. bytes ++ q) at_between ∙ append_assoc w.b p q);
}

pub Grows-moved :
    (n : ℕ) {p q : List ℕ} {w after : Wb} → p ≡ q → Grows n p w after → Grows n q w after
Grows-moved n {p} {q} {w} {after} same grows = record {
  before = grows.before;
  grown = λ fine starts. grows.grown fine starts ∙ ap (λ bytes. w.b ++ bytes) same;
}

put-Grows :
    (n : ℕ) (b : List ℕ) (k : ℕ) (o : Bool) (p : List ℕ)
    → let w : Wb = record { b = b; nodepad = k; oom = o } in Grows n p w (wb_put w p)
unfolding wb_put
put-Grows n b k true p = record { before = λ fine. fine; grown = λ fine starts. absurd cc }
put-Grows n b k false p = record { before = λ fine. refl; grown = λ fine starts. refl }

pub wb_put-Grows : (n : ℕ) (w : Wb) (p : List ℕ) → Grows n p w (wb_put w p)
wb_put-Grows n w p = put-Grows n w.b w.nodepad w.oom p

pad-Grows :
    (n align : ℕ) (b : List ℕ) (k : ℕ) (o : Bool)
    → let w : Wb = record { b = b; nodepad = k; oom = o } in
      Grows n (pad_bytes align align n) w (wb_pad w align)
unfolding wb_pad wb_put
pad-Grows n align b k true = record { before = λ fine. fine; grown = λ fine starts. absurd cc }
pad-Grows n align b k false = record {
  before = λ fine. refl;
  grown = λ fine starts. ap (λ m. b ++ pad_bytes align align m) starts;
}

pub wb_pad-Grows : (n align : ℕ) (w : Wb) → Grows n (pad_bytes align align n) w (wb_pad w align)
wb_pad-Grows n align w = pad-Grows n align w.b w.nodepad w.oom

-- A writer that has run out of memory.
pub out_of_memory-Grows : (n : ℕ) (added : List ℕ) (w : Wb) → Grows n added w (out_of_memory w)
out_of_memory-Grows n added w = record {
  before = λ fine. absurd (cc);
  grown = λ fine starts. absurd (cc);
}

-- The bytes of a text, without the padding behind it.
text_Grows :
    (n : ℕ) (w : Wb) (s : List ℕ)
    → Grows n (text_bytes s) w (wb_u8 (wb_put (wb_u32 w (length s)) s) 0)
unfolding wb_u8 wb_u32
text_Grows n w s =
    let counted = wb_put w (u32_bytes (length s)) in
    Grows-trans n (u32_bytes (length s)) (s ++ 0 ∷ []) (wb_put-Grows n w (u32_bytes (length s)))
      (Grows-trans (n + 4) s (0 ∷ []) (wb_put-Grows (n + 4) counted s) (wb_put-Grows _ _ (0 ∷ [])))

pub wb_str-Grows :
    (n : ℕ) (w : Wb) (s : List ℕ)
    → Grows n (text_bytes s ++ pad_bytes 4 4 (n + length (text_bytes s))) w (wb_str w s)
unfolding wb_str
wb_str-Grows n w s = elim (Bool-cases (ltb 268435455 (length s))) [
  | inl long ↦ rw long (out_of_memory-Grows n _ w)
  | inr short ↦ rw short (
      Grows-trans n (text_bytes s) (pad_bytes 4 4 (n + length (text_bytes s))) (text_Grows n w s)
        (wb_pad-Grows (n + length (text_bytes s)) 4 _))
]

-- Where the bytes end that count, `more` behind the first `n`: before the padding at the end.
pub record Ends (n more : ℕ) (w after : Wb) : Type 0 where
  pub ended : after.oom ≡ false → length w.b ≡ n → after.nodepad ≡ n + more

pub Ends-moved : (n k m : ℕ) {w after : Wb} → k ≡ m → Ends n k w after → Ends n m w after
Ends-moved n k m same ends = record {
  ended = λ fine starts. ends.ended fine starts ∙ ap (λ x. n + x) same;
}

pub Ends-at : {n m more : ℕ} {w after : Wb} → n ≡ m → Ends n more w after → Ends m more w after
Ends-at {n} {m} {more} same ends = record {
  ended = λ fine starts. ends.ended fine (starts ∙ sym same) ∙ ap (λ x. x + more) same;
}

pub Ends-trans :
    (n : ℕ) (p : List ℕ) (more : ℕ) {w between after : Wb}
    → Grows n p w between
    → (after.oom ≡ false → between.oom ≡ false)
    → Ends (n + length p) more between after
    → Ends n (length p + more) w after
Ends-trans n p more {w} {between} {after} first kept second = record {
  ended = λ fine starts.
      let length_between : length between.b ≡ n + length p =
        ap length (first.grown (kept fine) starts)
        ∙ (length-append w.b p ∙ ap (λ k. k + length p) starts) in
      second.ended fine length_between ∙ omega arith;
}

-- Where nothing was padded at the end, all bytes count.
pub unpadded_Ends :
    (n : ℕ) (added : List ℕ) {w after : Wb}
    → Grows n added w after
    → (after.oom ≡ false → after.nodepad ≡ length after.b)
    → Ends n (length added) w after
unpadded_Ends n added {w} {after} grows unpadded = record {
  ended = λ fine starts.
      unpadded fine
      ∙ (ap length (grows.grown fine starts)
          ∙ (length-append w.b added ∙ ap (λ k. k + length added) starts));
}

put_unpadded :
    (b : List ℕ) (k : ℕ) (o : Bool) (p : List ℕ)
    → let w : Wb = record { b = b; nodepad = k; oom = o } in
      (wb_put w p).oom ≡ false → (wb_put w p).nodepad ≡ length (wb_put w p).b
unfolding wb_put
put_unpadded b k true p fine = absurd cc
put_unpadded b k false p fine = refl

pub wb_put_unpadded :
    (w : Wb) (p : List ℕ) → (wb_put w p).oom ≡ false → (wb_put w p).nodepad ≡ length (wb_put w p).b
wb_put_unpadded w p fine = put_unpadded w.b w.nodepad w.oom p fine

wb_pad-Ends : (n align : ℕ) (w : Wb) → Ends n 0 w (wb_pad w align)
unfolding wb_pad
wb_pad-Ends n align w = record { ended = λ fine starts. starts ∙ omega arith }

pub out_of_memory-Ends : (n more : ℕ) (w : Wb) → Ends n more w (out_of_memory w)
out_of_memory-Ends n more w = record { ended = λ fine starts. absurd cc }

pub wb_str-Ends : (n : ℕ) (w : Wb) (s : List ℕ) → Ends n (length (text_bytes s)) w (wb_str w s)
unfolding wb_str
wb_str-Ends n w s =
    let k = length (text_bytes s) in
    elim (Bool-cases (ltb 268435455 (length s))) [
      | inl long ↦ rw long (out_of_memory-Ends n k w)
      | inr short ↦ rw short (
          Ends-moved n (k + 0) k (omega arith) (
            Ends-trans n (text_bytes s) 0 (text_Grows n w s)
              (λ fine. (wb_pad-Grows (n + k) 4 _).before fine) (wb_pad-Ends (n + k) 4 _)))
    ]
