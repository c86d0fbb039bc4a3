-- ===== src/Scale/Concat.antt =====
-- `concatBytes` of packages/chain/scale/src/index.ts against plain concatenation.
use Prim.Native.Nat.add
use native.Mathlib.Nat.{zero-add}
use predictor_common.Prelude.{
  ℕ, zero, suc, ◌+◌, ◌≡◌, sym, ◌∙◌, List, [], ◌∷◌, ◌++◌, append_assoc, append-nil, length, drop,
  replicate, length-append, take-append, arith,
}
use predictor_common.Scale.{Bytes, write_at, total_length, fill, concat_bytes}

abbrev pub concat : List Bytes → Bytes
concat [] = []
concat (p ∷ parts) = p ++ concat parts

total_length-eq-add :
    (n : ℕ) (parts : List Bytes) → total_length n parts ≡ n + length (concat parts)
total_length-eq-add n [] = omega arith
total_length-eq-add n (p ∷ parts) =
    omega (arith, total_length-eq-add (n + length p) parts, length-append p (concat parts))

drop-replicate : (n m z : ℕ) → drop n (replicate (n + m) z) ≡ replicate m z
drop-replicate zero m z = rw zero-add
drop-replicate (suc n) m z = rw add.suc (drop-replicate n m z)

drop-append_add : (n : ℕ) (xs ys : Bytes) → drop (length xs + n) (xs ++ ys) ≡ drop n ys
drop-append_add n [] ys = rw zero-add
drop-append_add n (x ∷ xs) ys = rw add.suc (drop-append_add n xs ys)

write_at-append :
    (done p : Bytes) (m : ℕ)
    → write_at (done ++ replicate (length p + m) 0) (length done) p ≡ (done ++ p) ++ replicate m 0
write_at-append done p m =
    rw (take-append done _, drop-append_add (length p) done _, drop-replicate (length p) m 0)
      (sym (append_assoc done p _))

-- What is written so far stays, and the zeros behind it are overwritten.
fill-append :
    (parts : List Bytes) (done : Bytes)
    → fill parts (length done) (done ++ replicate (length (concat parts)) 0) ≡ done ++ concat parts
unfolding fill
fill-append [] done = rw append-nil
fill-append (p ∷ parts) done =
    rw
      (
        length-append p (concat parts),
        write_at-append done p (length (concat parts)),
        ← length-append done p,
      )
      (fill-append parts (done ++ p) ∙ append_assoc done p (concat parts))

-- `concatBytes` returns its parts one after the other.
pub concat_bytes-eq-concat : (parts : List Bytes) → concat_bytes parts ≡ concat parts
unfolding concat_bytes
concat_bytes-eq-concat parts = rw (total_length-eq-add 0 parts) (rw zero-add (fill-append parts []))
