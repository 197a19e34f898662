-- ===== src/Protocol/Bytes.antt =====
-- Big-endian bytes: `to_be_bytes` and `from_be_bytes` of the standard library at every width.
use p2p_transmission.Prelude.{
  ℕ, zero, suc, ◌+◌, ◌*◌, ◌/◌, ◌%◌, ◌^◌, ◌≤◌, ◌<◌, ◌≡◌, refl, subst, ap, ap₂, mul_mono, sym, ◌∙◌,
  List, [], ◌∷◌, ◌++◌, All, length, drop, take, arith, length-append, append_assoc, append-nil, ◌-◌,
}
use native.Mathlib.Nat.{pow-suc, le_trans}

abbrev pub be_bytes : ℕ → ℕ → List ℕ
be_bytes zero n = []
be_bytes (suc k) n = be_bytes k (n / 256) ++ (n % 256) ∷ []

abbrev pub from_be_acc : ℕ → List ℕ → ℕ
from_be_acc acc [] = acc
from_be_acc acc (b ∷ bs) = from_be_acc (acc * 256 + b) bs

abbrev pub from_be : List ℕ → ℕ
from_be bs = from_be_acc 0 bs

abbrev pub IsByte : ℕ → Type 0
IsByte b = b < 256

-- `&bytes[from..to]`.
abbrev pub slice : ℕ → ℕ → List ℕ → List ℕ
slice from to bytes = take (to - from) (drop from bytes)

pub length-be_bytes : (k n : ℕ) → length (be_bytes k n) ≡ k
length-be_bytes zero n = refl
length-be_bytes (suc k) n =
    omega
      (arith, length-append (be_bytes k (n / 256)) ((n % 256) ∷ []), length-be_bytes k (n / 256))

from_be_acc-append :
    (acc : ℕ) (xs : List ℕ) (b : ℕ) → from_be_acc acc (xs ++ b ∷ []) ≡ from_be_acc acc xs * 256 + b
from_be_acc-append acc [] b = refl
from_be_acc-append acc (x ∷ xs) b = from_be_acc-append (acc * 256 + x) xs b

-- Reading what was written gives the number back, if it fits the width.
pub from_be-be_bytes : (k n : ℕ) → n < 256 ^ k → from_be (be_bytes k n) ≡ n
from_be-be_bytes zero n h = omega arith
from_be-be_bytes (suc k) n h = omega (
  arith,
  from_be_acc-append 0 (be_bytes k (n / 256)) (n % 256),
  from_be-be_bytes k (n / 256) (omega (arith, pow-suc 256 k)),
)

be_bytes-from_be_acc :
    (j acc : ℕ) (bs : List ℕ)
    → All IsByte bs
    → be_bytes (length bs + j) (from_be_acc acc bs) ≡ be_bytes j acc ++ bs
be_bytes-from_be_acc j acc [] a =
    let e : 0 + j ≡ j = omega arith in
    ap (λ (k : ℕ). be_bytes k acc) e ∙ sym (append-nil (be_bytes j acc))
be_bytes-from_be_acc j acc (b ∷ bs) a =
    let e : suc (length bs) + j ≡ length bs + suc j = omega arith in
    let d : (acc * 256 + b) / 256 ≡ acc = omega (arith, a.0) in
    let m : (acc * 256 + b) % 256 ≡ b = omega (arith, a.0) in
    let ih = be_bytes-from_be_acc (suc j) (acc * 256 + b) bs a.1 in
    ap (λ (k : ℕ). be_bytes k (from_be_acc (acc * 256 + b) bs)) e
    ∙ ih
    ∙ ap₂ (λ (x y : ℕ). (be_bytes j x ++ y ∷ []) ++ bs) d m
    ∙ append_assoc (be_bytes j acc) (b ∷ []) bs

-- Writing what was read gives the bytes back.
pub be_bytes-from_be :
    (k : ℕ) (bs : List ℕ) → length bs ≡ k → All IsByte bs → be_bytes k (from_be bs) ≡ bs
be_bytes-from_be k bs l a =
    let e : length bs + 0 ≡ k = omega arith in
    sym (ap (λ (n : ℕ). be_bytes n (from_be bs)) e) ∙ be_bytes-from_be_acc 0 0 bs a

from_be_acc-lt :
    (acc : ℕ) (bs : List ℕ) → All IsByte bs → from_be_acc acc bs < (acc + 1) * 256 ^ length bs
from_be_acc-lt acc [] a = omega arith
from_be_acc-lt acc (b ∷ bs) a =
    le_trans (from_be_acc-lt (acc * 256 + b) bs a.1)
      (bound (256 ^ length bs) (pow-suc 256 (length bs)))
  where
    bound :
        (p : ℕ)
        → 256 ^ suc (length bs) ≡ p * 256
        → (acc * 256 + b + 1) * p ≤ (acc + 1) * 256 ^ suc (length bs)
    bound p e =
        rw e (omega (arith, mul_mono (acc * 256 + b + 1) ((acc + 1) * 256) p (omega (arith, a.0))))

-- A number read from `k` bytes fits `k` bytes.
pub from_be-lt : (k : ℕ) (bs : List ℕ) → length bs ≡ k → All IsByte bs → from_be bs < 256 ^ k
from_be-lt k bs l a =
    subst (λ (n : ℕ). from_be bs < 256 ^ n) l (omega (arith, from_be_acc-lt 0 bs a))
