-- ===== src/Transfer/Pieces.antt =====
-- The arithmetic that chunk plans and segment plans share: `total` bytes in pieces of `size`.
use p2p_transmission.Prelude.{
  ℕ, ◌+◌, ◌-◌, ◌*◌, ◌/◌, ◌%◌, ◌^◌, ◌≤◌, ◌<◌, ◌≡◌, min, Bool, true, false, ◌==◌, ◌↔◌, arith, ◌⊎◌,
  inl, inr, Bool-cases, mul_mono, ==_iff, ap, sym, if◌then◌else◌,
}
use native.Mathlib.Nat.{
  div-eq_of_lt-le, le-div_iff_mul-le, div-mul-le_self, lt-div-mul-add, le_trans, mod-eq_of_lt,
}
use p2p_transmission.Prelude.Words.{u64_max, u32_max}

-- How many pieces of `size` bytes make `total`.
abbrev pub pieces : ℕ → ℕ → ℕ
pieces total size = if total == 0 then 0 else (total - 1) / size + 1

pub pieces_pos : (i total size : ℕ) → i < pieces total size → (0 < total) × (i ≤ (total - 1) / size)
pieces_pos i total size h = ground arith

pub pieces_of_pos : (total size : ℕ) → 0 < total → pieces total size ≡ (total - 1) / size + 1
pieces_of_pos total size h = ground arith

pub mul-le : (i total size : ℕ) → 0 < size → i < pieces total size → i * size < total
mul-le i total size p h =
    let (t, l) = pieces_pos i total size h in omega (arith, mul_mono i ((total - 1) / size) size l)

suc_mul : (q size : ℕ) → (q + 1) * size ≡ q * size + size
suc_mul q size = grind arith

-- The quotient is determined by where the number lies.
div_unique : (q b size : ℕ) → q * size ≤ b → b < q * size + size → b / size ≡ q
div_unique q b size l h = div-eq_of_lt-le size l (omega (arith, suc_mul q size))

div_mono : (a b size : ℕ) → 0 < size → a ≤ b → a / size ≤ b / size
div_mono a b size p h = (le-div_iff_mul-le p).1 (le_trans (div-mul-le_self a size) h)

pub pieces-lt : (total size b : ℕ) → 0 < size → b < total → b / size < pieces total size
pieces-lt total size b p h =
    omega
      (arith, pieces_of_pos total size (omega arith), div_mono b (total - 1) size p (omega arith))

pub last_piece :
    (i total size : ℕ)
    → 0 < size
    → i < pieces total size
    → (i + 1 ≡ pieces total size) × (total ≤ i * size + size)
      ⊎ (i + 1 < pieces total size) × (i * size + size < total)
last_piece i total size p h =
    let q = (total - 1) / size in
    let (t, l) = pieces_pos i total size h in
    elim (Bool-cases (i == q)) [
      | inl last ↦ inl (ground (arith, pieces_of_pos total size t), below_next q last t)
      | inr more ↦
          let m = mul_mono (i + 1) q size (ground arith) in
          inr (
            omega (arith, pieces_of_pos total size t, less q more l),
            omega (arith, m, suc_mul i size, div-mul-le_self (total - 1) size),
          )
    ]
  where
    less : (q : ℕ) → (i == q) ≡ false → i ≤ q → i < q
    less q more l = ground arith

    below_next : (q : ℕ) → (i == (total - 1) / size) ≡ true → 0 < total → total ≤ i * size + size
    below_next q last t =
        let e = (==_iff i ((total - 1) / size)).0 last in
        omega (arith, ap (λ (x : ℕ). x * size) e, lt-div-mul-add {a = total - 1} p)

-- A plan with sizes that fit their types, as `new` returns it.
pub record IsPlan (total size : ℕ) : Type 0 where
  pub size_pos : 0 < size
  pub size_fits : size ≤ u32_max
  pub total_fits : total ≤ u64_max

-- The bytes of a piece: those from its offset up to its end.
abbrev pub Holds : ℕ → ℕ → ℕ → Type 0
Holds offset length b = (offset ≤ b) × (b < offset + length)

abbrev pub piece_length : ℕ → ℕ → ℕ → ℕ
piece_length total size i = min (total - i * size) size

module _ {total size : ℕ} (v : IsPlan total size) where
  pub piece_fits :
      (i : ℕ)
      → i < pieces total size
      → piece_length total size i % 2 ^ 32 ≡ piece_length total size i
  piece_fits i h = mod-eq_of_lt (omega (arith, v.size_fits))

  piece-Holds : (b : ℕ) → b < total → Holds (b / size * size) (piece_length total size (b / size)) b
  piece-Holds b h = omega (arith, div-mul-le_self b size, lt-div-mul-add {a = b} v.size_pos)

  pub piece_unique : (i b : ℕ) → Holds (i * size) (piece_length total size i) b → i ≡ b / size
  piece_unique i b h = sym (div_unique i b size h.0 (omega arith))

  piece_last :
      (i : ℕ)
      → i < pieces total size
      → ((i + 1 == pieces total size) ≡ true) ↔ (i * size + piece_length total size i ≡ total)
  piece_last i h = elim (last_piece i total size v.size_pos h) [
    | inl (e, l) ↦ (λ _. omega (arith, mul-le i total size v.size_pos h), λ _. (==_iff _ _).1 e)
    | inr (l, m) ↦ (
      λ e. absurd (omega (arith, (==_iff (i + 1) (pieces total size)).0 e)),
      λ e. absurd (omega (arith, v.size_pos)),
    )
  ]

-- The piece that holds a byte, the only one, and last exactly if it ends the file.
pub record IsPieceOf (total size b : ℕ) (offset length : ℕ) (is_last : Bool) : Type 0 where
  pub holds : Holds offset length b
  pub short : length ≤ size
  pub last : (is_last ≡ true) ↔ (offset + length ≡ total)

pub piece-IsPieceOf :
    {total size : ℕ} (v : IsPlan total size) (b : ℕ)
    → b < total
    → IsPieceOf total size b
        (b / size * size)
        (piece_length total size (b / size))
        (b / size + 1 == pieces total size)
piece-IsPieceOf {total} {size} v b h = record {
  holds = piece-Holds v b h;
  short = omega arith;
  last = piece_last v (b / size) (pieces-lt total size b v.size_pos h);
}
