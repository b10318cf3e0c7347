-- ===== src/Creator/BlockSize/Search.antt =====
-- The search for the size of a block.
use native.Mathlib.Nat.{div-add-mod', mod-lt}
use par2cmdline_turbo.Prelude.{
  ℕ, zero, suc, ◌+◌, ◌-◌, ◌*◌, ◌/◌, ◌%◌, ◌^◌, ◌≤◌, ◌<◌, ◌≡◌, ap, sym, subst, ◌∙◌, true, false,
  Option, some, List, [], ◌∷◌, map, ltb, leb, arith, dec_lt, lt→ltb, le→ltb,
}
use par2cmdline_turbo.Creator.BlockSize.{units, count_blocks, search_size}

-- How many blocks of `size` units the files have, and how many units.
abbrev pub blocks_of_size : ℕ → List ℕ → ℕ
blocks_of_size size [] = 0
blocks_of_size size (u ∷ us) = (u + size - 1) / size + blocks_of_size size us

abbrev pub sum_of : List ℕ → ℕ
sum_of [] = 0
sum_of (u ∷ us) = u + sum_of us

pub round_up : (u s : ℕ) → 0 < s → (u ≤ (u + s - 1) / s * s) × ((u + s - 1) / s * s < u + s)
round_up u s h =
    let whole = div-add-mod' (u + s - 1) s in
    let small = mod-lt (u + s - 1) h in (omega (arith, whole, small), omega (arith, whole, small))

quotient_bound : (a b s t x : ℕ) → a * s ≤ x → x < b * s → a < b
quotient_bound a b s t x h k = grind arith

antitone : (u s t : ℕ) → 0 < s → s ≤ t → (u + t - 1) / t ≤ (u + s - 1) / s
antitone u s t h k =
    let q = (u + s - 1) / s in
    let c = (u + t - 1) / t in
    let up = round_up u s h in
    let down = round_up u t (omega arith) in
    let more : q * s ≤ q * t = grind arith in
    let next : (q + 1) * t ≡ q * t + t = grind arith in
    let below : c * t < (q + 1) * t = omega (arith, up, down, more, next) in
    let result : c < q + 1 = grind (arith, below) in omega (arith, result)

blocks_of_size-antitone :
    (s t : ℕ) (us : List ℕ) → 0 < s → s ≤ t → blocks_of_size t us ≤ blocks_of_size s us
blocks_of_size-antitone s t [] h k = omega arith
blocks_of_size-antitone s t (u ∷ us) h k =
    omega (arith, antitone u s t h k, blocks_of_size-antitone s t us h k)

pub round_up-le : (u s : ℕ) → 0 < s → (u + s - 1) / s ≤ u
round_up-le u s h = omega (arith, antitone u 1 s (omega arith) (omega arith))

blocks_of_size-le : (s : ℕ) (us : List ℕ) → 0 < s → blocks_of_size s us ≤ sum_of us
blocks_of_size-le s [] h = omega arith
blocks_of_size-le s (u ∷ us) h = omega (arith, round_up-le u s h, blocks_of_size-le s us h)

-- Where nothing wraps around, the loops add up.
pub count_blocks_lem :
    (size count : ℕ) (files : List ℕ)
    → 0 < size
    → size < 2 ^ 62
    → count + sum_of (map units files) < 2 ^ 62
    → count_blocks size count files ≡ count + blocks_of_size size (map units files)
unfolding count_blocks
count_blocks_lem size count [] h k l = omega arith
count_blocks_lem size count (f ∷ files) h k l =
    let u = units f in
    let q = (u + size - 1) / size in
    let small = round_up-le u size h in
    let inner : (u + size + 2 ^ 64 - 1) % 2 ^ 64 ≡ u + size - 1 = omega arith in
    let next : (count + (u + size + 2 ^ 64 - 1) % 2 ^ 64 / size) % 2 ^ 64 ≡ count + q =
      ap (λ (n : ℕ). (count + n / size) % 2 ^ 64) inner ∙ omega (arith, small) in
    ap (λ (n : ℕ). count_blocks size n files) next
    ∙ count_blocks_lem size (count + q) files h k (omega (arith, small))
    ∙ omega arith

-- The least size with which the blocks suffice.
pub record IsLeast (blockcount size : ℕ) (us : List ℕ) : Type 0 where
  pub positive : 0 < size
  pub fits : blocks_of_size size us ≤ blockcount
  pub least : (s : ℕ) → 0 < s → s < size → blockcount < blocks_of_size s us

pub record Found (blockcount : ℕ) (us : List ℕ) (result : Option (ℕ × ℕ)) : Type 0 where
  pub size : ℕ
  pub found : result ≡ some (size, blocks_of_size size us)
  pub is_least : IsLeast blockcount size us

-- A size that does not suffice is not one that does.
apart :
    (blockcount : ℕ) (us : List ℕ) (size upper : ℕ)
    → size ≤ upper
    → blockcount < blocks_of_size size us
    → blocks_of_size upper us ≤ blockcount
    → size < upper
apart blockcount us size upper h many few = elim (dec_lt size upper) [
  | yes k ↦ k
  | no k ↦
      let same : size ≡ upper = omega arith in
      absurd (omega (arith, ap (λ (n : ℕ). blocks_of_size n us) same))
]

pub search_size_lem :
    (fuel blockcount : ℕ) (files : List ℕ) (lower upper : ℕ)
    → upper < lower + fuel
    → lower ≤ upper
    → 0 < lower
    → upper < 2 ^ 61
    → sum_of (map units files) < 2 ^ 62
    → blocks_of_size upper (map units files) ≤ blockcount
    → ((s : ℕ) → 0 < s → s < lower → blockcount < blocks_of_size s (map units files))
    → Found blockcount (map units files) (search_size fuel blockcount files lower upper)
unfolding search_size
search_size_lem zero blockcount files lower upper f o p b t h below = absurd (omega arith)
search_size_lem (suc fuel) blockcount files lower upper f o p b t h below =
    let us = map units files in
    let size = (lower + upper) % 2 ^ 64 / 2 in
    let middle : (lower ≤ size) × (size ≤ upper) × (lower < size → size < upper) =
      (omega arith, omega arith, λ q. omega arith) in
    let positive : 0 < size = omega arith in
    let counted : count_blocks size 0 files ≡ blocks_of_size size us =
      count_blocks_lem size 0 files positive (omega arith) (omega arith) ∙ omega arith in
    elim (dec_lt blockcount (blocks_of_size size us)) [
      | yes many ↦
          let first : ltb blockcount (count_blocks size 0 files) ≡ true =
            lt→ltb blockcount (count_blocks size 0 files)
              (subst (λ n. blockcount < n) (sym counted) many) in
          let inside : size < upper = apart blockcount us size upper middle.1 many h in
          let next : (s : ℕ) → 0 < s → s < size + 1 → blockcount < blocks_of_size s us =
            λ s q r. omega (arith, many, blocks_of_size-antitone s size us q (omega arith)) in
          elim (dec_lt (size + 1) upper) [
            | yes more ↦
                let second : leb upper (size + 1) ≡ false = ground arith in
                rw (first, second)
                  (search_size_lem fuel blockcount files (size + 1) upper (omega arith)
                    (omega arith) (omega arith) b t h next)
            | no last ↦
                let second : leb upper (size + 1) ≡ true = ground arith in
                let same : upper ≡ size + 1 = omega arith in
                rw (first, second)
                  (record {
                    size = size + 1;
                    found =
                        ap (λ (n : ℕ). some (size + 1, n))
                          (count_blocks_lem (size + 1) 0 files (omega arith) (omega arith)
                              (omega arith)
                            ∙ omega arith);
                    is_least = record {
                      positive = omega arith;
                      fits = subst (λ n. blocks_of_size n us ≤ blockcount) same h;
                      least = next;
                    };
                  })
          ]
      | no few ↦
          let enough : blocks_of_size size us ≤ blockcount = omega arith in
          let first : ltb blockcount (count_blocks size 0 files) ≡ false =
            le→ltb blockcount (count_blocks size 0 files)
              (subst (λ n. n ≤ blockcount) (sym counted) enough) in
          elim (dec_lt lower size) [
            | yes more ↦
                let shrinks : size < upper = middle.2 more in
                rw (first, lt→ltb lower size more)
                  (search_size_lem fuel blockcount files lower size (omega arith) (omega arith) p
                    (omega arith) t enough below)
            | no last ↦
                rw (first, le→ltb lower size (omega arith))
                  (record {
                    size = size;
                    found = ap (λ (n : ℕ). some (size, n)) counted;
                    is_least = record {
                      positive = positive;
                      fits = enough;
                      least = λ s q r. below s q (omega arith);
                    };
                  })
          ]
    ]
