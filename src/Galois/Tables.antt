-- ===== src/Galois/Tables.antt =====
-- What the tables hold.
use par2cmdline_turbo.Prelude.{
  all_below, all_below_lem, ℕ, zero, suc, ◌+◌, ◌%◌, ◌<◌, ◌≡◌, refl, Bool, true, ◌&&◌, ◌==◌, ltb,
  arith, bit_xor,
}
use par2cmdline_turbo.Galois.{table, fill_table, next_power, log_of, antilog_of, limit}

log_test : ℕ → Bool
log_test b = (antilog_of (log_of (b + 1)) == (b + 1)) && ltb (log_of (b + 1)) limit

log_all : all_below 255 log_test ≡ true
unfolding log_test log_of antilog_of table fill_table next_power
log_all = refl

antilog_test : ℕ → Bool
antilog_test l =
    (log_of (antilog_of l) == l)
    && (ltb 0 (antilog_of l)
        && (ltb (antilog_of l) 256 && (next_power (antilog_of l) == antilog_of ((l + 1) % 255))))

antilog_all : all_below 255 antilog_test ≡ true
unfolding antilog_test log_of antilog_of table fill_table next_power
antilog_all = refl

linear_test : ℕ → ℕ → Bool
linear_test a b =
    (next_power (bit_xor a b) == bit_xor (next_power a) (next_power b)) && ltb (next_power a) 256

linear_all : all_below 256 (λ a. all_below 256 (linear_test a)) ≡ true
unfolding linear_test next_power
linear_all = refl

-- Every byte but 0 is the power of 2 that its logarithm says.
pub record IsLogarithm (b : ℕ) : Type 0 where
  pub back : antilog_of (log_of b) ≡ b
  pub below : log_of b < 255

pub log_of-IsLogarithm : (b : ℕ) → 0 < b → b < 256 → IsLogarithm b
log_of-IsLogarithm zero p h = absurd (omega arith)
log_of-IsLogarithm (suc b) p h =
    let e = all_below_lem 255 log_test b log_all (omega arith) in
    unfold log_test in record { back = ground (arith, e); below = ground (arith, e) }

pub record IsPower (l : ℕ) : Type 0 where
  pub back : log_of (antilog_of l) ≡ l
  pub positive : 0 < antilog_of l
  pub below : antilog_of l < 256
  pub next : next_power (antilog_of l) ≡ antilog_of ((l + 1) % 255)

pub antilog-IsPower : (l : ℕ) → l < 255 → IsPower l
antilog-IsPower l h =
    let e = all_below_lem 255 antilog_test l antilog_all h in
    unfold antilog_test in
    record {
      back = ground (arith, e);
      positive = ground (arith, e);
      below = ground (arith, e);
      next = ground (arith, e);
    }

pub next_power-xor :
    (a b : ℕ)
    → a < 256
    → b < 256
    → (next_power (bit_xor a b) ≡ bit_xor (next_power a) (next_power b)) × (next_power a < 256)
next_power-xor a b p q =
    let e =
      all_below_lem 256 (linear_test a) b
        (all_below_lem 256 (λ c. all_below 256 (linear_test c)) a linear_all p) q in
    unfold linear_test in (ground (arith, e), ground (arith, e))
