-- ===== src/Counter/Totals.antt =====
-- The figures of a counter after additions and subtractions.
use Prim.Native.Nat.{min, max}
use lustre_tools.Base.{
  ℕ, ◌+◌, ◌*◌, ◌^◌, ◌≤◌, ◌<◌, ◌≡◌, ◌∙◌, Bool, true, false, List, [], ◌∷◌, ℤ, pos, ◌+ℤ◌, ◌-ℤ◌, ◌*ℤ◌,
  to_s64, if◌then◌else◌, length, arith, pos_part, neg_part,
}
use lustre_tools.Counter.{Header, Counter, add_amount, sub_amount, cleared, lc_min_init}

pub pos_sum : (a b : ℕ) → a + b < 2 ^ 63 → to_s64 (pos a +ℤ pos b) ≡ pos (a + b)
unfolding to_s64 ◌+ℤ◌
pos_sum a b h = ground arith

pos_square : (a b : ℕ) → a + b * b < 2 ^ 63 → to_s64 (pos a +ℤ pos b *ℤ pos b) ≡ pos (a + b * b)
unfolding to_s64 ◌+ℤ◌ ◌*ℤ◌
pos_square a b h = ground arith

word_back :
    (s a : ℤ) → pos_part s < 2 ^ 63 → neg_part s ≤ 2 ^ 63 → to_s64 (to_s64 (s +ℤ a) -ℤ a) ≡ s
unfolding to_s64 ◌+ℤ◌ ◌-ℤ◌
word_back s a p n = ground arith

-- The additions to a counter, oldest first: whether each comes in an interrupt, and its amount.
abbrev pub add_all : Bool → Header → Counter → List (Bool × ℕ) → Counter
add_all irq_safe h c [] = c
add_all irq_safe h c ((in_interrupt, amount) ∷ rest) =
    add_all irq_safe h (add_amount irq_safe in_interrupt h c (pos amount)) rest

-- The sums of the amounts in and outside of interrupts, of the squares, and the extrema.
abbrev pub sum_of : Bool → List (Bool × ℕ) → ℕ
sum_of in_irq [] = 0
sum_of true ((i, a) ∷ rest) = (if i then a else 0) + sum_of true rest
sum_of false ((i, a) ∷ rest) = (if i then 0 else a) + sum_of false rest

abbrev pub squares_of : List (Bool × ℕ) → ℕ
squares_of [] = 0
squares_of ((i, a) ∷ rest) = a * a + squares_of rest

abbrev pub most_of : ℕ → List (Bool × ℕ) → ℕ
most_of m [] = m
most_of m ((i, a) ∷ rest) = most_of (max m a) rest

abbrev pub least_of : ℕ → List (Bool × ℕ) → ℕ
least_of m [] = m
least_of m ((i, a) ∷ rest) = least_of (min m a) rest

-- A counter that holds numbers.
abbrev counter_of : ℕ → ℕ → ℕ → ℕ → ℕ → ℕ → Counter
counter_of n least most squares sum irq = record {
  lc_count = pos n;
  lc_min = pos least;
  lc_max = pos most;
  lc_sumsquare = pos squares;
  lc_sum = pos sum;
  lc_sum_irq = pos irq;
}

abbrev full : Header
full = record { avgminmax = true; stddev = true }

add_amount-step :
    (i : Bool) (n least most squares sum irq a : ℕ)
    → n + 1 < 2 ^ 63
    → sum + irq + a < 2 ^ 63
    → squares + a * a < 2 ^ 63
    → add_amount true i full (counter_of n least most squares sum irq) (pos a)
      ≡ counter_of
          (n + 1)
          (min least a)
          (max most a)
          (squares + a * a)
          (sum + (if i then 0 else a))
          (irq + (if i then a else 0))
unfolding add_amount
add_amount-step i n least most squares sum irq a hn hs hq = ground (
  arith,
  pos_sum n 1 hn,
  pos_sum sum a (omega arith),
  pos_sum irq a (omega arith),
  pos_square squares a hq,
)

add_all-counter_of :
    (xs : List (Bool × ℕ)) (n least most squares sum irq : ℕ)
    → n + length xs < 2 ^ 63
    → sum + irq + (sum_of false xs + sum_of true xs) < 2 ^ 63
    → squares + squares_of xs < 2 ^ 63
    → add_all true full (counter_of n least most squares sum irq) xs
      ≡ counter_of
          (n + length xs)
          (least_of least xs)
          (most_of most xs)
          (squares + squares_of xs)
          (sum + sum_of false xs)
          (irq + sum_of true xs)
add_all-counter_of [] n least most squares sum irq hn hs hq = ground arith
add_all-counter_of ((i, a) ∷ rest) n least most squares sum irq hn hs hq =
    let step =
      add_amount-step i n least most squares sum irq a (omega arith) (ground arith) (omega arith) in
    let out = if i then 0 else a in
    let irq_part = if i then a else 0 in
    rw step (
      add_all-counter_of rest (n + 1) (min least a) (max most a) (squares + a * a) (sum + out)
        (irq + irq_part) (omega arith) (ground arith) (omega arith)
      ∙ ground arith)

-- From a cleared counter, with an average and a deviation, any additions leave the exact figures: their
-- number, their least and their greatest amount (the greatest at least 0), the sum of the squares, and
-- the sums outside and inside of interrupts. The sums have to fit a signed word.
pub add_all-totals :
    (c : Counter) (h : Header) (xs : List (Bool × ℕ))
    → h.avgminmax ≡ true
    → h.stddev ≡ true
    → length xs < 2 ^ 63
    → sum_of false xs + sum_of true xs < 2 ^ 63
    → squares_of xs < 2 ^ 63
    → add_all true h (cleared true c) xs ≡ record {
      lc_count = pos (length xs);
      lc_min = pos (least_of lc_min_init xs);
      lc_max = pos (most_of 0 xs);
      lc_sumsquare = pos (squares_of xs);
      lc_sum = pos (sum_of false xs);
      lc_sum_irq = pos (sum_of true xs);
    }
unfolding cleared
add_all-totals c h xs with_average with_deviation hn hs hq =
    let header : h ≡ full = ground (arith, with_average, with_deviation) in
    rw header (
      add_all-counter_of xs 0 lc_min_init 0 0 0 0 (omega arith) (omega arith) (omega arith)
      ∙ ground arith)

-- A subtraction takes back an addition of the same amount in the same context: the sums are as before,
-- whatever the amount, if they are words.
pub sub_amount-add_amount :
    (irq_safe i : Bool) (h : Header) (c : Counter) (amount : ℤ)
    → pos_part c.lc_sum < 2 ^ 63
    → neg_part c.lc_sum ≤ 2 ^ 63
    → pos_part c.lc_sum_irq < 2 ^ 63
    → neg_part c.lc_sum_irq ≤ 2 ^ 63
    → let c' = sub_amount irq_safe i h (add_amount irq_safe i h c amount) amount in
      (c'.lc_sum ≡ c.lc_sum) × (c'.lc_sum_irq ≡ c.lc_sum_irq)
unfolding add_amount sub_amount
sub_amount-add_amount irq_safe i h c amount p n p' n' =
    let back = word_back c.lc_sum amount p n in
    let back' = word_back c.lc_sum_irq amount p' n' in
    (ground (arith, back, back'), ground (arith, back, back'))
