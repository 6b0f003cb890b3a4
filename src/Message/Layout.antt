-- ===== src/Message/Layout.antt =====
-- Where the buffers of a message lie: the sums of pack_generic.c without their wrap-around.
use lustre_tools.Base.{ℕ, zero, suc, ◌+◌, ◌*◌, ◌%◌, ◌^◌, ◌≤◌, ◌<◌, ◌≡◌, refl, some, ◌∙◌, arith}
use lustre_tools.Message.{
  Libcfs, IsLibcfs, LustreMsg, lustre_msg_hdr_size_v2, add_sizes, lustre_msg_size_v2,
  lustre_msg_buf_v2,
}

abbrev pub sum_sizes : Libcfs → (ℕ → ℕ) → ℕ → ℕ
sum_sizes l lens zero = 0
sum_sizes l lens (suc n) = sum_sizes l lens n + l.cfs_size_round (lens n)

abbrev pub hdr_size : Libcfs → ℕ → ℕ
hdr_size l count = l.cfs_size_round (32 + 4 * count)

-- The message is no longer than an int can say.
pub record FitsInt (l : Libcfs) (count : ℕ) (lens : ℕ → ℕ) : Type 0 where
  pub header : 32 + 4 * count + 8 ≤ 2 ^ 31
  pub each : (i : ℕ) → i < count → lens i + 8 ≤ 2 ^ 31
  pub whole : hdr_size l count + sum_sizes l lens count < 2 ^ 31

module _ (l : Libcfs) where
  pub sum_sizes_mono : (lens : ℕ → ℕ) (n k : ℕ) → n ≤ k → sum_sizes l lens n ≤ sum_sizes l lens k
  sum_sizes_mono lens n zero h = ground arith
  sum_sizes_mono lens n (suc k) h = ground (arith, sum_sizes_mono lens n k)

  pub sum_sizes_next :
      (lens : ℕ → ℕ) (n k : ℕ)
      → n < k
      → sum_sizes l lens n + l.cfs_size_round (lens n) ≤ sum_sizes l lens k
  sum_sizes_next lens n k h = sum_sizes_mono lens (suc n) k h

  pub sum_sizes_cong :
      (f g : ℕ → ℕ) (n : ℕ) → ((i : ℕ) → i < n → f i ≡ g i) → sum_sizes l f n ≡ sum_sizes l g n
  sum_sizes_cong f g zero h = refl
  sum_sizes_cong f g (suc n) h =
      rw (sum_sizes_cong f g n (λ i k. h i (omega arith)), h n (omega arith)) refl

  pub add_sizes_sum :
      (size : ℕ) (lens : ℕ → ℕ) (n : ℕ)
      → size + sum_sizes l lens n < 2 ^ 32
      → add_sizes l size lens n ≡ size + sum_sizes l lens n
  unfolding add_sizes
  add_sizes_sum size lens zero h = omega arith
  add_sizes_sum size lens (suc n) h = ground (arith, add_sizes_sum size lens n)

  module _ (count : ℕ) (lens : ℕ → ℕ) (fits : FitsInt l count lens) where
    pub hdr_size_lem : lustre_msg_hdr_size_v2 l count ≡ hdr_size l count
    unfolding lustre_msg_hdr_size_v2
    hdr_size_lem = omega (arith, fits.whole)

    -- The offset of buffer n, without wrap-around.
    pub offset_lem :
        (n : ℕ)
        → n ≤ count
        → add_sizes l (lustre_msg_hdr_size_v2 l count) lens n
          ≡ hdr_size l count + sum_sizes l lens n
    offset_lem n h = rw hdr_size_lem (
        add_sizes_sum (hdr_size l count) lens n
          (omega (arith, fits.whole, sum_sizes_mono lens n count h)))

    pub size_lem : lustre_msg_size_v2 l count lens ≡ hdr_size l count + sum_sizes l lens count
    unfolding lustre_msg_size_v2
    size_lem = offset_lem count (omega arith)

  pub sum_sizes_eights :
      (lens : ℕ → ℕ) (n : ℕ)
      → IsLibcfs l
      → ((i : ℕ) → i < n → lens i + 8 ≤ 2 ^ 31)
      → sum_sizes l lens n % 8 ≡ 0
  sum_sizes_eights lens zero h each = refl
  sum_sizes_eights lens (suc n) h each = omega (
    arith,
    h.rounds_eights (lens n) (each n (omega arith)),
    sum_sizes_eights lens n h (λ i k. each i (omega arith)),
  )

pub add_sizes_cong :
    (l : Libcfs) (size : ℕ) (f g : ℕ → ℕ) (n : ℕ)
    → ((i : ℕ) → i < n → f i ≡ g i)
    → add_sizes l size f n ≡ add_sizes l size g n
unfolding add_sizes
add_sizes_cong l size f g zero h = refl
add_sizes_cong l size f g (suc n) h =
    rw (add_sizes_cong l size f g n (λ i k. h i (omega arith)), h n (omega arith)) refl

-- A buffer that lustre_msg_buf_v2 finds is one of the message's, long enough.
pub buf_inv :
    (l : Libcfs) (m : LustreMsg) (n min_size a : ℕ)
    → lustre_msg_buf_v2 l m n min_size ≡ some a
    → (n < m.lm_bufcount)
      × (min_size ≤ m.lm_buflens n)
      × (a ≡ add_sizes l (lustre_msg_hdr_size_v2 l m.lm_bufcount) m.lm_buflens n)
unfolding lustre_msg_buf_v2
buf_inv l m n min_size a e = ground arith

pub buf_some :
    (l : Libcfs) (m : LustreMsg) (n min_size : ℕ)
    → n < m.lm_bufcount
    → min_size ≤ m.lm_buflens n
    → lustre_msg_buf_v2 l m n min_size
      ≡ some (add_sizes l (lustre_msg_hdr_size_v2 l m.lm_bufcount) m.lm_buflens n)
unfolding lustre_msg_buf_v2
buf_some l m n min_size h k = ground arith

-- In a message that an int can measure, of two buffers the first begins behind the header and ends
-- before the second, and the second begins at a multiple of 8 and ends within lustre_msg_size_v2.
pub buffers_apart :
    (l : Libcfs) (m : LustreMsg) (n k a b : ℕ)
    → IsLibcfs l
    → FitsInt l m.lm_bufcount m.lm_buflens
    → n < k
    → lustre_msg_buf_v2 l m n 0 ≡ some a
    → lustre_msg_buf_v2 l m k 0 ≡ some b
    → (32 + 4 * m.lm_bufcount ≤ a)
      × (a + m.lm_buflens n ≤ b)
      × (b % 8 ≡ 0)
      × (b + m.lm_buflens k ≤ lustre_msg_size_v2 l m.lm_bufcount m.lm_buflens)
buffers_apart l m n k a b h fits nk ea eb =
    let (kc, _, b_at) = buf_inv l m k 0 b eb in
    let (nc, _, a_at) = buf_inv l m n 0 a ea in
    ground (
      arith,
      b_at ∙ offset_lem l m.lm_bufcount m.lm_buflens fits k (omega arith),
      a_at ∙ offset_lem l m.lm_bufcount m.lm_buflens fits n (omega arith),
      size_lem l m.lm_bufcount m.lm_buflens fits,
      h.rounds_up (32 + 4 * m.lm_bufcount) fits.header,
      h.rounds_up (m.lm_buflens n) (fits.each n nc),
      h.rounds_up (m.lm_buflens k) (fits.each k kc),
      sum_sizes_next l m.lm_buflens n k nk,
      h.rounds_eights (32 + 4 * m.lm_bufcount) fits.header,
      sum_sizes_eights l m.lm_buflens k h (λ i ik. fits.each i (omega arith)),
      sum_sizes_next l m.lm_buflens k m.lm_bufcount kc,
    )

-- A single buffer ends within lustre_msg_size_v2.
pub buffer_within :
    (l : Libcfs) (m : LustreMsg) (n a : ℕ)
    → IsLibcfs l
    → FitsInt l m.lm_bufcount m.lm_buflens
    → lustre_msg_buf_v2 l m n 0 ≡ some a
    → a + m.lm_buflens n ≤ lustre_msg_size_v2 l m.lm_bufcount m.lm_buflens
buffer_within l m n a h fits found =
    let (nc, _, a_at) = buf_inv l m n 0 a found in
    ground (
      arith,
      a_at ∙ offset_lem l m.lm_bufcount m.lm_buflens fits n (omega arith),
      size_lem l m.lm_bufcount m.lm_buflens fits,
      h.rounds_up (m.lm_buflens n) (fits.each n nc),
      sum_sizes_next l m.lm_buflens n m.lm_bufcount nc,
    )
