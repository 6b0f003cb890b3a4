-- ===== src/Message/Shrink/Moved.antt =====
-- What lustre_shrink_msg_v2 keeps.
use lustre_tools.Base.{
  ℕ, zero, suc, ◌+◌, ◌-◌, ◌^◌, ◌≤◌, ◌<◌, ◌≡◌, ap, ◌∙◌, inl, inr, leb, ◌==◌, update, Bool-cases,
  arith,
}
use lustre_tools.Message.{Memory, Libcfs, IsLibcfs, LustreMsg}
use lustre_tools.Message.Layout.{
  sum_sizes, sum_sizes_mono, sum_sizes_next, sum_sizes_cong, hdr_size, FitsInt,
}
use lustre_tools.Message.Shrink.{memmove}

-- A shorter buffer takes no more room.
round_mono :
    (l : Libcfs) (v w : ℕ)
    → IsLibcfs l
    → v ≤ w
    → w + 8 ≤ 2 ^ 31
    → l.cfs_size_round v ≤ l.cfs_size_round w
round_mono l v w h vw k = omega (
  arith,
  h.rounds_near v (omega arith),
  h.rounds_eights v (omega arith),
  h.rounds_up w k,
  h.rounds_eights w k,
)

memmove_inside :
    (dst src len a : ℕ) (mem : Memory)
    → dst ≤ a
    → a < dst + len
    → memmove dst src len mem a ≡ mem (src + (a - dst))
unfolding memmove
memmove_inside dst src len a mem h k = ground arith

pub sum_sizes_split :
    (l : Libcfs) (lens : ℕ → ℕ) (s n : ℕ)
    → sum_sizes l lens (s + n) ≡ sum_sizes l lens s + sum_sizes l (λ i. lens (s + i)) n
sum_sizes_split l lens s zero = omega (arith, ap (λ (t : ℕ). sum_sizes l lens t) (s_zero s))
  where
    s_zero : (s : ℕ) → s + 0 ≡ s
    s_zero s = omega arith
sum_sizes_split l lens s (suc n) =
    ap (λ (t : ℕ). sum_sizes l lens t) (s_suc s n) ∙ omega (arith, sum_sizes_split l lens s n)
  where
    s_suc : (s n : ℕ) → s + suc n ≡ suc (s + n)
    s_suc s n = omega arith

module _ (l : Libcfs) (m : LustreMsg) (segment newlen : ℕ) where
  abbrev pub shorter : ℕ → ℕ
  shorter = update m.lm_buflens segment newlen

  before_segment : (n : ℕ) → n ≤ segment → sum_sizes l shorter n ≡ sum_sizes l m.lm_buflens n
  before_segment n k = sum_sizes_cong l shorter m.lm_buflens n (λ i j. ground arith)

  pub shorter_own : shorter segment ≡ newlen
  shorter_own = ground arith

  pub behind_segment :
      (n : ℕ)
      → segment < n
      → sum_sizes l shorter n + l.cfs_size_round (m.lm_buflens segment)
        ≡ sum_sizes l m.lm_buflens n + l.cfs_size_round newlen
  behind_segment zero k = absurd (omega arith)
  behind_segment (suc n) k = elim (Bool-cases (n == segment)) [
    | inl t ↦
        let at_segment : n ≡ segment = ground arith in
        rw at_segment
          (omega (arith, ap l.cfs_size_round shorter_own, before_segment segment (omega arith)))
    | inr t ↦
        let other : shorter n ≡ m.lm_buflens n = ground arith in
        omega (arith, ap l.cfs_size_round other, behind_segment n (ground arith))
  ]

  module _ (h : IsLibcfs l) (fits : FitsInt l m.lm_bufcount m.lm_buflens)
      (within : segment < m.lm_bufcount) (less : newlen ≤ m.lm_buflens segment) where
    shorter_le : (i : ℕ) → shorter i ≤ m.lm_buflens i
    shorter_le i = ground arith

    pub round_less : l.cfs_size_round newlen ≤ l.cfs_size_round (m.lm_buflens segment)
    round_less = round_mono l newlen (m.lm_buflens segment) h less (fits.each segment within)

    pub fits_shorter : FitsInt l m.lm_bufcount shorter
    fits_shorter = record {
      header = fits.header;
      each = λ i k. omega (arith, shorter_le i, fits.each i k);
      whole = omega (arith, fits.whole, round_less, behind_segment m.lm_bufcount within);
    }

    abbrev pub start : ℕ
    start = hdr_size l m.lm_bufcount

    -- Every byte of every buffer, up to its new length, is found in `mem` at its new place.
    abbrev pub Kept : Memory → Type 0
    Kept mem =
        (k i : ℕ)
        → k < m.lm_bufcount
        → i < shorter k
        → mem (start + sum_sizes l shorter k + i) ≡ m.bytes (start + sum_sizes l m.lm_buflens k + i)

    buffer_end : (k i : ℕ) → k < m.lm_bufcount → i < shorter k → i < l.cfs_size_round (shorter k)
    buffer_end k i kc ik = omega (arith, h.rounds_up (shorter k) (fits_shorter.each k kc))

    kept_before :
        (k i : ℕ)
        → k ≤ segment
        → m.bytes (start + sum_sizes l shorter k + i)
          ≡ m.bytes (start + sum_sizes l m.lm_buflens k + i)
    kept_before k i ks = ap (λ (t : ℕ). m.bytes (start + t + i)) (before_segment k ks)

    moved_before :
        (dst src len k i : ℕ)
        → dst ≡ start + sum_sizes l shorter (suc segment)
        → k ≤ segment
        → k < m.lm_bufcount
        → i < shorter k
        → memmove dst src len m.bytes (start + sum_sizes l shorter k + i)
          ≡ m.bytes (start + sum_sizes l shorter k + i)
    unfolding memmove
    moved_before dst src len k i d ks kc ik =
        ground
          (arith, d, buffer_end k i kc ik, sum_sizes_next l shorter k (suc segment) (omega arith))

    moved_behind :
        (dst src len k i : ℕ)
        → dst ≡ start + sum_sizes l shorter (suc segment)
        → src ≡ start + sum_sizes l m.lm_buflens (suc segment)
        → len + sum_sizes l m.lm_buflens (suc segment) ≡ sum_sizes l m.lm_buflens m.lm_bufcount
        → segment < k
        → k < m.lm_bufcount
        → i < shorter k
        → memmove dst src len m.bytes (start + sum_sizes l shorter k + i)
          ≡ m.bytes (start + sum_sizes l m.lm_buflens k + i)
    moved_behind dst src len k i d e n ks kc ik =
        let other : shorter k ≡ m.lm_buflens k = ground arith in
        let room : i < l.cfs_size_round (m.lm_buflens k) =
          omega (arith, ap l.cfs_size_round other, buffer_end k i kc ik) in
        memmove_inside dst src len (start + sum_sizes l shorter k + i) m.bytes
          (omega (arith, d, sum_sizes_mono l shorter (suc segment) k))
          (omega (
            arith,
            d,
            n,
            behind_segment k ks,
            behind_segment (suc segment) (omega arith),
            sum_sizes_next l m.lm_buflens k m.lm_bufcount kc,
          ))
        ∙ ap m.bytes (
            omega (
              arith,
              d,
              e,
              behind_segment k ks,
              behind_segment (suc segment) (omega arith),
              sum_sizes_mono l shorter (suc segment) k,
            ))

    pub moved-Kept :
        (dst src len : ℕ)
        → dst ≡ start + sum_sizes l shorter (suc segment)
        → src ≡ start + sum_sizes l m.lm_buflens (suc segment)
        → len + sum_sizes l m.lm_buflens (suc segment) ≡ sum_sizes l m.lm_buflens m.lm_bufcount
        → Kept (memmove dst src len m.bytes)
    moved-Kept dst src len d e n k i kc ik = elim (Bool-cases (leb k segment)) [
      | inl t ↦ moved_before dst src len k i d (ground arith) kc ik ∙ kept_before k i (ground arith)
      | inr t ↦ moved_behind dst src len k i d e n (ground arith) kc ik
    ]

    -- Nothing stands behind the segment that has a byte.
    pub alone-Kept :
        sum_sizes l m.lm_buflens m.lm_bufcount ≡ sum_sizes l m.lm_buflens (suc segment)
        → Kept m.bytes
    alone-Kept none_behind k i kc ik = elim (Bool-cases (leb k segment)) [
      | inl t ↦ kept_before k i (ground arith)
      | inr t ↦
          let other : shorter k ≡ m.lm_buflens k = ground arith in
          absurd (
            ground (
              arith,
              none_behind,
              ap l.cfs_size_round other,
              buffer_end k i kc ik,
              sum_sizes_next l m.lm_buflens k m.lm_bufcount kc,
              sum_sizes_mono l m.lm_buflens (suc segment) k,
            ))
    ]

    -- The shorter buffer takes the same room.
    pub level-Kept :
        sum_sizes l shorter (suc segment) ≡ sum_sizes l m.lm_buflens (suc segment) → Kept m.bytes
    level-Kept same k i kc ik = elim (Bool-cases (leb k segment)) [
      | inl t ↦ kept_before k i (ground arith)
      | inr t ↦ ap m.bytes (
          omega (
            arith,
            same,
            behind_segment k (ground arith),
            behind_segment (suc segment) (omega arith),
          ))
    ]
