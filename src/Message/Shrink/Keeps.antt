-- ===== src/Message/Shrink/Keeps.antt =====
-- lustre_shrink_msg_v2 succeeds, and what it keeps.
use lustre_tools.Base.{
  ℕ, suc, ◌+◌, ◌-◌, ◌≤◌, ◌<◌, ◌≡◌, refl, sym, ap, ◌∙◌, inl, inr, true, some, ltb, lt→ltb, le→leb,
  ◌==◌, update, Bool-cases, arith,
}
use mathlib.Core.Path.{fun_ext}
use lustre_tools.Message.{
  Memory, Libcfs, IsLibcfs, LustreMsg, lustre_msg_size_v2, lustre_msg_buf_v2,
}
use lustre_tools.Message.Layout.{sum_sizes, hdr_size, FitsInt, offset_lem, add_sizes_sum, buf_some}
use lustre_tools.Message.Shrink.{
  memmove, tail_length, move_tail, shrink_segment, lustre_shrink_msg_v2,
}
use lustre_tools.Message.Shrink.Moved.{
  sum_sizes_split, shorter, shorter_own, behind_segment, round_less, alone-Kept, level-Kept,
  moved-Kept, Kept, start, fits_shorter,
}

module _ (l : Libcfs) (m : LustreMsg) (segment newlen : ℕ) where
  module _ (h : IsLibcfs l) (fits : FitsInt l m.lm_bufcount m.lm_buflens)
      (within : segment < m.lm_bufcount) (less : newlen ≤ m.lm_buflens segment) where
    one_more : segment + 1 ≡ suc segment
    one_more = omega arith

    next : sum_sizes l m.lm_buflens (segment + 1) ≡ sum_sizes l m.lm_buflens (suc segment)
    next = ap (λ (t : ℕ). sum_sizes l m.lm_buflens t) one_more

    tail_length_lem :
        tail_length l m segment + sum_sizes l m.lm_buflens (suc segment)
        ≡ sum_sizes l m.lm_buflens m.lm_bufcount
    unfolding tail_length
    tail_length_lem =
        let behind : ℕ = m.lm_bufcount - (segment + 1) in
        let all : segment + 1 + behind ≡ m.lm_bufcount = omega arith in
        let split : sum_sizes l m.lm_buflens m.lm_bufcount
            ≡ sum_sizes l m.lm_buflens (segment + 1)
              + sum_sizes l (λ i. m.lm_buflens (segment + 1 + i)) behind =
          ap (λ (t : ℕ). sum_sizes l m.lm_buflens t) (sym all)
          ∙ sum_sizes_split l m.lm_buflens (segment + 1) behind in
        omega (
          arith,
          split,
          next,
          add_sizes_sum l 0 (λ i. m.lm_buflens (segment + 1 + i)) behind
              (omega (arith, split, fits.whole)),
        )

    abbrev tail : ℕ
    tail = (start l m segment newlen h fits within less) + sum_sizes l m.lm_buflens (suc segment)

    abbrev newpos : ℕ
    newpos =
        (start l m segment newlen h fits within less)
        + sum_sizes l (shorter l m segment newlen) (suc segment)

    old_place : segment + 1 < m.lm_bufcount → lustre_msg_buf_v2 l m (segment + 1) 0 ≡ some tail
    old_place k =
        buf_some l m (segment + 1) 0 k (omega arith)
        ∙ ap some (
            offset_lem l m.lm_bufcount m.lm_buflens fits (segment + 1) (omega arith)
            ∙ ap (λ (t : ℕ). (start l m segment newlen h fits within less) + t) next)

    new_place :
        segment + 1 < m.lm_bufcount
        → lustre_msg_buf_v2 l
            (record m { lm_buflens = (shorter l m segment newlen) })
            (segment + 1)
            0
          ≡ some newpos
    new_place k =
        buf_some l (record m { lm_buflens = (shorter l m segment newlen) }) (segment + 1) 0 k
          (omega arith)
        ∙ ap some (
            offset_lem l m.lm_bufcount (shorter l m segment newlen)
              (fits_shorter l m segment newlen h fits within less) (segment + 1) (omega arith)
            ∙ ap
                (λ (t : ℕ).
                  (start l m segment newlen h fits within less)
                  + sum_sizes l (shorter l m segment newlen) t)
                one_more)

    newpos_le : newpos ≤ tail
    newpos_le = omega (
      arith,
      (round_less l m segment newlen h fits within less),
      (behind_segment l m segment newlen) (suc segment) (omega arith),
    )

    -- The message after the shrinking: the new length, and every byte that it keeps.
    shrunk_cases :
        (mem : Memory) × (shrink_segment l m segment newlen true
          ≡ some (record m { lm_buflens = (shorter l m segment newlen); bytes = mem }))
        × (Kept l m segment newlen h fits within less) mem
    unfolding shrink_segment move_tail
    shrunk_cases = elim (Bool-cases (ltb (segment + 1) m.lm_bufcount)) [
      | inr t ↦ (
        m.bytes,
        rw (shrink_segment, t) refl,
        (let last : m.lm_bufcount ≡ suc segment = ground arith in
            (alone-Kept l m segment newlen h fits within less)
              (ap (λ (n : ℕ). sum_sizes l m.lm_buflens n) last)),
      )
      | inl t ↦
          let more : segment + 1 < m.lm_bufcount = ground arith in
          elim (Bool-cases (tail_length l m segment == 0)) [
            | inl u ↦ (
              m.bytes,
              rw (shrink_segment, t, old_place more, u) refl,
              (alone-Kept l m segment newlen h fits within less) (ground (arith, tail_length_lem)),
            )
            | inr u ↦ elim (Bool-cases (newpos == tail)) [
              | inl v ↦ (
                m.bytes,
                rw
                    (
                      shrink_segment,
                      t,
                      old_place more,
                      u,
                      new_place more,
                      le→leb newpos tail newpos_le,
                      v,
                    )
                    refl,
                (level-Kept l m segment newlen h fits within less) (ground arith),
              )
              | inr v ↦ (
                memmove newpos tail (tail_length l m segment) m.bytes,
                rw
                    (
                      shrink_segment,
                      t,
                      old_place more,
                      u,
                      new_place more,
                      le→leb newpos tail newpos_le,
                      v,
                    )
                    refl,
                (moved-Kept l m segment newlen h fits within less) newpos tail
                    (tail_length l m segment) refl refl tail_length_lem,
              )
            ]
          ]
    ]

    same_lens : m.lm_buflens segment ≡ newlen → (shorter l m segment newlen) ≡ m.lm_buflens
    same_lens e = fun_ext (λ i. elim (Bool-cases (i == segment)) [
      | inl t ↦
          let at_segment : i ≡ segment = ground arith in
          rw at_segment ((shorter_own l m segment newlen) ∙ sym e)
      | inr t ↦ ground arith
    ])

    shrink_cases :
        (mem : Memory) × (lustre_shrink_msg_v2 l m segment newlen true
          ≡ some (
            record m { lm_buflens = (shorter l m segment newlen); bytes = mem },
            lustre_msg_size_v2 l m.lm_bufcount (shorter l m segment newlen),
          ))
        × (Kept l m segment newlen h fits within less) mem
    unfolding lustre_shrink_msg_v2
    shrink_cases = elim (Bool-cases (m.lm_buflens segment == newlen)) [
      | inl t ↦
          let same : (shorter l m segment newlen) ≡ m.lm_buflens = same_lens (ground arith) in
          (
            m.bytes,
            rw (lt→ltb segment m.lm_bufcount within, le→leb newlen (m.lm_buflens segment) less, t)
                (ap
                  (λ (f : ℕ → ℕ).
                    some (record m { lm_buflens = f }, lustre_msg_size_v2 l m.lm_bufcount f))
                  (sym same)),
            (level-Kept l m segment newlen h fits within less)
                (ap (λ (f : ℕ → ℕ). sum_sizes l f (suc segment)) same),
          )
      | inr t ↦
          let (mem, e, kept) = shrunk_cases in
          (
            mem,
            rw
                (
                  lt→ltb segment m.lm_bufcount within,
                  le→leb newlen (m.lm_buflens segment) less,
                  t,
                  e,
                )
                refl,
            kept,
          )
    ]

-- In a message whose header and rounded buffers sum to less than 2^31 and whose lengths are each 8 below
-- 2^31 (`FitsInt`), shrinking a buffer to a length that is not greater, with its data moved, succeeds
-- and gives the size of the shorter message; every buffer is found in it, and holds up to its new
-- length the bytes that it held.
pub shrink_msg-keeps :
    (l : Libcfs) (m : LustreMsg) (segment newlen : ℕ)
    → IsLibcfs l
    → FitsInt l m.lm_bufcount m.lm_buflens
    → segment < m.lm_bufcount
    → newlen ≤ m.lm_buflens segment
    → (m' : LustreMsg) × (lustre_shrink_msg_v2 l m segment newlen true
        ≡ some (m', lustre_msg_size_v2 l m.lm_bufcount (update m.lm_buflens segment newlen)))
      × ((k i : ℕ)
          → k < m.lm_bufcount
          → i < update m.lm_buflens segment newlen k
          → (a b : ℕ) × (lustre_msg_buf_v2 l m' k 0 ≡ some a)
            × (lustre_msg_buf_v2 l m k 0 ≡ some b)
            × (m'.bytes (a + i) ≡ m.bytes (b + i)))
shrink_msg-keeps l m segment newlen h fits within less =
    let (mem, e, kept) = shrink_cases l m segment newlen h fits within less in
    let lens : ℕ → ℕ = update m.lm_buflens segment newlen in
    let fits' : FitsInt l m.lm_bufcount lens = fits_shorter l m segment newlen h fits within less in
    let m' : LustreMsg = record m { lm_buflens = lens; bytes = mem } in
    (
      m',
      e,
      λ k i kc ik. (
        hdr_size l m.lm_bufcount + sum_sizes l lens k,
        hdr_size l m.lm_bufcount + sum_sizes l m.lm_buflens k,
        buf_some l m' k 0 kc (omega arith)
            ∙ ap some (offset_lem l m.lm_bufcount lens fits' k (omega arith)),
        buf_some l m k 0 kc (omega arith)
            ∙ ap some (offset_lem l m.lm_bufcount m.lm_buflens fits k (omega arith)),
        kept k i kc ik,
      ),
    )
