-- ===== src/Message/Checks.antt =====
-- What a message has that lustre_unpack_msg of pack_generic.c accepts.
use lustre_tools.Base.{
  ℕ, zero, suc, ◌+◌, ◌*◌, ◌%◌, ◌^◌, ◌≤◌, ◌<◌, ◌≡◌, refl, ap, ◌∙◌, ◌≢◌, inl, inr, Bool, false, ◌==◌,
  if◌then◌else◌, Bool-cases, ℤ, pos, ltb_ℤ, signed32, success, einval, arith,
}
use lustre_tools.Message.{
  Libcfs, IsLibcfs, LustreMsg, lustre_msg_magic_v2_swabbed, lustre_msg_hdr_size_v2, add_sizes,
  lustre_msg_size_v2,
}
use lustre_tools.Message.Layout.{
  sum_sizes, hdr_size, hdr_size_lem, FitsInt, offset_lem, size_lem, add_sizes_cong,
}
use lustre_tools.Message.Unpack.{check_lens, lustre_unpack_msg_v2, lustre_unpack_msg}

-- Nothing is turned in a message of the receiver's byte order.
pub native_lens :
    (l : Libcfs) (lens : ℕ → ℕ) (size n : ℕ)
    → check_lens l false (lens, size) n ≡ (lens, add_sizes l size lens n)
unfolding check_lens add_sizes
native_lens l lens size zero = refl
native_lens l lens size (suc n) = rw (native_lens l lens size n) refl

-- An index that the loop has not reached keeps its word.
pub later_lens :
    (l : Libcfs) (swabbed : Bool) (start : (ℕ → ℕ) × ℕ) (n i : ℕ)
    → n ≤ i
    → (check_lens l swabbed start n).0 i ≡ start.0 i
unfolding check_lens
later_lens l swabbed start zero i h = refl
later_lens l swabbed start (suc n) i h = elim (Bool-cases swabbed) [
  | inl t ↦ ground (arith, later_lens l swabbed start n i)
  | inr t ↦ ground (arith, later_lens l swabbed start n i)
]

-- `required_len` is the sum over the lengths as they are left.
pub required_len_lem :
    (l : Libcfs) (swabbed : Bool) (lens : ℕ → ℕ) (size n : ℕ)
    → (check_lens l swabbed (lens, size) n).1
      ≡ add_sizes l size (check_lens l swabbed (lens, size) n).0 n
unfolding check_lens add_sizes
required_len_lem l swabbed lens size zero = refl
required_len_lem l swabbed lens size (suc n) =
    let was = check_lens l swabbed (lens, size) n in
    let now = check_lens l swabbed (lens, size) (suc n) in
    ap (λ (s : ℕ). (s + l.cfs_size_round (now.0 n)) % 2 ^ 32)
      (required_len_lem l swabbed lens size n
        ∙ add_sizes_cong l size was.0 now.0 n (λ i k. earlier i k))
  where
    earlier :
        (i : ℕ)
        → i < n
        → (check_lens l swabbed (lens, size) n).0 i
          ≡ (check_lens l swabbed (lens, size) (suc n)).0 i
    earlier i k = elim (Bool-cases swabbed) [ inl t ↦ ground arith | inr t ↦ ground arith ]

pub signed32_self : (u : ℕ) → u < 2 ^ 31 → signed32 u ≡ pos u
unfolding signed32
signed32_self u h = ground arith

-- The tests ask for 12, 32, the header and the whole, each no more than the next.
tests_in_turn :
    (m : LustreMsg) (len : ℤ) (h whole : ℕ)
    → 32 ≤ h
    → h ≤ whole
    → ◌≡◌ {A = LustreMsg × ℤ}
        (if ltb_ℤ len (pos 12)
          then (m, einval)
          else if ltb_ℤ len (pos 32)
          then (m, einval)
          else if ltb_ℤ len (pos h)
          then (m, einval)
          else if ltb_ℤ len (pos whole)
          then (m, einval)
          else (m, success))
        (m, (if ltb_ℤ len (pos whole) then einval else success))
tests_in_turn m len h whole k k' = ground arith

pub least_size : (l : Libcfs) → IsLibcfs l → lustre_msg_hdr_size_v2 l 0 ≡ 32
unfolding lustre_msg_hdr_size_v2
least_size l h = omega (
  arith,
  h.rounds_up 32 (omega arith),
  h.rounds_near 32 (omega arith),
  h.rounds_eights 32 (omega arith),
)

-- A message in the receiver's order that an int can measure is accepted exactly when as many bytes
-- came as its buffers need, and it is left as it was.
pub unpack_msg-size :
    (l : Libcfs) (m : LustreMsg) (len : ℤ)
    → IsLibcfs l
    → FitsInt l m.lm_bufcount m.lm_buflens
    → m.lm_magic ≢ lustre_msg_magic_v2_swabbed
    → lustre_unpack_msg l m len ≡ (
      m,
      (if ltb_ℤ len (pos (lustre_msg_size_v2 l m.lm_bufcount m.lm_buflens))
          then einval
          else success),
    )
unfolding lustre_unpack_msg lustre_unpack_msg_v2
unpack_msg-size l m len h fits native =
    let test : (m.lm_magic == lustre_msg_magic_v2_swabbed) ≡ false = ground arith in
    let size : lustre_msg_size_v2 l m.lm_bufcount m.lm_buflens
        ≡ hdr_size l m.lm_bufcount + sum_sizes l m.lm_buflens m.lm_bufcount =
      size_lem l m.lm_bufcount m.lm_buflens fits in
    rw
      (
        size,
        test,
        native_lens l m.lm_buflens (lustre_msg_hdr_size_v2 l m.lm_bufcount) m.lm_bufcount,
        least_size l h,
        offset_lem l m.lm_bufcount m.lm_buflens fits m.lm_bufcount (omega arith),
        hdr_size_lem l m.lm_bufcount m.lm_buflens fits,
        signed32_self (hdr_size l m.lm_bufcount) (omega (arith, fits.whole)),
        signed32_self 32 (omega arith),
        signed32_self _ fits.whole,
      )
      (tests_in_turn m len _ _ (omega (arith, h.rounds_up (32 + 4 * m.lm_bufcount) fits.header))
        (omega arith))
