-- ===== src/Message/Accepted.antt =====
-- lustre_unpack_msg of pack_generic.c: the buffers of a message that it accepts lie within the bytes
-- that came, but for sizes that wrap around.
use lustre_tools.Base.{
  ℕ, ◌+◌, ◌^◌, ◌≤◌, ◌<◌, ◌≡◌, refl, sym, ap, ◌∙◌, ◌≢◌, ◌⊎◌, inl, inr, Bool, true, false, ◌||◌, some,
  ◌==◌, if◌then◌else◌, Bool-cases, ℤ, pos, ◌≤ℤ◌, ltb_ℤ, signed32, success, einval, arith,
}
use lustre_tools.Message.{
  Libcfs, IsLibcfs, LustreMsg, lustre_msg_magic_v2_swabbed, lustre_msg_hdr_size_v2, add_sizes,
  lustre_msg_size_v2, lustre_msg_buf_v2,
}
use lustre_tools.Message.Layout.{FitsInt, buffer_within, size_lem, add_sizes_sum, buf_some}
use lustre_tools.Message.Unpack.{swab_header, check_lens, lustre_unpack_msg_v2, lustre_unpack_msg}
use lustre_tools.Message.Checks.{required_len_lem, signed32_self, native_lens, least_size}

module _ (l : Libcfs) (m : LustreMsg) where
  abbrev pub from_foreign : Bool
  from_foreign = m.lm_magic == lustre_msg_magic_v2_swabbed

  abbrev pub turned : LustreMsg
  turned = if from_foreign then swab_header m else m

  abbrev pub checked : (ℕ → ℕ) × ℕ
  checked =
      check_lens l from_foreign (turned.lm_buflens, lustre_msg_hdr_size_v2 l turned.lm_bufcount)
        turned.lm_bufcount

  abbrev pub read_msg : LustreMsg
  read_msg = record turned { lm_buflens = checked.0 }

  -- The four tests of the length in their order.
  abbrev pub too_short : ℤ → Bool
  too_short len =
      ltb_ℤ len (pos 12)
      || ltb_ℤ len (signed32 (lustre_msg_hdr_size_v2 l 0))
      || ltb_ℤ len (signed32 (lustre_msg_hdr_size_v2 l turned.lm_bufcount))
      || ltb_ℤ len (signed32 checked.1)

  pub last_test : (len : ℤ) → too_short len ≡ false → ltb_ℤ len (signed32 checked.1) ≡ false
  last_test len h = ground arith

  -- A message is refused, or every test passed.
  pub unpack_cases :
      (len : ℤ)
      → (((lustre_unpack_msg l m len).1 ≡ einval) × (too_short len ≡ true))
        ⊎ ((lustre_unpack_msg l m len ≡ (read_msg, (if from_foreign then pos 1 else success)))
            × (too_short len ≡ false))
  unfolding lustre_unpack_msg lustre_unpack_msg_v2
  unpack_cases len = elim (Bool-cases (ltb_ℤ len (pos 12))) [
    | inl t ↦ rw t (inl (refl, refl))
    | inr t ↦ elim (Bool-cases (ltb_ℤ len (signed32 (lustre_msg_hdr_size_v2 l 0)))) [
      | inl u ↦ rw (t, u) (inl (refl, refl))
      | inr u ↦
          elim (Bool-cases (ltb_ℤ len (signed32 (lustre_msg_hdr_size_v2 l turned.lm_bufcount)))) [
            | inl v ↦ rw (t, u, v) (inl (refl, refl))
            | inr v ↦ elim (Bool-cases (ltb_ℤ len (signed32 checked.1))) [
              | inl w ↦ rw (t, u, v, w) (inl (refl, refl))
              | inr w ↦ rw (t, u, v, w) (inr (refl, refl))
            ]
          ]
    ]
  ]

required_is_size :
    (l : Libcfs) (m : LustreMsg)
    → (checked l m).1 ≡ lustre_msg_size_v2 l (read_msg l m).lm_bufcount (read_msg l m).lm_buflens
unfolding lustre_msg_size_v2
required_is_size l m =
    required_len_lem l (from_foreign l m) (turned l m).lm_buflens
      (lustre_msg_hdr_size_v2 l (turned l m).lm_bufcount) (turned l m).lm_bufcount

-- A message that is accepted and that an int can measure, of either byte order, holds all its
-- buffers within the bytes that came.
pub accepted_within :
    (l : Libcfs) (m m' : LustreMsg) (len rc : ℤ) (n a : ℕ)
    → IsLibcfs l
    → lustre_unpack_msg l m len ≡ (m', rc)
    → rc ≢ einval
    → FitsInt l m'.lm_bufcount m'.lm_buflens
    → lustre_msg_buf_v2 l m' n 0 ≡ some a
    → pos (a + m'.lm_buflens n) ≤ℤ len
accepted_within l m m' len rc n a h e ok fits found = elim (unpack_cases l m len) [
  | inl (t, _) ↦ absurd (ok (ap (λ r. r.1) (sym e) ∙ t))
  | inr (t, u) ↦
      let m'_lem : m' ≡ read_msg l m = ap (λ r. r.0) (sym e ∙ t) in
      let required : (checked l m).1 ≡ lustre_msg_size_v2 l m'.lm_bufcount m'.lm_buflens =
        rw m'_lem (required_is_size l m) in
      let whole : lustre_msg_size_v2 l m'.lm_bufcount m'.lm_buflens < 2 ^ 31 =
        omega (arith, size_lem l m'.lm_bufcount m'.lm_buflens fits, fits.whole) in
      let long_enough : ltb_ℤ len (pos (lustre_msg_size_v2 l m'.lm_bufcount m'.lm_buflens))
          ≡ false =
        ap (λ z. ltb_ℤ len z) (sym (ap signed32 required ∙ signed32_self _ whole))
        ∙ last_test l m len u in
      ground (arith, long_enough, buffer_within l m' n a h fits found)
]

header_of_two : (l : Libcfs) → IsLibcfs l → lustre_msg_hdr_size_v2 l 2 ≡ 40
unfolding lustre_msg_hdr_size_v2
header_of_two l h = omega (
  arith,
  h.rounds_up 40 (omega arith),
  h.rounds_near 40 (omega arith),
  h.rounds_eights 40 (omega arith),
)

abbrev TooLong : (ℕ → ℕ) → Type 0
TooLong lens = (i : ℕ) → i < 2 → (2 ^ 30 ≤ lens i) × (lens i + 64 ≤ 2 ^ 31)

rounded :
    (l : Libcfs) (lens : ℕ → ℕ) (i : ℕ)
    → IsLibcfs l
    → TooLong lens
    → i < 2
    → (2 ^ 30 ≤ l.cfs_size_round (lens i)) × (l.cfs_size_round (lens i) + 56 < 2 ^ 31)
rounded l lens i h long k = omega (
  arith,
  long i k,
  h.rounds_up (lens i) (omega (arith, long i k)),
  h.rounds_near (lens i) (omega (arith, long i k)),
)

two_sizes :
    (l : Libcfs) (lens : ℕ → ℕ)
    → IsLibcfs l
    → TooLong lens
    → add_sizes l 40 lens 2 ≡ 40 + (l.cfs_size_round (lens 0) + l.cfs_size_round (lens 1))
two_sizes l lens h long = ground (
  arith,
  add_sizes_sum l 40 lens 2,
  rounded l lens 0 h long (omega arith),
  rounded l lens 1 h long (omega arith),
)

first_size :
    (l : Libcfs) (lens : ℕ → ℕ)
    → IsLibcfs l
    → TooLong lens
    → add_sizes l 40 lens 1 ≡ 40 + l.cfs_size_round (lens 0)
first_size l lens h long =
    ground (arith, add_sizes_sum l 40 lens 1, rounded l lens 0 h long (omega arith))

-- A sum from 2 ^ 31 on is a negative int.
tests_pass :
    (m : LustreMsg) (len whole : ℕ)
    → 40 ≤ len
    → 2 ^ 31 ≤ whole
    → whole < 2 ^ 32
    → ◌≡◌ {A = LustreMsg × ℤ}
        (if ltb_ℤ (pos len) (pos 12)
          then (m, einval)
          else if ltb_ℤ (pos len) (pos 32)
          then (m, einval)
          else if ltb_ℤ (pos len) (pos 40)
          then (m, einval)
          else if ltb_ℤ (pos len) (signed32 whole)
          then (m, einval)
          else (m, success))
        (m, success)
unfolding signed32
tests_pass m len whole h k k' = ground arith

-- Nor is a message safe whose buffers sum to more than an int: with two lengths from 2 ^ 30 to
-- 2 ^ 31 - 64 the sum wraps around, a message of 40 bytes or more in the receiver's order with such
-- lengths is accepted, and its second buffer begins behind 2 ^ 30.
pub unpack_forged :
    (l : Libcfs) (m : LustreMsg) (len : ℕ)
    → IsLibcfs l
    → m.lm_magic ≢ lustre_msg_magic_v2_swabbed
    → m.lm_bufcount ≡ 2
    → TooLong m.lm_buflens
    → 40 ≤ len
    → (a : ℕ) × (lustre_unpack_msg l m (pos len) ≡ (m, success))
      × (lustre_msg_buf_v2 l m 1 0 ≡ some a)
      × (2 ^ 30 < a)
unfolding lustre_unpack_msg lustre_unpack_msg_v2
unpack_forged l m len h native two long enough =
    let test : (m.lm_magic == lustre_msg_magic_v2_swabbed) ≡ false = ground arith in
    (
      40 + l.cfs_size_round (m.lm_buflens 0),
      rw
          (
            test,
            native_lens l m.lm_buflens (lustre_msg_hdr_size_v2 l m.lm_bufcount) m.lm_bufcount,
            two,
            least_size l h,
            header_of_two l h,
            two_sizes l m.lm_buflens h long,
            signed32_self 32 (omega arith),
            signed32_self 40 (omega arith),
          )
          (tests_pass (record m { lm_bufcount = 2 }) len _ enough
            (omega (
              arith,
              rounded l m.lm_buflens 0 h long (omega arith),
              rounded l m.lm_buflens 1 h long (omega arith),
            ))
            (omega (
              arith,
              rounded l m.lm_buflens 0 h long (omega arith),
              rounded l m.lm_buflens 1 h long (omega arith),
            ))),
      buf_some l m 1 0 (omega arith) (omega arith)
          ∙ ap some (rw (two, header_of_two l h) (first_size l m.lm_buflens h long)),
      omega (arith, rounded l m.lm_buflens 0 h long (omega arith)),
    )
